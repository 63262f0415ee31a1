-- ===== src/Contracts/Deploy/Local.antt =====
-- tasks/deploy-local.ts: the deployment to a local node, without prompts and with a WETH contract of
-- its own as the first one.
use web3_nft.Prelude.{
  ℕ, ◌+◌, String, ◌≡◌, refl, sym, ap, ◌∙◌, inl, inr, Option, none, some, List, [], ◌∷◌, ◌++◌,
  str_eq, ◌==◌, if◌then◌else◌, Bool-cases,
}
use mathlib.Core.List.{append_assoc, append-nil}
use mathlib.Core.Option
use native.Mathlib.Nat.{add_assoc, add-zero}
use web3_nft.Contracts.Deploy.{
  ContractName, weth, nft_descriptor, words_descriptor, words_seeder, words_token,
  words_auction_house, words_auction_house_proxy_admin, words_auction_house_proxy,
  words_dao_executor, words_dao_logic_v1, words_dao_proxy, place, value_of, Contract, Deployer,
  Args, Progress, deploy_one, start, plain, descriptor_contract, token_contract,
  auction_house_proxy_contract, executor_contract, dao_proxy_contract,
}
use web3_nft.Contracts.Deploy.Addresses.{entries, wired}

abbrev local_auction_house_proxy_nonce_offset : ℕ
local_auction_house_proxy_nonce_offset = 7

abbrev local_governor_n_delegator_nonce_offset : ℕ
local_governor_n_delegator_nonce_offset = 10

-- `args.worddersdao || deployer.address`
abbrev pub wordders_dao_or_deployer : Deployer → Args → String
wordders_dao_or_deployer deployer args =
    if str_eq args.wordders_dao "" then deployer.address else args.wordders_dao

pub local_contracts_of : Deployer → Args → ℕ → List (ContractName × Contract)
local_contracts_of deployer args nonce =
    let minter = deployer.get_contract_address (nonce + local_auction_house_proxy_nonce_offset) in
    let admin = deployer.get_contract_address (nonce + local_governor_n_delegator_nonce_offset) in
    let wordders_dao = wordders_dao_or_deployer deployer args in
    (weth, plain)
    ∷ (nft_descriptor, plain)
    ∷ (words_descriptor, descriptor_contract)
    ∷ (words_seeder, plain)
    ∷ (words_token, token_contract wordders_dao minter "0xa5409ec958c83c3f309868babaca7c86dcb077c1")
    ∷ (words_auction_house, plain)
    ∷ (words_auction_house_proxy_admin, plain)
    ∷ (
      words_auction_house_proxy,
      auction_house_proxy_contract args (λ contracts. value_of (contracts weth)),
    )
    ∷ (words_dao_executor, executor_contract args admin)
    ∷ (words_dao_logic_v1, plain)
    ∷ (words_dao_proxy, dao_proxy_contract args wordders_dao)
    ∷ []

-- Every contract is deployed without a prompt.
pub deploy_all : Deployer → List (ContractName × Contract) → Progress → Progress
deploy_all deployer [] p = p
deploy_all deployer ((name, contract) ∷ rest) p =
    deploy_all deployer rest (deploy_one deployer name contract p)

-- Nothing is deployed to another network.
pub deploy_local : Deployer → Args → ℕ → Option Progress
deploy_local deployer args nonce =
    if args.chain_id == 31337
    then some (deploy_all deployer (local_contracts_of deployer args nonce) (start nonce))
    else none

pub deploy_all-entries :
    (deployer : Deployer) (cs : List (ContractName × Contract)) (p : Progress)
    → (deploy_all deployer cs p).deployments ≡ p.deployments ++ entries deployer cs p
unfolding deploy_all entries deploy_one
deploy_all-entries deployer [] p = sym (append-nil p.deployments)
deploy_all-entries deployer ((name, contract) ∷ rest) p =
    deploy_all-entries deployer rest (deploy_one deployer name contract p)
    ∙ append_assoc p.deployments _ _

-- The address of a contract of the local list, by the nonce of its transaction.
pub local_address_at : Deployer → ℕ → ContractName → String
local_address_at deployer nonce name = deployer.get_contract_address (nonce + place name)

-- The task's arguments as the local node has them: its own WETH, the registry of the main network.
pub local_args : Deployer → Args → ℕ → Args
local_args deployer args nonce = record args {
  chain_id = 1;
  wordders_dao = wordders_dao_or_deployer deployer args;
  weth_address = local_address_at deployer nonce weth;
}

local_entries-wired :
    (deployer : Deployer) (args : Args) (nonce : ℕ)
    → entries deployer (local_contracts_of deployer args nonce) (start nonce)
      ≡ record {
        name = weth;
        args = [];
        libraries = [];
        address = local_address_at deployer nonce weth;
      }
        ∷ wired (local_args deployer args nonce) (local_address_at deployer nonce)
unfolding entries local_contracts_of wired local_address_at local_args deploy_one
local_entries-wired deployer args nonce =
    simp (deployer.deploy-address, add_assoc)
      (rw (wired, local_args, local_address_at, add-zero nonce) refl)

-- On the local network all eleven contracts are deployed, WETH first and the others wired by their own
-- addresses as in the task with prompts; on another network none is.
pub deploy_local-wired :
    (deployer : Deployer) (args : Args) (nonce : ℕ)
    → Option.map (λ (p : Progress). p.deployments) (deploy_local deployer args nonce) ≡ (
        if args.chain_id == 31337
        then some (
            record {
              name = weth;
              args = [];
              libraries = [];
              address = local_address_at deployer nonce weth;
            }
            ∷ wired (local_args deployer args nonce) (local_address_at deployer nonce))
        else none)
unfolding deploy_local
deploy_local-wired deployer args nonce = elim (Bool-cases (args.chain_id == 31337)) [
  | inl e ↦ rw e (
      ap some (
        deploy_all-entries deployer (local_contracts_of deployer args nonce) (start nonce)
        ∙ local_entries-wired deployer args nonce))
  | inr e ↦ rw e refl
]
