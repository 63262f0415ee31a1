-- ===== src/Contracts/Deploy/Addresses.antt =====
-- What a deployment passes to the contracts, at the addresses that they get.
use web3_nft.Prelude.{
  ℕ, suc, ◌+◌, ◌-◌, String, ◌≡◌, refl, sym, ap, ◌∙◌, inl, inr, false, List, [], ◌∷◌, ◌++◌, map,
  arith, str_eq, ◌==◌, if◌then◌else◌, Bool-cases, length, take,
}
use mathlib.Core.List.{append_assoc, append-nil}
use native.Mathlib.Nat.{add_assoc, add-zero}
use web3_nft.Contracts.Deploy.{
  ContractName, nft_descriptor, words_descriptor, words_seeder, words_token, words_auction_house,
  words_auction_house_proxy_admin, words_auction_house_proxy, words_dao_executor,
  words_dao_logic_v1, words_dao_proxy, place, Value, text, number, initialize, nil, cons, Addresses,
  Contract, Deployer, Args, Deployment, Progress, resolve, deploy_one, deploy_each, contracts_of,
  start, deploy, proxy_registry_address,
}

-- How many of the contracts are confirmed, one after the other from the first.
unfoldable pub confirmed : (ContractName → String) → List (ContractName × Contract) → ℕ
confirmed confirm [] = 0
confirmed confirm ((name, contract) ∷ rest) =
    let more = suc (confirmed confirm rest) in if str_eq (confirm name) "DEPLOY" then more else 0

-- The deployments of a list of contracts that are all confirmed.
unfoldable pub entries : Deployer → List (ContractName × Contract) → Progress → List Deployment
entries deployer [] p = []
entries deployer ((name, contract) ∷ rest) p =
    let args = map (resolve p.addresses) contract.args in
    let libraries = map (λ (f : Addresses → Value). f p.addresses) contract.libraries in
    record {
      name = name;
      args = args;
      libraries = libraries;
      address = deployer.deploy p.nonce name args libraries;
    }
    ∷ entries deployer rest (deploy_one deployer name contract p)

suc_eq : (m n : ℕ) → (m == n) ≡ (suc m == suc n)
suc_eq m n = ground arith

zero_eq : (n : ℕ) → false ≡ (0 == suc n)
zero_eq n = ground arith

pub deploy_each-entries :
    (deployer : Deployer) (confirm : ContractName → String) (cs : List (ContractName × Contract))
    (p : Progress)
    → ((deploy_each deployer confirm cs p).0.deployments
        ≡ p.deployments ++ take (confirmed confirm cs) (entries deployer cs p))
      × ((deploy_each deployer confirm cs p).1 ≡ (confirmed confirm cs == length cs))
      × ((deploy_each deployer confirm cs p).0.nonce ≡ p.nonce + confirmed confirm cs)
unfolding deploy_each entries confirmed deploy_one
deploy_each-entries deployer confirm [] p = (sym (append-nil p.deployments), refl, omega arith)
deploy_each-entries deployer confirm ((name, contract) ∷ rest) p =
    elim (Bool-cases (str_eq (confirm name) "DEPLOY")) [
      | inl e ↦
          let (told, whole, count) =
            deploy_each-entries deployer confirm rest (deploy_one deployer name contract p) in
          rw e (
            told ∙ append_assoc p.deployments _ _,
            whole ∙ suc_eq (confirmed confirm rest) (length rest),
            count ∙ omega arith,
          )
      | inr e ↦ rw e (sym (append-nil p.deployments), zero_eq (length rest), omega arith)
    ]

-- The ten contracts of the task, wired by the addresses that they have themselves: the token's minter
-- is the auction house's proxy, and the executor's admin is the DAO's proxy.
unfoldable pub wired : Args → (ContractName → String) → List Deployment
wired args at =
    let entry = λ (name : ContractName) (values libraries : List Value).
      let d : Deployment = record {
        name = name;
        args = values;
        libraries = libraries;
        address = at name;
      } in
      d in
    entry nft_descriptor [] []
    ∷ entry words_descriptor [] (text (at nft_descriptor) ∷ [])
    ∷ entry words_seeder [] []
    ∷ entry words_token
        (text args.wordders_dao
          ∷ text (at words_auction_house_proxy)
          ∷ text (at words_descriptor)
          ∷ text (at words_seeder)
          ∷ text (proxy_registry_address args.chain_id)
          ∷ [])
        []
    ∷ entry words_auction_house [] []
    ∷ entry words_auction_house_proxy_admin [] []
    ∷ entry words_auction_house_proxy
        (text (at words_auction_house)
          ∷ text (at words_auction_house_proxy_admin)
          ∷ initialize (
              cons (text (at words_token)) (
                cons (text args.weth_address) (
                  cons (number args.auction_time_buffer) (
                    cons (number args.auction_reserve_price) (
                      cons (number args.auction_min_increment_bid_percentage)
                        (cons (number args.auction_duration) nil))))))
          ∷ [])
        []
    ∷ entry words_dao_executor (text (at words_dao_proxy) ∷ number args.timelock_delay ∷ []) []
    ∷ entry words_dao_logic_v1 [] []
    ∷ entry words_dao_proxy
        (text (at words_dao_executor)
          ∷ text (at words_token)
          ∷ text args.wordders_dao
          ∷ text (at words_dao_executor)
          ∷ text (at words_dao_logic_v1)
          ∷ number args.voting_period
          ∷ number args.voting_delay
          ∷ number args.proposal_threshold_bps
          ∷ number args.quorum_votes_bps
          ∷ [])
        []
    ∷ []

-- The address of the contract at a place of the task's list, by the nonce of its transaction.
pub address_at : Deployer → ℕ → ContractName → String
address_at deployer nonce name = deployer.get_contract_address (nonce + (place name - 1))

entries-wired :
    (deployer : Deployer) (args : Args) (nonce : ℕ)
    → entries deployer (contracts_of deployer args nonce) (start nonce)
      ≡ wired args (address_at deployer nonce)
unfolding entries contracts_of wired address_at deploy_one
entries-wired deployer args nonce =
    simp (deployer.deploy-address, add_assoc) (rw (wired, address_at, add-zero nonce) refl)

-- Whatever the answers are, the deployments are the first of the ten, one for each contract that is
-- confirmed before the first one that is not, at the addresses predicted
-- from the nonce, with the arguments and libraries that the contracts' addresses make right; each takes one nonce, and the contracts are returned where all are confirmed.
pub deploy-wired :
    (deployer : Deployer) (confirm : ContractName → String) (args : Args) (nonce : ℕ)
    → ((deploy deployer confirm args nonce).0.deployments
        ≡ take
            (confirmed confirm (contracts_of deployer args nonce))
            (wired args (address_at deployer nonce)))
      × ((deploy deployer confirm args nonce).1
          ≡ (confirmed confirm (contracts_of deployer args nonce) == 10))
      × ((deploy deployer confirm args nonce).0.nonce
          ≡ nonce + confirmed confirm (contracts_of deployer args nonce))
unfolding deploy
deploy-wired deployer confirm args nonce =
    let (told, whole, count) =
      deploy_each-entries deployer confirm (contracts_of deployer args nonce) (start nonce) in
    let k = confirmed confirm (contracts_of deployer args nonce) in
    (told ∙ ap (take k) (entries-wired deployer args nonce), whole ∙ ten k, count)
  where
    ten : (k : ℕ) → (k == length (contracts_of deployer args nonce)) ≡ (k == 10)
    ten k = unfold contracts_of in refl
