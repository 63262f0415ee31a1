-- ===== src/Contracts/Deploy.antt =====
-- tasks/deploy.ts and tasks/deploy-local.ts: the contracts in the order of the object that lists them,
-- with arguments that are fixed or read the addresses of contracts deployed before. The deployer is a
-- parameter: an address, the address of a contract by the nonce of its transaction, and the
-- deployment itself, which uses one nonce. Gas prices and the estimates of costs are not modelled.
pub mod Addresses
pub mod Local
use web3_nft.Prelude.{
  ℕ, ◌+◌, String, ◌≡◌, Bool, true, false, Option, none, some, List, [], ◌∷◌, ◌++◌, map, str_eq,
  ◌==◌, if◌then◌else◌,
}

pub data ContractName : Type 0 where
  weth : ContractName
  nft_descriptor : ContractName
  words_descriptor : ContractName
  words_seeder : ContractName
  words_token : ContractName
  words_auction_house : ContractName
  words_auction_house_proxy_admin : ContractName
  words_auction_house_proxy : ContractName
  words_dao_executor : ContractName
  words_dao_logic_v1 : ContractName
  words_dao_proxy : ContractName

-- A number for each name, to compare names by.
abbrev pub place : ContractName → ℕ
place weth = 0
place nft_descriptor = 1
place words_descriptor = 2
place words_seeder = 3
place words_token = 4
place words_auction_house = 5
place words_auction_house_proxy_admin = 6
place words_auction_house_proxy = 7
place words_dao_executor = 8
place words_dao_logic_v1 = 9
place words_dao_proxy = 10

-- An argument of a constructor, `undefined` included, and the encoded call of `initialize`.
mutual
  pub data Value : Type 0 where
    text : String → Value
    number : ℕ → Value
    undefined : Value
    initialize : Values → Value

  pub data Values : Type 0 where
    nil : Values
    cons : Value → Values → Values

-- `contracts[name].address`
abbrev pub Addresses : Type 0
Addresses = ContractName → Option String

pub data Argument : Type 0 where
  fixed : Value → Argument
  computed : (Addresses → Value) → Argument

pub record Contract : Type 0 where
  pub args : List Argument
  pub libraries : List (Addresses → Value)

pub record Deployer : Type 0 where
  pub address : String
  pub get_contract_address : ℕ → String
  pub deploy : ℕ → ContractName → List Value → List Value → String
  pub deploy-address :
      (nonce : ℕ) (name : ContractName) (args libraries : List Value)
      → deploy nonce name args libraries ≡ get_contract_address nonce

-- The task's arguments and the network.
pub record Args : Type 0 where
  pub chain_id : ℕ
  pub wordders_dao : String
  pub weth_address : String
  pub auction_time_buffer : ℕ
  pub auction_reserve_price : ℕ
  pub auction_min_increment_bid_percentage : ℕ
  pub auction_duration : ℕ
  pub timelock_delay : ℕ
  pub voting_period : ℕ
  pub voting_delay : ℕ
  pub proposal_threshold_bps : ℕ
  pub quorum_votes_bps : ℕ

-- A deployment, as the chain sees it.
pub record Deployment : Type 0 where
  pub name : ContractName
  pub args : List Value
  pub libraries : List Value
  pub address : String

pub record Progress : Type 0 where
  pub nonce : ℕ
  pub addresses : Addresses
  pub deployments : List Deployment

abbrev pub value_of : Option String → Value
value_of none = undefined
value_of (some a) = text a

abbrev pub address_of : ContractName → Argument
address_of name = computed (λ contracts. value_of (contracts name))

abbrev pub resolve : Addresses → Argument → Value
resolve contracts (fixed v) = v
resolve contracts (computed f) = f contracts

abbrev pub set_address : ContractName → String → Addresses → Addresses
set_address name a contracts other = if place name == place other then some a else contracts other

unfoldable pub deploy_one : Deployer → ContractName → Contract → Progress → Progress
deploy_one deployer name contract p =
    let args = map (resolve p.addresses) contract.args in
    let libraries = map (λ (f : Addresses → Value). f p.addresses) contract.libraries in
    let a = deployer.deploy p.nonce name args libraries in
    record {
      nonce = p.nonce + 1;
      addresses = set_address name a p.addresses;
      deployments =
          p.deployments
          ++ record { name = name; args = args; libraries = libraries; address = a } ∷ [];
    }

-- The loop over the contracts, with the answers to its prompts: it is left at the first other answer,
-- and nothing is returned then. Waiting for confirmations of the chain is not modelled.
unfoldable pub deploy_each :
    Deployer → (ContractName → String) → List (ContractName × Contract) → Progress → Progress × Bool
deploy_each deployer confirm [] p = (p, true)
deploy_each deployer confirm ((name, contract) ∷ rest) p =
    let deployed = deploy_each deployer confirm rest (deploy_one deployer name contract p) in
    if str_eq (confirm name) "DEPLOY" then deployed else (p, false)

abbrev pub proxy_registry_address : ℕ → String
proxy_registry_address chain_id =
    if chain_id == 1
    then "0xa5409ec958c83c3f309868babaca7c86dcb077c1"
    else "0xf57b2c51ded3a29e6891aba85459d600256cf317"

abbrev pub auction_house_proxy_nonce_offset : ℕ
auction_house_proxy_nonce_offset = 6

abbrev pub governor_n_delegator_nonce_offset : ℕ
governor_n_delegator_nonce_offset = 9

abbrev pub plain : Contract
plain = record { args = []; libraries = [] }

-- `initialize` of the auction house, encoded when its proxy is deployed.
abbrev pub initialize_call : Args → (Addresses → Value) → Argument
initialize_call args weth_value = computed (λ contracts. initialize (
    cons (value_of (contracts words_token)) (
      cons (weth_value contracts) (
        cons (number args.auction_time_buffer) (
          cons (number args.auction_reserve_price) (
            cons (number args.auction_min_increment_bid_percentage)
              (cons (number args.auction_duration) nil)))))))

abbrev pub descriptor_contract : Contract
descriptor_contract = record {
  args = [];
  libraries = (λ contracts. value_of (contracts nft_descriptor)) ∷ [];
}

-- The arguments of the token, the auction house's proxy, the executor and the DAO's proxy.
abbrev pub token_contract : String → String → String → Contract
token_contract wordders_dao minter registry = record {
  args =
      fixed (text wordders_dao)
      ∷ fixed (text minter)
      ∷ address_of words_descriptor
      ∷ address_of words_seeder
      ∷ fixed (text registry)
      ∷ [];
  libraries = [];
}

abbrev pub auction_house_proxy_contract : Args → (Addresses → Value) → Contract
auction_house_proxy_contract args weth_value = record {
  args =
      address_of words_auction_house
      ∷ address_of words_auction_house_proxy_admin
      ∷ initialize_call args weth_value
      ∷ [];
  libraries = [];
}

abbrev pub executor_contract : Args → String → Contract
executor_contract args admin = record {
  args = fixed (text admin) ∷ fixed (number args.timelock_delay) ∷ [];
  libraries = [];
}

abbrev pub dao_proxy_contract : Args → String → Contract
dao_proxy_contract args vetoer = record {
  args =
      address_of words_dao_executor
      ∷ address_of words_token
      ∷ fixed (text vetoer)
      ∷ address_of words_dao_executor
      ∷ address_of words_dao_logic_v1
      ∷ fixed (number args.voting_period)
      ∷ fixed (number args.voting_delay)
      ∷ fixed (number args.proposal_threshold_bps)
      ∷ fixed (number args.quorum_votes_bps)
      ∷ [];
  libraries = [];
}

unfoldable pub contracts_of : Deployer → Args → ℕ → List (ContractName × Contract)
contracts_of deployer args nonce =
    let minter = deployer.get_contract_address (nonce + auction_house_proxy_nonce_offset) in
    let admin = deployer.get_contract_address (nonce + governor_n_delegator_nonce_offset) in
    (nft_descriptor, plain)
    ∷ (words_descriptor, descriptor_contract)
    ∷ (words_seeder, plain)
    ∷ (words_token, token_contract args.wordders_dao minter (proxy_registry_address args.chain_id))
    ∷ (words_auction_house, plain)
    ∷ (words_auction_house_proxy_admin, plain)
    ∷ (
      words_auction_house_proxy,
      auction_house_proxy_contract args (λ contracts. text args.weth_address),
    )
    ∷ (words_dao_executor, executor_contract args admin)
    ∷ (words_dao_logic_v1, plain)
    ∷ (words_dao_proxy, dao_proxy_contract args args.wordders_dao)
    ∷ []

abbrev pub start : ℕ → Progress
start nonce = record { nonce = nonce; addresses = λ name. none; deployments = [] }

-- The task, from the deployer's number of transactions: `true` where the contracts are returned.
unfoldable pub deploy : Deployer → (ContractName → String) → Args → ℕ → Progress × Bool
unfolding deploy_each contracts_of
deploy deployer confirm args nonce =
    deploy_each deployer confirm (contracts_of deployer args nonce) (start nonce)
