-- ===== src/Contracts/Examples.antt =====
-- The theorems about the tasks, applied to a deployer whose addresses tell their nonces.
use web3_nft.Prelude.{
  ◌+◌, String, ◌≡◌, refl, some, List, [], ◌∷◌, ltb, ◌==◌, if◌then◌else◌, take, replicate, All,
}
use web3_nft.Assets.{EncodedImage, ImageData}
use web3_nft.Contracts.Populate.{
  Call, IsSmall, populate_descriptor, receive_all, nothing_sent, all_sent,
  populate_descriptor-IsSmall,
}
use web3_nft.Contracts.Deploy.{ContractName, place, Deployer, Args, contracts_of, deploy}
use web3_nft.Contracts.Deploy.Addresses.{confirmed, wired, address_at, deploy-wired}

abbrev deployer : Deployer
deployer = record {
  address = "0xf39f";
  get_contract_address = λ nonce. if nonce == 0 then "0x5fbd" else "0xe7f1";
  deploy = λ nonce name args libraries. if nonce == 0 then "0x5fbd" else "0xe7f1";
  deploy-address = λ nonce name args libraries. refl;
}

abbrev args : Args
args = record {
  chain_id = 31337;
  wordders_dao = "0x2573";
  weth_address = "0xc02a";
  auction_time_buffer = 300;
  auction_reserve_price = 1;
  auction_min_increment_bid_percentage = 5;
  auction_duration = 86400;
  timelock_delay = 172800;
  voting_period = 17280;
  voting_delay = 1;
  proposal_threshold_bps = 500;
  quorum_votes_bps = 1000;
}

-- Confirmed up to the auction house, which is refused.
abbrev confirm : ContractName → String
confirm name = if ltb (place name) 5 then "DEPLOY" else "no"

deploy-wired_example :
    ((deploy deployer confirm args 0).0.deployments
      ≡ take
          (confirmed confirm (contracts_of deployer args 0))
          (wired args (address_at deployer 0)))
    × ((deploy deployer confirm args 0).1
        ≡ (confirmed confirm (contracts_of deployer args 0) == 10))
    × ((deploy deployer confirm args 0).0.nonce
        ≡ 0 + confirmed confirm (contracts_of deployer args 0))
deploy-wired_example = deploy-wired deployer confirm args 0

abbrev part : EncodedImage
part = record { filename = "head-ape"; data_text = "0x0007" }

abbrev images : ImageData
images = record {
  bgcolors = "d5d7e1" ∷ [];
  bodies = part ∷ [];
  accessories = replicate 12 part;
  heads = replicate 21 part;
  glasses = part ∷ [];
}

populate_descriptor-IsSmall_example :
    (calls : List Call) × ((populate_descriptor images ("ffffff" ∷ []) ≡ some calls)
      × (receive_all calls nothing_sent ≡ all_sent images)
      × All IsSmall calls)
populate_descriptor-IsSmall_example = populate_descriptor-IsSmall images ("ffffff" ∷ [])
