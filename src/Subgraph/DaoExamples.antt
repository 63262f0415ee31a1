-- ===== src/Subgraph/DaoExamples.antt =====
-- The theorems about the DAO, applied to the sample store.
use web3_nft.Prelude.{◌≡◌, refl, List, [], ◌∷◌, pos, ◌+ℤ◌}
use web3_nft.Table.{lookup}
use web3_nft.Table.Totals.{total}
use web3_nft.Subgraph.Helpers.{get_governance_entity}
use web3_nft.Subgraph.Dao.{
  ProposalCreated, VoteCast, handle_proposal_canceled, handle_proposal_vetoed,
}
use web3_nft.Subgraph.Dao.Rows.{status_at}
use web3_nft.Subgraph.Dao.Status.{counter, queued_in, QueuedCounted, dropped_queued_overcounts}
use web3_nft.Subgraph.Indexer.{Event, transfer, index}
use web3_nft.Subgraph.Samples.{small_store, small_store-StoreIsKeyed, sale}
use web3_nft.Subgraph.Indexer.{
  proposal_created, proposal_queued, proposal_executed, vote_cast, proposal_vetoed,
}
use web3_nft.Subgraph.Indexer.Statuses.{evolve, evolve_all, index-evolve}
use web3_nft.Subgraph.Indexer.Queued.{AreInOrder, IsInOrder, index-QueuedCounted}

one_queued : QueuedCounted small_store
unfolding get_governance_entity total ◌+ℤ◌
one_queued = refl

dropped_queued_overcounts_example :
    (counter (handle_proposal_canceled "2" small_store)
      ≡ queued_in (handle_proposal_canceled "2" small_store) +ℤ pos 1)
    × (counter (handle_proposal_vetoed "2" small_store)
        ≡ queued_in (handle_proposal_vetoed "2" small_store) +ℤ pos 1)
unfolding lookup
dropped_queued_overcounts_example =
    dropped_queued_overcounts "2" small_store (refl, (refl, tt)) refl one_queued

abbrev motion : ProposalCreated
motion = record {
  id = "3";
  proposer = "0xaa";
  targets = "0xdd" ∷ [];
  values = 0 ∷ [];
  signatures = "f()" ∷ [];
  calldatas = "0x" ∷ [];
  start_block = 60;
  end_block = 90;
  proposal_threshold = 1;
  quorum_votes = 1;
  description = [];
  block_number = 50;
  block_timestamp = 150;
}

abbrev ballot : VoteCast
ballot = record { proposal_id = "1"; voter = "0xaa"; votes = 1; support = 1 }

-- Voted for, queued, executed; another one is created, vetoed, and a third account gets the word.
abbrev debates : List Event
debates =
    vote_cast ballot
    ∷ proposal_queued (record { id = "1"; eta = 500 })
    ∷ proposal_executed "2"
    ∷ transfer sale
    ∷ proposal_created motion
    ∷ proposal_vetoed "3"
    ∷ proposal_executed "1"
    ∷ []

index-evolve_example :
    status_at (index debates small_store) "1" ≡ evolve_all "1" debates (status_at small_store "1")
index-evolve_example = index-evolve "1" debates small_store small_store-StoreIsKeyed

debates_in_order : AreInOrder debates (status_at small_store)
unfolding AreInOrder IsInOrder evolve lookup
debates_in_order = (tt, (λ e. cc e, (refl, (tt, (λ e. cc e, (λ e. cc e, (refl, tt)))))))

index-QueuedCounted_example : QueuedCounted (index debates small_store)
index-QueuedCounted_example =
    index-QueuedCounted debates small_store small_store-StoreIsKeyed debates_in_order one_queued
