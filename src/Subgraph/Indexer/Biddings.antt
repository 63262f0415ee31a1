-- ===== src/Subgraph/Indexer/Biddings.antt =====
-- The auction rows as a function of the auction events alone.
use web3_nft.Prelude.{
  String, ◌≡◌, refl, sym, ap, ◌∙◌, inl, inr, Option, List, [], ◌∷◌, arith, str_eq, eq_iff,
  if◌then◌else◌, Bool-cases,
}
use web3_nft.Table.{lookup}
use web3_nft.Subgraph.Schema.{Store}
use web3_nft.Subgraph.Helpers.Views.{StoreIsKeyed, IsKnown}
use web3_nft.Subgraph.Auctions.{AuctionCreated}
use web3_nft.Subgraph.Auctions.Rows.{
  Bidding, bidding, on_created, on_bid, on_extended, on_settled, created-bidding, created-other,
  bid-bidding, extended-bidding, settled-bidding,
}
use web3_nft.Subgraph.Auctions.Frames as AuctionFrames
use web3_nft.Subgraph.Tokens.Frames as TokenFrames
use web3_nft.Subgraph.Tokens.Keys as TokenKeys
use web3_nft.Subgraph.Dao.Frames as DaoFrames
use web3_nft.Subgraph.Indexer.{
  Event, auction_created, auction_bid, auction_extended, auction_settled, word_created,
  delegate_changed, delegate_votes_changed, transfer, proposal_created, proposal_canceled,
  proposal_vetoed, proposal_queued, proposal_executed, vote_cast, handle, index,
}
use web3_nft.Subgraph.Indexer.Keys.{handle-StoreIsKeyed}

-- The auction of one word, as its contract's events make it: no other event takes part.
unfoldable pub follow : String → Event → Option Bidding → Option Bidding
follow w (auction_created e) b = if str_eq e.word_id w then on_created e b else b
follow w (auction_bid e) b = if str_eq e.word_id w then on_bid e b else b
follow w (auction_extended e) b = if str_eq e.word_id w then on_extended e b else b
follow w (auction_settled e) b = if str_eq e.word_id w then on_settled b else b
follow w _ b = b

unfoldable pub follow_all : String → List Event → Option Bidding → Option Bidding
follow_all w [] b = b
follow_all w (e ∷ es) b = follow_all w es (follow w e b)

handle-IsKnown : (e : Event) (s : Store) (w : String) → IsKnown w s → IsKnown w (handle e s)
unfolding handle
handle-IsKnown (auction_created e) s w h = ground (arith, AuctionFrames.created-SameTokens e s)
handle-IsKnown (auction_bid e) s w h = ground (arith, AuctionFrames.bid-SameTokens e s)
handle-IsKnown (auction_extended e) s w h = ground (arith, AuctionFrames.extended-SameTokens e s)
handle-IsKnown (auction_settled e) s w h = ground (arith, AuctionFrames.settled-SameTokens e s)
handle-IsKnown (word_created e) s w h = TokenKeys.word_created-IsKnown e s w h
handle-IsKnown (delegate_changed e) s w h = ground (arith, TokenKeys.delegate_changed-frame e s)
handle-IsKnown (delegate_votes_changed e) s w h = ground (arith, TokenKeys.votes_changed-frame e s)
handle-IsKnown (transfer e) s w h = TokenFrames.transfer-IsKnown e s w h
handle-IsKnown (proposal_created e) s w h = ground (arith, DaoFrames.created-SameWords e s)
handle-IsKnown (proposal_canceled id) s w h = ground (arith, DaoFrames.canceled-SameWords id s)
handle-IsKnown (proposal_vetoed id) s w h = ground (arith, DaoFrames.vetoed-SameWords id s)
handle-IsKnown (proposal_queued e) s w h = ground (arith, DaoFrames.queued-SameWords e s)
handle-IsKnown (proposal_executed id) s w h = ground (arith, DaoFrames.executed-SameWords id s)
handle-IsKnown (vote_cast e) s w h = ground (arith, DaoFrames.vote-SameWords e s)

created-follow :
    (w : String) (e : AuctionCreated) (s : Store)
    → IsKnown w s
    → bidding w (handle (auction_created e) s) ≡ follow w (auction_created e) (bidding w s)
unfolding handle follow
created-follow w e s known = elim (Bool-cases (str_eq e.word_id w)) [
  | inl p ↦
      created-bidding w s e
        (λ missing. known (ap (λ k. lookup k s.words) (sym ((eq_iff _ _).0 p)) ∙ missing))
  | inr p ↦ rw p (created-other w s e (ground (arith, eq_iff e.word_id w)))
]

handle-follow :
    (w : String) (e : Event) (s : Store)
    → StoreIsKeyed s
    → IsKnown w s
    → bidding w (handle e s) ≡ follow w e (bidding w s)
unfolding handle follow
handle-follow w (auction_created e) s h known = created-follow w e s known
handle-follow w (auction_bid e) s h known = bid-bidding w s h.auctions e h.accounts
handle-follow w (auction_extended e) s h known = extended-bidding w s h.auctions e
handle-follow w (auction_settled e) s h known = settled-bidding w s h.auctions e
handle-follow w (word_created e) s h known = ground (arith, TokenKeys.word_created-frame e s)
handle-follow w (delegate_changed e) s h known =
    ground (arith, TokenKeys.delegate_changed-frame e s)
handle-follow w (delegate_votes_changed e) s h known =
    ground (arith, TokenKeys.votes_changed-frame e s)
handle-follow w (transfer e) s h known = ground (arith, TokenFrames.transfer-frame e s)
handle-follow w (proposal_created e) s h known = ground (arith, DaoFrames.created-SameWords e s)
handle-follow w (proposal_canceled id) s h known = ground (arith, DaoFrames.canceled-SameWords id s)
handle-follow w (proposal_vetoed id) s h known = ground (arith, DaoFrames.vetoed-SameWords id s)
handle-follow w (proposal_queued e) s h known = ground (arith, DaoFrames.queued-SameWords e s)
handle-follow w (proposal_executed id) s h known = ground (arith, DaoFrames.executed-SameWords id s)
handle-follow w (vote_cast e) s h known = ground (arith, DaoFrames.vote-SameWords e s)

-- From a store whose rows stand under their ids and that knows the word, after any run of events of
-- the three contracts the word's auction row says what the auction events of that word alone make
-- of the row that was there.
pub index-follow :
    (w : String) (es : List Event) (s : Store)
    → StoreIsKeyed s
    → IsKnown w s
    → bidding w (index es s) ≡ follow_all w es (bidding w s)
unfolding index follow_all
index-follow w [] s h known = refl
index-follow w (e ∷ es) s h known =
    index-follow w es (handle e s) (handle-StoreIsKeyed e s h) (handle-IsKnown e s w known)
    ∙ ap (follow_all w es) (handle-follow w e s h known)
