-- ===== src/Bots/Examples.antt =====
-- The theorems about the bots, applied to the two handlers and one auction with a bid.
use web3_nft.Prelude.{◌≡◌, true, none, List, [], ◌∷◌}
use web3_nft.Bots.{
  AuctionBids, World, AuctionLifecycleHandler, process_auction_tick, increment_counter,
}
use web3_nft.Bots.Handlers.{
  twitter_handler, discord_handler, twitter-HandlerIsKeeping, discord-HandlerIsKeeping,
}
use web3_nft.Bots.Ticks.{quiet_tick}

abbrev first_world : World
first_world = record {
  cache = record { auction = none; bid = none; reply_tweet_id = none; ending_soon = none };
  posts = [];
}

abbrev last_auction : AuctionBids
last_auction = record {
  id = 7;
  end_time = 2000;
  bids = record { id = "0x01"; amount = "9"; bidder = "0xbb" } ∷ [];
}

abbrev handlers : List AuctionLifecycleHandler
handlers =
    twitter_handler (λ id. true) (λ p. "99") ∷ discord_handler (λ id. true) ("public" ∷ []) ∷ []

quiet_tick_example :
    process_auction_tick handlers 1000 last_auction
      (process_auction_tick handlers 1000 last_auction first_world)
    ≡ increment_counter "auction_process_last_auction"
        (process_auction_tick handlers 1000 last_auction first_world)
quiet_tick_example =
    quiet_tick handlers
      (
        twitter-HandlerIsKeeping (λ id. true) (λ p. "99"),
        (discord-HandlerIsKeeping (λ id. true) ("public" ∷ []), tt),
      )
      last_auction 1000 first_world
