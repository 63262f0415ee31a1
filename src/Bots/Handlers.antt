-- ===== src/Bots/Handlers.antt =====
-- handlers/twitter.ts and handlers/discord.ts. Whether a picture of the word can be fetched and the
-- ids of tweets are parameters.
use web3_nft.Prelude.{
  ℕ, String, ◌≡◌, refl, Bool, true, false, Option, none, some, List, [], ◌∷◌, str_eq, if◌then◌else◌,
  or_else,
}
use web3_nft.Bots.{
  Bid, Post, World, auction_started, bid_reply, ending_soon_reply, auction_message, bid_message,
  post, get_auction_reply_tweet_id, update_auction_reply_tweet_id, AuctionLifecycleHandler,
}

-- `!tweetReplyId`
abbrev pub is_missing : Option String → Bool
is_missing none = true
is_missing (some id) = str_eq id ""

-- The new state has the same auction, bid and auction ending soon in its cache.
pub record IsKept (w w' : World) : Type 0 where
  pub auction : w'.cache.auction ≡ w.cache.auction
  pub bid : w'.cache.bid ≡ w.cache.bid
  pub ending : w'.cache.ending_soon ≡ w.cache.ending_soon

module _ (has_png : ℕ → Bool) (id_str : Post → String) where
  abbrev tweet : Post → World → World
  tweet p w = update_auction_reply_tweet_id (id_str p) (post p w)

  abbrev pub twitter_new_auction : ℕ → World → World
  twitter_new_auction auction_id w =
      if has_png auction_id then tweet (auction_started auction_id) w else w

  abbrev pub twitter_new_bid : ℕ → Bid → World → World
  twitter_new_bid auction_id bid w =
      let reply_id = or_else (get_auction_reply_tweet_id w) "" in
      if is_missing (get_auction_reply_tweet_id w)
      then w
      else tweet (bid_reply auction_id bid.id reply_id) w

  abbrev pub twitter_ending_soon : ℕ → World → World
  twitter_ending_soon auction_id w =
      let reply_id = or_else (get_auction_reply_tweet_id w) "" in
      if is_missing (get_auction_reply_tweet_id w)
      then w
      else tweet (ending_soon_reply auction_id reply_id) w

  pub twitter_handler : AuctionLifecycleHandler
  twitter_handler = record {
    handle_new_auction = twitter_new_auction;
    handle_new_bid = twitter_new_bid;
    handle_auction_ending_soon = twitter_ending_soon;
  }

abbrev pub send_all : (String → Post) → List String → World → World
send_all message [] w = w
send_all message (client ∷ clients) w = send_all message clients (post (message client) w)

module _ (has_png : ℕ → Bool) (discord_clients : List String) where
  abbrev pub discord_new_auction : ℕ → World → World
  discord_new_auction auction_id w =
      if has_png auction_id
      then send_all (λ client. auction_message client auction_id) discord_clients w
      else w

  abbrev pub discord_new_bid : ℕ → Bid → World → World
  discord_new_bid auction_id bid w =
      send_all (λ client. bid_message client auction_id bid.id) discord_clients w

  pub discord_handler : AuctionLifecycleHandler
  discord_handler = record {
    handle_new_auction = discord_new_auction;
    handle_new_bid = discord_new_bid;
    handle_auction_ending_soon = λ auction_id w. w;
  }

-- A handler that leaves those three keys of the cache to the poller.
pub record HandlerIsKeeping (h : AuctionLifecycleHandler) : Type 0 where
  pub new_auction : (id : ℕ) (w : World) → IsKept w (h.handle_new_auction id w)
  pub new_bid : (id : ℕ) (bid : Bid) (w : World) → IsKept w (h.handle_new_bid id bid w)
  pub ending_soon : (id : ℕ) (w : World) → IsKept w (h.handle_auction_ending_soon id w)

kept : (w : World) → IsKept w w
kept w = record { auction = refl; bid = refl; ending = refl }

if-IsKept :
    (t : Bool) (w w₁ w₂ : World) → IsKept w w₁ → IsKept w w₂ → IsKept w (if t then w₁ else w₂)
if-IsKept true w w₁ w₂ h k = h
if-IsKept false w w₁ w₂ h k = k

send_all-IsKept :
    (message : String → Post) (clients : List String) (w : World)
    → IsKept w (send_all message clients w)
send_all-IsKept message [] w = kept w
send_all-IsKept message (client ∷ clients) w =
    let rest = send_all-IsKept message clients (post (message client) w) in
    record { auction = rest.auction; bid = rest.bid; ending = rest.ending }

pub twitter-HandlerIsKeeping :
    (has_png : ℕ → Bool) (id_str : Post → String)
    → HandlerIsKeeping (twitter_handler has_png id_str)
unfolding twitter_handler
twitter-HandlerIsKeeping has_png id_str = record {
  new_auction = λ id w.
      if-IsKept (has_png id) w _ w (record { auction = refl; bid = refl; ending = refl }) (kept w);
  new_bid = λ id bid w.
      if-IsKept (is_missing w.cache.reply_tweet_id) w w _ (kept w)
        (record { auction = refl; bid = refl; ending = refl });
  ending_soon = λ id w.
      if-IsKept (is_missing w.cache.reply_tweet_id) w w _ (kept w)
        (record { auction = refl; bid = refl; ending = refl });
}

pub discord-HandlerIsKeeping :
    (has_png : ℕ → Bool) (clients : List String)
    → HandlerIsKeeping (discord_handler has_png clients)
unfolding discord_handler
discord-HandlerIsKeeping has_png clients = record {
  new_auction = λ id w.
      if-IsKept (has_png id) w _ w (send_all-IsKept (λ client. auction_message client id) clients w)
        (kept w);
  new_bid = λ id bid w. send_all-IsKept (λ client. bid_message client id bid.id) clients w;
  ending_soon = λ id w. kept w;
}
