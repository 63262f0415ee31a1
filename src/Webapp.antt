-- ===== src/Webapp.antt =====
-- packages/words-webapp: the auction that the page shows. Auction is the state of the running
-- auction, Display the choice of the auction on display and its bids.
pub mod Auction
pub mod Display
pub mod Subscriber
pub mod Bid
pub mod Logs
pub mod Order
pub mod Functions
pub mod Dao
mod Examples
