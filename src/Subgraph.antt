-- ===== src/Subgraph.antt =====
-- packages/words-subgraph: the indexer of the auction house, the token and the DAO. Schema has the
-- entities and the store, Helpers the load-or-create functions, Auctions, Tokens and Dao the
-- handlers of the three contracts, and Indexer the run of a chain of events.
pub mod Schema
pub mod Helpers
pub mod Auctions
pub mod Tokens
pub mod Dao
pub mod Indexer
pub mod Samples
mod Examples
mod DaoExamples
