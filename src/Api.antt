-- ===== src/Api.antt =====
-- packages/words-api/src: the route of token metadata over its cache, and the server's connections.
pub mod Metadata
pub mod Server
mod Examples
