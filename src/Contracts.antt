-- ===== src/Contracts.antt =====
-- packages/words-contracts, the part in TypeScript: the hardhat tasks that deploy the contracts and that
-- fill the descriptor.
pub mod Deploy
pub mod Chunks
pub mod Populate
mod Examples
