-- ===== src/Webapp/Dao.antt =====
-- pages/Vote/index.tsx and pages/CreateProposal/index.tsx, and what they share: the states of a
-- transaction and the alerts. A hook's state is a field of the page, an effect a function of the
-- transaction's new state; rendering is left out.
pub mod Transactions
pub mod VotePage
pub mod CreateProposal
pub mod TransactionForm
pub mod Titles
pub mod CreatedLogs
pub mod Proposals
mod Examples
