-- ===== src/Lib.antt =====
-- A verification library of the Words (a fork of Nouns) monorepo: an NFT project with daily auctions
-- and a DAO. The parts modelled are the subgraph, which indexes the events of the auction house, the
-- token and the DAO contracts for the other packages, the SDK's image package, which encodes
-- the pixels of the artwork for the descriptor contract and draws it as SVG, the seeds of the artwork,
-- the tasks that deploy the contracts and fill the descriptor, the API of the tokens' metadata, the
-- bots, which poll the subgraph and announce auctions and bids, and the web application: its state of
-- the auctions, which follows the auction house's events, placing bids, and the pages of the DAO.
--
-- packages/words-subgraph:
--   Subgraph/Schema      schema.graphql: an entity is a record, the host's store one table per type
--   Subgraph/Helpers     src/utils/helpers.ts: load-or-create, an id and a store to an entity and a store
--   Subgraph/Auctions    src/nouns-auction-house.ts: handleAuctionCreated is handle_auction_created, ...
--   Subgraph/Tokens      src/nouns-erc-721.ts: a handler takes the event and the store to a store
--   Subgraph/Dao         src/nouns-dao.ts
--   Subgraph/Indexer     the manifest's event handlers: one event type and a run over a chain of them
-- An entity that a handler loads is a copy of the row; saving it writes the row back under its id. The
-- order of loads and saves is the code's, so that a copy that is saved late overwrites. A BigInt is
-- an integer with no bound, and tokenHoldersRepresentedAmount, an Int, a signed register of 32 bits.
-- The compiler that yarn.lock names compares texts by value under `==` and by reference under `!==`: the
-- texts that a handler filters are new copies, so the lists keep their words (Tokens' `without`).
--
-- packages/words-sdk/src/image:
--   Sdk/Hex              utils.ts, and the number formats of the language that the package uses
--   Sdk/Types            types.ts; rows under number keys are a list in increasing order of the keys
--   Sdk/Palette          the map of colors to indices
--   Sdk/Image            image.ts: scanning, bounds, cropping and the run-length text
--   Sdk/Svg              svg-builder.ts: decoding a part and the elements that are drawn
--   Sdk/Encoder          png-collection-encoder.ts: the palette, names and folders of a collection
-- A text is a list of character codes there. `none` is an error thrown or, as a number, NaN. Writing a
-- number in base 16 runs on fuel that is the number itself, and each digit divides it by 16.
--
-- packages/words-assets:
--   Assets               src/utils.ts and types.ts; Assets/Seeds has WordsSeeder.sol of
--                        packages/words-contracts beside it, which the code says it emulates
-- The numbers package and the hash are parameters: a text that is a number in base 16 is read, and a
-- number is written with "0x" and an even number of digits.
--
-- packages/words-contracts:
--   Contracts/Deploy     tasks/deploy.ts; Contracts/Deploy/Local is tasks/deploy-local.ts
--   Contracts/Chunks     utils.ts: chunkArray runs on fuel that is the array's length, as a step is 1 or more
--   Contracts/Populate   tasks/populate-descriptor.ts
-- The address that the chain gives to a contract is a function of the deployer's nonce, which each
-- deployment adds one to; the answers to the prompts are arguments.
--
-- packages/words-api:
--   Api/Metadata         src/utils.ts and the route of src/api.ts; a request takes the cache and gives it back
--   Api/Server           src/server.ts: the sockets that are open at a shutdown
--
-- packages/words-bots:
--   Bots                 src/index.ts and src/cache.ts: a tick takes the cache and what was sent out on
--   Bots/Handlers        src/handlers: the two handlers, and that they fill the tick's interface
-- The subgraph's answer and the time are arguments of a tick; ticks do not overlap.
--
-- packages/words-webapp:
--   Webapp/Auction       src/state/slices/auction.ts: the running auction and its bids
--   Webapp/Subscriber    src/index.tsx: ChainSubscriber, the loading of the state and the listeners
--   Webapp/Bid           src/components/Bid: the least next bid, placing it and the button's states
--   Webapp/Dao/VotePage  src/pages/Vote
--   Webapp/Dao/CreateProposal  src/pages/CreateProposal and src/components/CreateProposalButton
--   Webapp/Dao/TransactionForm src/components/ProposalTransactionFormModal
--   Webapp/Dao/Titles, CreatedLogs, Proposals  src/wrappers/wordsDao.ts: titles, logs and proposals
--   Webapp/Display       src/state/slices/onDisplayAuction.ts and pastAuctions.ts, src/utils/wordderWord.ts
--                        and src/wrappers/onDisplayAuction.ts: the auction on display
--   Webapp/Logs          src/state/slices/logs.ts and src/state/updaters/logs.ts
--   Webapp/Functions     functions/theGraph.ts and the functions of proposal votes and owners
--   Webapp/Functions/Verify  functions/v0-verify-signature: an error, a refusal or an answer
--   Webapp/Order         src/utils/compareBids.ts and bidSorter.ts
-- A hook is a function of the states that it selects; an effect is a step from the state of a
-- transaction to the page's state; the calls to contracts are what the steps return. Where the page
-- and the subgraph get the same events, one text stands for an address in both, while the page reads
-- it with a checksum's capitals and the subgraph writes it in lower case.
--
-- Prelude has the shared names, lists over native numbers, integers and wrap-around; Table has
-- association tables with sums over their rows and rows that stand under their ids.
--
-- Not modelled: the graph host (validation of entities on saving, blocks and reorganisations) and
-- generated accessors, which fail on fields that were never set; the arguments of log messages beyond
-- their subject; the text of SVG elements and of posts; the rest of the web application (rendering,
-- contract calls, delegation); gas prices and the waits of tasks and of the server; the other tasks;
-- the Solidity contracts, whose events arrive here as values.
pub mod Prelude
pub mod Table
pub mod Subgraph
pub mod Sdk
pub mod Webapp
pub mod Assets
pub mod Api
pub mod Bots
pub mod Contracts
