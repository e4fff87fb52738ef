-- ===== src/Lib.antt =====
-- The backend of a lending protocol: an indexer of chain events, a liquidation engine, a price
-- oracle, risk alerts, notifications, a websocket hub and the HTTP API.
--
-- The indexer (internal/indexer) takes headers from the listener, checks each against the recent
-- hashes of the detector, stores blocks and events through the consumer and publishes the events.
-- The liquidation engine (internal/liquidation) keeps the pools' rates and indices in the rate
-- computer, the users' positions in the scanner, and sends transactions by the executor. The other
-- services stand beside them and share the types and the fixed-point arithmetic.
--
-- Which file models which part; a function keeps its name, in snake case:
-- - WadRay: internal/common/math/wadray.go. Rates: internal/liquidation/ratecomputer/model.go.
-- - Types: internal/common/types/types.go.
-- - Indexer.Reorg, Parser, Consumer, Service: detector.go, event_parser.go, event_consumer.go and
--   service.go of internal/indexer. Listener: internal/indexer/listener/block_listener.go;
--   Indexer.Service.Ticks puts its polling and the service together, and Indexer.Service.Setup has
--   the chains of internal/common/config/config.go.
-- - Positions: the queue of internal/liquidation/scanner/scanner.go, with container/heap written
--   out. Scanner: the operations of that file. Executor: internal/liquidation/executor/executor.go.
--   Liquidation: internal/liquidation/service.go.
-- - Notification: internal/notification. Risk: internal/risk. Oracle: internal/oracle. Account:
--   internal/account. Market: internal/market. Auth, RateLimit: auth.go and ratelimit.go of
--   internal/api/middleware. Http: the answers that the handlers of both give.
-- - Websocket: internal/api/websocket, hub.go and the commands and frames of handler.go.
-- - Base: shared numbers, lists, maps, bytes and tests. Examples: runs on concrete inputs.
--
-- A method that holds its mutex to the end is one step on a state record. A Go map is an association
-- list, and a range over it takes the order of the list. A big.Int is an unbounded integer; the
-- uint64 and int64 counters and timestamps wrap around where the code can reach their ends. A panic
-- of a division or a slice is `none`. A database, a node, Redis, Kafka, keccak and floating point are
-- records of functions, with what the code relies on as named laws.
--
-- The hub's sections under the lock, its single sends and the pumps interleave in Websocket.Reached.
--
-- Loops: `up_on` has fuel for one round more than the place it starts from, which each round halves;
-- `down_on` has fuel for the length of the heap, which each round approaches; `send_up_to` has fuel
-- for the blocks up to the latest; `bytes` has fuel for the number, which each round divides.
--
-- Not modelled: the web framework, JSON, SQL, logging and the loading of the configuration;
-- goroutines except for those of the hub; the routes and the other middleware; the texts of messages.
pub mod Base
pub mod WadRay
pub mod Rates
pub mod Types
pub mod Indexer
pub mod Notification
pub mod Executor
pub mod Websocket
pub mod Positions
pub mod Scanner
pub mod Liquidation
pub mod Oracle
pub mod Http
pub mod Auth
pub mod RateLimit
pub mod Market
pub mod Account
pub mod Listener
pub mod Risk
pub mod Examples
