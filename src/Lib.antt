-- ===== src/Lib.antt =====
-- Verification of the back end of an arbitrage system that trades on several venues.
--
-- The program's parts and how they interact. Venue adapters (internal/exchange) turn messages of
-- the venues into order book events; a bridge (internal/orderbook/bridge.go) feeds them to the
-- book of their instrument, which the order book engine (internal/orderbook/engine.go) keeps. The
-- unified state (internal/unifiedstate) brings together what the venues say of each instrument;
-- the opportunity engine and calculator (internal/opportunity) scan its snapshots for trades
-- between venues. The risk engine (internal/risk) decides on trades, the execution engine
-- (internal/execution) stores an execution with its legs and carries it out on paper. The
-- reconciliation engine (internal/reconciliation) compares what the program believes with what an
-- exchange answers. The pacer of internal/hyperliquid slows the program's own calls, the rate
-- limiter of internal/httpserver/middleware its callers. The trader package (internal/trader)
-- rebuilds the trades of wallets from their fills, rolls them up by day, and watches wallets for
-- the browsers. The market package (internal/market) keeps the subscriptions and the connections
-- of market data. The funding arbitrage service (internal/fundingarbitrage) lists the funding
-- differences of pairs of venues, from a cache. The coalescer of internal/notify merges
-- notifications that come close together.
--
-- Which file models what:
--   Prelude, Prelude/*     shared names, tests on numbers, lists, integers
--   Floats                 float64 as a type with operations and no law; decimals satisfy it
--   Execution/Status       internal/execution/statemachine.go: ValidOrderTransitions, CanTransition
--   Execution/Model        internal/execution/model.go
--   Execution/Store        internal/execution/repository.go over migrations/000010: the database as
--                          tables, one definition for each statement
--   Execution/Engine       internal/execution/engine.go, policy.go, TransitionOrder
--   Execution/Lifecycle    sequences of transitions of an order
--   Execution/Outcomes, Paper, Submit, Create   what the engine's calls end in
--   OrderBook/Model, Levels, Text, Engine       internal/orderbook/model.go, engine.go, helpers.go
--   OrderBook/View, Sorting, Refinement         a side of a book as a map from prices to quantities
--   OrderBook/Health       the states of a book under sequences of calls
--   OrderBook/Bridge, Feed internal/orderbook/bridge.go: one symbol's handler and runs of events
--   Exchange/Binance       internal/exchange/adapter_binance_ws.go: depth messages into events
--   Risk/Calculator, Engine, Decision           internal/risk/calculator.go, engine.go
--   UnifiedState/Model, Aggregate, Engine, Snapshot, Calls
--                          internal/unifiedstate/model.go, engine.go, service.go
--   UnifiedState/Best, Summary, Stale           what the summaries of instruments follow
--   Opportunity/Model, Estimates, PriceArb, FundingArb, BasisArb
--                          internal/opportunity/model.go, calculator.go
--   Opportunity/Engine     internal/opportunity/engine.go: the scan of a snapshot
--   Opportunity/Found, Sound, Legs              what an opportunity rests on, and what its legs are
--   Opportunity/Members, Scan, Unmarked         which pairs of venues a scan tries
--   Reconciliation/Model, Comparator, Engine    internal/reconciliation/model.go, comparator.go,
--                          engine.go and the statements of repository.go that it runs
--   Reconciliation/Mirror, Extra, Summary, Runs what the comparisons depend on, and how a run ends
--   Pacing/Pacer, PacerBounds                   internal/hyperliquid/pacer.go
--   Pacing/RateLimit, Budget, Windows           internal/httpserver/middleware/ratelimit.go
--   FundingArbitrage/Rates, Service             internal/fundingarbitrage/service.go, cache.go
--   FundingArbitrage/Cached   what the cache answers
--   Notify/Coalescer          internal/notify/coalescer.go
--   Notify/Buckets            what Add keeps of a bucket
--   Market/Subscriptions, Connections           internal/market/subscription.go, connection.go
--   Market/Entries, Follows, Indexed            runs of the calls of subscriptions
--   Market/Reconnects      the handling of a disconnection
--   Trader/Model, Reconstruct, Rollup           internal/trader/fills.go, reconstruct.go
--   Trader/Counts, Exact, Room, Balance         fills are counted once; cycles hold the position
--   Trader/Watcher         internal/trader/watcher.go: the watchers of wallets, their counts and states
--   Trader/References, Kept, Resync             runs of the watchers' calls
--   */Tests, OrderBook/Sample                   the theorems at concrete inputs
--
-- How code and model correspond. A Go method that changes its receiver is a function from the old
-- record to the new one; an error is a value beside it. A call of the repository is a function of
-- the store into an outcome, `ok` or `err`, each with the store it leaves. What the code cannot
-- foresee is a parameter: the ids and times that are drawn, and which statements the server
-- refuses (`Execution.Store.Env`, and `down` of Reconciliation/Engine); what an exchange answers
-- during a run (`Reconciliation.Engine.Adapter`); `sort.Slice` (`OrderBook.Sorting.IsSort`), the
-- order that math/big gives to prices, what it reads in a text, and the texts that it prints. Ids,
-- symbols and other texts that are only compared are numbers; prices and quantities are texts.
-- Times are nanoseconds; where one call reads the clock twice in a row for two fields of a book,
-- it is read once. Each call runs as one step, as under the source's mutexes, but for the rate
-- limiter, whose calls take two locks one after the other and run as two steps. Sequence numbers
-- and times are natural numbers. All definitions are structural recursions: there is no fuel.
--
-- Not modelled: HTTP and WebSocket handlers, JSON, SQL text, connections, logging, configuration,
-- the JSON columns of the tables, the rounding of numbers to the scale of a NUMERIC column, the
-- nil dereference of an order book's comparisons on a price that is no number, an order of a map's
-- range that differs from one loop to the next in a summary, and the parts of internal/ that no
-- file above names.
pub mod Prelude
pub mod Floats
pub mod Execution
pub mod OrderBook
pub mod Exchange
pub mod Risk
pub mod Trader
pub mod Market
pub mod FundingArbitrage
pub mod Notify
pub mod UnifiedState
pub mod Opportunity
pub mod Reconciliation
pub mod Pacing
