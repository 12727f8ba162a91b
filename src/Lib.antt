-- ===== src/Lib.antt =====
-- HFTToolset: the order books, engines, buffers and metrics of an exchange simulator in C++.
--
-- The parts. `L3OrderBook` (src/orderbook/l3_order_book.h, src/orderbook/l3_order_book.cpp) matches
-- incoming orders against resting ones and answers queries; `L1Feed` and `L2Aggregator`
-- (src/orderbook/l1_feed.cpp, src/orderbook/l2_aggregator.cpp) read it and show its top and its
-- depth; `RiskEngine` (src/risk/risk_engine.cpp) checks orders before they trade; `MatchingEngine`
-- (src/market/matching_engine.cpp) puts a book and its feeds for every symbol and the risk engine
-- together, routes orders and cancels, and calls back with reports, trades and market data;
-- `TradeEngine` (src/market/trade_engine.cpp) keeps the positions that trades leave;
-- `MarketDataEngine` (src/market/market_data_engine.cpp) throttles market data and passes it through
-- an `HPRingBuffer` (src/HPRingBuffer.hpp), which two threads share; `OrderBook`
-- (src/market/order_book.cpp) is a second, simpler book; `Clock` (src/common/clock.cpp) gives real
-- or simulated time; `MemoryPool` (src/common/memory_pool.h) hands out slots; `LatencyHistogram` and
-- `Telemetry` (src/metrics/latency_histogram.h, src/metrics/telemetry.cpp) count and measure;
-- src/common/types.h has the structures that all of them share.
--
-- The files.
--   Base: numbers, lists and maps. Base.Int has signed integers, Base.Assoc std::unordered_map.
--   Types: src/common/types.h; Types.Ticker is `Symbol`.
--   Doubles: the operations of `double`, an interface that the modules with averages take.
--   Ring: `HPRingBuffer`; `push`, `pop`, `empty`, `full`, `size`, `capacity`, `increment`. Ring.Spsc
--     has `push` and `pop` of two threads, access by access; Ring.Knowledge, Ring.Access, Ring.Fifo
--     and Ring.Progress are on its interleavings.
--   L3: `L3OrderBook`. L3.State has its members, the queues and the maps of levels; L3.Match
--     `match_against` and `match_incoming`; L3.Query the query methods; L3.Book `add_order` with
--     `add_resting_order` and `publish_tob`; L3.Book.Change `cancel_order` and `replace_order`.
--     L3.Valid says what holds of a book between calls. The other modules prove: L3.Match.* the
--     loops, L3.Rest and L3.Add the new order, L3.Remove to L3.Cancelled the cancel, L3.Reach
--     sequences of calls, L3.Priority, L3.Fok, L3.Report, L3.Resting and L3.Quotes what the
--     calls do and return, L3.Symbols the symbol of a book and of its events, L3.Reported where
--     the trades of a result come from, L3.Rejected when an order is rejected. L3.Ladder is an abstract book, two lists of orders sorted by
--     price and arrival; L3.Ladder.* relate the queues, the maps and the index to it.
--   Feed: `L1Feed` and `L2Aggregator`; Feed.Averages has `vwap` and `rolling_spread`.
--   Clock: `Clock`.
--   Risk: `RiskEngine`; `check_order` with its checks, `on_fill`, limits and kill switches.
--     Risk.Checks is on the checks, Risk.Positions and Risk.Kept on the positions.
--   Market: the simple `OrderBook` of src/market/order_book.cpp; `addOrder` is `add_to_book`,
--     `cancelOrder` `cancel_in_book`, `matchIncoming` `match_in_book`. Market.Spending
--     describes price-time priority, Market.Priority and Market.Conserved are on the matching.
--   Engine: `MatchingEngine`; `process_new_order`, `add_symbol` and the queries, with
--     `process_cancel` and `process_replace` in Engine.Requests. `publish_market_data` is
--     `publish_to` and `published`. The other modules below it: Engine.Books one symbol state at a
--     time, Engine.Sound and Engine.Changes the operations, Engine.Reach sequences of them,
--     Engine.Holds and Engine.Publish reports and market data, Engine.Route the index of orders,
--     Engine.Fills what a new order does to the positions of the risk engine, Engine.Rejected what a
--     rejected order leaves.
--   Trades: `TradeEngine`; Trades.Ledger has the net quantity of a trader, Trades.Balance that of
--     all traders.
--   Dissemination: `MarketDataEngine`; Dissemination.Queue has the updates, Dissemination.Drain
--     `process_pending`, Dissemination.Spacing `should_throttle`, Dissemination.Session sequences
--     of its calls.
--   Pool: `MemoryPool`; Pool.Free has the free list, Pool.Allocate and Pool.Release the two
--     operations on it, Pool.Cycle the constructor and `deallocate`, Pool.Lifetime the objects and
--     the destructor, `destruct_pool`. Pool.Threads has `allocate` and `deallocate` of several
--     threads, access by access; Pool.Threads.* are on their interleavings.
--   Histogram: `LatencyHistogram`; `record` is `record_sample`.
--   Telemetry: `Telemetry`; `record_trade` is `record_a_trade`, `record_fill` `record_fill_of` and
--     `reset` `reset_metrics`. Telemetry.Dashboard has the numbers that are printed, Telemetry.Sums
--     the sums behind the averages.
--   Latency: `LatencyModel` (src/latency/latency_model.cpp), over a generator that is a parameter.
--   Publisher: `MarketDataPublisher` (src/market/market_data_publisher.cpp).
--   Timers: `ScopeTimer`, with its constructor and destructor, and the labelled timers of a thread
--     (src/ScopeTimer.hpp).
--   Benchmark: `benchmark_p99` (src/benchmark_p99.hpp); Benchmark.Sorted and Benchmark.Rank are on
--     the sorted latencies and their percentiles.
--
-- How the code is read. A std::map of levels is the list of its entries in the order of its
-- comparator, a std::list iterator is the id of the order in its node, and `none` stands for a
-- dangling iterator that is dereferenced, or for the member of a union that is not active. The
-- loops of `match_against` go once over the levels and the queues, so they are structural
-- recursion and need no fuel: a round either removes the front order or leaves nothing wanted.
-- `process_pending` is on fuel, for which one round more than there are messages is enough.
-- The label of a slot of a timer is a view of a text, which is taken to outlive it. Callbacks are
-- taken as registered and as not calling back, and an operation returns their calls as a list in
-- their order. The reading of the clock is an argument.
--
-- Bounds. Prices and quantities are signed and taken as unbounded: overflow of a signed integer,
-- which is undefined in C++, is not represented, and what is stated is of runs without it. A cast of
-- a double to an int64_t that is out of range is `none` in Telemetry. Counters and timestamps wrap
-- at 2^64, queue positions, level counts and the free list of a pool at 2^32. `Size` of a ring is a
-- parameter; for a power of two, which the code asserts, the mask of `increment` is the remainder.
-- The ring of the market data engine has 16384 slots in the code, any number here. The accesses of
-- two threads to a ring interleave in any order; a load of the other thread's index may see an
-- earlier store, though none before the one that the thread saw last, as acquire and release allow.
--
-- The accesses of several threads to a pool interleave one at a time, a weak exchange may fail
-- without reason, and assertions are compiled out. `std::sort` is a parameter that returns a sorted
-- permutation.
--
-- Not modelled: the frames and widths of what is printed and the text of the log of a timer; the
-- relaxed orders of the accesses to a pool; the mutex of the timers of `Telemetry`; the example
-- under examples and src/library_anchor.cpp, which has nothing to run.
pub mod Base
pub mod Types
pub mod Doubles
pub mod Ring
pub mod L3
pub mod Feed
pub mod Clock
pub mod Risk
pub mod Market
pub mod Engine
pub mod Trades
pub mod Dissemination
pub mod Pool
pub mod Histogram
pub mod Telemetry
pub mod Latency
pub mod Benchmark
pub mod Timers
pub mod Publisher
