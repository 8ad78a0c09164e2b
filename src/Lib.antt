-- ===== src/Lib.antt =====
-- A verification library of the trading engine: models of its C code, with the theorems that make
-- them correct.
--
-- The engine keeps an order book for each outcome of a prediction market and feeds it with updates
-- and trades. Strategies give signals; the risk gate approves them and sizes the orders; the
-- matching simulator queues the orders behind the sizes of the book, fills them as trades and
-- quotes reach them, and reports each fill to the paper broker, which books it in the portfolio.
-- Positions are settled when a market resolves; the tracker follows each opportunity from its
-- signal to that settlement. The registry knows the markets and their resolutions; the parity check
-- looks for a size whose two legs cost less than they pay, and the arbitrage manager evens those
-- legs out as they fill. Rolling features of the flow are kept in buffers of timed samples, the
-- latencies of the loop in histograms, and the results of each strategy in counters that survive a
-- restart; predicted probabilities are compared with the outcomes.
--
-- Files and code (paths from the repository's root):
--   Types              include/core/ptypes.h: prices, sides
--   Book               src/orderbook/pt_book.c, include/orderbook/pt_book.h: each `pt_book_<op>` is
--                      `<op>`; a side is a list of levels, ascending by price
--   Order              include/execution/pt_order.h: the order, its states and types
--   SimQueue           src/execution/pt_sim_queue.c: each `pt_sim_queue_<op>` is `<op>`, with Trade for
--                      on_trade, Depth for on_level_change and Tick for tick; the 256 slots are a list
--   Risk               src/risk/pt_risk.c: each `pt_risk_<op>` is `<op>`; the steps of
--                      evaluate_signal are helpers that are called in turn
--   Portfolio          src/portfolio/pt_portfolio.c: each `pt_portfolio_<op>` is `<op>`, with Mark for
--                      the valuation and Settlement for settle_market
--   Lifecycle          src/analytics/pt_lifecycle_tracker.c: each `pt_lifecycle_<op>` is `<op>`, with
--                      Fill, Complete and Stats for the longer ones
--   Market             src/core/pt_market_lifecycle.c: the phases of a market and its settlement
--   Registry           src/core/pt_market_registry.c: each `pt_market_registry_<op>` is `<op>`, with
--                      Resolve for the states, the active markets and the verified resolution
--   FeedBridge         src/net/pt_feed_bridge.c: the discovery messages, which add markets to the registry
--                      and set their state
--   Economics          src/execution/pt_economics.c: fees and the breakdown of an edge
--   Arb                src/execution/pt_arb.c: `net_at`, the binary search, and in Calc the parity check
--   ArbManager         src/execution/pt_arb_mgr.c: each `pt_arb_mgr_<op>` is `<op>` (`open_op` for open),
--                      with Fill for on_fill and Cancel for on_cancel and tick
--   Broker             src/execution/pt_broker.c: each `pt_broker_<op>` is `<op>` (with `broker_` before a
--                      name that the simulator has too): the simulator with the portfolio
--   Ring               src/util/pt_ring.c: each `pt_ring_<op>` is `<op>`, and in Threads the steps of its two
--                      threads
--   Telemetry          src/telemetry/pt_telemetry.c: each `pt_telemetry_<op>` is `<op>`, with Buckets for
--                      the bucket of a sample; `latencies` is what json prints of the histogram
--   Statistics         src/analytics/pt_strategy_stats.c: each `pt_strat_stats_<op>` is `<op>`, with File for
--                      the text that is saved and loaded and Sharpe for the ratio
--   Calibration        src/analytics/pt_calibration.c: each `pt_calibration_<op>` is `<op>`, with Compute for
--                      compute
--   Winbuf             src/util/pt_winbuf.c: each `pt_winbuf_<op>` is `<op>`
-- Double is the interface of the `double`s, Micro a decimal arithmetic on which the models run,
-- Stdio the calls of fprintf and fscanf, and Prelude holds the shared tests, lists, integers and words.
--
-- Conventions. State is passed explicitly; a callback's calls are returned as a list of events; a
-- return code is `Rc`, and a result that may be missing an Option. Unsigned 64-bit arithmetic wraps
-- (`add64`, `sub64`), counters of 32 bits wrap at 2 ^ 32; signed arithmetic is exact, where C
-- leaves an overflow undefined, and theorems name the bounds they need. Nothing is assumed of
-- `double` arithmetic, except that a conversion to an integer drops the fraction, where a theorem
-- says so. Pointers are never NULL unless an Option stands for them.
--
-- Bounds and fuel: a book side has 64 levels, the simulator 256 slots, the portfolio 128 positions,
-- the tracker 2048 records, the registry 64 markets, the arbitrage manager 64 operations, a
-- histogram 32 buckets, the statistics 1024 settled trades and the calibration 2048 samples, as in
-- the code. The binary search of Book runs on fuel, one unit more than there are levels, enough
-- since each round shortens the interval; that of Arb on 65 rounds, since each halves an interval
-- of fewer than 2 ^ 64 sizes, and a search without fuel left would return `none`. The bits of a
-- 64-bit word are counted in 64 rounds. Every other loop is structural.
--
-- Not modelled: names of codes for printing, the texts that the dashboard is given, the other
-- components of the engine (quote pricing, features, strategies, feed parsing, storage), and its
-- input and output (sockets, files, clocks, printing, the dashboard).
pub mod Prelude
pub mod Types
pub mod Double
pub mod Stdio
pub mod Book
pub mod Order
pub mod SimQueue
pub mod Risk
pub mod Portfolio
pub mod Winbuf
pub mod Lifecycle
pub mod Market
pub mod Registry
pub mod FeedBridge
pub mod Economics
pub mod Arb
pub mod ArbManager
pub mod Broker
pub mod Ring
pub mod Telemetry
pub mod Statistics
pub mod Calibration
pub mod Micro
