-- ===== src/Broker/Tests.antt =====
-- A broker that buys 20 shares and sees a trade, and the theorems there.
use mathlib.Core.Option
use polymarket_trade_engine.Prelude.{ℕ, ◌≡◌, none, some, List, [], ◌∷◌, pos}
use polymarket_trade_engine.Types.{bid, ask}
use polymarket_trade_engine.Micro.{Micro, micro_double}
use polymarket_trade_engine.Book.{Level, Book}
use polymarket_trade_engine.Book
use polymarket_trade_engine.Order.{OrderType, Strategy}
use polymarket_trade_engine.SimQueue.Pool.{IsCall}
use polymarket_trade_engine.SimQueue.Pool
use polymarket_trade_engine.Portfolio.{Portfolio}
use polymarket_trade_engine.Portfolio
use polymarket_trade_engine.Portfolio.Run
use polymarket_trade_engine.Broker.{Broker, init}
use polymarket_trade_engine.Broker.Run.{Call, run, sim_calls, all_fills, run_lem}

abbrev level : ℕ → ℕ → Level
level p n = record { price = pos p; size = n }

abbrev book : Book
book = record Book.init { bids = level 480 50 ∷ []; asks = level 500 10 ∷ [] }

abbrev broker : Broker Micro
broker = init none (some (Portfolio.init (pos 1_000_000_000)))

-- Bid 20 at 0.49 ahead of everything, then a sale of 30 at 0.49 and a tick.
abbrev calls : List Call
calls =
    Call.sets (some 1)
    ∷ Call.simulates
        (Pool.Call.submits 7 (pos 1) bid OrderType.limit (pos 490) 20 (some book) Strategy.parity_5m
          42 1_000)
        none
    ∷ Call.simulates (Pool.Call.trades 7 (pos 1) (pos 490) 30 ask 9_000_000_000) none
    ∷ Call.simulates (Pool.Call.ticks 7 (some book) none 9_000_000_100) (some 2)
    ∷ []

run_lem_example :
    ((run broker calls).sim_queue ≡ Pool.run broker.sim_queue (sim_calls calls))
    × ((run broker calls).portfolio
        ≡ Option.map
            (λ (p : Portfolio Micro). Run.run p (all_fills broker.sim_queue (sim_calls calls)))
            broker.portfolio)
run_lem_example = run_lem broker calls
