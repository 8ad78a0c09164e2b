-- ===== src/SimQueue/Tests.antt =====
-- The simulated queue: the runs of tests/test_queue.c, and instances of the theorems.
use polymarket_trade_engine.Prelude.{
  ◌≡◌, refl, none, some, List, [], ◌∷◌, pos, ◌+ℤ◌, ◌*ℤ◌, ◌-ℤ◌, ltb_ℤ, if◌then◌else◌, arith,
}
use polymarket_trade_engine.Types.{bid, ask}
use polymarket_trade_engine.Micro.{Micro, micro_double}
use polymarket_trade_engine.Book.{Level, Book, walk, walk_loop, best_ask}
use polymarket_trade_engine.Book.Fill.{total}
use polymarket_trade_engine.Order.{Order, OrderState, OrderType, Strategy, zero_order}
use polymarket_trade_engine.SimQueue.{Config, QueueModel, init, cancel_order}
use polymarket_trade_engine.SimQueue.Trade.{trade_order, reached, consume, rest_fill, arrive}
use polymarket_trade_engine.SimQueue.Depth.{level_order, reduced, reduce, share}
use polymarket_trade_engine.SimQueue.Tick.{tick_order, sweep}
use polymarket_trade_engine.SimQueue.Inv.{IsOrder, IsPool}
use polymarket_trade_engine.SimQueue.Pool.{Call, submits, trades, run, run-init-IsPool}
use polymarket_trade_engine.SimQueue.Match.{
  Served, trade_order-Served, sweep_takes_all, qty_of, PricedAt,
}
use polymarket_trade_engine.SimQueue.Cancel.{
  Tick, after_ticks, tick-cancel, tick-trade_loses_cancel,
}

abbrev config : Config Micro
config = record {
  net_latency_ms = pos 0;
  exchange_process_ms = pos 0;
  cancel_latency_ms = pos 0;
  queue_model = QueueModel.realistic;
  adverse_selection_bps = pos 2_000_000;
}

-- One bid level, 490 x 500, and two ask levels, 480 x 10 and 900 x 90.
abbrev market_book : Book
market_book = record {
  bids = record { price = pos 490; size = 500 } ∷ [];
  asks = record { price = pos 480; size = 10 } ∷ record { price = pos 900; size = 90 } ∷ [];
  seq = 1;
  last_trade_seq = 0;
  last_trade_price = pos 0;
  last_trade_size = 0;
  last_trade_side = pos 0;
}

-- A bid at 490 for 150 shares with 500 ahead, on the book since 1000.
abbrev resting : Order Micro
resting =
    let blank : Order Micro = zero_order in
    record blank {
      id = 100000;
      market_id = 201;
      is_yes = pos 1;
      side = bid;
      price = pos 490;
      original_size = 150;
      remaining_size = 150;
      state = OrderState.live;
      queue_ahead = 500;
      initial_queue = 500;
      submit_t = 1000;
      arrival_t = 1000;
    }

resting-IsOrder : IsOrder resting
resting-IsOrder = omega arith

-- 500 shares ahead and 100 of the order's own are served by a trade of 600.
served_600 :
    let r = trade_order config 201 (pos 1) (pos 490) 600 ask 2000 resting in
    (r.0.filled_size ≡ 100) × (r.0.remaining_size ≡ 50) × (r.0.state ≡ OrderState.partial)
unfolding trade_order reached consume rest_fill arrive ◌+ℤ◌ ◌*ℤ◌
served_600 = (refl, refl, refl)

-- 300 of the 500 shares at the level go; the proportional model takes 300 from the queue ahead.
level_drop :
    (level_order config 201 (pos 1) bid (pos 490) (pos 500) (pos 200) 2000 resting).0.queue_ahead
    ≡ 200
unfolding level_order reduced reduce share arrive ◌-ℤ◌
level_drop = refl

abbrev calls : List Call
calls =
    submits 201 (pos 1) bid OrderType.limit (pos 490) 150 (some market_book) Strategy.flow_15m 10
      1000
    ∷ trades 201 (pos 1) (pos 490) 600 ask 3000
    ∷ []

run-init-IsPool_example : IsPool (run (init (some config)) calls)
run-init-IsPool_example = run-init-IsPool (some config) calls (omega arith)

trade_order-Served_example :
    Served 600 resting (trade_order config 201 (pos 1) (pos 490) 600 ask 2000 resting)
trade_order-Served_example =
    trade_order-Served config 201 (pos 1) (pos 490) 600 ask 2000 resting (omega arith)
      resting-IsOrder refl

abbrev best_offer : Level
best_offer = record { price = pos 480; size = 10 }

-- A bid limited to 490 takes all 100 shares on offer, at 858 on average.
sweep_above_limit :
    let r = sweep config 2000 market_book best_offer resting in
    (r.0.filled_size ≡ 100) × (r.0.avg_fill_price ≡ pos 858)
unfolding sweep rest_fill walk walk_loop ◌+ℤ◌ ◌*ℤ◌
sweep_above_limit = (refl, refl)

sweep_takes_all_example :
    let r = sweep config 2000 market_book best_offer resting in
    let avg = (walk market_book ask 150).1 in
    (qty_of r.1 ≡ 100)
    × PricedAt (if ltb_ℤ (pos 0) avg then avg else pos 490) r.1
    × (r.0.filled_size ≡ 100)
    × (r.0.remaining_size ≡ 50)
unfolding total
sweep_takes_all_example =
    sweep_takes_all config 2000 market_book best_offer resting resting-IsOrder (omega arith)

-- The offers are above the limit, and the acknowledgement is not there yet.
abbrev dear_book : Book
dear_book = record market_book { asks = record { price = pos 900; size = 90 } ∷ [] }

abbrev early_tick : Tick
early_tick = record { now = 4000; yes_book = some dear_book; no_book = none }

abbrev late_tick : Tick
late_tick = record { now = 9_000_000_000; yes_book = some market_book; no_book = none }

-- A second passes before a cancellation is acknowledged.
abbrev slow_config : Config Micro
slow_config = record config { cancel_latency_ms = pos 1_000_000_000 }

tick-cancel_example :
    let waiting =
      after_ticks slow_config (early_tick ∷ []) (cancel_order slow_config 4000 resting) in
    let r = tick_order slow_config 201 (some market_book) none 9_000_000_000 waiting in
    (waiting.state ≡ OrderState.pending_cancel)
    × (r.0.state ≡ OrderState.cancelled)
    × (r.1 ≡ none)
    × (r.0.filled_size ≡ 0)
    × (r.0.remaining_size ≡ 150)
    × (tick_order slow_config 201 (some market_book) none 9_000_000_000 r.0 ≡ (r.0, none))
unfolding best_ask
tick-cancel_example =
    tick-cancel slow_config 4000 (early_tick ∷ []) late_tick late_tick resting refl
      ((omega arith, refl), tt) (omega arith)

-- The order, with its cancellation asked for.
abbrev leaving : Order Micro
leaving = cancel_order config 1500 resting

leaving-IsOrder : IsOrder leaving
leaving-IsOrder = omega arith

tick-trade_loses_cancel_example :
    let o' = (trade_order config 201 (pos 1) (pos 490) 600 ask 2000 leaving).0 in
    (o'.state ≡ OrderState.partial)
    × ((tick_order config 201 none none 9000 o').0.state ≡ OrderState.partial)
tick-trade_loses_cancel_example =
    tick-trade_loses_cancel config (pos 1) (pos 490) 600 ask 2000 9000 leaving (omega arith)
      leaving-IsOrder refl refl (omega arith) (omega arith)
