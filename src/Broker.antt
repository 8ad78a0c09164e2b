-- ===== src/Broker.antt =====
-- src/execution/pt_broker.c and include/execution/pt_broker.h: the paper broker, which books what the
-- matching simulator fills in the portfolio. The broker is never NULL; a callback with its argument is a
-- handle, and `none` one that is NULL. What the callback is told is returned.
pub mod Run
mod Tests
use polymarket_trade_engine.Prelude.{
  ℕ, Bool, false, Option, none, some, List, [], ◌∷◌, map, if◌then◌else◌, ◌==◌, ℤ, pos, get_or,
  find_index, length,
}
use mathlib.Core.Option
use polymarket_trade_engine.Types.{Side, Rc}
use polymarket_trade_engine.Double.{Double, whole}
use polymarket_trade_engine.Book.{Book}
use polymarket_trade_engine.Order.{Order, OrderType, Strategy, zero_order}
use polymarket_trade_engine.SimQueue.{SimQueue, QueueModel, Fill}
use polymarket_trade_engine.SimQueue
use polymarket_trade_engine.SimQueue.Trade.{on_trade}
use polymarket_trade_engine.SimQueue.Depth.{on_level_change}
use polymarket_trade_engine.SimQueue.Tick.{tick}
use polymarket_trade_engine.Portfolio.{Portfolio, Key, on_fill_ex}

-- `pt_broker_cfg_t`
pub record Config (F : Type 0) : Type 0 where
  pub latency_submit_ack_ms : F
  pub latency_ack_fill_ms : F
  pub latency_cancel_ms : F
  pub queue_model : QueueModel
  pub slippage_bps : F
  pub adverse_selection_bps : F
  pub live_trading_enabled : Bool

-- `pt_broker_fill_cb_t` with its `void *`
abbrev pub Callback : Type 0
Callback = ℕ

-- `pt_broker_t`
pub record Broker (F : Type 0) : Type 0 where
  pub sim_queue : SimQueue F
  pub cfg : Config F
  pub portfolio : Option (Portfolio F)
  pub default_fill_cb : Option Callback

-- `pt_strategy_t` as the `int` of a position.
abbrev pub strategy_id : Strategy → ℤ
strategy_id Strategy.parity_5m = pos 0
strategy_id Strategy.flow_15m = pos 1
strategy_id Strategy.unknown = pos 2

abbrev realistic_if_unset : QueueModel → QueueModel
realistic_if_unset QueueModel.unset = QueueModel.realistic
realistic_if_unset m = m

-- `cb ? cb : default_fill_cb`
abbrev chosen : Option Callback → Option Callback → Option Callback
chosen none default = default
chosen (some c) default = some c

module _ {F : Type 0} where
  pub set_fill_callback : Broker F → Option Callback → Broker F
  set_fill_callback b cb = record b { default_fill_cb = cb }

  -- The position that a fill of this market is about.
  abbrev pub key_of : ℕ → Fill F → Key
  key_of market_id f = record {
    market_id = market_id;
    is_yes = f.order.is_yes;
    strategy = strategy_id f.order.strategy;
    signal_id = f.order.signal_id;
  }

module _ {F : Type 0} ⦃d : Double F⦄ where
  abbrev zero_config : Config F
  zero_config = record {
    latency_submit_ack_ms = whole 0;
    latency_ack_fill_ms = whole 0;
    latency_cancel_ms = whole 0;
    queue_model = QueueModel.unset;
    slippage_bps = whole 0;
    adverse_selection_bps = whole 0;
    live_trading_enabled = false;
  }

  abbrev sim_config : Option (Config F) → SimQueue.Config F
  sim_config none = record {
    net_latency_ms = d.decimal (pos 15) 1;
    exchange_process_ms = whole 1;
    cancel_latency_ms = d.decimal (pos 15) 1;
    queue_model = QueueModel.realistic;
    adverse_selection_bps = whole 2;
  }
  sim_config (some c) = record {
    net_latency_ms = c.latency_submit_ack_ms;
    exchange_process_ms = c.latency_ack_fill_ms;
    cancel_latency_ms = c.latency_cancel_ms;
    queue_model = realistic_if_unset c.queue_model;
    adverse_selection_bps = c.adverse_selection_bps;
  }

  pub init : Option (Config F) → Option (Portfolio F) → Broker F
  init cfg portfolio = record {
    sim_queue = SimQueue.init (some (sim_config cfg));
    cfg = elim cfg [ none ↦ zero_config | some c ↦ c ];
    portfolio = portfolio;
    default_fill_cb = none;
  }

  pub submit_ex :
      Broker F → ℕ → ℤ → Side → OrderType → ℤ → ℕ → Option Book → Strategy → ℕ → ℕ → Broker F × ℕ
  submit_ex b market_id is_yes side type price size book strategy signal_id now =
      let (sq, id) =
        SimQueue.submit b.sim_queue market_id is_yes side type price size book strategy signal_id
          now in
      (record b { sim_queue = sq }, id)

  pub submit : Broker F → ℕ → ℤ → Side → ℤ → ℕ → Option Book → Strategy → ℕ → Broker F × ℕ
  submit b market_id is_yes side price size book strategy now =
      submit_ex b market_id is_yes side OrderType.limit price size book strategy 0 now

  pub cancel : Broker F → ℕ → ℕ → Rc × Broker F
  cancel b oid now =
      let (rc, sq) = SimQueue.cancel b.sim_queue oid now in (rc, record b { sim_queue = sq })

  -- on_sim_fill_, for each fill in turn.
  pub book_fills : ℕ → List (Fill F) → Portfolio F → Portfolio F
  book_fills market_id [] p = p
  book_fills market_id (f ∷ fs) p =
      book_fills market_id fs (on_fill_ex p (key_of market_id f) f.order.side f.qty f.price)

  abbrev booked : ℕ → SimQueue F × List (Fill F) → Broker F → Broker F
  booked market_id (sq, fills) b = record b {
    sim_queue = sq;
    portfolio = Option.map (book_fills market_id fills) b.portfolio;
  }

  -- The calls of the callback, if there is one.
  abbrev told : Option Callback → List (Fill F) → List (Callback × Fill F)
  told none fills = []
  told (some cb) fills = map (λ (f : Fill F). (cb, f)) fills

  pub broker_on_trade : Broker F → ℕ → ℤ → ℤ → ℕ → Side → ℕ → Broker F × List (Callback × Fill F)
  broker_on_trade b market_id is_yes price size side now =
      let r = on_trade b.sim_queue market_id is_yes price size side now in
      (booked market_id r b, told b.default_fill_cb r.1)

  pub broker_on_level_change : Broker F → ℕ → ℤ → Side → ℤ → ℤ → ℤ → ℕ → Broker F
  broker_on_level_change b market_id is_yes side price old_size new_size now = record b {
    sim_queue = on_level_change b.sim_queue market_id is_yes side price old_size new_size now;
  }

  -- The last result counts the fills.
  pub broker_tick :
      Broker F
      → ℕ
      → Option Book
      → Option Book
      → ℕ
      → Option Callback
      → Broker F × List (Callback × Fill F) × ℕ
  broker_tick b market_id yes_book no_book now cb =
      let r = tick b.sim_queue market_id yes_book no_book now in
      (booked market_id r b, told (chosen cb b.default_fill_cb) r.1, length r.1)

  pub get_order : Broker F → ℕ → Option (Order F)
  get_order b oid =
      Option.map (λ (i : ℕ). get_or b.sim_queue.orders i zero_order)
        (find_index (λ (o : Order F). o.id == oid) b.sim_queue.orders)
