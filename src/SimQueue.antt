-- ===== src/SimQueue.antt =====
-- src/execution/pt_sim_queue.c: the simulated matching engine. The pool is the list of its 256 slots.
-- A fill callback is an event in the list that a call returns, with the order as the callback sees
-- it; `fills_count` is the length of that list. The callbacks that the engine installs read the order
-- and do not touch the queue. NULL books are `none`; `sq` and `cb` are never NULL.
pub mod Trade
pub mod Depth
pub mod Tick
pub mod Inv
pub mod Pool
pub mod Match
pub mod Cancel
mod Tests
use polymarket_trade_engine.Prelude.{
  ℕ, zero, suc, ◌+◌, ◌-◌, ◌/◌, Bool, true, false, not, ◌&&◌, ◌||◌, Option, none, some, List, [],
  ◌∷◌, ltb, leb, ◌==◌, if◌then◌else◌, length, get_or, set, replicate, ℤ, pos, ◌+ℤ◌, ◌-ℤ◌, ◌*ℤ◌,
  ltb_ℤ, leb_ℤ, eqb_ℤ, add64, sub64, to_int64, to_uint64,
}
use polymarket_trade_engine.Types.{Side, bid, ask, other, is_bid, is_ask, Rc, ok, fail, price_scale}
use polymarket_trade_engine.Double.{Double, whole}
use polymarket_trade_engine.Book.{Level, Book, SideBook, side_of, walk, best_bid, best_ask}
use polymarket_trade_engine.Order.{
  Order, OrderState, OrderType, Strategy, zero_order, is_free, is_pending_submit, is_pending_cancel,
  is_working, is_cancellable, is_immediate,
}

-- PT_SIM_MAX_ORDERS
abbrev pub max_orders : ℕ
max_orders = 256

-- `pt_queue_model_t`; `unset` is 0, which `init` replaces.
pub data QueueModel : Type 0 where
  unset conservative realistic aggressive : QueueModel

-- `pt_sim_queue_cfg_t`
pub record Config (F : Type 0) : Type 0 where
  pub net_latency_ms : F
  pub exchange_process_ms : F
  pub cancel_latency_ms : F
  pub queue_model : QueueModel
  pub adverse_selection_bps : F

-- `pt_sim_queue_t`
pub record SimQueue (F : Type 0) : Type 0 where
  pub orders : List (Order F)
  pub cfg : Config F
  pub next_oid : ℕ

-- One call of the fill callback.
pub record Fill (F : Type 0) : Type 0 where
  pub order : Order F
  pub qty : ℕ
  pub price : ℤ
  pub adverse : F

-- The visible size at the order's price.
pub size_ahead : List Level → ℤ → ℕ
size_ahead [] price = 0
size_ahead (l ∷ ls) price = if eqb_ℤ l.price price then l.size else size_ahead ls price

abbrev pub queue_size : Option Book → Side → ℤ → ℕ
queue_size none side price = 0
queue_size (some b) side price = size_ahead (side_of b side) price

module _ {F : Type 0} ⦃d : Double F⦄ where
  abbrev default_config : Config F
  default_config = record {
    net_latency_ms = whole 2;
    exchange_process_ms = whole 1;
    cancel_latency_ms = whole 2;
    queue_model = realistic;
    adverse_selection_bps = whole 2;
  }

  abbrev with_model : Config F → Config F
  with_model c = elim c.queue_model [ unset ↦ record c { queue_model = realistic } | _ ↦ c ]

  pub init : Option (Config F) → SimQueue F
  init cfg = record {
    orders = replicate max_orders zero_order;
    cfg = with_model (elim cfg [ none ↦ default_config | some c ↦ c ]);
    next_oid = 100000;
  }

  -- The first free slot.
  pub free_slot : List (Order F) → Option ℕ
  free_slot [] = none
  free_slot (o ∷ os) =
      if is_free o.state
      then some 0
      else elim (free_slot os) [ none ↦ none | some i ↦ some (suc i) ]

  -- Milliseconds as nanoseconds.
  abbrev ms_to_ns : F → ℕ
  ms_to_ns x = d.to_nat (d.mul x (whole 1000000))

  abbrev pub new_order :
      Config F → ℕ → ℕ → ℤ → Side → OrderType → ℤ → ℕ → ℕ → Strategy → ℕ → ℕ → Order F
  new_order cfg id market_id is_yes side type price size ahead strategy signal_id now =
      let net_ns = ms_to_ns cfg.net_latency_ms in
      let arrival = add64 (add64 now net_ns) (ms_to_ns cfg.exchange_process_ms) in
      let fresh : Order F = zero_order in
      record fresh {
        id = id;
        signal_id = signal_id;
        market_id = market_id;
        is_yes = is_yes;
        side = side;
        type = type;
        price = price;
        original_size = size;
        remaining_size = size;
        strategy = strategy;
        created_t = now;
        submit_t = now;
        arrival_t = arrival;
        ack_t = add64 arrival net_ns;
        state = OrderState.pending_submit;
        last_update_t = now;
        queue_ahead = ahead;
        initial_queue = ahead;
        queue_ahead_at_submit = ahead;
        queue_ahead_after_updates = ahead;
      }

  -- The new queue and the order's id, 0 where the order is refused.
  pub submit :
      SimQueue F
      → ℕ
      → ℤ
      → Side
      → OrderType
      → ℤ
      → ℕ
      → Option Book
      → Strategy
      → ℕ
      → ℕ
      → SimQueue F × ℕ
  unfolding free_slot size_ahead
  submit sq market_id is_yes side type price size book strategy signal_id now =
      if size == 0 || leb_ℤ price (pos 0) then (sq, 0) else elim (free_slot sq.orders) [
        | none ↦ (sq, 0)
        | some slot ↦ (
          record sq {
            orders = set sq.orders slot (
                new_order sq.cfg sq.next_oid market_id is_yes side type price size
                  (queue_size book side price) strategy signal_id now);
            next_oid = add64 sq.next_oid 1;
          },
          sq.next_oid,
        )
      ]

  abbrev cancel_order : Config F → ℕ → Order F → Order F
  cancel_order cfg now o = record o {
    cancel_req_t = now;
    cancel_ack_t = add64 (add64 now (ms_to_ns cfg.cancel_latency_ms)) (ms_to_ns cfg.net_latency_ms);
    state = OrderState.pending_cancel;
    last_update_t = now;
  }

  -- The first slot that holds this id in a state that can be cancelled.
  pub cancel_in : Config F → ℕ → ℕ → List (Order F) → Rc × List (Order F)
  cancel_in cfg oid now [] = (fail, [])
  cancel_in cfg oid now (o ∷ os) =
      let (rc, rest) = cancel_in cfg oid now os in
      if (o.id == oid) && is_cancellable o.state
      then (ok, cancel_order cfg now o ∷ os)
      else (rc, o ∷ rest)

  pub cancel : SimQueue F → ℕ → ℕ → Rc × SimQueue F
  unfolding cancel_in
  cancel sq oid now =
      let (rc, orders) = cancel_in sq.cfg oid now sq.orders in (rc, record sq { orders = orders })
