-- ===== src/Order.antt =====
-- include/execution/pt_order.h: an order and its states. The fields that no modelled code reads or
-- writes after the `memset` (`condition_id`, `token_id`, `mode`, `arb_id`, `fee_paid`,
-- `rebate_earned`, `slippage_cost`) are left out.
use polymarket_trade_engine.Prelude.{ℕ, Bool, true, false, ℤ, pos}
use polymarket_trade_engine.Types.{Side}
use polymarket_trade_engine.Double.{Double, whole}

-- `pt_order_state_t`
pub data OrderState : Type 0 where
  created pending_submit live partial filled pending_cancel cancelled : OrderState
  stale_pending_cancel rejected expired unknown : OrderState

-- `pt_order_type_t`
pub data OrderType : Type 0 where
  limit market ioc fok : OrderType

-- `pt_strategy_t`, as it is passed, in an `int`
pub data Strategy : Type 0 where
  parity_5m flow_15m unknown : Strategy

-- `pt_order_t`
pub record Order (F : Type 0) : Type 0 where
  pub id : ℕ
  pub signal_id : ℕ
  pub market_id : ℕ
  pub is_yes : ℤ
  pub side : Side
  pub type : OrderType
  pub price : ℤ
  pub original_size : ℕ
  pub remaining_size : ℕ
  pub filled_size : ℕ
  pub cum_cost_scaled : ℤ
  pub avg_fill_price : ℤ
  pub state : OrderState
  pub strategy : Strategy
  pub queue_ahead : ℕ
  pub initial_queue : ℕ
  pub queue_ahead_at_submit : ℕ
  pub queue_ahead_after_updates : ℕ
  pub consumed_volume : ℕ
  pub cancel_volume : ℕ
  pub fill_ratio : F
  pub time_to_fill_ns : ℕ
  pub created_t : ℕ
  pub submit_t : ℕ
  pub arrival_t : ℕ
  pub ack_t : ℕ
  pub cancel_req_t : ℕ
  pub cancel_ack_t : ℕ
  pub last_update_t : ℕ
  pub adverse_selection : F

-- The bytes of a slot that was never used, all 0.
module _ {F : Type 0} ⦃d : Double F⦄ where
  abbrev pub zero_order : Order F
  zero_order = record {
    id = 0;
    signal_id = 0;
    market_id = 0;
    is_yes = pos 0;
    side = Side.other (pos 0);
    type = limit;
    price = pos 0;
    original_size = 0;
    remaining_size = 0;
    filled_size = 0;
    cum_cost_scaled = pos 0;
    avg_fill_price = pos 0;
    state = created;
    strategy = parity_5m;
    queue_ahead = 0;
    initial_queue = 0;
    queue_ahead_at_submit = 0;
    queue_ahead_after_updates = 0;
    consumed_volume = 0;
    cancel_volume = 0;
    fill_ratio = whole 0;
    time_to_fill_ns = 0;
    created_t = 0;
    submit_t = 0;
    arrival_t = 0;
    ack_t = 0;
    cancel_req_t = 0;
    cancel_ack_t = 0;
    last_update_t = 0;
    adverse_selection = whole 0;
  }

-- The tests on states that the queue makes.
abbrev pub is_free : OrderState → Bool
is_free created = true
is_free filled = true
is_free cancelled = true
is_free rejected = true
is_free expired = true
is_free _ = false

abbrev pub is_pending_submit : OrderState → Bool
is_pending_submit pending_submit = true
is_pending_submit _ = false

abbrev pub is_pending_cancel : OrderState → Bool
is_pending_cancel pending_cancel = true
is_pending_cancel _ = false

-- An order that the market can still fill.
abbrev pub is_working : OrderState → Bool
is_working live = true
is_working partial = true
is_working pending_cancel = true
is_working _ = false

-- An order that a cancel request applies to.
abbrev pub is_cancellable : OrderState → Bool
is_cancellable pending_submit = true
is_cancellable live = true
is_cancellable partial = true
is_cancellable _ = false

-- An order that trades against the book at once.
abbrev pub is_immediate : OrderType → Bool
is_immediate market = true
is_immediate ioc = true
is_immediate _ = false
