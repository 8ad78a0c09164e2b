-- ===== src/Lifecycle.antt =====
-- src/analytics/pt_lifecycle_tracker.c and include/analytics/pt_lifecycle_tracker.h: the records of the
-- opportunities, from the signal to settlement. The first `count` records of the array are a list; the
-- tracker is never NULL. The names of the states for printing are left out.
pub mod Fill
pub mod Complete
pub mod Stats
pub mod First
pub mod Legs
pub mod Inv
pub mod Run
mod Tests
use polymarket_trade_engine.Prelude.{
  ℕ, ◌+◌, Bool, true, false, not, ◌&&◌, ◌||◌, Option, none, some, List, [], ◌∷◌, ◌++◌,
  if◌then◌else◌, ltb, leb, ◌==◌, length, ℤ, pos, ◌+ℤ◌, ◌*ℤ◌, eqb_ℤ, add64,
}
use polymarket_trade_engine.Double.{Double, whole}

-- PT_LIFECYCLE_MAX_RECORDS
abbrev pub max_records : ℕ
max_records = 2048

-- PT_STRAT_PARITY5M, as the `int` that is passed.
abbrev pub parity5m : ℤ
parity5m = pos 0

-- `pt_lc_state_t`
pub data State : Type 0 where
  pending partial one_leg_filled both_legs_filled : State
  hedged settled cancelled expired_unresolved : State

-- `pt_lc_leg_t`
pub record Leg (F : Type 0) : Type 0 where
  pub order_id : ℕ
  pub is_yes : ℤ
  pub side : ℤ
  pub requested_size : ℕ
  pub filled_size : ℕ
  pub fill_count : ℕ
  pub cum_cost_scaled : ℤ
  pub avg_fill_price : ℤ
  pub fees : F
  pub rebates : F
  pub slippage : F
  pub latency_ms : F
  pub last_fill_id : ℕ

-- `pt_opportunity_record_t`
pub record Opportunity (F : Type 0) : Type 0 where
  pub signal_id : ℕ
  pub signal_time : ℕ
  pub market_id : ℕ
  pub strategy : ℤ
  pub is_yes : ℤ
  pub side : ℤ
  pub state : State
  pub leg_a : Leg F
  pub leg_b : Leg F
  pub theoretical_edge : F
  pub executable_edge : F
  pub quoted_edge : F
  pub expected_edge : F
  pub filled_edge : F
  pub realized_edge : F
  pub latency_ms : F
  pub fill_probability : F
  pub fill_ratio : F
  pub adverse_selection : F
  pub hedge_cost : F
  pub hedge_executed : Bool
  pub fees : F
  pub rebates : F
  pub slippage : F
  pub expected_pnl : F
  pub realized_pnl : F
  pub pnl_difference : F
  pub order_id : ℕ
  pub leg_b_order_id : ℕ
  pub fill_id : ℕ
  pub leg_b_fill_id : ℕ
  pub requested_size : ℕ
  pub filled_size : ℕ
  pub leg_b_filled_size : ℕ
  pub arb_status : ℕ
  pub completed : Bool

-- `pt_lifecycle_tracker_t`
pub record Tracker (F : Type 0) : Type 0 where
  pub records : List (Opportunity F)
  pub completed_count : ℕ
  pub avg_theoretical_edge : F
  pub avg_executable_edge : F
  pub avg_realized_edge : F
  pub avg_adverse_selection : F
  pub avg_slippage : F
  pub total_expected_pnl : F
  pub total_realized_pnl : F

-- The arguments of `on_signal` after the signal's id.
pub record NewSignal (F : Type 0) : Type 0 where
  pub signal_time : ℕ
  pub market_id : ℕ
  pub strategy : ℤ
  pub is_yes : ℤ
  pub side : ℤ
  pub theoretical_edge : F
  pub executable_edge : F
  pub expected_edge : F
  pub fill_prob : F
  pub requested_size : ℕ
  pub expected_pnl : F

module _ {F : Type 0} where
  -- The loop that changes the first record that meets a test and stops there.
  pub at_first :
      (Opportunity F → Bool)
      → (Opportunity F → Opportunity F)
      → List (Opportunity F)
      → List (Opportunity F)
  at_first test f [] = []
  at_first test f (r ∷ rs) = let rest = at_first test f rs in if test r then f r ∷ rs else r ∷ rest

  abbrev pub is_signal : ℕ → Opportunity F → Bool
  is_signal signal_id r = r.signal_id == signal_id

  pub on_order : Tracker F → ℕ → ℕ → F → Tracker F
  on_order t signal_id oid quoted_edge = record t {
    records =
        at_first (is_signal signal_id)
          (λ r. record r {
            order_id = oid;
            leg_a = record r.leg_a { order_id = oid };
            quoted_edge = quoted_edge;
            arb_status = 1;
          })
          t.records;
  }

  pub on_arb_orders : Tracker F → ℕ → ℕ → ℕ → F → Tracker F
  on_arb_orders t signal_id yes_oid no_oid quoted_edge = record t {
    records =
        at_first (is_signal signal_id)
          (λ r. record r {
            order_id = yes_oid;
            leg_a = record r.leg_a { order_id = yes_oid };
            leg_b_order_id = no_oid;
            leg_b = record r.leg_b { order_id = no_oid };
            quoted_edge = quoted_edge;
            arb_status = 1;
          })
          t.records;
  }

  pub on_hedge : Tracker F → ℕ → F → Tracker F
  on_hedge t signal_id hedge_cost = record t {
    records =
        at_first (is_signal signal_id)
          (λ r. record r {
            hedge_cost = hedge_cost;
            hedge_executed = true;
            state = hedged;
            arb_status = 3;
          })
          t.records;
  }

module _ {F : Type 0} ⦃d : Double F⦄ where
  pub init : Tracker F
  init = record {
    records = [];
    completed_count = 0;
    avg_theoretical_edge = whole 0;
    avg_executable_edge = whole 0;
    avg_realized_edge = whole 0;
    avg_adverse_selection = whole 0;
    avg_slippage = whole 0;
    total_expected_pnl = whole 0;
    total_realized_pnl = whole 0;
  }

  abbrev pub zero_leg : Leg F
  zero_leg = record {
    order_id = 0;
    is_yes = pos 0;
    side = pos 0;
    requested_size = 0;
    filled_size = 0;
    fill_count = 0;
    cum_cost_scaled = pos 0;
    avg_fill_price = pos 0;
    fees = whole 0;
    rebates = whole 0;
    slippage = whole 0;
    latency_ms = whole 0;
    last_fill_id = 0;
  }

  -- A leg that asks for this size; only the parity strategy has a second one, of the NO outcome.
  abbrev new_leg : ℤ → ℤ → ℕ → Leg F
  new_leg is_yes side size = record zero_leg { is_yes = is_yes; side = side; requested_size = size }

  pub new_opportunity : ℕ → NewSignal F → Opportunity F
  new_opportunity signal_id s = record {
    signal_id = signal_id;
    signal_time = s.signal_time;
    market_id = s.market_id;
    strategy = s.strategy;
    is_yes = s.is_yes;
    side = s.side;
    state = pending;
    leg_a = new_leg s.is_yes s.side s.requested_size;
    leg_b = if eqb_ℤ s.strategy parity5m then new_leg (pos 0) s.side s.requested_size else zero_leg;
    theoretical_edge = s.theoretical_edge;
    executable_edge = s.executable_edge;
    quoted_edge = whole 0;
    expected_edge = s.expected_edge;
    filled_edge = whole 0;
    realized_edge = whole 0;
    latency_ms = whole 0;
    fill_probability = s.fill_prob;
    fill_ratio = whole 0;
    adverse_selection = whole 0;
    hedge_cost = whole 0;
    hedge_executed = false;
    fees = whole 0;
    rebates = whole 0;
    slippage = whole 0;
    expected_pnl = s.expected_pnl;
    realized_pnl = whole 0;
    pnl_difference = whole 0;
    order_id = 0;
    leg_b_order_id = 0;
    fill_id = 0;
    leg_b_fill_id = 0;
    requested_size = s.requested_size;
    filled_size = 0;
    leg_b_filled_size = 0;
    arb_status = 1;
    completed = false;
  }

  -- The tracker and the id returned, 0 where the table is full.
  pub on_signal : Tracker F → ℕ → NewSignal F → Tracker F × ℕ
  on_signal t signal_id s =
      if leb max_records (length t.records)
      then (t, 0)
      else (record t { records = t.records ++ new_opportunity signal_id s ∷ [] }, signal_id)
