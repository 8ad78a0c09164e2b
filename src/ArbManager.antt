-- ===== src/ArbManager.antt =====
-- src/execution/pt_arb_mgr.c and include/execution/pt_arb_mgr.h: the running arbitrages, each with a
-- YES and a NO leg. The manager and the actions are never NULL; `none` is a book that is NULL, or the
-- result -1. The array is a list of 64 entries.
pub mod Fill
pub mod Cancel
pub mod Open
pub mod Hedge
pub mod Timeout
mod Tests
use polymarket_trade_engine.Prelude.{
  ℕ, ◌+◌, ◌-◌, Bool, true, false, not, ◌&&◌, ◌||◌, Option, none, some, List, if◌then◌else◌, ltb,
  ◌==◌, ℤ, pos, negsuc, pos_part, ltb_ℤ, leb_ℤ, add64, sub64, get_or, set, replicate, find_index,
}
use polymarket_trade_engine.Double.{Double, whole}
use polymarket_trade_engine.Book.{Book, Level, best_ask, best_bid}
use polymarket_trade_engine.Arb.{Opportunity}
use polymarket_trade_engine.Arb

-- PT_ARBMGR_MAX_OPS
abbrev pub max_ops : ℕ
max_ops = 64

-- `pt_arb_state_t`
pub data ArbState : Type 0 where
  idle signal_detected leg_a_pending leg_a_partial leg_a_filled leg_b_pending : ArbState
  leg_b_partial both_filled hedge_required hedged cancelled expired failed : ArbState

-- `pt_arb_act_t`
pub data Act : Type 0 where
  no_action submit cancel requote market_hedge complete abort : Act

-- `pt_arb_op_t`
pub record ArbOp (F : Type 0) : Type 0 where
  pub arb_id : ℕ
  pub state : ArbState
  pub target_size : ℕ
  pub yes_limit : ℤ
  pub no_limit : ℤ
  pub yes_oid : ℕ
  pub no_oid : ℕ
  pub yes_filled : ℕ
  pub no_filled : ℕ
  pub yes_notional : ℤ
  pub no_notional : ℤ
  pub designed_net_edge : F
  pub opened_t : ℕ
  pub leg_a_fill_t : ℕ
  pub last_update_t : ℕ
  pub unhedged_exposure_usd : F
  pub realized_pnl : F

-- `pt_arb_mgr_cfg_t`
pub record Config (F : Type 0) : Type 0 where
  pub max_loss_per_trade : F
  pub requote_tolerance : F
  pub allow_requote : Bool
  pub max_unhedged_time_ms : F
  pub max_unhedged_size : ℕ
  pub hedge_timeout_ms : F

-- `pt_arb_mgr_t`
pub record ArbManager (F : Type 0) : Type 0 where
  pub cfg : Config F
  pub arb_cfg : Arb.Config F
  pub yes_book : Option Book
  pub no_book : Option Book
  pub ops : List (ArbOp F)
  pub next_arb_id : ℕ

-- `pt_arb_action_t`; leg 0 is YES and leg 1 NO.
pub record Action (F : Type 0) : Type 0 where
  pub action : Act
  pub leg : ℕ
  pub size : ℕ
  pub price : ℤ
  pub new_oid : ℕ
  pub realized_pnl : F
  pub realized_pnl_pending : F
  pub remaining_edge : F
  pub max_loss_allowed : F
  pub projected_loss : F
  pub over_risk : Bool
  pub op_index : ℤ

-- The states in which an entry is free for a new operation, and which the tick passes over.
abbrev pub is_done : ArbState → Bool
is_done ArbState.idle = true
is_done ArbState.both_filled = true
is_done ArbState.hedged = true
is_done ArbState.cancelled = true
is_done ArbState.expired = true
is_done ArbState.failed = true
is_done _ = false

-- An index into the array.
abbrev pub is_slot : ℤ → Bool
is_slot i = not (ltb_ℤ i (pos 0)) && ltb_ℤ i (pos max_ops)

-- The excess and the remaining size of each leg.
pub record Exposure : Type 0 where
  pub excess_yes : ℕ
  pub excess_no : ℕ
  pub remaining_yes : ℕ
  pub remaining_no : ℕ

abbrev no_exposure : Exposure
no_exposure = record { excess_yes = 0; excess_no = 0; remaining_yes = 0; remaining_no = 0 }

abbrev cur_price : Option Level → ℤ
cur_price none = pos 0
cur_price (some l) = l.price

pub cur_ask : Option Book → ℤ
cur_ask none = pos 0
cur_ask (some b) = cur_price (best_ask b)

pub cur_bid : Option Book → ℤ
cur_bid none = pos 0
cur_bid (some b) = cur_price (best_bid b)

module _ {F : Type 0} where
  abbrev is_free : ArbOp F → Bool
  is_free op = is_done op.state || op.arb_id == 0

  abbrev pub op_exposure : ArbOp F → Exposure
  op_exposure op =
      let common = if ltb op.yes_filled op.no_filled then op.yes_filled else op.no_filled in
      record {
        excess_yes = sub64 op.yes_filled common;
        excess_no = sub64 op.no_filled common;
        remaining_yes =
            if ltb op.yes_filled op.target_size then sub64 op.target_size op.yes_filled else 0;
        remaining_no =
            if ltb op.no_filled op.target_size then sub64 op.target_size op.no_filled else 0;
      }

  pub set_books : ArbManager F → Option Book → Option Book → ArbManager F
  set_books m yes_book no_book = record m { yes_book = yes_book; no_book = no_book }

  pub next_id : ArbManager F → ArbManager F × ℕ
  next_id m = (record m { next_arb_id = add64 m.next_arb_id 1 }, m.next_arb_id)

module _ {F : Type 0} ⦃d : Double F⦄ where
  abbrev pub zero_op : ArbOp F
  zero_op = record {
    arb_id = 0;
    state = ArbState.idle;
    target_size = 0;
    yes_limit = pos 0;
    no_limit = pos 0;
    yes_oid = 0;
    no_oid = 0;
    yes_filled = 0;
    no_filled = 0;
    yes_notional = pos 0;
    no_notional = pos 0;
    designed_net_edge = whole 0;
    opened_t = 0;
    leg_a_fill_t = 0;
    last_update_t = 0;
    unhedged_exposure_usd = whole 0;
    realized_pnl = whole 0;
  }

  abbrev pub no_act : Action F
  no_act = record {
    action = Act.no_action;
    leg = 0;
    size = 0;
    price = pos 0;
    new_oid = 0;
    realized_pnl = whole 0;
    realized_pnl_pending = whole 0;
    remaining_edge = whole 0;
    max_loss_allowed = whole 0;
    projected_loss = whole 0;
    over_risk = false;
    op_index = pos 0;
  }

  -- `ops[i]`, in range wherever the code reads it.
  abbrev pub op_at : ArbManager F → ℕ → ArbOp F
  op_at m i = get_or m.ops i zero_op

  abbrev default_config : Config F
  default_config = record {
    max_loss_per_trade = whole 10;
    requote_tolerance = d.decimal (pos 5) 3;
    allow_requote = true;
    max_unhedged_time_ms = whole 500;
    max_unhedged_size = 500;
    hedge_timeout_ms = whole 1_000;
  }

  -- What a parity configuration that is NULL leaves.
  abbrev zero_arb_config : Arb.Config F
  zero_arb_config = record {
    fees = record {
      maker_fee_bps = whole 0;
      taker_fee_bps = whole 0;
      maker_rebate_bps = whole 0;
      fixed_order_fee_usd = whole 0;
      dynamic_fee_scale = whole 0;
    };
    slippage_bps = whole 0;
    latency_buffer_pct = whole 0;
    risk_buffer_pct = whole 0;
    min_edge_pct = whole 0;
    min_liquidity = 0;
    max_unhedged_loss = whole 0;
  }

  pub init : Option (Arb.Config F) → Option (Config F) → Option Book → Option Book → ArbManager F
  init arb cfg yes_book no_book = record {
    cfg = elim cfg [ none ↦ default_config | some c ↦ c ];
    arb_cfg = elim arb [ none ↦ zero_arb_config | some c ↦ c ];
    yes_book = yes_book;
    no_book = no_book;
    ops = replicate max_ops zero_op;
    next_arb_id = 1;
  }

  pub exposure : ArbManager F → ℤ → Exposure
  exposure m i = if is_slot i then op_exposure (op_at m (pos_part i)) else no_exposure

  abbrev pub new_op : Opportunity F → ℕ → ℕ → ℕ → ArbOp F
  new_op opp id yes_oid now = record zero_op {
    arb_id = id;
    state = ArbState.leg_a_pending;
    target_size = opp.max_executable_size;
    yes_limit = opp.avg_yes_scaled;
    no_limit = opp.avg_no_scaled;
    yes_oid = yes_oid;
    designed_net_edge = opp.net_edge;
    opened_t = now;
    last_update_t = now;
  }

  -- `*op_out` is the entry at the index returned.
  pub open_op : ArbManager F → Opportunity F → ℕ → ℕ → ArbManager F × Option ℕ
  open_op m opp yes_oid now =
      if not opp.has_opportunity then (m, none) else elim (find_index is_free m.ops) [
        | none ↦ (m, none)
        | some i ↦
            let (m', id) = next_id m in
            (record m' { ops = set m'.ops i (new_op opp id yes_oid now) }, some i)
      ]
