-- ===== src/Statistics.antt =====
-- src/analytics/pt_strategy_stats.c and include/analytics/pt_strategy_stats.h: the statistics of the two
-- strategies. The tracker is never NULL; the pointers that only pt_strat_stats_json_analytics reads are
-- left out. The settled trades in use are a list.
pub mod File
pub mod Sharpe
pub mod Run
pub mod Settled
pub mod Persist
mod Tests
use polymarket_trade_engine.Prelude.{
  ℕ, ◌-◌, ◌+◌, Bool, true, false, ◌||◌, Option, none, some, List, [], ◌∷◌, ◌++◌, if◌then◌else◌, ltb,
  leb, ℤ, pos, ltb_ℤ, eqb_ℤ, length, add64, CString, fit,
}
use polymarket_trade_engine.Double.{Double, whole}

-- `PT_STATS_MAX_RETURNS`
abbrev pub max_returns : ℕ
max_returns = 1_024

-- `pt_single_strat_stats_t`
pub record StratStats (F : Type 0) : Type 0 where
  pub signals : ℕ
  pub would_trade : ℕ
  pub risk_approved : ℕ
  pub orders_submitted : ℕ
  pub fills : ℕ
  pub partial_fills : ℕ
  pub cancelled : ℕ
  pub wins : ℕ
  pub losses : ℕ
  pub arbs_completed : ℕ
  pub arbs_hedged : ℕ
  pub arbs_failed : ℕ
  pub sum_hedge_cost : F
  pub win_rate : F
  pub gross_profit : F
  pub gross_loss : F
  pub realized_pnl : F
  pub fees : F
  pub rebates : F
  pub net_pnl : F
  pub sum_expected_edge : F
  pub sum_executable_edge : F
  pub sum_realized_edge : F
  pub sum_slippage_bps : F
  pub sum_queue_wait_ms : F
  pub sum_queue_ahead : F
  pub queue_observations : ℕ

-- `pt_settled_trade_t`
pub record SettledTrade (F : Type 0) : Type 0 where
  pub return_pct : F
  pub pnl : F
  pub strategy : ℤ

-- `pt_strategy_stats_tracker_t`
pub record StatsTracker (F : Type 0) : Type 0 where
  pub strat_a : StratStats F
  pub strat_b : StratStats F
  pub settled_trades : List (SettledTrade F)
  pub persist_path : CString

-- The arguments of pt_strat_stats_record_settlement.
pub record Settlement (F : Type 0) : Type 0 where
  pub strategy : ℤ
  pub is_win : Bool
  pub pnl : F
  pub cost_basis : F
  pub realized_edge : F

module _ {F : Type 0} where
  -- `get_strat_`: the strategy that is written to.
  abbrev pub in_strat : ℤ → (StratStats F → StratStats F) → StatsTracker F → StatsTracker F
  in_strat strategy f st =
      if eqb_ℤ strategy (pos 0)
      then record st { strat_a = f st.strat_a }
      else record st { strat_b = f st.strat_b }

  abbrev pub count_cancel : StratStats F → StratStats F
  count_cancel s = record s { cancelled = add64 s.cancelled 1 }

  unfoldable pub record_cancel : StatsTracker F → ℤ → StatsTracker F
  record_cancel st strategy = in_strat strategy count_cancel st

  abbrev pub count_complete : StratStats F → StratStats F
  count_complete s = record s { arbs_completed = add64 s.arbs_completed 1 }

  unfoldable pub record_arb_complete : StatsTracker F → StatsTracker F
  record_arb_complete st = record st { strat_a = count_complete st.strat_a }

  -- A trade beyond the array is dropped.
  unfoldable pub keep_trade : List (SettledTrade F) → SettledTrade F → List (SettledTrade F)
  keep_trade trades t = if ltb (length trades) max_returns then trades ++ (t ∷ []) else trades

module _ {F : Type 0} ⦃d : Double F⦄ where
  abbrev pub zero_stats : StratStats F
  zero_stats = record {
    signals = 0;
    would_trade = 0;
    risk_approved = 0;
    orders_submitted = 0;
    fills = 0;
    partial_fills = 0;
    cancelled = 0;
    wins = 0;
    losses = 0;
    arbs_completed = 0;
    arbs_hedged = 0;
    arbs_failed = 0;
    sum_hedge_cost = whole 0;
    win_rate = whole 0;
    gross_profit = whole 0;
    gross_loss = whole 0;
    realized_pnl = whole 0;
    fees = whole 0;
    rebates = whole 0;
    net_pnl = whole 0;
    sum_expected_edge = whole 0;
    sum_executable_edge = whole 0;
    sum_realized_edge = whole 0;
    sum_slippage_bps = whole 0;
    sum_queue_wait_ms = whole 0;
    sum_queue_ahead = whole 0;
    queue_observations = 0;
  }

  abbrev pub count_signal : Bool → Bool → F → F → StratStats F → StratStats F
  count_signal approved would expected executable s =
      let s' = record s {
        signals = add64 s.signals 1;
        would_trade = if would then add64 s.would_trade 1 else s.would_trade;
      } in
      if approved
      then record s' {
        risk_approved = add64 s.risk_approved 1;
        sum_expected_edge = d.add s.sum_expected_edge expected;
        sum_executable_edge = d.add s.sum_executable_edge executable;
      }
      else s'

  unfoldable pub record_signal : StatsTracker F → ℤ → Bool → Bool → F → F → StatsTracker F
  record_signal st strategy approved would expected executable =
      in_strat strategy (count_signal approved would expected executable) st

  abbrev pub count_order : ℕ → StratStats F → StratStats F
  count_order queue_ahead s = record s {
    orders_submitted = add64 s.orders_submitted 1;
    sum_queue_ahead = d.add s.sum_queue_ahead (d.of_nat queue_ahead);
    queue_observations = add64 s.queue_observations 1;
  }

  unfoldable pub record_order : StatsTracker F → ℤ → ℕ → StatsTracker F
  record_order st strategy queue_ahead = in_strat strategy (count_order queue_ahead) st

  abbrev pub net_of : F → F → F → F
  net_of realized fees rebates = d.add (d.sub realized fees) rebates

  abbrev pub count_fill : F → F → F → F → Bool → StratStats F → StratStats F
  count_fill slippage fee rebate wait is_partial s = record s {
    partial_fills = if is_partial then add64 s.partial_fills 1 else s.partial_fills;
    fills = if is_partial then s.fills else add64 s.fills 1;
    fees = d.add s.fees fee;
    rebates = d.add s.rebates rebate;
    sum_slippage_bps = d.add s.sum_slippage_bps slippage;
    sum_queue_wait_ms = d.add s.sum_queue_wait_ms wait;
    net_pnl = net_of s.realized_pnl (d.add s.fees fee) (d.add s.rebates rebate);
  }

  unfoldable pub record_fill : StatsTracker F → ℤ → F → F → F → F → Bool → StatsTracker F
  record_fill st strategy slippage fee rebate wait is_partial =
      in_strat strategy (count_fill slippage fee rebate wait is_partial) st

  abbrev pub count_hedge : F → StratStats F → StratStats F
  count_hedge cost s = record s {
    arbs_hedged = add64 s.arbs_hedged 1;
    sum_hedge_cost = d.add s.sum_hedge_cost cost;
  }

  unfoldable pub record_arb_hedge : StatsTracker F → F → StatsTracker F
  record_arb_hedge st hedge_cost = record st { strat_a = count_hedge hedge_cost st.strat_a }

  -- The win rate of these wins and losses.
  abbrev pub rate_of : ℕ → ℕ → F
  rate_of wins losses =
      if ltb 0 (add64 wins losses)
      then d.div (d.of_nat wins) (d.of_nat (add64 wins losses))
      else whole 0

  abbrev pub count_settlement : Settlement F → StratStats F → StratStats F
  count_settlement x s =
      let wins = if x.is_win then add64 s.wins 1 else s.wins in
      let losses = if x.is_win then s.losses else add64 s.losses 1 in
      record s {
        wins = wins;
        losses = losses;
        gross_profit = if x.is_win then d.add s.gross_profit x.pnl else s.gross_profit;
        gross_loss = if x.is_win then s.gross_loss else d.add s.gross_loss (d.abs x.pnl);
        realized_pnl = d.add s.realized_pnl x.pnl;
        net_pnl = net_of (d.add s.realized_pnl x.pnl) s.fees s.rebates;
        sum_realized_edge = d.add s.sum_realized_edge x.realized_edge;
        win_rate = rate_of wins losses;
      }

  abbrev pub trade_of : Settlement F → SettledTrade F
  trade_of x = record {
    strategy = x.strategy;
    pnl = x.pnl;
    return_pct =
        if d.lt (d.decimal (pos 1) 4) x.cost_basis then d.div x.pnl x.cost_basis else whole 0;
  }

  abbrev pub empty : StatsTracker F
  empty = record {
    strat_a = zero_stats;
    strat_b = zero_stats;
    settled_trades = [];
    persist_path = [];
  }
