-- ===== src/Lifecycle/Complete.antt =====
-- src/analytics/pt_lifecycle_tracker.c, `pt_lifecycle_on_complete` and `_by_market`: the end of an
-- opportunity.
use polymarket_trade_engine.Prelude.{
  ℕ, Bool, true, false, not, ◌&&◌, ◌||◌, Option, none, some, List, [], ◌∷◌, if◌then◌else◌, ◌==◌, ℤ,
  eqb_ℤ, add64,
}
use polymarket_trade_engine.Double.{Double, whole}
use polymarket_trade_engine.Lifecycle.{settled, Opportunity, Tracker, at_first, is_signal}

module _ {F : Type 0} where
  -- Some record meets the test.
  unfoldable pub has_record : (Opportunity F → Bool) → List (Opportunity F) → Bool
  has_record test [] = false
  has_record test (r ∷ rs) = test r || has_record test rs

  abbrev pub is_open_signal : ℕ → Opportunity F → Bool
  is_open_signal signal_id r = is_signal signal_id r && not r.completed

  -- The signal of the first open record of this market and strategy.
  unfoldable pub open_signal_of : ℕ → ℤ → List (Opportunity F) → Option ℕ
  open_signal_of market_id strategy [] = none
  open_signal_of market_id strategy (r ∷ rs) =
      let later = open_signal_of market_id strategy rs in
      if (r.market_id == market_id && eqb_ℤ r.strategy strategy) && not r.completed
      then some r.signal_id
      else later

module _ {F : Type 0} ⦃d : Double F⦄ where
  unfoldable pub complete_record : F → F → F → Opportunity F → Opportunity F
  complete_record realized_pnl hedge_cost realized_edge r =
      let costs = d.lt (whole 0) hedge_cost in
      record r {
        realized_pnl = realized_pnl;
        hedge_cost = if costs || d.eq r.hedge_cost (whole 0) then hedge_cost else r.hedge_cost;
        hedge_executed = costs || r.hedge_executed;
        realized_edge = realized_edge;
        pnl_difference = d.sub realized_pnl r.expected_pnl;
        completed = true;
        state = settled;
        arb_status = 4;
      }

  unfoldable pub on_complete : Tracker F → ℕ → F → F → F → Tracker F
  on_complete t signal_id realized_pnl hedge_cost realized_edge =
      if has_record (is_open_signal signal_id) t.records
      then record t {
        records =
            at_first (is_open_signal signal_id)
              (complete_record realized_pnl hedge_cost realized_edge) t.records;
        completed_count = add64 t.completed_count 1;
      }
      else t

  unfoldable pub on_complete_by_market : Tracker F → ℕ → ℤ → F → F → F → Tracker F
  on_complete_by_market t market_id strategy realized_pnl hedge_cost realized_edge =
      elim (open_signal_of market_id strategy t.records) [
        | none ↦ t
        | some signal_id ↦ on_complete t signal_id realized_pnl hedge_cost realized_edge
      ]
