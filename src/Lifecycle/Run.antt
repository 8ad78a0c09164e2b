-- ===== src/Lifecycle/Run.antt =====
-- The tracker under any sequence of calls.
use polymarket_trade_engine.Prelude.{
  ℕ, ◌+◌, ◌≡◌, refl, Option, none, some, List, [], ◌∷◌, if◌then◌else◌, ℤ, arith,
}
use polymarket_trade_engine.Double.{Double}
use polymarket_trade_engine.Lifecycle.{
  Tracker, NewSignal, init, on_signal, on_order, on_arb_orders, on_hedge, is_signal,
}
use polymarket_trade_engine.Lifecycle.Fill.{FillEvent, on_fill_ex}
use polymarket_trade_engine.Lifecycle.Complete.{on_complete, on_complete_by_market, open_signal_of}
use polymarket_trade_engine.Lifecycle.Stats.{compute_stats}
use polymarket_trade_engine.Lifecycle.First.{
  completed_in, has_open, IsNamed, open_signal_of-IsNamed,
}
use polymarket_trade_engine.Lifecycle.Inv.{
  IsTracker, signal-IsTracker, fill-IsTracker, complete-IsTracker, complete_by_market-IsTracker,
  one_completed, stats-IsTracker, at_first-IsTracker,
}

-- A call of the tracker's interface.
pub data Call (F : Type 0) : Type 0 where
  signals : ℕ → NewSignal F → Call F
  orders : ℕ → ℕ → F → Call F
  pairs : ℕ → ℕ → ℕ → F → Call F
  fills : FillEvent F → Call F
  hedges : ℕ → F → Call F
  completes : ℕ → F → F → F → Call F
  completes_market : ℕ → ℤ → F → F → F → Call F
  computes : Option (ℕ → F) → Call F

module _ {F : Type 0} ⦃d : Double F⦄ where
  pub step : Tracker F → Call F → Tracker F
  step t (signals signal_id s) = (on_signal t signal_id s).0
  step t (orders signal_id oid edge) = on_order t signal_id oid edge
  step t (pairs signal_id yes_oid no_oid edge) = on_arb_orders t signal_id yes_oid no_oid edge
  step t (fills e) = on_fill_ex t e
  step t (hedges signal_id cost) = on_hedge t signal_id cost
  step t (completes signal_id pnl cost edge) = on_complete t signal_id pnl cost edge
  step t (completes_market market_id strategy pnl cost edge) =
      on_complete_by_market t market_id strategy pnl cost edge
  step t (computes adv) = compute_stats t adv

  pub run : Tracker F → List (Call F) → Tracker F
  run t [] = t
  run t (c ∷ cs) = run (step t c) cs

  step-IsTracker : (t : Tracker F) (c : Call F) → IsTracker t → IsTracker (step t c)
  unfolding step on_order on_arb_orders on_hedge
  step-IsTracker t (signals signal_id s) i = signal-IsTracker t signal_id s i
  step-IsTracker t (orders signal_id oid edge) i =
      at_first-IsTracker t (is_signal signal_id) _
        (λ r q. record { filled_eq = q.filled_eq; leg_b_filled_eq = q.leg_b_filled_eq }) (λ r. refl)
        i
  step-IsTracker t (pairs signal_id yes_oid no_oid edge) i =
      at_first-IsTracker t (is_signal signal_id) _
        (λ r q. record { filled_eq = q.filled_eq; leg_b_filled_eq = q.leg_b_filled_eq }) (λ r. refl)
        i
  step-IsTracker t (fills e) i = fill-IsTracker t e i
  step-IsTracker t (hedges signal_id cost) i =
      at_first-IsTracker t (is_signal signal_id) _
        (λ r q. record { filled_eq = q.filled_eq; leg_b_filled_eq = q.leg_b_filled_eq }) (λ r. refl)
        i
  step-IsTracker t (completes signal_id pnl cost edge) i =
      complete-IsTracker t signal_id pnl cost edge i
  step-IsTracker t (completes_market market_id strategy pnl cost edge) i =
      complete_by_market-IsTracker t market_id strategy pnl cost edge i
  step-IsTracker t (computes adv) i = stats-IsTracker t adv i

  run-IsTracker : (t : Tracker F) (cs : List (Call F)) → IsTracker t → IsTracker (run t cs)
  unfolding run
  run-IsTracker t [] i = i
  run-IsTracker t (c ∷ cs) i = run-IsTracker (step t c) cs (step-IsTracker t c i)

  -- After any sequence of calls at most 2048 opportunities are recorded, the count of completed ones is
  -- the number of records that are completed, and the filled sizes of each record are those of its legs.
  pub run-init-IsTracker : (cs : List (Call F)) → IsTracker (run init cs)
  unfolding init completed_in
  run-init-IsTracker cs =
      run-IsTracker init cs
        (record { length-le = omega arith; completed_eq = refl; records-all = tt })

  -- Completing by market completes exactly one opportunity if an open one of the market and strategy is
  -- there, and none otherwise.
  pub on_complete_by_market_lem :
      (t : Tracker F) (market_id : ℕ) (strategy : ℤ) (pnl cost edge : F)
      → IsTracker t
      → let t' = on_complete_by_market t market_id strategy pnl cost edge in
        completed_in t'.records
        ≡ completed_in t.records + (if has_open market_id strategy t.records then 1 else 0)
  unfolding on_complete_by_market
  on_complete_by_market_lem t market_id strategy pnl cost edge i =
      by_name (open_signal_of market_id strategy t.records)
        (open_signal_of-IsNamed market_id strategy t.records)
    where
      by_name :
          (s : Option ℕ)
          → IsNamed market_id strategy t.records s
          → completed_in
              (elim s as (λ x. Tracker F) [
                | none ↦ t
                | some signal_id ↦ on_complete t signal_id pnl cost edge
              ]).records
            ≡ completed_in t.records + (if has_open market_id strategy t.records then 1 else 0)
      by_name none q = ground (arith, q)
      by_name (some signal_id) q = ground (arith, q.0, one_completed t signal_id pnl cost edge q.1)
