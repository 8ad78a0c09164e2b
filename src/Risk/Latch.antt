-- ===== src/Risk/Latch.antt =====
-- The kill switch under any sequence of calls.
use Prim.Native.String.{String}
use polymarket_trade_engine.Prelude.{
  ℕ, ◌≡◌, refl, Bool, true, false, Option, none, some, List, [], ◌∷◌, All, add64, arith,
}
use polymarket_trade_engine.Double.{Double}
use polymarket_trade_engine.Risk.{
  RiskEngine, Signal, Verdict, evaluate_signal, check_rate, check_losses, check_signal, roll_window,
  Sizing, size_order, feed_touch_poly, feed_touch_binance, trip_kill, reset_kill, on_fill,
  on_trade_pnl,
}

-- A call of the gate's interface.
pub data Call (F : Type 0) : Type 0 where
  evaluates : Signal F → F → ℕ → Call F
  touches_poly : ℕ → Call F
  touches_binance : ℕ → Call F
  fills : F → Call F
  settles : F → Call F
  trips : Option String → Call F
  resets : Call F

abbrev pub is_reset : {F : Type 0} → Call F → Bool
is_reset resets = true
is_reset _ = false

-- The verdicts of the three loss limits.
abbrev is_loss_verdict : Verdict → Bool
is_loss_verdict Verdict.daily_loss_exceeded = true
is_loss_verdict Verdict.drawdown_exceeded = true
is_loss_verdict Verdict.consecutive_losses = true
is_loss_verdict _ = false

module _ {F : Type 0} ⦃d : Double F⦄ where
  -- The engine after a call, with the verdict if the call asks for one.
  pub step : RiskEngine F → Call F → RiskEngine F × Option Verdict
  step r (evaluates sig exposure now) =
      let (r', v, n) = evaluate_signal r sig exposure now in (r', some v)
  step r (touches_poly now) = (feed_touch_poly r now, none)
  step r (touches_binance now) = (feed_touch_binance r now, none)
  step r (fills notional) = (on_fill r notional, none)
  step r (settles pnl) = (on_trade_pnl r pnl, none)
  step r (trips reason) = (trip_kill r reason, none)
  step r resets = (reset_kill r, none)

  -- The verdicts of a sequence of calls, in order.
  pub verdicts : RiskEngine F → List (Call F) → List Verdict
  unfolding step
  verdicts r [] = []
  verdicts r (c ∷ cs) =
      let (r', v) = step r c in
      let rest = verdicts r' cs in elim v [ none ↦ rest | some w ↦ w ∷ rest ]

  evaluate_tripped :
      (r : RiskEngine F) (sig : Signal F) (exposure : F) (now : ℕ)
      → r.kill_switch_tripped ≡ true
      → let (r', v, n) = evaluate_signal r sig exposure now in
        (r'.kill_switch_tripped ≡ true) × (v ≡ Verdict.kill_switch_active) × (n ≡ 0)
  unfolding evaluate_signal
  evaluate_tripped r sig exposure now e = ground arith

  -- Once the switch is tripped, every evaluation is refused with KILL_SWITCH_ACTIVE for as long as
  -- no call resets it, whatever fills, results and feed updates come between.
  pub verdicts_tripped :
      (r : RiskEngine F) (cs : List (Call F))
      → r.kill_switch_tripped ≡ true
      → All (λ c. is_reset c ≡ false) cs
      → All (λ v. v ≡ Verdict.kill_switch_active) (verdicts r cs)
  unfolding verdicts step feed_touch_poly feed_touch_binance on_fill on_trade_pnl
  verdicts_tripped r [] e h = tt
  verdicts_tripped r (evaluates sig exposure now ∷ cs) e h =
      let t = evaluate_tripped r sig exposure now e in
      (t.1, verdicts_tripped (evaluate_signal r sig exposure now).0 cs t.0 h.1)
  verdicts_tripped r (touches_poly now ∷ cs) e h = verdicts_tripped (feed_touch_poly r now) cs e h.1
  verdicts_tripped r (touches_binance now ∷ cs) e h =
      verdicts_tripped (feed_touch_binance r now) cs e h.1
  verdicts_tripped r (fills notional ∷ cs) e h = verdicts_tripped (on_fill r notional) cs e h.1
  verdicts_tripped r (settles pnl ∷ cs) e h = verdicts_tripped (on_trade_pnl r pnl) cs e h.1
  verdicts_tripped r (trips reason ∷ cs) e h = verdicts_tripped (trip_kill r reason) cs refl h.1
  verdicts_tripped r (resets ∷ cs) e h = cc

  size_order-loss :
      (r : RiskEngine F) (sig : Signal F) (exposure : F) (v : Verdict)
      → size_order r sig exposure ≡ Sizing.refused v
      → is_loss_verdict v ≡ false
  unfolding size_order
  size_order-loss r sig exposure v e = ground arith

  check_signal-loss :
      (r : RiskEngine F) (sig : Signal F) (exposure : F) (now : ℕ)
      → is_loss_verdict (check_signal r sig exposure now).1 ≡ false
  unfolding check_signal
  check_signal-loss r sig exposure now = by_size (size_order r sig exposure) refl
    where
      by_size :
          (s : Sizing)
          → size_order r sig exposure ≡ s
          → is_loss_verdict (check_signal r sig exposure now).1 ≡ false
      by_size (Sizing.refused v) e = ground (arith, size_order-loss r sig exposure v e)
      by_size (Sizing.sized n) e = ground arith

  -- An evaluation that reports a loss limit trips the switch; so, by the latch, it is the last
  -- verdict but KILL_SWITCH_ACTIVE until a reset.
  pub evaluate_signal-loss_trips :
      (r : RiskEngine F) (sig : Signal F) (exposure : F) (now : ℕ)
      → is_loss_verdict (evaluate_signal r sig exposure now).1 ≡ true
      → (evaluate_signal r sig exposure now).0.kill_switch_tripped ≡ true
  unfolding evaluate_signal check_rate check_losses
  evaluate_signal-loss_trips r sig exposure now e =
      let r' = roll_window now (record r { total_evaluated = add64 r.total_evaluated 1 }) in
      ground (arith, check_signal-loss r' sig exposure now)
