-- ===== src/Risk/Tests.antt =====
-- The risk gate: the runs of tests/test_risk.c, and instances of the theorems.
use polymarket_trade_engine.Prelude.{
  ◌+◌, ◌≤◌, ◌≡◌, refl, false, none, List, [], ◌∷◌, All, pos, sub_ℕ, arith,
}
use polymarket_trade_engine.Micro.{Micro, micro_double, Micro-IsTruncating}
use polymarket_trade_engine.Risk.{
  RiskEngine, Config, Signal, Verdict, zero_config, evaluate_signal, check_rate, check_losses,
  check_signal, size_order, roll_window, cap_order, trip_kill,
}
use polymarket_trade_engine.Risk.Gate.{Clear, affordable, evaluate_signal_approved}
use polymarket_trade_engine.Risk.Latch.{evaluates, settles, verdicts, verdicts_tripped}
use polymarket_trade_engine.Risk.Rate.{Request, approvals, approvals-le}

abbrev config : Config Micro
config =
    let c : Config Micro = zero_config in
    record c {
      max_position_per_market = pos 1000_000_000;
      max_total_exposure = pos 5000_000_000;
      max_daily_loss = pos 50_000_000;
      max_drawdown = pos 100_000_000;
      max_spread_for_entry = pos 50_000;
      max_consecutive_losses = pos 3;
      min_confidence_floor = pos 500_000;
    }

abbrev signal : Signal Micro
signal = record {
  target_price = pos 500;
  confidence = pos 800_000;
  max_size = 100;
  poly_spread = pos 20_000;
}

abbrev ready : RiskEngine Micro
ready = record {
  cfg = record config { max_orders_per_sec = 2; max_order_size_shares = pos 1000_000_000 };
  kill_switch_tripped = false;
  kill_reason = none;
  total_exposure = pos 0;
  daily_pnl = pos 0;
  peak_pnl = pos 0;
  consecutive_losses = pos 0;
  last_poly_update_t = 0;
  last_binance_update_t = 0;
  total_evaluated = 0;
  total_rejected = 0;
  rate_window_start_t = 1000;
  orders_in_current_sec = 0;
}

-- 100 shares at 0.5 are approved.
approves :
    ((evaluate_signal ready signal (pos 0) 2000).1 ≡ Verdict.approved)
    × ((evaluate_signal ready signal (pos 0) 2000).2 ≡ 100)
unfolding evaluate_signal check_rate check_losses check_signal size_order roll_window cap_order
approves = (refl, refl)

-- After a loss of 60 the daily limit of 50 is exceeded.
abbrev lost : RiskEngine Micro
lost = record ready { daily_pnl = sub_ℕ 0 60_000_000 }

lost_is_rejected : (evaluate_signal lost signal (pos 0) 2000).1 ≡ Verdict.daily_loss_exceeded
unfolding evaluate_signal check_rate check_losses check_signal size_order roll_window cap_order
lost_is_rejected = refl

evaluate_signal_approved_example :
    let r' = (evaluate_signal ready signal (pos 0) 2000).0 in
    Clear ready signal (pos 0) 2000
    × (100 ≤ 100)
    × (100 ≤ affordable ready signal (pos 0))
    × (r'.orders_in_current_sec ≡ 1)
    × (r'.total_rejected ≡ 0)
    × (r'.kill_switch_tripped ≡ false)
unfolding evaluate_signal check_rate check_losses check_signal size_order roll_window cap_order
evaluate_signal_approved_example =
    evaluate_signal_approved Micro-IsTruncating ready signal (pos 0) 2000 100 _ refl

abbrev stopped : RiskEngine Micro
stopped = trip_kill ready none

verdicts_tripped_example :
    All
      (λ v. v ≡ Verdict.kill_switch_active)
      (verdicts stopped (settles (pos 7) ∷ evaluates signal (pos 0) 2000 ∷ []))
verdicts_tripped_example =
    verdicts_tripped stopped (settles (pos 7) ∷ evaluates signal (pos 0) 2000 ∷ []) refl
      (refl, (refl, tt))

abbrev requests : List (Request Micro)
requests =
    record { signal = signal; exposure = pos 0; now = 2000 }
    ∷ record { signal = signal; exposure = pos 0; now = 3000 }
    ∷ record { signal = signal; exposure = pos 0; now = 4000 }
    ∷ []

approvals-le_example : 0 + approvals ready requests ≤ 2
approvals-le_example = approvals-le 1000 2 ready requests (omega arith) (omega arith)
