-- ===== src/Calibration/Tests.antt =====
-- Three predictions, of which two are settled, and the theorem there.
use polymarket_trade_engine.Prelude.{◌≡◌, refl, List, pos, [], ◌∷◌}
use polymarket_trade_engine.Double.{whole}
use polymarket_trade_engine.Micro.{Micro, micro_double}
use polymarket_trade_engine.Calibration.{init, settle_first, resolve, record_signal}
use polymarket_trade_engine.Calibration.Compute.{
  clamped, bucket_of, update_at, add_sample, add_samples, compute,
}
use polymarket_trade_engine.Calibration.Counts.{Call, apply, run, total, IsCounted, compute-run_lem}

-- In place of the logarithm.
abbrev log : Micro → Micro
log p = micro_double.sub p (whole 1)

abbrev calls : List (Call Micro)
calls =
    Call.signals 5 (micro_double.decimal (pos 72) 2) (micro_double.decimal (pos 60) 2) (whole 300)
    ∷ Call.signals 6 (micro_double.decimal (pos 31) 2) (micro_double.decimal (pos 40) 2) (whole 300)
    ∷ Call.signals 7 (micro_double.decimal (pos 55) 2) (micro_double.decimal (pos 50) 2) (whole 300)
    ∷ Call.resolves 5 (whole 1) (whole 4)
    ∷ Call.resolves 6 (whole 1) (micro_double.neg (whole 3))
    ∷ Call.resolves 5 (whole 0) (whole 9)
    ∷ []

settled_computed : (run log init calls).settled_count ≡ 2
unfolding run apply record_signal resolve settle_first
settled_computed = refl

-- Confidences 0.72 and 0.69, of which the first one was right.
brier_computed : (compute log (run log init calls)).brier_score ≡ pos 277_250
unfolding compute add_samples add_sample bucket_of clamped update_at run apply record_signal resolve
    settle_first
brier_computed = refl

compute-run_lem_example :
    let c = compute log (run log init calls) in IsCounted c × (total c.buckets ≡ c.settled_count)
compute-run_lem_example = compute-run_lem log calls
