-- ===== src/Telemetry/Tests.antt =====
-- Five samples, and the theorems there.
use polymarket_trade_engine.Prelude.{
  ℕ, ◌%◌, ◌^◌, ◌<◌, ◌≡◌, refl, List, [], ◌∷◌, All, take, length, word, arith,
}
use polymarket_trade_engine.Double.{whole}
use polymarket_trade_engine.Micro.{Micro, micro_double}
use polymarket_trade_engine.Telemetry.{
  lat_buckets, bits, bucket_for, record_sample, reaching, target_of, percentile_us,
}
use polymarket_trade_engine.Telemetry.Buckets.{sum, under}
use polymarket_trade_engine.Telemetry.Recorded.{recorded, Extremes, recorded_lem}
use polymarket_trade_engine.Telemetry.Percentile.{Covers, percentile_us_lem}

abbrev samples : List ℕ
samples = 900 ∷ 3_500 ∷ 3_999 ∷ 40_000_000 ∷ 12_000 ∷ []

samples-words : All (λ x. x < word) samples
samples-words = (omega arith, (omega arith, (omega arith, (omega arith, (omega arith, tt)))))

buckets_computed :
    (recorded samples).buckets
    ≡ 1 ∷ 0 ∷ 2 ∷ 0 ∷ 1 ∷ 0 ∷ 0 ∷ 0 ∷ 0 ∷ 0 ∷ 0 ∷ 0 ∷ 0 ∷ 0 ∷ 0 ∷ 0 ∷ 1 ∷ 0 ∷ 0 ∷ 0 ∷ 0 ∷ 0 ∷ 0 ∷ 0
      ∷ 0 ∷ 0 ∷ 0 ∷ 0 ∷ 0 ∷ 0 ∷ 0 ∷ 0 ∷ []
unfolding recorded record_sample bucket_for bits
buckets_computed = refl

median_computed : percentile_us {F = Micro} (recorded samples) (whole 50) ≡ whole 4
unfolding recorded record_sample bucket_for bits percentile_us target_of reaching
median_computed = refl

recorded_lem_example :
    let h = recorded samples in
    (h.count ≡ length samples)
    × (h.sum_ns ≡ sum samples % word)
    × Extremes h samples
    × (sum (take lat_buckets h.buckets) ≡ length samples)
    × (sum (take 13 h.buckets) ≡ under (2 ^ 12) samples)
recorded_lem_example = recorded_lem samples 12 (omega arith) samples-words (omega arith)

percentile_us_lem_example :
    (b : ℕ) × (b < lat_buckets)
    × (percentile_us {F = Micro} (recorded samples) (whole 90) ≡ micro_double.of_nat (2 ^ b))
    × Covers (target_of {F = Micro} (length samples) (whole 90)) b samples
unfolding target_of
percentile_us_lem_example =
    percentile_us_lem {F = Micro} (whole 90) samples (omega arith) (omega arith) (omega arith)
