-- ===== src/Telemetry/Recorded.antt =====
-- src/telemetry/pt_telemetry.c: what a histogram holds after samples are recorded.
use polymarket_trade_engine.Prelude.{
  ℕ, zero, suc, ◌+◌, ◌-◌, ◌%◌, ◌^◌, ◌≤◌, ◌<◌, ◌≡◌, refl, ◌∙◌, Bool-cases, ◌⊎◌, inl, inr, List, [],
  ◌∷◌, if◌then◌else◌, ltb, get_or, take, replicate, length, length-set, All, add64, word, arith,
}
use polymarket_trade_engine.Telemetry.{
  LatencyHist, lat_buckets, bucket_for, empty_hist, record_sample,
}
use polymarket_trade_engine.Telemetry.Buckets.{
  sum, under, before, bucket_for-lt, get_or-le-sum, sum-take-set, before-le, before_all,
  before-under,
}

-- The histogram of these samples, the latest first.
unfoldable pub recorded : List ℕ → LatencyHist
recorded [] = empty_hist
recorded (x ∷ xs) = record_sample (recorded xs) x

-- The buckets count the samples.
pub record Counts (h : LatencyHist) (xs : List ℕ) : Type 0 where
  pub width : length h.buckets ≡ lat_buckets
  pub total : h.count ≡ length xs
  pub counted : (k : ℕ) → sum (take k h.buckets) ≡ before k xs

sum-take-replicate : (k n : ℕ) → sum (take k (replicate n 0)) ≡ 0
sum-take-replicate zero n = refl
sum-take-replicate (suc k) zero = refl
sum-take-replicate (suc k) (suc n) = omega (arith, sum-take-replicate k n)

record_sample-Counts :
    (h : LatencyHist) (x : ℕ) (xs : List ℕ)
    → length xs + 1 < word
    → Counts h xs
    → Counts (record_sample h x) (x ∷ xs)
unfolding record_sample
record_sample-Counts h x xs small c =
    let b = bucket_for x in
    let m = get_or-le-sum h.buckets b lat_buckets (bucket_for-lt x) in
    let e : add64 (get_or h.buckets b 0) 1 ≡ get_or h.buckets b 0 + 1 =
      omega (arith, m, c.counted lat_buckets, before-le lat_buckets xs) in
    record {
      width = omega (arith, c.width, length-set h.buckets b (add64 (get_or h.buckets b 0) 1));
      total = omega (arith, c.total);
      counted = λ k.
          rw (e, sum-take-set h.buckets b k (omega (arith, c.width, bucket_for-lt x)), c.counted k)
            refl;
    }

pub recorded-Counts : (xs : List ℕ) → length xs < word → Counts (recorded xs) xs
unfolding recorded
recorded-Counts [] h = record { width = refl; total = refl; counted = λ k. sum-take-replicate k 32 }
recorded-Counts (x ∷ xs) h =
    record_sample-Counts (recorded xs) x xs (omega arith) (recorded-Counts xs (omega arith))

abbrev Occurs : ℕ → List ℕ → Type 0
Occurs v xs = (i : ℕ) × (i < length xs) × (get_or xs i 0 ≡ v)

Occurs-later : (v x : ℕ) (xs : List ℕ) → Occurs v xs → Occurs v (x ∷ xs)
Occurs-later v x xs o = (suc o.0, omega (arith, o.1), o.2)

All-relax :
    (lo hi lo' hi' : ℕ) (xs : List ℕ)
    → lo' ≤ lo
    → hi ≤ hi'
    → All (λ x. (lo ≤ x) × (x ≤ hi)) xs
    → All (λ x. (lo' ≤ x) × (x ≤ hi')) xs
All-relax lo hi lo' hi' [] p q a = tt
All-relax lo hi lo' hi' (x ∷ xs) p q a =
    ((omega (arith, a.0), omega (arith, a.0)), All-relax lo hi lo' hi' xs p q a.1)

-- The times between which the samples lie, each of them one of the samples.
pub record Extremes (h : LatencyHist) (xs : List ℕ) : Type 0 where
  pub within : All (λ x. (h.min_ns ≤ x) × (x ≤ h.max_ns)) xs
  pub least : (xs ≡ []) × (h.min_ns ≡ word - 1) ⊎ Occurs h.min_ns xs
  pub largest : (xs ≡ []) × (h.max_ns ≡ 0) ⊎ Occurs h.max_ns xs

least_lem :
    (x lo : ℕ) (xs : List ℕ)
    → x < word
    → (xs ≡ []) × (lo ≡ word - 1) ⊎ Occurs lo xs
    → Occurs (if ltb x lo then x else lo) (x ∷ xs)
least_lem x lo xs small l = elim (Bool-cases (ltb x lo)) [
  | inl e ↦ rw e (0, omega arith, refl)
  | inr e ↦ elim l [
    | inl z ↦ rw e (0, omega arith, ground (arith, z.1))
    | inr o ↦ rw e (Occurs-later lo x xs o)
  ]
]

largest_lem :
    (x hi : ℕ) (xs : List ℕ)
    → (xs ≡ []) × (hi ≡ 0) ⊎ Occurs hi xs
    → Occurs (if ltb hi x then x else hi) (x ∷ xs)
largest_lem x hi xs l = elim (Bool-cases (ltb hi x)) [
  | inl e ↦ rw e (0, omega arith, refl)
  | inr e ↦ elim l [
    | inl z ↦ rw e (0, omega arith, ground (arith, z.1))
    | inr o ↦ rw e (Occurs-later hi x xs o)
  ]
]

record_sample-Extremes :
    (h : LatencyHist) (x : ℕ) (xs : List ℕ)
    → x < word
    → Extremes h xs
    → Extremes (record_sample h x) (x ∷ xs)
unfolding record_sample
record_sample-Extremes h x xs small e = record {
  within = (
    (ground arith, ground arith),
    All-relax h.min_ns h.max_ns (record_sample h x).min_ns (record_sample h x).max_ns xs
        (ground arith) (ground arith) e.within,
  );
  least = inr (least_lem x h.min_ns xs small e.least);
  largest = inr (largest_lem x h.max_ns xs e.largest);
}

recorded-Extremes : (xs : List ℕ) → All (λ x. x < word) xs → Extremes (recorded xs) xs
unfolding recorded
recorded-Extremes [] a = record {
  within = tt;
  least = inl (refl, refl);
  largest = inl (refl, refl);
}
recorded-Extremes (x ∷ xs) a =
    record_sample-Extremes (recorded xs) x xs a.0 (recorded-Extremes xs a.1)

recorded-sum : (xs : List ℕ) → (recorded xs).sum_ns ≡ sum xs % word
unfolding recorded record_sample
recorded-sum [] = refl
recorded-sum (x ∷ xs) = omega (arith, recorded-sum xs)

-- After fewer than 2 ^ 64 samples, each a 64-bit word, are recorded in an empty histogram, its count is
-- their number and its sum their sum modulo 2 ^ 64; all of them lie between the least and the largest
-- time, each of which is a sample unless there is none; the buckets together hold all samples,
-- and those up to bucket `k`, except the last, exactly the samples of less than 2 ^ k microseconds.
pub recorded_lem :
    (xs : List ℕ) (k : ℕ)
    → length xs < word
    → All (λ x. x < word) xs
    → k < 31
    → let h = recorded xs in
      (h.count ≡ length xs)
      × (h.sum_ns ≡ sum xs % word)
      × Extremes h xs
      × (sum (take lat_buckets h.buckets) ≡ length xs)
      × (sum (take (suc k) h.buckets) ≡ under (2 ^ k) xs)
recorded_lem xs k small words lt =
    let c = recorded-Counts xs small in
    (
      c.total,
      recorded-sum xs,
      recorded-Extremes xs words,
      c.counted lat_buckets ∙ before_all xs,
      c.counted (suc k) ∙ before-under k xs lt,
    )
