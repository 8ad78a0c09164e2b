-- ===== src/Telemetry/Percentile.antt =====
-- src/telemetry/pt_telemetry.c: the percentile that a histogram gives.
use polymarket_trade_engine.Prelude.{
  ℕ, zero, suc, ◌+◌, ◌-◌, ◌^◌, ◌≤◌, ◌<◌, true, false, Bool-cases, ltb→lt, ◌≡◌, refl, sym, ap, ◌∙◌,
  ◌⊎◌, inl, inr, Option, some, List, [], ◌∷◌, ltb, leb, ◌==◌, take, length, add64, word, arith,
}
use polymarket_trade_engine.Double.{Double}
use polymarket_trade_engine.Telemetry.{
  LatencyHist, lat_buckets, reaching, target_of, value_at, percentile_us,
}
use polymarket_trade_engine.Telemetry.Buckets.{sum, under, before_all, before-under}
use polymarket_trade_engine.Telemetry.Recorded.{recorded, recorded-Counts, Counts}

-- The first bucket at which the cumulative count reaches the target.
record Reaches (target cum : ℕ) (ns : List ℕ) (k : ℕ) : Type 0 where
  inside : k < length ns
  reached : target ≤ cum + sum (take (suc k) ns)
  first : (k ≡ 0) ⊎ (cum + sum (take k ns) < target)

reaching-here :
    (target b cum n : ℕ) (ns : List ℕ)
    → leb target (add64 cum n) ≡ true
    → reaching target b cum (n ∷ ns) ≡ some b
unfolding reaching
reaching-here target b cum n ns e = rw e refl

shift : (b k : ℕ) → b + 1 + k ≡ b + suc k
shift b k = omega arith

reaching-later :
    (target b cum n k : ℕ) (ns : List ℕ)
    → cum + n < word
    → leb target (add64 cum n) ≡ false
    → reaching target (b + 1) (cum + n) ns ≡ some (b + 1 + k)
    → reaching target b cum (n ∷ ns) ≡ some (b + suc k)
unfolding reaching
reaching-later target b cum n k ns small e r =
    let c : add64 cum n ≡ cum + n = omega arith in rw (e, c) (r ∙ ap some (shift b k))

Reaches-later :
    (target cum n k : ℕ) (ns : List ℕ)
    → cum + n < target
    → Reaches target (cum + n) ns k
    → Reaches target cum (n ∷ ns) (suc k)
Reaches-later target cum n zero ns h r = record {
  inside = omega (arith, r.inside);
  reached = omega (arith, r.reached);
  first = inr (omega arith);
}
Reaches-later target cum n (suc k) ns h r = record {
  inside = omega (arith, r.inside);
  reached = omega (arith, r.reached);
  first = inr (elim r.first [ inl z ↦ absurd (omega (arith, z)) | inr l ↦ omega (arith, l) ]);
}

reaching_lem :
    (target b cum n : ℕ) (ns : List ℕ)
    → cum + n + sum ns < word
    → target ≤ cum + n + sum ns
    → (k : ℕ) × (reaching target b cum (n ∷ ns) ≡ some (b + k)) × Reaches target cum (n ∷ ns) k
reaching_lem target b cum n [] small le = (
  0,
  reaching-here target b cum n [] (ground arith) ∙ ap some (omega arith),
  record { inside = omega arith; reached = omega arith; first = inl refl },
)
reaching_lem target b cum n (m ∷ ns) small le = elim (Bool-cases (leb target (add64 cum n))) [
  | inl e ↦ (
    0,
    reaching-here target b cum n (m ∷ ns) e ∙ ap some (omega arith),
    record { inside = omega arith; reached = ground arith; first = inl refl },
  )
  | inr e ↦
      let r = reaching_lem target (b + 1) (cum + n) m ns (omega arith) (omega arith) in
      (
        suc r.0,
        reaching-later target b cum n r.0 (m ∷ ns) (omega arith) e r.1,
        Reaches-later target cum n r.0 (m ∷ ns) (ground arith) r.2,
      )
]

sum-take_all : (n : ℕ) (ns : List ℕ) → length ns ≤ n → sum (take n ns) ≡ sum ns
sum-take_all zero [] h = refl
sum-take_all zero (m ∷ ns) h = absurd (omega arith)
sum-take_all (suc n) [] h = refl
sum-take_all (suc n) (m ∷ ns) h = omega (arith, sum-take_all n ns)

reaching_all :
    (target : ℕ) (ns : List ℕ)
    → 0 < length ns
    → sum ns < word
    → target ≤ sum ns
    → (k : ℕ) × (reaching target 0 0 ns ≡ some k) × Reaches target 0 ns k
reaching_all target [] h small le = absurd (omega arith)
reaching_all target (n ∷ ns) h small le =
    let r = reaching_lem target 0 0 n ns (omega arith) (omega arith) in
    (r.0, r.1 ∙ ap some (omega arith), r.2)

nonzero : (n : ℕ) → 0 < n → (n == 0) ≡ false
nonzero n h = ground arith

-- What the buckets reached say of the samples.
abbrev pub Covers : ℕ → ℕ → List ℕ → Type 0
Covers target b xs =
    ((b ≡ 31) ⊎ (target ≤ under (2 ^ b) xs)) × ((b ≡ 0) ⊎ (under (2 ^ (b - 1)) xs < target))

first_later :
    (target : ℕ) (ns : List ℕ) (k : ℕ)
    → (suc k ≡ 0) ⊎ (0 + sum (take (suc k) ns) < target)
    → sum (take (suc k) ns) < target
first_later target ns k (inl e) = absurd (omega (arith, e))
first_later target ns k (inr h) = omega (arith, h)

last_of : (k : ℕ) → suc k < 32 → ltb k 30 ≡ false → suc k ≡ 31
last_of k h e = ground arith

Reaches-Covers :
    (h : LatencyHist) (target k : ℕ) (xs : List ℕ)
    → Counts h xs
    → Reaches target 0 h.buckets k
    → Covers target k xs
Reaches-Covers h target zero xs c r =
    (inr (omega (arith, r.reached, c.counted 1, before-under 0 xs)), inl refl)
Reaches-Covers h target (suc k) xs c r =
    let e : suc k - 1 ≡ k = omega arith in
    let below : (suc k ≡ 0) ⊎ (under (2 ^ (suc k - 1)) xs < target) = inr (
      rw e (
        omega (
          arith,
          first_later target h.buckets k r.first,
          c.counted (suc k),
          before-under k xs (omega (arith, r.inside, c.width)),
        ))) in
    elim (Bool-cases (ltb k 30)) [
      | inl t ↦ (
        inr (
            omega (
              arith,
              r.reached,
              c.counted (suc (suc k)),
              before-under (suc k) xs (omega (arith, ltb→lt k 30 t)),
            )),
        below,
      )
      | inr t ↦ (inl (last_of k (omega (arith, r.inside, c.width)) t), below)
    ]

module _ {F : Type 0} ⦃d : Double F⦄ where
  percentile-at :
      (h : LatencyHist) (pct : F) (o : Option ℕ)
      → 0 < h.count
      → reaching (target_of h.count pct) 0 0 h.buckets ≡ o
      → percentile_us h pct ≡ value_at h o
  unfolding percentile_us
  percentile-at h pct o pos e = rw (nonzero h.count pos, e) refl

  -- Of at least one and fewer than 2 ^ 64 samples, a percentile whose target rank is at most their
  -- number is 2 ^ b microseconds for a bucket `b`, never the largest time: at least as many samples as the
  -- target rank are below it, unless `b` is the last bucket, and fewer are below its half,
  -- unless `b` is the first.
  pub percentile_us_lem :
      (pct : F) (xs : List ℕ)
      → 0 < length xs
      → length xs < word
      → target_of (length xs) pct ≤ length xs
      → (b : ℕ) × (b < lat_buckets)
        × (percentile_us (recorded xs) pct ≡ d.of_nat (2 ^ b))
        × Covers (target_of (length xs) pct) b xs
  percentile_us_lem pct xs pos small le =
      let h = recorded xs in
      let c = recorded-Counts xs small in
      let s : sum h.buckets ≡ length xs =
        sym (sum-take_all lat_buckets h.buckets (omega (arith, c.width)))
        ∙ c.counted lat_buckets
        ∙ before_all xs in
      let r =
        reaching_all (target_of (length xs) pct) h.buckets (omega (arith, c.width))
          (omega (arith, s)) (omega (arith, s)) in
      (
        r.0,
        omega (arith, r.2.inside, c.width),
        percentile-at h pct (some r.0) (omega (arith, c.total)) (rw c.total r.1),
        Reaches-Covers h (target_of (length xs) pct) r.0 xs c r.2,
      )
