-- ===== src/Telemetry/Buckets.antt =====
-- src/telemetry/pt_telemetry.c: the bucket of a sample, and sums over the first buckets.
use polymarket_trade_engine.Prelude.{
  ℕ, zero, suc, ◌+◌, ◌*◌, ◌/◌, ◌^◌, ◌≤◌, ◌<◌, Bool, ◌≡◌, refl, List, [], ◌∷◌, if◌then◌else◌, ltb,
  leb, ◌==◌, get_or, set, take, length, arith,
}
use native.Mathlib.Omega.{pow_step}
use native.Mathlib.Nat.{one-le-pow}
use polymarket_trade_engine.Telemetry.{lat_buckets, bits, bucket_for}

abbrev pub sum : List ℕ → ℕ
sum [] = 0
sum (n ∷ ns) = n + sum ns

-- The samples for which a test holds.
abbrev pub count_if : (ℕ → Bool) → List ℕ → ℕ
count_if p [] = 0
count_if p (x ∷ xs) = (if p x then 1 else 0) + count_if p xs

-- The samples that stay below this many microseconds.
abbrev pub under : ℕ → List ℕ → ℕ
under us xs = count_if (λ x. ltb (x / 1000) us) xs

-- The samples in the buckets before `k`.
abbrev pub before : ℕ → List ℕ → ℕ
before k xs = count_if (λ x. ltb (bucket_for x) k) xs

pub halves :
    (n b k p : ℕ)
    → 0 < p
    → leb b k ≡ ltb (n / 2) p
    → leb (if n == 0 then 0 else suc b) (suc k) ≡ ltb n (2 * p)
halves n b k p q h = ground arith

pub bits_lem : (w n k : ℕ) → k < w → leb (bits w n) k ≡ ltb n (2 ^ k)
unfolding bits
bits_lem (suc w) n zero h = ground arith
bits_lem (suc w) n (suc k) h = rw (pow_step 2 k) (
    halves n (bits w (n / 2)) k (2 ^ k) (one-le-pow k 2 (omega arith))
      (bits_lem w (n / 2) k (omega arith)))
bits_lem zero n k h = absurd (omega arith)

pub bucket_for-lt : (x : ℕ) → bucket_for x < lat_buckets
unfolding bucket_for
bucket_for-lt x = ground arith

pub capped :
    (u b k p : ℕ)
    → k < 31
    → 0 < p
    → leb b k ≡ ltb u p
    → ltb (if u == 0 then 0 else (if leb 32 b then 31 else b)) (suc k) ≡ ltb u p
capped u b k p h q e = ground arith

pub bucket_for_lem : (x k : ℕ) → k < 31 → ltb (bucket_for x) (suc k) ≡ ltb (x / 1000) (2 ^ k)
unfolding bucket_for
bucket_for_lem x k h =
    capped (x / 1000) (bits 64 (x / 1000)) k (2 ^ k) h (one-le-pow k 2 (omega arith))
      (bits_lem 64 (x / 1000) k (omega arith))

-- The shape of the counts: as many as there are buckets.
pub get_or-le-sum : (ns : List ℕ) (i k : ℕ) → i < k → get_or ns i 0 ≤ sum (take k ns)
get_or-le-sum ns i zero h = omega arith
get_or-le-sum [] i (suc k) h = ground arith
get_or-le-sum (n ∷ ns) zero (suc k) h = omega arith
get_or-le-sum (n ∷ ns) (suc i) (suc k) h = omega (arith, get_or-le-sum ns i k)

pub sum-take-set :
    (ns : List ℕ) (i k : ℕ)
    → i < length ns
    → sum (take k (set ns i (get_or ns i 0 + 1))) ≡ (if ltb i k then 1 else 0) + sum (take k ns)
sum-take-set [] i k h = omega arith
sum-take-set (n ∷ ns) i zero h = ground arith
sum-take-set (n ∷ ns) zero (suc k) h = ground arith
sum-take-set (n ∷ ns) (suc i) (suc k) h = ground (arith, sum-take-set ns i k)

pub before-le : (k : ℕ) (xs : List ℕ) → before k xs ≤ length xs
before-le k [] = omega arith
before-le k (x ∷ xs) = ground (arith, before-le k xs)

pub before_all : (xs : List ℕ) → before lat_buckets xs ≡ length xs
before_all [] = refl
before_all (x ∷ xs) = ground (arith, before_all xs, bucket_for-lt x)

pub before-under : (k : ℕ) (xs : List ℕ) → k < 31 → before (suc k) xs ≡ under (2 ^ k) xs
before-under k [] h = refl
before-under k (x ∷ xs) h = rw (bucket_for_lem x k h, before-under k xs h) refl
