-- ===== src/Book/Fill.antt =====
-- `pt_book_walk` and the depth queries: how much is filled, from which levels and at which price.
use polymarket_trade_engine.Prelude.{
  ℕ, ◌+◌, ◌*◌, ◌/◌, ◌^◌, ◌≤◌, ◌<◌, min, ◌≡◌, refl, ap, List, [], ◌∷◌, length, take, All, ℤ, pos,
  negsuc, pos_part, neg_part, ◌+ℤ◌, ◌*ℤ◌, ◌≤ℤ◌, add64, to_int64, to_uint64, word, arith,
}
use polymarket_trade_engine.Types.{Side}
use polymarket_trade_engine.Book.{
  Level, Book, Walk, taken, walk_level, walk_loop, walk, average, no_walk, from_best, sum_sizes,
  depth_volume,
}

-- All shares on offer.
unfoldable pub total : List Level → ℕ
total [] = 0
total (l ∷ ls) = l.size + total ls

walk_loop-filled :
    (want : ℕ) (ls : List Level) (w : Walk)
    → want < word
    → w.filled ≤ want
    → (walk_loop want ls w).filled ≡ min want (w.filled + total ls)
unfolding walk_loop total
walk_loop-filled want [] w h k = omega arith
walk_loop-filled want (l ∷ ls) w h k =
    ground (arith, walk_loop-filled want ls (walk_level want w l) h)

walk_loop-used :
    (want : ℕ) (ls : List Level) (w : Walk) → (walk_loop want ls w).used ≤ w.used + length ls
unfolding walk_loop
walk_loop-used want [] w = omega arith
walk_loop-used want (l ∷ ls) w = ground (arith, walk_loop-used want ls (walk_level want w l))

-- The walk has paid between `lo` and `hi` for each share.
abbrev PaidWithin : ℕ → ℕ → Walk → Type 0
PaidWithin lo hi w =
    (neg_part w.cost ≡ 0) × (lo * w.filled ≤ pos_part w.cost) × (pos_part w.cost ≤ hi * w.filled)

-- The price of a level lies between `lo` and `hi`, and its size fits an `int64_t`.
abbrev PricedWithin : ℕ → ℕ → Level → Type 0
PricedWithin lo hi l = (pos lo ≤ℤ l.price) × (l.price ≤ℤ pos hi) × (l.size < 2 ^ 63)

pay :
    (lo hi p f t : ℕ) (c : ℕ)
    → lo ≤ p
    → p ≤ hi
    → lo * f ≤ c
    → c ≤ hi * f
    → (lo * (f + t) ≤ c + p * t) × (c + p * t ≤ hi * (f + t))
pay lo hi p f t c a b l h = (grind arith, grind arith)

pay_level :
    (p c : ℤ) (t : ℕ)
    → neg_part p ≡ 0
    → neg_part c ≡ 0
    → t < 2 ^ 63
    → c +ℤ p *ℤ to_int64 t ≡ pos (pos_part c + pos_part p * t)
unfolding ◌+ℤ◌ ◌*ℤ◌
pay_level (pos p) (pos c) t hp hc ht = ground arith
pay_level (pos p) (negsuc c) t hp hc ht = absurd (omega arith)
pay_level (negsuc p) c t hp hc ht = absurd (omega arith)

nonneg : (p : ℤ) (lo : ℕ) → pos lo ≤ℤ p → neg_part p ≡ 0
nonneg (pos n) lo h = refl
nonneg (negsuc n) lo h = absurd (omega arith)

walk_level-PaidWithin :
    (lo hi want : ℕ) (w : Walk) (l : Level)
    → want < word
    → w.filled < want
    → PricedWithin lo hi l
    → PaidWithin lo hi w
    → PaidWithin lo hi (walk_level want w l)
walk_level-PaidWithin lo hi want w l h k p q = rw (cost, sum) (refl, paid.0, paid.1)
  where
    fits : (taken want w l ≤ l.size) × (w.filled + taken want w l ≤ want)
    fits = ground arith

    cost :
        w.cost +ℤ l.price *ℤ to_int64 (taken want w l)
        ≡ pos (pos_part w.cost + pos_part l.price * taken want w l)
    cost =
        pay_level l.price w.cost (taken want w l) (nonneg l.price lo p.0) q.0
          (omega (arith, fits.0))

    sum : add64 w.filled (taken want w l) ≡ w.filled + taken want w l
    sum = omega (arith, fits.1)

    paid :
        let t = taken want w l in
        (lo * (w.filled + t) ≤ pos_part w.cost + pos_part l.price * t)
        × (pos_part w.cost + pos_part l.price * t ≤ hi * (w.filled + t))
    paid =
        pay lo hi (pos_part l.price) w.filled (taken want w l) (pos_part w.cost)
          (omega (arith, nonneg l.price lo p.0)) (omega (arith, nonneg l.price lo p.0)) q.1 q.2

walk_loop-PaidWithin :
    (lo hi want : ℕ) (ls : List Level) (w : Walk)
    → want < word
    → w.filled ≤ want
    → All (PricedWithin lo hi) ls
    → PaidWithin lo hi w
    → PaidWithin lo hi (walk_loop want ls w)
unfolding walk_loop
walk_loop-PaidWithin lo hi want [] w h k p q = q
walk_loop-PaidWithin lo hi want (l ∷ ls) w h k p q = ground (
  arith,
  walk_level-PaidWithin lo hi want w l h,
  walk_loop-PaidWithin lo hi want ls (walk_level want w l) h,
)

div_within : (lo hi c f : ℕ) → 0 < f → lo * f ≤ c → c ≤ hi * f → (lo ≤ c / f) × (c / f ≤ hi)
div_within lo hi c f p a b = (grind arith, grind arith)

to_uint64_nonneg : (c : ℤ) → neg_part c ≡ 0 → pos_part c < 2 ^ 63 → to_uint64 c ≡ pos_part c
to_uint64_nonneg (pos n) h k = omega arith
to_uint64_nonneg (negsuc n) h k = absurd (omega arith)

average_within :
    (lo hi : ℕ) (w : Walk)
    → 0 < w.filled
    → hi < 2 ^ 63
    → pos_part w.cost < 2 ^ 63
    → PaidWithin lo hi w
    → (pos lo ≤ℤ average w) × (average w ≤ℤ pos hi)
average_within lo hi w p top fits q =
    let d = div_within lo hi (pos_part w.cost) w.filled p q.1 q.2 in
    rw (to_uint64_nonneg w.cost q.0 fits) (ground (arith, d.0, d.1))

-- A walk fills what is wanted, or all that its side offers if that is less, and reads no more
-- levels than the side has.
pub walk_filled :
    (b : Book) (side : Side) (want : ℕ)
    → want < word
    → ((walk b side want).0 ≡ min want (total (from_best b side)))
      × ((walk b side want).2 ≤ length (from_best b side))
unfolding walk
walk_filled b side want h = (
  omega (arith, walk_loop-filled want (from_best b side) no_walk h (omega arith)),
  omega (arith, walk_loop-used want (from_best b side) no_walk),
)

-- If every level of the side is priced between `lo` and `hi` and the greatest cost fits an
-- `int64_t`, then a walk that fills anything pays an average between `lo` and `hi`.
pub walk_average :
    (b : Book) (side : Side) (want lo hi : ℕ)
    → want < word
    → hi * want < 2 ^ 63
    → All (PricedWithin lo hi) (from_best b side)
    → 0 < (walk b side want).0
    → (pos lo ≤ℤ (walk b side want).1) × ((walk b side want).1 ≤ℤ pos hi)
unfolding walk
walk_average b side want lo hi h fits priced some = average_within lo hi w some top cost paid
  where
    w : Walk
    w = walk_loop want (from_best b side) no_walk

    paid : PaidWithin lo hi w
    paid =
        walk_loop-PaidWithin lo hi want (from_best b side) no_walk h (omega arith) priced
          (refl, grind arith, grind arith)

    filled : w.filled ≤ want
    filled = omega (arith, walk_loop-filled want (from_best b side) no_walk h (omega arith))

    cost : pos_part w.cost < 2 ^ 63
    cost = grind (arith, paid.2, filled)

    top : hi < 2 ^ 63
    top = grind (arith, filled, some)

sum_sizes-total :
    (acc : ℕ) (ls : List Level) → acc + total ls < word → sum_sizes acc ls ≡ acc + total ls
unfolding sum_sizes total
sum_sizes-total acc [] h = omega arith
sum_sizes-total acc (l ∷ ls) h = omega (arith, sum_sizes-total (add64 acc l.size) ls (omega arith))

take_all : (ls : List Level) → take (length ls) ls ≡ ls
take_all [] = refl
take_all (l ∷ ls) = ap (λ k. l ∷ k) (take_all ls)

-- A walk fills the smaller of what is wanted and the depth that the depth query reports for all
-- levels of the side, as long as that depth fits a word.
pub walk-depth_volume :
    (b : Book) (side : Side) (want : ℕ)
    → want < word
    → total (from_best b side) < word
    → (walk b side want).0 ≡ min want (depth_volume b side (pos 0))
unfolding depth_volume
walk-depth_volume b side want h k =
    rw (take_all (from_best b side), sum_sizes-total 0 (from_best b side) (omega arith))
      (omega (arith, walk_filled b side want h))
