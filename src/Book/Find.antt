-- ===== src/Book/Find.antt =====
-- `side_find`: the binary search against a linear scan.
use polymarket_trade_engine.Prelude.{
  ℕ, zero, suc, ◌+◌, ◌-◌, ◌/◌, ◌≤◌, ◌<◌, ◌≡◌, refl, Bool, true, false, ◌&&◌, [], ◌∷◌, ltb,
  if◌then◌else◌, length, All, ℤ, ◌≤ℤ◌, ◌<ℤ◌, ltb_ℤ, eqb_ℤ, arith,
}
use polymarket_trade_engine.Book.{SideBook, level_at, find_loop, side_find}

-- Prices ascend, equal ones allowed (`IsSorted`) or not (`IsStrict`).
abbrev pub IsSorted : SideBook → Type 0
IsSorted [] = Unit {0}
IsSorted (l ∷ ls) = All (λ k. l.price ≤ℤ k.price) ls × IsSorted ls

abbrev pub IsStrict : SideBook → Type 0
IsStrict [] = Unit {0}
IsStrict (l ∷ ls) = All (λ k. l.price <ℤ k.price) ls × IsStrict ls

-- How many levels, from the lowest on, have a price below `price`.
unfoldable pub rank : ℤ → SideBook → ℕ
rank price [] = 0
rank price (l ∷ ls) = if ltb_ℤ l.price price then suc (rank price ls) else 0

pub rank-le-length : (price : ℤ) (s : SideBook) → rank price s ≤ length s
unfolding rank
rank-le-length price [] = omega arith
rank-le-length price (l ∷ ls) = ground (arith, rank-le-length price ls)

below_rank : (price : ℤ) (s : SideBook) (i : ℕ) → i < rank price s → (level_at s i).price <ℤ price
unfolding rank
below_rank price [] i h = elim h [ ]
below_rank price (l ∷ ls) zero h = ground arith
below_rank price (l ∷ ls) (suc i) h = ground (arith, below_rank price ls i)

All-at :
    (p : ℤ) (s : SideBook) (i : ℕ)
    → All (λ k. p ≤ℤ k.price) s
    → i < length s
    → p ≤ℤ (level_at s i).price
All-at p [] i a h = elim h [ ]
All-at p (l ∷ ls) zero a h = a.0
All-at p (l ∷ ls) (suc i) a h = All-at p ls i a.1 (omega arith)

above_rank :
    (price : ℤ) (s : SideBook) (i : ℕ)
    → IsSorted s
    → rank price s ≤ i
    → i < length s
    → price ≤ℤ (level_at s i).price
unfolding rank
above_rank price [] i o h k = elim k [ ]
above_rank price (l ∷ ls) zero o h k = ground arith
above_rank price (l ∷ ls) (suc i) o h k =
    ground (arith, above_rank price ls i o.1, All-at l.price ls i o.0)

-- With fuel above the width of a range that holds the rank, the search ends there.
find_loop-rank :
    (fuel : ℕ) (s : SideBook) (price : ℤ) (lo hi : ℕ)
    → IsSorted s
    → lo ≤ rank price s
    → rank price s ≤ hi
    → hi ≤ length s
    → hi - lo < fuel
    → find_loop fuel s price lo hi ≡ rank price s
unfolding find_loop
find_loop-rank zero s price lo hi o a b c d = elim d [ ]
find_loop-rank (suc fuel) s price lo hi o a b c d = ground (
  arith,
  find_loop-rank fuel s price ((lo + hi) / 2 + 1) hi o,
  find_loop-rank fuel s price lo ((lo + hi) / 2) o,
  below_rank price s ((lo + hi) / 2),
  above_rank price s ((lo + hi) / 2) o,
)

-- Whether a level stands at this price.
unfoldable pub has_price : ℤ → SideBook → Bool
has_price price [] = false
has_price price (l ∷ ls) = if eqb_ℤ l.price price then true else has_price price ls

pub exact-has_price :
    (price : ℤ) (s : SideBook)
    → IsSorted s
    → (ltb (rank price s) (length s) && eqb_ℤ (level_at s (rank price s)).price price)
      ≡ has_price price s
unfolding rank has_price
exact-has_price price [] o = refl
exact-has_price price (l ∷ ls) o =
    ground (arith, exact-has_price price ls o.1, no_price l.price ls o.0)
  where
    no_price :
        (p : ℤ) (k : SideBook) → All (λ j. p ≤ℤ j.price) k → price <ℤ p → has_price price k ≡ false
    no_price p [] a h = refl
    no_price p (k ∷ ks) a h = ground (arith, no_price p ks a.1)

-- On an ascending side the binary search returns the number of levels below the price, and
-- whether a level stands exactly there.
pub side_find-rank :
    (s : SideBook) (price : ℤ) → IsSorted s → side_find s price ≡ (rank price s, has_price price s)
unfolding side_find
side_find-rank s price o =
    let found =
      find_loop-rank (suc (length s)) s price 0 (length s) o (omega arith) (rank-le-length price s)
        (omega arith) (omega arith) in
    rw (found, exact-has_price price s o)

pub IsStrict-IsSorted : (s : SideBook) → IsStrict s → IsSorted s
IsStrict-IsSorted [] h = tt
IsStrict-IsSorted (l ∷ ls) h = (weaken ls h.0, IsStrict-IsSorted ls h.1)
  where
    weaken : (k : SideBook) → All (λ j. l.price <ℤ j.price) k → All (λ j. l.price ≤ℤ j.price) k
    weaken [] a = tt
    weaken (k ∷ ks) a = (omega arith, weaken ks a.1)
