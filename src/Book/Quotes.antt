-- ===== src/Book/Quotes.antt =====
-- The best quotes, the mid price and the trade record.
use mathlib.Core.List.{reverse-cons}
use polymarket_trade_engine.Prelude.{
  ◌≡◌, refl, Option, none, some, List, [], ◌∷◌, ◌++◌, reverse, All, ℤ, pos, ◌≤ℤ◌, arith, +ℤ_parts,
}
use polymarket_trade_engine.Book.{
  Level, SideBook, Book, first_level, best_bid, best_ask, calc_mid, middle, usable_price,
}
use polymarket_trade_engine.Book.Find.{IsSorted, IsStrict-IsSorted}
use polymarket_trade_engine.Book.Update.{IsValid}

-- A quote, if there is one, is a bound of the side's prices.
abbrev pub IsLowest : Option Level → SideBook → Type 0
IsLowest none s = s ≡ []
IsLowest (some l) s = All (λ k. l.price ≤ℤ k.price) s

abbrev pub IsHighest : Option Level → SideBook → Type 0
IsHighest none s = s ≡ []
IsHighest (some l) s = All (λ k. k.price ≤ℤ l.price) s

best_ask-IsLowest : (b : Book) (s : SideBook) → b.asks ≡ s → IsSorted s → IsLowest (best_ask b) s
unfolding best_ask
best_ask-IsLowest b [] e o = rw e refl
best_ask-IsLowest b (l ∷ ls) e o = rw e (omega arith, o.0)

last : Level → List Level → Level
last l [] = l
last l (k ∷ ks) = last k ks

first_level-append :
    (xs ys : List Level) (h : Level) → first_level xs ≡ some h → first_level (xs ++ ys) ≡ some h
first_level-append [] ys h e = cc
first_level-append (x ∷ xs) ys h e = e

first_level-reverse :
    (l : Level) (ls : List Level) → first_level (reverse (l ∷ ls)) ≡ some (last l ls)
unfolding last
first_level-reverse l [] = refl
first_level-reverse l (k ∷ ks) =
    rw (reverse-cons l (k ∷ ks))
      (first_level-append (reverse (k ∷ ks)) (l ∷ []) (last k ks) (first_level-reverse k ks))

last-le :
    (l : Level) (ls : List Level)
    → IsSorted (l ∷ ls)
    → (l.price ≤ℤ (last l ls).price) × All (λ k. k.price ≤ℤ (last l ls).price) ls
unfolding last
last-le l [] o = (omega arith, tt)
last-le l (k ∷ ks) o =
    let rest = last-le k ks o.1 in (omega (arith, rest.0, o.0.0), (rest.0, rest.1))

best_bid-IsHighest : (b : Book) (s : SideBook) → b.bids ≡ s → IsSorted s → IsHighest (best_bid b) s
unfolding best_bid
best_bid-IsHighest b [] e o = rw e refl
best_bid-IsHighest b (l ∷ ls) e o =
    let bound = last-le l ls o in rw (e, first_level-reverse l ls) (bound.0, bound.1)

-- In a valid book the best bid is the highest of the bids and the best ask the lowest of the asks;
-- a quote is missing only where its side is empty.
pub quotes_lem :
    (b : Book) → IsValid b → IsHighest (best_bid b) b.bids × IsLowest (best_ask b) b.asks
quotes_lem b v = (
  best_bid-IsHighest b b.bids refl (IsStrict-IsSorted b.bids v.bids.strict),
  best_ask-IsLowest b b.asks refl (IsStrict-IsSorted b.asks v.asks.strict),
)

abbrev pub MidWithin : Option Level → Option Level → ℤ → Type 0
MidWithin (some l) (some k) mid = (l.price ≤ℤ mid) × (mid ≤ℤ k.price)
MidWithin (some l) none mid = mid ≡ l.price
MidWithin none (some k) mid = mid ≡ k.price
MidWithin none none mid = mid ≡ pos 0

abbrev pub IsPositive : Option Level → Type 0
IsPositive none = Unit {0}
IsPositive (some l) = pos 1 ≤ℤ l.price

abbrev pub Uncrossed : Option Level → Option Level → Type 0
Uncrossed (some l) (some k) = l.price ≤ℤ k.price
Uncrossed _ _ = Unit {0}

middle-MidWithin :
    (x y : Option Level)
    → IsPositive x
    → IsPositive y
    → Uncrossed x y
    → MidWithin x y (middle (usable_price x) (usable_price y))
middle-MidWithin none none p q u = refl
middle-MidWithin none (some k) p q u = ground arith
middle-MidWithin (some l) none p q u = ground arith
middle-MidWithin (some l) (some k) p q u = ground (arith, +ℤ_parts l.price k.price)

-- Between positive quotes that do not cross, the mid price lies from the bid to the ask; where
-- only one side quotes, it is that quote, and 0 where neither does.
pub calc_mid-MidWithin :
    (b : Book)
    → IsPositive (best_bid b)
    → IsPositive (best_ask b)
    → Uncrossed (best_bid b) (best_ask b)
    → MidWithin (best_bid b) (best_ask b) (calc_mid b)
unfolding calc_mid
calc_mid-MidWithin b p q u = middle-MidWithin _ _ p q u
