-- ===== src/Book/Shape.antt =====
-- What a write at the rank of a price does to an ascending side: to its order, and to the size
-- that stands at each price.
use polymarket_trade_engine.Prelude.{
  ℕ, zero, suc, ◌≡◌, refl, true, false, [], ◌∷◌, if◌then◌else◌, set, remove_at, insert_at, All, ℤ,
  ◌≤ℤ◌, ◌<ℤ◌, eqb_ℤ, arith,
}
use polymarket_trade_engine.Book.{Level, SideBook, level_at}
use polymarket_trade_engine.Book.Find.{IsStrict, rank, has_price}

-- The book as a map from prices to sizes, 0 where no level stands.
unfoldable pub size_at : ℤ → SideBook → ℕ
size_at q [] = 0
size_at q (l ∷ ls) = if eqb_ℤ l.price q then l.size else size_at q ls

abbrev Above : ℤ → SideBook → Type 0
Above p = All (λ k. p <ℤ k.price)

size_at-Above : (p q : ℤ) (s : SideBook) → Above p s → q ≤ℤ p → size_at q s ≡ 0
unfolding size_at
size_at-Above p q [] a h = refl
size_at-Above p q (l ∷ ls) a h = ground (arith, size_at-Above p q ls a.1)

Above-mono : (p q : ℤ) (s : SideBook) → q <ℤ p → Above p s → Above q s
Above-mono p q [] h a = tt
Above-mono p q (l ∷ ls) h a = (omega arith, Above-mono p q ls h a.1)

has_price-Above : (x p : ℤ) (s : SideBook) → Above x s → p ≤ℤ x → has_price p s ≡ false
unfolding has_price
has_price-Above x p [] a h = refl
has_price-Above x p (l ∷ ls) a h = ground (arith, has_price-Above x p ls a.1)

pub level_at-rank :
    (p : ℤ) (s : SideBook)
    → has_price p s ≡ true
    → IsStrict s
    → ((level_at s (rank p s)).price ≡ p) × ((level_at s (rank p s)).size ≡ size_at p s)
unfolding rank has_price size_at
level_at-rank p [] h o = absurd (ground arith)
level_at-rank p (l ∷ ls) h o = ground (arith, level_at-rank p ls, has_price-Above l.price p ls o.0)

pub size_at_absent : (p : ℤ) (s : SideBook) → has_price p s ≡ false → size_at p s ≡ 0
unfolding has_price size_at
size_at_absent p [] h = refl
size_at_absent p (l ∷ ls) h = ground (arith, size_at_absent p ls)

pub All-remove_at {ℓ} :
    (P : Level → Type ℓ) (i : ℕ) (s : SideBook) → All P s → All P (remove_at i s)
All-remove_at P i [] a = tt
All-remove_at P zero (x ∷ xs) a = a.1
All-remove_at P (suc i) (x ∷ xs) a = (a.0, All-remove_at P i xs a.1)

pub All-insert_at {ℓ} :
    (P : Level → Type ℓ) (i : ℕ) (v : Level) (s : SideBook)
    → P v
    → All P s
    → All P (insert_at i v s)
All-insert_at P zero v s p a = (p, a)
All-insert_at P (suc i) v [] p a = (p, tt)
All-insert_at P (suc i) v (x ∷ xs) p a = (a.0, All-insert_at P i v xs p a.1)

-- Removing entries keeps the order.
pub remove_at-IsStrict : (i : ℕ) (s : SideBook) → IsStrict s → IsStrict (remove_at i s)
remove_at-IsStrict i [] o = tt
remove_at-IsStrict zero (x ∷ xs) o = o.1
remove_at-IsStrict (suc i) (x ∷ xs) o = (All-remove_at _ i xs o.0, remove_at-IsStrict i xs o.1)

pub set-IsStrict :
    (s : SideBook) (i : ℕ) (n : ℕ)
    → IsStrict s
    → IsStrict (set s i (record (level_at s i) { size = n }))
set-IsStrict [] i n o = tt
set-IsStrict (x ∷ xs) zero n o = o
set-IsStrict (x ∷ xs) (suc i) n o = (resize xs i o.0, set-IsStrict xs i n o.1)
  where
    resize :
        (s : SideBook) (j : ℕ)
        → Above x.price s
        → Above x.price (set s j (record (level_at s j) { size = n }))
    resize [] j a = tt
    resize (y ∷ ys) zero a = a
    resize (y ∷ ys) (suc j) a = (a.0, resize ys j a.1)

Above-absent : (p : ℤ) (l : Level) (s : SideBook) → p <ℤ l.price → Above l.price s → Above p (l ∷ s)
Above-absent p l s h a = (h, Above-mono l.price p s h a)

pub insert_at-IsStrict :
    (p : ℤ) (n : ℕ) (s : SideBook)
    → has_price p s ≡ false
    → IsStrict s
    → IsStrict (insert_at (rank p s) (record { price = p; size = n }) s)
unfolding rank has_price
insert_at-IsStrict p n [] h o = (tt, tt)
insert_at-IsStrict p n (l ∷ ls) h o = ground (
  arith,
  insert_at-IsStrict p n ls,
  Above-absent p l ls,
  All-insert_at (λ k. l.price <ℤ k.price) (rank p ls) (record { price = p; size = n }) ls,
)

pub size_at-remove_at :
    (p q : ℤ) (s : SideBook)
    → has_price p s ≡ true
    → IsStrict s
    → size_at q (remove_at (rank p s) s) ≡ (if eqb_ℤ p q then 0 else size_at q s)
unfolding rank has_price size_at
size_at-remove_at p q [] h o = absurd (ground arith)
size_at-remove_at p q (l ∷ ls) h o = ground (
  arith,
  size_at-remove_at p q ls,
  size_at-Above l.price q ls o.0,
  has_price-Above l.price p ls o.0,
)

pub size_at-set :
    (p q : ℤ) (n : ℕ) (s : SideBook)
    → has_price p s ≡ true
    → IsStrict s
    → size_at q (set s (rank p s) (record (level_at s (rank p s)) { size = n }))
      ≡ (if eqb_ℤ p q then n else size_at q s)
unfolding rank has_price size_at
size_at-set p q n [] h o = absurd (ground arith)
size_at-set p q n (l ∷ ls) h o =
    ground (arith, size_at-set p q n ls, has_price-Above l.price p ls o.0)

pub size_at-insert_at :
    (p q : ℤ) (n : ℕ) (s : SideBook)
    → has_price p s ≡ false
    → size_at q (insert_at (rank p s) (record { price = p; size = n }) s)
      ≡ (if eqb_ℤ p q then n else size_at q s)
unfolding rank has_price size_at
size_at-insert_at p q n [] h = refl
size_at-insert_at p q n (l ∷ ls) h = ground (arith, size_at-insert_at p q n ls)
