-- ===== src/Prelude/Search.antt =====
-- The index of the first entry of an array that passes a test.
use Prim.Native.Nat.{ℕ, zero, suc, ◌<◌}
use mathlib.Core.Path.{◌≡◌, refl}
use mathlib.Core.Bool.{Bool, true}
use mathlib.Core.List.{List, [], ◌∷◌, ◌++◌}
use mathlib.Core.Option.{Option, none, some, map}
use native.Mathlib.Omega.{arith}
use polymarket_trade_engine.Prelude.Tests.{if◌then◌else◌}
use polymarket_trade_engine.Prelude.Lists.{length, get_or, set}

module _ {ℓ} {A : Type ℓ} where
  unfoldable pub find_index : (A → Bool) → List A → Option ℕ
  find_index p [] = none
  find_index p (x ∷ xs) = let rest = map suc (find_index p xs) in if p x then some 0 else rest

  -- What is found passes the test, and stands in the array.
  pub find_index_hit :
      (p : A → Bool) (xs : List A) (d : A) (i : ℕ)
      → find_index p xs ≡ some i
      → (i < length xs) × (p (get_or xs i d) ≡ true)
  unfolding find_index
  find_index_hit p [] d i h = ground arith
  find_index_hit p (x ∷ xs) d i h = at (find_index p xs) (find_index_hit p xs d) i h
    where
      at :
          (r : Option ℕ)
          → ((j : ℕ) → r ≡ some j → (j < length xs) × (p (get_or xs j d) ≡ true))
          → (i : ℕ) → (if p x then some 0 else map suc r) ≡ some i
          → (i < length (x ∷ xs)) × (p (get_or (x ∷ xs) i d) ≡ true)
      at none e i h = ground arith
      at (some j) e zero h = ground arith
      at (some j) e (suc i) h = ground (arith, e i)

  -- An entry behind others that fail the test is the first one found.
  pub find_index-append :
      (p : A → Bool) (xs : List A) (y : A)
      → find_index p xs ≡ none
      → p y ≡ true
      → find_index p (xs ++ y ∷ []) ≡ some (length xs)
  unfolding find_index
  find_index-append p [] y h q = ground arith
  find_index-append p (x ∷ xs) y h q = ground (arith, find_index-append p xs y)

  pub get_or-append_last : (xs : List A) (y d : A) → get_or (xs ++ y ∷ []) (length xs) d ≡ y
  get_or-append_last [] y d = refl
  get_or-append_last (x ∷ xs) y d = get_or-append_last xs y d

  -- A write that leaves the test's answer there alone changes nothing of a search.
  pub find_index-set :
      (p : A → Bool) (xs : List A) (i : ℕ) (v d : A)
      → p v ≡ p (get_or xs i d)
      → find_index p (set xs i v) ≡ find_index p xs
  unfolding find_index
  find_index-set p [] i v d h = refl
  find_index-set p (x ∷ xs) zero v d h = rw h refl
  find_index-set p (x ∷ xs) (suc i) v d h = rw (find_index-set p xs i v d h) refl

  pub get_or-append_front :
      (xs ys : List A) (i : ℕ) (d : A) → i < length xs → get_or (xs ++ ys) i d ≡ get_or xs i d
  get_or-append_front [] ys i d h = absurd (omega arith)
  get_or-append_front (x ∷ xs) ys zero d h = refl
  get_or-append_front (x ∷ xs) ys (suc i) d h = get_or-append_front xs ys i d (omega arith)

  -- What relates an entry to the one written over it, and each entry to itself, relates an array to
  -- itself after the write.
  pub get_or-set_related {κ} :
      (R : A → A → Type κ) (xs : List A) (i j : ℕ) (v d : A)
      → ((a : A) → R a a)
      → R (get_or xs j d) v
      → R (get_or xs i d) (get_or (set xs j v) i d)
  get_or-set_related R [] i j v d r h = r d
  get_or-set_related R (x ∷ xs) zero zero v d r h = h
  get_or-set_related R (x ∷ xs) (suc i) zero v d r h = r (get_or xs i d)
  get_or-set_related R (x ∷ xs) zero (suc j) v d r h = r x
  get_or-set_related R (x ∷ xs) (suc i) (suc j) v d r h = get_or-set_related R xs i j v d r h

  pub get_or-append_related {κ} :
      (R : A → A → Type κ) (xs : List A) (i : ℕ) (v d : A)
      → ((a : A) → R a a)
      → R d v
      → R (get_or xs i d) (get_or (xs ++ v ∷ []) i d)
  get_or-append_related R [] zero v d r h = h
  get_or-append_related R [] (suc i) v d r h = r d
  get_or-append_related R (x ∷ xs) zero v d r h = r x
  get_or-append_related R (x ∷ xs) (suc i) v d r h = get_or-append_related R xs i v d r h

  -- A search for what passes a stronger test fails too.
  pub find_index_weaker :
      (p q : A → Bool) (xs : List A)
      → ((a : A) → q a ≡ true → p a ≡ true)
      → find_index p xs ≡ none
      → find_index q xs ≡ none
  unfolding find_index
  find_index_weaker p q [] h e = refl
  find_index_weaker p q (x ∷ xs) h e = ground (arith, h x, find_index_weaker p q xs h)
