-- ===== src/Book/Snapshot.antt =====
-- `pt_book_snapshot`: sorting what the caller passes, and what then stands in the book.
use mathlib.Core.List.{Perm}
use mathlib.Core.List.Perm
use polymarket_trade_engine.Prelude.{
  ℕ, zero, suc, ◌≤◌, ◌<◌, ◌^◌, ◌≡◌, ◌≢◌, refl, Bool, false, not, ◌&&◌, ◌||◌, Option, none, some,
  List, [], ◌∷◌, if◌then◌else◌, ltb, length, take, All, ℤ, pos, pos_part, ◌≤ℤ◌, ◌<ℤ◌, ltb_ℤ, eqb_ℤ,
  arith, ◌⊎◌, eq_of_parts,
}
use polymarket_trade_engine.Types.{Side, is_bid, bid, ask, ok, fail}
use polymarket_trade_engine.Book.{
  Level, Book, max_levels, insert_sorted, qsort, nonzero_levels, load_levels, snapshot, side_of,
  is_positive, get_level_size,
}
use polymarket_trade_engine.Book.Find.{IsStrict, IsSorted}
use polymarket_trade_engine.Book.Shape.{size_at}
use polymarket_trade_engine.Book.Update.{IsValidSide, IsValid, IsLevel, get_level_size-size_at}

module _ {ℓ} (P : Level → Type ℓ) where
  All-insert_sorted : (l : Level) (ks : List Level) → P l → All P ks → All P (insert_sorted l ks)
  unfolding insert_sorted
  All-insert_sorted l [] p a = (p, tt)
  All-insert_sorted l (k ∷ ks) p a = ground (arith, All-insert_sorted l ks p)

  All-qsort : (ls : List Level) → All P ls → All P (qsort ls)
  unfolding qsort
  All-qsort [] a = tt
  All-qsort (l ∷ ls) a = All-insert_sorted l (qsort ls) a.0 (All-qsort ls a.1)

  All-nonzero_levels : (ls : List Level) → All P ls → All P (nonzero_levels ls)
  unfolding nonzero_levels
  All-nonzero_levels [] a = tt
  All-nonzero_levels (l ∷ ls) a = ground (arith, All-nonzero_levels ls a.1)

  All-take : (n : ℕ) (ls : List Level) → All P ls → All P (take n ls)
  All-take zero ls a = tt
  All-take (suc n) [] a = tt
  All-take (suc n) (l ∷ ls) a = (a.0, All-take n ls a.1)

insert_sorted-IsSorted : (l : Level) (ks : List Level) → IsSorted ks → IsSorted (insert_sorted l ks)
unfolding insert_sorted
insert_sorted-IsSorted l [] o = (tt, tt)
insert_sorted-IsSorted l (k ∷ ks) o = ground (
  arith,
  insert_sorted-IsSorted l ks,
  All-insert_sorted (λ j. k.price ≤ℤ j.price) l ks,
  below l k ks,
)
  where
    below :
        (l k : Level) (s : List Level)
        → l.price ≤ℤ k.price
        → All (λ j. k.price ≤ℤ j.price) s
        → All (λ j. l.price ≤ℤ j.price) s
    below l k [] h a = tt
    below l k (j ∷ js) h a = (omega arith, below l k js h a.1)

qsort-IsSorted : (ls : List Level) → IsSorted (qsort ls)
unfolding qsort
qsort-IsSorted [] = tt
qsort-IsSorted (l ∷ ls) = insert_sorted-IsSorted l (qsort ls) (qsort-IsSorted ls)

insert_sorted-perm : (l : Level) (ks : List Level) → Perm (insert_sorted l ks) (l ∷ ks)
unfolding insert_sorted
insert_sorted-perm l [] = Perm.refl _
insert_sorted-perm l (k ∷ ks) = ground (
  arith,
  Perm.refl (l ∷ k ∷ ks),
  Perm.trans (Perm.cons k (insert_sorted-perm l ks)) (Perm.swap l k ks),
)

qsort-perm : (ls : List Level) → Perm (qsort ls) ls
unfolding qsort
qsort-perm [] = Perm.refl _
qsort-perm (l ∷ ls) = Perm.trans (insert_sorted-perm l (qsort ls)) (Perm.cons l (qsort-perm ls))

qsort-sorts : (ls : List Level) → IsSorted (qsort ls) × Perm (qsort ls) ls
qsort-sorts ls = (qsort-IsSorted ls, qsort-perm ls)

-- No two levels have one price.
abbrev pub IsDistinct : List Level → Type 0
IsDistinct [] = Unit {0}
IsDistinct (l ∷ ls) = All (λ k. l.price ≢ k.price) ls × IsDistinct ls

insert_sorted-IsStrict :
    (l : Level) (ks : List Level)
    → All (λ k. l.price ≢ k.price) ks
    → IsStrict ks
    → IsStrict (insert_sorted l ks)
unfolding insert_sorted
insert_sorted-IsStrict l [] d o = (tt, tt)
insert_sorted-IsStrict l (k ∷ ks) d o = ground (
  arith,
  insert_sorted-IsStrict l ks d.1,
  All-insert_sorted (λ j. k.price <ℤ j.price) l ks,
  below ks,
  apart l.price k.price d.0,
)
  where
    below :
        (s : List Level)
        → l.price <ℤ k.price
        → All (λ j. k.price <ℤ j.price) s
        → All (λ j. l.price <ℤ j.price) s
    below [] h a = tt
    below (j ∷ js) h a = (omega arith, below js h a.1)

    apart : (p q : ℤ) → p ≢ q → (p <ℤ q) ⊎ (q <ℤ p)
    apart p q ne = ground (arith, eq_of_parts p q)

qsort-IsStrict : (ls : List Level) → IsDistinct ls → IsStrict (qsort ls)
unfolding qsort
qsort-IsStrict [] d = tt
qsort-IsStrict (l ∷ ls) d =
    insert_sorted-IsStrict l (qsort ls) (All-qsort (λ k. l.price ≢ k.price) ls d.0)
      (qsort-IsStrict ls d.1)

nonzero_levels-IsDistinct : (ls : List Level) → IsDistinct ls → IsDistinct (nonzero_levels ls)
unfolding nonzero_levels
nonzero_levels-IsDistinct [] d = tt
nonzero_levels-IsDistinct (l ∷ ls) d =
    ground
      (arith, nonzero_levels-IsDistinct ls d.1, All-nonzero_levels (λ k. l.price ≢ k.price) ls d.0)

size_at-insert_sorted :
    (q : ℤ) (l : Level) (ks : List Level)
    → size_at q (insert_sorted l ks) ≡ (if eqb_ℤ l.price q then l.size else size_at q ks)
unfolding insert_sorted size_at
size_at-insert_sorted q l [] = refl
size_at-insert_sorted q l (k ∷ ks) = ground (arith, size_at-insert_sorted q l ks)

size_at-qsort : (q : ℤ) (ls : List Level) → size_at q (qsort ls) ≡ size_at q ls
unfolding qsort size_at
size_at-qsort q [] = refl
size_at-qsort q (l ∷ ls) = ground (arith, size_at-insert_sorted q l (qsort ls), size_at-qsort q ls)

size_at_apart :
    (q : ℤ) (p : ℤ) (ls : List Level) → All (λ k. p ≢ k.price) ls → p ≡ q → size_at q ls ≡ 0
unfolding size_at
size_at_apart q p [] a e = refl
size_at_apart q p (l ∷ ls) a e = ground (arith, size_at_apart q p ls a.1, eq_of_parts l.price q)

size_at-nonzero_levels :
    (q : ℤ) (ls : List Level) → IsDistinct ls → size_at q (nonzero_levels ls) ≡ size_at q ls
unfolding nonzero_levels size_at
size_at-nonzero_levels q [] d = refl
size_at-nonzero_levels q (l ∷ ls) d =
    ground (
      arith,
      size_at-nonzero_levels q ls d.1,
      size_at_apart q l.price ls d.0,
      eq_of_parts l.price q,
    )

length-insert_sorted : (l : Level) (ks : List Level) → length (insert_sorted l ks) ≡ suc (length ks)
unfolding insert_sorted
length-insert_sorted l [] = refl
length-insert_sorted l (k ∷ ks) = ground (arith, length-insert_sorted l ks)

length-load : (ls : List Level) → length (qsort (nonzero_levels ls)) ≤ length ls
unfolding qsort nonzero_levels
length-load [] = omega arith
length-load (l ∷ ls) =
    ground (arith, length-insert_sorted l (qsort (nonzero_levels ls)), length-load ls)

length-take-le : (n : ℕ) (ls : List Level) → length (take n ls) ≤ n
length-take-le zero ls = omega arith
length-take-le (suc n) [] = omega arith
length-take-le (suc n) (l ∷ ls) = omega (arith, length-take-le n ls)

-- What the caller passes: NULL, or the first `n` levels of an array.
abbrev given : Option (List Level) → ℤ → List Level
given none n = []
given (some levels) n = take (pos_part n) levels

abbrev pub refuses : ℤ → Bool
refuses n = ltb_ℤ n (pos 0) || ltb_ℤ (pos max_levels) n

written_side :
    (b : Book) (side : Side) (levels : Option (List Level)) (n : ℤ) (seq : ℕ)
    → refuses n ≡ false
    → side_of (snapshot b side levels n seq).1 side ≡ load_levels levels n
unfolding snapshot
written_side b side levels n seq h = ground arith

-- Whatever is passed, the side that an accepted snapshot writes holds exactly the levels of
-- positive size that were passed, as often, in ascending order of price.
pub snapshot_sorts :
    (b : Book) (side : Side) (levels : Option (List Level)) (n : ℤ) (seq : ℕ)
    → refuses n ≡ false
    → let s = side_of (snapshot b side levels n seq).1 side in
      IsSorted s × Perm s (nonzero_levels (given levels n))
unfolding qsort nonzero_levels
snapshot_sorts b side none n seq h = rw (written_side b side none n seq h) (qsort-sorts [])
snapshot_sorts b side (some levels) n seq h =
    rw (written_side b side (some levels) n seq h)
      (qsort-sorts (nonzero_levels (take (pos_part n) levels)))

-- The sizes on both sides after a snapshot of levels with different prices.
snapshot_sizes :
    (b : Book) (side : Side) (levels : Option (List Level)) (n : ℤ) (seq : ℕ) (q : ℤ)
    → IsDistinct (given levels n)
    → let r = snapshot b side levels n seq in
      let done = not (refuses n) in
      let new = size_at q (given levels n) in
      (r.0 ≡ (if done then ok else fail))
      × (size_at q r.1.bids ≡ (if done && is_bid side then new else size_at q b.bids))
      × (size_at q r.1.asks ≡ (if done && not (is_bid side) then new else size_at q b.asks))
      × (r.1.seq ≡ (if done && ltb b.seq seq then seq else b.seq))
unfolding snapshot
snapshot_sizes b side none n seq q d = ground arith
snapshot_sizes b side (some levels) n seq q d =
    let ls = take (pos_part n) levels in
    ground (arith, size_at-qsort q (nonzero_levels ls), size_at-nonzero_levels q ls d)

-- A level that a snapshot may carry; its size may be 0.
abbrev IsCarried : Level → Type 0
IsCarried l = (pos 0 ≤ℤ l.price) × (l.size < 2 ^ 63)

IsLevel-nonzero_levels : (ls : List Level) → All IsCarried ls → All IsLevel (nonzero_levels ls)
unfolding nonzero_levels
IsLevel-nonzero_levels [] a = tt
IsLevel-nonzero_levels (l ∷ ls) a = ground (arith, IsLevel-nonzero_levels ls a.1)

load-IsValidSide :
    (ls : List Level)
    → length ls ≤ max_levels
    → IsDistinct ls
    → All IsCarried ls
    → IsValidSide (qsort (nonzero_levels ls))
load-IsValidSide ls h d a = record {
  strict = qsort-IsStrict (nonzero_levels ls) (nonzero_levels-IsDistinct ls d);
  bounded = omega (arith, length-load ls);
  levels = All-qsort IsLevel (nonzero_levels ls) (IsLevel-nonzero_levels ls a);
}

-- A snapshot of levels with different prices, none negative, whose sizes fit an `int64_t`, keeps
-- the book valid.
pub snapshot-IsValid :
    (b : Book) (side : Side) (levels : Option (List Level)) (n : ℤ) (seq : ℕ)
    → IsDistinct (given levels n)
    → All IsCarried (given levels n)
    → IsValid b
    → IsValid (snapshot b side levels n seq).1
unfolding snapshot
snapshot-IsValid b side none n seq d a v = ground (arith, empty)
  where
    empty : IsValidSide []
    empty = record { strict = tt; bounded = omega arith; levels = tt }
snapshot-IsValid b side (some levels) n seq d a v =
    let ls = take (pos_part n) levels in
    ground (arith, load-IsValidSide ls, length-take-le (pos_part n) levels)

-- From the size that stands at a price to what a query reads there.
reads :
    (written positive : Bool) (size new old read old_read : ℕ)
    → size ≡ (if written then new else old)
    → read ≡ (if positive then size else 0)
    → old_read ≡ (if positive then old else 0)
    → read ≡ (if written then (if positive then new else 0) else old_read)
reads written positive size new old read old_read e f g = ground arith

-- If the levels passed have different prices, none negative, and sizes that fit an `int64_t`, a valid
-- book stays valid, each side strictly ascending with positive sizes; the binary search then
-- finds at each price of the side that is written the size that was passed, and at each of
-- the other side what it found before; and `seq` rises to the snapshot's number if that is larger. A
-- refused snapshot, one with `n` negative or above 64, leaves all of this alone.
pub snapshot_lem :
    (b : Book) (side : Side) (levels : Option (List Level)) (n : ℤ) (seq : ℕ) (q : ℤ)
    → IsDistinct (given levels n)
    → All IsCarried (given levels n)
    → IsValid b
    → let r = snapshot b side levels n seq in
      let done = not (refuses n) in
      let new = if is_positive q then size_at q (given levels n) else 0 in
      (r.0 ≡ (if done then ok else fail))
      × IsValid r.1
      × (get_level_size r.1 bid q ≡ (if done && is_bid side then new else get_level_size b bid q))
      × (get_level_size r.1 ask q
          ≡ (if done && not (is_bid side) then new else get_level_size b ask q))
      × (r.1.seq ≡ (if done && ltb b.seq seq then seq else b.seq))
snapshot_lem b side levels n seq q d a v =
    let b' = (snapshot b side levels n seq).1 in
    let s = snapshot_sizes b side levels n seq q d in
    let valid = snapshot-IsValid b side levels n seq d a v in
    let done_bid = not (refuses n) && is_bid side in
    let done_ask = not (refuses n) && not (is_bid side) in
    let positive = is_positive q in
    let new = size_at q (given levels n) in
    (
      s.0,
      valid,
      reads done_bid positive _ new _ _ _ s.1 (get_level_size-size_at b' bid q valid)
          (get_level_size-size_at b bid q v),
      reads done_ask positive _ new _ _ _ s.2 (get_level_size-size_at b' ask q valid)
          (get_level_size-size_at b ask q v),
      s.3,
    )
