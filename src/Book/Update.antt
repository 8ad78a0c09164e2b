-- ===== src/Book/Update.antt =====
-- `side_apply` and `pt_book_update`: the book's invariant, and the map from prices to sizes.
use polymarket_trade_engine.Prelude.{
  All-set, ℕ, ◌≤◌, ◌<◌, ◌^◌, ◌≡◌, refl, Bool, true, false, not, ◌&&◌, inl, inr, if◌then◌else◌,
  Bool-cases, ltb, leb, length, length-set, length-insert_at, length-remove_at, insert_at, All, ℤ,
  pos, ◌≤ℤ◌, ◌<ℤ◌, ◌+ℤ◌, eqb_ℤ, ltb_ℤ, to_uint64, arith,
}
use polymarket_trade_engine.Types.{Side, bid, ask, other, is_bid, Rc, ok, fail}
use polymarket_trade_engine.Book.{
  Level, SideBook, Book, max_levels, level_at, side_apply, replace_level, insert_level, next_size,
  is_positive, update, side_of, get_level_size,
}
use polymarket_trade_engine.Book.Find.{
  IsStrict, IsStrict-IsSorted, rank, has_price, side_find-rank, exact-has_price,
}
use polymarket_trade_engine.Book.Shape.{
  size_at, level_at-rank, size_at_absent, All-remove_at, All-insert_at, remove_at-IsStrict,
  set-IsStrict, insert_at-IsStrict, size_at-remove_at, size_at-set, size_at-insert_at,
}

-- A level that may stand in a book: its size is positive and fits an `int64_t`.
abbrev pub IsLevel : Level → Type 0
IsLevel l = (pos 0 ≤ℤ l.price) × (0 < l.size) × (l.size < 2 ^ 63)

pub record IsValidSide (s : SideBook) : Type 0 where
  pub strict : IsStrict s
  pub bounded : length s ≤ max_levels
  pub levels : All IsLevel s

pub record IsValid (b : Book) : Type 0 where
  pub bids : IsValidSide b.bids
  pub asks : IsValidSide b.asks

-- The size that the update asks for at its price, before it is cut off at 0.
abbrev pub wanted : SideBook → ℤ → ℤ → Bool → ℤ
wanted s price amount is_delta = next_size (size_at price s) amount is_delta

-- `side_apply` by the linear scan.
abbrev by_rank : SideBook → ℤ → ℤ → Bool → Rc × SideBook
by_rank s price amount is_delta =
    if has_price price s
    then (ok, replace_level s (rank price s) (wanted s price amount is_delta))
    else insert_level s (rank price s) price amount

side_apply-by_rank :
    (s : SideBook) (price amount : ℤ) (is_delta : Bool)
    → IsStrict s
    → side_apply s price amount is_delta ≡ by_rank s price amount is_delta
unfolding side_apply
side_apply-by_rank s price amount is_delta o = elim (Bool-cases (has_price price s)) [
  | inl here ↦
      rw (side_find-rank s price (IsStrict-IsSorted s o), here, (level_at-rank price s here o).1)
  | inr absent ↦ rw (side_find-rank s price (IsStrict-IsSorted s o), absent)
]

-- When a write is refused: no level stands at the price and 64 stand elsewhere.
abbrev is_full : SideBook → ℤ → ℤ → Bool
is_full s price amount =
    not (has_price price s) && (is_positive amount && leb max_levels (length s))

abbrev pub cut : ℤ → ℕ
cut n = if is_positive n then to_uint64 n else 0

wanted-no_level :
    (s : SideBook) (price amount : ℤ) (is_delta : Bool)
    → has_price price s ≡ false
    → wanted s price amount is_delta ≡ amount
unfolding ◌+ℤ◌
wanted-no_level s price amount true h = rw (size_at_absent price s h) (ground arith)
wanted-no_level s price amount false h = refl

-- What `side_apply` returns, and the size at every price afterwards.
side_apply-size_at :
    (s : SideBook) (price amount : ℤ) (is_delta : Bool) (q : ℤ)
    → IsStrict s
    → let r = side_apply s price amount is_delta in
      (r.0 ≡ (if is_full s price amount then fail else ok))
      × (size_at q r.1 ≡ (
          if not (is_full s price amount) && eqb_ℤ price q
          then cut (wanted s price amount is_delta)
          else size_at q s))
side_apply-size_at s price amount is_delta q o =
    rw (side_apply-by_rank s price amount is_delta o) (elim (Bool-cases (has_price price s)) [
      | inl here ↦ rw here (
          ground (
            arith,
            size_at-remove_at price q s here o,
            size_at-set price q (to_uint64 (wanted s price amount is_delta)) s here o,
          ))
      | inr absent ↦
          rw (absent, wanted-no_level s price amount is_delta absent)
            (ground (
              arith,
              size_at_absent price s absent,
              size_at-insert_at price q (to_uint64 amount) s absent,
            ))
    ])

replace_level-IsValidSide :
    (s : SideBook) (i : ℕ) (nxt : ℤ)
    → nxt <ℤ pos (2 ^ 63)
    → IsLevel (record (level_at s i) { size = 1 })
    → IsValidSide s
    → IsValidSide (replace_level s i nxt)
replace_level-IsValidSide s i nxt fits good v = elim (Bool-cases (is_positive nxt)) [
  | inl more ↦ rw more (record {
    strict = set-IsStrict s i (to_uint64 nxt) v.strict;
    bounded =
        omega (arith, length-set s i (record (level_at s i) { size = to_uint64 nxt }), v.bounded);
    levels = All-set IsLevel s i _ (ground arith) v.levels;
  })
  | inr gone ↦ rw gone (record {
    strict = remove_at-IsStrict i s v.strict;
    bounded = omega (arith, length-remove_at i s, v.bounded);
    levels = All-remove_at IsLevel i s v.levels;
  })
]

insert_level-IsValidSide :
    (s : SideBook) (price amount : ℤ)
    → pos 0 ≤ℤ price
    → amount <ℤ pos (2 ^ 63)
    → has_price price s ≡ false
    → IsValidSide s
    → IsValidSide (insert_level s (rank price s) price amount).1
insert_level-IsValidSide s price amount nonneg fits absent v =
    let l : Level = record { price = price; size = to_uint64 amount } in
    let longer : IsValidSide s
        → is_positive amount ≡ true
        → leb max_levels (length s) ≡ false
        → IsValidSide (insert_at (rank price s) l s) =
      λ w p room. record {
        strict = insert_at-IsStrict price (to_uint64 amount) s absent v.strict;
        bounded = ground (arith, length-insert_at (rank price s) l s);
        levels = All-insert_at IsLevel (rank price s) l s (ground arith) v.levels;
      } in
    elim (Bool-cases (is_positive amount)) [
      | inl more ↦ elim (Bool-cases (leb max_levels (length s))) [
        | inl full ↦ rw (more, full) v
        | inr room ↦ rw (more, room) (longer v more room)
      ]
      | inr none ↦ rw none v
    ]

pub side_apply-IsValidSide :
    (s : SideBook) (price amount : ℤ) (is_delta : Bool)
    → pos 0 ≤ℤ price
    → wanted s price amount is_delta <ℤ pos (2 ^ 63)
    → IsValidSide s
    → IsValidSide (side_apply s price amount is_delta).1
side_apply-IsValidSide s price amount is_delta nonneg fits v =
    rw (side_apply-by_rank s price amount is_delta v.strict)
      (elim (Bool-cases (has_price price s)) [
        | inl here ↦ rw here (
            replace_level-IsValidSide s (rank price s) _ fits
              (ground (arith, level_at-rank price s here v.strict)) v)
        | inr absent ↦ rw absent (
            insert_level-IsValidSide s price amount nonneg
              (rw (wanted-no_level s price amount is_delta absent) at fits) absent v)
      ])

-- An update whose new size fits an `int64_t` keeps the book valid, whichever side it names and
-- whether it is accepted or not: prices ascend strictly and are not negative, sizes are positive
-- and fit, and neither side has more than 64 levels.
pub update-IsValid :
    (b : Book) (side : Side) (price amount : ℤ) (is_delta : Bool) (seq : ℕ)
    → wanted (side_of b side) price amount is_delta <ℤ pos (2 ^ 63)
    → IsValid b
    → IsValid (update b side price amount is_delta seq).1
unfolding update
update-IsValid b bid price amount is_delta seq fits v =
    ground (arith, side_apply-IsValidSide b.bids price amount is_delta)
update-IsValid b ask price amount is_delta seq fits v =
    ground (arith, side_apply-IsValidSide b.asks price amount is_delta)
update-IsValid b (other n) price amount is_delta seq fits v = ground arith

-- When `pt_book_update` returns -1.
abbrev pub refuses : Book → Side → ℤ → ℤ → Bool
refuses b side price amount = if ltb_ℤ price (pos 0) then true else elim side [
  | Side.bid ↦ is_full b.bids price amount
  | Side.ask ↦ is_full b.asks price amount
  | Side.other n ↦ true
]

-- On a valid book an update is refused exactly when the price is negative, the side is neither bid
-- nor ask, or a new level finds 64 levels there. An accepted one puts the wanted size, cut off at 0,
-- at its price, leaves every other price of both sides alone, and raises `seq` to its own number if
-- that is larger; a refused one leaves the sizes at all prices and `seq` alone.
pub update_lem :
    (b : Book) (side : Side) (price amount : ℤ) (is_delta : Bool) (seq : ℕ) (q : ℤ)
    → IsValid b
    → let r = update b side price amount is_delta seq in
      let accepted = not (refuses b side price amount) in
      let hit = accepted && eqb_ℤ price q in
      let new = cut (wanted (side_of b side) price amount is_delta) in
      (r.0 ≡ (if accepted then ok else fail))
      × (size_at q r.1.bids ≡ (if hit && is_bid side then new else size_at q b.bids))
      × (size_at q r.1.asks ≡ (if hit && not (is_bid side) then new else size_at q b.asks))
      × (r.1.seq ≡ (if accepted && ltb b.seq seq then seq else b.seq))
unfolding update
update_lem b bid price amount is_delta seq q v =
    ground (arith, side_apply-size_at b.bids price amount is_delta q v.bids.strict)
update_lem b ask price amount is_delta seq q v =
    ground (arith, side_apply-size_at b.asks price amount is_delta q v.asks.strict)
update_lem b (other n) price amount is_delta seq q v = ground arith

-- On a valid book, what a query reads at a price is the size that stands there, and 0 at a price
-- that is not positive.
pub get_level_size-size_at :
    (b : Book) (side : Side) (price : ℤ)
    → IsValid b
    → get_level_size b side price
      ≡ (if is_positive price then size_at price (side_of b side) else 0)
unfolding get_level_size
get_level_size-size_at b side price v =
    rw (side_find-rank s price (IsStrict-IsSorted s o)) (elim (Bool-cases (has_price price s)) [
      | inl here ↦
          ground
            (arith, level_at-rank price s here o, exact-has_price price s (IsStrict-IsSorted s o))
      | inr absent ↦ ground (arith, size_at_absent price s absent)
    ])
  where
    s : SideBook
    s = side_of b side

    o : IsStrict s
    o = ground arith
