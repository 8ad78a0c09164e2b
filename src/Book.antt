-- ===== src/Book.antt =====
-- src/orderbook/pt_book.c and include/orderbook/pt_book.h: one side of the book is the list of its
-- live levels, `levels[0..count)`, ascending by price; the entries past `count` are never read.
-- An out parameter is a component of the result, and a pointer to a book is never NULL.
pub mod Find
pub mod Shape
pub mod Update
pub mod Snapshot
pub mod Fill
pub mod Quotes
pub mod Ratios
mod Tests
use polymarket_trade_engine.Prelude.{
  ℕ, zero, suc, ◌+◌, ◌-◌, ◌/◌, Bool, true, false, ◌&&◌, ◌||◌, not, Option, none, some, List, [],
  ◌∷◌, reverse, ltb, leb, ◌==◌, if◌then◌else◌, length, get_or, set, remove_at, insert_at, take, ℤ,
  pos, negsuc, ◌+ℤ◌, ◌*ℤ◌, pos_part, ltb_ℤ, leb_ℤ, eqb_ℤ, add64, sub64, to_int64, to_uint64,
}
use polymarket_trade_engine.Types.{Side, is_bid, is_ask, bid, ask, other, Rc, ok, fail}

-- `pt_level_t`
pub record Level : Type 0 where
  pub price : ℤ
  pub size : ℕ

-- PT_BOOK_MAX_LEVELS
abbrev pub max_levels : ℕ
max_levels = 64

-- `pt_side_book_t`
abbrev pub SideBook : Type 0
SideBook = List Level

-- `pt_book_t`
pub record Book : Type 0 where
  pub bids : SideBook
  pub asks : SideBook
  pub seq : ℕ
  pub last_trade_seq : ℕ
  pub last_trade_price : ℤ
  pub last_trade_size : ℕ
  pub last_trade_side : ℤ

abbrev pub init : Book
init = record {
  bids = [];
  asks = [];
  seq = 0;
  last_trade_seq = 0;
  last_trade_price = pos 0;
  last_trade_size = 0;
  last_trade_side = pos 0;
}

abbrev pub zero_level : Level
zero_level = record { price = pos 0; size = 0 }

-- A read of `levels[i]`, in range wherever the code makes it.
abbrev pub level_at : SideBook → ℕ → Level
level_at s i = get_or s i zero_level

-- The loop of `side_find`, on fuel.
pub find_loop : ℕ → SideBook → ℤ → ℕ → ℕ → ℕ
find_loop zero s price lo hi = lo
find_loop (suc fuel) s price lo hi =
    let mid = (lo + hi) / 2 in
    let right = find_loop fuel s price (mid + 1) hi in
    let left = find_loop fuel s price lo mid in
    if ltb lo hi then if ltb_ℤ (level_at s mid).price price then right else left else lo

-- The index and the flag `exact`. The range halves, so `count + 1` rounds suffice.
pub side_find : SideBook → ℤ → ℕ × Bool
side_find s price =
    let lo = find_loop (suc (length s)) s price 0 (length s) in
    (lo, ltb lo (length s) && eqb_ℤ (level_at s lo).price price)

abbrev pub is_positive : ℤ → Bool
is_positive a = ltb_ℤ (pos 0) a

abbrev replace_level : SideBook → ℕ → ℤ → SideBook
replace_level s idx nxt =
    if is_positive nxt
    then set s idx (record (level_at s idx) { size = to_uint64 nxt })
    else remove_at idx s

-- A signed delta on the level's size, or the new absolute size.
abbrev pub next_size : ℕ → ℤ → Bool → ℤ
next_size cur amount is_delta = if is_delta then to_int64 cur +ℤ amount else amount

abbrev insert_level : SideBook → ℕ → ℤ → ℤ → Rc × SideBook
insert_level s idx price amount =
    if not (is_positive amount)
    then (ok, s)
    else if leb max_levels (length s)
    then (fail, s)
    else (ok, insert_at idx (record { price = price; size = to_uint64 amount }) s)

pub side_apply : SideBook → ℤ → ℤ → Bool → Rc × SideBook
side_apply s price amount is_delta =
    let (idx, exact) = side_find s price in
    if exact
    then (ok, replace_level s idx (next_size (level_at s idx).size amount is_delta))
    else insert_level s idx price amount

abbrev bump_seq : Rc → ℕ → Book → Book
bump_seq ok seq b = if ltb b.seq seq then record b { seq = seq } else b
bump_seq fail seq b = b

abbrev update_side : Book → Side → ℤ → ℤ → Bool → ℕ → Rc × Book
update_side b bid price amount is_delta seq =
    let (rc, s) = side_apply b.bids price amount is_delta in
    (rc, bump_seq rc seq (record b { bids = s }))
update_side b ask price amount is_delta seq =
    let (rc, s) = side_apply b.asks price amount is_delta in
    (rc, bump_seq rc seq (record b { asks = s }))
update_side b (other n) price amount is_delta seq = (fail, b)

pub update : Book → Side → ℤ → ℤ → Bool → ℕ → Rc × Book
update b side price amount is_delta seq =
    if ltb_ℤ price (pos 0) then (fail, b) else update_side b side price amount is_delta seq

-- `compare_book_levels_asc_(a, b) <= 0`
abbrev compare_le : Level → Level → Bool
compare_le a b = leb_ℤ a.price b.price

-- `qsort` by that comparison. C leaves the order of equal prices open; here it is stable.
pub insert_sorted : Level → List Level → List Level
insert_sorted l [] = l ∷ []
insert_sorted l (k ∷ ks) = if compare_le l k then l ∷ k ∷ ks else k ∷ insert_sorted l ks

pub qsort : List Level → List Level
unfolding insert_sorted
qsort [] = []
qsort (l ∷ ls) = insert_sorted l (qsort ls)

pub nonzero_levels : List Level → List Level
nonzero_levels [] = []
nonzero_levels (l ∷ ls) = if l.size == 0 then nonzero_levels ls else l ∷ nonzero_levels ls

abbrev load_levels : Option (List Level) → ℤ → SideBook
load_levels none n = []
load_levels (some levels) n = qsort (nonzero_levels (take (pos_part n) levels))

-- `levels` is NULL or the array that the caller passes, of `n` entries or more.
pub snapshot : Book → Side → Option (List Level) → ℤ → ℕ → Rc × Book
unfolding qsort nonzero_levels
snapshot b side levels n seq = if ltb_ℤ n (pos 0) || ltb_ℤ (pos max_levels) n then (fail, b) else (
  ok,
  bump_seq ok seq (
      if is_bid side
      then record b { bids = load_levels levels n }
      else record b { asks = load_levels levels n }),
)

abbrev first_level : SideBook → Option Level
first_level [] = none
first_level (l ∷ ls) = some l

-- `none` is the result -1.
unfoldable pub best_bid : Book → Option Level
best_bid b = first_level (reverse b.bids)

unfoldable pub best_ask : Book → Option Level
best_ask b = first_level b.asks

-- The side that a query reads, from its best level on.
abbrev pub from_best : Book → Side → List Level
from_best b side = elim side [
  | Side.bid ↦ reverse b.bids
  | Side.ask ↦ b.asks
  | Side.other n ↦ reverse b.asks
]

-- How many levels `levels` asks for.
abbrev level_count : ℤ → SideBook → ℕ
level_count levels s =
    if not (is_positive levels) || ltb_ℤ (pos (length s)) levels then length s else pos_part levels

pub sum_sizes : ℕ → List Level → ℕ
sum_sizes total [] = total
sum_sizes total (l ∷ ls) = sum_sizes (add64 total l.size) ls

pub depth_volume : Book → Side → ℤ → ℕ
unfolding sum_sizes
depth_volume b side levels = let s = from_best b side in sum_sizes 0 (take (level_count levels s) s)

pub sum_weighted : ℤ → List Level → ℤ
sum_weighted w [] = w
sum_weighted w (l ∷ ls) = sum_weighted (w +ℤ l.price *ℤ to_int64 l.size) ls

pub depth_weighted : Book → Side → ℤ → ℤ
unfolding sum_weighted
depth_weighted b side levels =
    let s = from_best b side in sum_weighted (pos 0) (take (level_count levels s) s)

-- What the walk holds: `filled`, `cost`, `used`.
pub record Walk : Type 0 where
  pub filled : ℕ
  pub cost : ℤ
  pub used : ℕ

-- What one level gives to a walk for `want` shares.
abbrev pub taken : ℕ → Walk → Level → ℕ
taken want w l = let left = sub64 want w.filled in if ltb l.size left then l.size else left

abbrev pub walk_level : ℕ → Walk → Level → Walk
walk_level want w l = record {
  filled = add64 w.filled (taken want w l);
  cost = w.cost +ℤ l.price *ℤ to_int64 (taken want w l);
  used = w.used + 1;
}

unfoldable pub walk_loop : ℕ → List Level → Walk → Walk
walk_loop want [] w = w
walk_loop want (l ∷ ls) w =
    let rest = walk_loop want ls (walk_level want w l) in if ltb w.filled want then rest else w

-- `cost / filled` divides unsigned words, and is cast back.
abbrev pub average : Walk → ℤ
average w = if ltb 0 w.filled then to_int64 (to_uint64 w.cost / w.filled) else pos 0

abbrev pub no_walk : Walk
no_walk = record { filled = 0; cost = pos 0; used = 0 }

-- The shares filled, with `*avg_price_scaled` and `*levels_used`.
unfoldable pub walk : Book → Side → ℕ → ℕ × ℤ × ℕ
walk b side want =
    let w = walk_loop want (from_best b side) no_walk in (w.filled, average w, w.used)

pub record_trade : Book → ℤ → ℕ → ℤ → ℕ → Book
record_trade b price size side seq = record b {
  last_trade_price = price;
  last_trade_size = size;
  last_trade_side = side;
  last_trade_seq = if ltb b.last_trade_seq seq then seq else b.last_trade_seq;
}

abbrev pub side_of : Book → Side → SideBook
side_of b side = if is_bid side then b.bids else b.asks

pub get_level_size : Book → Side → ℤ → ℕ
get_level_size b side price =
    if not (is_positive price)
    then 0
    else let s = side_of b side in
      let (idx, exact) = side_find s price in
      if exact && ltb idx (length s) then (level_at s idx).size else 0

-- The price of a quote that is there and positive.
abbrev usable_price : Option Level → Option ℤ
usable_price none = none
usable_price (some l) = if is_positive l.price then some l.price else none

-- Both summands are positive, so the signed division by 2 rounds down.
abbrev pub middle : Option ℤ → Option ℤ → ℤ
middle (some b) (some a) = pos (pos_part (b +ℤ a) / 2)
middle (some b) none = b
middle none (some a) = a
middle none none = pos 0

pub calc_mid : Book → ℤ
unfolding best_bid best_ask
calc_mid b = middle (usable_price (best_bid b)) (usable_price (best_ask b))
