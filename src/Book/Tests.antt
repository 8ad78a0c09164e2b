-- ===== src/Book/Tests.antt =====
-- The order book.
use polymarket_trade_engine.Prelude.{
  ℕ, ◌<◌, ◌≡◌, refl, true, false, some, none, List, [], ◌∷◌, pos, negsuc, ◌+ℤ◌, ◌*ℤ◌, arith,
}
use polymarket_trade_engine.Types.{bid, ask, ok, fail}
use polymarket_trade_engine.Book.{
  Level, Book, init, update, snapshot, walk, get_level_size, calc_mid, side_find, find_loop,
  side_apply, walk_loop, best_bid, best_ask, depth_volume, sum_sizes,
}
use polymarket_trade_engine.Book.Ratios.{mid, imbalance}
use polymarket_trade_engine.Micro.{Micro, micro_double}
use polymarket_trade_engine.Book.Find.{rank, has_price, side_find-rank}
use polymarket_trade_engine.Book.Shape.{size_at}
use polymarket_trade_engine.Book.Update.{IsValid, update-IsValid, update_lem}
use polymarket_trade_engine.Book.Snapshot.{snapshot_lem, IsDistinct}

abbrev level : ℕ → ℕ → Level
level p n = record { price = pos p; size = n }

-- Bids 470 x 50 and 480 x 100, asks 500 x 10 and 510 x 30.
abbrev quoted : Book
quoted = record init {
  bids = level 470 50 ∷ level 480 100 ∷ [];
  asks = level 500 10 ∷ level 510 30 ∷ [];
  seq = 5;
}

quoted-IsValid : IsValid quoted
quoted-IsValid = omega arith

update_inserts :
    (update quoted bid (pos 475) (pos 7) false 6).1.bids
    ≡ level 470 50 ∷ level 475 7 ∷ level 480 100 ∷ []
unfolding update side_apply side_find find_loop
update_inserts = refl

-- A delta that takes a level to 0 removes it; the sequence number stays where it is older.
update_removes :
    (update quoted ask (pos 500) (negsuc 9) true 4)
    ≡ (ok, record quoted { asks = level 510 30 ∷ [] })
unfolding update side_apply side_find find_loop ◌+ℤ◌
update_removes = refl

update_refuses : (update quoted bid (negsuc 0) (pos 7) false 6) ≡ (fail, quoted)
unfolding update
update_refuses = refl

walk_two_levels : walk quoted ask 25 ≡ (25, pos 506, 2)
unfolding walk walk_loop ◌+ℤ◌ ◌*ℤ◌
walk_two_levels = refl

mid_of_quoted : calc_mid quoted ≡ pos 490
unfolding calc_mid ◌+ℤ◌
mid_of_quoted = refl

mid_in_micro : mid {F = Micro} quoted ≡ some (micro_double.decimal (pos 49) 2)
unfolding mid best_bid best_ask
mid_in_micro = refl

-- (50 + 100 - 10 - 30) / 190
imbalance_in_micro : imbalance {F = Micro} quoted (pos 5) ≡ some (pos 578_947)
unfolding imbalance depth_volume sum_sizes
imbalance_in_micro = refl

imbalance_of_empty : imbalance {F = Micro} init (pos 5) ≡ none
unfolding imbalance depth_volume sum_sizes
imbalance_of_empty = refl

abbrev fed : List Level
fed = level 520 5 ∷ level 500 0 ∷ level 510 8 ∷ []

snapshot_sorts_fed :
    (snapshot quoted ask (some fed) (pos 3) 9).1.asks ≡ level 510 8 ∷ level 520 5 ∷ []
unfolding snapshot
snapshot_sorts_fed = refl

side_find-rank_example : side_find quoted.bids (pos 475) ≡ (1, false)
unfolding rank has_price
side_find-rank_example = side_find-rank quoted.bids (pos 475) (omega arith)

update-IsValid_example : IsValid (update quoted bid (pos 475) (pos 7) false 6).1
unfolding size_at
update-IsValid_example =
    update-IsValid quoted bid (pos 475) (pos 7) false 6 (omega arith) quoted-IsValid

update_lem_example :
    let r = update quoted bid (pos 480) (negsuc 39) true 6 in
    (r.0 ≡ ok)
    × (size_at (pos 480) r.1.bids ≡ 60)
    × (size_at (pos 480) r.1.asks ≡ 0)
    × (r.1.seq ≡ 6)
unfolding size_at has_price ◌+ℤ◌
update_lem_example = update_lem quoted bid (pos 480) (negsuc 39) true 6 (pos 480) quoted-IsValid

fed-IsDistinct : IsDistinct fed
fed-IsDistinct = (
  ((λ e. absurd (ground arith)), ((λ e. absurd (ground arith)), tt)),
  (((λ e. absurd (ground arith)), tt), (tt, tt)),
)

snapshot_lem_example :
    let r = snapshot quoted ask (some fed) (pos 3) 9 in
    (r.0 ≡ ok)
    × IsValid r.1
    × (get_level_size r.1 bid (pos 510) ≡ get_level_size quoted bid (pos 510))
    × (get_level_size r.1 ask (pos 510) ≡ 8)
    × (r.1.seq ≡ 9)
unfolding size_at
snapshot_lem_example =
    snapshot_lem quoted ask (some fed) (pos 3) 9 (pos 510) fed-IsDistinct (omega arith)
      quoted-IsValid

some_filled : 0 < (walk quoted ask 25).0
some_filled = rw walk_two_levels (omega arith)
