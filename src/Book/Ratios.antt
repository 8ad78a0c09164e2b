-- ===== src/Book/Ratios.antt =====
-- src/orderbook/pt_book.c: the queries of the book in doubles. A NAN is `none`.
use polymarket_trade_engine.Prelude.{ℕ, Option, some, none, if◌then◌else◌, ◌==◌, ℤ, add64}
use polymarket_trade_engine.Types.{bid, ask, price_scale}
use polymarket_trade_engine.Double.{Double, whole}
use polymarket_trade_engine.Book.{Level, Book, best_bid, best_ask, depth_volume}

module _ {F : Type 0} ⦃d : Double F⦄ where
  abbrev middle_of : Option Level → Option Level → Option F
  middle_of (some b) (some a) =
      some
        (d.div (d.div (d.add (d.of_int b.price) (d.of_int a.price)) (whole 2)) (whole price_scale))
  middle_of b a = none

  unfoldable pub mid : Book → Option F
  mid b = middle_of (best_bid b) (best_ask b)

  abbrev imbalance_of : ℕ → ℕ → Option F
  imbalance_of bids asks =
      if add64 bids asks == 0
      then none
      else some
          (d.div (d.sub (d.of_nat bids) (d.of_nat asks)) (d.add (d.of_nat bids) (d.of_nat asks)))

  unfoldable pub imbalance : Book → ℤ → Option F
  imbalance b levels = imbalance_of (depth_volume b bid levels) (depth_volume b ask levels)
