-- ===== src/Portfolio/Mark.antt =====
-- src/portfolio/pt_portfolio.c: the valuation of the positions, the equity and the market exposure.
use polymarket_trade_engine.Prelude.{ℕ, ◌==◌, ◌&&◌, List, [], ◌∷◌, if◌then◌else◌, ltb, ℤ, eqb_ℤ}
use polymarket_trade_engine.Types.{price_scale}
use polymarket_trade_engine.Double.{Double, whole}
use polymarket_trade_engine.Portfolio.{Position, Portfolio, avg_cost_per_share}

module _ {F : Type 0} ⦃d : Double F⦄ where
  -- A position at its current bid, and the same after the bid of its market's outcome moves.
  abbrev unrealized : Position F → F
  unrealized o =
      if ltb 0 o.shares
      then d.mul
          (d.sub (d.div (d.of_int o.current_bid_price) (whole price_scale)) (avg_cost_per_share o))
          (d.of_nat o.shares)
      else whole 0

  abbrev pub mark_position : ℕ → ℤ → ℤ → Position F → Position F
  mark_position market_id is_yes bid o =
      let at_bid =
        if o.market_id == market_id && eqb_ℤ o.is_yes is_yes
        then record o { current_bid_price = bid }
        else o in
      record at_bid { unrealized_pnl = unrealized at_bid }

  unfoldable pub mark_all : ℕ → ℤ → ℤ → List (Position F) → List (Position F)
  mark_all market_id is_yes bid [] = []
  mark_all market_id is_yes bid (o ∷ os) =
      mark_position market_id is_yes bid o ∷ mark_all market_id is_yes bid os

  -- The sum runs over the positions that hold shares, from 0 on.
  pub sum_unrealized : F → List (Position F) → F
  sum_unrealized acc [] = acc
  sum_unrealized acc (o ∷ os) =
      sum_unrealized (if ltb 0 o.shares then d.add acc o.unrealized_pnl else acc) os

  unfoldable pub mark : Portfolio F → ℕ → ℤ → ℤ → Portfolio F
  mark p market_id is_yes bid =
      let os = mark_all market_id is_yes bid p.positions in
      record p { positions = os; unrealized_pnl = sum_unrealized (whole 0) os }

  pub equity : Portfolio F → F
  equity p = d.add (d.add p.cash p.total_exposure) p.unrealized_pnl

  pub win_rate : Portfolio F → F
  win_rate p =
      if p.trades_count == 0
      then whole 0
      else d.div (d.of_nat p.wins_count) (d.of_nat p.trades_count)

  pub sum_exposure : ℕ → F → List (Position F) → F
  sum_exposure market_id acc [] = acc
  sum_exposure market_id acc (o ∷ os) =
      sum_exposure market_id
        (if o.market_id == market_id && ltb 0 o.shares
          then d.add acc (d.div (d.of_int o.cost_basis_scaled) (whole price_scale))
          else acc)
        os

  pub market_exposure : Portfolio F → ℕ → F
  market_exposure p market_id = sum_exposure market_id (whole 0) p.positions
