-- ===== src/Portfolio/Settlement.antt =====
-- src/portfolio/pt_portfolio.c, `pt_portfolio_settle_market`: the settlement of a market's positions.
use polymarket_trade_engine.Prelude.{
  ℕ, ◌==◌, Bool, true, not, ◌&&◌, List, [], ◌∷◌, if◌then◌else◌, ltb, ℤ, pos, eqb_ℤ, add64,
}
use polymarket_trade_engine.Types.{price_scale}
use polymarket_trade_engine.Double.{Double, whole}
use polymarket_trade_engine.Portfolio.{Position, Portfolio, Outcome, floor}

-- A position that the settlement of the market closes.
abbrev pub is_open : {F : Type 0} → ℕ → Position F → Bool
is_open market_id o = (o.market_id == market_id && ltb 0 o.shares) && not o.is_settled

module _ {F : Type 0} ⦃d : Double F⦄ where
  abbrev position_cost : Position F → F
  position_cost o = d.div (d.of_int o.cost_basis_scaled) (whole price_scale)

  abbrev pub payoff : ℤ → Position F → F
  payoff winning_is_yes o =
      if eqb_ℤ o.is_yes winning_is_yes then d.mul (d.of_nat o.shares) (whole 1) else whole 0

  abbrev pub settlement_pnl : ℤ → Position F → F
  settlement_pnl winning_is_yes o = d.sub (payoff winning_is_yes o) (position_cost o)

  abbrev pub settled : ℤ → Position F → Position F
  settled winning_is_yes o = record o {
    shares = 0;
    cost_basis_scaled = pos 0;
    unrealized_pnl = whole 0;
    realized_pnl = d.add o.realized_pnl (settlement_pnl winning_is_yes o);
    is_settled = true;
  }

  abbrev pub outcome : ℤ → Position F → Outcome F
  outcome winning_is_yes o =
      let pnl = settlement_pnl winning_is_yes o in
      let cost = position_cost o in
      record {
        market_id = o.market_id;
        strategy = o.strategy;
        signal_id = o.signal_id;
        is_win = d.le (whole 0) pnl;
        pnl = pnl;
        cost = cost;
        return_pct = if d.lt (whole 0) cost then d.div pnl cost else whole 0;
      }

  -- The totals after the settlement of one position.
  abbrev pub book_settlement : ℤ → Position F → Portfolio F → Portfolio F
  book_settlement winning_is_yes o p =
      let pnl = settlement_pnl winning_is_yes o in
      let is_win = d.le (whole 0) pnl in
      record p {
        cash = d.add p.cash (payoff winning_is_yes o);
        total_exposure = floor (d.sub p.total_exposure (position_cost o));
        realized_pnl = d.add p.realized_pnl pnl;
        trades_count = add64 p.trades_count 1;
        wins_count = if is_win then add64 p.wins_count 1 else p.wins_count;
        losses_count = if is_win then p.losses_count else add64 p.losses_count 1;
      }

  -- The loop over the positions: the totals, the positions and the outcomes.
  unfoldable pub settle_all :
      ℕ → ℤ → List (Position F) → Portfolio F → Portfolio F × List (Position F) × List (Outcome F)
  settle_all market_id winning_is_yes [] p = (p, [], [])
  settle_all market_id winning_is_yes (o ∷ os) p =
      let closes = is_open market_id o in
      let p₁ = if closes then book_settlement winning_is_yes o p else p in
      let (p', os', outs) = settle_all market_id winning_is_yes os p₁ in
      (
        p',
        (if closes then settled winning_is_yes o else o) ∷ os',
        (if closes then outcome winning_is_yes o ∷ outs else outs),
      )

  unfoldable pub settle_market : Portfolio F → ℕ → ℤ → Portfolio F × List (Outcome F)
  settle_market p market_id winning_is_yes =
      let (p', os, outs) = settle_all market_id winning_is_yes p.positions p in
      (record p' { positions = os }, outs)
