-- ===== src/Portfolio.antt =====
-- src/portfolio/pt_portfolio.c and include/portfolio/pt_portfolio.h: cash, open positions and their
-- settlement. The first `position_count` entries of the array are a list. What a settlement tells the
-- strategy statistics and the lifecycle tracker is returned as a list of outcomes; the line that it
-- prints is left out. The portfolio is never NULL.
pub mod Mark
pub mod Settlement
pub mod Holding
pub mod Fills
pub mod Settle
pub mod Run
mod Tests
use polymarket_trade_engine.Prelude.{
  ℕ, zero, suc, ◌+◌, ◌-◌, ◌*◌, ◌==◌, Bool, true, false, not, ◌&&◌, ◌||◌, Option, none, some, List,
  [], ◌∷◌, ◌++◌, if◌then◌else◌, ltb, leb, ℤ, pos, ◌+ℤ◌, ◌-ℤ◌, ◌*ℤ◌, eqb_ℤ, ltb_ℤ, get_or, set,
  length, add64, sub64, to_int64,
}
use polymarket_trade_engine.Types.{Side, is_bid, price_scale}
use polymarket_trade_engine.Double.{Double, whole}

-- PT_PORTFOLIO_MAX_POSITIONS
abbrev pub max_positions : ℕ
max_positions = 128

-- `pt_position_t`
pub record Position (F : Type 0) : Type 0 where
  pub market_id : ℕ
  pub is_yes : ℤ
  pub strategy : ℤ
  pub signal_id : ℕ
  pub shares : ℕ
  pub cost_basis_scaled : ℤ
  pub current_bid_price : ℤ
  pub unrealized_pnl : F
  pub realized_pnl : F
  pub is_settled : Bool

-- `pt_portfolio_t`
pub record Portfolio (F : Type 0) : Type 0 where
  pub initial_cash : F
  pub cash : F
  pub realized_pnl : F
  pub unrealized_pnl : F
  pub total_exposure : F
  pub trades_count : ℕ
  pub wins_count : ℕ
  pub losses_count : ℕ
  pub positions : List (Position F)

-- What the settlement of a position reports, with the ids by which the tracker finds the opportunity.
pub record Outcome (F : Type 0) : Type 0 where
  pub market_id : ℕ
  pub strategy : ℤ
  pub signal_id : ℕ
  pub is_win : Bool
  pub pnl : F
  pub cost : F
  pub return_pct : F

-- The market, outcome, strategy and signal of a fill.
pub record Key : Type 0 where
  pub market_id : ℕ
  pub is_yes : ℤ
  pub strategy : ℤ
  pub signal_id : ℕ

module _ {F : Type 0} where
  -- The test of `find_pos_`: a signal id of 0, on either side, matches any other.
  pub is_match : Key → Position F → Bool
  is_match k o =
      (o.market_id == k.market_id && eqb_ℤ o.is_yes k.is_yes)
      && (eqb_ℤ o.strategy k.strategy && not o.is_settled)
      && (k.signal_id == 0 || o.signal_id == 0 || o.signal_id == k.signal_id)

  pub find_match : Key → List (Position F) → Option ℕ
  find_match k [] = none
  find_match k (o ∷ os) =
      let later = find_match k os in
      if is_match k o then some 0 else elim later [ none ↦ none | some i ↦ some (suc i) ]

  -- A position that takes over the fill's signal id if it has none.
  pub claim : Key → Position F → Position F
  claim k o =
      if ltb 0 k.signal_id && o.signal_id == 0 then record o { signal_id = k.signal_id } else o

module _ {F : Type 0} ⦃d : Double F⦄ where
  pub init : F → Portfolio F
  init initial_cash = record {
    initial_cash = initial_cash;
    cash = initial_cash;
    realized_pnl = whole 0;
    unrealized_pnl = whole 0;
    total_exposure = whole 0;
    trades_count = 0;
    wins_count = 0;
    losses_count = 0;
    positions = [];
  }

  pub new_position : Key → Position F
  new_position k = record {
    market_id = k.market_id;
    is_yes = k.is_yes;
    strategy = k.strategy;
    signal_id = k.signal_id;
    shares = 0;
    cost_basis_scaled = pos 0;
    current_bid_price = pos 0;
    unrealized_pnl = whole 0;
    realized_pnl = whole 0;
    is_settled = false;
  }

  -- `find_pos_`: the index of the first position that the fill matches or of a new one at the end, with
  -- the positions; none where the array is full.
  pub position_for : Key → List (Position F) → Option (ℕ × List (Position F))
  position_for k os = elim (find_match k os) [
    | some i ↦ some (i, os)
    | none ↦
        if ltb (length os) max_positions then some (length os, os ++ new_position k ∷ []) else none
  ]

  -- The exposure does not go below 0.
  abbrev pub floor : F → F
  floor x = if d.lt x (whole 0) then whole 0 else x

  abbrev pub cost_usd : ℕ → ℤ → F
  cost_usd shares price = d.div (d.mul (d.of_nat shares) (d.of_int price)) (whole price_scale)

  -- What a position becomes when shares are bought, and when they are sold.
  abbrev pub bought : ℕ → ℤ → ℤ → Position F → Position F
  bought shares price strategy o = record o {
    shares = add64 o.shares shares;
    cost_basis_scaled = o.cost_basis_scaled +ℤ to_int64 shares *ℤ price;
    strategy = strategy;
  }

  abbrev pub avg_cost_per_share : Position F → F
  avg_cost_per_share o =
      d.div (d.div (d.of_int o.cost_basis_scaled) (d.of_nat o.shares)) (whole price_scale)

  abbrev pub closed_shares : ℕ → Position F → ℕ
  closed_shares shares o = if leb shares o.shares then shares else o.shares

  abbrev pub sale_pnl : ℕ → ℤ → Position F → F
  sale_pnl shares price o =
      d.mul (d.sub (d.div (d.of_int price) (whole price_scale)) (avg_cost_per_share o))
        (d.of_nat (closed_shares shares o))

  abbrev pub sold : ℕ → ℤ → Position F → Position F
  sold shares price o =
      let closed = closed_shares shares o in
      if ltb 0 o.shares
      then record o {
        realized_pnl = d.add o.realized_pnl (sale_pnl shares price o);
        cost_basis_scaled =
            o.cost_basis_scaled
            -ℤ d.to_int (
                d.mul (d.of_int o.cost_basis_scaled) (d.div (d.of_nat closed) (d.of_nat o.shares)));
        shares = sub64 o.shares closed;
      }
      else o

  -- The portfolio when shares are bought, and when they are sold from position `o`.
  abbrev pub pay : ℕ → ℤ → Portfolio F → Portfolio F
  pay shares price p = record p {
    cash = d.sub p.cash (cost_usd shares price);
    total_exposure = d.add p.total_exposure (cost_usd shares price);
  }

  abbrev pub collect : ℕ → ℤ → Position F → Portfolio F → Portfolio F
  collect shares price o p =
      let cash = d.add p.cash (cost_usd shares price) in
      let pnl = sale_pnl shares price o in
      let exposure =
        d.sub p.total_exposure (d.mul (avg_cost_per_share o) (d.of_nat (closed_shares shares o))) in
      if ltb 0 o.shares
      then record p {
        cash = cash;
        realized_pnl = d.add p.realized_pnl pnl;
        trades_count = add64 p.trades_count 1;
        wins_count = if d.lt (whole 0) pnl then add64 p.wins_count 1 else p.wins_count;
        losses_count =
            if d.lt (whole 0) pnl
            then p.losses_count
            else if d.lt pnl (whole 0)
            then add64 p.losses_count 1
            else p.losses_count;
        total_exposure = floor exposure;
      }
      else record p { cash = cash }

  -- A fill at the position of this index.
  pub fill_position : Portfolio F → Key → Side → ℕ → ℤ → ℕ × List (Position F) → Portfolio F
  fill_position p k side shares price r =
      let o = claim k (get_or r.1 r.0 (new_position k)) in
      if is_bid side
      then record (pay shares price p) {
        positions = set r.1 r.0 (bought shares price k.strategy o);
      }
      else record (collect shares price o p) { positions = set r.1 r.0 (sold shares price o) }

  pub on_fill_ex : Portfolio F → Key → Side → ℕ → ℤ → Portfolio F
  on_fill_ex p k side shares price = if shares == 0 then p else elim (position_for k p.positions) [
    | none ↦ p
    | some r ↦ fill_position p k side shares price r
  ]

  -- A fill without a signal.
  pub on_fill : Portfolio F → ℕ → ℤ → Side → ℕ → ℤ → ℤ → Portfolio F
  on_fill p market_id is_yes side shares price strategy =
      on_fill_ex p
        (record { market_id = market_id; is_yes = is_yes; strategy = strategy; signal_id = 0 }) side
        shares price
