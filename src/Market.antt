-- ===== src/Market.antt =====
-- src/core/pt_market_lifecycle.c and include/core/pt_market_lifecycle.h: one market, from trading to
-- resolution, when its positions are settled. The cut of the symbol to its 31 characters is left out,
-- since nothing reads it. The market is never NULL, and the outcomes of the settlement are returned.
pub mod Phase
mod Tests
use Prim.Native.String.{String}
use polymarket_trade_engine.Prelude.{
  ℕ, ◌+◌, Bool, true, false, not, ◌&&◌, Option, none, some, List, [], if◌then◌else◌, ltb, leb, ℤ,
  pos, add64, sub64,
}
use polymarket_trade_engine.Double.{Double, whole}
use polymarket_trade_engine.Portfolio.{Portfolio, Outcome}
use polymarket_trade_engine.Portfolio.Settlement.{settle_market}

-- `pt_lifecycle_t`
pub data Lifecycle : Type 0 where
  discovered subscribed active expiring expired resolved : Lifecycle

-- `pt_market_info_t`
pub record MarketInfo (F : Type 0) : Type 0 where
  pub market_id : ℕ
  pub symbol : String
  pub strike_price : F
  pub open_time_ns : ℕ
  pub expiry_time_ns : ℕ
  pub state : Lifecycle
  pub stop_before_expiry_sec : F
  pub resolved_winning_outcome : ℤ
  pub resolution_price : F

abbrev pub is_active : Lifecycle → Bool
is_active active = true
is_active _ = false

abbrev pub is_expiring : Lifecycle → Bool
is_expiring expiring = true
is_expiring _ = false

abbrev pub is_expired : Lifecycle → Bool
is_expired expired = true
is_expired _ = false

module _ {F : Type 0} ⦃d : Double F⦄ where
  pub init : ℕ → String → F → ℕ → ℕ → F → MarketInfo F
  init market_id symbol strike open_t expiry_t stop_cutoff_sec = record {
    market_id = market_id;
    symbol = symbol;
    strike_price = strike;
    open_time_ns = open_t;
    expiry_time_ns = expiry_t;
    state = active;
    stop_before_expiry_sec = if d.lt (whole 0) stop_cutoff_sec then stop_cutoff_sec else whole 10;
    resolved_winning_outcome = pos 0;
    resolution_price = whole 0;
  }

  pub cutoff_ns : MarketInfo F → ℕ
  cutoff_ns m = d.to_nat (d.mul m.stop_before_expiry_sec (whole 1_000_000_000))

  -- The expiry is no further away than the cutoff.
  abbrev is_closing : MarketInfo F → ℕ → Bool
  is_closing m now = leb m.expiry_time_ns (add64 now (cutoff_ns m))

  pub can_trade : MarketInfo F → ℕ → Bool
  can_trade m now =
      if not (is_active m.state)
      then false
      else if ltb now m.open_time_ns
      then false
      else if is_closing m now
      then false
      else true

  pub time_to_expiry_sec : MarketInfo F → ℕ → F
  time_to_expiry_sec m now =
      if leb m.expiry_time_ns now
      then whole 0
      else d.div (d.of_nat (sub64 m.expiry_time_ns now)) (whole 1_000_000_000)

  -- The two steps before resolution.
  abbrev pub close_trading : ℕ → MarketInfo F → MarketInfo F
  close_trading now m =
      if is_active m.state && is_closing m now then record m { state = expiring } else m

  abbrev pub expire : ℕ → MarketInfo F → MarketInfo F
  expire now m =
      if is_expiring m.state && leb m.expiry_time_ns now then record m { state = expired } else m

  abbrev pub resolve : F → MarketInfo F → MarketInfo F
  resolve price m = record m {
    resolution_price = price;
    resolved_winning_outcome = if d.le m.strike_price price then pos 1 else pos 0;
    state = resolved;
  }

  -- The settlement of a resolved market against the portfolio, if there is one.
  pub settle : MarketInfo F → Option (Portfolio F) → Option (Portfolio F) × List (Outcome F)
  settle m none = (none, [])
  settle m (some p) =
      let (p', outs) = settle_market p m.market_id m.resolved_winning_outcome in (some p', outs)

  -- The market, the portfolio with the outcomes of its settlement, and whether the market was resolved.
  pub tick :
      MarketInfo F
      → F
      → ℕ
      → Option (Portfolio F)
      → MarketInfo F × Option (Portfolio F) × List (Outcome F) × Bool
  tick m price now portfolio =
      let m₁ = expire now (close_trading now m) in
      let m₂ = resolve price m₁ in
      let (portfolio', outs) = settle m₂ portfolio in
      if is_expired m₁.state then (m₂, portfolio', outs, true) else (m₁, portfolio, [], false)
