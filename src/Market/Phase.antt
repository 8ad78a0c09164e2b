-- ===== src/Market/Phase.antt =====
-- The phases of a market: what one tick does, and the life under any sequence of ticks.
use polymarket_trade_engine.Prelude.{
  ℕ, ◌+◌, ◌-◌, ◌<◌, ◌≤◌, ◌≡◌, refl, true, false, Option, some, List, [], ◌∷◌, All, if◌then◌else◌,
  ◌==◌, ℤ, pos, arith, word,
}
use polymarket_trade_engine.Double.{Double}
use polymarket_trade_engine.Portfolio.{Portfolio}
use polymarket_trade_engine.Portfolio.Settlement.{settle_market}
use polymarket_trade_engine.Portfolio.Holding.{holding}
use polymarket_trade_engine.Portfolio.Settle.{IsSettledEmpty, settle_market_lem}
use polymarket_trade_engine.Market.{
  Lifecycle, MarketInfo, tick, can_trade, cutoff_ns, settle, expire, close_trading,
}

-- How far the life of a market has come.
abbrev pub phase : Lifecycle → ℕ
phase Lifecycle.discovered = 0
phase Lifecycle.subscribed = 1
phase Lifecycle.active = 2
phase Lifecycle.expiring = 3
phase Lifecycle.expired = 4
phase Lifecycle.resolved = 5

phase-le : (s : Lifecycle) → phase s ≤ 5
phase-le s = ground arith

-- The price and the time of a tick.
pub record Tick (F : Type 0) : Type 0 where
  pub price : F
  pub now : ℕ

module _ {F : Type 0} ⦃d : Double F⦄ where
  tick-phase :
      (m : MarketInfo F) (price : F) (now : ℕ) (p : Option (Portfolio F))
      → (phase m.state ≤ phase (tick m price now p).0.state)
        × (phase m.state + (if (tick m price now p).3 then 1 else 0)
            ≤ phase (tick m price now p).0.state)
        × ((if (tick m price now p).3 then 5 else 0) ≤ phase (tick m price now p).0.state)
  unfolding tick
  tick-phase m price now p = (ground arith, ground arith, ground arith)

  -- The market and the portfolio after a sequence of ticks, and how many of them report a resolution.
  pub ticks : MarketInfo F → Option (Portfolio F) → List (Tick F) → MarketInfo F × ℕ
  ticks m p [] = (m, 0)
  ticks m p (t ∷ ts) =
      let (m', p', outs, done) = tick m t.price t.now p in
      let (m'', n) = ticks m' p' ts in (m'', (if done then 1 else 0) + n)

  ticks-bound :
      (m : MarketInfo F) (p : Option (Portfolio F)) (ts : List (Tick F))
      → (phase m.state ≤ phase (ticks m p ts).0.state)
        × ((ticks m p ts).1 ≤ 5 - phase m.state)
        × ((ticks m p ts).1 ≤ 1)
  unfolding ticks
  ticks-bound m p [] = (omega arith, omega arith, omega arith)
  ticks-bound m p (t ∷ ts) =
      let s = tick-phase m t.price t.now p in
      let m' = (tick m t.price t.now p).0 in
      let rest = ticks-bound m' (tick m t.price t.now p).1 ts in
      let l = phase-le m'.state in
      (
        omega (arith, s.0, rest.0),
        ground (arith, s.1, rest.1, l),
        ground (arith, s.2, rest.1, rest.2, l),
      )

  -- Under any sequence of ticks, whatever their prices and times, the life of a market never goes back,
  -- and it is resolved, and its positions settled, at most once.
  pub ticks_lem :
      (m : MarketInfo F) (p : Option (Portfolio F)) (ts : List (Tick F))
      → (phase m.state ≤ phase (ticks m p ts).0.state) × ((ticks m p ts).1 ≤ 1)
  ticks_lem m p ts = ((ticks-bound m p ts).0, (ticks-bound m p ts).2)

  -- A market that takes orders is left as it is by a tick at the same time: it is active, and its cutoff
  -- has not come.
  pub tick-can_trade :
      (m : MarketInfo F) (price : F) (now : ℕ) (p : Option (Portfolio F))
      → can_trade m now ≡ true
      → tick m price now p ≡ (m, p, [], false)
  unfolding tick can_trade
  tick-can_trade m price now p h = ground arith

  -- Once a market no longer takes orders because it closes, it takes none after any further ticks.
  pub ticks_never_reopen :
      (m : MarketInfo F) (p : Option (Portfolio F)) (ts : List (Tick F)) (now : ℕ)
      → 3 ≤ phase m.state
      → can_trade (ticks m p ts).0 now ≡ false
  unfolding can_trade
  ticks_never_reopen m p ts now h = ground (arith, (ticks_lem m p ts).0)

  expires :
      (m : MarketInfo F) (now : ℕ)
      → 2 ≤ phase m.state
      → phase m.state ≤ 4
      → m.expiry_time_ns ≤ now
      → now + cutoff_ns m < word
      → expire now (close_trading now m) ≡ record m { state = Lifecycle.expired }
  expires m now h h' e w = ground arith

  -- At the expiry, even if no tick came between, an active, closing or expired market is resolved: YES
  -- wins exactly if the price is not below the strike, no share of the market is held any more, and the
  -- shares of all other markets are kept.
  pub tick-resolves :
      (m : MarketInfo F) (price : F) (now : ℕ) (p : Portfolio F) (id : ℕ) (y : ℤ)
      → 2 ≤ phase m.state
      → phase m.state ≤ 4
      → m.expiry_time_ns ≤ now
      → now + cutoff_ns m < word
      → All IsSettledEmpty p.positions
      → let winner = if d.le m.strike_price price then pos 1 else pos 0 in
        let p' = (settle_market p m.market_id winner).0 in
        ((tick m price now (some p)).0.state ≡ Lifecycle.resolved)
        × ((tick m price now (some p)).0.resolved_winning_outcome ≡ winner)
        × ((tick m price now (some p)).1 ≡ some p')
        × (holding id y p'.positions ≡ (if m.market_id == id then 0 else holding id y p.positions))
  unfolding tick settle
  tick-resolves m price now p id y h h' e w q =
      let winner = if d.le m.strike_price price then pos 1 else pos 0 in
      rw (expires m now h h' e w)
        (refl, refl, refl, (settle_market_lem p m.market_id winner id y q).0)
