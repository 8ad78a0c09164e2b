-- ===== src/Portfolio/Settle.antt =====
-- What the settlement of a market does to its positions and to all others.
use polymarket_trade_engine.Prelude.{
  ℕ, ◌+◌, ◌≡◌, refl, ◌==◌, false, List, [], ◌∷◌, if◌then◌else◌, ℤ, pos, length, All, arith,
}
use polymarket_trade_engine.Double.{Double}
use polymarket_trade_engine.Portfolio.{Portfolio, Position}
use polymarket_trade_engine.Portfolio.Settlement.{
  is_open, settle_all, settle_market, settled, book_settlement,
}
use polymarket_trade_engine.Portfolio.Holding.{held, holding}

module _ {F : Type 0} where
  -- A settled position holds nothing.
  abbrev pub IsSettledEmpty : Position F → Type 0
  IsSettledEmpty o = (if o.is_settled then o.shares else 0) ≡ 0

  -- The positions that a settlement of the market closes.
  abbrev pub open_count : ℕ → List (Position F) → ℕ
  open_count m [] = 0
  open_count m (o ∷ os) = (if is_open m o then 1 else 0) + open_count m os

module _ {F : Type 0} ⦃d : Double F⦄ where
  abbrev one : ℕ → ℤ → Position F → Position F
  one market_id winner o = if is_open market_id o then settled winner o else o

  settled-held :
      (market_id : ℕ) (winner : ℤ) (o : Position F) (m : ℕ) (y : ℤ)
      → IsSettledEmpty o
      → (held m y (one market_id winner o) ≡ (if market_id == m then 0 else held m y o))
        × IsSettledEmpty (one market_id winner o)
  unfolding held
  settled-held market_id winner o m y h = (ground arith, ground arith)

  settle_all-holding :
      (market_id : ℕ) (winner : ℤ) (os : List (Position F)) (p : Portfolio F) (m : ℕ) (y : ℤ)
      → All IsSettledEmpty os
      → (holding m y (settle_all market_id winner os p).1
          ≡ (if market_id == m then 0 else holding m y os))
        × All IsSettledEmpty (settle_all market_id winner os p).1
        × (length (settle_all market_id winner os p).2 ≡ open_count market_id os)
        × (open_count market_id (settle_all market_id winner os p).1 ≡ 0)
  unfolding settle_all holding
  settle_all-holding market_id winner [] p m y h = (ground arith, tt, refl, refl)
  settle_all-holding market_id winner (o ∷ os) p m y h =
      let p₁ = if is_open market_id o then book_settlement winner o p else p in
      let rest = settle_all-holding market_id winner os p₁ m y h.1 in
      let one = settled-held market_id winner o m y h.0 in
      (
        ground (arith, one.0, rest.0),
        (one.1, rest.1),
        ground (arith, rest.2),
        ground (arith, rest.3),
      )

  -- Where settled positions hold nothing, the settlement of a market leaves no share of either of its
  -- outcomes and keeps every other market's; it reports one outcome for each position that it closes,
  -- leaves none open, and settled positions still hold nothing.
  pub settle_market_lem :
      (p : Portfolio F) (market_id : ℕ) (winner : ℤ) (m : ℕ) (y : ℤ)
      → All IsSettledEmpty p.positions
      → let (p', outcomes) = settle_market p market_id winner in
        (holding m y p'.positions ≡ (if market_id == m then 0 else holding m y p.positions))
        × All IsSettledEmpty p'.positions
        × (length outcomes ≡ open_count market_id p.positions)
        × (open_count market_id p'.positions ≡ 0)
  unfolding settle_market
  settle_market_lem p market_id winner m y h =
      settle_all-holding market_id winner p.positions p m y h

  settle_all_again :
      (market_id : ℕ) (winner : ℤ) (os : List (Position F)) (p : Portfolio F)
      → open_count market_id os ≡ 0
      → settle_all market_id winner os p ≡ (p, os, [])
  unfolding settle_all
  settle_all_again market_id winner [] p h = refl
  settle_all_again market_id winner (o ∷ os) p h =
      let f : is_open market_id o ≡ false = ground arith in
      rw (f, settle_all_again market_id winner os p (ground arith)) refl

  -- A second settlement of the same market, whatever winner it names, changes nothing and reports
  -- nothing.
  pub settle_market_again :
      (p : Portfolio F) (market_id : ℕ) (winner winner' : ℤ)
      → All IsSettledEmpty p.positions
      → let p' = (settle_market p market_id winner).0 in
        settle_market p' market_id winner' ≡ (p', [])
  unfolding settle_market
  settle_market_again p market_id winner winner' h =
      let p' = (settle_market p market_id winner).0 in
      rw
        (settle_all_again market_id winner' p'.positions p'
          (settle_market_lem p market_id winner 0 (pos 0) h).3)
        refl
