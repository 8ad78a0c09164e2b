-- ===== src/Portfolio/Fills.antt =====
-- What a fill does to the shares held.
use polymarket_trade_engine.Prelude.{
  ℕ, ◌+◌, ◌-◌, ◌<◌, ◌≤◌, ◌≡◌, refl, ◌==◌, Bool, true, false, ◌&&◌, Option, none, some, List,
  if◌then◌else◌, ℤ, eqb_ℤ, get_or, arith, word, Bool-cases, inl, inr,
}
use polymarket_trade_engine.Types.{Side, is_bid}
use polymarket_trade_engine.Double.{Double}
use polymarket_trade_engine.Portfolio.{
  Portfolio, Position, Key, position_for, new_position, claim, on_fill_ex, fill_position, bought,
  sold,
}
use polymarket_trade_engine.Portfolio.Holding.{
  is_of, held, holding, holding-set, held-le-holding, is_accepted, IsPlaced, position_for-IsPlaced,
}

-- The outcome that the fill is about.
abbrev is_about : Key → ℕ → ℤ → Bool
is_about k m y = k.market_id == m && eqb_ℤ k.is_yes y

module _ {F : Type 0} where
  held-own :
      (k : Key) (o : Position F)
      → is_of k.market_id k.is_yes o ≡ true
      → (m : ℕ) (y : ℤ) → (held k.market_id k.is_yes o ≡ o.shares) × (is_of m y o ≡ is_about k m y)
  unfolding held
  held-own k o h m y = ground arith

  claim_lem :
      (k : Key) (o : Position F) (m : ℕ) (y : ℤ)
      → (held m y (claim k o) ≡ held m y o)
        × ((claim k o).shares ≡ o.shares)
        × (is_of m y (claim k o) ≡ is_of m y o)
  unfolding claim held
  claim_lem k o m y = ground arith

module _ {F : Type 0} ⦃d : Double F⦄ where
  bought-held :
      (n : ℕ) (price strategy : ℤ) (o : Position F) (m : ℕ) (y : ℤ)
      → o.shares + n < word
      → held m y (bought n price strategy o) ≡ held m y o + (if is_of m y o then n else 0)
  unfolding held
  bought-held n price strategy o m y h = ground arith

  sold-held :
      (n : ℕ) (price : ℤ) (o : Position F) (m : ℕ) (y : ℤ)
      → o.shares < word
      → held m y (sold n price o) ≡ held m y o - (if is_of m y o then n else 0)
  unfolding held
  sold-held n price o m y h = ground arith

  -- The facts of a place that a fill goes to.
  abbrev Placed : Portfolio F → Key → ℕ → ℤ → ℕ × List (Position F) → Type 0
  Placed p k m y r = IsPlaced k p.positions m y (new_position k) (some r)

  fill_position-bought :
      (p : Portfolio F) (k : Key) (side : Side) (n : ℕ) (price : ℤ) (r : ℕ × List (Position F))
      (m : ℕ) (y : ℤ)
      → is_bid side ≡ true
      → holding k.market_id k.is_yes p.positions + n < word
      → Placed p k k.market_id k.is_yes r
      → Placed p k m y r
      → holding m y (fill_position p k side n price r).positions
        ≡ holding m y p.positions + (if is_about k m y then n else 0)
  unfolding fill_position
  fill_position-bought p k side n price r m y b h q q' =
      let e = new_position k in
      let o = get_or r.1 r.0 e in
      let c = claim_lem k o m y in
      let c' = claim_lem k o k.market_id k.is_yes in
      let l = held-le-holding k.market_id k.is_yes r.1 r.0 e q.1 in
      let f = held-own k o q.2 m y in
      let g = bought-held n price k.strategy (claim k o) m y (omega (arith, c.1, l, q.3, f.0)) in
      let s = holding-set m y r.1 r.0 (bought n price k.strategy (claim k o)) e q.1 in
      rw b (ground (arith, f.1, q'.3, c.0, c.2, g, s))

  -- A bought fill adds its shares to what is held of its market's outcome and leaves all others alone,
  -- if a position takes it or there is room for one; the signal and the strategy do not matter.
  pub on_fill_ex-bought :
      (p : Portfolio F) (k : Key) (side : Side) (shares : ℕ) (price : ℤ) (m : ℕ) (y : ℤ)
      → is_bid side ≡ true
      → is_accepted k p.positions ≡ true
      → holding k.market_id k.is_yes p.positions + shares < word
      → holding m y (on_fill_ex p k side shares price).positions
        ≡ holding m y p.positions + (if is_about k m y then shares else 0)
  unfolding on_fill_ex
  on_fill_ex-bought p k side shares price m y b a h = elim (Bool-cases (shares == 0)) [
    | inl z ↦ rw z (ground arith)
    | inr z ↦ rw z (
        by_place (position_for k p.positions)
          (position_for-IsPlaced k p.positions k.market_id k.is_yes (new_position k))
          (position_for-IsPlaced k p.positions m y (new_position k)))
  ]
    where
      by_place :
          (r : Option (ℕ × List (Position F)))
          → IsPlaced k p.positions k.market_id k.is_yes (new_position k) r
          → IsPlaced k p.positions m y (new_position k) r
          → holding m y
              (elim r as (λ x. Portfolio F) [
                | none ↦ p
                | some i ↦ fill_position p k side shares price i
              ]).positions
            ≡ holding m y p.positions + (if is_about k m y then shares else 0)
      by_place none q q' = absurd (ground (arith, a, q))
      by_place (some r) q q' = fill_position-bought p k side shares price r m y b h q q'

  fill_position-sold :
      (p : Portfolio F) (k : Key) (side : Side) (n : ℕ) (price : ℤ) (r : ℕ × List (Position F))
      (m : ℕ) (y : ℤ)
      → is_bid side ≡ false
      → holding k.market_id k.is_yes p.positions < word
      → Placed p k k.market_id k.is_yes r
      → Placed p k m y r
      → let sold_of = if is_about k m y then n else 0 in
        let after = holding m y (fill_position p k side n price r).positions in
        (after ≤ holding m y p.positions) × (holding m y p.positions ≤ after + sold_of)
  unfolding fill_position
  fill_position-sold p k side n price r m y b h q q' =
      let e = new_position k in
      let o = get_or r.1 r.0 e in
      let c = claim_lem k o m y in
      let c' = claim_lem k o k.market_id k.is_yes in
      let l = held-le-holding k.market_id k.is_yes r.1 r.0 e q.1 in
      let f = held-own k o q.2 m y in
      let g = sold-held n price (claim k o) m y (omega (arith, c.1, l, q.3, f.0)) in
      let s = holding-set m y r.1 r.0 (sold n price (claim k o)) e q.1 in
      rw b (ground (arith, f.1, q'.3, c.0, c.2, g, s))

  -- A sold fill takes no more than its shares from what is held of its market's outcome, never adds any,
  -- and leaves all other outcomes alone.
  pub on_fill_ex-sold :
      (p : Portfolio F) (k : Key) (side : Side) (shares : ℕ) (price : ℤ) (m : ℕ) (y : ℤ)
      → is_bid side ≡ false
      → holding k.market_id k.is_yes p.positions < word
      → let sold_of = if is_about k m y then shares else 0 in
        let after = holding m y (on_fill_ex p k side shares price).positions in
        (after ≤ holding m y p.positions) × (holding m y p.positions ≤ after + sold_of)
  unfolding on_fill_ex
  on_fill_ex-sold p k side shares price m y b h = elim (Bool-cases (shares == 0)) [
    | inl z ↦ rw z (omega arith, omega arith)
    | inr z ↦ rw z (
        by_place (position_for k p.positions)
          (position_for-IsPlaced k p.positions k.market_id k.is_yes (new_position k))
          (position_for-IsPlaced k p.positions m y (new_position k)))
  ]
    where
      by_place :
          (r : Option (ℕ × List (Position F)))
          → IsPlaced k p.positions k.market_id k.is_yes (new_position k) r
          → IsPlaced k p.positions m y (new_position k) r
          → let sold_of = if is_about k m y then shares else 0 in
            let after =
              holding m y
                (elim r as (λ x. Portfolio F) [
                  | none ↦ p
                  | some i ↦ fill_position p k side shares price i
                ]).positions in
            (after ≤ holding m y p.positions) × (holding m y p.positions ≤ after + sold_of)
      by_place none q q' = (omega arith, omega arith)
      by_place (some r) q q' = fill_position-sold p k side shares price r m y b h q q'

  -- A fill that no position takes is dropped where 128 positions, settled ones included, are in use:
  -- neither the cash nor any other part of the portfolio changes.
  pub on_fill_ex_dropped :
      (p : Portfolio F) (k : Key) (side : Side) (shares : ℕ) (price : ℤ)
      → is_accepted k p.positions ≡ false
      → on_fill_ex p k side shares price ≡ p
  unfolding on_fill_ex
  on_fill_ex_dropped p k side shares price a = elim (Bool-cases (shares == 0)) [
    | inl z ↦ rw z refl
    | inr z ↦ rw z (
        by_place (position_for k p.positions)
          (position_for-IsPlaced k p.positions k.market_id k.is_yes (new_position k)))
  ]
    where
      by_place :
          (r : Option (ℕ × List (Position F)))
          → IsPlaced k p.positions k.market_id k.is_yes (new_position k) r
          → elim r as (λ x. Portfolio F) [
            | none ↦ p
            | some i ↦ fill_position p k side shares price i
          ]
            ≡ p
      by_place none q = refl
      by_place (some r) q = absurd (ground (arith, a, q.0))
