-- ===== src/Portfolio/Holding.antt =====
-- How many shares the positions of a market's outcome hold together, and what a change of one position
-- does to that.
use polymarket_trade_engine.Prelude.{
  ℕ, zero, suc, ◌+◌, ◌<◌, ◌≤◌, ◌≡◌, refl, ap, ◌∙◌, ◌==◌, Bool, true, false, ◌&&◌, ◌||◌, Option,
  none, some, List, [], ◌∷◌, ◌++◌, if◌then◌else◌, ltb, ℤ, eqb_ℤ, get_or, set, length, length-append,
  arith,
}
use polymarket_trade_engine.Double.{Double}
use polymarket_trade_engine.Portfolio.{
  Position, Key, is_match, find_match, position_for, new_position, max_positions,
}

module _ {F : Type 0} where
  abbrev pub is_of : ℕ → ℤ → Position F → Bool
  is_of market_id is_yes o = o.market_id == market_id && eqb_ℤ o.is_yes is_yes

  -- The shares of one position that count for this outcome.
  unfoldable pub held : ℕ → ℤ → Position F → ℕ
  held market_id is_yes o = if is_of market_id is_yes o then o.shares else 0

  unfoldable pub holding : ℕ → ℤ → List (Position F) → ℕ
  holding market_id is_yes [] = 0
  holding market_id is_yes (o ∷ os) = held market_id is_yes o + holding market_id is_yes os

  pub holding-set :
      (m : ℕ) (y : ℤ) (os : List (Position F)) (i : ℕ) (o e : Position F)
      → i < length os
      → holding m y (set os i o) + held m y (get_or os i e) ≡ holding m y os + held m y o
  unfolding holding
  holding-set m y [] i o e h = absurd (omega arith)
  holding-set m y (x ∷ os) zero o e h = omega arith
  holding-set m y (x ∷ os) (suc i) o e h = omega (arith, holding-set m y os i o e (omega arith))

  pub holding-append :
      (m : ℕ) (y : ℤ) (os : List (Position F)) (o : Position F)
      → holding m y (os ++ o ∷ []) ≡ holding m y os + held m y o
  unfolding holding
  holding-append m y [] o = omega arith
  holding-append m y (x ∷ os) o = omega (arith, holding-append m y os o)

  pub get_or-last :
      (os : List (Position F)) (o e : Position F) → get_or (os ++ o ∷ []) (length os) e ≡ o
  get_or-last [] o e = refl
  get_or-last (x ∷ os) o e = get_or-last os o e

  pub held-le-holding :
      (m : ℕ) (y : ℤ) (os : List (Position F)) (i : ℕ) (e : Position F)
      → i < length os
      → held m y (get_or os i e) ≤ holding m y os
  unfolding holding
  held-le-holding m y [] i e h = absurd (omega arith)
  held-le-holding m y (x ∷ os) zero e h = omega arith
  held-le-holding m y (x ∷ os) (suc i) e h = omega (arith, held-le-holding m y os i e (omega arith))

  -- Some position matches the fill.
  unfoldable pub has_match : Key → List (Position F) → Bool
  has_match k [] = false
  has_match k (o ∷ os) = is_match k o || has_match k os

  abbrev pub IsFound : Key → List (Position F) → Position F → Option ℕ → Type 0
  IsFound k os e none = has_match k os ≡ false
  IsFound k os e (some i) =
      (has_match k os ≡ true) × (i < length os) × (is_match k (get_or os i e) ≡ true)

  pub find_match-IsFound :
      (k : Key) (os : List (Position F)) (e : Position F) → IsFound k os e (find_match k os)
  unfolding find_match has_match
  find_match-IsFound k [] e = refl
  find_match-IsFound k (o ∷ os) e = by_head (is_match k o) refl (find_match-IsFound k os e)
    where
      by_later :
          (r : Option ℕ)
          → IsFound k os e r
          → is_match k o ≡ false
          → IsFound k (o ∷ os) e (elim r as (λ x. Option ℕ) [ none ↦ none | some i ↦ some (suc i) ])
      by_later none f t = ground arith
      by_later (some i) f t = (ground (arith, f.0), omega (arith, f.1), f.2)

      by_head :
          (b : Bool)
          → is_match k o ≡ b
          → IsFound k os e (find_match k os)
          → IsFound k (o ∷ os) e (
              if b then some 0 else elim (find_match k os) as (λ x. Option ℕ) [
                | none ↦ none
                | some i ↦ some (suc i)
              ])
      by_head true t f = (ground arith, omega arith, t)
      by_head false t f = by_later (find_match k os) f t

  is_match-is_of :
      (k : Key) (o : Position F) → is_match k o ≡ true → is_of k.market_id k.is_yes o ≡ true
  unfolding is_match
  is_match-is_of k o h = ground arith

new_position-is_of :
    (F : Type 0) ⦃d : Double F⦄ (k : Key)
    → is_of {F = F} k.market_id k.is_yes (new_position k) ≡ true
unfolding new_position
new_position-is_of F k = ground arith

new_position-held :
    (F : Type 0) ⦃d : Double F⦄ (k : Key) (m : ℕ) (y : ℤ) → held {F = F} m y (new_position k) ≡ 0
unfolding held new_position
new_position-held F k m y = ground arith

module _ {F : Type 0} ⦃d : Double F⦄ where
  -- The fill finds a position, or room for one.
  abbrev pub is_accepted : Key → List (Position F) → Bool
  is_accepted k os = has_match k os || ltb (length os) max_positions

  abbrev pub IsPlaced :
      Key → List (Position F) → ℕ → ℤ → Position F → Option (ℕ × List (Position F)) → Type 0
  IsPlaced k os m y e none = is_accepted k os ≡ false
  IsPlaced k os m y e (some r) =
      (is_accepted k os ≡ true)
      × (r.0 < length r.1)
      × (is_of k.market_id k.is_yes (get_or r.1 r.0 e) ≡ true)
      × (holding m y r.1 ≡ holding m y os)

  pub position_for-IsPlaced :
      (k : Key) (os : List (Position F)) (m : ℕ) (y : ℤ) (e : Position F)
      → IsPlaced k os m y e (position_for k os)
  unfolding position_for
  position_for-IsPlaced k os m y e = by_match (find_match k os) (find_match-IsFound k os e)
    where
      by_room :
          (b : Bool)
          → has_match k os ≡ false
          → ltb (length os) max_positions ≡ b
          → IsPlaced k os m y e (if b then some (length os, os ++ new_position k ∷ []) else none)
      by_room true f g = (
        ground arith,
        omega (arith, length-append os (new_position k ∷ [])),
        ap (is_of k.market_id k.is_yes) (get_or-last os (new_position k) e)
            ∙ new_position-is_of F k,
        omega (arith, holding-append m y os (new_position k), new_position-held F k m y),
      )
      by_room false f g = ground arith

      by_match :
          (r : Option ℕ)
          → IsFound k os e r
          → IsPlaced k os m y e (elim r [
            | some i ↦ some (i, os)
            | none ↦
                if ltb (length os) max_positions
                then some (length os, os ++ new_position k ∷ [])
                else none
          ])
      by_match none f = by_room (ltb (length os) max_positions) f refl
      by_match (some i) f = (ground (arith, f.0), f.1, is_match-is_of k (get_or os i e) f.2, refl)
