-- ===== src/Lifecycle/Legs.antt =====
-- What one fill does to the record that it meets.
use polymarket_trade_engine.Prelude.{
  ◌+◌, ◌<◌, ◌≡◌, ◌≢◌, refl, Bool, true, false, ◌&&◌, if◌then◌else◌, ltb, arith, word,
}
use polymarket_trade_engine.Double.{Double}
use polymarket_trade_engine.Lifecycle.{State, Leg, Opportunity}
use polymarket_trade_engine.Lifecycle.Fill.{
  FillEvent, fill_record, fill_leg, fill_state, with_leg, hits_leg_b, is_parity, is_leg_filled,
}

abbrev pub is_both : State → Bool
is_both State.both_legs_filled = true
is_both _ = false

-- The states that a fill leads to.
abbrev pub is_fill_state : State → Bool
is_fill_state State.partial = true
is_fill_state State.one_leg_filled = true
is_fill_state State.both_legs_filled = true
is_fill_state _ = false

module _ {F : Type 0} where
  -- Both legs ask for something, and both are filled.
  abbrev pub is_hedged_pair : Opportunity F → Bool
  is_hedged_pair r =
      (is_parity r && is_leg_filled r.leg_a && is_leg_filled r.leg_b)
      && (ltb 0 r.leg_a.requested_size && ltb 0 r.leg_b.requested_size)

  fill_state_lem :
      (r : Opportunity F)
      → (is_both (fill_state r).0 ≡ is_hedged_pair r) × (is_fill_state (fill_state r).0 ≡ true)
  unfolding fill_state
  fill_state_lem r = (ground arith, ground arith)

module _ {F : Type 0} ⦃d : Double F⦄ where
  fill_leg-size :
      (e : FillEvent F) (l : Leg F)
      → l.filled_size + e.fill_qty < word
      → ((fill_leg e l).filled_size ≡ l.filled_size + e.fill_qty)
        × ((fill_leg e l).requested_size ≡ l.requested_size)
  unfolding fill_leg
  fill_leg-size e l h = (omega arith, refl)

  -- A fill adds its shares to one leg and leaves the other alone. The record is then at BOTH_LEGS_FILLED exactly if it is a parity record both of whose legs
  -- ask for something and are filled, and otherwise at ONE_LEG_FILLED or PARTIAL.
  pub fill_record_lem :
      (e : FillEvent F) (r : Opportunity F)
      → r.leg_a.filled_size + e.fill_qty < word
      → r.leg_b.filled_size + e.fill_qty < word
      → let r' = fill_record e r in
        let to_b = hits_leg_b e r in
        (r'.leg_a.filled_size ≡ r.leg_a.filled_size + (if to_b then 0 else e.fill_qty))
        × (r'.leg_b.filled_size ≡ r.leg_b.filled_size + (if to_b then e.fill_qty else 0))
        × (is_both r'.state ≡ is_hedged_pair r')
        × (is_fill_state r'.state ≡ true)
  unfolding fill_record
  fill_record_lem e r h h' =
      let r₁ = with_leg e r in
      let s = fill_state_lem r₁ in
      let a = fill_leg-size e r.leg_a h in
      let b = fill_leg-size e r.leg_b h' in (ground (arith, a.0), ground (arith, b.0), s.0, s.1)

  -- A fill that reaches a settled record moves it out of SETTLED, although it stays completed.
  pub fill_record_reopens :
      (e : FillEvent F) (r : Opportunity F)
      → r.state ≡ State.settled
      → r.completed ≡ true
      → ((fill_record e r).state ≢ State.settled) × ((fill_record e r).completed ≡ true)
  unfolding fill_record
  fill_record_reopens e r h h' =
      let s = fill_state_lem (with_leg e r) in (ground (arith, s.1), ground (arith, h'))
