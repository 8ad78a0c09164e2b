-- ===== src/ArbManager/Hedge.antt =====
-- What the manager asks for after a fill or a cancellation evens the legs out.
use polymarket_trade_engine.Prelude.{
  ℕ, ◌+◌, ◌<◌, ◌≤◌, ◌≡◌, refl, ◌∙◌, Bool, true, false, length, if◌then◌else◌, ◌==◌, ◌&&◌, leb,
  arith, get_or-set_self, Bool-cases, inl, inr, word, ℤ, pos_part,
}
use polymarket_trade_engine.Double.{Double}
use polymarket_trade_engine.ArbManager.{
  ArbState, Act, ArbOp, ArbManager, Action, op_exposure, is_slot, zero_op, op_at,
}
use polymarket_trade_engine.ArbManager.Fill.{
  book_fill, balance, react, on_fill, is_complete, has_excess,
}
use polymarket_trade_engine.ArbManager.Cancel.{cancel_op, on_cancel}

-- The action, with its leg and size, against the state, the target and the fills of both legs:
--   a market hedge sells what the fuller leg has too much, and the operation waits for that;
--   a submission buys for the other leg what it lacks, and the operation waits for that leg;
--   an operation is completed when both legs are filled, and given up when neither is;
--   nothing is done only where both legs are filled alike.
abbrev pub Answers : Act → ℕ → ℕ → ArbState → ℕ → ℕ → ℕ → Type 0
Answers Act.market_hedge leg size state target yes_f no_f =
    (state ≡ ArbState.hedge_required)
    × (0 < size)
    × ((if leg == 0 then no_f else yes_f) + size ≡ (if leg == 0 then yes_f else no_f))
Answers Act.submit leg size state target yes_f no_f =
    (state ≡ (if leg == 0 then ArbState.leg_a_pending else ArbState.leg_b_pending))
    × (0 < size)
    × ((if leg == 0 then yes_f else no_f) + size ≡ (if leg == 0 then no_f else yes_f))
Answers Act.complete leg size state target yes_f no_f =
    (state ≡ ArbState.both_filled) × (target ≤ yes_f) × (target ≤ no_f)
Answers Act.abort leg size state target yes_f no_f =
    (state ≡ ArbState.cancelled) × (yes_f ≡ 0) × (no_f ≡ 0)
Answers Act.no_action leg size state target yes_f no_f = yes_f ≡ no_f
Answers Act.cancel leg size state target yes_f no_f = ⊥
Answers Act.requote leg size state target yes_f no_f = ⊥

abbrev pub completes : Act → Bool
completes Act.complete = true
completes _ = false

abbrev pub gives_up : Act → Bool
gives_up Act.abort = true
gives_up _ = false

abbrev pub buys : Act → Bool
buys Act.submit = true
buys _ = false

module _ {F : Type 0} ⦃d : Double F⦄ where
  abbrev pub IsAnswer : ArbOp F → Action F → Type 0
  IsAnswer op a = Answers a.action a.leg a.size op.state op.target_size op.yes_filled op.no_filled

  -- After a fill: completed exactly where both legs have their target, and never given up.
  abbrev pub IsFillAnswer : ArbOp F → Action F → Type 0
  IsFillAnswer op a =
      IsAnswer op a
      × (completes a.action ≡ (leb op.target_size op.yes_filled && leb op.target_size op.no_filled))
      × (gives_up a.action ≡ false)

  -- After a cancellation: given up exactly where nothing is filled, and never bought or completed.
  abbrev pub IsCancelAnswer : ArbOp F → Action F → Type 0
  IsCancelAnswer op a =
      IsAnswer op a
      × (gives_up a.action ≡ (op.yes_filled == 0 && op.no_filled == 0))
      × (buys a.action ≡ false)
      × (completes a.action ≡ false)

  balance-IsAnswer :
      (m : ArbManager F) (i : ℤ) (op : ArbOp F)
      → op.yes_filled < word
      → op.no_filled < word
      → has_excess (op_exposure op) ≡ true
      → IsAnswer (balance m i op).0 (balance m i op).1
  unfolding balance
  balance-IsAnswer m i op y n h = ground arith

  react-IsAnswer :
      (m : ArbManager F) (i : ℤ) (op : ArbOp F)
      → op.yes_filled < word
      → op.no_filled < word
      → IsAnswer (react m i op).0 (react m i op).1
  unfolding react
  react-IsAnswer m i op y n = elim (Bool-cases (is_complete op)) [
    | inl c ↦ rw (react, c) (refl, ground arith, ground arith)
    | inr c ↦ elim (Bool-cases (has_excess (op_exposure op))) [
      | inl e ↦ rw (react, c, e) (balance-IsAnswer m i op y n e)
      | inr e ↦ rw (react, c, e) (ground arith)
    ]
  ]

  react-completes :
      (m : ArbManager F) (i : ℤ) (op : ArbOp F)
      → let r = react m i op in
        (completes r.1.action
          ≡ (leb r.0.target_size r.0.yes_filled && leb r.0.target_size r.0.no_filled))
        × (gives_up r.1.action ≡ false)
        × (r.0.target_size ≡ op.target_size)
  unfolding react balance
  react-completes m i op = ground arith

  cancel_op-IsCancelAnswer :
      (m : ArbManager F) (i : ℤ) (op : ArbOp F)
      → op.yes_filled < word
      → op.no_filled < word
      → IsCancelAnswer (cancel_op m i op).0 (cancel_op m i op).1
  unfolding cancel_op
  cancel_op-IsCancelAnswer m i op y n = (ground arith, ground arith, ground arith, ground arith)

  react_fills :
      (m : ArbManager F) (i : ℤ) (op : ArbOp F)
      → ((react m i op).0.yes_filled ≡ op.yes_filled) × ((react m i op).0.no_filled ≡ op.no_filled)
  unfolding react balance
  react_fills m i op = (ground arith, ground arith)

  pub book_fill_fills :
      (is_yes : Bool) (delta : ℕ) (price : ℤ) (now : ℕ) (op : ArbOp F)
      → op.yes_filled + (if is_yes then delta else 0) < word
      → op.no_filled + (if is_yes then 0 else delta) < word
      → let op' = book_fill is_yes delta price now op in
        (op'.yes_filled ≡ op.yes_filled + (if is_yes then delta else 0))
        × (op'.no_filled ≡ op.no_filled + (if is_yes then 0 else delta))
  unfolding book_fill
  book_fill_fills is_yes delta price now op y n = (ground arith, ground arith)

  book_fill_target :
      (is_yes : Bool) (delta : ℕ) (price : ℤ) (now : ℕ) (op : ArbOp F)
      → (book_fill is_yes delta price now op).target_size ≡ op.target_size
  unfolding book_fill
  book_fill_target is_yes delta price now op = ground arith

  slot-lt :
      (m : ArbManager F) (i : ℤ) → length m.ops ≡ 64 → is_slot i ≡ true → pos_part i < length m.ops
  slot-lt m i l s = ground arith

  pub on_fill_at :
      (m : ArbManager F) (i : ℤ) (is_yes : Bool) (delta : ℕ) (price : ℤ) (now : ℕ)
      → length m.ops ≡ 64
      → is_slot i ≡ true
      → ((op_at m (pos_part i)).arb_id == 0) ≡ false
      → let k = pos_part i in
        let r = react m i (book_fill is_yes delta price now (op_at m k)) in
        let r' = on_fill m i is_yes delta price now in (op_at r'.0 k ≡ r.0) × (r'.1 ≡ r.1)
  unfolding on_fill
  on_fill_at m i is_yes delta price now l s a =
      let k = pos_part i in
      let r = react m i (book_fill is_yes delta price now (op_at m k)) in
      rw (on_fill, s, a) (get_or-set_self m.ops k r.0 zero_op (slot-lt m i l s), refl)

  -- A fill of a running operation is booked on its leg alone, and the target stays. The manager
  -- completes the operation if and only if both legs then have their target, and never gives it up.
  -- Otherwise what it asks for evens the legs out: it sells exactly what the fuller leg has too much, or
  -- buys exactly what the other lacks, the state saying which, and does nothing only where both have
  -- the same fill.
  pub on_fill_lem :
      (m : ArbManager F) (i : ℤ) (is_yes : Bool) (delta : ℕ) (price : ℤ) (now : ℕ)
      → length m.ops ≡ 64
      → is_slot i ≡ true
      → ((op_at m (pos_part i)).arb_id == 0) ≡ false
      → (op_at m (pos_part i)).yes_filled + (if is_yes then delta else 0) < word
      → (op_at m (pos_part i)).no_filled + (if is_yes then 0 else delta) < word
      → let op = op_at m (pos_part i) in
        let r = on_fill m i is_yes delta price now in
        let op' = op_at r.0 (pos_part i) in
        (op'.yes_filled ≡ op.yes_filled + (if is_yes then delta else 0))
        × (op'.no_filled ≡ op.no_filled + (if is_yes then 0 else delta))
        × (op'.target_size ≡ op.target_size)
        × IsFillAnswer op' r.1
  on_fill_lem m i is_yes delta price now l s a y n =
      let booked = book_fill is_yes delta price now (op_at m (pos_part i)) in
      let e = on_fill_at m i is_yes delta price now l s a in
      let f = book_fill_fills is_yes delta price now (op_at m (pos_part i)) y n in
      let g = react_fills m i booked in
      let c = react-completes m i booked in
      rw (e.0, e.1)
        (
          g.0 ∙ f.0,
          g.1 ∙ f.1,
          c.2 ∙ book_fill_target is_yes delta price now (op_at m (pos_part i)),
          (react-IsAnswer m i booked (omega (arith, f.0, y)) (omega (arith, f.1, n)), c.0, c.1),
        )

  cancel_op_fills :
      (m : ArbManager F) (i : ℤ) (op : ArbOp F)
      → ((cancel_op m i op).0.yes_filled ≡ op.yes_filled)
        × ((cancel_op m i op).0.no_filled ≡ op.no_filled)
  unfolding cancel_op
  cancel_op_fills m i op = (ground arith, ground arith)

  -- A cancelled leg leaves the fills alone. The manager gives the operation up if and only if neither leg
  -- has a fill; it never buys and never completes; otherwise it sells exactly what the fuller leg
  -- has too much, and does nothing only where both legs have the same fill.
  pub on_cancel_lem :
      (m : ArbManager F) (i : ℤ)
      → length m.ops ≡ 64
      → is_slot i ≡ true
      → (op_at m (pos_part i)).yes_filled < word
      → (op_at m (pos_part i)).no_filled < word
      → let op = op_at m (pos_part i) in
        let r = on_cancel m i in
        let op' = op_at r.0 (pos_part i) in
        (op'.yes_filled ≡ op.yes_filled) × (op'.no_filled ≡ op.no_filled) × IsCancelAnswer op' r.1
  unfolding on_cancel
  on_cancel_lem m i l s y n =
      let op = op_at m (pos_part i) in
      let r = cancel_op m i op in
      let f = cancel_op_fills m i op in
      rw (on_cancel, s, get_or-set_self m.ops (pos_part i) r.0 zero_op (slot-lt m i l s))
        (f.0, f.1, cancel_op-IsCancelAnswer m i op y n)
