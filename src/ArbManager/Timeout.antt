-- ===== src/ArbManager/Timeout.antt =====
-- The tick: which operations it hedges, and which it does not.
use mathlib.Core.List.{Memᴰ}
use polymarket_trade_engine.Prelude.{
  ℕ, suc, ◌+◌, ◌<◌, ◌≤◌, ◌≡◌, ◌≢◌, refl, sym, ap, ◌∙◌, true, false, Option, none, some, List, [],
  ◌∷◌, length, All, ◌==◌, arith, get_or, word, ℤ, pos, pos_part,
}
use polymarket_trade_engine.Double.{Double}
use polymarket_trade_engine.ArbManager.{
  Act, ArbOp, ArbManager, Action, op_exposure, is_slot, is_done, zero_op, op_at,
}
use polymarket_trade_engine.ArbManager.Fill.{book_fill, balance, react, on_fill}
use polymarket_trade_engine.ArbManager.Cancel.{
  is_overdue, unhedged_ns, dump, tick_op, tick_ops, tick,
}
use polymarket_trade_engine.ArbManager.Hedge.{IsAnswer, on_fill_at}

module _ {F : Type 0} ⦃d : Double F⦄ where
  tick_ops_at :
      (m : ArbManager F) (now i j k : ℕ) (ops : List (ArbOp F))
      → j < length ops
      → k ≡ i + j
      → get_or (tick_ops m now i ops).0 j zero_op ≡ (tick_op m now k (get_or ops j zero_op)).0
  unfolding tick_ops
  tick_ops_at m now i j k [] h e = absurd (omega arith)
  tick_ops_at m now i ℕ.zero k (op ∷ ops) h e = ap (λ n. (tick_op m now n op).0) (omega arith)
  tick_ops_at m now i (suc j) k (op ∷ ops) h e =
      tick_ops_at m now (suc i) j k ops (omega arith) (omega arith)

  keep_action :
      (a : Option (Action F)) (x : Action F) (acts : List (Action F))
      → Memᴰ x acts
      → Memᴰ x (elim a as (λ _. List (Action F)) [ none ↦ acts | some y ↦ y ∷ acts ])
  keep_action none x acts h = h
  keep_action (some y) x acts h = Memᴰ.tail h

  first_action :
      (r : Option (Action F)) (x : Action F) (acts : List (Action F))
      → r ≡ some x
      → Memᴰ x (elim r as (λ _. List (Action F)) [ none ↦ acts | some y ↦ y ∷ acts ])
  first_action none x acts e = absurd (ground arith)
  first_action (some y) x acts e = Memᴰ.head (ground arith)

  tick_ops_action :
      (m : ArbManager F) (now i j k : ℕ) (ops : List (ArbOp F)) (x : Action F)
      → j < length ops
      → k ≡ i + j
      → (tick_op m now k (get_or ops j zero_op)).1 ≡ some x
      → Memᴰ x (tick_ops m now i ops).1
  unfolding tick_ops
  tick_ops_action m now i j k [] x h e f = absurd (omega arith)
  tick_ops_action m now i ℕ.zero k (op ∷ ops) x h e f =
      first_action (tick_op m now i op).1 x (tick_ops m now (suc i) ops).1
        (ap (λ n. (tick_op m now n op).1) (omega arith) ∙ f)
  tick_ops_action m now i (suc j) k (op ∷ ops) x h e f =
      keep_action (tick_op m now i op).1 x (tick_ops m now (suc i) ops).1
        (tick_ops_action m now (suc i) j k ops x (omega arith) (omega arith) f)

  is_overdue-late :
      (m : ArbManager F) (now : ℕ) (op : ArbOp F)
      → is_done op.state ≡ false
      → 0 < op.leg_a_fill_t
      → op.leg_a_fill_t + unhedged_ns m ≤ now
      → now < word
      → op.yes_filled < word
      → op.no_filled < word
      → op.yes_filled ≢ op.no_filled
      → is_overdue m now op ≡ true
  unfolding is_overdue
  is_overdue-late m now op s t l w y n e = ground arith

  tick_op-IsAnswer :
      (m : ArbManager F) (now j : ℕ) (op : ArbOp F)
      → op.yes_filled < word
      → op.no_filled < word
      → is_overdue m now op ≡ true
      → (a : Action F) × ((tick_op m now j op).1 ≡ some a)
        × (a.action ≡ Act.market_hedge)
        × (a.op_index ≡ pos j)
        × IsAnswer (tick_op m now j op).0 a
  unfolding tick_op is_overdue
  tick_op-IsAnswer m now j op y n o = (
    dump m (pos j) (op_exposure op),
    rw (tick_op, o) refl,
    ground arith,
    ground arith,
    ground arith,
  )

  -- A tick hedges every operation that runs with unlike fills since its YES leg was first filled the
  -- allowed time ago: it asks to sell exactly what the fuller leg has too much.
  pub tick_hedges :
      (m : ArbManager F) (now j : ℕ)
      → j < length m.ops
      → is_done (op_at m j).state ≡ false
      → 0 < (op_at m j).leg_a_fill_t
      → (op_at m j).leg_a_fill_t + unhedged_ns m ≤ now
      → now < word
      → (op_at m j).yes_filled < word
      → (op_at m j).no_filled < word
      → (op_at m j).yes_filled ≢ (op_at m j).no_filled
      → (a : Action F) × Memᴰ a (tick m now).1
        × (a.action ≡ Act.market_hedge)
        × (a.op_index ≡ pos j)
        × IsAnswer (op_at (tick m now).0 j) a
  unfolding tick
  tick_hedges m now j h s t l w y n e =
      let op = op_at m j in
      let overdue = is_overdue-late m now op s t l w y n e in
      let (a, given, hedges, index, answer) = tick_op-IsAnswer m now j op y n overdue in
      (
        a,
        tick_ops_action m now 0 j j m.ops a h (omega arith) given,
        hedges,
        index,
        rw (tick_ops_at m now 0 j j m.ops h (omega arith)) answer,
      )

  tick_op_again :
      (m m' : ArbManager F) (now later i : ℕ) (op : ArbOp F) (x : Action F)
      → m'.cfg ≡ m.cfg
      → m'.yes_book ≡ m.yes_book
      → m'.no_book ≡ m.no_book
      → op.leg_a_fill_t ≤ now
      → now ≤ later
      → later < word
      → (tick_op m now i op).1 ≡ some x
      → (tick_op m' later i (tick_op m now i op).0).1 ≡ some x
  unfolding tick_op is_overdue unhedged_ns
  tick_op_again m m' now later i op x c y n f l w e = rw (c, y, n) (ground arith)

  tick_ops_again :
      (m m' : ArbManager F) (now later i : ℕ) (ops : List (ArbOp F)) (x : Action F)
      → m'.cfg ≡ m.cfg
      → m'.yes_book ≡ m.yes_book
      → m'.no_book ≡ m.no_book
      → All (λ op. op.leg_a_fill_t ≤ now) ops
      → now ≤ later
      → later < word
      → Memᴰ x (tick_ops m now i ops).1
      → Memᴰ x (tick_ops m' later i (tick_ops m now i ops).0).1
  unfolding tick_ops
  tick_ops_again m m' now later i [] x c y n f l w h = h
  tick_ops_again m m' now later i (op ∷ ops) x c y n f l w h =
      at (tick_op m now i op).1 (λ a e. tick_op_again m m' now later i op a c y n f.0 l w e)
        (tick_ops_again m m' now later (suc i) ops x c y n f.1 l w) h
    where
      rest : List (Action F)
      rest = (tick_ops m' later (suc i) (tick_ops m now (suc i) ops).0).1

      second : Option (Action F)
      second = (tick_op m' later i (tick_op m now i op).0).1

      at :
          (r : Option (Action F))
          → ((a : Action F) → r ≡ some a → second ≡ some a)
          → (Memᴰ x (tick_ops m now (suc i) ops).1 → Memᴰ x rest)
          → Memᴰ x (elim r as (λ _. List (Action F)) [
            | none ↦ (tick_ops m now (suc i) ops).1
            | some a ↦ a ∷ (tick_ops m now (suc i) ops).1
          ])
          → Memᴰ x (elim second as (λ _. List (Action F)) [ none ↦ rest | some a ↦ a ∷ rest ])
      at none again below mem = keep_action second x rest (below mem)
      at (some a) again below (Memᴰ.head e) =
          first_action second x rest (again a refl ∙ ap some (sym e))
      at (some a) again below (Memᴰ.tail mem) = keep_action second x rest (below mem)

  -- An operation that waits for its hedge is hedged again by every later tick: while the books stay as
  -- they are, whatever a tick asks for, the next one asks for again.
  pub tick_repeats :
      (m : ArbManager F) (now later : ℕ) (x : Action F)
      → All (λ op. op.leg_a_fill_t ≤ now) m.ops
      → now ≤ later
      → later < word
      → Memᴰ x (tick m now).1
      → Memᴰ x (tick (tick m now).0 later).1
  unfolding tick
  tick_repeats m now later x f l w h =
      tick_ops_again m (tick m now).0 now later 0 m.ops x refl refl refl f l w h

  react-leg_a_fill_t :
      (m : ArbManager F) (i : ℤ) (op : ArbOp F) → (react m i op).0.leg_a_fill_t ≡ op.leg_a_fill_t
  unfolding react balance
  react-leg_a_fill_t m i op = ground arith

  tick_op_untimed :
      (m : ArbManager F) (now i : ℕ) (op : ArbOp F)
      → op.leg_a_fill_t ≡ 0
      → tick_op m now i op ≡ (op, none)
  unfolding tick_op is_overdue
  tick_op_untimed m now i op h = ground arith

  -- While only the NO leg of an operation was filled, no tick hedges it, however late: only a fill of the
  -- YES leg starts the clock.
  pub tick-no_leg_untimed :
      (m : ArbManager F) (i : ℤ) (delta : ℕ) (price : ℤ) (now later : ℕ)
      → length m.ops ≡ 64
      → is_slot i ≡ true
      → ((op_at m (pos_part i)).arb_id == 0) ≡ false
      → (op_at m (pos_part i)).leg_a_fill_t ≡ 0
      → let m' = (on_fill m i false delta price now).0 in
        let op = op_at m' (pos_part i) in tick_op m' later (pos_part i) op ≡ (op, none)
  unfolding book_fill
  tick-no_leg_untimed m i delta price now later l s a t =
      let e = on_fill_at m i false delta price now l s a in
      tick_op_untimed _ later (pos_part i) _
        (ap ArbOp.leg_a_fill_t e.0 ∙ react-leg_a_fill_t m i _ ∙ t)
