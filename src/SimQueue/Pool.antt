-- ===== src/SimQueue/Pool.antt =====
-- The pool under any sequence of calls.
use polymarket_trade_engine.Prelude.{
  All-set, ℕ, zero, suc, ◌<◌, ◌≡◌, refl, ap, true, Bool-cases, Option-cases, inl, inr, Option, none,
  some, List, [], ◌∷◌, ◌==◌, ◌||◌, length, length-set, length-replicate, replicate, All, ℤ, pos,
  leb_ℤ, word, arith,
}
use polymarket_trade_engine.Types.{Side}
use polymarket_trade_engine.Double.{Double}
use polymarket_trade_engine.Book.{Book, Level}
use polymarket_trade_engine.Order.{Order, OrderType, Strategy, zero_order, is_cancellable}
use polymarket_trade_engine.SimQueue.{
  SimQueue, Config, Fill, max_orders, init, submit, cancel, cancel_in, new_order, queue_size,
  size_ahead, free_slot, cancel_order,
}
use polymarket_trade_engine.SimQueue.Trade.{each_slot, over_slots, on_trade, trade_order}
use polymarket_trade_engine.SimQueue.Depth.{on_level_change, level_order}
use polymarket_trade_engine.SimQueue.Tick.{tick, tick_order}
use polymarket_trade_engine.SimQueue.Inv.{
  IsOrder, IsPool, zero_order-IsOrder, trade_order-IsOrder, level_order-IsOrder, tick_order-IsOrder,
}

-- A call of the queue's interface, with its arguments.
pub data Call : Type 0 where
  submits : ℕ → ℤ → Side → OrderType → ℤ → ℕ → Option Book → Strategy → ℕ → ℕ → Call
  cancels : ℕ → ℕ → Call
  trades : ℕ → ℤ → ℤ → ℕ → Side → ℕ → Call
  changes : ℕ → ℤ → Side → ℤ → ℤ → ℤ → ℕ → Call
  ticks : ℕ → Option Book → Option Book → ℕ → Call

abbrev pub BookFits : Option Book → Type 0
BookFits none = Unit {0}
BookFits (some b) = All (λ l. l.size < word) b.bids × All (λ l. l.size < word) b.asks

-- The sizes that the caller passes are words.
abbrev pub IsCall : Call → Type 0
IsCall (submits market_id is_yes side type price size book strategy signal_id now) =
    (size < word) × BookFits book
IsCall (trades market_id is_yes price size side now) = size < word
IsCall _ = Unit {0}

module _ {F : Type 0} ⦃d : Double F⦄ where
  unfoldable pub step : SimQueue F → Call → SimQueue F
  step sq (submits m y side type price size book strategy signal_id now) =
      (submit sq m y side type price size book strategy signal_id now).0
  step sq (cancels oid now) = (cancel sq oid now).1
  step sq (trades m y price size side now) = (on_trade sq m y price size side now).0
  step sq (changes m y side price old_size new_size now) =
      on_level_change sq m y side price old_size new_size now
  step sq (ticks m yes_book no_book now) = (tick sq m yes_book no_book now).0

  unfoldable pub run : SimQueue F → List Call → SimQueue F
  unfolding step
  run sq [] = sq
  run sq (c ∷ cs) = run (step sq c) cs

  each_slot-IsOrder :
      (f : Order F → Order F × Option (Fill F)) (os : List (Order F))
      → ((o : Order F) → IsOrder o → IsOrder (f o).0)
      → All IsOrder os
      → All IsOrder (each_slot f os).0
  unfolding each_slot
  each_slot-IsOrder f [] keep v = tt
  each_slot-IsOrder f (o ∷ os) keep v = (keep o v.0, each_slot-IsOrder f os keep v.1)

  length-each_slot :
      (f : Order F → Order F × Option (Fill F)) (os : List (Order F))
      → length (each_slot f os).0 ≡ length os
  unfolding each_slot
  length-each_slot f [] = refl
  length-each_slot f (o ∷ os) = ap suc (length-each_slot f os)

  over_slots-IsPool :
      (sq : SimQueue F) (f : Order F → Order F × Option (Fill F))
      → ((o : Order F) → IsOrder o → IsOrder (f o).0)
      → IsPool sq
      → IsPool (over_slots sq f).0
  unfolding over_slots
  over_slots-IsPool sq f keep v = record {
    orders = each_slot-IsOrder f sq.orders keep v.orders;
    slots = omega (arith, length-each_slot f sq.orders, v.slots);
  }

  new_order-IsOrder :
      (cfg : Config F) (id m : ℕ) (y : ℤ) (side : Side) (type : OrderType) (price : ℤ)
      (size ahead : ℕ) (strategy : Strategy) (signal_id now : ℕ)
      → 0 < size
      → size < word
      → ahead < word
      → IsOrder (new_order cfg id m y side type price size ahead strategy signal_id now)
  new_order-IsOrder cfg id m y side type price size ahead strategy signal_id now h k l = record {
    shares = omega arith;
    shares_fit = k;
    ahead = omega arith;
    ahead_fits = l;
    left = h;
  }

  cancel_order-IsOrder :
      (cfg : Config F) (now : ℕ) (o : Order F)
      → is_cancellable o.state ≡ true
      → IsOrder o
      → IsOrder (cancel_order cfg now o)
  cancel_order-IsOrder cfg now o h v = ground arith

  cancel_in-IsOrder :
      (cfg : Config F) (oid now : ℕ) (os : List (Order F))
      → All IsOrder os
      → All IsOrder (cancel_in cfg oid now os).1 × (length (cancel_in cfg oid now os).1 ≡ length os)
  unfolding cancel_in
  cancel_in-IsOrder cfg oid now [] v = (tt, refl)
  cancel_in-IsOrder cfg oid now (o ∷ os) v =
      ground (arith, cancel_in-IsOrder cfg oid now os v.1, cancel_order-IsOrder cfg now o)

  cancel-IsPool : (sq : SimQueue F) (oid now : ℕ) → IsPool sq → IsPool (cancel sq oid now).1
  unfolding cancel
  cancel-IsPool sq oid now v =
      let kept = cancel_in-IsOrder sq.cfg oid now sq.orders v.orders in
      record { orders = kept.0; slots = omega (arith, kept.1, v.slots) }

  submit-IsPool :
      (sq : SimQueue F) (m : ℕ) (y : ℤ) (side : Side) (type : OrderType) (price : ℤ) (size : ℕ)
      (book : Option Book) (strategy : Strategy) (signal_id now : ℕ)
      → size < word
      → queue_size book side price < word
      → IsPool sq
      → IsPool (submit sq m y side type price size book strategy signal_id now).0
  unfolding submit
  submit-IsPool sq m y side type price size book strategy signal_id now h k v =
      elim (Bool-cases (size == 0 || leb_ℤ price (pos 0))) [
        | inl refused ↦ rw refused v
        | inr taken ↦ elim (Option-cases (free_slot sq.orders)) [
          | inl full ↦ rw (taken, full) v
          | inr (slot, free) ↦
              rw (taken, free)
                (record {
                  orders =
                      All-set IsOrder sq.orders slot _
                        (new_order-IsOrder sq.cfg sq.next_oid m y side type price size
                          (queue_size book side price) strategy signal_id now (ground arith) h k)
                        v.orders;
                  slots = omega (
                    arith,
                    length-set sq.orders slot (
                        new_order sq.cfg sq.next_oid m y side type price size
                          (queue_size book side price) strategy signal_id now),
                    v.slots,
                  );
                })
        ]
      ]

size_ahead-lt :
    (price : ℤ) (ls : List Level) → All (λ l. l.size < word) ls → size_ahead ls price < word
unfolding size_ahead
size_ahead-lt price [] a = omega arith
size_ahead-lt price (l ∷ ls) a = ground (arith, size_ahead-lt price ls a.1)

queue_size-lt :
    (book : Option Book) (side : Side) (price : ℤ)
    → BookFits book
    → queue_size book side price < word
queue_size-lt none side price h = omega arith
queue_size-lt (some b) side price h =
    ground (arith, size_ahead-lt price b.bids h.0, size_ahead-lt price b.asks h.1)

module _ {F : Type 0} ⦃d : Double F⦄ where
  step-IsPool : (sq : SimQueue F) (c : Call) → IsCall c → IsPool sq → IsPool (step sq c)
  unfolding step on_trade on_level_change tick
  step-IsPool sq (submits m y side type price size book strategy signal_id now) h v =
      submit-IsPool sq m y side type price size book strategy signal_id now h.0
        (queue_size-lt book side price h.1) v
  step-IsPool sq (cancels oid now) h v = cancel-IsPool sq oid now v
  step-IsPool sq (trades m y price size side now) h v = ground (
    arith,
    over_slots-IsPool sq (trade_order sq.cfg m y price size side now)
        (λ o. trade_order-IsOrder sq.cfg m y price size side now o h) v,
  )
  step-IsPool sq (changes m y side price old_size new_size now) h v = ground (
    arith,
    over_slots-IsPool sq (level_order sq.cfg m y side price old_size new_size now)
        (level_order-IsOrder sq.cfg m y side price old_size new_size now) v,
  )
  step-IsPool sq (ticks m yes_book no_book now) h v =
      over_slots-IsPool sq (tick_order sq.cfg m yes_book no_book now)
        (tick_order-IsOrder sq.cfg m yes_book no_book now) v

  replicate-IsOrder : (n : ℕ) (o : Order F) → IsOrder o → All IsOrder (replicate n o)
  replicate-IsOrder zero o v = tt
  replicate-IsOrder (suc n) o v = (v, replicate-IsOrder n o v)

  init-IsPool : (cfg : Option (Config F)) → IsPool (init cfg)
  unfolding init
  init-IsPool cfg = record {
    orders = replicate-IsOrder max_orders (zero_order {F = F}) zero_order-IsOrder;
    slots = length-replicate max_orders (zero_order {F = F});
  }

  run-IsPool : (sq : SimQueue F) (cs : List Call) → All IsCall cs → IsPool sq → IsPool (run sq cs)
  unfolding run
  run-IsPool sq [] h v = v
  run-IsPool sq (c ∷ cs) h v = run-IsPool (step sq c) cs h.1 (step-IsPool sq c h.0 v)

  -- After any sequence of calls with word-sized sizes on a fresh queue there are 256 slots, and in
  -- each of them filled and remaining shares make up the original size; the queue ahead, the volume
  -- consumed and the volume cancelled make up the initial queue; a filled order has nothing left,
  -- and one that waits, rests, is partly filled or waits for its cancellation has something left.
  pub run-init-IsPool :
      (cfg : Option (Config F)) (cs : List Call) → All IsCall cs → IsPool (run (init cfg) cs)
  run-init-IsPool cfg cs h = run-IsPool (init cfg) cs h (init-IsPool cfg)
