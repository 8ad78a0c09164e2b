-- ===== src/Ring/Queue.antt =====
-- A push and a pop that nothing interrupts, on the queue of what the ring holds.
use polymarket_trade_engine.Prelude.{
  ℕ, ◌+◌, ◌<◌, ◌≡◌, ◌≢◌, refl, sym, ap₂, add64, ◌∙◌, true, false, Bool-cases, inl, inr, Option,
  none, some, List, [], ◌∷◌, ◌++◌, length, if◌then◌else◌, ◌==◌, ltb, arith, replicate,
}
use polymarket_trade_engine.Ring.{
  Ring, ring_next, is_full, drop, write_slot, publish, push, pop, peek,
}
use polymarket_trade_engine.Ring.Threads.{Producer, System, Turn, produce, step, run}
use polymarket_trade_engine.Ring.Contents.{
  next, span, IsRing, contents, contents-write, contents-publish, contents-release, contents-drop,
  contents-empty, length-contents-span, ring_next-next,
}

full_iff :
    (n t h : ℕ) → t < n → h < n → (next n h == t) ≡ (if ltb (span n t h + 1) n then false else true)
full_iff n t h p q = ground arith

eq_of_== : (a b : ℕ) → (a == b) ≡ true → a ≡ b
eq_of_== a b h = ground arith

ne_of_== : (a b : ℕ) → (a == b) ≡ false → a ≢ b
ne_of_== a b h e = ground arith

module _ {A : Type 0} where
  is_full_iff :
      (r : Ring A)
      → IsRing r
      → is_full r r.head r.tail ≡ (if ltb (length (contents r) + 1) r.capacity then false else true)
  unfolding is_full
  is_full_iff r v =
      rw (ring_next-next r r.head v v.head, length-contents-span r)
        (full_iff r.capacity r.tail r.head v.tail v.head)

  write-IsRing : (r : Ring A) (x : A) → IsRing r → IsRing (write_slot r r.head x)
  write-IsRing r x v = record { head = v.head; tail = v.tail; bound = v.bound }

  published :
      (r : Ring A) (x : A)
      → IsRing r
      → is_full r r.head r.tail ≡ false
      → contents (publish (write_slot r r.head x) r.head) ≡ contents r ++ x ∷ []
  unfolding is_full ring_next
  published r x v f =
      contents-publish (write_slot r r.head x) (write-IsRing r x v) (ne_of_== _ _ f)
      ∙ ap₂ (λ (xs : List A) (y : A). xs ++ y ∷ []) (contents-write r x v) (ground arith)

  -- What a pop makes of the contents.
  abbrev pub IsPopped : List A → List A → Option A → Type 0
  IsPopped before after none = (before ≡ []) × (after ≡ [])
  IsPopped before after (some x) = before ≡ x ∷ after

  push_lem :
      (r : Ring A) (x : A)
      → IsRing r
      → let (r', done) = push r x in
        (done ≡ ltb (length (contents r) + 1) r.capacity)
        × (contents r' ≡ (if done then contents r ++ x ∷ [] else contents r))
        × (r'.dropped ≡ (if done then r.dropped else add64 r.dropped 1))
  unfolding push
  push_lem r x v =
      let iff = is_full_iff r v in
      elim (Bool-cases (is_full r r.head r.tail)) [
        | inl f ↦ rw (push, f) (ground (arith, iff, f), contents-drop r, refl)
        | inr f ↦ rw (push, f) (ground (arith, iff, f), published r x v f, refl)
      ]

  pop_lem :
      (r : Ring A)
      → IsRing r
      → IsPopped (contents r) (contents (pop r).0) (pop r).1 × ((pop r).1 ≡ peek r)
  unfolding pop peek
  pop_lem r v = elim (Bool-cases (r.tail == r.head)) [
    | inl e ↦
        let empty = contents-empty r (sym (eq_of_== r.tail r.head e)) in
        rw (pop, peek, e) ((empty, empty), refl)
    | inr e ↦ rw (pop, peek, e) (contents-release r v (ne_of_== r.tail r.head e), refl)
  ]

  -- On the queue of the slots between the tail and the head a push puts its value last, or is refused
  -- and counted, refused exactly where one slot fewer than the capacity is in use; a pop takes the first
  -- value, which a peek only reads, and gives nothing exactly from an empty queue.
  pub push_pop_lem :
      (r : Ring A) (x : A)
      → IsRing r
      → let (r', done) = push r x in
        (done ≡ ltb (length (contents r) + 1) r.capacity)
        × (contents r' ≡ (if done then contents r ++ x ∷ [] else contents r))
        × (r'.dropped ≡ (if done then r.dropped else add64 r.dropped 1))
        × IsPopped (contents r) (contents (pop r).0) (pop r).1
        × ((pop r).1 ≡ peek r)
  push_pop_lem r x v = let a = push_lem r x v in let b = pop_lem r v in (a.0, a.1, a.2, b.0, b.1)

  begins :
      (s : System A) (x : A)
      → s.producer ≡ Producer.idle
      → produce x s.producer s ≡ record s { producer = Producer.loaded x s.ring.head }
  unfolding produce
  begins s x e = rw (e, produce) refl

  room_step :
      (s : System A) (x y : A) (h : ℕ)
      → is_full s.ring h s.ring.tail ≡ false
      → produce y (Producer.loaded x h) s ≡ record s { producer = Producer.reserved x h }
  unfolding produce
  room_step s x y h f = rw (produce, f) refl

  full_step :
      (s : System A) (x y : A) (h : ℕ)
      → is_full s.ring h s.ring.tail ≡ true
      → produce y (Producer.loaded x h) s
        ≡ record s { producer = Producer.idle; ring = drop s.ring }
  unfolding produce
  full_step s x y h f = rw (produce, f) refl

  -- Uninterrupted, four steps of the producer are a push that finds room, and two are one that does not.
  pub run-push :
      (s : System A) (x : A)
      → s.producer ≡ Producer.idle
      → let full = is_full s.ring s.ring.head s.ring.tail in
        let s' = run s (replicate (if full then 2 else 4) (Turn.produces x)) in
        (s'.ring ≡ (push s.ring x).0) × (s'.producer ≡ Producer.idle)
  unfolding run step push produce
  run-push s x e =
      let h = s.ring.head in
      let first = record s { producer = Producer.loaded x h } in
      let begun = begins s x e in
      elim (Bool-cases (is_full s.ring h s.ring.tail)) [
        | inl f ↦ rw (f, run, step, begun, full_step first x x h f, push) (refl, refl)
        | inr f ↦ rw (f, run, step, begun, room_step first x x h f, push, produce) (refl, refl)
      ]
