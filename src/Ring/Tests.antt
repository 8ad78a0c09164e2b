-- ===== src/Ring/Tests.antt =====
-- A ring of four slots, and the theorems there.
use polymarket_trade_engine.Prelude.{
  ℕ, ◌+◌, ◌<◌, ◌≡◌, refl, some, List, [], ◌∷◌, ◌++◌, length, if◌then◌else◌, add64, arith, ltb,
}
use polymarket_trade_engine.Ring.{Ring, init, push, pop, peek, is_full, ring_next}
use polymarket_trade_engine.Ring.Threads.{Turn, produce, consume, step, run, begin}
use polymarket_trade_engine.Ring.Contents.{IsRing, contents}
use polymarket_trade_engine.Ring.Fifo.{run_fifo}
use polymarket_trade_engine.Ring.Queue.{push_pop_lem, IsPopped}

-- It was used before: the head and the tail stand at slot 3.
abbrev ring : Ring ℕ
ring = record { slot_size = 8; capacity = 4; buf = λ i. 0; head = 3; tail = 3; dropped = 0 }

ring-IsRing : IsRing ring
ring-IsRing = record { head = omega arith; tail = omega arith; bound = omega arith }

starts : init 8 2 (some (λ i. 0)) ≡ some (record ring { head = 0; tail = 0 })
unfolding init
starts = refl

takes_first : (pop (push (push ring 7).0 9).0).1 ≡ some 7
unfolding push pop is_full ring_next
takes_first = refl

-- The consumer looks while the producer is between its check and its write.
abbrev turns : List (Turn ℕ)
turns =
    Turn.produces 7
    ∷ Turn.produces 7
    ∷ Turn.consumes
    ∷ Turn.consumes
    ∷ Turn.produces 7
    ∷ Turn.produces 7
    ∷ Turn.consumes
    ∷ Turn.consumes
    ∷ Turn.consumes
    ∷ Turn.consumes
    ∷ []

hands_over : (run (begin ring) turns).popped ≡ 7 ∷ []
unfolding run step produce consume is_full ring_next
hands_over = refl

run_fifo_example :
    let s = run (begin ring) turns in
    (s.pushed ≡ s.popped ++ contents s.ring) × (length (contents s.ring) < s.ring.capacity)
run_fifo_example = run_fifo ring turns ring-IsRing refl

push_pop_lem_example :
    let (r', done) = push ring 7 in
    (done ≡ ltb (length (contents ring) + 1) 4)
    × (contents r' ≡ (if done then contents ring ++ 7 ∷ [] else contents ring))
    × (r'.dropped ≡ (if done then 0 else add64 0 1))
    × IsPopped (contents ring) (contents (pop ring).0) (pop ring).1
    × ((pop ring).1 ≡ peek ring)
push_pop_lem_example = push_pop_lem ring 7 ring-IsRing
