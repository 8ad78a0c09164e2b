-- ===== src/Ring/Threads.antt =====
-- The producer and the consumer as threads that interleave: each atomic load or store of the head and
-- the tail, and each copy of a slot, is a step. The steps are those of `push` and `pop`; the order of
-- memory is the sequential one.
use polymarket_trade_engine.Prelude.{ℕ, List, [], ◌∷◌, ◌++◌, if◌then◌else◌, ◌==◌}
use polymarket_trade_engine.Ring.{Ring, is_full, drop, write_slot, publish, release}

-- Where the producer is in `push`, with the value and the head that it loaded.
pub data Producer (A : Type 0) : Type 0 where
  idle : Producer A
  loaded reserved written : A → ℕ → Producer A

-- Where the consumer is in `pop`, with the tail that it loaded, and the value that it copied.
pub data Consumer (A : Type 0) : Type 0 where
  idle : Consumer A
  loaded ready : ℕ → Consumer A
  copied : ℕ → A → Consumer A

-- The ring, both threads, and the values whose push or pop has been completed, in their order.
pub record System (A : Type 0) : Type 0 where
  pub ring : Ring A
  pub producer : Producer A
  pub consumer : Consumer A
  pub pushed : List A
  pub popped : List A

-- The next step is the producer's, with the value of the push that it may begin, or the consumer's.
pub data Turn (A : Type 0) : Type 0 where
  produces : A → Turn A
  consumes : Turn A

module _ {A : Type 0} where
  unfoldable pub produce : A → Producer A → System A → System A
  produce x Producer.idle s = record s { producer = Producer.loaded x s.ring.head }
  produce y (Producer.loaded x head) s =
      if is_full s.ring head s.ring.tail
      then record s { producer = Producer.idle; ring = drop s.ring }
      else record s { producer = Producer.reserved x head }
  produce y (Producer.reserved x head) s = record s {
    producer = Producer.written x head;
    ring = write_slot s.ring head x;
  }
  produce y (Producer.written x head) s = record s {
    producer = Producer.idle;
    ring = publish s.ring head;
    pushed = s.pushed ++ x ∷ [];
  }

  unfoldable pub consume : Consumer A → System A → System A
  consume Consumer.idle s = record s { consumer = Consumer.loaded s.ring.tail }
  consume (Consumer.loaded tail) s =
      if tail == s.ring.head
      then record s { consumer = Consumer.idle }
      else record s { consumer = Consumer.ready tail }
  consume (Consumer.ready tail) s = record s { consumer = Consumer.copied tail (s.ring.buf tail) }
  consume (Consumer.copied tail v) s = record s {
    consumer = Consumer.idle;
    ring = release s.ring tail;
    popped = s.popped ++ v ∷ [];
  }

  unfoldable pub step : System A → Turn A → System A
  step s (Turn.produces x) = produce x s.producer s
  step s Turn.consumes = consume s.consumer s

  unfoldable pub run : System A → List (Turn A) → System A
  run s [] = s
  run s (t ∷ ts) = run (step s t) ts

  abbrev pub begin : Ring A → System A
  begin r = record {
    ring = r;
    producer = Producer.idle;
    consumer = Consumer.idle;
    pushed = [];
    popped = [];
  }
