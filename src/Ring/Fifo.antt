-- ===== src/Ring/Fifo.antt =====
-- However the two threads interleave, the ring hands the values over in their order, each once.
use polymarket_trade_engine.Prelude.{
  ℕ, ◌<◌, ◌≡◌, ◌≢◌, refl, sym, ap, ◌∙◌, false, Bool-cases, inl, inr, List, [], ◌∷◌, ◌++◌, length,
  if◌then◌else◌, ◌==◌, arith,
}
use mathlib.Core.List.{append_assoc}
use polymarket_trade_engine.Ring.{Ring, ring_next, is_full, publish, release}
use polymarket_trade_engine.Ring.Threads.{
  Producer, Consumer, System, Turn, produce, consume, step, run, begin,
}
use polymarket_trade_engine.Ring.Contents.{
  next, next-lt, IsRing, contents, contents-write, contents-publish, contents-release,
  contents-drop, contents-empty, length-contents, ring_next-next,
}

next_apart : (n i j : ℕ) → i < n → j < n → i ≢ j → next n j ≢ next n i
next_apart n i j p q e f = e (ground arith)

module _ {A : Type 0} where
  -- What the producer knows: its head is the ring's, and from its check on there is room.
  abbrev pub AtProducer : (ℕ → A) → ℕ → ℕ → ℕ → Producer A → Type 0
  AtProducer buf after head tail Producer.idle = Unit
  AtProducer buf after head tail (Producer.loaded x h) = h ≡ head
  AtProducer buf after head tail (Producer.reserved x h) = (h ≡ head) × (after ≢ tail)
  AtProducer buf after head tail (Producer.written x h) =
      (h ≡ head) × (after ≢ tail) × (buf head ≡ x)

  -- What the consumer knows: its tail is the ring's, and from its check on there is something.
  abbrev pub AtConsumer : (ℕ → A) → ℕ → ℕ → Consumer A → Type 0
  AtConsumer buf head tail Consumer.idle = Unit
  AtConsumer buf head tail (Consumer.loaded t) = t ≡ tail
  AtConsumer buf head tail (Consumer.ready t) = (t ≡ tail) × (tail ≢ head)
  AtConsumer buf head tail (Consumer.copied t v) = (t ≡ tail) × (tail ≢ head) × (buf tail ≡ v)

  pub record IsSystem (s : System A) : Type 0 where
    pub ring : IsRing s.ring
    pub order : s.pushed ≡ s.popped ++ contents s.ring
    pub producer :
        AtProducer s.ring.buf (next s.ring.capacity s.ring.head) s.ring.head s.ring.tail s.producer
    pub consumer : AtConsumer s.ring.buf s.ring.head s.ring.tail s.consumer

  consumer-write :
      (buf : ℕ → A) (head tail : ℕ) (x : A) (c : Consumer A)
      → AtConsumer buf head tail c
      → AtConsumer (λ i. if i == head then x else buf i) head tail c
  consumer-write buf head tail x Consumer.idle k = tt
  consumer-write buf head tail x (Consumer.loaded t) k = k
  consumer-write buf head tail x (Consumer.ready t) k = k
  consumer-write buf head tail x (Consumer.copied t v) k = (k.0, k.1, ground (arith, k.1, k.2))

  consumer-publish :
      (buf : ℕ → A) (head after tail : ℕ) (c : Consumer A)
      → after ≢ tail
      → AtConsumer buf head tail c
      → AtConsumer buf after tail c
  consumer-publish buf head after tail Consumer.idle e k = tt
  consumer-publish buf head after tail (Consumer.loaded t) e k = k
  consumer-publish buf head after tail (Consumer.ready t) e k = (k.0, λ q. e (sym q))
  consumer-publish buf head after tail (Consumer.copied t v) e k = (k.0, λ q. e (sym q), k.2)

  producer-release :
      (buf : ℕ → A) (n head tail : ℕ) (p : Producer A)
      → head < n
      → tail < n
      → tail ≢ head
      → AtProducer buf (next n head) head tail p
      → AtProducer buf (next n head) head (next n tail) p
  producer-release buf n head tail Producer.idle h t e k = tt
  producer-release buf n head tail (Producer.loaded x i) h t e k = k
  producer-release buf n head tail (Producer.reserved x i) h t e k =
      (k.0, next_apart n tail head t h e)
  producer-release buf n head tail (Producer.written x i) h t e k =
      (k.0, next_apart n tail head t h e, k.2)

  publish-IsRing : (r : Ring A) → IsRing r → IsRing (publish r r.head)
  publish-IsRing r v = record {
    head = rw (ring_next-next r r.head v v.head) (next-lt r.capacity r.head v.head);
    tail = v.tail;
    bound = v.bound;
  }

  release-IsRing : (r : Ring A) → IsRing r → IsRing (release r r.tail)
  release-IsRing r v = record {
    head = v.head;
    tail = rw (ring_next-next r r.tail v v.tail) (next-lt r.capacity r.tail v.tail);
    bound = v.bound;
  }

  pushed_behind :
      (pushed popped items : List A) (x y : A)
      → pushed ≡ popped ++ items
      → y ≡ x
      → pushed ++ x ∷ [] ≡ popped ++ (items ++ y ∷ [])
  pushed_behind pushed popped items x y e f = rw (e, f) (append_assoc popped items (x ∷ []))

  popped_front :
      (pushed popped items : List A) (v y : A)
      → pushed ≡ popped ++ y ∷ items
      → y ≡ v
      → pushed ≡ (popped ++ v ∷ []) ++ items
  popped_front pushed popped items v y e f =
      e ∙ ap (λ z. popped ++ z ∷ items) f ∙ sym (append_assoc popped (v ∷ []) items)

  checked :
      (s : System A) (h : ℕ)
      → IsRing s.ring
      → h ≡ s.ring.head
      → is_full s.ring h s.ring.tail ≡ false
      → next s.ring.capacity s.ring.head ≢ s.ring.tail
  unfolding is_full
  checked s h v e f q =
      let after = ring_next-next s.ring s.ring.head v v.head in ground (arith, e, f, q, after)

  loaded-IsSystem :
      (s : System A) (x : A) (h : ℕ)
      → h ≡ s.ring.head
      → IsSystem s
      → IsSystem (produce x (Producer.loaded x h) s)
  unfolding produce
  loaded-IsSystem s x h e v = elim (Bool-cases (is_full s.ring h s.ring.tail)) [
    | inl f ↦
        rw (produce, f)
          (record {
            ring = record { head = v.ring.head; tail = v.ring.tail; bound = v.ring.bound };
            order = rw (contents-drop s.ring) v.order;
            producer = tt;
            consumer = v.consumer;
          })
    | inr f ↦
        rw (produce, f)
          (record {
            ring = v.ring;
            order = v.order;
            producer = (e, checked s h v.ring e f);
            consumer = v.consumer;
          })
  ]

  reserved-IsSystem :
      (s : System A) (y x : A) (h : ℕ)
      → (h ≡ s.ring.head) × (next s.ring.capacity s.ring.head ≢ s.ring.tail)
      → IsSystem s
      → IsSystem (produce y (Producer.reserved x h) s)
  unfolding produce
  reserved-IsSystem s y x h k v =
      rw (produce, k.0)
        (record {
          ring = record { head = v.ring.head; tail = v.ring.tail; bound = v.ring.bound };
          order = rw (contents-write s.ring x v.ring) v.order;
          producer = (refl, k.1, ground arith);
          consumer = consumer-write s.ring.buf s.ring.head s.ring.tail x s.consumer v.consumer;
        })

  written-IsSystem :
      (s : System A) (y x : A) (h : ℕ)
      → (h ≡ s.ring.head)
        × (next s.ring.capacity s.ring.head ≢ s.ring.tail)
        × (s.ring.buf s.ring.head ≡ x)
      → IsSystem s
      → IsSystem (produce y (Producer.written x h) s)
  unfolding produce
  written-IsSystem s y x h k v =
      let r = s.ring in
      let after = ring_next-next r r.head v.ring v.ring.head in
      let room = λ (q : ring_next r r.head ≡ r.tail). k.1 (sym after ∙ q) in
      rw (produce, k.0)
        (record {
          ring = publish-IsRing r v.ring;
          order =
              rw (contents-publish r v.ring room)
                (pushed_behind s.pushed s.popped (contents r) x (r.buf r.head) v.order k.2);
          producer = tt;
          consumer =
              consumer-publish r.buf r.head (ring_next r r.head) r.tail s.consumer room v.consumer;
        })

  produce-IsSystem :
      (y : A) (p : Producer A) (s : System A)
      → AtProducer s.ring.buf (next s.ring.capacity s.ring.head) s.ring.head s.ring.tail p
      → IsSystem s
      → IsSystem (produce y p s)
  unfolding produce
  produce-IsSystem y Producer.idle s k v = record {
    ring = v.ring;
    order = v.order;
    producer = refl;
    consumer = v.consumer;
  }
  produce-IsSystem y (Producer.loaded x h) s k v = loaded-IsSystem s x h k v
  produce-IsSystem y (Producer.reserved x h) s k v = reserved-IsSystem s y x h k v
  produce-IsSystem y (Producer.written x h) s k v = written-IsSystem s y x h k v

  copied-IsSystem :
      (s : System A) (t : ℕ) (x : A)
      → (t ≡ s.ring.tail) × (s.ring.tail ≢ s.ring.head) × (s.ring.buf s.ring.tail ≡ x)
      → IsSystem s
      → IsSystem (consume (Consumer.copied t x) s)
  unfolding consume
  copied-IsSystem s t x k v =
      let r = s.ring in
      let after = ring_next-next r r.tail v.ring v.ring.tail in
      let front = v.order ∙ ap (λ z. s.popped ++ z) (contents-release r v.ring k.1) in
      rw (consume, k.0)
        (record {
          ring = release-IsRing r v.ring;
          order =
              popped_front s.pushed s.popped (contents (release r r.tail)) x (r.buf r.tail) front
                k.2;
          producer = rw after (
              producer-release r.buf r.capacity r.head r.tail s.producer v.ring.head v.ring.tail k.1
                v.producer);
          consumer = tt;
        })

  consume-IsSystem :
      (c : Consumer A) (s : System A)
      → AtConsumer s.ring.buf s.ring.head s.ring.tail c
      → IsSystem s
      → IsSystem (consume c s)
  unfolding consume
  consume-IsSystem Consumer.idle s k v = record {
    ring = v.ring;
    order = v.order;
    producer = v.producer;
    consumer = refl;
  }
  consume-IsSystem (Consumer.loaded t) s k v = elim (Bool-cases (t == s.ring.head)) [
    | inl e ↦
        rw (consume, e)
          (record { ring = v.ring; order = v.order; producer = v.producer; consumer = tt })
    | inr e ↦
        rw (consume, e)
          (record {
            ring = v.ring;
            order = v.order;
            producer = v.producer;
            consumer = (k, ground (arith, k, e));
          })
  ]
  consume-IsSystem (Consumer.ready t) s k v = record {
    ring = v.ring;
    order = v.order;
    producer = v.producer;
    consumer = (k.0, k.1, ap s.ring.buf (sym k.0));
  }
  consume-IsSystem (Consumer.copied t x) s k v = copied-IsSystem s t x k v

  step-IsSystem : (s : System A) (t : Turn A) → IsSystem s → IsSystem (step s t)
  unfolding step
  step-IsSystem s (Turn.produces x) v = produce-IsSystem x s.producer s v.producer v
  step-IsSystem s Turn.consumes v = consume-IsSystem s.consumer s v.consumer v

  run-IsSystem : (s : System A) (ts : List (Turn A)) → IsSystem s → IsSystem (run s ts)
  unfolding run
  run-IsSystem s [] v = v
  run-IsSystem s (t ∷ ts) v = run-IsSystem (step s t) ts (step-IsSystem s t v)

  begin-IsSystem : (r : Ring A) → IsRing r → r.head ≡ r.tail → IsSystem (begin r)
  begin-IsSystem r v e = record {
    ring = v;
    order = sym (contents-empty r e);
    producer = tt;
    consumer = tt;
  }

  -- However the steps of one producer and one consumer interleave, starting from an empty ring, the
  -- values popped are the first of those pushed, in their order, each once and unchanged, and the slots
  -- from the tail up to the head hold the rest, fewer than the capacity.
  pub run_fifo :
      (r : Ring A) (ts : List (Turn A))
      → IsRing r
      → r.head ≡ r.tail
      → let s = run (begin r) ts in
        (s.pushed ≡ s.popped ++ contents s.ring) × (length (contents s.ring) < s.ring.capacity)
  run_fifo r ts v e =
      let w = run-IsSystem (begin r) ts (begin-IsSystem r v e) in
      (w.order, length-contents (run (begin r) ts).ring w.ring)
