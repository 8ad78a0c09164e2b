-- ===== src/Ring.antt =====
-- src/util/pt_ring.c and include/util/pt_ring.h: the ring of events between one producer and one
-- consumer. What one slot holds is a value of `A`, which memcpy copies whole; the slots are a function
-- of their index, with what malloc left in them. The ring is never NULL.
pub mod Threads
pub mod Contents
pub mod Fifo
pub mod Queue
mod Tests
use polymarket_trade_engine.Prelude.{
  ℕ, ◌+◌, ◌%◌, ◌^◌, Bool, true, false, ◌||◌, Option, none, some, if◌then◌else◌, ◌==◌, add64, sub64,
}

-- `pt_ring_t`
pub record Ring (A : Type 0) : Type 0 where
  pub slot_size : ℕ
  pub capacity : ℕ
  pub buf : ℕ → A
  pub head : ℕ
  pub tail : ℕ
  pub dropped : ℕ

module _ {A : Type 0} where
  -- `none` is the result -1; `mem` is what malloc returns.
  pub init : ℕ → ℕ → Option (ℕ → A) → Option (Ring A)
  init slot_size capacity_pow2 mem =
      if slot_size == 0 || capacity_pow2 == 0 then none else elim mem [
        | none ↦ none
        | some buf ↦ some (record {
          slot_size = slot_size;
          capacity = 2 ^ capacity_pow2;
          buf = buf;
          head = 0;
          tail = 0;
          dropped = 0;
        })
      ]

  -- The mask `& (capacity - 1)` of a power of two is the remainder.
  pub ring_next : Ring A → ℕ → ℕ
  ring_next r idx = add64 idx 1 % r.capacity

  -- The steps of a push behind its two loads: the overflow is counted, or the slot is written and then
  -- the new head stored.
  pub is_full : Ring A → ℕ → ℕ → Bool
  is_full r head tail = ring_next r head == tail

  abbrev pub drop : Ring A → Ring A
  drop r = record r { dropped = add64 r.dropped 1 }

  abbrev pub write_slot : Ring A → ℕ → A → Ring A
  write_slot r head x = record r { buf = λ i. if i == head then x else r.buf i }

  abbrev pub publish : Ring A → ℕ → Ring A
  publish r head = record r { head = ring_next r head }

  pub push : Ring A → A → Ring A × Bool
  push r x =
      if is_full r r.head r.tail
      then (drop r, false)
      else (publish (write_slot r r.head x) r.head, true)

  abbrev pub release : Ring A → ℕ → Ring A
  release r tail = record r { tail = ring_next r tail }

  -- `none` is the result 0; with a destination that is NULL the value is not copied.
  pub pop : Ring A → Ring A × Option A
  pop r = if r.tail == r.head then (r, none) else (release r r.tail, some (r.buf r.tail))

  pub peek : Ring A → Option A
  peek r = if r.tail == r.head then none else some (r.buf r.tail)

  pub len : Ring A → ℕ
  len r = sub64 r.head r.tail % r.capacity

  pub free : Ring A → ℕ
  free r = sub64 (sub64 r.capacity 1) (len r)
