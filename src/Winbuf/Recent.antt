-- ===== src/Winbuf/Recent.antt =====
-- What the buffer holds, newest sample first, by the place where each sample was written; the
-- invariant of the buffer.
use polymarket_trade_engine.Prelude.{
  ℕ, zero, suc, ◌+◌, ◌-◌, ◌*◌, ◌/◌, ◌%◌, ◌^◌, ◌<◌, ◌≤◌, ◌≡◌, ◌∙◌, ◌⊎◌, refl, ap, ap₂, List, [], ◌∷◌,
  if◌then◌else◌, ltb, take, length, min, add64, sub64, arith,
}
use polymarket_trade_engine.Double.{Double}
use polymarket_trade_engine.Winbuf.{Sample, Winbuf, sample_at, slot_before}

-- The sample written `k` writes before the newest stands `k + 1` slots before `head`, cyclically.
unfoldable pub written_before : ℕ → ℕ → ℕ → ℕ
written_before cap head k = if ltb k head then head - 1 - k else head + cap - 1 - k

-- The slots are there, and `head` runs through them; until the buffer is full nothing was overwritten.
pub record IsBuffer {F : Type 0} (w : Winbuf F) : Type 0 where
  pub length_eq : length w.samples ≡ w.cap
  pub cap_bound : w.cap < 2 ^ 62
  pub head-lt : w.head < w.cap
  pub count-le : w.count ≤ w.cap
  pub filling : (w.count ≡ w.cap) ⊎ (w.head ≡ w.count)

pub mod_wrap : (a c : ℕ) → 0 < c → a < c + c → a % c ≡ (if ltb a c then a else a - c)
mod_wrap a c h h' = by_quotient (a / c) refl
  where
    by_quotient : (q : ℕ) → a / c ≡ q → a % c ≡ (if ltb a c then a else a - c)
    by_quotient zero e = ground arith
    by_quotient (suc zero) e = ground arith
    by_quotient (suc (suc q)) e = omega (arith, ap (λ x. c * x) e)

word_index : (h n k : ℕ) → h + n < 2 ^ 63 → k < n → sub64 (sub64 (add64 h n) 1) k ≡ h + n - 1 - k
word_index h n k p q = omega arith

module _ {A : Type 0} where
  -- The entries from number `k` on, `n` of them.
  abbrev pub entries : (ℕ → A) → ℕ → ℕ → List A
  entries f k zero = []
  entries f k (suc n) = f k ∷ entries f (suc k) n

  pub entries_shift :
      (f g : ℕ → A) (k n : ℕ)
      → ((i : ℕ) → i < k + n → f (suc i) ≡ g i)
      → entries f (suc k) n ≡ entries g k n
  entries_shift f g k zero h = refl
  entries_shift f g k (suc n) h =
      ap₂ ◌∷◌ (h k (omega arith)) (entries_shift f g (suc k) n (λ i l. h i (omega arith)))

  pub entries_same :
      (f g : ℕ → A) (k n : ℕ)
      → ((i : ℕ) → k ≤ i → i < k + n → f i ≡ g i)
      → entries f k n ≡ entries g k n
  entries_same f g k zero h = refl
  entries_same f g k (suc n) h =
      ap₂ ◌∷◌ (h k (omega arith) (omega arith))
        (entries_same f g (suc k) n (λ i m l. h i (omega arith) (omega arith)))

  pub take-entries :
      (f : ℕ → A) (m k n p : ℕ) → p ≡ min m n → take m (entries f k n) ≡ entries f k p
  take-entries f zero k n zero e = refl
  take-entries f zero k n (suc p) e = absurd (omega arith)
  take-entries f (suc m) k zero zero e = refl
  take-entries f (suc m) k zero (suc p) e = absurd (omega arith)
  take-entries f (suc m) k (suc n) zero e = absurd (omega arith)
  take-entries f (suc m) k (suc n) (suc p) e =
      ap (λ xs. f k ∷ xs) (take-entries f m (suc k) n p (omega arith))

module _ {F : Type 0} ⦃d : Double F⦄ where
  -- The sample written `k` writes before the newest.
  unfoldable pub nth_recent : Winbuf F → ℕ → Sample F
  nth_recent w k = sample_at w (written_before w.cap w.head k)

  -- The samples that the buffer holds, newest first.
  unfoldable pub recent : Winbuf F → List (Sample F)
  recent w = entries (nth_recent w) 0 w.count

  index_unwrapped :
      (w : Winbuf F) (k : ℕ)
      → IsBuffer w
      → 0 < w.count
      → k < w.count
      → slot_before w k ≡ (w.head + w.count - 1 - k) % w.cap
  unfolding slot_before
  index_unwrapped w k i h h' = ap (λ x. x % w.cap) (word_index w.head w.count k (omega arith) h')

  -- In a full buffer the code reads the right slot.
  pub slot_before_full :
      (w : Winbuf F) (k : ℕ)
      → IsBuffer w
      → w.count ≡ w.cap
      → k < w.cap
      → slot_before w k ≡ written_before w.cap w.head k
  unfolding written_before
  slot_before_full w k i e h =
      index_unwrapped w k i (omega arith) (omega arith)
      ∙ ground (arith, mod_wrap (w.head + w.count - 1 - k) w.cap (omega arith) (omega arith))

  -- While the buffer is at most half full, it reads one that was never written.
  pub slot_before_filling :
      (w : Winbuf F) (k : ℕ)
      → IsBuffer w
      → k < w.count
      → 2 * w.count ≤ w.cap
      → slot_before w k ≡ 2 * w.count - 1 - k
  slot_before_filling w k i h h' =
      index_unwrapped w k i (omega arith) h
      ∙ ground (arith, mod_wrap (w.head + w.count - 1 - k) w.cap (omega arith) (omega arith))
