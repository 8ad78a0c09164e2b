-- ===== src/Ring/Contents.antt =====
-- What the ring holds: the slots from its tail up to its head.
use polymarket_trade_engine.Prelude.{
  ℕ, zero, suc, ◌+◌, ◌-◌, ◌%◌, ◌^◌, ◌<◌, ◌≤◌, ◌≡◌, ◌≢◌, refl, sym, ap, ap₂, ◌∙◌, List, [], ◌∷◌,
  ◌++◌, length, if◌then◌else◌, ◌==◌, leb, ltb, add64, arith,
}
use polymarket_trade_engine.Winbuf.Recent.{mod_wrap}
use polymarket_trade_engine.Ring.{Ring, ring_next, drop, write_slot, publish, release}

-- The index behind `i` in a ring of `n` slots.
abbrev pub next : ℕ → ℕ → ℕ
next n i = if (i + 1) == n then 0 else i + 1

-- How many slots lie from `t` up to `h`.
abbrev pub span : ℕ → ℕ → ℕ → ℕ
span n t h = if leb t h then h - t else h + n - t

no_wrap : (i : ℕ) → i < 2 ^ 63 → add64 i 1 ≡ i + 1
no_wrap i h = omega arith

wrapped : (n i : ℕ) → i < n → (if ltb (i + 1) n then i + 1 else i + 1 - n) ≡ next n i
wrapped n i h = ground arith

pub next-lt : (n i : ℕ) → i < n → next n i < n
next-lt n i h = ground arith

span-zero : (n t h : ℕ) → t < n → h < n → span n t h ≡ 0 → t ≡ h
span-zero n t h p q e = ground arith

pub span-next : (n t h k : ℕ) → t < n → h < n → span n t h ≡ suc k → span n (next n t) h ≡ k
span-next n t h k p q e = ground arith

pub span-shrinks : (n t h : ℕ) → t < n → h < n → t ≢ h → suc (span n (next n t) h) ≡ span n t h
span-shrinks n t h p q e = ground arith

pub span-grows : (n t h : ℕ) → t < n → h < n → next n h ≢ t → span n t (next n h) ≡ suc (span n t h)
span-grows n t h p q e = ground arith

module _ {A : Type 0} where
  pub read : (ℕ → A) → ℕ → ℕ → ℕ → List A
  read f n t zero = []
  read f n t (suc k) = f t ∷ read f n (next n t) k

  pub contents : Ring A → List A
  contents r = read r.buf r.capacity r.tail (span r.capacity r.tail r.head)

  -- The head and the tail are slots, of at most 2 ^ 63.
  pub record IsRing (r : Ring A) : Type 0 where
    pub head : r.head < r.capacity
    pub tail : r.tail < r.capacity
    pub bound : r.capacity ≤ 2 ^ 63

  pub ring_next-next :
      (r : Ring A) (i : ℕ) → IsRing r → i < r.capacity → ring_next r i ≡ next r.capacity i
  unfolding ring_next
  ring_next-next r i v h =
      ap (λ k. k % r.capacity) (no_wrap i (omega (arith, v.bound)))
      ∙ mod_wrap (i + 1) r.capacity (omega arith) (omega arith)
      ∙ wrapped r.capacity i h

  -- The slot behind the last one read comes last.
  pub read_last :
      (f : ℕ → A) (n t h k : ℕ)
      → t < n
      → h < n
      → span n t h ≡ k
      → read f n t (suc k) ≡ read f n t k ++ f h ∷ []
  unfolding read
  read_last f n t h zero p q e = ap (λ i. f i ∷ []) (span-zero n t h p q e)
  read_last f n t h (suc k) p q e =
      ap (◌∷◌ (f t)) (read_last f n (next n t) h k (next-lt n t p) q (span-next n t h k p q e))

  -- A write at the end of what is read changes nothing of it.
  pub read_write :
      (f : ℕ → A) (n t h k : ℕ) (x : A)
      → t < n
      → h < n
      → span n t h ≡ k
      → read (λ i. if i == h then x else f i) n t k ≡ read f n t k
  unfolding read
  read_write f n t h zero x p q e = refl
  read_write f n t h (suc k) x p q e =
      ap₂ ◌∷◌ (ground arith)
        (read_write f n (next n t) h k x (next-lt n t p) q (span-next n t h k p q e))

  read_first : (f : ℕ → A) (n t k : ℕ) → read f n t (suc k) ≡ f t ∷ read f n (next n t) k
  unfolding read
  read_first f n t k = refl

  pub contents-write :
      (r : Ring A) (x : A) → IsRing r → contents (write_slot r r.head x) ≡ contents r
  unfolding contents
  contents-write r x v = read_write r.buf r.capacity r.tail r.head _ x v.tail v.head refl

  -- The new head takes the slot written at the old one into the contents.
  pub contents-publish :
      (r : Ring A)
      → IsRing r
      → ring_next r r.head ≢ r.tail
      → contents (publish r r.head) ≡ contents r ++ r.buf r.head ∷ []
  unfolding contents
  contents-publish r v room =
      let n = r.capacity in
      let e = ring_next-next r r.head v v.head in
      rw (e, span-grows n r.tail r.head v.tail v.head (λ q. room (e ∙ q)))
        (read_last r.buf n r.tail r.head (span n r.tail r.head) v.tail v.head refl)

  -- The new tail takes its old slot off the front.
  pub contents-release :
      (r : Ring A)
      → IsRing r
      → r.tail ≢ r.head
      → contents r ≡ r.buf r.tail ∷ contents (release r r.tail)
  unfolding contents
  contents-release r v some_left =
      let n = r.capacity in
      let e = ring_next-next r r.tail v v.tail in
      rw (e, sym (span-shrinks n r.tail r.head v.tail v.head some_left))
        (read_first r.buf n r.tail _)

  pub contents-drop : (r : Ring A) → contents (drop r) ≡ contents r
  unfolding contents
  contents-drop r = refl

  contents_at : (f : ℕ → A) (n t k : ℕ) → k ≡ 0 → read f n t k ≡ []
  unfolding read
  contents_at f n t zero e = refl
  contents_at f n t (suc k) e = absurd (omega arith)

  pub contents-empty : (r : Ring A) → r.head ≡ r.tail → contents r ≡ []
  unfolding contents
  contents-empty r e = contents_at r.buf r.capacity r.tail _ (ground (arith, e))

  length-read : (f : ℕ → A) (n t k : ℕ) → length (read f n t k) ≡ k
  unfolding read
  length-read f n t zero = refl
  length-read f n t (suc k) = ap suc (length-read f n (next n t) k)

  pub length-contents : (r : Ring A) → IsRing r → length (contents r) < r.capacity
  unfolding contents
  length-contents r v =
      rw (length-read r.buf r.capacity r.tail (span r.capacity r.tail r.head))
        (ground (arith, v.head, v.tail))

  pub length-contents-span : (r : Ring A) → length (contents r) ≡ span r.capacity r.tail r.head
  unfolding contents
  length-contents-span r = length-read r.buf r.capacity r.tail (span r.capacity r.tail r.head)
