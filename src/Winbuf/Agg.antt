-- ===== src/Winbuf/Agg.antt =====
-- What `pt_winbuf_agg` reports of the samples held.
use polymarket_trade_engine.Prelude.{
  ℕ, zero, suc, ◌+◌, ◌-◌, ◌*◌, ◌<◌, ◌≤◌, ◌≡◌, ◌∙◌, refl, sym, ap, true, false, none, some, List, [],
  ◌∷◌, if◌then◌else◌, ltb, leb, ◌==◌, ◌&&◌, All, Bool-cases, arith, inl, inr,
}
use polymarket_trade_engine.Double.{Double}
use polymarket_trade_engine.Winbuf.{
  Sample, Winbuf, Winagg, agg, agg_loop, tally, no_samples, window_start, sample_at, slot_before,
}
use polymarket_trade_engine.Winbuf.Recent.{
  IsBuffer, recent, nth_recent, entries, slot_before_full, slot_before_filling,
}

module _ {F : Type 0} where
  -- From newest to oldest no time is later than the one before it.
  abbrev IsDescending : List (Sample F) → Type 0
  IsDescending [] = Unit
  IsDescending (s ∷ held) = All (λ o. o.t ≤ s.t) held × IsDescending held

  -- The samples with times after `lo` and up to `now`.
  abbrev pub within : ℕ → ℕ → List (Sample F) → List (Sample F)
  within lo now [] = []
  within lo now (s ∷ held) =
      let rest = within lo now held in if ltb lo s.t && leb s.t now then s ∷ rest else rest

  within_old :
      (lo now : ℕ) (held : List (Sample F)) (t : ℕ)
      → t ≤ lo
      → All (λ o. o.t ≤ t) held
      → within lo now held ≡ []
  within_old lo now [] t h q = refl
  within_old lo now (s ∷ held) t h q = ground (arith, within_old lo now held t h q.1)

module _ {F : Type 0} ⦃d : Double F⦄ where
  -- The running values over a list of samples, the newest first.
  abbrev pub tally_all : List (Sample F) → Winagg F → Winagg F
  tally_all [] a = a
  tally_all (s ∷ held) a = tally_all held (tally s a)

  -- The loop over the `n` samples from number `k` on, if it reads the right slots.
  loop_reads :
      (w : Winbuf F) (now lo k n : ℕ) (a : Winagg F)
      → ((i : ℕ) → k ≤ i → i < k + n → sample_at w (slot_before w i) ≡ nth_recent w i)
      → IsDescending (entries (nth_recent w) k n)
      → agg_loop w now lo k n a ≡ tally_all (within lo now (entries (nth_recent w) k n)) a
  unfolding agg_loop
  loop_reads w now lo k zero a h q = refl
  loop_reads w now lo k (suc n) a h q =
      let s = nth_recent w k in
      let older = entries (nth_recent w) (suc k) n in
      let below = λ (b : Winagg F).
        loop_reads w now lo (suc k) n b (λ i l m. h i (omega arith) (omega arith)) q.1 in
      rw (h k (omega arith) (omega arith)) (elim (Bool-cases (ltb now s.t)) [
        | inl e ↦
            let e' : (ltb lo s.t && leb s.t now) ≡ false = ground arith in rw (e, e') (below a)
        | inr e ↦ elim (Bool-cases (leb s.t lo)) [
          | inl f ↦
              let f' : (ltb lo s.t && leb s.t now) ≡ false = ground arith in
              rw (e, f, f')
                (sym (ap (λ xs. tally_all xs a) (within_old lo now older s.t (ground arith) q.0)))
          | inr f ↦
              let f' : (ltb lo s.t && leb s.t now) ≡ true = ground arith in
              rw (e, f, f') (below (tally s a))
        ]
      ])

  -- On a full buffer whose times do not rise from newest to oldest, the aggregate is over exactly the
  -- samples held with times after `now` - `dur` (or after 0, where `dur` is larger) and up to `now`.
  pub agg-full_lem :
      (w : Winbuf F) (now dur : ℕ)
      → IsBuffer w
      → w.count ≡ w.cap
      → IsDescending (recent w)
      → 0 < dur
      → let a = tally_all (within (window_start now dur) now (recent w)) no_samples in
        agg w now dur ≡ (if a.count == 0 then none else some a)
  unfolding agg recent nth_recent
  agg-full_lem w now dur i e q h =
      let lo = window_start now dur in
      let e' : (dur == 0) ≡ false = ground arith in
      rw
        (
          e',
          loop_reads w now lo 0 w.count no_samples
              (λ k l m. ap (sample_at w) (slot_before_full w k i e (omega (arith, e, m)))) q,
        )
        refl

  loop_stops :
      (w : Winbuf F) (now lo n : ℕ)
      → (0 < n → (sample_at w (slot_before w 0)).t ≡ 0)
      → agg_loop w now lo 0 n no_samples ≡ no_samples
  unfolding agg_loop
  loop_stops w now lo zero e = refl
  loop_stops w now lo (suc n) e =
      let z = e (omega arith) in
      let f : ltb now (sample_at w (slot_before w 0)).t ≡ false = ground arith in
      let g : leb (sample_at w (slot_before w 0)).t lo ≡ true = ground arith in rw (f, g) refl

  -- In zeroed memory, while the buffer is at most half full, the aggregate finds no sample: the loop
  -- starts at a slot that was never written.
  pub agg_blind :
      (w : Winbuf F) (now dur : ℕ)
      → IsBuffer w
      → 2 * w.count ≤ w.cap
      → (sample_at w (2 * w.count - 1)).t ≡ 0
      → agg w now dur ≡ none
  unfolding agg
  agg_blind w now dur i h e =
      rw
        (loop_stops w now (window_start now dur) w.count (λ p.
          ap (λ j. (sample_at w j).t) {y = 2 * w.count - 1}
            (omega (arith, slot_before_filling w 0 i p h))
          ∙ e))
        (ground arith)
