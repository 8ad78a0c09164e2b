-- ===== src/Winbuf/Add.antt =====
-- What `pt_winbuf_add` does to the samples held.
use polymarket_trade_engine.Prelude.{
  ℕ, suc, ◌-◌, ◌*◌, ◌<◌, ◌≤◌, ◌≡◌, ◌≢◌, ◌∙◌, ◌⊎◌, inl, inr, refl, sym, ap, ap₂, true, false, List,
  [], ◌∷◌, if◌then◌else◌, ltb, leb, ◌==◌, set, take, length-set, Bool-cases, arith, get_or-set_self,
  get_or-set_other,
}
use polymarket_trade_engine.Double.{Double, whole}
use polymarket_trade_engine.Winbuf.{
  Sample, Winbuf, append, add, add_after, sample_at, slot_before, no_earlier,
}
use polymarket_trade_engine.Winbuf.Recent.{
  IsBuffer, recent, nth_recent, entries, entries_same, written_before, slot_before_full,
  slot_before_filling,
}
use polymarket_trade_engine.Winbuf.Append.{append-IsBuffer, append-recent}

other_slots :
    (c h k : ℕ)
    → h < c
    → k < c
    → (written_before c h k < c) × (0 < k → written_before c h 0 ≢ written_before c h k)
unfolding written_before
other_slots c h k p q = (ground arith, λ r. ground arith)

filling_apart : (c h n k : ℕ) → h ≡ n → k < n → 2 * n ≤ c → 2 * n - 1 ≢ written_before c h k
unfolding written_before
filling_apart c h n k e p q = ground arith

module _ {F : Type 0} ⦃d : Double F⦄ where
  add_after_later :
      (w : Winbuf F) (latest t : ℕ) (v : F)
      → (sample_at w latest).t < t
      → add_after w latest t v ≡ append w t v
  unfolding add_after
  add_after_later w latest t v h = ground arith

  add_after_replaces :
      (w : Winbuf F) (latest t : ℕ) (v : F)
      → t ≤ (sample_at w latest).t
      → add_after w latest t v
        ≡ record w { samples = set w.samples latest (record { t = (sample_at w latest).t; v = v }) }
  unfolding add_after
  add_after_replaces w latest t v h = ground arith

  -- A sample whose time is later than that of the slot the code compares with is recorded in front of
  -- those held; a full buffer drops the oldest.
  add_later :
      (w : Winbuf F) (t : ℕ) (v : F)
      → IsBuffer w
      → (sample_at w (slot_before w 0)).t < t
      → recent (add w t v) ≡ take w.cap (record { t = t; v = v } ∷ recent w)
  unfolding add
  add_later w t v i h = elim (Bool-cases (ltb 0 w.count)) [
    | inl e ↦ rw (e, add_after_later w (slot_before w 0) t v h) (append-recent w t v i)
    | inr e ↦ rw e (append-recent w t v i)
  ]

  -- The samples held after one with time `t` comes to those in `held`.
  abbrev pub record_sample : ℕ → ℕ → F → List (Sample F) → List (Sample F)
  record_sample cap t v [] = take cap (record { t = t; v = v } ∷ [])
  record_sample cap t v (s ∷ held) =
      if leb t s.t
      then record { t = s.t; v = v } ∷ held
      else take cap (record { t = t; v = v } ∷ s ∷ held)

  -- A write to the newest slot changes the newest sample only.
  set_newest :
      (w : Winbuf F) (s : Sample F)
      → IsBuffer w
      → 0 < w.count
      → recent (record w { samples = set w.samples (written_before w.cap w.head 0) s })
        ≡ s ∷ entries (nth_recent w) 1 (w.count - 1)
  unfolding recent nth_recent
  set_newest w s i h =
      let w' : Winbuf F = record w { samples = set w.samples (written_before w.cap w.head 0) s } in
      ap (entries (nth_recent w') 0) {y = suc (w.count - 1)} (omega arith)
      ∙ ap₂ ◌∷◌
          (get_or-set_self w.samples (written_before w.cap w.head 0) s
            (record { t = 0; v = whole 0 })
            (omega (
              arith,
              i.length_eq,
              (other_slots w.cap w.head 0 i.head-lt (omega (arith, i.head-lt))).0,
            )))
          (entries_same (nth_recent w') (nth_recent w) 1 (w.count - 1) (λ k l m.
            get_or-set_other w.samples (written_before w.cap w.head 0)
              (written_before w.cap w.head k) s (record { t = 0; v = whole 0 })
              ((other_slots w.cap w.head k i.head-lt (omega arith)).1 (omega arith))))

  recent_cons :
      (w : Winbuf F)
      → 0 < w.count
      → recent w ≡ nth_recent w 0 ∷ entries (nth_recent w) 1 (w.count - 1)
  unfolding recent
  recent_cons w h = ap (entries (nth_recent w) 0) {y = suc (w.count - 1)} (omega arith)

  add-add_after :
      (w : Winbuf F) (t : ℕ) (v : F) (i : ℕ)
      → 0 < w.count
      → slot_before w 0 ≡ i
      → add w t v ≡ add_after w i t v
  unfolding add
  add-add_after w t v i h e =
      let e' : ltb 0 w.count ≡ true = ground arith in rw e' (ap (λ j. add_after w j t v) e)

  -- In a full buffer a sample no later than the newest one replaces the newest value and keeps its
  -- time; a later one is recorded in front, and the oldest is dropped.
  pub add-full_lem :
      (w : Winbuf F) (t : ℕ) (v : F)
      → IsBuffer w
      → w.count ≡ w.cap
      → recent (add w t v) ≡ record_sample w.cap t v (recent w)
  unfolding nth_recent
  add-full_lem w t v i e =
      let h : 0 < w.count = omega (arith, i.head-lt) in
      let newest = written_before w.cap w.head 0 in
      let r = recent_cons w h in
      ap recent (add-add_after w t v newest h (slot_before_full w 0 i e (omega (arith, i.head-lt))))
      ∙ elim (Bool-cases (leb t (nth_recent w 0).t)) [
        | inl b ↦
            ap recent (add_after_replaces w newest t v (ground arith))
            ∙ set_newest w (record { t = (nth_recent w 0).t; v = v }) i h
            ∙ sym (ap (record_sample w.cap t v) r ∙ rw b refl)
        | inr b ↦
            ap recent (add_after_later w newest t v (ground arith))
            ∙ append-recent w t v i
            ∙ sym (
                ap (record_sample w.cap t v) r
                ∙ rw b (ap (λ xs. take w.cap (record { t = t; v = v } ∷ xs)) (sym r)))
      ]

  -- While the buffer is at most half full, the slot that the code takes for the newest was never
  -- written. If what stands there has a time that is not before the sample's, the sample is lost.
  pub add_loses :
      (w : Winbuf F) (t : ℕ) (v : F)
      → IsBuffer w
      → 0 < w.count
      → 2 * w.count ≤ w.cap
      → t ≤ (sample_at w (2 * w.count - 1)).t
      → recent (add w t v) ≡ recent w
  unfolding nth_recent recent
  add_loses w t v i h h' l =
      let j = 2 * w.count - 1 in
      let s : Sample F = record { t = (sample_at w j).t; v = v } in
      ap recent (
        add-add_after w t v j h (omega (arith, slot_before_filling w 0 i h h'))
        ∙ add_after_replaces w j t v l)
      ∙ entries_same (nth_recent (record w { samples = set w.samples j s })) (nth_recent w) 0
          w.count
          (λ k m n.
            get_or-set_other w.samples j (written_before w.cap w.head k) s
              (record { t = 0; v = whole 0 })
              (filling_apart w.cap w.head w.count k (ground arith) (omega arith) h'))

  replace-IsBuffer :
      (w : Winbuf F) (j : ℕ) (s : Sample F)
      → IsBuffer w
      → IsBuffer (record w { samples = set w.samples j s })
  replace-IsBuffer w j s i = record {
    length_eq = omega (arith, i.length_eq, length-set w.samples j s);
    cap_bound = i.cap_bound;
    head-lt = i.head-lt;
    count-le = i.count-le;
    filling = i.filling;
  }

  -- Recording a sample keeps the buffer well formed, whatever its slots hold.
  pub add-IsBuffer : (w : Winbuf F) (t : ℕ) (v : F) → IsBuffer w → IsBuffer (add w t v)
  unfolding add add_after
  add-IsBuffer w t v i = by_count (Bool-cases (ltb 0 w.count))
    where
      latest : ℕ
      latest = slot_before w 0

      by_time :
          (b : (no_earlier t (sample_at w latest).t == (sample_at w latest).t ≡ true)
            ⊎ (no_earlier t (sample_at w latest).t == (sample_at w latest).t ≡ false))
          → IsBuffer (add_after w latest t v)
      by_time (inl e) =
          rw e (replace-IsBuffer w latest (record { t = (sample_at w latest).t; v = v }) i)
      by_time (inr e) = rw e (append-IsBuffer w (no_earlier t (sample_at w latest).t) v i)

      by_count : (ltb 0 w.count ≡ true) ⊎ (ltb 0 w.count ≡ false) → IsBuffer (add w t v)
      by_count (inl e) =
          rw e
            (by_time (Bool-cases (no_earlier t (sample_at w latest).t == (sample_at w latest).t)))
      by_count (inr e) = rw e (append-IsBuffer w t v i)
