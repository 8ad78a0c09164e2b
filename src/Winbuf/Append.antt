-- ===== src/Winbuf/Append.antt =====
-- What a write to the next slot does to the samples held.
use polymarket_trade_engine.Prelude.{
  ℕ, suc, ◌+◌, ◌-◌, ◌%◌, ◌^◌, ◌<◌, ◌≡◌, ◌≢◌, ◌∙◌, refl, sym, ap, ap₂, ◌∷◌, if◌then◌else◌, ◌==◌,
  take, length-set, add64, min, arith, get_or-set_self, take_cons, get_or-set_other,
}
use polymarket_trade_engine.Double.{Double, whole}
use polymarket_trade_engine.Winbuf.{Winbuf, append, sample_at}
use polymarket_trade_engine.Winbuf.Recent.{
  IsBuffer, recent, nth_recent, entries, entries_shift, take-entries, written_before, mod_wrap,
}

pub next_head : (c h : ℕ) → c < 2 ^ 62 → h < c → add64 h 1 % c ≡ (if suc h == c then 0 else suc h)
next_head c h p q = ground (arith, mod_wrap (h + 1) c (omega arith) (omega arith))

same_slot :
    (c h k : ℕ)
    → c < 2 ^ 62
    → h < c
    → suc k < c
    → (written_before c (add64 h 1 % c) (suc k) ≡ written_before c h k) × (h ≢ written_before c h k)
unfolding written_before
same_slot c h k p q r = (ground (arith, next_head c h p q), ground arith)

newest_slot : (c h : ℕ) → c < 2 ^ 62 → h < c → written_before c (add64 h 1 % c) 0 ≡ h
unfolding written_before
newest_slot c h p q = ground (arith, next_head c h p q)

module _ {F : Type 0} ⦃d : Double F⦄ where
  abbrev new_count : Winbuf F → ℕ
  new_count w = if w.count == w.cap then w.count else add64 w.count 1

  pub append-IsBuffer : (w : Winbuf F) (t : ℕ) (v : F) → IsBuffer w → IsBuffer (append w t v)
  unfolding append
  append-IsBuffer w t v i = record {
    length_eq = omega (arith, length-set w.samples w.head (record { t = t; v = v }));
    cap_bound = i.cap_bound;
    head-lt = ground (arith, next_head w.cap w.head i.cap_bound i.head-lt);
    count-le = ground arith;
    filling = ground (arith, next_head w.cap w.head i.cap_bound i.head-lt);
  }

  -- The samples older than the new one stand where they stood.
  append_keeps :
      (w : Winbuf F) (t : ℕ) (v : F) (k : ℕ)
      → IsBuffer w
      → suc k < w.cap
      → nth_recent (append w t v) (suc k) ≡ nth_recent w k
  unfolding append nth_recent
  append_keeps w t v k i h =
      ap (sample_at (append w t v)) (same_slot w.cap w.head k i.cap_bound i.head-lt h).0
      ∙ get_or-set_other w.samples w.head (written_before w.cap w.head k) (record { t = t; v = v })
          (record { t = 0; v = whole 0 }) (same_slot w.cap w.head k i.cap_bound i.head-lt h).1

  append-count :
      (w : Winbuf F) (t : ℕ) (v : F)
      → IsBuffer w
      → (append w t v).count ≡ suc (min (w.cap - 1) w.count)
  unfolding append
  append-count w t v i = ground arith

  append_newest :
      (w : Winbuf F) (t : ℕ) (v : F)
      → IsBuffer w
      → nth_recent (append w t v) 0 ≡ record { t = t; v = v }
  unfolding append nth_recent
  append_newest w t v i =
      ap (sample_at (append w t v)) (newest_slot w.cap w.head i.cap_bound i.head-lt)
      ∙ get_or-set_self w.samples w.head (record { t = t; v = v }) (record { t = 0; v = whole 0 })
          (omega (arith, i.length_eq, i.head-lt))

  -- An append pushes the sample in front of those held, and drops what is beyond the capacity.
  pub append-recent :
      (w : Winbuf F) (t : ℕ) (v : F)
      → IsBuffer w
      → recent (append w t v) ≡ take w.cap (record { t = t; v = v } ∷ recent w)
  unfolding recent
  append-recent w t v i =
      let n = min (w.cap - 1) w.count in
      ap (entries (nth_recent (append w t v)) 0) (append-count w t v i)
      ∙ ap₂ ◌∷◌ (append_newest w t v i) (
          entries_shift (nth_recent (append w t v)) (nth_recent w) 0 n
            (λ k l. append_keeps w t v k i (omega (arith, l, i.head-lt)))
          ∙ sym (take-entries (nth_recent w) (w.cap - 1) 0 w.count n refl))
      ∙ sym (take_cons w.cap (record { t = t; v = v }) (recent w) (omega (arith, i.head-lt)))
