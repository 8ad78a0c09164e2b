-- ===== src/Calibration/Counts.antt =====
-- src/analytics/pt_calibration.c: the settled samples, and how the buckets share them out.
use polymarket_trade_engine.Prelude.{
  ℕ, zero, suc, ◌+◌, ◌≤◌, ◌<◌, Bool, false, Bool-cases, ◌≡◌, true, refl, sym, ◌∙◌, inl, inr, List,
  [], ◌∷◌, ◌++◌, if◌then◌else◌, leb, ◌==◌, map, length, length-append, word, arith,
}
use polymarket_trade_engine.Double.{Double}
use polymarket_trade_engine.Calibration.{
  Sample, Bucket, Calibration, num_buckets, max_samples, init, new_sample, settle_first, resolve,
  record_signal,
}
use polymarket_trade_engine.Calibration.Compute.{
  Sums, reset_bucket, bucket_of, clamped, add_to, update_at, add_sample, add_samples, rated,
  no_sums, compute,
}

none_settled : (n t : ℕ) → (n == 0) ≡ true → t ≤ n → t ≡ n
none_settled n t h l = ground arith

at_most_one : (b : Bool) → (if b then 1 else 0) ≤ 1
at_most_one b = ground arith

-- The operations of a tracker.
pub data Call (F : Type 0) : Type 0 where
  signals : ℕ → F → F → F → Call F
  resolves : ℕ → F → F → Call F
  computes : Call F

module _ {F : Type 0} where
  -- The samples that are settled.
  abbrev pub settled_number : List (Sample F) → ℕ
  settled_number [] = 0
  settled_number (s ∷ ss) = (if s.settled then 1 else 0) + settled_number ss

  -- The samples that the buckets hold together.
  abbrev pub total : List (Bucket F) → ℕ
  total [] = 0
  total (b ∷ bs) = b.count + total bs

  settled_number-le : (ss : List (Sample F)) → settled_number ss ≤ length ss
  settled_number-le [] = omega arith
  settled_number-le (s ∷ ss) = ground (arith, settled_number-le ss)

  settled_number-append :
      (ss : List (Sample F)) (s : Sample F)
      → s.settled ≡ false
      → settled_number (ss ++ (s ∷ [])) ≡ settled_number ss
  settled_number-append [] s e = rw e refl
  settled_number-append (r ∷ ss) s e = omega (arith, settled_number-append ss s e)

  append-room :
      (ss : List (Sample F)) (s : Sample F)
      → leb max_samples (length ss) ≡ false
      → length (ss ++ (s ∷ [])) ≤ max_samples
  append-room ss s e = ground (arith, length-append ss (s ∷ []))

  settle_first_lem :
      (id : ℕ) (outcome pnl : F) (ss : List (Sample F))
      → let r = settle_first id outcome pnl ss in
        (length r.0 ≡ length ss) × (settled_number r.0 ≡ (if r.1 then 1 else 0) + settled_number ss)
  unfolding settle_first
  settle_first_lem id outcome pnl [] = (refl, refl)
  settle_first_lem id outcome pnl (s ∷ ss) =
      let rest = settle_first_lem id outcome pnl ss in
      elim (Bool-cases (s.signal_id == id)) [
        | inl e ↦ elim (Bool-cases s.settled) [
          | inl f ↦ rw (e, f) (refl, ground arith)
          | inr f ↦ rw (e, f) (refl, ground arith)
        ]
        | inr e ↦ rw e (omega (arith, rest.0), omega (arith, rest.1))
      ]

  -- The counts of a tracker.
  pub record IsCounted (c : Calibration F) : Type 0 where
    pub room : length c.samples ≤ max_samples
    pub counted : c.settled_count ≡ settled_number c.samples
    pub width : length c.buckets ≡ num_buckets
    pub within : total c.buckets ≤ settled_number c.samples

  resolve-IsCounted :
      (c : Calibration F) (id : ℕ) (outcome pnl : F)
      → IsCounted c
      → IsCounted (resolve c id outcome pnl)
  unfolding resolve
  resolve-IsCounted c id outcome pnl i =
      let r = settle_first_lem id outcome pnl c.samples in
      record {
        room = omega (arith, r.0, i.room);
        counted = ground (arith, r.0, r.1, i.counted, i.room, settled_number-le c.samples);
        width = i.width;
        within = ground (arith, r.1, i.within);
      }

module _ {F : Type 0} ⦃d : Double F⦄ where
  record_signal-IsCounted :
      (c : Calibration F) (id : ℕ) (predicted market expiry : F)
      → IsCounted c
      → IsCounted (record_signal c id predicted market expiry).0
  unfolding record_signal
  record_signal-IsCounted c id predicted market expiry i =
      elim (Bool-cases (leb max_samples (length c.samples))) [
        | inl e ↦ rw e i
        | inr e ↦ rw e (record {
          room = append-room c.samples (new_sample id predicted market expiry) e;
          counted =
              i.counted
              ∙ sym (settled_number-append c.samples (new_sample id predicted market expiry) refl);
          width = i.width;
          within = omega (
            arith,
            i.within,
            settled_number-append c.samples (new_sample id predicted market expiry) refl,
          );
        })
      ]

  bucket_of-lt : (p : F) → bucket_of p < num_buckets
  unfolding bucket_of
  bucket_of-lt p = ground arith

  update_at_lem :
      (i : ℕ) (p o pnl : F) (bs : List (Bucket F))
      → i < length bs
      → total bs + 1 < word
      → (total (update_at i (add_to p o pnl) bs) ≡ 1 + total bs)
        × (length (update_at i (add_to p o pnl) bs) ≡ length bs)
  unfolding update_at
  update_at_lem i p o pnl [] h small = absurd (omega arith)
  update_at_lem zero p o pnl (b ∷ bs) h small = (omega arith, refl)
  update_at_lem (suc i) p o pnl (b ∷ bs) h small =
      let r = update_at_lem i p o pnl bs (omega arith) (omega arith) in
      (omega (arith, r.0), omega (arith, r.1))

  add_sample_lem :
      (log : F → F) (a : Sums F) (s : Sample F)
      → length a.buckets ≡ num_buckets
      → total a.buckets + 1 < word
      → (total (add_sample log a s).buckets ≡ total a.buckets + (if s.settled then 1 else 0))
        × (length (add_sample log a s).buckets ≡ num_buckets)
  unfolding add_sample
  add_sample_lem log a s w small =
      let p = clamped s.predicted_prob in
      let r =
        update_at_lem (bucket_of p) p s.actual_outcome s.realized_pnl a.buckets
          (omega (arith, w, bucket_of-lt p)) small in
      elim (Bool-cases s.settled) [
        | inl e ↦ rw e (omega (arith, r.0), r.1 ∙ w)
        | inr e ↦ rw e (omega arith, w)
      ]

  add_samples_lem :
      (log : F → F) (a : Sums F) (ss : List (Sample F))
      → length a.buckets ≡ num_buckets
      → total a.buckets + length ss < word
      → (total (add_samples log a ss).buckets ≡ total a.buckets + settled_number ss)
        × (length (add_samples log a ss).buckets ≡ num_buckets)
  unfolding add_samples
  add_samples_lem log a [] w small = (omega arith, w)
  add_samples_lem log a (s ∷ ss) w small =
      let step = add_sample_lem log a s w (omega arith) in
      let r =
        add_samples_lem log (add_sample log a s) ss step.1
          (omega (arith, step.0, at_most_one s.settled)) in
      (omega (arith, r.0, step.0), r.1)

  total-reset : (bs : List (Bucket F)) → total (map reset_bucket bs) ≡ 0
  total-reset [] = refl
  total-reset (b ∷ bs) = omega (arith, total-reset bs)

  total-rated : (bs : List (Bucket F)) → total (map rated bs) ≡ total bs
  total-rated [] = refl
  total-rated (b ∷ bs) = ground (arith, total-rated bs)

  length-map_bucket :
      (f : Bucket F → Bucket F) (bs : List (Bucket F)) → length (map f bs) ≡ length bs
  length-map_bucket f [] = refl
  length-map_bucket f (b ∷ bs) = omega (arith, length-map_bucket f bs)

  computed-counts :
      (log : F → F) (c : Calibration F)
      → IsCounted c
      → let a = add_samples log (no_sums c.buckets) c.samples in
        (total (map rated a.buckets) ≡ c.settled_count)
        × (length (map rated a.buckets) ≡ num_buckets)
  computed-counts log c i =
      let a = add_samples log (no_sums c.buckets) c.samples in
      let r =
        add_samples_lem log (no_sums c.buckets) c.samples
          (length-map_bucket reset_bucket c.buckets ∙ i.width)
          (omega (arith, total-reset c.buckets, i.room)) in
      (
        omega (arith, total-rated a.buckets, r.0, total-reset c.buckets, i.counted),
        length-map_bucket rated a.buckets ∙ r.1,
      )

  compute-IsCounted : (log : F → F) (c : Calibration F) → IsCounted c → IsCounted (compute log c)
  unfolding compute
  compute-IsCounted log c i = elim (Bool-cases (c.settled_count == 0)) [
    | inl e ↦ rw e i
    | inr e ↦
        let r = computed-counts log c i in
        rw e (record {
          room = i.room;
          counted = i.counted;
          width = r.1;
          within = omega (arith, r.0, i.counted);
        })
  ]

  compute-total :
      (log : F → F) (c : Calibration F)
      → IsCounted c
      → total (compute log c).buckets ≡ (compute log c).settled_count
  unfolding compute
  compute-total log c i = elim (Bool-cases (c.settled_count == 0)) [
    | inl e ↦
        rw e (none_settled c.settled_count (total c.buckets) e (omega (arith, i.within, i.counted)))
    | inr e ↦ rw e (computed-counts log c i).0
  ]

  unfoldable pub apply : (F → F) → Calibration F → Call F → Calibration F
  apply log c (Call.signals id predicted market expiry) =
      (record_signal c id predicted market expiry).0
  apply log c (Call.resolves id outcome pnl) = resolve c id outcome pnl
  apply log c Call.computes = compute log c

  unfoldable pub run : (F → F) → Calibration F → List (Call F) → Calibration F
  run log c [] = c
  run log c (x ∷ xs) = run log (apply log c x) xs

  apply-IsCounted :
      (log : F → F) (c : Calibration F) (x : Call F) → IsCounted c → IsCounted (apply log c x)
  unfolding apply
  apply-IsCounted log c (Call.signals id predicted market expiry) i =
      record_signal-IsCounted c id predicted market expiry i
  apply-IsCounted log c (Call.resolves id outcome pnl) i = resolve-IsCounted c id outcome pnl i
  apply-IsCounted log c Call.computes i = compute-IsCounted log c i

  run-IsCounted :
      (log : F → F) (c : Calibration F) (xs : List (Call F))
      → IsCounted c
      → IsCounted (run log c xs)
  unfolding run
  run-IsCounted log c [] i = i
  run-IsCounted log c (x ∷ xs) i = run-IsCounted log (apply log c x) xs (apply-IsCounted log c x i)

  init-IsCounted : IsCounted {F = F} init
  init-IsCounted = record { room = omega arith; counted = refl; width = refl; within = omega arith }

  -- After any calls on a fresh tracker there are at most 2048 samples, of which exactly settled_count
  -- are settled, and 10 buckets; and the buckets of a computation then hold exactly settled_count
  -- samples together.
  pub compute-run_lem :
      (log : F → F) (xs : List (Call F))
      → let c = compute log (run log init xs) in IsCounted c × (total c.buckets ≡ c.settled_count)
  compute-run_lem log xs =
      let i = run-IsCounted log init xs init-IsCounted in
      (compute-IsCounted log (run log init xs) i, compute-total log (run log init xs) i)
