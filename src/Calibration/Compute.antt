-- ===== src/Calibration/Compute.antt =====
-- src/analytics/pt_calibration.c: pt_calibration_compute.
use polymarket_trade_engine.Prelude.{
  ℕ, ◌-◌, ◌&&◌, ◌||◌, List, [], ◌∷◌, if◌then◌else◌, ltb, ◌==◌, pos, pos_part, ltb_ℤ, leb_ℤ, add64,
  map,
}
use polymarket_trade_engine.Double.{Double, whole}
use polymarket_trade_engine.Calibration.{Sample, Bucket, Calibration, num_buckets}

-- The running sums of the loop over the samples.
pub record Sums (F : Type 0) : Type 0 where
  pub brier_sum : F
  pub log_loss_sum : F
  pub buckets : List (Bucket F)

-- The running values of the loop over the buckets.
pub record Errors (F : Type 0) : Type 0 where
  pub weighted_ece : F
  pub max_ce : F

module _ {F : Type 0} ⦃d : Double F⦄ where
  abbrev pub reset_bucket : Bucket F → Bucket F
  reset_bucket b = record b {
    count = 0;
    sum_predicted_prob = whole 0;
    sum_actual_outcome = whole 0;
    win_rate = whole 0;
    total_pnl = whole 0;
    avg_pnl = whole 0;
    calibration_error = whole 0;
  }

  abbrev eps : F
  eps = d.decimal (pos 1) 12

  -- The probability is kept off 0 and 1.
  unfoldable pub clamped : F → F
  clamped p =
      let q = if d.lt p eps then eps else p in
      if d.lt (d.sub (whole 1) eps) q then d.sub (whole 1) eps else q

  abbrev half : F
  half = d.decimal (pos 5) 1

  abbrev pub confidence : F → F
  confidence p = if d.le half p then p else d.sub (whole 1) p

  -- The index, kept between 0 and 9.
  unfoldable pub bucket_of : F → ℕ
  bucket_of p =
      let i =
        d.to_int (d.div (d.sub (confidence p) (d.decimal (pos 50) 2)) (d.decimal (pos 5) 2)) in
      if ltb_ℤ i (pos 0)
      then 0
      else if leb_ℤ (pos num_buckets) i
      then num_buckets - 1
      else pos_part i

  abbrev won : F → F → F
  won p o =
      if (d.le half p && d.le half o) || (d.lt p half && d.lt o half) then whole 1 else whole 0

  abbrev pub add_to : F → F → F → Bucket F → Bucket F
  add_to p o pnl b = record b {
    count = add64 b.count 1;
    sum_predicted_prob = d.add b.sum_predicted_prob (confidence p);
    sum_actual_outcome = d.add b.sum_actual_outcome (won p o);
    total_pnl = d.add b.total_pnl pnl;
  }

  -- `o * log(p) + (1.0 - o) * log(1.0 - p)`
  abbrev log_of : (F → F) → F → F → F
  log_of log p o = d.add (d.mul o (log p)) (d.mul (d.sub (whole 1) o) (log (d.sub (whole 1) p)))

  -- `buckets[i]` becomes what `f` makes of it.
  unfoldable pub update_at : ℕ → (Bucket F → Bucket F) → List (Bucket F) → List (Bucket F)
  update_at i f [] = []
  update_at ℕ.zero f (b ∷ bs) = f b ∷ bs
  update_at (ℕ.suc i) f (b ∷ bs) = b ∷ update_at i f bs

  unfoldable pub add_sample : (F → F) → Sums F → Sample F → Sums F
  add_sample log a s =
      let p = clamped s.predicted_prob in
      let o = s.actual_outcome in
      if s.settled
      then record {
        brier_sum = d.add a.brier_sum (d.mul (d.sub p o) (d.sub p o));
        log_loss_sum = d.sub a.log_loss_sum (log_of log p o);
        buckets = update_at (bucket_of p) (add_to p o s.realized_pnl) a.buckets;
      }
      else a

  unfoldable pub add_samples : (F → F) → Sums F → List (Sample F) → Sums F
  add_samples log a [] = a
  add_samples log a (s ∷ ss) = add_samples log (add_sample log a s) ss

  abbrev pub rated : Bucket F → Bucket F
  rated b =
      let n = d.of_nat b.count in
      if ltb 0 b.count
      then record b {
        win_rate = d.div b.sum_actual_outcome n;
        avg_pnl = d.div b.total_pnl n;
        calibration_error =
            d.abs (d.sub (d.div b.sum_predicted_prob n) (d.div b.sum_actual_outcome n));
      }
      else b

  abbrev add_error : ℕ → Errors F → Bucket F → Errors F
  add_error total a b =
      let e = (rated b).calibration_error in
      if ltb 0 b.count
      then record {
        weighted_ece = d.add a.weighted_ece (d.mul e (d.div (d.of_nat b.count) (d.of_nat total)));
        max_ce = if d.lt a.max_ce e then e else a.max_ce;
      }
      else a

  abbrev errors : ℕ → Errors F → List (Bucket F) → Errors F
  errors total a [] = a
  errors total a (b ∷ bs) = errors total (add_error total a b) bs

  -- The start of both loops.
  abbrev pub no_sums : List (Bucket F) → Sums F
  no_sums bs = record { brier_sum = whole 0; log_loss_sum = whole 0; buckets = map reset_bucket bs }

  abbrev no_errors : Errors F
  no_errors = record { weighted_ece = whole 0; max_ce = whole 0 }

  unfoldable pub compute : (F → F) → Calibration F → Calibration F
  compute log c =
      let a = add_samples log (no_sums c.buckets) c.samples in
      let e = errors c.settled_count no_errors a.buckets in
      if c.settled_count == 0 then c else record c {
        brier_score = d.div a.brier_sum (d.of_nat c.settled_count);
        log_loss = d.div a.log_loss_sum (d.of_nat c.settled_count);
        expected_calibration_error = e.weighted_ece;
        max_calibration_error = e.max_ce;
        buckets = map rated a.buckets;
      }
