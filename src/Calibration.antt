-- ===== src/Calibration.antt =====
-- src/analytics/pt_calibration.c and include/analytics/pt_calibration.h: how well the predicted
-- probabilities fit the outcomes. The tracker is never NULL; the samples in use are a list; `log` is the
-- one of the C library.
pub mod Compute
pub mod Counts
mod Tests
use polymarket_trade_engine.Prelude.{
  ℕ, ◌+◌, ◌-◌, Bool, true, false, ◌&&◌, ◌||◌, not, Option, none, some, List, [], ◌∷◌, ◌++◌,
  if◌then◌else◌, ltb, leb, ◌==◌, pos, length, add64,
}
use polymarket_trade_engine.Double.{Double, whole}

-- `PT_CALIB_NUM_BUCKETS` and `PT_CALIB_MAX_SAMPLES`
abbrev pub num_buckets : ℕ
num_buckets = 10

abbrev pub max_samples : ℕ
max_samples = 2_048

-- `pt_calib_sample_t`
pub record Sample (F : Type 0) : Type 0 where
  pub signal_id : ℕ
  pub predicted_prob : F
  pub market_prob : F
  pub raw_edge : F
  pub actual_outcome : F
  pub time_to_expiry_s : F
  pub realized_pnl : F
  pub settled : Bool

-- `pt_prob_bucket_t`
pub record Bucket (F : Type 0) : Type 0 where
  pub bucket_min : F
  pub bucket_max : F
  pub count : ℕ
  pub sum_predicted_prob : F
  pub sum_actual_outcome : F
  pub win_rate : F
  pub total_pnl : F
  pub avg_pnl : F
  pub calibration_error : F

-- `pt_calibration_tracker_t`
pub record Calibration (F : Type 0) : Type 0 where
  pub samples : List (Sample F)
  pub settled_count : ℕ
  pub brier_score : F
  pub log_loss : F
  pub expected_calibration_error : F
  pub max_calibration_error : F
  pub buckets : List (Bucket F)

module _ {F : Type 0} where
  -- The first sample with the id, where it is not settled yet; returns whether it was settled now.
  unfoldable pub settle_first : ℕ → F → F → List (Sample F) → List (Sample F) × Bool
  settle_first id outcome pnl [] = ([], false)
  settle_first id outcome pnl (s ∷ ss) =
      let rest = settle_first id outcome pnl ss in
      if s.signal_id == id
      then (if s.settled then (s ∷ ss, false) else (
        record s { actual_outcome = outcome; realized_pnl = pnl; settled = true } ∷ ss,
        true,
      ))
      else (s ∷ rest.0, rest.1)

  unfoldable pub resolve : Calibration F → ℕ → F → F → Calibration F
  resolve c id outcome pnl =
      let r = settle_first id outcome pnl c.samples in
      record c {
        samples = r.0;
        settled_count = if r.1 then add64 c.settled_count 1 else c.settled_count;
      }

module _ {F : Type 0} ⦃d : Double F⦄ where
  -- The bucket from 0.50 + i * 0.05 on.
  abbrev bucket_from : ℕ → Bucket F
  bucket_from i = record {
    bucket_min = d.add (d.decimal (pos 50) 2) (d.mul (d.of_int (pos i)) (d.decimal (pos 5) 2));
    bucket_max =
        d.add (d.decimal (pos 50) 2) (d.mul (d.of_int (pos (i + 1))) (d.decimal (pos 5) 2));
    count = 0;
    sum_predicted_prob = whole 0;
    sum_actual_outcome = whole 0;
    win_rate = whole 0;
    total_pnl = whole 0;
    avg_pnl = whole 0;
    calibration_error = whole 0;
  }

  abbrev pub init : Calibration F
  init = record {
    samples = [];
    settled_count = 0;
    brier_score = whole 0;
    log_loss = whole 0;
    expected_calibration_error = whole 0;
    max_calibration_error = whole 0;
    buckets =
        bucket_from 0
        ∷ bucket_from 1
        ∷ bucket_from 2
        ∷ bucket_from 3
        ∷ bucket_from 4
        ∷ bucket_from 5
        ∷ bucket_from 6
        ∷ bucket_from 7
        ∷ bucket_from 8
        ∷ bucket_from 9
        ∷ [];
  }

  abbrev pub new_sample : ℕ → F → F → F → Sample F
  new_sample id predicted market expiry = record {
    signal_id = id;
    predicted_prob = predicted;
    market_prob = market;
    raw_edge = d.sub predicted market;
    actual_outcome = whole 0;
    time_to_expiry_s = expiry;
    realized_pnl = whole 0;
    settled = false;
  }

  -- Returns the tracker and the id, or 0 where there is no room.
  unfoldable pub record_signal : Calibration F → ℕ → F → F → F → Calibration F × ℕ
  record_signal c id predicted market expiry =
      if leb max_samples (length c.samples)
      then (c, 0)
      else (record c { samples = c.samples ++ (new_sample id predicted market expiry ∷ []) }, id)
