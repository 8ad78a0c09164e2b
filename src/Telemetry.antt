-- ===== src/Telemetry.antt =====
-- src/telemetry/pt_telemetry.c and include/telemetry/pt_telemetry.h: latency histograms and their
-- percentiles. A histogram is never NULL. Of pt_telemetry_json the numbers are modelled; `snprintf`
-- prints them and is left out.
pub mod Buckets
pub mod Recorded
pub mod Percentile
mod Tests
use polymarket_trade_engine.Prelude.{
  ℕ, zero, suc, ◌+◌, ◌-◌, ◌*◌, ◌/◌, ◌^◌, Bool, Option, none, some, List, [], ◌∷◌, if◌then◌else◌,
  ltb, leb, ◌==◌, pos, get_or, set, replicate, add64, word,
}
use polymarket_trade_engine.Double.{Double, whole}

-- `PT_LAT_BUCKETS`
abbrev pub lat_buckets : ℕ
lat_buckets = 32

-- `PT_LATC_NUM`
abbrev latc_num : ℕ
latc_num = 7

-- `pt_latency_hist_t`
pub record LatencyHist : Type 0 where
  pub count : ℕ
  pub min_ns : ℕ
  pub max_ns : ℕ
  pub sum_ns : ℕ
  pub buckets : List ℕ

-- `pt_telemetry_t`
pub record Telemetry : Type 0 where
  pub stages : List LatencyHist
  pub e2e_latency : LatencyHist
  pub loop_tick_time : LatencyHist
  pub poly_events_total : ℕ
  pub btc_events_total : ℕ
  pub signals_generated : ℕ
  pub orders_submitted : ℕ
  pub orders_filled : ℕ
  pub orders_cancelled : ℕ
  pub ring_drops_total : ℕ

-- `w - __builtin_clzll(n)` of a word of `w` bits.
unfoldable pub bits : ℕ → ℕ → ℕ
bits zero n = 0
bits (suc w) n = if n == 0 then 0 else suc (bits w (n / 2))

unfoldable pub bucket_for : ℕ → ℕ
bucket_for ns =
    let us = ns / 1000 in
    if us == 0 then 0 else (let b = bits 64 us in if leb lat_buckets b then lat_buckets - 1 else b)

-- After the `memset`, the least time starts at UINT64_MAX.
abbrev pub empty_hist : LatencyHist
empty_hist = record {
  count = 0;
  min_ns = word - 1;
  max_ns = 0;
  sum_ns = 0;
  buckets = replicate lat_buckets 0;
}

init : Telemetry
init = record {
  stages = replicate latc_num empty_hist;
  e2e_latency = empty_hist;
  loop_tick_time = empty_hist;
  poly_events_total = 0;
  btc_events_total = 0;
  signals_generated = 0;
  orders_submitted = 0;
  orders_filled = 0;
  orders_cancelled = 0;
  ring_drops_total = 0;
}

unfoldable pub record_sample : LatencyHist → ℕ → LatencyHist
record_sample h dt_ns = record {
  count = add64 h.count 1;
  min_ns = if ltb dt_ns h.min_ns then dt_ns else h.min_ns;
  max_ns = if ltb h.max_ns dt_ns then dt_ns else h.max_ns;
  sum_ns = add64 h.sum_ns dt_ns;
  buckets = set h.buckets (bucket_for dt_ns) (add64 (get_or h.buckets (bucket_for dt_ns) 0) 1);
}

-- The loop over the buckets: the first one, from `b` on, where the cumulative count reaches the target.
unfoldable pub reaching : ℕ → ℕ → ℕ → List ℕ → Option ℕ
reaching target b cum [] = none
reaching target b cum (n ∷ ns) =
    if leb target (add64 cum n) then some b else reaching target (b + 1) (add64 cum n) ns

-- The latencies that pt_telemetry_json prints, in microseconds.
record Latencies (F : Type 0) : Type 0 where
  avg_us : F
  p50 : F
  p90 : F
  p99 : F
  largest_us : F

module _ {F : Type 0} ⦃d : Double F⦄ where
  unfoldable pub target_of : ℕ → F → ℕ
  target_of count pct =
      d.to_nat (d.add (d.mul (d.of_nat count) (d.div pct (whole 100))) (d.decimal (pos 5) 1))

  abbrev pub max_us : LatencyHist → F
  max_us h = d.div (d.of_nat h.max_ns) (whole 1000)

  -- `1ULL << b`, or the largest time where no bucket reaches the target.
  abbrev pub value_at : LatencyHist → Option ℕ → F
  value_at h none = max_us h
  value_at h (some b) = d.of_nat (2 ^ b)

  unfoldable pub percentile_us : LatencyHist → F → F
  percentile_us h pct =
      if h.count == 0 then whole 0 else value_at h (reaching (target_of h.count pct) 0 0 h.buckets)

  latencies : Telemetry → Latencies F
  latencies t =
      let h = t.e2e_latency in
      record {
        avg_us =
            if ltb 0 h.count then d.div (d.of_nat (h.sum_ns / h.count)) (whole 1000) else whole 0;
        p50 = percentile_us h (whole 50);
        p90 = percentile_us h (whole 90);
        p99 = percentile_us h (whole 99);
        largest_us = max_us h;
      }
