-- ===== src/Winbuf/Tests.antt =====
-- Runs of the sample buffer, and the theorems at concrete buffers.
use polymarket_trade_engine.Prelude.{
  ℕ, ◌≡◌, refl, none, some, [], ◌∷◌, replicate, inl, inr, arith, pos, ◌==◌, if◌then◌else◌,
}
use polymarket_trade_engine.Micro.{Micro, micro_double}
use polymarket_trade_engine.Winbuf.{Sample, Winbuf, add, agg, agg_loop, no_samples, slot_before}
use polymarket_trade_engine.Winbuf.Recent.{IsBuffer, recent, nth_recent, written_before}
use polymarket_trade_engine.Winbuf.Add.{record_sample, add-full_lem}
use polymarket_trade_engine.Winbuf.Agg.{within, tally_all, agg-full_lem}

abbrev sample : ℕ → ℕ → Sample Micro
sample t v = record { t = t; v = pos v }

-- Four slots of zeroed memory with one sample in the first.
abbrev started : Winbuf Micro
started = record { samples = sample 50 7 ∷ replicate 3 (sample 0 0); cap = 4; head = 1; count = 1 }

-- The same in memory that a former owner left behind.
abbrev stale : Winbuf Micro
stale = record { samples = sample 50 7 ∷ replicate 3 (sample 900 1); cap = 4; head = 1; count = 1 }

-- Three slots in use, the newest sample in the first one.
abbrev full : Winbuf Micro
full = record {
  samples = sample 30 3 ∷ sample 10 1 ∷ sample 20 2 ∷ [];
  cap = 3;
  head = 1;
  count = 3;
}

started-IsBuffer : IsBuffer started
started-IsBuffer = record {
  length_eq = refl;
  cap_bound = omega arith;
  head-lt = omega arith;
  count-le = omega arith;
  filling = inr refl;
}

stale-IsBuffer : IsBuffer stale
stale-IsBuffer = record {
  length_eq = refl;
  cap_bound = omega arith;
  head-lt = omega arith;
  count-le = omega arith;
  filling = inr refl;
}

full-IsBuffer : IsBuffer full
full-IsBuffer = record {
  length_eq = refl;
  cap_bound = omega arith;
  head-lt = omega arith;
  count-le = omega arith;
  filling = inl refl;
}

recent-full : recent full ≡ sample 30 3 ∷ sample 20 2 ∷ sample 10 1 ∷ []
unfolding recent nth_recent written_before
recent-full = refl

-- The sample just recorded is not found.
agg_started : agg started 60 60 ≡ none
unfolding agg agg_loop slot_before
agg_started = refl

add-full_lem_example : recent (add full 40 (pos 4)) ≡ record_sample 3 40 (pos 4) (recent full)
add-full_lem_example = add-full_lem full 40 (pos 4) full-IsBuffer refl

agg-full_lem_example : agg full 30 15 ≡ (
    if (tally_all (within 15 30 (recent full)) no_samples).count == 0
    then none
    else some (tally_all (within 15 30 (recent full)) no_samples))
unfolding recent nth_recent written_before
agg-full_lem_example =
    agg-full_lem full 30 15 full-IsBuffer refl
      ((omega arith, (omega arith, tt)), ((omega arith, tt), (tt, tt))) (omega arith)
