-- ===== src/Lifecycle/Stats.antt =====
-- src/analytics/pt_lifecycle_tracker.c, `pt_lifecycle_compute_stats`. The tracker of adverse selection
-- (src/analytics/pt_adverse_selection.c) is not modelled: `fill_bps` stands for its
-- `pt_adverse_get_fill_bps`, none for a NULL tracker.
use polymarket_trade_engine.Prelude.{ℕ, Option, none, some, List, [], ◌∷◌, if◌then◌else◌, ltb, ◌==◌}
use polymarket_trade_engine.Double.{Double, whole}
use polymarket_trade_engine.Lifecycle.{Opportunity, Tracker}

-- The running sums.
pub record Sums (F : Type 0) : Type 0 where
  pub theo : F
  pub exec : F
  pub real : F
  pub adv : F
  pub slip : F
  pub exp_pnl : F
  pub real_pnl : F

module _ {F : Type 0} where
  abbrev pub with_adverse : Option (ℕ → F) → Opportunity F → Opportunity F
  with_adverse none r = r
  with_adverse (some fill_bps) r =
      if ltb 0 r.fill_id then record r { adverse_selection = fill_bps r.fill_id } else r

module _ {F : Type 0} ⦃d : Double F⦄ where
  abbrev pub add_record : Opportunity F → Sums F → Sums F
  add_record r s = record {
    theo = d.add s.theo r.theoretical_edge;
    exec = d.add s.exec r.executable_edge;
    real = d.add s.real r.realized_edge;
    adv = d.add s.adv r.adverse_selection;
    slip = d.add s.slip r.slippage;
    exp_pnl = d.add s.exp_pnl r.expected_pnl;
    real_pnl = d.add s.real_pnl r.realized_pnl;
  }

  -- The loop: the records, the completed ones with their adverse selection, and the sums over these.
  unfoldable pub sum_records :
      Option (ℕ → F) → List (Opportunity F) → Sums F → List (Opportunity F) × Sums F
  sum_records adv [] s = ([], s)
  sum_records adv (r ∷ rs) s =
      let r' = if r.completed then with_adverse adv r else r in
      let (rs', s') = sum_records adv rs (if r.completed then add_record r' s else s) in
      (r' ∷ rs', s')

  abbrev pub no_sums : Sums F
  no_sums = record {
    theo = whole 0;
    exec = whole 0;
    real = whole 0;
    adv = whole 0;
    slip = whole 0;
    exp_pnl = whole 0;
    real_pnl = whole 0;
  }

  unfoldable pub compute_stats : Tracker F → Option (ℕ → F) → Tracker F
  compute_stats t adv =
      if t.completed_count == 0
      then t
      else let (rs, s) = sum_records adv t.records no_sums in
        let n = d.of_nat t.completed_count in
        record t {
          records = rs;
          avg_theoretical_edge = d.div s.theo n;
          avg_executable_edge = d.div s.exec n;
          avg_realized_edge = d.div s.real n;
          avg_adverse_selection = d.div s.adv n;
          avg_slippage = d.div s.slip n;
          total_expected_pnl = s.exp_pnl;
          total_realized_pnl = s.real_pnl;
        }
