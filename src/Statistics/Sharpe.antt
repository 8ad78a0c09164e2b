-- ===== src/Statistics/Sharpe.antt =====
-- src/analytics/pt_strategy_stats.c: the Sharpe ratio of the settled trades.
use polymarket_trade_engine.Prelude.{
  ℕ, ◌+◌, ◌-◌, Bool, true, false, ◌||◌, List, [], ◌∷◌, if◌then◌else◌, ltb, ℤ, pos, ltb_ℤ, eqb_ℤ,
  length,
}
use polymarket_trade_engine.Double.{Double, whole}
use polymarket_trade_engine.Statistics.{SettledTrade, StatsTracker}

module _ {F : Type 0} ⦃d : Double F⦄ where
  -- A negative strategy stands for both.
  abbrev is_of : ℤ → SettledTrade F → Bool
  is_of strategy t = ltb_ℤ strategy (pos 0) || eqb_ℤ t.strategy strategy

  abbrev sum_returns : ℤ → F → ℕ → List (SettledTrade F) → F × ℕ
  sum_returns strategy sum count [] = (sum, count)
  sum_returns strategy sum count (t ∷ ts) =
      let here = is_of strategy t in
      sum_returns strategy (if here then d.add sum t.return_pct else sum)
        (if here then count + 1 else count) ts

  abbrev sum_squares : ℤ → F → F → List (SettledTrade F) → F
  sum_squares strategy mean sum [] = sum
  sum_squares strategy mean sum (t ∷ ts) =
      let diff = d.sub t.return_pct mean in
      sum_squares strategy mean (if is_of strategy t then d.add sum (d.mul diff diff) else sum) ts

  abbrev sharpe_of : F → F → F × Bool
  sharpe_of mean stddev =
      if d.lt stddev (d.decimal (pos 1) 9) then (whole 0, false) else (d.div mean stddev, true)

  -- Returns the ratio and `has_enough_data`; `sqrt` is the one of the C library.
  unfoldable pub calc_sharpe_strat : (F → F) → StatsTracker F → ℤ → F × Bool
  calc_sharpe_strat sqrt st strategy =
      let r = sum_returns strategy (whole 0) 0 st.settled_trades in
      let mean = d.div r.0 (d.of_nat r.1) in
      if ltb (length st.settled_trades) 5 || ltb r.1 5
      then (whole 0, false)
      else sharpe_of mean (
          sqrt (d.div (sum_squares strategy mean (whole 0) st.settled_trades) (d.of_nat (r.1 - 1))))

  calc_sharpe : (F → F) → StatsTracker F → F × Bool
  calc_sharpe sqrt st = calc_sharpe_strat sqrt st (ℤ.negsuc 0)
