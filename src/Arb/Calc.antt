-- ===== src/Arb/Calc.antt =====
-- The opportunity that pt_arb_calc reports: the search between the least and the largest size, and the
-- estimates for the size found.
pub mod Result
use mathlib.Core.Option
use polymarket_trade_engine.Prelude.{
  ℕ, ◌&&◌, ◌||◌, true, false, Bool, Option, none, some, if◌then◌else◌, ltb, ◌==◌, ℤ, pos, ◌+ℤ◌,
}
use polymarket_trade_engine.Double.{Double, whole}
use polymarket_trade_engine.Types.{price_scale}
use polymarket_trade_engine.Book.{Book, Level, best_ask, best_bid}
use polymarket_trade_engine.Economics.{EdgeBreakdown}
use polymarket_trade_engine.Economics
use polymarket_trade_engine.Arb.{
  Config, Opportunity, Net, Best, probe, search, search_fuel, costs_at, edge_of_sum, half,
}

-- The results -1, 0 and 1.
pub data Outcome : Type 0 where
  invalid nothing found : Outcome

abbrev bid_price : Option Level → ℤ
bid_price none = pos 0
bid_price (some l) = l.price

module _ {F : Type 0} ⦃d : Double F⦄ where
  abbrev clamp01 : F → F
  clamp01 x = if d.lt x (whole 0) then whole 0 else (if d.lt (whole 1) x then whole 1 else x)

  abbrev zero_breakdown : EdgeBreakdown F
  zero_breakdown = record {
    gross_edge = whole 0;
    fees = whole 0;
    rebates = whole 0;
    spread_cost = whole 0;
    slippage = whole 0;
    latency_cost = whole 0;
    adverse_selection = whole 0;
    hedging_cost = whole 0;
    net_edge = whole 0;
  }

  abbrev pub zero_opportunity : Opportunity F
  zero_opportunity = record {
    has_opportunity = false;
    raw_edge = whole 0;
    executable_edge = whole 0;
    net_edge = whole 0;
    max_executable_size = 0;
    expected_net_profit = whole 0;
    fill_probability_leg_a = whole 0;
    fill_probability_leg_b = whole 0;
    joint_fill_probability = whole 0;
    hedge_cost = whole 0;
    worst_case_loss = whole 0;
    confidence = whole 0;
    levels_used_yes = 0;
    levels_used_no = 0;
    avg_yes_scaled = pos 0;
    avg_no_scaled = pos 0;
    breakdown = zero_breakdown;
  }

  -- The chance to fill `best` behind half of what the best level holds.
  abbrev fill_probability : ℕ → ℕ → F
  fill_probability best depth =
      let want = d.of_nat best in
      clamp01 (d.div want (d.add want (d.mul (d.of_nat depth) (d.decimal (pos 5) 1))))

  -- The loss of selling the YES leg at the best bid.
  abbrev hedge_cost_of : Book → ℕ → ℤ → F
  hedge_cost_of yes_book best avg =
      let per_share =
        d.div (d.sub (d.of_int avg) (d.of_int (bid_price (best_bid yes_book))))
          (whole price_scale) in
      d.mul (if d.lt per_share (whole 0) then d.decimal (pos 2) 2 else per_share) (d.of_nat best)

  abbrev confidence_of : Config F → ℕ → F → F → F → F
  confidence_of cfg best raw net joint =
      let margin = clamp01 (d.div net (d.add raw (d.decimal (pos 1) 6))) in
      let liquidity =
        if ltb 0 cfg.min_liquidity
        then clamp01 (d.div (d.of_nat best) (d.of_nat cfg.min_liquidity))
        else whole 1 in
      d.mul
        (clamp01 (d.add (d.mul margin (d.decimal (pos 6) 1)) (d.mul joint (d.decimal (pos 4) 1))))
        liquidity

  -- The opportunity of the size found, with the sizes of the best asks.
  pub opportunity_of : Book → Config F → F → ℕ → ℕ → ℕ → Net F → Opportunity F
  opportunity_of yes_book cfg raw y_size n_size best n =
      let executable = edge_of_sum n.avg_yes n.avg_no in
      let leg_a = fill_probability best y_size in
      let leg_b = fill_probability best n_size in
      let joint = d.mul leg_a leg_b in
      let hedge = hedge_cost_of yes_book best n.avg_yes in
      record zero_opportunity {
        has_opportunity = true;
        raw_edge = raw;
        executable_edge = executable;
        net_edge = n.net_edge;
        max_executable_size = best;
        expected_net_profit = d.mul n.net_edge (d.of_nat best);
        fill_probability_leg_a = leg_a;
        fill_probability_leg_b = leg_b;
        joint_fill_probability = joint;
        hedge_cost = hedge;
        worst_case_loss = d.add hedge (Economics.fee_usd (some cfg.fees) true n.avg_yes best);
        confidence = confidence_of cfg best raw n.net_edge joint;
        avg_yes_scaled = n.avg_yes;
        avg_no_scaled = n.avg_no;
        breakdown =
            Economics.calc (some cfg.fees)
              (costs_at cfg executable (half (n.avg_yes +ℤ n.avg_no)) best);
      }

  -- What the search leaves to report, `raw` being the edge of the best asks.
  pub report : Book → Config F → F → ℕ → ℕ → Best (Net F) → Outcome × Opportunity F
  report yes_book cfg raw y_size n_size none =
      (Outcome.nothing, record zero_opportunity { raw_edge = raw })
  report yes_book cfg raw y_size n_size (some (best, n)) =
      if ltb best cfg.min_liquidity
      then (Outcome.nothing, record zero_opportunity { raw_edge = raw })
      else (Outcome.found, opportunity_of yes_book cfg raw y_size n_size best n)

  -- The search over both books, whose best asks are these.
  pub calc_on : Book → Book → Config F → ℕ → Level → Level → Option (Outcome × Opportunity F)
  calc_on yes_book no_book cfg max_want y n =
      let raw = edge_of_sum y.price n.price in
      if d.le raw cfg.min_edge_pct
      then some (Outcome.nothing, record zero_opportunity { raw_edge = raw })
      else Option.map (report yes_book cfg raw y.size n.size)
          (search (probe yes_book no_book cfg) search_fuel 1 max_want none)

  -- `none` would be a search that does not end within its fuel.
  pub calc : Option Book → Option Book → Config F → ℕ → Option (Outcome × Opportunity F)
  calc none no_book cfg max_want = some (Outcome.invalid, zero_opportunity)
  calc (some yes_book) none cfg max_want = some (Outcome.invalid, zero_opportunity)
  calc (some yes_book) (some no_book) cfg max_want =
      if max_want == 0 then some (Outcome.invalid, zero_opportunity) else elim (best_ask yes_book) [
        | none ↦ some (Outcome.nothing, zero_opportunity)
        | some y ↦ elim (best_ask no_book) [
          | none ↦ some (Outcome.nothing, zero_opportunity)
          | some n ↦ calc_on yes_book no_book cfg max_want y n
        ]
      ]

  -- `none` is NAN.
  pub gross_edge_level1 : Book → Book → Option F
  gross_edge_level1 yes_book no_book = elim (best_ask yes_book) [
    | none ↦ none
    | some y ↦ Option.map (λ (n : Level). edge_of_sum y.price n.price) (best_ask no_book)
  ]
