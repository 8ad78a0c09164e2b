-- ===== src/Arb.antt =====
-- src/execution/pt_arb.c and include/execution/pt_arb.h: the parity arbitrage between the ask sides of
-- the two books. The result and the configuration are never NULL; `none` is a book that is NULL.
pub mod Calc
pub mod Search
mod Tests
use polymarket_trade_engine.Prelude.{
  ℕ, zero, suc, ◌+◌, ◌-◌, ◌/◌, Bool, true, false, ◌&&◌, ◌||◌, Option, none, some, if◌then◌else◌,
  ltb, leb, ◌==◌, ℤ, pos, pos_part, neg_part, sub_ℕ, ◌+ℤ◌, add64, sub64,
}
use polymarket_trade_engine.Double.{Double, whole}
use polymarket_trade_engine.Types.{bid, ask, price_scale}
use polymarket_trade_engine.Book.{Book, Level, walk, best_ask, best_bid}
use polymarket_trade_engine.Economics.{FeeSchedule, EdgeBreakdown, Costs, probability}
use polymarket_trade_engine.Economics

-- `pt_arb_cfg_t`
pub record Config (F : Type 0) : Type 0 where
  pub fees : FeeSchedule F
  pub slippage_bps : F
  pub latency_buffer_pct : F
  pub risk_buffer_pct : F
  pub min_edge_pct : F
  pub min_liquidity : ℕ
  pub max_unhedged_loss : F

-- `pt_arb_opp_t`
pub record Opportunity (F : Type 0) : Type 0 where
  pub has_opportunity : Bool
  pub raw_edge : F
  pub executable_edge : F
  pub net_edge : F
  pub max_executable_size : ℕ
  pub expected_net_profit : F
  pub fill_probability_leg_a : F
  pub fill_probability_leg_b : F
  pub joint_fill_probability : F
  pub hedge_cost : F
  pub worst_case_loss : F
  pub confidence : F
  pub levels_used_yes : ℕ
  pub levels_used_no : ℕ
  pub avg_yes_scaled : ℤ
  pub avg_no_scaled : ℤ
  pub breakdown : EdgeBreakdown F

-- `*net_edge`, `*avg_yes` and `*avg_no`.
pub record Net (F : Type 0) : Type 0 where
  pub net_edge : F
  pub avg_yes : ℤ
  pub avg_no : ℤ

-- The signed division by 2, which cuts toward 0.
abbrev half : ℤ → ℤ
half a = sub_ℕ (pos_part a / 2) (neg_part a / 2)

-- `best` with what was found there; `none` is a `best` of 0.
abbrev pub Best : Type 0 → Type 0
Best R = Option (ℕ × R)

-- Each round halves the interval, which holds fewer than 2 ^ 64 sizes.
abbrev pub search_fuel : ℕ
search_fuel = 65

-- The binary search for the largest size that passes, from `lo` to `hi`, on fuel; `none` is a search
-- that ran out of it.
pub search : {R : Type 0} → (ℕ → Option R) → ℕ → ℕ → ℕ → Best R → Option (Best R)
search test zero lo hi best = none
search test (suc fuel) lo hi best =
    let mid = lo + (hi - lo) / 2 in
    elim (leb lo hi) [
      | false ↦ some best
      | true ↦ elim (test mid) [
        | some r ↦ search test fuel (add64 mid 1) hi (some (mid, r))
        | none ↦ search test fuel lo (if ltb 1 mid then mid - 1 else 0) best
      ]
    ]

module _ {F : Type 0} ⦃d : Double F⦄ where
  -- 1 - (a + b) of two prices, as the code writes it in either place.
  abbrev edge_of_sum : ℤ → ℤ → F
  edge_of_sum a b = d.sub (whole 1) (d.div (d.add (d.of_int a) (d.of_int b)) (whole price_scale))

  abbrev costs_at : Config F → F → ℤ → ℕ → Costs F
  costs_at cfg edge price size = record {
    is_taker = true;
    raw_prob_edge = edge;
    price_scaled = price;
    size = size;
    spread_prob = whole 0;
    slippage_bps = cfg.slippage_bps;
    latency_buffer = cfg.latency_buffer_pct;
    adverse_sel_bps = whole 0;
    hedge_buffer = cfg.risk_buffer_pct;
  }

  -- The edge of buying `size` on both sides at these average prices.
  abbrev net_of : Config F → ℕ → ℤ → ℤ → Net F
  net_of cfg size ay an =
      let gross = d.sub (whole 1) (d.add (probability ay) (probability an)) in
      record {
        net_edge =
            (Economics.calc (some cfg.fees) (costs_at cfg gross (half (ay +ℤ an)) size)).net_edge;
        avg_yes = ay;
        avg_no = an;
      }

  -- `none` is the result 0.
  pub net_at : Option Book → Option Book → Config F → ℕ → Option (Net F)
  net_at none no_book cfg size = none
  net_at (some yes_book) none cfg size = none
  net_at (some yes_book) (some no_book) cfg size =
      let (fy, ay, uy) = walk yes_book ask size in
      let (fn, an, un) = walk no_book ask size in
      if size == 0
      then none
      else if ltb fy size || ltb fn size
      then none
      else some (net_of cfg size ay an)

  -- The test of the search: the edge, if the size is executable at the least edge asked for.
  pub probe : Book → Book → Config F → ℕ → Option (Net F)
  probe yes_book no_book cfg size = elim (net_at (some yes_book) (some no_book) cfg size) [
    | none ↦ none
    | some n ↦ if d.le cfg.min_edge_pct n.net_edge then some n else none
  ]
