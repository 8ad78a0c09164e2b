-- ===== src/Economics.antt =====
-- src/execution/pt_economics.c and include/execution/pt_economics.h: the costs of a trade. The result
-- is never NULL; `none` is a fee schedule that is NULL.
use polymarket_trade_engine.Prelude.{
  ℕ, Bool, true, false, ◌&&◌, Option, none, some, if◌then◌else◌, ltb, ◌==◌, ℤ, pos,
}
use polymarket_trade_engine.Double.{Double, whole}
use polymarket_trade_engine.Types.{price_scale}

-- `pt_fee_schedule_t`
pub record FeeSchedule (F : Type 0) : Type 0 where
  pub maker_fee_bps : F
  pub taker_fee_bps : F
  pub maker_rebate_bps : F
  pub fixed_order_fee_usd : F
  pub dynamic_fee_scale : F

-- `pt_edge_breakdown_t`
pub record EdgeBreakdown (F : Type 0) : Type 0 where
  pub gross_edge : F
  pub fees : F
  pub rebates : F
  pub spread_cost : F
  pub slippage : F
  pub latency_cost : F
  pub adverse_selection : F
  pub hedging_cost : F
  pub net_edge : F

-- The arguments of pt_economics_calc.
pub record Costs (F : Type 0) : Type 0 where
  pub is_taker : Bool
  pub raw_prob_edge : F
  pub price_scaled : ℤ
  pub size : ℕ
  pub spread_prob : F
  pub slippage_bps : F
  pub latency_buffer : F
  pub adverse_sel_bps : F
  pub hedge_buffer : F

module _ {F : Type 0} ⦃d : Double F⦄ where
  abbrev pub fee_schedule_default : FeeSchedule F
  fee_schedule_default = record {
    maker_fee_bps = whole 0;
    taker_fee_bps = whole 2;
    maker_rebate_bps = d.decimal (pos 5) 1;
    fixed_order_fee_usd = whole 0;
    dynamic_fee_scale = whole 1;
  }

  -- A NULL schedule stands for the default.
  abbrev schedule : Option (FeeSchedule F) → FeeSchedule F
  schedule none = fee_schedule_default
  schedule (some s) = s

  -- `(double)price / (double)PT_PRICE_SCALE`
  abbrev pub probability : ℤ → F
  probability price = d.div (d.of_int price) (whole price_scale)

  abbrev bps : F → F
  bps x = d.div x (whole 10_000)

  -- The fees before the fixed one.
  abbrev rate_fees : FeeSchedule F → Bool → F → F
  rate_fees s true p = d.mul (d.mul p (bps s.taker_fee_bps)) s.dynamic_fee_scale
  rate_fees s false p =
      if d.lt (whole 0) s.maker_fee_bps then d.mul p (bps s.maker_fee_bps) else whole 0

  abbrev fixed_fees : FeeSchedule F → ℕ → F → F
  fixed_fees s size fees =
      if d.lt (whole 0) s.fixed_order_fee_usd && ltb 0 size
      then d.add fees (d.div s.fixed_order_fee_usd (d.of_nat size))
      else fees

  abbrev net : EdgeBreakdown F → F
  net e =
      let after_fees = d.add (d.sub e.gross_edge e.fees) e.rebates in
      let after_impact = d.sub (d.sub (d.sub after_fees e.spread_cost) e.slippage) e.latency_cost in
      d.sub (d.sub after_impact e.adverse_selection) e.hedging_cost

  abbrev components : FeeSchedule F → F → Costs F → EdgeBreakdown F
  components s p c = record {
    gross_edge = c.raw_prob_edge;
    fees = fixed_fees s c.size (rate_fees s c.is_taker p);
    rebates = if c.is_taker then whole 0 else d.mul p (bps s.maker_rebate_bps);
    spread_cost =
        if c.is_taker && d.lt (whole 0) c.spread_prob
        then d.div c.spread_prob (whole 2)
        else whole 0;
    slippage = d.mul p (bps c.slippage_bps);
    latency_cost = c.latency_buffer;
    adverse_selection = d.mul p (bps c.adverse_sel_bps);
    hedging_cost = c.hedge_buffer;
    net_edge = whole 0;
  }

  pub calc : Option (FeeSchedule F) → Costs F → EdgeBreakdown F
  calc fees c =
      let p₀ = probability c.price_scaled in
      let p = if d.le p₀ (whole 0) then d.decimal (pos 5) 1 else p₀ in
      let e = components (schedule fees) p c in record e { net_edge = net e }

  pub fee_usd : Option (FeeSchedule F) → Bool → ℤ → ℕ → F
  fee_usd fees is_taker price size =
      let s = schedule fees in
      let notional = d.mul (probability price) (d.of_nat size) in
      if size == 0
      then whole 0
      else if is_taker
      then d.add (d.mul notional (bps s.taker_fee_bps)) s.fixed_order_fee_usd
      else d.sub (d.mul notional (bps s.maker_fee_bps)) (d.mul notional (bps s.maker_rebate_bps))
