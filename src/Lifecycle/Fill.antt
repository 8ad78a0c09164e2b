-- ===== src/Lifecycle/Fill.antt =====
-- src/analytics/pt_lifecycle_tracker.c, `pt_lifecycle_on_fill_ex`: which leg a fill belongs to, and the
-- state it leads to.
use polymarket_trade_engine.Prelude.{
  ℕ, ◌+◌, ◌/◌, ◌%◌, ◌^◌, Bool, not, ◌&&◌, ◌||◌, if◌then◌else◌, ltb, leb, ◌==◌, ℤ, pos, negsuc, ◌+ℤ◌,
  ◌*ℤ◌, eqb_ℤ, add64, to_int64, to_uint64,
}
use polymarket_trade_engine.Double.{Double}
use polymarket_trade_engine.Lifecycle.{
  State, partial, one_leg_filled, both_legs_filled, Leg, Opportunity, Tracker, at_first, parity5m,
}

-- The arguments of a fill, `is_yes` -1 where the caller does not know it.
pub record FillEvent (F : Type 0) : Type 0 where
  pub signal_id : ℕ
  pub order_id : ℕ
  pub is_yes : ℤ
  pub fill_qty : ℕ
  pub fill_price : ℤ
  pub filled_edge : F
  pub latency_ms : F
  pub fees : F
  pub rebates : F
  pub slippage : F
  pub fill_id : ℕ

module _ {F : Type 0} where
  -- A record is met by its signal or by one of its orders.
  abbrev pub is_match : FillEvent F → Opportunity F → Bool
  is_match e r =
      ltb 0 e.signal_id && r.signal_id == e.signal_id
      || ltb 0 e.order_id && (r.leg_a.order_id == e.order_id || r.leg_b.order_id == e.order_id)

  abbrev pub is_parity : Opportunity F → Bool
  is_parity r = eqb_ℤ r.strategy parity5m

  -- Whether the fill goes to the second leg.
  abbrev pub hits_leg_b : FillEvent F → Opportunity F → Bool
  hits_leg_b e r =
      is_parity r
      && (ltb 0 e.order_id && r.leg_b.order_id == e.order_id
          || (eqb_ℤ e.is_yes (pos 0) && ltb 0 r.leg_b.requested_size)
            && (e.order_id == 0 || not (r.leg_a.order_id == e.order_id)))

  abbrev pub is_leg_filled : Leg F → Bool
  is_leg_filled l = leb l.requested_size l.filled_size

  -- The state and the status that the filled sizes of the legs give.
  unfoldable pub fill_state : Opportunity F → State × ℕ
  fill_state r =
      let a = r.leg_a in
      let b = r.leg_b in
      if is_parity r
      then if (is_leg_filled a && is_leg_filled b)
          && (ltb 0 a.requested_size && ltb 0 b.requested_size)
        then (both_legs_filled, 2)
        else if is_leg_filled a && b.filled_size == 0 || is_leg_filled b && a.filled_size == 0
        then (one_leg_filled, 1)
        else (partial, 1)
      else if is_leg_filled a && ltb 0 a.requested_size
      then (one_leg_filled, r.arb_status)
      else (partial, r.arb_status)

module _ {F : Type 0} ⦃d : Double F⦄ where
  unfoldable pub fill_leg : FillEvent F → Leg F → Leg F
  fill_leg e l =
      let total = add64 l.filled_size e.fill_qty in
      let cost = l.cum_cost_scaled +ℤ to_int64 e.fill_qty *ℤ e.fill_price in
      record l {
        filled_size = total;
        fill_count = (l.fill_count + 1) % 2 ^ 32;
        cum_cost_scaled = cost;
        avg_fill_price =
            if ltb 0 total then to_int64 (to_uint64 cost / total) else l.avg_fill_price;
        fees = d.add l.fees e.fees;
        rebates = d.add l.rebates e.rebates;
        slippage = d.add l.slippage e.slippage;
        latency_ms = e.latency_ms;
        last_fill_id = e.fill_id;
      }

  abbrev pub with_leg : FillEvent F → Opportunity F → Opportunity F
  with_leg e r =
      if hits_leg_b e r
      then record r { leg_b = fill_leg e r.leg_b }
      else record r { leg_a = fill_leg e r.leg_a }

  -- The fields that sum up the legs; `hit_b` says which leg was filled.
  abbrev summed : FillEvent F → Bool → Opportunity F → Opportunity F
  summed e hit_b r =
      let total_req = add64 r.leg_a.requested_size r.leg_b.requested_size in
      let total_fill = add64 r.leg_a.filled_size r.leg_b.filled_size in
      record r {
        filled_size = r.leg_a.filled_size;
        leg_b_filled_size = r.leg_b.filled_size;
        fill_id = if hit_b then r.fill_id else e.fill_id;
        leg_b_fill_id = if hit_b then e.fill_id else r.leg_b_fill_id;
        filled_edge = e.filled_edge;
        latency_ms = e.latency_ms;
        fees = d.add r.leg_a.fees r.leg_b.fees;
        rebates = d.add r.leg_a.rebates r.leg_b.rebates;
        slippage = d.add r.leg_a.slippage r.leg_b.slippage;
        fill_ratio =
            if ltb 0 total_req
            then d.div (d.of_nat total_fill) (d.of_nat total_req)
            else r.fill_ratio;
      }

  unfoldable pub fill_record : FillEvent F → Opportunity F → Opportunity F
  fill_record e r =
      let r₁ = with_leg e r in
      let (state, arb_status) = fill_state r₁ in
      summed e (hits_leg_b e r) (record r₁ { state = state; arb_status = arb_status })

  unfoldable pub on_fill_ex : Tracker F → FillEvent F → Tracker F
  on_fill_ex t e =
      if e.fill_qty == 0
      then t
      else record t { records = at_first (is_match e) (fill_record e) t.records }

  -- A fill that names its signal only; `e.order_id` and `e.is_yes` are not used.
  pub on_fill : Tracker F → FillEvent F → Tracker F
  on_fill t e = on_fill_ex t (record e { order_id = 0; is_yes = negsuc 0 })
