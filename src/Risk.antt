-- ===== src/Risk.antt =====
-- src/risk/pt_risk.c and include/risk/pt_risk.h: the pre-trade gate. The engine, the signal and the
-- out parameter are never NULL. The fields of `pt_signal_t` that the gate does not read are left out.
pub mod Gate
pub mod Latch
pub mod Rate
mod Tests
use Prim.Native.String.{String}
use polymarket_trade_engine.Prelude.{
  ℕ, ◌+◌, ◌%◌, ◌^◌, Bool, true, false, not, ◌&&◌, ◌||◌, Option, none, some, if◌then◌else◌, ltb, leb,
  ◌==◌, ℤ, pos, ◌+ℤ◌, ltb_ℤ, leb_ℤ, add64,
}
use polymarket_trade_engine.Types.{price_scale}
use polymarket_trade_engine.Double.{Double, whole}

-- `pt_risk_cfg_t`
pub record Config (F : Type 0) : Type 0 where
  pub max_position_per_market : F
  pub max_total_exposure : F
  pub max_order_size_shares : F
  pub max_daily_loss : F
  pub max_drawdown : F
  pub max_polymarket_stale_ns : ℕ
  pub max_binance_stale_ns : ℕ
  pub max_spread_for_entry : F
  pub max_consecutive_losses : ℤ
  pub min_confidence_floor : F
  pub max_orders_per_sec : ℕ
  pub max_latency_ms : F

-- `pt_risk_reject_t`; `approved` is PT_REJECT_NONE.
pub data Verdict : Type 0 where
  approved kill_switch_active daily_loss_exceeded drawdown_exceeded : Verdict
  consecutive_losses position_limit total_exposure_limit max_order_size : Verdict
  poly_feed_stale binance_feed_stale spread_too_wide low_confidence : Verdict
  rate_limit_exceeded latency_too_high invalid_price : Verdict

-- `pt_risk_engine_t`
pub record RiskEngine (F : Type 0) : Type 0 where
  pub cfg : Config F
  pub kill_switch_tripped : Bool
  pub kill_reason : Option String
  pub total_exposure : F
  pub daily_pnl : F
  pub peak_pnl : F
  pub consecutive_losses : ℤ
  pub last_poly_update_t : ℕ
  pub last_binance_update_t : ℕ
  pub total_evaluated : ℕ
  pub total_rejected : ℕ
  pub rate_window_start_t : ℕ
  pub orders_in_current_sec : ℕ

-- The part of `pt_signal_t` (include/strategies/pt_signal.h) that the gate reads.
pub record Signal (F : Type 0) : Type 0 where
  pub target_price : ℤ
  pub confidence : F
  pub max_size : ℕ
  pub poly_spread : F

-- 6. A feed that was seen, and not for too long.
abbrev pub is_stale : ℕ → ℕ → ℕ → Bool
is_stale max_stale last now = (ltb 0 max_stale && ltb 0 last) && ltb (add64 last max_stale) now

-- 9. What the limits allow, or why nothing is.
pub data Sizing : Type 0 where
  refused : Verdict → Sizing
  sized : ℕ → Sizing

module _ {F : Type 0} ⦃d : Double F⦄ where
  -- The bytes of a `pt_risk_cfg_t` that are all 0.
  abbrev pub zero_config : Config F
  zero_config = record {
    max_position_per_market = whole 0;
    max_total_exposure = whole 0;
    max_order_size_shares = whole 0;
    max_daily_loss = whole 0;
    max_drawdown = whole 0;
    max_polymarket_stale_ns = 0;
    max_binance_stale_ns = 0;
    max_spread_for_entry = whole 0;
    max_consecutive_losses = pos 0;
    min_confidence_floor = whole 0;
    max_orders_per_sec = 0;
    max_latency_ms = whole 0;
  }

  abbrev with_defaults : Config F → Config F
  with_defaults c = record c {
    max_orders_per_sec = if c.max_orders_per_sec == 0 then 50 else c.max_orders_per_sec;
    max_order_size_shares =
        if d.eq c.max_order_size_shares (whole 0) then whole 1000 else c.max_order_size_shares;
  }

  pub init : Option (Config F) → RiskEngine F
  init cfg = record {
    cfg = with_defaults (elim cfg [ none ↦ zero_config | some c ↦ c ]);
    kill_switch_tripped = false;
    kill_reason = none;
    total_exposure = whole 0;
    daily_pnl = whole 0;
    peak_pnl = whole 0;
    consecutive_losses = pos 0;
    last_poly_update_t = 0;
    last_binance_update_t = 0;
    total_evaluated = 0;
    total_rejected = 0;
    rate_window_start_t = 0;
    orders_in_current_sec = 0;
  }

  pub feed_touch_poly : RiskEngine F → ℕ → RiskEngine F
  feed_touch_poly r now = record r { last_poly_update_t = now }

  pub feed_touch_binance : RiskEngine F → ℕ → RiskEngine F
  feed_touch_binance r now = record r { last_binance_update_t = now }

  abbrev pub trip_kill : RiskEngine F → Option String → RiskEngine F
  trip_kill r reason = record r {
    kill_switch_tripped = true;
    kill_reason = some (elim reason [ none ↦ "manual" | some s ↦ s ]);
  }

  pub reset_kill : RiskEngine F → RiskEngine F
  reset_kill r = record r { kill_switch_tripped = false; kill_reason = none }

  abbrev pub is_tripped : RiskEngine F → Bool
  is_tripped r = r.kill_switch_tripped

  -- 2. The window of one second starts anew where it has passed.
  pub roll_window : ℕ → RiskEngine F → RiskEngine F
  roll_window now r =
      if r.rate_window_start_t == 0 || leb (add64 r.rate_window_start_t 1_000_000_000) now
      then record r { rate_window_start_t = now; orders_in_current_sec = 0 }
      else r

  abbrev pub rate_exceeded : RiskEngine F → Bool
  rate_exceeded r =
      ltb 0 r.cfg.max_orders_per_sec && leb r.cfg.max_orders_per_sec r.orders_in_current_sec

  -- 3. `daily_pnl <= -fabs(max_daily_loss)`
  abbrev pub daily_loss : RiskEngine F → Bool
  daily_loss r = d.le r.daily_pnl (d.neg (d.abs r.cfg.max_daily_loss))

  -- 4. `dd >= fabs(max_drawdown)`
  abbrev pub drawn_down : RiskEngine F → Bool
  drawn_down r = d.le (d.abs r.cfg.max_drawdown) (d.sub r.peak_pnl r.daily_pnl)

  abbrev pub losing_streak : RiskEngine F → Bool
  losing_streak r =
      ltb_ℤ (pos 0) r.cfg.max_consecutive_losses
      && leb_ℤ r.cfg.max_consecutive_losses r.consecutive_losses

  -- The cap on one order, in shares.
  pub cap_order : Config F → ℕ → ℕ
  cap_order cfg n =
      if d.lt (whole 0) cfg.max_order_size_shares && d.lt cfg.max_order_size_shares (d.of_nat n)
      then d.to_nat cfg.max_order_size_shares
      else n

  abbrev pub notional_per_share : Signal F → F
  notional_per_share sig = d.div (d.of_int sig.target_price) (whole price_scale)

  abbrev pub room_market : RiskEngine F → F → F
  room_market r exposure = d.sub r.cfg.max_position_per_market exposure

  abbrev pub room_total : RiskEngine F → F
  room_total r = d.sub r.cfg.max_total_exposure r.total_exposure

  abbrev pub min_room : RiskEngine F → F → F
  min_room r exposure =
      if d.lt (room_market r exposure) (room_total r) then room_market r exposure else room_total r

  -- The shares that the smaller room pays for, capped.
  abbrev pub allowed_shares : RiskEngine F → Signal F → F → ℕ
  allowed_shares r sig exposure =
      cap_order r.cfg (d.to_nat (d.div (min_room r exposure) (notional_per_share sig)))

  pub size_order : RiskEngine F → Signal F → F → Sizing
  size_order r sig exposure =
      if d.le (notional_per_share sig) (d.decimal (pos 1) 3)
      then refused invalid_price
      else if d.le (room_market r exposure) (whole 0)
      then refused position_limit
      else if d.le (room_total r) (whole 0)
      then refused total_exposure_limit
      else let allowed = allowed_shares r sig exposure in
        if allowed == 0
        then refused total_exposure_limit
        else sized (cap_order r.cfg (if ltb sig.max_size allowed then sig.max_size else allowed))

  -- A call returns the engine, the verdict and `*size_approved`.
  abbrev reject : RiskEngine F → Verdict → RiskEngine F × Verdict × ℕ
  reject r v = (record r { total_rejected = add64 r.total_rejected 1 }, v, 0)

  abbrev pub approve : RiskEngine F → ℕ → RiskEngine F × Verdict × ℕ
  approve r size =
      (record r { orders_in_current_sec = (r.orders_in_current_sec + 1) % 2 ^ 32 }, approved, size)

  -- 6 to 9.
  pub check_signal : RiskEngine F → Signal F → F → ℕ → RiskEngine F × Verdict × ℕ
  check_signal r sig exposure now =
      if is_stale r.cfg.max_polymarket_stale_ns r.last_poly_update_t now
      then reject r poly_feed_stale
      else if is_stale r.cfg.max_binance_stale_ns r.last_binance_update_t now
      then reject r binance_feed_stale
      else if d.lt r.cfg.max_spread_for_entry sig.poly_spread
      then reject r spread_too_wide
      else if d.lt sig.confidence r.cfg.min_confidence_floor
      then reject r low_confidence
      else elim (size_order r sig exposure) [ refused v ↦ reject r v | sized n ↦ approve r n ]

  -- 3 to 5.
  pub check_losses : RiskEngine F → Signal F → F → ℕ → RiskEngine F × Verdict × ℕ
  check_losses r sig exposure now =
      if daily_loss r
      then reject (trip_kill r (some "max_daily_loss_exceeded")) daily_loss_exceeded
      else if drawn_down r
      then reject (trip_kill r (some "max_drawdown_exceeded")) drawdown_exceeded
      else if losing_streak r
      then reject (trip_kill r (some "consecutive_losses_exceeded")) consecutive_losses
      else check_signal r sig exposure now

  pub check_rate : RiskEngine F → Signal F → F → ℕ → RiskEngine F × Verdict × ℕ
  check_rate r sig exposure now =
      if rate_exceeded r then reject r rate_limit_exceeded else check_losses r sig exposure now

  pub evaluate_signal : RiskEngine F → Signal F → F → ℕ → RiskEngine F × Verdict × ℕ
  evaluate_signal r sig exposure now =
      let r' = record r { total_evaluated = add64 r.total_evaluated 1 } in
      if r.kill_switch_tripped
      then reject r' kill_switch_active
      else check_rate (roll_window now r') sig exposure now

  pub on_fill : RiskEngine F → F → RiskEngine F
  on_fill r notional_usd = record r { total_exposure = d.add r.total_exposure notional_usd }

  pub on_trade_pnl : RiskEngine F → F → RiskEngine F
  on_trade_pnl r pnl =
      let daily = d.add r.daily_pnl pnl in
      record r {
        daily_pnl = daily;
        peak_pnl = if d.lt r.peak_pnl daily then daily else r.peak_pnl;
        consecutive_losses =
            if d.lt pnl (whole 0)
            then r.consecutive_losses +ℤ pos 1
            else if d.lt (whole 0) pnl
            then pos 0
            else r.consecutive_losses;
      }
