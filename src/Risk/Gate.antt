-- ===== src/Risk/Gate.antt =====
-- What an approval of the risk gate means, and what a rejection does.
use polymarket_trade_engine.Prelude.{
  ℕ, ◌+◌, ◌≤◌, ◌^◌, ◌%◌, ◌≡◌, ◌≢◌, true, false, ◌⊎◌, if◌then◌else◌, ltb, pos, add64, arith,
}
use polymarket_trade_engine.Double.{Double, whole}
use polymarket_trade_engine.Risk.{
  RiskEngine, Config, Signal, Verdict, Sizing, evaluate_signal, check_rate, check_losses,
  check_signal, size_order, roll_window, rate_exceeded, daily_loss, drawn_down, losing_streak,
  is_stale, cap_order, notional_per_share, room_market, room_total, min_room, allowed_shares,
  approve,
}

-- `(uint64_t)x` of a positive x drops its fraction: it is at most any integer that x is below.
pub record IsTruncating (F : Type 0) ⦃d : Double F⦄ : Type 0 where
  pub to_nat-le :
      (x : F) (n : ℕ) → d.lt (whole 0) x ≡ true → d.lt x (d.of_nat n) ≡ true → d.to_nat x ≤ n

module _ {F : Type 0} ⦃d : Double F⦄ where
  -- The states and signals for which nothing stands against an order.
  pub record Clear (r : RiskEngine F) (sig : Signal F) (exposure : F) (now : ℕ) : Type 0 where
    pub no_kill : r.kill_switch_tripped ≡ false
    pub in_rate : rate_exceeded (roll_window now r) ≡ false
    pub no_loss : daily_loss r ≡ false
    pub no_drawdown : drawn_down r ≡ false
    pub no_streak : losing_streak r ≡ false
    pub poly_fresh : is_stale r.cfg.max_polymarket_stale_ns r.last_poly_update_t now ≡ false
    pub binance_fresh : is_stale r.cfg.max_binance_stale_ns r.last_binance_update_t now ≡ false
    pub spread : d.lt r.cfg.max_spread_for_entry sig.poly_spread ≡ false
    pub confidence : d.lt sig.confidence r.cfg.min_confidence_floor ≡ false
    pub price : d.le (notional_per_share sig) (d.decimal (pos 1) 3) ≡ false
    pub market : d.le (room_market r exposure) (whole 0) ≡ false
    pub total : d.le (room_total r) (whole 0) ≡ false

  -- The shares that the two rooms pay for.
  abbrev pub affordable : RiskEngine F → Signal F → F → ℕ
  affordable r sig exposure = d.to_nat (d.div (min_room r exposure) (notional_per_share sig))

  -- The invariants of an engine's parts that the gate does not touch before it decides.
  roll_window_keeps :
      (now n : ℕ) (r : RiskEngine F)
      → let r' = roll_window now (record r { total_evaluated = n }) in
        (r'.orders_in_current_sec ≡ (roll_window now r).orders_in_current_sec)
        × (rate_exceeded r' ≡ rate_exceeded (roll_window now r))
        × (r'.cfg ≡ r.cfg)
        × (r'.daily_pnl ≡ r.daily_pnl)
        × (r'.peak_pnl ≡ r.peak_pnl)
        × (r'.total_exposure ≡ r.total_exposure)
        × (r'.consecutive_losses ≡ r.consecutive_losses)
        × (r'.last_poly_update_t ≡ r.last_poly_update_t)
        × (r'.last_binance_update_t ≡ r.last_binance_update_t)
        × (r'.total_rejected ≡ r.total_rejected)
        × (r'.kill_switch_tripped ≡ r.kill_switch_tripped)
  unfolding roll_window
  roll_window_keeps now n r = ground arith

  cap_order-le : IsTruncating F → (cfg : Config F) (n : ℕ) → cap_order cfg n ≤ n
  unfolding cap_order
  cap_order-le laws cfg n = ground (arith, laws.to_nat-le cfg.max_order_size_shares n)

  size_order-le :
      IsTruncating F
      → (r : RiskEngine F) (sig : Signal F) (exposure : F) (n : ℕ)
      → size_order r sig exposure ≡ Sizing.sized n
      → (n ≤ sig.max_size)
        × (n ≤ affordable r sig exposure)
        × (d.le (notional_per_share sig) (d.decimal (pos 1) 3) ≡ false)
        × (d.le (room_market r exposure) (whole 0) ≡ false)
        × (d.le (room_total r) (whole 0) ≡ false)
  unfolding size_order
  size_order-le laws r sig exposure n e =
      let allowed = allowed_shares r sig exposure in
      ground (
        arith,
        cap_order-le laws r.cfg (affordable r sig exposure),
        cap_order-le laws r.cfg (if ltb sig.max_size allowed then sig.max_size else allowed),
      )

  pub size_order-ne :
      (r : RiskEngine F) (sig : Signal F) (exposure : F)
      → size_order r sig exposure ≢ Sizing.refused Verdict.approved
  unfolding size_order
  size_order-ne r sig exposure e = ground arith

  check_signal_approved :
      (r : RiskEngine F) (sig : Signal F) (exposure : F) (now n : ℕ) (r' : RiskEngine F)
      → check_signal r sig exposure now ≡ (r', Verdict.approved, n)
      → (is_stale r.cfg.max_polymarket_stale_ns r.last_poly_update_t now ≡ false)
        × (is_stale r.cfg.max_binance_stale_ns r.last_binance_update_t now ≡ false)
        × (d.lt r.cfg.max_spread_for_entry sig.poly_spread ≡ false)
        × (d.lt sig.confidence r.cfg.min_confidence_floor ≡ false)
        × (size_order r sig exposure ≡ Sizing.sized n)
        × (r' ≡ (approve r n).0)
  unfolding check_signal
  check_signal_approved r sig exposure now n r' e = ground (arith, size_order-ne r sig exposure)

  check_rate_approved :
      (r : RiskEngine F) (sig : Signal F) (exposure : F) (now n : ℕ) (r' : RiskEngine F)
      → check_rate r sig exposure now ≡ (r', Verdict.approved, n)
      → (rate_exceeded r ≡ false)
        × (daily_loss r ≡ false)
        × (drawn_down r ≡ false)
        × (losing_streak r ≡ false)
        × (check_signal r sig exposure now ≡ (r', Verdict.approved, n))
  unfolding check_rate check_losses
  check_rate_approved r sig exposure now n r' e = ground arith

  -- An order is approved only while the kill switch is off, the window has room, no loss limit is
  -- reached, no feed is stale, the spread and the confidence are within bounds, the price counts and
  -- both rooms are positive. Its size is then at most what the signal asks for and at most what the
  -- smaller room pays for. The order is counted in the window, nothing is counted as rejected, and
  -- the switch stays off. (Conversions to integers drop the fraction.)
  pub evaluate_signal_approved :
      IsTruncating F
      → (r : RiskEngine F) (sig : Signal F) (exposure : F) (now n : ℕ) (r' : RiskEngine F)
      → evaluate_signal r sig exposure now ≡ (r', Verdict.approved, n)
      → Clear r sig exposure now
        × (n ≤ sig.max_size)
        × (n ≤ affordable r sig exposure)
        × (r'.orders_in_current_sec ≡ ((roll_window now r).orders_in_current_sec + 1) % 2 ^ 32)
        × (r'.total_rejected ≡ r.total_rejected)
        × (r'.kill_switch_tripped ≡ false)
  unfolding evaluate_signal
  evaluate_signal_approved laws r sig exposure now n r' e =
      let k = roll_window_keeps now (add64 r.total_evaluated 1) r in
      let w = roll_window now (record r { total_evaluated = add64 r.total_evaluated 1 }) in
      ground (
        arith,
        check_rate_approved w sig exposure now n r',
        check_signal_approved w sig exposure now n r',
        size_order-le laws w sig exposure n,
        k,
      )

  -- What a rejection leaves behind.
  abbrev Rejected : RiskEngine F → RiskEngine F × Verdict × ℕ → Type 0
  Rejected r (r', v, n) =
      (n ≡ 0)
      × (r'.total_rejected ≡ add64 r.total_rejected 1)
      × (r'.total_evaluated ≡ r.total_evaluated)
      × (r'.orders_in_current_sec ≡ r.orders_in_current_sec)

  check_signal-Rejected :
      (r : RiskEngine F) (sig : Signal F) (exposure : F) (now : ℕ)
      → (check_signal r sig exposure now).1 ≢ Verdict.approved
      → Rejected r (check_signal r sig exposure now)
  unfolding check_signal
  check_signal-Rejected r sig exposure now e = ground arith

  check_rate-Rejected :
      (r : RiskEngine F) (sig : Signal F) (exposure : F) (now : ℕ)
      → (check_rate r sig exposure now).1 ≢ Verdict.approved
      → Rejected r (check_rate r sig exposure now)
  unfolding check_rate check_losses
  check_rate-Rejected r sig exposure now e =
      ground (arith, check_signal-Rejected r sig exposure now)

  roll_window_counts :
      (now : ℕ) (r : RiskEngine F)
      → ((roll_window now r).total_rejected ≡ r.total_rejected)
        × ((roll_window now r).total_evaluated ≡ r.total_evaluated)
        × (((roll_window now r).orders_in_current_sec ≡ r.orders_in_current_sec)
            ⊎ ((roll_window now r).orders_in_current_sec ≡ 0))
  unfolding roll_window
  roll_window_counts now r = ground arith

  -- A call that does not approve gives no size, counts one rejection, and counts no order: the
  -- window's count stays, or is 0 where the window starts anew.
  pub evaluate_signal_rejected :
      (r : RiskEngine F) (sig : Signal F) (exposure : F) (now : ℕ)
      → (evaluate_signal r sig exposure now).1 ≢ Verdict.approved
      → let (r', v, n) = evaluate_signal r sig exposure now in
        (n ≡ 0)
        × (r'.total_rejected ≡ add64 r.total_rejected 1)
        × (r'.total_evaluated ≡ add64 r.total_evaluated 1)
        × ((r'.orders_in_current_sec ≡ r.orders_in_current_sec) ⊎ (r'.orders_in_current_sec ≡ 0))
  unfolding evaluate_signal
  evaluate_signal_rejected r sig exposure now e =
      let r' = record r { total_evaluated = add64 r.total_evaluated 1 } in
      ground (
        arith,
        check_rate-Rejected (roll_window now r') sig exposure now,
        roll_window_counts now r',
      )
