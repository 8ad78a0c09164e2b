-- ===== src/Risk/Rate.antt =====
-- The rate limit of the risk gate: the orders approved in one window.
use polymarket_trade_engine.Prelude.{
  ℕ, ◌+◌, ◌^◌, ◌≤◌, ◌<◌, ◌≡◌, List, [], ◌∷◌, All, add64, word, arith,
}
use polymarket_trade_engine.Double.{Double}
use polymarket_trade_engine.Risk.{
  RiskEngine, Signal, Verdict, evaluate_signal, check_rate, check_losses, check_signal, roll_window,
}
use polymarket_trade_engine.Risk.Gate.{size_order-ne}

-- An evaluation: the signal, the market's exposure and the time.
pub record Request (F : Type 0) : Type 0 where
  pub signal : Signal F
  pub exposure : F
  pub now : ℕ

abbrev pub one_if_approved : Verdict → ℕ
one_if_approved Verdict.approved = 1
one_if_approved _ = 0

module _ {F : Type 0} ⦃d : Double F⦄ where
  -- How many of a sequence of requests are approved.
  pub approvals : RiskEngine F → List (Request F) → ℕ
  approvals r [] = 0
  approvals r (q ∷ qs) =
      let (r', v, n) = evaluate_signal r q.signal q.exposure q.now in
      one_if_approved v + approvals r' qs

  -- A window that began at `start` and holds at most as many orders as the limit allows.
  pub record InWindow (start limit : ℕ) (r : RiskEngine F) : Type 0 where
    pub began : r.rate_window_start_t ≡ start
    pub started : 0 < start
    pub no_wrap : start + 1_000_000_000 < word
    pub limited : r.cfg.max_orders_per_sec ≡ limit
    pub positive : 0 < limit
    pub fits : limit < 2 ^ 32
    pub counted : r.orders_in_current_sec ≤ limit

  -- One evaluation inside the window.
  abbrev Counts : ℕ → ℕ → RiskEngine F → RiskEngine F × Verdict × ℕ → Type 0
  Counts start limit r (r', v, n) =
      InWindow start limit r'
      × (r'.orders_in_current_sec ≡ r.orders_in_current_sec + one_if_approved v)

  check_signal-Counts :
      (start limit : ℕ) (r : RiskEngine F) (sig : Signal F) (exposure : F) (now : ℕ)
      → InWindow start limit r
      → r.orders_in_current_sec < limit
      → Counts start limit r (check_signal r sig exposure now)
  unfolding check_signal
  check_signal-Counts start limit r sig exposure now w h =
      ground (arith, size_order-ne r sig exposure)

  check_rate-Counts :
      (start limit : ℕ) (r : RiskEngine F) (sig : Signal F) (exposure : F) (now : ℕ)
      → InWindow start limit r
      → Counts start limit r (check_rate r sig exposure now)
  unfolding check_rate check_losses
  check_rate-Counts start limit r sig exposure now w =
      ground (arith, check_signal-Counts start limit r sig exposure now w)

  roll_window-inside :
      (start limit now n : ℕ) (r : RiskEngine F)
      → InWindow start limit r
      → now < start + 1_000_000_000
      → let r' = record r { total_evaluated = n } in roll_window now r' ≡ r'
  unfolding roll_window
  roll_window-inside start limit now n r w h = ground arith

  evaluate_signal-Counts :
      (start limit : ℕ) (r : RiskEngine F) (sig : Signal F) (exposure : F) (now : ℕ)
      → InWindow start limit r
      → now < start + 1_000_000_000
      → Counts start limit r (evaluate_signal r sig exposure now)
  unfolding evaluate_signal
  evaluate_signal-Counts start limit r sig exposure now w h =
      let r' = record r { total_evaluated = add64 r.total_evaluated 1 } in
      ground (
        arith,
        roll_window-inside start limit now (add64 r.total_evaluated 1) r w h,
        check_rate-Counts start limit r' sig exposure now,
      )

  -- While a window of one second lasts, however many requests come, the orders approved in it,
  -- those counted before included, are at most the limit per second.
  pub approvals-le :
      (start limit : ℕ) (r : RiskEngine F) (qs : List (Request F))
      → InWindow start limit r
      → All (λ q. q.now < start + 1_000_000_000) qs
      → r.orders_in_current_sec + approvals r qs ≤ limit
  unfolding approvals
  approvals-le start limit r [] w h = omega (arith, w.counted)
  approvals-le start limit r (q ∷ qs) w h =
      let c = evaluate_signal-Counts start limit r q.signal q.exposure q.now w h.0 in
      omega (
        arith,
        c.1,
        approvals-le start limit (evaluate_signal r q.signal q.exposure q.now).0 qs c.0 h.1,
      )
