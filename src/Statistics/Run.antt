-- ===== src/Statistics/Run.antt =====
-- src/analytics/pt_strategy_stats.c: what the counters of both strategies keep through any calls.
use polymarket_trade_engine.Prelude.{
  ℕ, suc, ◌+◌, ◌≤◌, ◌<◌, Bool, true, false, Bool-cases, ◌≡◌, refl, ◌⊎◌, inl, inr, List, [], ◌∷◌, ℤ,
  pos, eqb_ℤ, length, word, arith,
}
use polymarket_trade_engine.Double.{Double, whole}
use polymarket_trade_engine.Statistics.File.{record_settlement}
use polymarket_trade_engine.Statistics.{
  StratStats, StatsTracker, Settlement, in_strat, zero_stats, empty, net_of, rate_of, count_signal,
  count_order, count_fill, count_settlement, count_cancel, count_hedge, count_complete,
  record_signal, record_order, record_fill, record_cancel, record_arb_hedge, record_arb_complete,
}

-- The calls that record something.
pub data Call (F : Type 0) : Type 0 where
  signals : ℤ → Bool → Bool → F → F → Call F
  orders : ℤ → ℕ → Call F
  fills : ℤ → F → F → F → F → Bool → Call F
  cancels : ℤ → Call F
  hedges : F → Call F
  completes : Call F
  settles : Settlement F → Call F

module _ {F : Type 0} ⦃d : Double F⦄ where
  unfoldable pub apply : StatsTracker F → Call F → StatsTracker F
  apply st (Call.signals k approved would expected executable) =
      record_signal st k approved would expected executable
  apply st (Call.orders k queue_ahead) = record_order st k queue_ahead
  apply st (Call.fills k slippage fee rebate wait is_partial) =
      record_fill st k slippage fee rebate wait is_partial
  apply st (Call.cancels k) = record_cancel st k
  apply st (Call.hedges cost) = record_arb_hedge st cost
  apply st Call.completes = record_arb_complete st
  apply st (Call.settles x) = (record_settlement st x).0

  unfoldable pub run : StatsTracker F → List (Call F) → StatsTracker F
  run st [] = st
  run st (c ∷ cs) = run (apply st c) cs

  -- A strategy's statistics after at most `n` calls.
  pub record IsStats (n : ℕ) (s : StratStats F) : Type 0 where
    pub signals-le : s.signals ≤ n
    pub would-le : s.would_trade ≤ s.signals
    pub approved-le : s.risk_approved ≤ s.signals
    pub orders-le : s.orders_submitted ≤ n
    pub observed : s.queue_observations ≡ s.orders_submitted
    pub filled : s.fills + s.partial_fills ≤ n
    pub settled : s.wins + s.losses ≤ n
    pub rate : s.win_rate ≡ rate_of s.wins s.losses
    pub net : (s.net_pnl ≡ whole 0) ⊎ (s.net_pnl ≡ net_of s.realized_pnl s.fees s.rebates)

  pub IsTracked : ℕ → StatsTracker F → Type 0
  IsTracked n st = IsStats n st.strat_a × IsStats n st.strat_b

  IsStats-relaxed : (n m : ℕ) (s : StratStats F) → n ≤ m → IsStats n s → IsStats m s
  IsStats-relaxed n m s le i = record {
    signals-le = omega (arith, i.signals-le);
    would-le = i.would-le;
    approved-le = i.approved-le;
    orders-le = omega (arith, i.orders-le);
    observed = i.observed;
    filled = omega (arith, i.filled);
    settled = omega (arith, i.settled);
    rate = i.rate;
    net = i.net;
  }

  later : (n : ℕ) (s : StratStats F) → IsStats n s → IsStats (suc n) s
  later n s i = IsStats-relaxed n (suc n) s (omega arith) i

  in_strat-IsTracked :
      (n : ℕ) (k : ℤ) (f : StratStats F → StratStats F) (st : StatsTracker F)
      → ((s : StratStats F) → IsStats n s → IsStats (suc n) (f s))
      → IsTracked n st
      → IsTracked (suc n) (in_strat k f st)
  unfolding IsTracked
  in_strat-IsTracked n k f st h t = elim (Bool-cases (eqb_ℤ k (pos 0))) [
    | inl e ↦ rw e (h st.strat_a t.0, later n st.strat_b t.1)
    | inr e ↦ rw e (later n st.strat_a t.0, h st.strat_b t.1)
  ]

  count_signal-IsStats :
      (n : ℕ) (approved would : Bool) (expected executable : F) (s : StratStats F)
      → suc n < word
      → IsStats n s
      → IsStats (suc n) (count_signal approved would expected executable s)
  count_signal-IsStats n true true expected executable s small i = record {
    signals-le = omega (arith, i.signals-le);
    would-le = omega (arith, i.signals-le, i.would-le);
    approved-le = omega (arith, i.signals-le, i.approved-le);
    orders-le = omega (arith, i.orders-le);
    observed = i.observed;
    filled = omega (arith, i.filled);
    settled = omega (arith, i.settled);
    rate = i.rate;
    net = i.net;
  }
  count_signal-IsStats n true false expected executable s small i = record {
    signals-le = omega (arith, i.signals-le);
    would-le = omega (arith, i.signals-le, i.would-le);
    approved-le = omega (arith, i.signals-le, i.approved-le);
    orders-le = omega (arith, i.orders-le);
    observed = i.observed;
    filled = omega (arith, i.filled);
    settled = omega (arith, i.settled);
    rate = i.rate;
    net = i.net;
  }
  count_signal-IsStats n false true expected executable s small i = record {
    signals-le = omega (arith, i.signals-le);
    would-le = omega (arith, i.signals-le, i.would-le);
    approved-le = omega (arith, i.signals-le, i.approved-le);
    orders-le = omega (arith, i.orders-le);
    observed = i.observed;
    filled = omega (arith, i.filled);
    settled = omega (arith, i.settled);
    rate = i.rate;
    net = i.net;
  }
  count_signal-IsStats n false false expected executable s small i = record {
    signals-le = omega (arith, i.signals-le);
    would-le = omega (arith, i.signals-le, i.would-le);
    approved-le = omega (arith, i.signals-le, i.approved-le);
    orders-le = omega (arith, i.orders-le);
    observed = i.observed;
    filled = omega (arith, i.filled);
    settled = omega (arith, i.settled);
    rate = i.rate;
    net = i.net;
  }

  count_order-IsStats :
      (n queue_ahead : ℕ) (s : StratStats F)
      → suc n < word
      → IsStats n s
      → IsStats (suc n) (count_order queue_ahead s)
  count_order-IsStats n queue_ahead s small i = record {
    signals-le = omega (arith, i.signals-le);
    would-le = i.would-le;
    approved-le = i.approved-le;
    orders-le = omega (arith, i.orders-le);
    observed = omega (arith, i.observed, i.orders-le);
    filled = omega (arith, i.filled);
    settled = omega (arith, i.settled);
    rate = i.rate;
    net = i.net;
  }

  count_fill-IsStats :
      (n : ℕ) (slippage fee rebate wait : F) (is_partial : Bool) (s : StratStats F)
      → suc n < word
      → IsStats n s
      → IsStats (suc n) (count_fill slippage fee rebate wait is_partial s)
  count_fill-IsStats n slippage fee rebate wait true s small i = record {
    signals-le = omega (arith, i.signals-le);
    would-le = i.would-le;
    approved-le = i.approved-le;
    orders-le = omega (arith, i.orders-le);
    observed = i.observed;
    filled = omega (arith, i.filled);
    settled = omega (arith, i.settled);
    rate = i.rate;
    net = inr refl;
  }
  count_fill-IsStats n slippage fee rebate wait false s small i = record {
    signals-le = omega (arith, i.signals-le);
    would-le = i.would-le;
    approved-le = i.approved-le;
    orders-le = omega (arith, i.orders-le);
    observed = i.observed;
    filled = omega (arith, i.filled);
    settled = omega (arith, i.settled);
    rate = i.rate;
    net = inr refl;
  }

  count_settlement-IsStats :
      (n : ℕ) (x : Settlement F) (s : StratStats F)
      → suc n < word
      → IsStats n s
      → IsStats (suc n) (count_settlement x s)
  count_settlement-IsStats n x s small i = elim (Bool-cases x.is_win) [
    | inl e ↦ record {
      signals-le = omega (arith, i.signals-le);
      would-le = i.would-le;
      approved-le = i.approved-le;
      orders-le = omega (arith, i.orders-le);
      observed = i.observed;
      filled = omega (arith, i.filled);
      settled = rw e (omega (arith, i.settled));
      rate = refl;
      net = inr refl;
    }
    | inr e ↦ record {
      signals-le = omega (arith, i.signals-le);
      would-le = i.would-le;
      approved-le = i.approved-le;
      orders-le = omega (arith, i.orders-le);
      observed = i.observed;
      filled = omega (arith, i.filled);
      settled = rw e (omega (arith, i.settled));
      rate = refl;
      net = inr refl;
    }
  ]

  count_cancel-IsStats : (n : ℕ) (s : StratStats F) → IsStats n s → IsStats (suc n) (count_cancel s)
  count_cancel-IsStats n s i = record {
    signals-le = omega (arith, i.signals-le);
    would-le = i.would-le;
    approved-le = i.approved-le;
    orders-le = omega (arith, i.orders-le);
    observed = i.observed;
    filled = omega (arith, i.filled);
    settled = omega (arith, i.settled);
    rate = i.rate;
    net = i.net;
  }

  count_hedge-IsStats :
      (n : ℕ) (cost : F) (s : StratStats F) → IsStats n s → IsStats (suc n) (count_hedge cost s)
  count_hedge-IsStats n cost s i = record {
    signals-le = omega (arith, i.signals-le);
    would-le = i.would-le;
    approved-le = i.approved-le;
    orders-le = omega (arith, i.orders-le);
    observed = i.observed;
    filled = omega (arith, i.filled);
    settled = omega (arith, i.settled);
    rate = i.rate;
    net = i.net;
  }

  count_complete-IsStats :
      (n : ℕ) (s : StratStats F) → IsStats n s → IsStats (suc n) (count_complete s)
  count_complete-IsStats n s i = record {
    signals-le = omega (arith, i.signals-le);
    would-le = i.would-le;
    approved-le = i.approved-le;
    orders-le = omega (arith, i.orders-le);
    observed = i.observed;
    filled = omega (arith, i.filled);
    settled = omega (arith, i.settled);
    rate = i.rate;
    net = i.net;
  }

  apply-IsTracked :
      (n : ℕ) (st : StatsTracker F) (c : Call F)
      → suc n < word
      → IsTracked n st
      → IsTracked (suc n) (apply st c)
  unfolding apply IsTracked record_signal record_order record_fill record_cancel record_arb_hedge
      record_arb_complete record_settlement
  apply-IsTracked n st (Call.signals k approved would expected executable) small t =
      in_strat-IsTracked n k (count_signal approved would expected executable) st
        (λ s i. count_signal-IsStats n approved would expected executable s small i) t
  apply-IsTracked n st (Call.orders k queue_ahead) small t =
      in_strat-IsTracked n k (count_order queue_ahead) st
        (λ s i. count_order-IsStats n queue_ahead s small i) t
  apply-IsTracked n st (Call.fills k slippage fee rebate wait is_partial) small t =
      in_strat-IsTracked n k (count_fill slippage fee rebate wait is_partial) st
        (λ s i. count_fill-IsStats n slippage fee rebate wait is_partial s small i) t
  apply-IsTracked n st (Call.cancels k) small t =
      in_strat-IsTracked n k count_cancel st (count_cancel-IsStats n) t
  apply-IsTracked n st (Call.hedges cost) small t =
      (count_hedge-IsStats n cost st.strat_a t.0, later n st.strat_b t.1)
  apply-IsTracked n st Call.completes small t =
      (count_complete-IsStats n st.strat_a t.0, later n st.strat_b t.1)
  apply-IsTracked n st (Call.settles x) small t =
      in_strat-IsTracked n x.strategy (count_settlement x) st
        (λ s i. count_settlement-IsStats n x s small i) t

  run-IsTracked :
      (n m : ℕ) (st : StatsTracker F) (cs : List (Call F))
      → n + length cs ≤ m
      → m < word
      → IsTracked n st
      → IsTracked m (run st cs)
  unfolding run IsTracked
  run-IsTracked n m st [] le small t = (
    IsStats-relaxed n m st.strat_a (omega arith) t.0,
    IsStats-relaxed n m st.strat_b (omega arith) t.1,
  )
  run-IsTracked n m st (c ∷ cs) le small t =
      run-IsTracked (suc n) m (apply st c) cs (omega arith) small
        (apply-IsTracked n st c (omega arith) t)

  zero-IsStats : IsStats 0 zero_stats
  zero-IsStats = record {
    signals-le = omega arith;
    would-le = omega arith;
    approved-le = omega arith;
    orders-le = omega arith;
    observed = refl;
    filled = omega arith;
    settled = omega arith;
    rate = refl;
    net = inl refl;
  }

  -- Through fewer than 2 ^ 64 calls on a fresh tracker without a file, for each strategy: what was approved or would
  -- trade was a signal, every order was observed in its queue, the fills with the partial ones and
  -- the settled trades are no more than the calls, the win rate is that of the wins and losses,
  -- and the net result is the realized one less fees plus rebates, unless it is still 0.
  pub run-empty-IsTracked :
      (cs : List (Call F)) → length cs < word → IsTracked (length cs) (run empty cs)
  unfolding IsTracked
  run-empty-IsTracked cs small =
      run-IsTracked 0 (length cs) empty cs (omega arith) small (zero-IsStats, zero-IsStats)
