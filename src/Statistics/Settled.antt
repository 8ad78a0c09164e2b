-- ===== src/Statistics/Settled.antt =====
-- src/analytics/pt_strategy_stats.c: the settled trades that are kept for the Sharpe ratio.
use polymarket_trade_engine.Prelude.{
  ℕ, zero, suc, ◌≤◌, Bool-cases, ltb, ltb→lt, ◌≡◌, refl, sym, ◌∙◌, ap, inl, inr, List, [], ◌∷◌,
  ◌++◌, take, length, length-append, arith, eqb_ℤ, pos, ℤ,
}
use polymarket_trade_engine.Double.{Double}
use polymarket_trade_engine.Statistics.File.{record_settlement}
use polymarket_trade_engine.Statistics.{
  StratStats, SettledTrade, StatsTracker, max_returns, in_strat, keep_trade, trade_of, count_signal,
  count_order, count_fill, count_cancel, record_signal, record_order, record_fill, record_cancel,
  record_arb_hedge, record_arb_complete,
}
use polymarket_trade_engine.Statistics.Run.{Call, apply, run}

take-full {ℓ} : {A : Type ℓ} (n : ℕ) (xs ys : List A) → length xs ≡ n → take n (xs ++ ys) ≡ xs
take-full zero [] ys e = refl
take-full zero (x ∷ xs) ys e = absurd (omega (arith, e))
take-full (suc n) [] ys e = absurd (omega (arith, e))
take-full (suc n) (x ∷ xs) ys e = rw (take-full n xs ys (omega (arith, e))) refl

take-upto {ℓ} : {A : Type ℓ} (n : ℕ) (xs : List A) → length xs ≤ n → take n (xs ++ []) ≡ xs
take-upto zero [] h = refl
take-upto zero (x ∷ xs) h = absurd (omega arith)
take-upto (suc n) [] h = refl
take-upto (suc n) (x ∷ xs) h = rw (take-upto n xs (omega arith)) refl

append-later {ℓ} :
    {A : Type ℓ} (xs : List A) (y : A) (ys : List A) → (xs ++ (y ∷ [])) ++ ys ≡ xs ++ (y ∷ ys)
append-later [] y ys = refl
append-later (x ∷ xs) y ys = rw (append-later xs y ys) refl

module _ {F : Type 0} ⦃d : Double F⦄ where
  -- The trades of all settlements, in their order.
  abbrev pub trades : List (Call F) → List (SettledTrade F)
  trades [] = []
  trades (Call.settles x ∷ cs) = trade_of x ∷ trades cs
  trades (c ∷ cs) = trades cs

  in_strat-settled :
      (k : ℤ) (f : StratStats F → StratStats F) (st : StatsTracker F)
      → (in_strat k f st).settled_trades ≡ st.settled_trades
  in_strat-settled k f st = elim (Bool-cases (eqb_ℤ k (pos 0))) [
    | inl e ↦ rw e refl
    | inr e ↦ rw e refl
  ]

  take-keep_trade :
      (xs ys : List (SettledTrade F)) (t : SettledTrade F)
      → length xs ≤ max_returns
      → take max_returns (keep_trade xs t ++ ys) ≡ take max_returns (xs ++ (t ∷ ys))
  unfolding keep_trade
  take-keep_trade xs ys t le = elim (Bool-cases (ltb (length xs) max_returns)) [
    | inl e ↦ rw e (ap (take max_returns) (append-later xs t ys))
    | inr e ↦
        let full : length xs ≡ max_returns = ground arith in
        rw e (take-full max_returns xs ys full ∙ sym (take-full max_returns xs (t ∷ ys) full))
  ]

  length-keep_trade :
      (xs : List (SettledTrade F)) (t : SettledTrade F)
      → length xs ≤ max_returns
      → length (keep_trade xs t) ≤ max_returns
  unfolding keep_trade
  length-keep_trade xs t le = elim (Bool-cases (ltb (length xs) max_returns)) [
    | inl e ↦ rw e (omega (arith, length-append xs (t ∷ []), ltb→lt (length xs) max_returns e))
    | inr e ↦ rw e le
  ]

  -- What a call leaves of the settled trades.
  abbrev kept : List (SettledTrade F) → Call F → List (SettledTrade F)
  kept xs (Call.settles x) = keep_trade xs (trade_of x)
  kept xs c = xs

  apply-kept :
      (st : StatsTracker F) (c : Call F) → (apply st c).settled_trades ≡ kept st.settled_trades c
  unfolding apply record_signal record_order record_fill record_cancel record_arb_hedge
      record_arb_complete record_settlement
  apply-kept st (Call.signals k approved would expected executable) =
      in_strat-settled k (count_signal approved would expected executable) st
  apply-kept st (Call.orders k queue_ahead) = in_strat-settled k (count_order queue_ahead) st
  apply-kept st (Call.fills k slippage fee rebate wait is_partial) =
      in_strat-settled k (count_fill slippage fee rebate wait is_partial) st
  apply-kept st (Call.cancels k) = in_strat-settled k count_cancel st
  apply-kept st (Call.hedges cost) = refl
  apply-kept st Call.completes = refl
  apply-kept st (Call.settles x) = refl

  take-kept :
      (xs : List (SettledTrade F)) (c : Call F) (cs : List (Call F))
      → length xs ≤ max_returns
      → take max_returns (kept xs c ++ trades cs) ≡ take max_returns (xs ++ trades (c ∷ cs))
  take-kept xs (Call.signals k approved would expected executable) cs le = refl
  take-kept xs (Call.orders k queue_ahead) cs le = refl
  take-kept xs (Call.fills k slippage fee rebate wait is_partial) cs le = refl
  take-kept xs (Call.cancels k) cs le = refl
  take-kept xs (Call.hedges cost) cs le = refl
  take-kept xs Call.completes cs le = refl
  take-kept xs (Call.settles x) cs le = take-keep_trade xs (trades cs) (trade_of x) le

  length-kept :
      (xs : List (SettledTrade F)) (c : Call F)
      → length xs ≤ max_returns
      → length (kept xs c) ≤ max_returns
  length-kept xs (Call.signals k approved would expected executable) le = le
  length-kept xs (Call.orders k queue_ahead) le = le
  length-kept xs (Call.fills k slippage fee rebate wait is_partial) le = le
  length-kept xs (Call.cancels k) le = le
  length-kept xs (Call.hedges cost) le = le
  length-kept xs Call.completes le = le
  length-kept xs (Call.settles x) le = length-keep_trade xs (trade_of x) le

  -- Through any calls on a tracker whose array is no longer than its size, the kept trades are the first 1024 of those
  -- that it had and those settled since, in their order: the later ones are lost.
  pub run-settled :
      (st : StatsTracker F) (cs : List (Call F))
      → length st.settled_trades ≤ max_returns
      → (run st cs).settled_trades ≡ take max_returns (st.settled_trades ++ trades cs)
  unfolding run
  run-settled st [] le = sym (take-upto max_returns st.settled_trades le)
  run-settled st (c ∷ cs) le =
      run-settled (apply st c) cs (rw (apply-kept st c) (length-kept st.settled_trades c le))
      ∙ rw (apply-kept st c) (take-kept st.settled_trades c cs le)
