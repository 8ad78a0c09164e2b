-- ===== src/Statistics/Persist.antt =====
-- src/analytics/pt_strategy_stats.c: what a restart keeps of the statistics.
use polymarket_trade_engine.Prelude.{Option, some, ◌≡◌, refl, List, [], ◌∷◌, CString}
use polymarket_trade_engine.Double.{Double, whole}
use polymarket_trade_engine.Stdio.{
  Text, Value, fprintf, fscanf, put_bytes, skip_space, match_byte, match_bytes,
}
use polymarket_trade_engine.Statistics.{StratStats, StatsTracker, rate_of}
use polymarket_trade_engine.Statistics.File.{save, load, load_format, init}

module _ {F : Type 0} ⦃d : Double F⦄ where
  -- What is kept of `s` in `t`, and what is not.
  pub record Restored (reread : F → F) (s t : StratStats F) : Type 0 where
    pub signals : t.signals ≡ s.signals
    pub would_trade : t.would_trade ≡ s.would_trade
    pub risk_approved : t.risk_approved ≡ s.risk_approved
    pub orders_submitted : t.orders_submitted ≡ s.orders_submitted
    pub fills : t.fills ≡ s.fills
    pub wins : t.wins ≡ s.wins
    pub losses : t.losses ≡ s.losses
    pub realized_pnl : t.realized_pnl ≡ reread s.realized_pnl
    pub fees : t.fees ≡ reread s.fees
    pub win_rate : t.win_rate ≡ rate_of s.wins s.losses
    pub rebates : t.rebates ≡ whole 0
    pub net_pnl : t.net_pnl ≡ d.sub (reread s.realized_pnl) (reread s.fees)
    pub partial_fills : t.partial_fills ≡ 0
    pub cancelled : t.cancelled ≡ 0

  -- What is read of a strategy's printed numbers.
  abbrev reread_values : (F → F) → StratStats F → List (Value F) → List (Value F)
  reread_values reread s vs =
      Value.number s.signals
      ∷ Value.number s.would_trade
      ∷ Value.number s.risk_approved
      ∷ Value.number s.orders_submitted
      ∷ Value.number s.fills
      ∷ Value.number s.wins
      ∷ Value.number s.losses
      ∷ Value.double (reread s.realized_pnl)
      ∷ Value.double (reread s.fees)
      ∷ vs

  -- The format that reads matches the text of the one that prints, to its last number.
  fscanf-save :
      (reread : F → F) (st : StatsTracker F)
      → fscanf reread load_format (save st)
        ≡ reread_values reread st.strat_a (reread_values reread st.strat_b [])
  unfolding save fprintf fscanf put_bytes skip_space match_byte match_bytes
  fscanf-save reread st = refl

  -- A tracker that starts on the text that another has saved has that one's signals, orders, fills, wins
  -- and losses, its realized result and fees as they are read back, and the win rate; but no
  -- rebates, partial fills, cancellations or settled trades, and its net result is without the rebates.
  pub init-save :
      (reread : F → F) (files : CString → Option (Text F)) (path : CString) (st : StatsTracker F)
      → files path ≡ some (save st)
      → let t = init reread files (some path) in
        Restored reread st.strat_a t.strat_a
        × Restored reread st.strat_b t.strat_b
        × (t.settled_trades ≡ [])
  unfolding init load
  init-save reread files path st e =
      rw (e, fscanf-save reread st)
        (
          record {
            signals = refl;
            would_trade = refl;
            risk_approved = refl;
            orders_submitted = refl;
            fills = refl;
            wins = refl;
            losses = refl;
            realized_pnl = refl;
            fees = refl;
            win_rate = refl;
            rebates = refl;
            net_pnl = refl;
            partial_fills = refl;
            cancelled = refl;
          },
          record {
            signals = refl;
            would_trade = refl;
            risk_approved = refl;
            orders_submitted = refl;
            fills = refl;
            wins = refl;
            losses = refl;
            realized_pnl = refl;
            fees = refl;
            win_rate = refl;
            rebates = refl;
            net_pnl = refl;
            partial_fills = refl;
            cancelled = refl;
          },
          refl,
        )
