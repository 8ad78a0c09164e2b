-- ===== src/Statistics/File.antt =====
-- src/analytics/pt_strategy_stats.c: the file of the statistics, its two formats, and the settlements that
-- write it. A file is its text, or `none` where it cannot be opened for reading; that writing fails is left out.
use polymarket_trade_engine.Prelude.{
  ℕ, zero, suc, ◌+◌, Option, none, some, List, [], ◌∷◌, if◌then◌else◌, ltb, leb, length, add64,
  CString, fit,
}
use polymarket_trade_engine.Double.{Double, whole}
use polymarket_trade_engine.Stdio.{Text, Directive, Value, codes, fprintf, fscanf}
use polymarket_trade_engine.Statistics.{
  StratStats, StatsTracker, Settlement, in_strat, count_settlement, keep_trade, trade_of, empty,
}

-- The size of `persist_path`
abbrev path_size : ℕ
path_size = 256

abbrev pub save_format : List Directive
save_format =
    Directive.literal (codes "{\n  \"a_sig\": ")
    ∷ Directive.unsigned
    ∷ Directive.literal (codes ", \"a_wld\": ")
    ∷ Directive.unsigned
    ∷ Directive.literal (codes ", \"a_app\": ")
    ∷ Directive.unsigned
    ∷ Directive.literal (codes ", \"a_ord\": ")
    ∷ Directive.unsigned
    ∷ Directive.literal (codes ", \"a_fil\": ")
    ∷ Directive.unsigned
    ∷ Directive.literal (codes ", \"a_win\": ")
    ∷ Directive.unsigned
    ∷ Directive.literal (codes ", \"a_los\": ")
    ∷ Directive.unsigned
    ∷ Directive.literal (codes ", \"a_pnl\": ")
    ∷ Directive.real
    ∷ Directive.literal (codes ", \"a_fee\": ")
    ∷ Directive.real
    ∷ Directive.literal (codes ",\n  \"b_sig\": ")
    ∷ Directive.unsigned
    ∷ Directive.literal (codes ", \"b_wld\": ")
    ∷ Directive.unsigned
    ∷ Directive.literal (codes ", \"b_app\": ")
    ∷ Directive.unsigned
    ∷ Directive.literal (codes ", \"b_ord\": ")
    ∷ Directive.unsigned
    ∷ Directive.literal (codes ", \"b_fil\": ")
    ∷ Directive.unsigned
    ∷ Directive.literal (codes ", \"b_win\": ")
    ∷ Directive.unsigned
    ∷ Directive.literal (codes ", \"b_los\": ")
    ∷ Directive.unsigned
    ∷ Directive.literal (codes ", \"b_pnl\": ")
    ∷ Directive.real
    ∷ Directive.literal (codes ", \"b_fee\": ")
    ∷ Directive.real
    ∷ Directive.literal (codes "\n}\n")
    ∷ []

abbrev pub load_format : List Directive
load_format =
    Directive.literal (codes " { \"a_sig\": ")
    ∷ Directive.unsigned
    ∷ Directive.literal (codes ", \"a_wld\": ")
    ∷ Directive.unsigned
    ∷ Directive.literal (codes ", \"a_app\": ")
    ∷ Directive.unsigned
    ∷ Directive.literal (codes ", \"a_ord\": ")
    ∷ Directive.unsigned
    ∷ Directive.literal (codes ", \"a_fil\": ")
    ∷ Directive.unsigned
    ∷ Directive.literal (codes ", \"a_win\": ")
    ∷ Directive.unsigned
    ∷ Directive.literal (codes ", \"a_los\": ")
    ∷ Directive.unsigned
    ∷ Directive.literal (codes ", \"a_pnl\": ")
    ∷ Directive.real
    ∷ Directive.literal (codes ", \"a_fee\": ")
    ∷ Directive.real
    ∷ Directive.literal (codes ", \"b_sig\": ")
    ∷ Directive.unsigned
    ∷ Directive.literal (codes ", \"b_wld\": ")
    ∷ Directive.unsigned
    ∷ Directive.literal (codes ", \"b_app\": ")
    ∷ Directive.unsigned
    ∷ Directive.literal (codes ", \"b_ord\": ")
    ∷ Directive.unsigned
    ∷ Directive.literal (codes ", \"b_fil\": ")
    ∷ Directive.unsigned
    ∷ Directive.literal (codes ", \"b_win\": ")
    ∷ Directive.unsigned
    ∷ Directive.literal (codes ", \"b_los\": ")
    ∷ Directive.unsigned
    ∷ Directive.literal (codes ", \"b_pnl\": ")
    ∷ Directive.real
    ∷ Directive.literal (codes ", \"b_fee\": ")
    ∷ Directive.real
    ∷ Directive.literal (codes " }")
    ∷ []

-- The variables that are read of a strategy.
pub record SavedStats (F : Type 0) : Type 0 where
  pub signals : ℕ
  pub would_trade : ℕ
  pub risk_approved : ℕ
  pub orders_submitted : ℕ
  pub fills : ℕ
  pub wins : ℕ
  pub losses : ℕ
  pub realized_pnl : F
  pub fees : F

module _ {F : Type 0} where
  -- The arguments of fprintf.
  abbrev pub printed : StatsTracker F → List (Value F)
  printed st =
      Value.number st.strat_a.signals
      ∷ Value.number st.strat_a.would_trade
      ∷ Value.number st.strat_a.risk_approved
      ∷ Value.number st.strat_a.orders_submitted
      ∷ Value.number st.strat_a.fills
      ∷ Value.number st.strat_a.wins
      ∷ Value.number st.strat_a.losses
      ∷ Value.double st.strat_a.realized_pnl
      ∷ Value.double st.strat_a.fees
      ∷ Value.number st.strat_b.signals
      ∷ Value.number st.strat_b.would_trade
      ∷ Value.number st.strat_b.risk_approved
      ∷ Value.number st.strat_b.orders_submitted
      ∷ Value.number st.strat_b.fills
      ∷ Value.number st.strat_b.wins
      ∷ Value.number st.strat_b.losses
      ∷ Value.double st.strat_b.realized_pnl
      ∷ Value.double st.strat_b.fees
      ∷ []

  -- The text that is written.
  unfoldable pub save : StatsTracker F → Text F
  save st = fprintf save_format (printed st)

module _ {F : Type 0} ⦃d : Double F⦄ where
  -- Returns the tracker and what is written to the file, where there is one.
  unfoldable pub record_settlement :
      StatsTracker F → Settlement F → StatsTracker F × Option (Text F)
  record_settlement st x =
      let st' = record (in_strat x.strategy (count_settlement x) st) {
        settled_trades = keep_trade st.settled_trades (trade_of x);
      } in
      (st', if ltb 0 (length st.persist_path) then some (save st') else none)

  -- The variable that takes the value read at this place; it stays 0 where none was read.
  abbrev number_at : List (Value F) → ℕ → ℕ
  number_at [] k = 0
  number_at (Value.number n ∷ vs) zero = n
  number_at (Value.double x ∷ vs) zero = 0
  number_at (v ∷ vs) (suc k) = number_at vs k

  abbrev real_at : List (Value F) → ℕ → F
  real_at [] k = whole 0
  real_at (Value.number n ∷ vs) zero = whole 0
  real_at (Value.double x ∷ vs) zero = x
  real_at (v ∷ vs) (suc k) = real_at vs k

  -- The variables from this place on.
  abbrev read_from : List (Value F) → ℕ → SavedStats F
  read_from vs k = record {
    signals = number_at vs (k + 0);
    would_trade = number_at vs (k + 1);
    risk_approved = number_at vs (k + 2);
    orders_submitted = number_at vs (k + 3);
    fills = number_at vs (k + 4);
    wins = number_at vs (k + 5);
    losses = number_at vs (k + 6);
    realized_pnl = real_at vs (k + 7);
    fees = real_at vs (k + 8);
  }

  abbrev pub loaded_stats : SavedStats F → StratStats F → StratStats F
  loaded_stats v s = record s {
    signals = v.signals;
    would_trade = v.would_trade;
    risk_approved = v.risk_approved;
    orders_submitted = v.orders_submitted;
    fills = v.fills;
    wins = v.wins;
    losses = v.losses;
    realized_pnl = v.realized_pnl;
    fees = v.fees;
    net_pnl = d.sub v.realized_pnl v.fees;
    win_rate =
        if ltb 0 (add64 v.wins v.losses)
        then d.div (d.of_nat v.wins) (d.of_nat (add64 v.wins v.losses))
        else s.win_rate;
  }

  -- Only a text from which all 18 numbers are read is taken over.
  unfoldable pub load : (F → F) → StatsTracker F → Option (Text F) → StatsTracker F
  load reread st none = st
  load reread st (some text) =
      let vs = fscanf reread load_format text in
      if leb 18 (length vs)
      then record st {
        strat_a = loaded_stats (read_from vs 0) st.strat_a;
        strat_b = loaded_stats (read_from vs 9) st.strat_b;
      }
      else st

  -- `files` is what a path holds.
  unfoldable pub init : (F → F) → (CString → Option (Text F)) → Option CString → StatsTracker F
  init reread files none = empty
  init reread files (some path) =
      load reread (record empty { persist_path = fit path_size path }) (files path)
