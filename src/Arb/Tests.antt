-- ===== src/Arb/Tests.antt =====
-- The parity check on two small books, and its theorem there.
use polymarket_trade_engine.Prelude.{ℕ, ◌≡◌, some, [], ◌∷◌, arith, pos}
use polymarket_trade_engine.Micro.{Micro, micro_double}
use polymarket_trade_engine.Book.{Level, Book, walk, walk_loop, best_ask, best_bid}
use polymarket_trade_engine.Book
use polymarket_trade_engine.Economics.{fee_schedule_default}
use polymarket_trade_engine.Arb.{Config, Opportunity}
use polymarket_trade_engine.Arb.Calc.{Outcome, calc}
use polymarket_trade_engine.Arb.Calc.Result.{IsReported, calc_lem}

abbrev level : ℕ → ℕ → Level
level p n = record { price = pos p; size = n }

-- 10 shares at 0.45 and 30 at 0.49 on one side, 20 at 0.48 and 20 at 0.53 on the other.
abbrev yes_book : Book
yes_book = record Book.init { asks = level 450 10 ∷ level 490 30 ∷ []; bids = level 440 5 ∷ [] }

abbrev no_book : Book
no_book = record Book.init { asks = level 480 20 ∷ level 530 20 ∷ [] }

-- An edge of 2 cents.
abbrev config : Config Micro
config = record {
  fees = fee_schedule_default;
  slippage_bps = pos 0;
  latency_buffer_pct = pos 1_000;
  risk_buffer_pct = pos 1_000;
  min_edge_pct = pos 20_000;
  min_liquidity = 5;
  max_unhedged_loss = pos 10_000_000;
}

calc_lem_example :
    (r : Outcome × Opportunity Micro) × (calc (some yes_book) (some no_book) config 100 ≡ some r)
    × IsReported yes_book no_book config 100 r
calc_lem_example = calc_lem yes_book no_book config 100 (omega arith)
