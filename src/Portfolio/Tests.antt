-- ===== src/Portfolio/Tests.antt =====
-- Runs of the portfolio, and the theorems at concrete portfolios.
use polymarket_trade_engine.Prelude.{
  ◌≡◌, ◌+◌, refl, true, false, List, [], ◌∷◌, All, replicate, length, arith, pos,
}
use polymarket_trade_engine.Types.{bid, ask}
use polymarket_trade_engine.Micro.{Micro, micro_double}
use polymarket_trade_engine.Portfolio.{
  Portfolio, Position, Key, init, on_fill_ex, fill_position, position_for, find_match, is_match,
  claim,
}
use polymarket_trade_engine.Portfolio.Settlement.{settle_market, settle_all}
use polymarket_trade_engine.Portfolio.Holding.{holding, held, has_match}
use polymarket_trade_engine.Portfolio.Fills.{on_fill_ex-bought}
use polymarket_trade_engine.Portfolio.Settle.{
  open_count, IsSettledEmpty, settle_market_lem, settle_market_again,
}
use polymarket_trade_engine.Portfolio.Run.{
  Call, fills, marks, settles, run, IsPortfolio, run-init-IsPortfolio,
}

-- YES of market 7 for the flow strategy, with and without a signal.
abbrev yes_key : Key
yes_key = record { market_id = 7; is_yes = pos 1; strategy = pos 1; signal_id = 0 }

abbrev signal_key : Key
signal_key = record { market_id = 7; is_yes = pos 1; strategy = pos 1; signal_id = 42 }

abbrev yes_position : Position Micro
yes_position = record {
  market_id = 7;
  is_yes = pos 1;
  strategy = pos 1;
  signal_id = 42;
  shares = 100;
  cost_basis_scaled = pos 40_000;
  current_bid_price = pos 400;
  unrealized_pnl = pos 0;
  realized_pnl = pos 0;
  is_settled = false;
}

-- 960 dollars, and 100 shares that cost 40.
abbrev one_position : Portfolio Micro
one_position = record {
  initial_cash = pos 1_000_000_000;
  cash = pos 960_000_000;
  realized_pnl = pos 0;
  unrealized_pnl = pos 0;
  total_exposure = pos 40_000_000;
  trades_count = 0;
  wins_count = 0;
  losses_count = 0;
  positions = yes_position ∷ [];
}

-- 128 settled positions.
abbrev worn_out : Portfolio Micro
worn_out = record one_position {
  positions = replicate 128 (record yes_position { shares = 0; is_settled = true });
}

-- A sale of half the shares at 50 cents.
sale :
    let p = on_fill_ex one_position yes_key ask 50 (pos 500) in
    (p.cash ≡ pos 985_000_000) × (p.realized_pnl ≡ pos 5_000_000) × (p.wins_count ≡ 1)
unfolding on_fill_ex position_for find_match is_match fill_position claim
sale = (refl, refl, refl)

-- More shares are sold than are held: the cash rises by the price of all of them.
oversold :
    let p = on_fill_ex one_position yes_key ask 150 (pos 500) in
    (p.cash ≡ pos 1_035_000_000) × (holding 7 (pos 1) p.positions ≡ 0)
unfolding on_fill_ex position_for find_match is_match fill_position claim holding held
oversold = (refl, refl)

-- YES wins: 100 dollars are paid, 60 of them gained.
settlement :
    let (p, outcomes) = settle_market one_position 7 (pos 1) in
    (p.cash ≡ pos 1_060_000_000) × (p.realized_pnl ≡ pos 60_000_000) × (p.total_exposure ≡ pos 0)
unfolding settle_market settle_all
settlement = (refl, refl, refl)

abbrev calls : List Call
calls = fills signal_key bid 100 (pos 400) ∷ marks 7 (pos 1) (pos 450) ∷ settles 7 (pos 0) ∷ []

run-init-IsPortfolio_example : IsPortfolio (run (init (pos 1_000_000_000)) calls).positions
run-init-IsPortfolio_example = run-init-IsPortfolio (pos 1_000_000_000) calls

on_fill_ex-bought_example :
    holding 7 (pos 1) (on_fill_ex one_position yes_key bid 20 (pos 410)).positions
    ≡ holding 7 (pos 1) one_position.positions + 20
unfolding holding held has_match is_match
on_fill_ex-bought_example =
    on_fill_ex-bought one_position yes_key bid 20 (pos 410) 7 (pos 1) refl refl (omega arith)

settle_market_lem_example :
    let (p', outcomes) = settle_market one_position 7 (pos 1) in
    (holding 7 (pos 1) p'.positions ≡ 0)
    × All IsSettledEmpty p'.positions
    × (length outcomes ≡ open_count 7 one_position.positions)
    × (open_count 7 p'.positions ≡ 0)
settle_market_lem_example = settle_market_lem one_position 7 (pos 1) 7 (pos 1) (refl, tt)

settle_market_again_example :
    let p' = (settle_market one_position 7 (pos 1)).0 in settle_market p' 7 (pos 0) ≡ (p', [])
settle_market_again_example = settle_market_again one_position 7 (pos 1) (pos 0) (refl, tt)
