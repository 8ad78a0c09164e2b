-- ===== src/Market/Tests.antt =====
-- A market's life on concrete ticks, and the theorems there.
use polymarket_trade_engine.Prelude.{ℕ, ◌≡◌, refl, false, some, List, [], ◌∷◌, arith, pos}
use polymarket_trade_engine.Micro.{Micro, micro_double}
use polymarket_trade_engine.Portfolio.{Portfolio}
use polymarket_trade_engine.Portfolio.Settlement.{settle_market}
use polymarket_trade_engine.Portfolio.Holding.{holding}
use polymarket_trade_engine.Market.{Lifecycle, MarketInfo, tick, can_trade, cutoff_ns}
use polymarket_trade_engine.Market.Phase.{Tick, tick-resolves}

-- It opens at 1 s and expires at 300 s, with a cutoff of 10 s, on a strike of 60000 dollars.
abbrev market : MarketInfo Micro
market = record {
  market_id = 7;
  symbol = "BTC";
  strike_price = pos 60_000_000_000;
  open_time_ns = 1_000_000_000;
  expiry_time_ns = 300_000_000_000;
  state = Lifecycle.active;
  stop_before_expiry_sec = pos 10_000_000;
  resolved_winning_outcome = pos 0;
  resolution_price = pos 0;
}

abbrev closing : MarketInfo Micro
closing = record market { state = Lifecycle.expiring }

abbrev portfolio : Portfolio Micro
portfolio = record {
  initial_cash = pos 1_000_000_000;
  cash = pos 960_000_000;
  realized_pnl = pos 0;
  unrealized_pnl = pos 0;
  total_exposure = pos 40_000_000;
  trades_count = 0;
  wins_count = 0;
  losses_count = 0;
  positions =
      record {
        market_id = 7;
        is_yes = pos 1;
        strategy = pos 1;
        signal_id = 42;
        shares = 100;
        cost_basis_scaled = pos 40_000;
        current_bid_price = pos 400;
        unrealized_pnl = pos 0;
        realized_pnl = pos 0;
        is_settled = false;
      }
      ∷ [];
}

abbrev tick_at : ℕ → Tick Micro
tick_at now = record { price = pos 61_000_000_000; now = now }

abbrev life : List (Tick Micro)
life =
    tick_at 5_000_000_000
    ∷ tick_at 291_000_000_000
    ∷ tick_at 300_000_000_000
    ∷ tick_at 301_000_000_000
    ∷ []

-- Nine seconds before the expiry it is closed.
closed : can_trade market 291_000_000_000 ≡ false
unfolding can_trade cutoff_ns
closed = refl

tick-resolves_example :
    let p' = (settle_market portfolio 7 (pos 1)).0 in
    let r = tick market (pos 61_000_000_000) 300_000_000_000 (some portfolio) in
    (r.0.state ≡ Lifecycle.resolved)
    × (r.0.resolved_winning_outcome ≡ pos 1)
    × (r.1 ≡ some p')
    × (holding 7 (pos 1) p'.positions ≡ 0)
unfolding cutoff_ns
tick-resolves_example =
    tick-resolves market (pos 61_000_000_000) 300_000_000_000 portfolio 7 (pos 1) (omega arith)
      (omega arith) (omega arith) (omega arith) (refl, tt)
