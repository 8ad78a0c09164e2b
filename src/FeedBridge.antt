-- ===== src/FeedBridge.antt =====
-- src/net/pt_feed_bridge.c and include/net/pt_feed_parsers.h: what the feed bridge does with a market
-- discovery message, once it is parsed. There is a registry.
use polymarket_trade_engine.Prelude.{ℕ, ◌*◌, ◌%◌, none, some, if◌then◌else◌, ◌==◌, ℤ, word, CString}
use polymarket_trade_engine.Double.{Double}
use polymarket_trade_engine.Registry.{MarketState, MarketEntry, NewMarket, Registry, change, add}

-- `pt_market_discovery_msg_t`
pub record DiscoveryMsg (F : Type 0) : Type 0 where
  pub market_id : ℕ
  pub condition_id : CString
  pub slug : CString
  pub yes_token_id : CString
  pub no_token_id : CString
  pub strike : F
  pub start_time_ms : ℕ
  pub end_time_ms : ℕ
  pub duration_sec : ℤ
  pub eligible_for_strategy_a : ℤ
  pub eligible_for_strategy_b : ℤ

abbrev ns_of : ℕ → ℕ
ns_of ms = if ms == 0 then 0 else ms * 1_000_000 % word

module _ {F : Type 0} ⦃d : Double F⦄ where
  -- The arguments of pt_market_registry_add.
  abbrev market_of_msg : DiscoveryMsg F → ℕ → NewMarket F
  market_of_msg disc now = record {
    market_id = disc.market_id;
    condition_id = some disc.condition_id;
    slug = some disc.slug;
    yes_token_id = some disc.yes_token_id;
    no_token_id = some disc.no_token_id;
    strike = disc.strike;
    start_time_ns = ns_of disc.start_time_ms;
    end_time_ns = ns_of disc.end_time_ms;
    now = now;
  }

  abbrev pub subscribing : MarketEntry F → MarketEntry F
  subscribing m = record m { state = MarketState.subscribing }

  -- The market is added, and what `add` returns, new or known, is subscribed to whatever its state.
  unfoldable pub add_subscribing : Registry F → NewMarket F → Registry F
  add_subscribing reg q =
      let r = add reg q in elim r.1 [ none ↦ r.0 | some i ↦ change subscribing r.0 i ]

  discover : Registry F → DiscoveryMsg F → ℕ → Registry F
  discover reg disc now = add_subscribing reg (market_of_msg disc now)
