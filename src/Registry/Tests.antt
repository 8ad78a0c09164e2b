-- ===== src/Registry/Tests.antt =====
-- A registry with two markets, and the theorems there.
use polymarket_trade_engine.Prelude.{
  ◌+◌, ◌≤◌, ◌≡◌, refl, true, false, some, none, List, [], ◌∷◌, arith, pos, negsuc, replicate,
  CString, str_eq, find_index,
}
use polymarket_trade_engine.Micro.{Micro, micro_double}
use polymarket_trade_engine.Registry.{
  MarketState, NewMarket, market_at, init, add, new_entry, update_entry, find, find_by_condition,
  find_by_token,
}
use polymarket_trade_engine.FeedBridge.{add_subscribing}
use polymarket_trade_engine.Registry.Resolve.{
  Resolution, Verdict, market_of, resolve_verified, resolve_entry, winner_of, can_trade,
  on_snapshot,
}
use polymarket_trade_engine.Registry.Strings.{find_by_condition-add}
use polymarket_trade_engine.Registry.Once.{
  Call, run, step, settlements, settles, reopenings, settlements-le,
}
use polymarket_trade_engine.Registry.Inv.{
  IsRegistry, run-init-IsRegistry, resolve_verified-long_token,
}

-- "0xa" and "0xb", with the tokens "Y1", "N1", "Y2" and "N2".
abbrev condition_a : CString
condition_a = 48 ∷ 120 ∷ 97 ∷ []

abbrev condition_b : CString
condition_b = 48 ∷ 120 ∷ 98 ∷ []

abbrev yes_a : CString
yes_a = 89 ∷ 49 ∷ []

abbrev market_a : NewMarket Micro
market_a = record {
  market_id = 7;
  condition_id = some condition_a;
  slug = none;
  yes_token_id = some yes_a;
  no_token_id = some (78 ∷ 49 ∷ []);
  strike = pos 60_000_000_000;
  start_time_ns = 1_000_000_000;
  end_time_ns = 301_000_000_000;
  now = 5;
}

-- Fifteen minutes, with no id of its own.
abbrev market_b : NewMarket Micro
market_b = record market_a {
  market_id = 0;
  condition_id = some condition_b;
  yes_token_id = some (89 ∷ 50 ∷ []);
  no_token_id = some (78 ∷ 50 ∷ []);
  end_time_ns = 901_000_000_000;
}

abbrev two : List (Call Micro)
two = Call.discovers market_a ∷ Call.discovers market_b ∷ Call.snapshot 7 9 ∷ []

abbrev yes_wins : Verdict Micro
yes_wins = record {
  condition_id = some condition_a;
  market_id = 0;
  winning_asset_id = some yes_a;
  winning_outcome = none;
  resolution_price = pos 1_000_000;
  now = 400_000_000_000;
}

-- The same token, with 70 characters more.
abbrev long_token : Verdict Micro
long_token = record yes_wins { winning_asset_id = some (89 ∷ 49 ∷ replicate 70 48) }

abbrev twice : List (Call Micro)
twice =
    Call.resolves yes_wins
    ∷ Call.resolves yes_wins
    ∷ Call.discovers market_a
    ∷ Call.resolves yes_wins
    ∷ []

finds_no_token : find_by_token (run init two) (some (78 ∷ 50 ∷ [])) ≡ some (1, false)
unfolding run step add_subscribing add init new_entry find_by_token find_index str_eq on_snapshot
    find
finds_no_token = refl

-- The market without an id takes the count.
takes_count : find (run init two) 2 ≡ some 1
unfolding run step add_subscribing add init new_entry find find_index str_eq on_snapshot
takes_count = refl

trades_until_cutoff : can_trade (market_at (run init two) 0) 295_999_999_999 ≡ true
unfolding run step add_subscribing add init new_entry find find_index str_eq on_snapshot can_trade
trades_until_cutoff = refl

settles_then_refuses : (resolve_verified (run init two) yes_wins).1 ≡ Resolution.settled (pos 1)
unfolding run step add_subscribing add init new_entry find_by_condition find find_index str_eq
    on_snapshot resolve_verified resolve_entry winner_of market_of
settles_then_refuses = refl

abbrev two_resolved : List (Call Micro)
two_resolved = Call.discovers market_a ∷ Call.resolves yes_wins ∷ []

-- A market that is discovered again after its resolution is settled a second time.
settled_twice : settlements 0 (run init two) twice ≡ 2
unfolding run step add_subscribing add init new_entry find_by_condition find find_index str_eq
    on_snapshot resolve_verified resolve_entry winner_of market_of settlements settles update_entry
settled_twice = refl

settlements-le_example : settlements 0 (run init two) twice ≤ 1 + reopenings 0 (run init two) twice
settlements-le_example = settlements-le (run init two) twice 0

run-init-IsRegistry_example : IsRegistry (run init two)
run-init-IsRegistry_example = run-init-IsRegistry two

find_by_condition-add_example :
    let reg = run init (Call.discovers market_a ∷ []) in
    let m = market_at (add reg market_b).0 1 in
    (find_by_condition (add reg market_b).0 (some condition_b) ≡ some 1)
    × (m.condition_id ≡ condition_b)
    × (m.yes_token_id ≡ 89 ∷ 50 ∷ [])
    × (m.no_token_id ≡ 78 ∷ 50 ∷ [])
    × (m.market_id ≡ 2)
    × (m.start_time_ns ≡ 1_000_000_000)
    × (m.end_time_ns ≡ 901_000_000_000)
    × (m.discovered_time_ns ≡ 5)
    × (m.resolved_winner ≡ negsuc 0)
    × (m.state ≡ MarketState.discovered)
unfolding run step add_subscribing add init new_entry find_index str_eq
find_by_condition-add_example =
    find_by_condition-add (run init (Call.discovers market_a ∷ [])) market_b
      (refl, refl, omega arith) (omega arith) (omega arith) (omega arith)

resolve_verified-long_token_example :
    let r = resolve_verified (run init two) long_token in
    (r.1 ≡ Resolution.unknown_winner) × ((market_at r.0 0).state ≡ MarketState.pending_resolution)
unfolding run step add_subscribing add init new_entry find find_by_condition find_index str_eq
    on_snapshot market_of
resolve_verified-long_token_example =
    resolve_verified-long_token two long_token 0 refl refl (omega arith)
