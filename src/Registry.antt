-- ===== src/Registry.antt =====
-- src/core/pt_market_registry.c and include/core/pt_market_registry.h: the markets that the engine
-- knows. The registry is never NULL; the array is the list of its `count` live entries, and a pointer
-- to an entry is its index. Strings are as in C (Prelude/Strings), cut to the size of their field.
pub mod Resolve
pub mod Strings
pub mod Lookup
pub mod Once
pub mod Inv
pub mod Active
mod Tests
use polymarket_trade_engine.Prelude.{
  ℕ, ◌+◌, ◌-◌, ◌/◌, ◌%◌, ◌^◌, Bool, true, false, not, ◌&&◌, ◌||◌, Option, none, some, List, [], ◌∷◌,
  ◌++◌, if◌then◌else◌, ltb, leb, ◌==◌, length, get_or, set, ℤ, pos, negsuc, ltb_ℤ, leb_ℤ, add64,
  CString, is_empty, is_given, text_of, str_eq, fit, find_index,
}
use polymarket_trade_engine.Types.{Rc, ok, fail}
use polymarket_trade_engine.Double.{Double, whole}

-- PT_MAX_MARKETS
abbrev pub max_markets : ℕ
max_markets = 64

-- `pt_mkt_state_t`
pub data MarketState : Type 0 where
  empty discovered subscribing snapshot_received active : MarketState
  expiring pending_resolution resolved closed : MarketState

-- `pt_market_entry_t`
pub record MarketEntry (F : Type 0) : Type 0 where
  pub market_id : ℕ
  pub condition_id : CString
  pub slug : CString
  pub yes_token_id : CString
  pub no_token_id : CString
  pub strike : F
  pub start_time_ns : ℕ
  pub end_time_ns : ℕ
  pub duration_sec : ℤ
  pub eligible_for_strategy_a : Bool
  pub eligible_for_strategy_b : Bool
  pub state : MarketState
  pub active_flag : Bool
  pub resolved_winner : ℤ
  pub resolution_price : F
  pub resolution_time_ns : ℕ
  pub discovered_time_ns : ℕ
  pub snapshot_time_ns : ℕ

-- `pt_market_registry_t`
pub record Registry (F : Type 0) : Type 0 where
  pub markets : List (MarketEntry F)
  pub active_market_id : ℕ
  pub active_5m_id : ℕ
  pub active_15m_id : ℕ

-- The arguments of pt_market_registry_add; the strings may be NULL.
pub record NewMarket (F : Type 0) : Type 0 where
  pub market_id : ℕ
  pub condition_id : Option CString
  pub slug : Option CString
  pub yes_token_id : Option CString
  pub no_token_id : Option CString
  pub strike : F
  pub start_time_ns : ℕ
  pub end_time_ns : ℕ
  pub now : ℕ

-- The sizes of the fields `condition_id`, `slug`, and both tokens.
abbrev pub condition_size : ℕ
condition_size = 68

abbrev pub slug_size : ℕ
slug_size = 64

abbrev pub token_size : ℕ
token_size = 72

-- `(int)n` of an unsigned word.
abbrev to_int32 : ℕ → ℤ
to_int32 n = let k = n % 2 ^ 32 in if ltb k (2 ^ 31) then pos k else negsuc (2 ^ 32 - k - 1)

abbrev duration_of : ℕ → ℕ → ℤ
duration_of start_t end_t =
    if ltb start_t end_t then to_int32 ((end_t - start_t) / 1_000_000_000) else pos 0

abbrev pub is_within : ℕ → ℕ → ℤ → Bool
is_within lo hi a = leb_ℤ (pos lo) a && leb_ℤ a (pos hi)

-- The new text of a field of this size, or the old one where there is none.
abbrev rewrite : ℕ → Option CString → CString → CString
rewrite size none old = old
rewrite size (some s) old = fit size s

abbrev unless_zero : ℕ → ℕ → ℕ
unless_zero new old = if ltb 0 new then new else old

module _ {F : Type 0} where
  abbrev with_eligibility : MarketEntry F → MarketEntry F
  with_eligibility m = record m {
    eligible_for_strategy_a = is_within 240 450 m.duration_sec;
    eligible_for_strategy_b = is_within 750 1200 m.duration_sec;
  }

  abbrev pub has_id : ℕ → MarketEntry F → Bool
  has_id id m = m.market_id == id

  abbrev pub has_condition : CString → MarketEntry F → Bool
  has_condition s m = str_eq m.condition_id s

  -- The entry that `add` updates.
  abbrev pub is_known : ℕ → CString → MarketEntry F → Bool
  is_known id s m = has_id id m || has_condition s m

  -- What `add` asks of its arguments.
  abbrev pub is_complete : NewMarket F → Bool
  is_complete q =
      is_given q.condition_id
      && is_given q.yes_token_id
      && is_given q.no_token_id
      && not (str_eq (text_of q.yes_token_id) (text_of q.no_token_id))

  -- Each id of an active market is set by the first market that fits.
  abbrev first_active : MarketEntry F → Registry F → Registry F
  first_active m reg = record reg {
    active_market_id = if reg.active_market_id == 0 then m.market_id else reg.active_market_id;
    active_5m_id =
        if m.eligible_for_strategy_a && reg.active_5m_id == 0
        then m.market_id
        else reg.active_5m_id;
    active_15m_id =
        if m.eligible_for_strategy_b && reg.active_15m_id == 0
        then m.market_id
        else reg.active_15m_id;
  }

  pub init : Registry F
  init = record { markets = []; active_market_id = 0; active_5m_id = 0; active_15m_id = 0 }

  pub find : Registry F → ℕ → Option ℕ
  find reg id = if id == 0 then none else find_index (has_id id) reg.markets

  pub find_by_condition : Registry F → Option CString → Option ℕ
  find_by_condition reg s =
      if is_given s then find_index (has_condition (text_of s)) reg.markets else none

  abbrev pub has_token : CString → MarketEntry F → Bool
  has_token s m = str_eq m.yes_token_id s || str_eq m.no_token_id s

module _ {F : Type 0} ⦃d : Double F⦄ where
  abbrev pub zero_entry : MarketEntry F
  zero_entry = record {
    market_id = 0;
    condition_id = [];
    slug = [];
    yes_token_id = [];
    no_token_id = [];
    strike = whole 0;
    start_time_ns = 0;
    end_time_ns = 0;
    duration_sec = pos 0;
    eligible_for_strategy_a = false;
    eligible_for_strategy_b = false;
    state = MarketState.empty;
    active_flag = false;
    resolved_winner = pos 0;
    resolution_price = whole 0;
    resolution_time_ns = 0;
    discovered_time_ns = 0;
    snapshot_time_ns = 0;
  }

  -- `markets[i]`, with `i` below `count` wherever the code reads it.
  abbrev pub market_at : Registry F → ℕ → MarketEntry F
  market_at reg i = get_or reg.markets i zero_entry

  -- A change of `markets[i]`.
  abbrev pub change : (MarketEntry F → MarketEntry F) → Registry F → ℕ → Registry F
  change f reg i = record reg { markets = set reg.markets i (f (market_at reg i)) }

  -- With the flag `is_yes`: whether it is the YES token.
  pub find_by_token : Registry F → Option CString → Option (ℕ × Bool)
  find_by_token reg s =
      if is_given s
      then elim (find_index (has_token (text_of s)) reg.markets) [
        | none ↦ none
        | some i ↦ some (i, str_eq (market_at reg i).yes_token_id (text_of s))
      ]
      else none

  pub update_entry : NewMarket F → MarketEntry F → MarketEntry F
  update_entry q m = with_eligibility (record m {
    slug = rewrite slug_size q.slug m.slug;
    yes_token_id = rewrite token_size q.yes_token_id m.yes_token_id;
    no_token_id = rewrite token_size q.no_token_id m.no_token_id;
    strike = if d.lt (whole 0) q.strike then q.strike else m.strike;
    start_time_ns = unless_zero q.start_time_ns m.start_time_ns;
    end_time_ns = unless_zero q.end_time_ns m.end_time_ns;
    duration_sec =
        let duration = duration_of q.start_time_ns q.end_time_ns in
        if ltb_ℤ (pos 0) duration then duration else m.duration_sec;
  })

  -- The entry at index `n`: without an id it takes the new count.
  pub new_entry : NewMarket F → ℕ → MarketEntry F
  new_entry q n = with_eligibility (record zero_entry {
    market_id = if q.market_id == 0 then n + 1 else q.market_id;
    condition_id = fit condition_size (text_of q.condition_id);
    slug = fit slug_size (text_of q.slug);
    yes_token_id = fit token_size (text_of q.yes_token_id);
    no_token_id = fit token_size (text_of q.no_token_id);
    strike = q.strike;
    start_time_ns = q.start_time_ns;
    end_time_ns = q.end_time_ns;
    duration_sec = duration_of q.start_time_ns q.end_time_ns;
    state = MarketState.discovered;
    active_flag = true;
    resolved_winner = negsuc 0;
    discovered_time_ns = q.now;
  })

  -- `none` is the result NULL, with nothing changed.
  pub add : Registry F → NewMarket F → Registry F × Option ℕ
  add reg q =
      if not (is_complete q)
      then (reg, none)
      else elim (find_index (is_known q.market_id (text_of q.condition_id)) reg.markets) [
        | some i ↦ (change (update_entry q) reg i, some i)
        | none ↦
            let n = length reg.markets in
            let m = new_entry q n in
            if leb max_markets n
            then (reg, none)
            else (first_active m (record reg { markets = reg.markets ++ m ∷ [] }), some n)
      ]
