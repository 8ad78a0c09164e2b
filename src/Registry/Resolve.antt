-- ===== src/Registry/Resolve.antt =====
-- The state of a market in the registry: the active market, snapshots, the window in which it trades,
-- and the verified resolution.
use polymarket_trade_engine.Prelude.{
  ℕ, Bool, true, false, not, ◌&&◌, ◌||◌, Option, none, some, [], ◌∷◌, if◌then◌else◌, ltb, leb, ◌==◌,
  ℤ, pos, add64, sub64, CString, is_given, text_of, str_eq, str_case_eq, find_index,
}
use polymarket_trade_engine.Types.{Rc, ok, fail}
use polymarket_trade_engine.Double.{Double, whole}
use polymarket_trade_engine.Registry.{
  MarketState, MarketEntry, Registry, market_at, change, find, find_by_condition,
}

abbrev pub is_resolved : MarketState → Bool
is_resolved MarketState.resolved = true
is_resolved _ = false

-- The states in which the cached market is no longer the active one.
abbrev pub is_over : MarketState → Bool
is_over MarketState.closed = true
is_over MarketState.resolved = true
is_over MarketState.pending_resolution = true
is_over _ = false

-- The states in which a market is looked for.
abbrev pub is_coming : MarketState → Bool
is_coming MarketState.active = true
is_coming MarketState.snapshot_received = true
is_coming MarketState.subscribing = true
is_coming MarketState.discovered = true
is_coming _ = false

abbrev pub is_waiting : MarketState → Bool
is_waiting MarketState.discovered = true
is_waiting MarketState.subscribing = true
is_waiting _ = false

abbrev pub is_trading : MarketState → Bool
is_trading MarketState.active = true
is_trading MarketState.snapshot_received = true
is_trading _ = false

-- The results of a resolution: 0 with the winner, -1, -2 and -3.
pub data Resolution : Type 0 where
  settled : ℤ → Resolution
  not_found already_resolved unknown_winner : Resolution

-- The arguments of pt_market_registry_resolve_verified; the strings may be NULL.
pub record Verdict (F : Type 0) : Type 0 where
  pub condition_id : Option CString
  pub market_id : ℕ
  pub winning_asset_id : Option CString
  pub winning_outcome : Option CString
  pub resolution_price : F
  pub now : ℕ

-- "YES", "1", "UP" and "NO", "0", "DOWN"
abbrev pub names_yes : CString → Bool
names_yes s =
    str_case_eq s (89 ∷ 69 ∷ 83 ∷ []) || str_eq s (49 ∷ []) || str_case_eq s (85 ∷ 80 ∷ [])

abbrev pub names_no : CString → Bool
names_no s =
    str_case_eq s (78 ∷ 79 ∷ []) || str_eq s (48 ∷ []) || str_case_eq s (68 ∷ 79 ∷ 87 ∷ 78 ∷ [])

module _ {F : Type 0} ⦃d : Double F⦄ where
  -- The market behind a cached id that is still running, or the first in the array that is coming and
  -- is one of those asked for, whose id is then cached.
  unfoldable pub cached : (MarketEntry F → Bool) → Registry F → ℕ → Option ℕ
  cached asked reg id = if id == 0 then none else elim (find reg id) [
    | none ↦ none
    | some i ↦ let m = market_at reg i in if asked m && not (is_over m.state) then some i else none
  ]

  unfoldable pub coming : (MarketEntry F → Bool) → Registry F → Option ℕ
  coming asked reg = find_index (λ m. asked m && is_coming m.state) reg.markets

  unfoldable pub get_active : Registry F → Registry F × Option ℕ
  get_active reg =
      let every = λ (m : MarketEntry F). true in
      elim (cached every reg reg.active_market_id) [
        | some i ↦ (reg, some i)
        | none ↦ elim (coming every reg) [
          | none ↦ (reg, none)
          | some i ↦ (record reg { active_market_id = (market_at reg i).market_id }, some i)
        ]
      ]

  unfoldable pub get_active_5m : Registry F → Registry F × Option ℕ
  get_active_5m reg =
      let asked = λ (m : MarketEntry F). m.eligible_for_strategy_a in
      elim (cached asked reg reg.active_5m_id) [
        | some i ↦ (reg, some i)
        | none ↦ elim (coming asked reg) [
          | none ↦ (reg, none)
          | some i ↦ (record reg { active_5m_id = (market_at reg i).market_id }, some i)
        ]
      ]

  unfoldable pub get_active_15m : Registry F → Registry F × Option ℕ
  get_active_15m reg =
      let asked = λ (m : MarketEntry F). m.eligible_for_strategy_b in
      elim (cached asked reg reg.active_15m_id) [
        | some i ↦ (reg, some i)
        | none ↦ elim (coming asked reg) [
          | none ↦ (reg, none)
          | some i ↦ (record reg { active_15m_id = (market_at reg i).market_id }, some i)
        ]
      ]

  pub set_state : Registry F → ℕ → MarketState → Registry F × Rc
  set_state reg market_id state = elim (find reg market_id) [
    | none ↦ (reg, fail)
    | some i ↦ (change (λ m. record m { state = state }) reg i, ok)
  ]

  abbrev pub take_snapshot : ℕ → MarketEntry F → MarketEntry F
  take_snapshot now m = record m {
    snapshot_time_ns = now;
    state = if is_waiting m.state then MarketState.active else m.state;
  }

  unfoldable pub on_snapshot : Registry F → ℕ → ℕ → Registry F
  on_snapshot reg market_id now = elim (find reg market_id) [
    | none ↦ reg
    | some i ↦ change (take_snapshot now) reg i
  ]

  -- The market that a resolution is about: by its condition, or else by its id.
  unfoldable pub market_of : Registry F → Verdict F → Option ℕ
  market_of reg v = elim (find_by_condition reg v.condition_id) [
    | some i ↦ some i
    | none ↦ if ltb 0 v.market_id then find reg v.market_id else none
  ]

  -- The winner, by its token, or by its name where no token is given.
  unfoldable pub winner_of : MarketEntry F → Verdict F → Option ℤ
  winner_of m v =
      let asset = text_of v.winning_asset_id in
      let outcome = text_of v.winning_outcome in
      if is_given v.winning_asset_id
      then (if str_eq m.yes_token_id asset
          then some (pos 1)
          else if str_eq m.no_token_id asset
          then some (pos 0)
          else none)
      else if is_given v.winning_outcome
      then (if names_yes outcome
          then some (pos 1)
          else if names_no outcome
          then some (pos 0)
          else none)
      else none

  abbrev pub settle : Verdict F → ℤ → MarketEntry F → MarketEntry F
  settle v winner m = record m {
    state = MarketState.resolved;
    resolved_winner = winner;
    resolution_price = if d.lt (whole 0) v.resolution_price then v.resolution_price else whole 1;
    resolution_time_ns = v.now;
    active_flag = false;
  }

  abbrev pub leave_pending : MarketEntry F → MarketEntry F
  leave_pending m = record m { state = MarketState.pending_resolution }

  -- The resolution of one market.
  unfoldable pub resolve_entry : MarketEntry F → Verdict F → MarketEntry F × Resolution
  resolve_entry m v =
      if is_resolved m.state then (m, Resolution.already_resolved) else elim (winner_of m v) [
        | none ↦ (leave_pending m, Resolution.unknown_winner)
        | some w ↦ (settle v w m, Resolution.settled w)
      ]

  unfoldable pub resolve_verified : Registry F → Verdict F → Registry F × Resolution
  resolve_verified reg v = elim (market_of reg v) [
    | none ↦ (reg, Resolution.not_found)
    | some i ↦
        let m = market_at reg i in
        (change (λ m. (resolve_entry m v).0) reg i, (resolve_entry m v).1)
  ]

  -- The older call, with the winner as a flag.
  pub resolve : Registry F → Option CString → ℕ → Bool → F → ℕ → Registry F × Resolution
  resolve reg condition_id market_id winning_is_yes price now = resolve_verified reg (record {
    condition_id = condition_id;
    market_id = market_id;
    winning_asset_id = none;
    winning_outcome = some (if winning_is_yes then (89 ∷ 69 ∷ 83 ∷ []) else (78 ∷ 79 ∷ []));
    resolution_price = price;
    now = now;
  })

  unfoldable pub can_trade : MarketEntry F → ℕ → Bool
  can_trade m now =
      if not (is_trading m.state)
      then false
      else if ltb 0 m.start_time_ns && ltb now m.start_time_ns
      then false
      else if ltb 0 m.end_time_ns && leb m.end_time_ns (add64 now 5_000_000_000)
      then false
      else true

  pub time_to_expiry_sec : MarketEntry F → ℕ → F
  time_to_expiry_sec m now =
      if m.end_time_ns == 0 || leb m.end_time_ns now
      then whole 0
      else d.div (d.of_nat (sub64 m.end_time_ns now)) (whole 1_000_000_000)
