-- ===== src/Registry/Once.antt =====
-- What the engine's calls, in any order, make of one market: a resolution is final until the market is
-- discovered again.
use polymarket_trade_engine.Prelude.{
  ℕ, ◌+◌, ◌≤◌, ◌≡◌, refl, Bool, true, false, ◌&&◌, Option, none, some, List, [], ◌∷◌, if◌then◌else◌,
  leb, ◌==◌, length, arith, find_index, text_of, get_or-set_related, get_or-append_related,
  Option-cases, Bool-cases, inl, inr, get_or-set_self, get_or-set_other,
}
use polymarket_trade_engine.Double.{Double}
use polymarket_trade_engine.FeedBridge.{add_subscribing, subscribing}
use polymarket_trade_engine.Registry.Lookup.{market_of-lt}
use polymarket_trade_engine.Registry.{
  MarketEntry, NewMarket, Registry, zero_entry, market_at, change, add, update_entry, new_entry,
  is_complete, is_known, max_markets, find,
}
use polymarket_trade_engine.Registry.Resolve.{
  is_resolved, Resolution, Verdict, market_of, resolve_entry, resolve_verified, on_snapshot,
  take_snapshot, get_active, get_active_5m, get_active_15m,
}

-- A resolved market stays resolved, with the same winner, price and time.
pub record Keeps {F : Type 0} (m n : MarketEntry F) : Type 0 where
  pub state : is_resolved m.state ≡ true → n.state ≡ m.state
  pub winner : is_resolved m.state ≡ true → n.resolved_winner ≡ m.resolved_winner
  pub price : is_resolved m.state ≡ true → n.resolution_price ≡ m.resolution_price
  pub time : is_resolved m.state ≡ true → n.resolution_time_ns ≡ m.resolution_time_ns

Keeps-refl : {F : Type 0} (m : MarketEntry F) → Keeps m m
Keeps-refl m = record { state = λ h. refl; winner = λ h. refl; price = λ h. refl; time = λ h. refl }

-- The calls that the engine makes, `discovers` with the write of the feed bridge behind it. Nothing calls
-- pt_market_registry_set_state.
pub data Call (F : Type 0) : Type 0 where
  discovers : NewMarket F → Call F
  snapshot : ℕ → ℕ → Call F
  active active_5m active_15m : Call F
  resolves : Verdict F → Call F

unfoldable pub is_settled : Resolution → Bool
is_settled (Resolution.settled w) = true
is_settled _ = false

unfoldable pub points_to : ℕ → Option ℕ → Bool
points_to i none = false
points_to i (some j) = i == j

points_to_sound : (i : ℕ) (r : Option ℕ) → points_to i r ≡ true → r ≡ some i
unfolding points_to
points_to_sound i r h = ground arith

missed : (i j : ℕ) (r : Option ℕ) → points_to i r ≡ false → r ≡ some j → j ≡ i → ⊥
unfolding points_to
missed i j r h e same = ground arith

module _ {F : Type 0} ⦃d : Double F⦄ where
  unfoldable pub step : Registry F → Call F → Registry F
  step reg (Call.discovers q) = add_subscribing reg q
  step reg (Call.snapshot market_id now) = on_snapshot reg market_id now
  step reg Call.active = (get_active reg).0
  step reg Call.active_5m = (get_active_5m reg).0
  step reg Call.active_15m = (get_active_15m reg).0
  step reg (Call.resolves v) = (resolve_verified reg v).0

  -- Whether the call settles market `i`.
  unfoldable pub settles : ℕ → Registry F → Call F → Bool
  unfolding is_settled points_to
  settles i reg (Call.resolves v) =
      points_to i (market_of reg v) && is_settled (resolve_verified reg v).1
  settles i reg _ = false

  unfoldable pub run : Registry F → List (Call F) → Registry F
  run reg [] = reg
  run reg (c ∷ cs) = run (step reg c) cs

  -- Whether the call discovers market `i` again after it was resolved.
  unfoldable pub reopens : ℕ → Registry F → Call F → Bool
  unfolding points_to
  reopens i reg (Call.discovers q) =
      points_to i (add reg q).1 && is_resolved (market_at reg i).state
  reopens i reg _ = false

  -- How many of the calls do that.
  unfoldable pub reopenings : ℕ → Registry F → List (Call F) → ℕ
  reopenings i reg [] = 0
  reopenings i reg (c ∷ cs) = (if reopens i reg c then 1 else 0) + reopenings i (step reg c) cs

  -- How many of the calls settle market `i`.
  unfoldable pub settlements : ℕ → Registry F → List (Call F) → ℕ
  settlements i reg [] = 0
  settlements i reg (c ∷ cs) = (if settles i reg c then 1 else 0) + settlements i (step reg c) cs

  change-Keeps :
      (f : MarketEntry F → MarketEntry F) (reg : Registry F) (i j : ℕ)
      → Keeps (market_at reg j) (f (market_at reg j))
      → Keeps (market_at reg i) (market_at (change f reg j) i)
  change-Keeps f reg i j h =
      get_or-set_related Keeps reg.markets i j (f (market_at reg j)) zero_entry Keeps-refl h

  update_entry-Keeps : (q : NewMarket F) (m : MarketEntry F) → Keeps m (update_entry q m)
  unfolding update_entry
  update_entry-Keeps q m = record {
    state = λ h. refl;
    winner = λ h. refl;
    price = λ h. refl;
    time = λ h. refl;
  }

  zero_entry-Keeps : (m : MarketEntry F) → Keeps zero_entry m
  zero_entry-Keeps m = record {
    state = λ h. ground arith;
    winner = λ h. ground arith;
    price = λ h. ground arith;
    time = λ h. ground arith;
  }

  add-Keeps :
      (reg : Registry F) (q : NewMarket F) (i : ℕ)
      → Keeps (market_at reg i) (market_at (add reg q).0 i)
  unfolding add
  add-Keeps reg q i = elim (Bool-cases (is_complete q)) [
    | inr e ↦ rw e (Keeps-refl _)
    | inl e ↦
        elim (Option-cases
          (find_index (is_known q.market_id (text_of q.condition_id)) reg.markets)) [
            | inr r ↦ rw (e, r.1) (change-Keeps (update_entry q) reg i r.0 (update_entry-Keeps q _))
            | inl r ↦ elim (Bool-cases (leb max_markets (length reg.markets))) [
              | inl g ↦ rw (e, r, g) (Keeps-refl _)
              | inr g ↦
                  rw (e, r, g)
                    (get_or-append_related Keeps reg.markets i (new_entry q (length reg.markets))
                      zero_entry Keeps-refl (zero_entry-Keeps _))
            ]
          ]
  ]

  resolve_entry-Keeps : (m : MarketEntry F) (v : Verdict F) → Keeps m (resolve_entry m v).0
  unfolding resolve_entry
  resolve_entry-Keeps m v = record {
    state = λ h. rw h refl;
    winner = λ h. rw h refl;
    price = λ h. rw h refl;
    time = λ h. rw h refl;
  }

  resolve_verified-Keeps :
      (reg : Registry F) (v : Verdict F) (i : ℕ)
      → Keeps (market_at reg i) (market_at (resolve_verified reg v).0 i)
  unfolding resolve_verified
  resolve_verified-Keeps reg v i = elim (Option-cases (market_of reg v)) [
    | inl e ↦ rw (e, resolve_verified) (Keeps-refl _)
    | inr e ↦
        rw (e.1, resolve_verified)
          (change-Keeps (λ m. (resolve_entry m v).0) reg i e.0 (resolve_entry-Keeps _ v))
  ]

  take_snapshot-Keeps : (now : ℕ) (m : MarketEntry F) → Keeps m (take_snapshot now m)
  take_snapshot-Keeps now m = record {
    state = λ h. ground arith;
    winner = λ h. refl;
    price = λ h. refl;
    time = λ h. refl;
  }

  on_snapshot-Keeps :
      (reg : Registry F) (market_id now i : ℕ)
      → Keeps (market_at reg i) (market_at (on_snapshot reg market_id now) i)
  unfolding on_snapshot
  on_snapshot-Keeps reg market_id now i = elim (Option-cases (find reg market_id)) [
    | inl e ↦ rw (e, on_snapshot) (Keeps-refl _)
    | inr e ↦
        rw (e.1, on_snapshot)
          (change-Keeps (take_snapshot now) reg i e.0 (take_snapshot-Keeps now _))
  ]

  -- A query writes nothing but the cached id.
  pub get_active_markets : (reg : Registry F) → (get_active reg).0.markets ≡ reg.markets
  unfolding get_active
  get_active_markets reg = ground arith

  pub get_active_5m_markets : (reg : Registry F) → (get_active_5m reg).0.markets ≡ reg.markets
  unfolding get_active_5m
  get_active_5m_markets reg = ground arith

  pub get_active_15m_markets : (reg : Registry F) → (get_active_15m reg).0.markets ≡ reg.markets
  unfolding get_active_15m
  get_active_15m_markets reg = ground arith

  -- A discovery of another market.
  add_subscribing-Keeps :
      (reg : Registry F) (q : NewMarket F) (i : ℕ)
      → points_to i (add reg q).1 ≡ false
      → Keeps (market_at reg i) (market_at (add_subscribing reg q) i)
  unfolding add_subscribing points_to
  add_subscribing-Keeps reg q i h = elim (Option-cases (add reg q).1) [
    | inl e ↦ rw (add_subscribing, e) (add-Keeps reg q i)
    | inr e ↦
        let r = (add reg q).0 in
        rw
          (
            add_subscribing,
            e.1,
            get_or-set_other r.markets e.0 i (subscribing (market_at r e.0)) zero_entry
                (λ same. missed i e.0 (add reg q).1 h e.1 same),
          )
          (add-Keeps reg q i)
  ]

  -- 1 for a resolved market, 0 for any other.
  rank : MarketEntry F → ℕ
  rank m = if is_resolved m.state then 1 else 0

  rank-le : (m : MarketEntry F) → rank m ≤ 1
  unfolding rank
  rank-le m = ground arith

  rank-Keeps : (m n : MarketEntry F) → Keeps m n → rank m ≤ rank n
  unfolding rank
  rank-Keeps m n k = ground (arith, k.state)

  -- A resolution that names a winner finds the market unresolved and leaves it resolved.
  resolve_entry-rank :
      (m : MarketEntry F) (v : Verdict F)
      → is_settled (resolve_entry m v).1 ≡ true
      → (rank m ≡ 0) × (rank (resolve_entry m v).0 ≡ 1)
  unfolding rank is_settled resolve_entry
  resolve_entry-rank m v h = ground arith

  resolve_verified-rank :
      (reg : Registry F) (v : Verdict F) (i : ℕ)
      → market_of reg v ≡ some i
      → is_settled (resolve_verified reg v).1 ≡ true
      → (rank (market_at reg i) ≡ 0) × (rank (market_at (resolve_verified reg v).0 i) ≡ 1)
  unfolding resolve_verified
  resolve_verified-rank reg v i e =
      rw (e, resolve_verified)
        (λ h.
          let m = market_at reg i in
          let r = resolve_entry-rank m v h in
          (
            r.0,
            rw
                (get_or-set_self reg.markets i (resolve_entry m v).0 zero_entry
                  (market_of-lt reg v i e))
                r.1,
          ))

  -- A market never changes from resolved but by a discovery.
  add_subscribing-rank :
      (reg : Registry F) (q : NewMarket F) (i : ℕ)
      → rank (market_at reg i)
        ≤ rank (market_at (add_subscribing reg q) i)
          + (if points_to i (add reg q).1 && is_resolved (market_at reg i).state then 1 else 0)
  unfolding rank
  add_subscribing-rank reg q i = elim (Bool-cases (points_to i (add reg q).1)) [
    | inl e ↦ rw e (ground arith)
    | inr e ↦ let k = rank-Keeps _ _ (add_subscribing-Keeps reg q i e) in rw e (omega (arith, k))
  ]

  resolves-rank :
      (reg : Registry F) (v : Verdict F) (i : ℕ)
      → (if points_to i (market_of reg v) && is_settled (resolve_verified reg v).1 then 1 else 0)
          + rank (market_at reg i)
        ≤ rank (market_at (resolve_verified reg v).0 i)
  resolves-rank reg v i =
      elim (Bool-cases (points_to i (market_of reg v) && is_settled (resolve_verified reg v).1)) [
        | inl e ↦
            let r =
              resolve_verified-rank reg v i (points_to_sound i (market_of reg v) (ground arith))
                (ground arith) in
            rw e (omega (arith, r.0, r.1))
        | inr e ↦ rw e (omega (arith, rank-Keeps _ _ (resolve_verified-Keeps reg v i)))
      ]

  same_rank :
      (a b : Registry F) (i : ℕ)
      → a.markets ≡ b.markets
      → rank (market_at b i) ≤ rank (market_at a i)
  same_rank a b i e = rw e (omega arith)

  step-rank :
      (reg : Registry F) (c : Call F) (i : ℕ)
      → (if settles i reg c then 1 else 0) + rank (market_at reg i)
        ≤ rank (market_at (step reg c) i) + (if reopens i reg c then 1 else 0)
  unfolding settles reopens step
  step-rank reg (Call.discovers q) i = omega (arith, add_subscribing-rank reg q i)
  step-rank reg (Call.snapshot id now) i =
      omega (arith, rank-Keeps _ _ (on_snapshot-Keeps reg id now i))
  step-rank reg Call.active i =
      omega (arith, same_rank (get_active reg).0 reg i (get_active_markets reg))
  step-rank reg Call.active_5m i =
      omega (arith, same_rank (get_active_5m reg).0 reg i (get_active_5m_markets reg))
  step-rank reg Call.active_15m i =
      omega (arith, same_rank (get_active_15m reg).0 reg i (get_active_15m_markets reg))
  step-rank reg (Call.resolves v) i = omega (arith, resolves-rank reg v i)

  run-rank :
      (reg : Registry F) (cs : List (Call F)) (i : ℕ)
      → settlements i reg cs + rank (market_at reg i)
        ≤ rank (market_at (run reg cs) i) + reopenings i reg cs
  unfolding run settlements reopenings
  run-rank reg [] i = omega arith
  run-rank reg (c ∷ cs) i = omega (arith, step-rank reg c i, run-rank (step reg c) cs i)

  -- However the engine discovers markets, takes snapshots, asks for the active market and reports
  -- resolutions, in any order, a market is settled at most once more than it is discovered again while
  -- it is resolved; once, where that never happens.
  pub settlements-le :
      (reg : Registry F) (cs : List (Call F)) (i : ℕ)
      → settlements i reg cs ≤ 1 + reopenings i reg cs
  settlements-le reg cs i = omega (arith, run-rank reg cs i, rank-le (market_at (run reg cs) i))
