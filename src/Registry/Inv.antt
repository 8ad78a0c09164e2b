-- ===== src/Registry/Inv.antt =====
-- The entries of the registry keep their shape under every call, and a token too long for its field is
-- never recognised.
use polymarket_trade_engine.Prelude.{
  ℕ, ◌-◌, ◌≤◌, ◌<◌, ◌≡◌, refl, ◌⊎◌, Bool, true, false, ◌&&◌, Option, none, some, List, [], ◌∷◌, leb,
  length, All, ℤ, pos, negsuc, arith, find_index, text_of, is_given, CString, str_eq-length,
  length-take, Bool-cases, Option-cases, inl, inr, find_index_hit, All-set, All-get_or, All-append,
  get_or-set_self, length-set, length-append,
}
use polymarket_trade_engine.Double.{Double}
use polymarket_trade_engine.Registry.{
  MarketState, MarketEntry, NewMarket, Registry, zero_entry, market_at, change, init, add,
  new_entry, update_entry, rewrite, is_complete, is_known, is_within, max_markets, find,
  condition_size, token_size, slug_size,
}
use polymarket_trade_engine.FeedBridge.{add_subscribing, subscribing}
use polymarket_trade_engine.Registry.Resolve.{
  is_resolved, Resolution, Verdict, market_of, winner_of, resolve_entry, resolve_verified,
  take_snapshot, on_snapshot,
}
use polymarket_trade_engine.Registry.Lookup.{find_hit, market_of-lt}
use polymarket_trade_engine.Registry.Once.{
  Call, step, run, get_active_markets, get_active_5m_markets, get_active_15m_markets,
}

-- The winner: -1 while the market is open, and 1 or 0 afterwards.
abbrev pub WinnerFits : Bool → ℤ → Type 0
WinnerFits true w = w ≡ negsuc 0
WinnerFits false w = (w ≡ pos 0) ⊎ (w ≡ pos 1)

-- The strings fit their fields with the 0 behind them, each strategy takes the markets of its durations,
-- and a resolved market has its active flag cleared.
pub record IsEntry {F : Type 0} (m : MarketEntry F) : Type 0 where
  pub condition : length m.condition_id < condition_size
  pub slug : length m.slug < slug_size
  pub yes_token : length m.yes_token_id < token_size
  pub no_token : length m.no_token_id < token_size
  pub parity : m.eligible_for_strategy_a ≡ is_within 240 450 m.duration_sec
  pub flow : m.eligible_for_strategy_b ≡ is_within 750 1200 m.duration_sec
  pub winner : WinnerFits m.active_flag m.resolved_winner
  pub final : (is_resolved m.state && m.active_flag) ≡ false

pub record IsRegistry {F : Type 0} (reg : Registry F) : Type 0 where
  pub entries : All IsEntry reg.markets
  pub bound : length reg.markets ≤ max_markets

rewrite-lt :
    (size : ℕ) (s : Option CString) (old : CString)
    → 0 < size
    → length old < size
    → length (rewrite size s old) < size
rewrite-lt size none old p h = h
rewrite-lt size (some s) old p h = omega (arith, length-take (size - 1) s)

is_given-long : (s : Option CString) → 0 < length (text_of s) → is_given s ≡ true
is_given-long s h = ground arith

module _ {F : Type 0} ⦃d : Double F⦄ where
  update_entry-IsEntry :
      (q : NewMarket F) (m : MarketEntry F) → IsEntry m → IsEntry (update_entry q m)
  unfolding update_entry
  update_entry-IsEntry q m v = record {
    condition = v.condition;
    slug = rewrite-lt slug_size q.slug m.slug (omega arith) v.slug;
    yes_token = rewrite-lt token_size q.yes_token_id m.yes_token_id (omega arith) v.yes_token;
    no_token = rewrite-lt token_size q.no_token_id m.no_token_id (omega arith) v.no_token;
    parity = refl;
    flow = refl;
    winner = v.winner;
    final = v.final;
  }

  new_entry-IsEntry : (q : NewMarket F) (n : ℕ) → IsEntry (new_entry q n)
  unfolding new_entry
  new_entry-IsEntry q n = record {
    condition = omega (arith, length-take (condition_size - 1) (text_of q.condition_id));
    slug = omega (arith, length-take (slug_size - 1) (text_of q.slug));
    yes_token = omega (arith, length-take (token_size - 1) (text_of q.yes_token_id));
    no_token = omega (arith, length-take (token_size - 1) (text_of q.no_token_id));
    parity = refl;
    flow = refl;
    winner = refl;
    final = refl;
  }

  take_snapshot-IsEntry : (now : ℕ) (m : MarketEntry F) → IsEntry m → IsEntry (take_snapshot now m)
  take_snapshot-IsEntry now m v = record {
    condition = v.condition;
    slug = v.slug;
    yes_token = v.yes_token;
    no_token = v.no_token;
    parity = v.parity;
    flow = v.flow;
    winner = v.winner;
    final = ground (arith, v.final);
  }

  winner_of-fits :
      (m : MarketEntry F) (v : Verdict F) (w : ℤ)
      → winner_of m v ≡ some w
      → (w ≡ pos 0) ⊎ (w ≡ pos 1)
  unfolding winner_of
  winner_of-fits m v w h = ground arith

  resolve_entry-IsEntry :
      (m : MarketEntry F) (v : Verdict F) → IsEntry m → IsEntry (resolve_entry m v).0
  unfolding resolve_entry
  resolve_entry-IsEntry m v i = elim (Bool-cases (is_resolved m.state)) [
    | inl e ↦ rw (e, resolve_entry) i
    | inr e ↦ elim (Option-cases (winner_of m v)) [
      | inl r ↦
          rw (e, r, resolve_entry)
            (record {
              condition = i.condition;
              slug = i.slug;
              yes_token = i.yes_token;
              no_token = i.no_token;
              parity = i.parity;
              flow = i.flow;
              winner = i.winner;
              final = refl;
            })
      | inr r ↦
          rw (e, r.1, resolve_entry)
            (record {
              condition = i.condition;
              slug = i.slug;
              yes_token = i.yes_token;
              no_token = i.no_token;
              parity = i.parity;
              flow = i.flow;
              winner = winner_of-fits m v r.0 r.1;
              final = refl;
            })
    ]
  ]

  change-IsRegistry :
      (f : MarketEntry F → MarketEntry F) (reg : Registry F) (i : ℕ)
      → ((m : MarketEntry F) → IsEntry m → IsEntry (f m))
      → i < length reg.markets
      → IsRegistry reg
      → IsRegistry (change f reg i)
  change-IsRegistry f reg i keep l v = record {
    entries =
        All-set IsEntry reg.markets i _
          (keep (market_at reg i) (All-get_or IsEntry reg.markets i zero_entry v.entries l))
          v.entries;
    bound = omega (arith, length-set reg.markets i (f (market_at reg i)), v.bound);
  }

  add-IsRegistry : (reg : Registry F) (q : NewMarket F) → IsRegistry reg → IsRegistry (add reg q).0
  unfolding add
  add-IsRegistry reg q v =
      let known = is_known q.market_id (text_of q.condition_id) in
      let n = length reg.markets in
      elim (Bool-cases (is_complete q)) [
        | inr e ↦ rw (e, add) v
        | inl e ↦ elim (Option-cases (find_index known reg.markets)) [
          | inr r ↦
              rw (e, r.1, add)
                (change-IsRegistry (update_entry q) reg r.0 (update_entry-IsEntry q)
                  (find_index_hit known reg.markets zero_entry r.0 r.1).0 v)
          | inl r ↦ elim (Bool-cases (leb max_markets n)) [
            | inl g ↦ rw (e, r, g, add) v
            | inr g ↦
                rw (e, r, g, add)
                  (record {
                    entries =
                        All-append IsEntry reg.markets _ v.entries (new_entry-IsEntry q n, tt);
                    bound = ground (arith, length-append reg.markets (new_entry q n ∷ []));
                  })
          ]
        ]
      ]

  -- What `add` returns stands in the array.
  added-lt :
      (reg : Registry F) (q : NewMarket F) (i : ℕ)
      → (add reg q).1 ≡ some i
      → i < length (add reg q).0.markets
  unfolding add
  added-lt reg q i =
      let known = is_known q.market_id (text_of q.condition_id) in
      let n = length reg.markets in
      elim (Bool-cases (is_complete q)) [
        | inr e ↦ rw (e, add) (λ h. ground arith)
        | inl e ↦ elim (Option-cases (find_index known reg.markets)) [
          | inr r ↦
              let hit = (find_index_hit known reg.markets zero_entry r.0 r.1).0 in
              rw (e, r.1, add)
                (λ h.
                  ground
                    (arith, hit, length-set reg.markets r.0 (update_entry q (market_at reg r.0))))
          | inl r ↦ elim (Bool-cases (leb max_markets n)) [
            | inl g ↦ rw (e, r, g, add) (λ h. ground arith)
            | inr g ↦
                rw (e, r, g, add)
                  (λ h. ground (arith, length-append reg.markets (new_entry q n ∷ [])))
          ]
        ]
      ]

  on_snapshot-IsRegistry :
      (reg : Registry F) (market_id now : ℕ)
      → IsRegistry reg
      → IsRegistry (on_snapshot reg market_id now)
  unfolding on_snapshot
  on_snapshot-IsRegistry reg market_id now v = elim (Option-cases (find reg market_id)) [
    | inl e ↦ rw (e, on_snapshot) v
    | inr e ↦
        rw (e.1, on_snapshot)
          (change-IsRegistry (take_snapshot now) reg e.0 (take_snapshot-IsEntry now)
            (find_hit reg market_id e.0 e.1).0 v)
  ]

  resolve_verified-IsRegistry :
      (reg : Registry F) (v : Verdict F) → IsRegistry reg → IsRegistry (resolve_verified reg v).0
  unfolding resolve_verified
  resolve_verified-IsRegistry reg v i = elim (Option-cases (market_of reg v)) [
    | inl e ↦ rw (e, resolve_verified) i
    | inr e ↦
        rw (e.1, resolve_verified)
          (change-IsRegistry (λ m. (resolve_entry m v).0) reg e.0 (λ m. resolve_entry-IsEntry m v)
            (market_of-lt reg v e.0 e.1) i)
  ]

  subscribing-IsEntry : (m : MarketEntry F) → IsEntry m → IsEntry (subscribing m)
  subscribing-IsEntry m i = record {
    condition = i.condition;
    slug = i.slug;
    yes_token = i.yes_token;
    no_token = i.no_token;
    parity = i.parity;
    flow = i.flow;
    winner = i.winner;
    final = refl;
  }

  add_subscribing-IsRegistry :
      (reg : Registry F) (q : NewMarket F) → IsRegistry reg → IsRegistry (add_subscribing reg q)
  unfolding add_subscribing
  add_subscribing-IsRegistry reg q v =
      let w = add-IsRegistry reg q v in
      elim (Option-cases (add reg q).1) [
        | inl e ↦ rw (add_subscribing, e) w
        | inr e ↦
            rw (add_subscribing, e.1)
              (change-IsRegistry subscribing (add reg q).0 e.0 subscribing-IsEntry
                (added-lt reg q e.0 e.1) w)
      ]

  same_markets : (a b : Registry F) → a.markets ≡ b.markets → IsRegistry b → IsRegistry a
  same_markets a b e v = record { entries = rw e v.entries; bound = rw e v.bound }

  step-IsRegistry : (reg : Registry F) (c : Call F) → IsRegistry reg → IsRegistry (step reg c)
  unfolding step
  step-IsRegistry reg (Call.discovers q) v = add_subscribing-IsRegistry reg q v
  step-IsRegistry reg (Call.snapshot id now) v = on_snapshot-IsRegistry reg id now v
  step-IsRegistry reg Call.active v = same_markets _ reg (get_active_markets reg) v
  step-IsRegistry reg Call.active_5m v = same_markets _ reg (get_active_5m_markets reg) v
  step-IsRegistry reg Call.active_15m v = same_markets _ reg (get_active_15m_markets reg) v
  step-IsRegistry reg (Call.resolves v) i = resolve_verified-IsRegistry reg v i

  run-IsRegistry :
      (reg : Registry F) (cs : List (Call F)) → IsRegistry reg → IsRegistry (run reg cs)
  unfolding run
  run-IsRegistry reg [] v = v
  run-IsRegistry reg (c ∷ cs) v = run-IsRegistry (step reg c) cs (step-IsRegistry reg c v)

  -- Under any calls of the engine, the feed bridge's writes to discovered markets included, there are at
  -- most 64 markets; the strings of each fit their fields, each strategy takes exactly the markets of its
  -- durations, a resolved market has its active flag cleared, and the winner is 0 or 1 exactly where
  -- that flag is cleared, and -1 before.
  pub run-init-IsRegistry : (cs : List (Call F)) → IsRegistry (run init cs)
  unfolding init
  run-init-IsRegistry cs = run-IsRegistry init cs (record { entries = tt; bound = omega arith })

  winner_of-long :
      (m : MarketEntry F) (v : Verdict F)
      → IsEntry m
      → token_size ≤ length (text_of v.winning_asset_id)
      → winner_of m v ≡ none
  unfolding winner_of
  winner_of-long m v i h =
      let asset = text_of v.winning_asset_id in
      rw
        (
          is_given-long v.winning_asset_id (omega arith),
          str_eq-length m.yes_token_id asset (omega (arith, i.yes_token)),
          str_eq-length m.no_token_id asset (omega (arith, i.no_token)),
        )
        refl

  resolve_entry-unknown :
      (m : MarketEntry F) (v : Verdict F)
      → is_resolved m.state ≡ false
      → winner_of m v ≡ none
      → resolve_entry m v
        ≡ (record m { state = MarketState.pending_resolution }, Resolution.unknown_winner)
  unfolding resolve_entry
  resolve_entry-unknown m v h e = rw (h, e) refl

  resolve_verified-unknown :
      (reg : Registry F) (v : Verdict F) (i : ℕ)
      → market_of reg v ≡ some i
      → is_resolved (market_at reg i).state ≡ false
      → winner_of (market_at reg i) v ≡ none
      → let r = resolve_verified reg v in
        (r.1 ≡ Resolution.unknown_winner)
        × ((market_at r.0 i).state ≡ MarketState.pending_resolution)
  unfolding resolve_verified
  resolve_verified-unknown reg v i e h w =
      let m = market_at reg i in
      let pending = record m { state = MarketState.pending_resolution } in
      rw (e, resolve_verified, resolve_entry-unknown m v h w)
        (refl, rw (get_or-set_self reg.markets i pending zero_entry (market_of-lt reg v i e)) refl)

  -- A market of the engine's registry is never resolved by a winning token of 72 characters or more, its
  -- own included: the resolution is refused, and the market left pending.
  pub resolve_verified-long_token :
      (cs : List (Call F)) (v : Verdict F) (i : ℕ)
      → market_of (run init cs) v ≡ some i
      → is_resolved (market_at (run init cs) i).state ≡ false
      → token_size ≤ length (text_of v.winning_asset_id)
      → let r = resolve_verified (run init cs) v in
        (r.1 ≡ Resolution.unknown_winner)
        × ((market_at r.0 i).state ≡ MarketState.pending_resolution)
  resolve_verified-long_token cs v i e h l =
      let reg = run init cs in
      let lt = market_of-lt reg v i e in
      let entry = All-get_or IsEntry reg.markets i zero_entry (run-init-IsRegistry cs).entries lt in
      resolve_verified-unknown reg v i e h (winner_of-long (market_at reg i) v entry l)
