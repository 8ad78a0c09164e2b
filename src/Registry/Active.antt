-- ===== src/Registry/Active.antt =====
-- The active markets that the strategies are given.
use polymarket_trade_engine.Prelude.{
  ℕ, ◌<◌, ◌≡◌, sym, ◌∙◌, Bool, true, false, ◌&&◌, some, List, length, arith, find_index_hit,
  All-get_or, Option-cases, inl, inr,
}
use polymarket_trade_engine.Double.{Double}
use polymarket_trade_engine.Registry.{
  MarketState, MarketEntry, Registry, zero_entry, market_at, init, find, is_within,
}
use polymarket_trade_engine.Registry.Resolve.{
  is_over, is_coming, cached, coming, get_active_5m, get_active_15m,
}
use polymarket_trade_engine.Registry.Lookup.{find_hit}
use polymarket_trade_engine.Registry.Once.{Call, run}
use polymarket_trade_engine.Registry.Inv.{IsEntry, run-init-IsRegistry}

coming_open : (s : MarketState) → is_coming s ≡ true → is_over s ≡ false
coming_open s h = ground arith

module _ {F : Type 0} ⦃d : Double F⦄ where
  -- A market of the registry that is asked for and still open.
  Serves : (MarketEntry F → Bool) → Registry F → ℕ → Type 0
  Serves asked reg i =
      (i < length reg.markets)
      × (asked (market_at reg i) ≡ true)
      × (is_over (market_at reg i).state ≡ false)

  cached-Serves :
      (asked : MarketEntry F → Bool) (reg : Registry F) (id i : ℕ)
      → cached asked reg id ≡ some i
      → Serves asked reg i
  unfolding cached Serves
  cached-Serves asked reg id i h = elim (Option-cases (find reg id)) [
    | inl e ↦ ground arith
    | inr e ↦ let l = (find_hit reg id e.0 e.1).0 in ground arith
  ]

  coming-Serves :
      (asked : MarketEntry F → Bool) (reg : Registry F) (i : ℕ)
      → coming asked reg ≡ some i
      → Serves asked reg i
  unfolding coming Serves
  coming-Serves asked reg i h =
      let hit = find_index_hit (λ m. asked m && is_coming m.state) reg.markets zero_entry i h in
      let still = coming_open (market_at reg i).state in ground (arith, hit.0, hit.1, still)

  get_active_5m-Serves :
      (reg : Registry F) (i : ℕ)
      → (get_active_5m reg).1 ≡ some i
      → Serves (λ m. m.eligible_for_strategy_a) reg i
  unfolding get_active_5m
  get_active_5m-Serves reg i h =
      let asked = λ (m : MarketEntry F). m.eligible_for_strategy_a in
      ground (arith, cached-Serves asked reg reg.active_5m_id i, coming-Serves asked reg i)

  get_active_15m-Serves :
      (reg : Registry F) (i : ℕ)
      → (get_active_15m reg).1 ≡ some i
      → Serves (λ m. m.eligible_for_strategy_b) reg i
  unfolding get_active_15m
  get_active_15m-Serves reg i h =
      let asked = λ (m : MarketEntry F). m.eligible_for_strategy_b in
      ground (arith, cached-Serves asked reg reg.active_15m_id i, coming-Serves asked reg i)

  -- Under any calls of the engine, the market that the parity strategy is given lasts from 240 to 450
  -- seconds, the one that the flow strategy is given from 750 to 1200, and neither is closed, resolved or
  -- waiting for its resolution.
  pub get_active-durations :
      (cs : List (Call F)) (i j : ℕ)
      → (get_active_5m (run init cs)).1 ≡ some i
      → (get_active_15m (run init cs)).1 ≡ some j
      → let reg = run init cs in
        (is_within 240 450 (market_at reg i).duration_sec ≡ true)
        × (is_over (market_at reg i).state ≡ false)
        × (is_within 750 1200 (market_at reg j).duration_sec ≡ true)
        × (is_over (market_at reg j).state ≡ false)
  unfolding Serves
  get_active-durations cs i j h k =
      let reg = run init cs in
      let a = get_active_5m-Serves reg i h in
      let b = get_active_15m-Serves reg j k in
      let v = (run-init-IsRegistry cs).entries in
      let m = All-get_or IsEntry reg.markets i zero_entry v a.0 in
      let n = All-get_or IsEntry reg.markets j zero_entry v b.0 in
      (sym m.parity ∙ a.1, a.2, sym n.flow ∙ b.1, b.2)
