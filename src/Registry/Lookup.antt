-- ===== src/Registry/Lookup.antt =====
-- The lookups of the registry: what they point to stands in the array.
use polymarket_trade_engine.Prelude.{
  ℕ, ◌<◌, ◌≡◌, true, Option, some, length, arith, Bool-cases, Option-cases, inl, inr, ◌==◌,
  is_given, text_of, CString, find_index_hit,
}
use polymarket_trade_engine.Double.{Double}
use polymarket_trade_engine.Registry.{
  Registry, market_at, zero_entry, find, find_by_condition, has_id, has_condition,
}
use polymarket_trade_engine.Registry.Resolve.{Verdict, market_of}

module _ {F : Type 0} ⦃d : Double F⦄ where
  pub find_hit :
      (reg : Registry F) (id i : ℕ)
      → find reg id ≡ some i
      → (i < length reg.markets) × (has_id id (market_at reg i) ≡ true)
  unfolding find
  find_hit reg id i h = elim (Bool-cases (id == 0)) [
    | inl e ↦ ground arith
    | inr e ↦ find_index_hit (has_id id) reg.markets zero_entry i (ground arith)
  ]

  pub find_by_condition_hit :
      (reg : Registry F) (s : Option CString) (i : ℕ)
      → find_by_condition reg s ≡ some i
      → (i < length reg.markets) × (has_condition (text_of s) (market_at reg i) ≡ true)
  unfolding find_by_condition
  find_by_condition_hit reg s i h = elim (Bool-cases (is_given s)) [
    | inl e ↦ find_index_hit (has_condition (text_of s)) reg.markets zero_entry i (ground arith)
    | inr e ↦ ground arith
  ]

  pub market_of-lt :
      (reg : Registry F) (v : Verdict F) (i : ℕ) → market_of reg v ≡ some i → i < length reg.markets
  unfolding market_of
  market_of-lt reg v i h = elim (Option-cases (find_by_condition reg v.condition_id)) [
    | inr e ↦ ground (arith, find_by_condition_hit reg v.condition_id i)
    | inl e ↦ ground (arith, find_hit reg v.market_id i)
  ]
