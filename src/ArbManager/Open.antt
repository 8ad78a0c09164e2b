-- ===== src/ArbManager/Open.antt =====
-- A new operation takes a free entry.
use polymarket_trade_engine.Prelude.{
  ℕ, ◌<◌, ◌≡◌, ◌⊎◌, ◌==◌, refl, Bool, List, [], ◌∷◌, All, get_or, set, arith, true, false, Option,
  none, some, length, find_index, find_index_hit, get_or-set_self, get_or-set_other, Bool-cases,
  Option-cases, inl, inr, add64,
}
use polymarket_trade_engine.Double.{Double}
use polymarket_trade_engine.Arb.{Opportunity}
use polymarket_trade_engine.ArbManager.{
  ArbOp, ArbManager, is_free, zero_op, op_at, new_op, next_id, open_op,
}

module _ {F : Type 0} ⦃d : Double F⦄ where
  -- No entry passes the test.
  none_hit :
      (p : ArbOp F → Bool) (ops : List (ArbOp F))
      → find_index p ops ≡ none
      → All (λ op. p op ≡ false) ops
  unfolding find_index
  none_hit p [] h = tt
  none_hit p (op ∷ ops) h = elim (Bool-cases (p op)) [
    | inl e ↦ ground arith
    | inr e ↦ elim (Option-cases (find_index p ops)) [
      | inl r ↦ (e, none_hit p ops r)
      | inr r ↦ ground (arith, r.1)
    ]
  ]

  -- Refused, with nothing changed, exactly for no opportunity or where no entry is free; or begun
  -- afresh, for an opportunity, at an entry that was free, with every other entry as it was.
  abbrev pub IsOpened : ArbManager F → Opportunity F → ℕ → ℕ → ℕ → ArbManager F → Option ℕ → Type 0
  IsOpened m opp yes_oid now j m' none =
      (m' ≡ m) × ((opp.has_opportunity ≡ false) ⊎ All (λ op. is_free op ≡ false) m.ops)
  IsOpened m opp yes_oid now j m' (some i) =
      (opp.has_opportunity ≡ true)
      × (i < length m.ops)
      × (is_free (op_at m i) ≡ true)
      × (op_at m' i ≡ new_op opp m.next_arb_id yes_oid now)
      × (m'.next_arb_id ≡ add64 m.next_arb_id 1)
      × ((j ≡ i) ⊎ (op_at m' j ≡ op_at m j))

  others_kept :
      (ops : List (ArbOp F)) (i j : ℕ) (op : ArbOp F)
      → (j ≡ i) ⊎ (get_or (set ops i op) j zero_op ≡ get_or ops j zero_op)
  others_kept ops i j op = elim (Bool-cases (j == i)) [
    | inl e ↦ inl (ground arith)
    | inr e ↦ inr (get_or-set_other ops i j op zero_op (λ h. ground arith))
  ]

  -- An operation is begun only for an opportunity and at a free entry, with nothing filled and an id of
  -- its own count, and every other entry `j` is left as it is. The call is refused only without an
  -- opportunity or where every entry runs, and then changes nothing.
  pub open_op_lem :
      (m : ArbManager F) (opp : Opportunity F) (yes_oid now j : ℕ)
      → let r = open_op m opp yes_oid now in IsOpened m opp yes_oid now j r.0 r.1
  unfolding open_op next_id
  open_op_lem m opp yes_oid now j = elim (Bool-cases opp.has_opportunity) [
    | inr e ↦ rw (open_op, e) (refl, inl refl)
    | inl e ↦ elim (Option-cases (find_index is_free m.ops)) [
      | inl f ↦ rw (open_op, e, f) (refl, inr (none_hit is_free m.ops f))
      | inr f ↦
          let (i, found) = f in
          let hit = find_index_hit is_free m.ops zero_op i found in
          let op = new_op opp m.next_arb_id yes_oid now in
          rw (open_op, e, found)
            (
              refl,
              hit.0,
              hit.1,
              get_or-set_self m.ops i op zero_op hit.0,
              refl,
              others_kept m.ops i j op,
            )
    ]
  ]
