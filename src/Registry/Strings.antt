-- ===== src/Registry/Strings.antt =====
-- What of a new market's strings the registry finds again: whole where they fit their field, and not
-- at all where they are longer.
use polymarket_trade_engine.Prelude.{
  ℕ, ◌+◌, ◌-◌, ◌==◌, if◌then◌else◌, negsuc, ◌<◌, ◌≡◌, refl, ap, ◌∙◌, true, false, none, some, [],
  ◌∷◌, ◌++◌, leb, length, arith, find_index, text_of, is_given, str_eq_refl, take_all,
  find_index-append, get_or-append_last, find_index_weaker,
}
use polymarket_trade_engine.Double.{Double}
use polymarket_trade_engine.Registry.{
  MarketState, MarketEntry, NewMarket, Registry, market_at, add, new_entry, is_complete, is_known,
  max_markets, find_by_condition, has_condition, condition_size, token_size,
}

leb-false : (a b : ℕ) → b < a → leb a b ≡ false
leb-false a b h = ground arith

module _ {F : Type 0} ⦃d : Double F⦄ where
  -- A market that `add` takes as new.
  abbrev pub IsNew : Registry F → NewMarket F → Type 0
  IsNew reg q =
      (is_complete q ≡ true)
      × (find_index (is_known q.market_id (text_of q.condition_id)) reg.markets ≡ none)
      × (length reg.markets < max_markets)

  add-new :
      (reg : Registry F) (q : NewMarket F)
      → IsNew reg q
      → ((add reg q).1 ≡ some (length reg.markets))
        × ((add reg q).0.markets ≡ reg.markets ++ new_entry q (length reg.markets) ∷ [])
  unfolding add
  add-new reg q h = rw (h.0, h.1, leb-false max_markets (length reg.markets) h.2) (refl, refl)

  new_entry-get :
      (reg : Registry F) (q : NewMarket F)
      → IsNew reg q
      → market_at (add reg q).0 (length reg.markets) ≡ new_entry q (length reg.markets)
  new_entry-get reg q h = rw ((add-new reg q h).1) (get_or-append_last reg.markets _ _)

  is_given-condition : (q : NewMarket F) → is_complete q ≡ true → is_given q.condition_id ≡ true
  is_given-condition q h = ground arith

  fresh_condition :
      (reg : Registry F) (q : NewMarket F)
      → IsNew reg q
      → find_index (has_condition (text_of q.condition_id)) reg.markets ≡ none
  fresh_condition reg q h =
      find_index_weaker (is_known q.market_id (text_of q.condition_id))
        (has_condition (text_of q.condition_id)) reg.markets (λ a e. ground arith) h.1

  new_condition :
      (q : NewMarket F) (n : ℕ)
      → length (text_of q.condition_id) < condition_size
      → (new_entry q n).condition_id ≡ text_of q.condition_id
  unfolding new_entry
  new_condition q n h = take_all (condition_size - 1) (text_of q.condition_id) (omega arith)

  find_by_condition-new :
      (reg : Registry F) (q : NewMarket F)
      → IsNew reg q
      → length (text_of q.condition_id) < condition_size
      → find_by_condition (add reg q).0 q.condition_id ≡ some (length reg.markets)
  unfolding find_by_condition
  find_by_condition-new reg q h c =
      rw (is_given-condition q h.0, (add-new reg q h).1)
        (find_index-append (has_condition (text_of q.condition_id)) reg.markets _
          (fresh_condition reg q h)
          (rw (new_condition q (length reg.markets) c) (str_eq_refl (text_of q.condition_id))))

  -- A market that is added as new, under a condition id of at most 67 characters and with tokens of at
  -- most 71, is then found by its condition id, with the condition id, the tokens, the start, the end
  -- and the discovery time that were passed; its id is the one passed, or the new number of markets
  -- where that is 0, and it is discovered and not resolved.
  pub find_by_condition-add :
      (reg : Registry F) (q : NewMarket F)
      → IsNew reg q
      → length (text_of q.condition_id) < condition_size
      → length (text_of q.yes_token_id) < token_size
      → length (text_of q.no_token_id) < token_size
      → let n = length reg.markets in
        let m = market_at (add reg q).0 n in
        (find_by_condition (add reg q).0 q.condition_id ≡ some n)
        × (m.condition_id ≡ text_of q.condition_id)
        × (m.yes_token_id ≡ text_of q.yes_token_id)
        × (m.no_token_id ≡ text_of q.no_token_id)
        × (m.market_id ≡ (if q.market_id == 0 then n + 1 else q.market_id))
        × (m.start_time_ns ≡ q.start_time_ns)
        × (m.end_time_ns ≡ q.end_time_ns)
        × (m.discovered_time_ns ≡ q.now)
        × (m.resolved_winner ≡ negsuc 0)
        × (m.state ≡ MarketState.discovered)
  unfolding new_entry
  find_by_condition-add reg q h c y n =
      let e = new_entry-get reg q h in
      (
        find_by_condition-new reg q h c,
        ap MarketEntry.condition_id e ∙ new_condition q (length reg.markets) c,
        ap MarketEntry.yes_token_id e
            ∙ take_all (token_size - 1) (text_of q.yes_token_id) (omega arith),
        ap MarketEntry.no_token_id e
            ∙ take_all (token_size - 1) (text_of q.no_token_id) (omega arith),
        ap MarketEntry.market_id e,
        ap MarketEntry.start_time_ns e,
        ap MarketEntry.end_time_ns e,
        ap MarketEntry.discovered_time_ns e,
        ap MarketEntry.resolved_winner e,
        ap MarketEntry.state e,
      )
