-- ===== src/Lifecycle/First.antt =====
-- What changing the first record that meets a test does to the records: their number, a property that
-- all of them have, and how many are completed.
use polymarket_trade_engine.Prelude.{
  ℕ, suc, ◌+◌, ◌≡◌, refl, Bool, true, false, not, ◌&&◌, ◌||◌, Option, none, some, List, [], ◌∷◌,
  ◌++◌, if◌then◌else◌, ◌==◌, ℤ, eqb_ℤ, All, length, arith,
}
use polymarket_trade_engine.Lifecycle.{Opportunity, at_first}
use polymarket_trade_engine.Lifecycle.Complete.{has_record, open_signal_of, is_open_signal}

module _ {F : Type 0} where
  pub at_first-length :
      (test : Opportunity F → Bool) (f : Opportunity F → Opportunity F) (rs : List (Opportunity F))
      → length (at_first test f rs) ≡ length rs
  unfolding at_first
  at_first-length test f [] = refl
  at_first-length test f (r ∷ rs) = ground (arith, at_first-length test f rs)

  pub at_first-All :
      (P : Opportunity F → Type 0) (test : Opportunity F → Bool) (f : Opportunity F → Opportunity F)
      (rs : List (Opportunity F))
      → ((r : Opportunity F) → P r → P (f r))
      → All P rs
      → All P (at_first test f rs)
  unfolding at_first
  at_first-All P test f [] h q = tt
  at_first-All P test f (r ∷ rs) h q = by_test (test r) (at_first-All P test f rs h q.1)
    where
      by_test :
          (b : Bool)
          → All P (at_first test f rs)
          → All P (if b then f r ∷ rs else r ∷ at_first test f rs)
      by_test true rest = (h r q.0, q.1)
      by_test false rest = (q.0, rest)

  -- How many records are completed.
  unfoldable pub completed_in : List (Opportunity F) → ℕ
  completed_in [] = 0
  completed_in (r ∷ rs) = (if r.completed then 1 else 0) + completed_in rs

  pub at_first-completed_same :
      (test : Opportunity F → Bool) (f : Opportunity F → Opportunity F) (rs : List (Opportunity F))
      → ((r : Opportunity F) → (f r).completed ≡ r.completed)
      → completed_in (at_first test f rs) ≡ completed_in rs
  unfolding at_first completed_in
  at_first-completed_same test f [] h = refl
  at_first-completed_same test f (r ∷ rs) h =
      ground (arith, h r, at_first-completed_same test f rs h)

  pub at_first-completes :
      (test : Opportunity F → Bool) (f : Opportunity F → Opportunity F) (rs : List (Opportunity F))
      → ((r : Opportunity F) → (f r).completed ≡ true)
      → ((r : Opportunity F) → test r ≡ true → r.completed ≡ false)
      → has_record test rs ≡ true
      → completed_in (at_first test f rs) ≡ suc (completed_in rs)
  unfolding at_first completed_in has_record
  at_first-completes test f [] h h' q = absurd (ground arith)
  at_first-completes test f (r ∷ rs) h h' q =
      by_test (test r) refl (λ p. at_first-completes test f rs h h' p)
    where
      by_test :
          (b : Bool)
          → test r ≡ b
          → (has_record test rs ≡ true → completed_in (at_first test f rs) ≡ suc (completed_in rs))
          → completed_in (if b then f r ∷ rs else r ∷ at_first test f rs)
            ≡ suc (completed_in (r ∷ rs))
      by_test true e rest = ground (arith, h r, h' r e)
      by_test false e rest = ground (arith, rest (ground (arith, q)))

  pub completed_in-append :
      (rs : List (Opportunity F)) (r : Opportunity F)
      → completed_in (rs ++ r ∷ []) ≡ completed_in rs + (if r.completed then 1 else 0)
  unfolding completed_in
  completed_in-append [] r = ground arith
  completed_in-append (x ∷ rs) r = ground (arith, completed_in-append rs r)

  -- Some open record is of this market and strategy.
  unfoldable pub has_open : ℕ → ℤ → List (Opportunity F) → Bool
  has_open market_id strategy [] = false
  has_open market_id strategy (r ∷ rs) =
      (r.market_id == market_id && eqb_ℤ r.strategy strategy) && not r.completed
      || has_open market_id strategy rs

  abbrev pub IsNamed : ℕ → ℤ → List (Opportunity F) → Option ℕ → Type 0
  IsNamed market_id strategy rs none = has_open market_id strategy rs ≡ false
  IsNamed market_id strategy rs (some s) =
      (has_open market_id strategy rs ≡ true) × (has_record (is_open_signal s) rs ≡ true)

  pub open_signal_of-IsNamed :
      (market_id : ℕ) (strategy : ℤ) (rs : List (Opportunity F))
      → IsNamed market_id strategy rs (open_signal_of market_id strategy rs)
  unfolding open_signal_of has_open has_record
  open_signal_of-IsNamed market_id strategy [] = refl
  open_signal_of-IsNamed market_id strategy (r ∷ rs) =
      by_head ((r.market_id == market_id && eqb_ℤ r.strategy strategy) && not r.completed) refl
        (open_signal_of market_id strategy rs) (open_signal_of-IsNamed market_id strategy rs)
    where
      by_head :
          (b : Bool)
          → ((r.market_id == market_id && eqb_ℤ r.strategy strategy) && not r.completed) ≡ b
          → (s : Option ℕ) → IsNamed market_id strategy rs s
          → IsNamed market_id strategy (r ∷ rs) (if b then some r.signal_id else s)
      by_head true e s q = (ground arith, ground arith)
      by_head false e none q = ground arith
      by_head false e (some s) q = (ground (arith, q.0), ground (arith, q.1))
