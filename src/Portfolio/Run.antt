-- ===== src/Portfolio/Run.antt =====
-- The portfolio under any sequence of calls.
use polymarket_trade_engine.Prelude.{
  All-set, ℕ, suc, ◌≤◌, ◌≡◌, refl, ap, ◌==◌, Bool, true, false, Option, none, some, List, [], ◌∷◌,
  ◌++◌, if◌then◌else◌, ltb, ℤ, pos, get_or, set, length, All, All-append, length-append, length-set,
  arith, Bool-cases, inl, inr,
}
use polymarket_trade_engine.Types.{Side, is_bid}
use polymarket_trade_engine.Double.{Double}
use polymarket_trade_engine.Portfolio.{
  Portfolio, Position, Key, init, on_fill_ex, fill_position, position_for, find_match, is_match,
  claim, new_position, max_positions, bought, sold,
}
use polymarket_trade_engine.Portfolio.Mark.{mark, mark_all}
use polymarket_trade_engine.Portfolio.Settlement.{settle_market, settle_all}
use polymarket_trade_engine.Portfolio.Settle.{IsSettledEmpty, settle_market_lem}
use polymarket_trade_engine.Portfolio.Holding.{IsFound, find_match-IsFound, get_or-last}

-- A call of the portfolio's interface that changes it.
pub data Call : Type 0 where
  fills : Key → Side → ℕ → ℤ → Call
  marks : ℕ → ℤ → ℤ → Call
  settles : ℕ → ℤ → Call

module _ {F : Type 0} where
  -- Settled positions hold nothing, and the array is long enough.
  abbrev pub IsPortfolio : List (Position F) → Type 0
  IsPortfolio os = All IsSettledEmpty os × (length os ≤ max_positions)

  is_match-open : (k : Key) (o : Position F) → is_match k o ≡ true → o.is_settled ≡ false
  unfolding is_match
  is_match-open k o h = ground arith

  claim-open : (k : Key) (o : Position F) → o.is_settled ≡ false → (claim k o).is_settled ≡ false
  unfolding claim
  claim-open k o h = ground arith

module _ {F : Type 0} ⦃d : Double F⦄ where
  unfoldable pub step : Portfolio F → Call → Portfolio F
  step p (fills k side shares price) = on_fill_ex p k side shares price
  step p (marks market_id is_yes bid) = mark p market_id is_yes bid
  step p (settles market_id winner) = (settle_market p market_id winner).0

  unfoldable pub run : Portfolio F → List Call → Portfolio F
  run p [] = p
  run p (c ∷ cs) = run (step p c) cs

  abbrev IsReady : Position F → Option (ℕ × List (Position F)) → Type 0
  IsReady e none = Unit
  IsReady e (some r) = IsPortfolio r.1 × ((get_or r.1 r.0 e).is_settled ≡ false)

  position_for-IsReady :
      (k : Key) (os : List (Position F)) (e : Position F)
      → IsPortfolio os
      → IsReady e (position_for k os)
  unfolding position_for new_position
  position_for-IsReady k os e h = by_match (find_match k os) (find_match-IsFound k os e)
    where
      fresh : Position F
      fresh = new_position k

      by_room :
          (b : Bool)
          → ltb (length os) max_positions ≡ b
          → IsReady e (if b then some (length os, os ++ fresh ∷ []) else none)
      by_room true g = (
        (
          All-append IsSettledEmpty os (fresh ∷ []) h.0 (refl, tt),
          ground (arith, length-append os (fresh ∷ []), g),
        ),
        ap (λ o. o.is_settled) (get_or-last os fresh e),
      )
      by_room false g = tt

      by_match :
          (r : Option ℕ)
          → IsFound k os e r
          → IsReady e (elim r as (λ x. Option (ℕ × List (Position F))) [
            | some i ↦ some (i, os)
            | none ↦
                if ltb (length os) max_positions
                then some (length os, os ++ new_position k ∷ [])
                else none
          ])
      by_match none f = by_room (ltb (length os) max_positions) refl
      by_match (some i) f = (h, is_match-open k (get_or os i e) f.2)

  open-sold :
      (n : ℕ) (price : ℤ) (o : Position F)
      → o.is_settled ≡ false
      → (sold n price o).is_settled ≡ false
  open-sold n price o h = ground arith

  fill-IsPortfolio :
      (p : Portfolio F) (k : Key) (side : Side) (n : ℕ) (price : ℤ) (r : ℕ × List (Position F))
      → IsReady (new_position k) (some r)
      → IsPortfolio (fill_position p k side n price r).positions
  unfolding fill_position
  fill-IsPortfolio p k side n price r h = elim (Bool-cases (is_bid side)) [
    | inl b ↦ rw b (keeps (bought n price k.strategy o) claimed)
    | inr b ↦ rw b (keeps (sold n price o) (open-sold n price o claimed))
  ]
    where
      o : Position F
      o = claim k (get_or r.1 r.0 (new_position k))

      claimed : o.is_settled ≡ false
      claimed = claim-open k (get_or r.1 r.0 (new_position k)) h.1

      keeps : (o' : Position F) → o'.is_settled ≡ false → IsPortfolio (set r.1 r.0 o')
      keeps o' e = (
        All-set IsSettledEmpty r.1 r.0 o' (ground arith) h.0.0,
        omega (arith, length-set r.1 r.0 o', h.0.1),
      )

  mark_all-IsPortfolio :
      (m : ℕ) (y bid : ℤ) (os : List (Position F))
      → All IsSettledEmpty os
      → All IsSettledEmpty (mark_all m y bid os) × (length (mark_all m y bid os) ≡ length os)
  unfolding mark_all
  mark_all-IsPortfolio m y bid [] h = (tt, refl)
  mark_all-IsPortfolio m y bid (o ∷ os) h =
      let rest = mark_all-IsPortfolio m y bid os h.1 in
      ((ground (arith, h.0), rest.0), ap suc rest.1)

  settle_all-length :
      (m : ℕ) (winner : ℤ) (os : List (Position F)) (p : Portfolio F)
      → length (settle_all m winner os p).1 ≡ length os
  unfolding settle_all
  settle_all-length m winner [] p = refl
  settle_all-length m winner (o ∷ os) p = ap suc (settle_all-length m winner os _)

  step-IsPortfolio :
      (p : Portfolio F) (c : Call) → IsPortfolio p.positions → IsPortfolio (step p c).positions
  unfolding step on_fill_ex mark settle_market
  step-IsPortfolio p (fills k side n price) h = elim (Bool-cases (n == 0)) [
    | inl z ↦ rw z h
    | inr z ↦ rw z (
        by_place (position_for k p.positions)
          (position_for-IsReady k p.positions (new_position k) h))
  ]
    where
      by_place :
          (r : Option (ℕ × List (Position F)))
          → IsReady (new_position k) r
          → IsPortfolio
              (elim r as (λ x. Portfolio F) [
                | none ↦ p
                | some i ↦ fill_position p k side n price i
              ]).positions
      by_place none q = h
      by_place (some r) q = fill-IsPortfolio p k side n price r q
  step-IsPortfolio p (marks m y bid) h =
      let q = mark_all-IsPortfolio m y bid p.positions h.0 in (q.0, omega (arith, q.1, h.1))
  step-IsPortfolio p (settles m winner) h = (
    (settle_market_lem p m winner 0 (pos 0) h.0).1,
    omega (arith, settle_all-length m winner p.positions p, h.1),
  )

  run-IsPortfolio :
      (p : Portfolio F) (cs : List Call)
      → IsPortfolio p.positions
      → IsPortfolio (run p cs).positions
  unfolding run
  run-IsPortfolio p [] h = h
  run-IsPortfolio p (c ∷ cs) h = run-IsPortfolio (step p c) cs (step-IsPortfolio p c h)

  -- After any sequence of fills, marks and settlements, at most 128 positions are in use, and no settled
  -- one holds shares: a fill never reopens it.
  pub run-init-IsPortfolio :
      (cash : F) (cs : List Call) → IsPortfolio (run (init cash) cs).positions
  unfolding init
  run-init-IsPortfolio cash cs = run-IsPortfolio (init cash) cs (tt, omega arith)
