-- ===== src/Arb/Search.antt =====
-- The binary search of pt_arb_calc, over any test: it ends, and at a size that passes while one more
-- does not.
use polymarket_trade_engine.Prelude.{
  ℕ, zero, suc, ◌+◌, ◌-◌, ◌*◌, ◌/◌, ◌≤◌, ◌<◌, ◌≡◌, refl, ◌⊎◌, inl, inr, true, false, Option, none,
  some, ltb, leb, if◌then◌else◌, arith, word, add64, leb→le, Bool-cases, Option-cases,
}
use mathlib.Core.Path.{subst}
use polymarket_trade_engine.Arb.{Best, search, search_fuel}

-- The widths that so many rounds can narrow.
reach : ℕ → ℕ
reach zero = 1
reach (suc n) = 2 * reach n

meets : (lo hi n : ℕ) → leb lo hi ≡ false → lo ≡ n + 1 → n ≤ hi → hi ≡ n
meets lo hi n e s h = ground arith

before : (mid : ℕ) → 0 < mid → (if ltb 1 mid then mid - 1 else 0) + 1 ≡ mid
before mid h = ground arith

left_width :
    (lo hi w : ℕ)
    → 0 < lo
    → lo ≤ hi
    → hi + 1 - lo < 2 * w
    → (let mid = lo + (hi - lo) / 2 in if ltb 1 mid then mid - 1 else 0) + 1 - lo < w
left_width lo hi w p l h = ground arith

right_width :
    (lo hi w : ℕ)
    → lo ≤ hi
    → hi < word - 1
    → hi + 1 - lo < 2 * w
    → hi + 1 - add64 (lo + (hi - lo) / 2) 1 < w
right_width lo hi w l b h = ground arith

module _ {R : Type 0} where
  abbrev pub size_of : Best R → ℕ
  size_of none = 0
  size_of (some (n, r)) = n

  -- What was found is what the test gave there.
  abbrev pub Holds : (ℕ → Option R) → Best R → Type 0
  Holds test none = Unit {0}
  Holds test (some (n, r)) = test n ≡ some r

  -- A size up to the largest one that passes the test (or 0), while one more fails it or is not asked for.
  pub record IsEdge (test : ℕ → Option R) (most : ℕ) (b : Best R) : Type 0 where
    pub passes : Holds test b
    pub bound : size_of b ≤ most
    pub edge : (size_of b ≡ most) ⊎ (test (size_of b + 1) ≡ none)

  -- The state of the loop.
  record IsSearch (test : ℕ → Option R) (most lo hi : ℕ) (b : Best R) : Type 0 where
    passes : Holds test b
    start : lo ≡ size_of b + 1
    room : size_of b ≤ hi
    bound : hi ≤ most
    edge : (hi ≡ most) ⊎ (test (hi + 1) ≡ none)

  search-stop :
      (test : ℕ → Option R) (fuel lo hi : ℕ) (b : Best R)
      → leb lo hi ≡ false
      → search test (suc fuel) lo hi b ≡ some b
  unfolding search
  search-stop test fuel lo hi b e = rw (search, e) refl

  search-left :
      (test : ℕ → Option R) (fuel lo hi : ℕ) (b : Best R)
      → leb lo hi ≡ true
      → let mid = lo + (hi - lo) / 2 in
        test mid ≡ none
        → search test (suc fuel) lo hi b ≡ search test fuel lo (if ltb 1 mid then mid - 1 else 0) b
  unfolding search
  search-left test fuel lo hi b e t = rw (search, e, t) refl

  search-right :
      (test : ℕ → Option R) (fuel lo hi : ℕ) (b : Best R) (r : R)
      → leb lo hi ≡ true
      → let mid = lo + (hi - lo) / 2 in
        test mid ≡ some r
        → search test (suc fuel) lo hi b ≡ search test fuel (add64 mid 1) hi (some (mid, r))
  unfolding search
  search-right test fuel lo hi b r e t = rw (search, e, t) refl

  finished :
      (test : ℕ → Option R) (fuel most lo hi : ℕ) (b : Best R)
      → leb lo hi ≡ false
      → IsSearch test most lo hi b
      → (b' : Best R) × (search test (suc fuel) lo hi b ≡ some b') × IsEdge test most b'
  finished test fuel most lo hi b e v = (
    b,
    search-stop test fuel lo hi b e,
    record {
      passes = v.passes;
      bound = omega (arith, v.room, v.bound);
      edge =
          subst (λ n. (n ≡ most) ⊎ (test (n + 1) ≡ none)) (meets lo hi (size_of b) e v.start v.room)
            v.edge;
    },
  )

  -- A size that fails closes the interval from above.
  below :
      (test : ℕ → Option R) (most lo hi mid : ℕ) (b : Best R)
      → lo ≤ mid
      → mid ≤ hi
      → test mid ≡ none
      → IsSearch test most lo hi b
      → IsSearch test most lo (if ltb 1 mid then mid - 1 else 0) b
  below test most lo hi mid b l h e v = record {
    passes = v.passes;
    start = v.start;
    room = ground (arith, v.start);
    bound = ground (arith, v.bound);
    edge = inr (rw (before mid (omega (arith, v.start))) e);
  }

  above :
      (test : ℕ → Option R) (most lo hi mid : ℕ) (b : Best R) (r : R)
      → mid ≤ hi
      → most < word - 1
      → test mid ≡ some r
      → IsSearch test most lo hi b
      → IsSearch test most (add64 mid 1) hi (some (mid, r))
  above test most lo hi mid b r h w e v = record {
    passes = e;
    start = omega (arith, v.bound);
    room = h;
    bound = v.bound;
    edge = v.edge;
  }

  search-IsEdge :
      (test : ℕ → Option R) (fuel most lo hi : ℕ) (b : Best R)
      → most < word - 1
      → hi + 1 - lo < reach fuel
      → IsSearch test most lo hi b
      → (b' : Best R) × (search test (suc fuel) lo hi b ≡ some b') × IsEdge test most b'
  unfolding reach
  search-IsEdge test zero most lo hi b w h v = finished test zero most lo hi b (ground arith) v
  search-IsEdge test (suc fuel) most lo hi b w h v =
      let mid = lo + (hi - lo) / 2 in
      elim (Bool-cases (leb lo hi)) [
        | inr e ↦ finished test (suc fuel) most lo hi b e v
        | inl e ↦
            let le = leb→le lo hi e in
            elim (Option-cases (test mid)) [
              | inl t ↦ rw (search-left test (suc fuel) lo hi b e t) (
                  search-IsEdge test fuel most lo _ b w
                    (left_width lo hi (reach fuel) (omega (arith, v.start)) le h)
                    (below test most lo hi mid b (omega arith) (omega arith) t v))
              | inr t ↦ rw (search-right test (suc fuel) lo hi b t.0 e t.1) (
                  search-IsEdge test fuel most _ hi _ w
                    (right_width lo hi (reach fuel) le (omega (arith, v.bound)) h)
                    (above test most lo hi mid b t.0 (omega arith) w t.1 v))
            ]
      ]

  -- Between 1 and a largest size below 2 ^ 64 - 1 the search ends within its fuel, whatever the test:
  -- at a size that passes (or at 0), while one more does not pass or is more than the largest size.
  pub search_lem :
      (test : ℕ → Option R) (most : ℕ)
      → most < word - 1
      → (b : Best R) × (search test search_fuel 1 most none ≡ some b) × IsEdge test most b
  unfolding reach
  search_lem test most w = search-IsEdge test 64 most 1 most none w (omega arith) (record {
    passes = tt;
    start = refl;
    room = omega arith;
    bound = omega arith;
    edge = inl refl;
  })
