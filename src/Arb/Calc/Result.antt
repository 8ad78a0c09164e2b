-- ===== src/Arb/Calc/Result.antt =====
-- What pt_arb_calc returns: always something, and an opportunity only where both books give its size at
-- the least edge.
use polymarket_trade_engine.Prelude.{
  ℕ, ◌+◌, ◌-◌, ◌≤◌, ◌<◌, ◌≡◌, refl, ◌⊎◌, inl, inr, true, false, none, some, ltb, ◌==◌, arith, word,
  Bool-cases, Option-cases,
}
use polymarket_trade_engine.Double.{Double}
use polymarket_trade_engine.Types.{ask}
use polymarket_trade_engine.Book.{Book, Level, best_ask}
use polymarket_trade_engine.Book.Fill.{walk_filled, total}
use polymarket_trade_engine.Arb.{Config, Opportunity, Net, Best, net_at, probe, edge_of_sum}
use polymarket_trade_engine.Arb.Calc.{
  Outcome, zero_opportunity, opportunity_of, report, calc_on, calc,
}
use polymarket_trade_engine.Arb.Search.{IsEdge, search_lem}

module _ {F : Type 0} ⦃d : Double F⦄ where
  -- The edge and the prices of an opportunity are those at its size, which both ask sides hold, which is
  -- no less than the least liquidity and no more than asked for, and which is as large as the test lets it.
  pub record IsExecutable (yes_book no_book : Book) (cfg : Config F) (max_want : ℕ)
      (o : Opportunity F) : Type 0 where
    pub positive : 0 < o.max_executable_size
    pub wanted : o.max_executable_size ≤ max_want
    pub liquid : cfg.min_liquidity ≤ o.max_executable_size
    pub depth_yes : o.max_executable_size ≤ total yes_book.asks
    pub depth_no : o.max_executable_size ≤ total no_book.asks
    pub priced :
        net_at (some yes_book) (some no_book) cfg o.max_executable_size
        ≡ some
            (record { net_edge = o.net_edge; avg_yes = o.avg_yes_scaled; avg_no = o.avg_no_scaled })
    pub edge : d.le cfg.min_edge_pct o.net_edge ≡ true
    pub largest :
        (o.max_executable_size ≡ max_want)
        ⊎ (probe yes_book no_book cfg (o.max_executable_size + 1) ≡ none)

  abbrev pub IsReported : Book → Book → Config F → ℕ → Outcome × Opportunity F → Type 0
  IsReported yes_book no_book cfg max_want (Outcome.found, o) =
      (o.has_opportunity ≡ true) × IsExecutable yes_book no_book cfg max_want o
  IsReported yes_book no_book cfg max_want (Outcome.nothing, o) = o.has_opportunity ≡ false
  IsReported yes_book no_book cfg max_want (Outcome.invalid, o) =
      (o.has_opportunity ≡ false) × (max_want ≡ 0)

  net_at-depth :
      (yes_book no_book : Book) (cfg : Config F) (size : ℕ) (n : Net F)
      → size < word
      → net_at (some yes_book) (some no_book) cfg size ≡ some n
      → (0 < size) × (size ≤ total yes_book.asks) × (size ≤ total no_book.asks)
  unfolding net_at
  net_at-depth yes_book no_book cfg size n w h =
      let y = (walk_filled yes_book ask size w).0 in
      let m = (walk_filled no_book ask size w).0 in (ground arith, ground arith, ground arith)

  probe-net_at :
      (yes_book no_book : Book) (cfg : Config F) (size : ℕ) (n : Net F)
      → probe yes_book no_book cfg size ≡ some n
      → (net_at (some yes_book) (some no_book) cfg size ≡ some n)
        × (d.le cfg.min_edge_pct n.net_edge ≡ true)
  unfolding probe
  probe-net_at yes_book no_book cfg size n h =
      elim (Option-cases (net_at (some yes_book) (some no_book) cfg size)) [
        | inl e ↦ ground arith
        | inr e ↦ ground arith
      ]

  report-IsReported :
      (yes_book no_book : Book) (cfg : Config F) (raw : F) (y_size n_size max_want : ℕ)
      (b : Best (Net F))
      → max_want < word - 1
      → IsEdge (probe yes_book no_book cfg) max_want b
      → IsReported yes_book no_book cfg max_want (report yes_book cfg raw y_size n_size b)
  unfolding report opportunity_of
  report-IsReported yes_book no_book cfg raw y_size n_size max_want none w e = refl
  report-IsReported yes_book no_book cfg raw y_size n_size max_want (some (best, n)) w e =
      elim (Bool-cases (ltb best cfg.min_liquidity)) [
        | inl l ↦ rw (report, l) refl
        | inr l ↦
            let p = probe-net_at yes_book no_book cfg best n e.passes in
            let depth = net_at-depth yes_book no_book cfg best n (omega (arith, e.bound)) p.0 in
            rw (report, l)
              (
                refl,
                record {
                  positive = depth.0;
                  wanted = e.bound;
                  liquid = ground arith;
                  depth_yes = depth.1;
                  depth_no = depth.2;
                  priced = p.0;
                  edge = p.1;
                  largest = e.edge;
                },
              )
      ]

  calc_on-IsReported :
      (yes_book no_book : Book) (cfg : Config F) (max_want : ℕ) (y n : Level)
      → max_want < word - 1
      → (r : Outcome × Opportunity F) × (calc_on yes_book no_book cfg max_want y n ≡ some r)
        × IsReported yes_book no_book cfg max_want r
  unfolding calc_on
  calc_on-IsReported yes_book no_book cfg max_want y n w =
      let raw = edge_of_sum y.price n.price in
      let (b, ends, e) = search_lem (probe yes_book no_book cfg) max_want w in
      elim (Bool-cases (d.le raw cfg.min_edge_pct)) [
        | inl l ↦ (
          (Outcome.nothing, record zero_opportunity { raw_edge = raw }),
          rw (calc_on, l) refl,
          refl,
        )
        | inr l ↦ (
          report yes_book cfg raw y.size n.size b,
          rw (calc_on, l, ends) refl,
          report-IsReported yes_book no_book cfg raw y.size n.size max_want b w e,
        )
      ]

  -- For every pair of books and every size wanted below 2 ^ 64 - 1 the parity check returns, whatever
  -- the arithmetic: an opportunity only of a size that both ask sides hold, at the net edge and the
  -- average prices that the walk gives there, not under the least edge or the least liquidity, and such
  -- that one share more would not do or is not wanted; -1 only if no size is wanted.
  pub calc_lem :
      (yes_book no_book : Book) (cfg : Config F) (max_want : ℕ)
      → max_want < word - 1
      → (r : Outcome × Opportunity F) × (calc (some yes_book) (some no_book) cfg max_want ≡ some r)
        × IsReported yes_book no_book cfg max_want r
  unfolding calc
  calc_lem yes_book no_book cfg max_want w = elim (Bool-cases (max_want == 0)) [
    | inl e ↦ ((Outcome.invalid, zero_opportunity), rw (calc, e) refl, (refl, ground arith))
    | inr e ↦ elim (Option-cases (best_ask yes_book)) [
      | inl y ↦ ((Outcome.nothing, zero_opportunity), rw (calc, e, y) refl, refl)
      | inr y ↦ elim (Option-cases (best_ask no_book)) [
        | inl n ↦ ((Outcome.nothing, zero_opportunity), rw (calc, e, y.1, n) refl, refl)
        | inr n ↦
            let r = calc_on-IsReported yes_book no_book cfg max_want y.0 n.0 w in
            (r.0, rw (calc, e, y.1, n.1) r.1, r.2)
      ]
    ]
  ]
