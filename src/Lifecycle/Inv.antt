-- ===== src/Lifecycle/Inv.antt =====
-- The invariant of the tracker, and that each call keeps it.
use polymarket_trade_engine.Prelude.{
  ℕ, suc, ◌≤◌, ◌≡◌, refl, ap, sym, ◌∙◌, Bool, true, false, Option, none, some, List, [], ◌∷◌, ◌++◌,
  if◌then◌else◌, leb, ◌==◌, ℤ, All, All-append, length, length-append, Bool-cases, inl, inr, arith,
  add64,
}
use polymarket_trade_engine.Double.{Double}
use polymarket_trade_engine.Lifecycle.{
  Opportunity, Tracker, NewSignal, on_signal, new_opportunity, at_first, max_records,
}
use polymarket_trade_engine.Lifecycle.Fill.{FillEvent, on_fill_ex, fill_record, is_match}
use polymarket_trade_engine.Lifecycle.Complete.{
  on_complete, on_complete_by_market, complete_record, has_record, is_open_signal, open_signal_of,
}
use polymarket_trade_engine.Lifecycle.Stats.{
  compute_stats, sum_records, no_sums, Sums, add_record, with_adverse,
}
use polymarket_trade_engine.Lifecycle.First.{
  completed_in, at_first-All, at_first-length, at_first-completed_same, at_first-completes,
  completed_in-append,
}

module _ {F : Type 0} where
  -- The fields that repeat what the legs hold.
  pub record IsRecord (r : Opportunity F) : Type 0 where
    pub filled_eq : r.filled_size ≡ r.leg_a.filled_size
    pub leg_b_filled_eq : r.leg_b_filled_size ≡ r.leg_b.filled_size

  -- The table is long enough, and the count of completed records is right.
  pub record IsTracker (t : Tracker F) : Type 0 where
    pub length-le : length t.records ≤ max_records
    pub completed_eq : t.completed_count ≡ completed_in t.records
    pub records-all : All IsRecord t.records

  completed_in-le : (rs : List (Opportunity F)) → completed_in rs ≤ length rs
  unfolding completed_in
  completed_in-le [] = omega arith
  completed_in-le (r ∷ rs) = ground (arith, completed_in-le rs)

  -- A call that changes one record, and does not complete it, keeps the tracker right.
  pub at_first-IsTracker :
      (t : Tracker F) (test : Opportunity F → Bool) (f : Opportunity F → Opportunity F)
      → ((r : Opportunity F) → IsRecord r → IsRecord (f r))
      → ((r : Opportunity F) → (f r).completed ≡ r.completed)
      → IsTracker t
      → IsTracker (record t { records = at_first test f t.records })
  at_first-IsTracker t test f h h' i = record {
    length-le = omega (arith, at_first-length test f t.records, i.length-le);
    completed_eq = i.completed_eq ∙ sym (at_first-completed_same test f t.records h');
    records-all = at_first-All IsRecord test f t.records h i.records-all;
  }

module _ {F : Type 0} ⦃d : Double F⦄ where
  pub signal-IsTracker :
      (t : Tracker F) (signal_id : ℕ) (s : NewSignal F)
      → IsTracker t
      → IsTracker (on_signal t signal_id s).0
  unfolding on_signal new_opportunity
  signal-IsTracker t signal_id s i = by_room (leb max_records (length t.records)) refl
    where
      r : Opportunity F
      r = new_opportunity signal_id s

      by_room :
          (b : Bool)
          → leb max_records (length t.records) ≡ b
          → IsTracker
              (if◌then◌else◌ {A = Tracker F × ℕ} b
                (t, 0)
                (record t { records = t.records ++ r ∷ [] }, signal_id)).0
      by_room true e = i
      by_room false e = record {
        length-le = ground (arith, length-append t.records (r ∷ []));
        completed_eq = omega (arith, i.completed_eq, completed_in-append t.records r);
        records-all =
            All-append IsRecord t.records (r ∷ []) i.records-all
              (record { filled_eq = refl; leg_b_filled_eq = ground arith }, tt);
      }

  pub fill-IsTracker : (t : Tracker F) (e : FillEvent F) → IsTracker t → IsTracker (on_fill_ex t e)
  unfolding on_fill_ex fill_record
  fill-IsTracker t e i = elim (Bool-cases (e.fill_qty == 0)) [
    | inl z ↦ rw z i
    | inr z ↦ rw z (
        at_first-IsTracker t (is_match e) (fill_record e)
          (λ r q. record { filled_eq = refl; leg_b_filled_eq = refl }) (λ r. ground arith) i)
  ]

  -- A call that completes the first record that meets a test.
  completing-IsTracker :
      (t : Tracker F) (test : Opportunity F → Bool) (pnl cost edge : F)
      → ((r : Opportunity F) → test r ≡ true → r.completed ≡ false)
      → has_record test t.records ≡ true
      → IsTracker t
      → IsTracker (record t {
        records = at_first test (complete_record pnl cost edge) t.records;
        completed_count = add64 t.completed_count 1;
      })
  unfolding complete_record
  completing-IsTracker t test pnl cost edge h z i =
      let f = complete_record pnl cost edge in
      record {
        length-le = omega (arith, at_first-length test f t.records, i.length-le);
        completed_eq = omega (
          arith,
          i.completed_eq,
          i.length-le,
          completed_in-le t.records,
          at_first-completes test f t.records (λ r. refl) h z,
        );
        records-all =
            at_first-All IsRecord test f t.records
              (λ r q. record { filled_eq = q.filled_eq; leg_b_filled_eq = q.leg_b_filled_eq })
              i.records-all;
      }

  pub complete-IsTracker :
      (t : Tracker F) (signal_id : ℕ) (pnl cost edge : F)
      → IsTracker t
      → IsTracker (on_complete t signal_id pnl cost edge)
  unfolding on_complete
  complete-IsTracker t signal_id pnl cost edge i =
      elim (Bool-cases (has_record (is_open_signal signal_id) t.records)) [
        | inl z ↦ rw z (
            completing-IsTracker t (is_open_signal signal_id) pnl cost edge
              (λ r q. ground (arith, q)) z i)
        | inr z ↦ rw z i
      ]

  pub complete_by_market-IsTracker :
      (t : Tracker F) (market_id : ℕ) (strategy : ℤ) (pnl cost edge : F)
      → IsTracker t
      → IsTracker (on_complete_by_market t market_id strategy pnl cost edge)
  unfolding on_complete_by_market
  complete_by_market-IsTracker t market_id strategy pnl cost edge i =
      by_name (open_signal_of market_id strategy t.records)
    where
      by_name :
          (s : Option ℕ)
          → IsTracker (elim s as (λ x. Tracker F) [
            | none ↦ t
            | some signal_id ↦ on_complete t signal_id pnl cost edge
          ])
      by_name none = i
      by_name (some signal_id) = complete-IsTracker t signal_id pnl cost edge i

  pub one_completed :
      (t : Tracker F) (signal_id : ℕ) (pnl cost edge : F)
      → has_record (is_open_signal signal_id) t.records ≡ true
      → completed_in (on_complete t signal_id pnl cost edge).records ≡ suc (completed_in t.records)
  unfolding on_complete complete_record
  one_completed t signal_id pnl cost edge z = rw z (
      at_first-completes (is_open_signal signal_id) (complete_record pnl cost edge) t.records
        (λ r. refl) (λ r q. ground (arith, q)) z)

  adverse-keeps :
      (adv : Option (ℕ → F)) (r : Opportunity F)
      → IsRecord r
      → ((if r.completed then with_adverse adv r else r).completed ≡ r.completed)
        × IsRecord (if r.completed then with_adverse adv r else r)
  adverse-keeps none r i = (
    ground arith,
    record {
      filled_eq = ground (arith, i.filled_eq);
      leg_b_filled_eq = ground (arith, i.leg_b_filled_eq);
    },
  )
  adverse-keeps (some fill_bps) r i = (
    ground arith,
    record {
      filled_eq = ground (arith, i.filled_eq);
      leg_b_filled_eq = ground (arith, i.leg_b_filled_eq);
    },
  )

  sum_records-keeps :
      (adv : Option (ℕ → F)) (rs : List (Opportunity F)) (s : Sums F)
      → All IsRecord rs
      → (length (sum_records adv rs s).0 ≡ length rs)
        × (completed_in (sum_records adv rs s).0 ≡ completed_in rs)
        × All IsRecord (sum_records adv rs s).0
  unfolding sum_records completed_in
  sum_records-keeps adv [] s h = (refl, refl, tt)
  sum_records-keeps adv (r ∷ rs) s h =
      let r' = if r.completed then with_adverse adv r else r in
      let rest = sum_records-keeps adv rs (if r.completed then add_record r' s else s) h.1 in
      let q = adverse-keeps adv r h.0 in (ap suc rest.0, ground (arith, q.0, rest.1), (q.1, rest.2))

  pub stats-IsTracker :
      (t : Tracker F) (adv : Option (ℕ → F)) → IsTracker t → IsTracker (compute_stats t adv)
  unfolding compute_stats
  stats-IsTracker t adv i =
      let q = sum_records-keeps adv t.records no_sums i.records-all in
      elim (Bool-cases (t.completed_count == 0)) [
        | inl z ↦ rw z i
        | inr z ↦ rw z (record {
          length-le = omega (arith, q.0, i.length-le);
          completed_eq = i.completed_eq ∙ sym q.1;
          records-all = q.2;
        })
      ]
