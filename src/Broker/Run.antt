-- ===== src/Broker/Run.antt =====
-- The broker under any sequence of calls: its simulator runs on its own, and the portfolio is the one
-- that is told of exactly the simulator's fills.
use mathlib.Core.Option
use polymarket_trade_engine.Prelude.{
  ℕ, ◌≡◌, refl, ap, ap₂, sym, ◌∙◌, Option, none, some, List, [], ◌∷◌, ◌++◌,
}
use polymarket_trade_engine.Double.{Double}
use polymarket_trade_engine.SimQueue.{SimQueue, Fill}
use polymarket_trade_engine.SimQueue.Trade.{on_trade}
use polymarket_trade_engine.SimQueue.Tick.{tick}
use polymarket_trade_engine.SimQueue.Pool.{IsCall, run-init-IsPool}
use polymarket_trade_engine.SimQueue.Pool
use polymarket_trade_engine.Portfolio.{Portfolio}
use polymarket_trade_engine.Portfolio.Run.{IsPortfolio, run-init-IsPortfolio}
use polymarket_trade_engine.Portfolio.Run
use polymarket_trade_engine.Broker.{
  Broker, Callback, key_of, submit_ex, cancel, set_fill_callback, book_fills, broker_on_trade,
  broker_on_level_change, broker_tick,
}

-- A call of the broker: one that the simulator has too (a submission is pt_broker_submit_ex), with the
-- callback of a tick, or a new default callback.
pub data Call : Type 0 where
  simulates : Pool.Call → Option Callback → Call
  sets : Option Callback → Call

abbrev pub sim_calls : List Call → List Pool.Call
sim_calls [] = []
sim_calls (Call.simulates c cb ∷ cs) = c ∷ sim_calls cs
sim_calls (Call.sets cb ∷ cs) = sim_calls cs

module _ {F : Type 0} ⦃d : Double F⦄ where
  pub step : Broker F → Call → Broker F
  step b (Call.simulates (Pool.Call.submits m y side type price size book strategy signal now) cb) =
      (submit_ex b m y side type price size book strategy signal now).0
  step b (Call.simulates (Pool.Call.cancels oid now) cb) = (cancel b oid now).1
  step b (Call.simulates (Pool.Call.trades m y price size side now) cb) =
      (broker_on_trade b m y price size side now).0
  step b (Call.simulates (Pool.Call.changes m y side price old_size new_size now) cb) =
      broker_on_level_change b m y side price old_size new_size now
  step b (Call.simulates (Pool.Call.ticks m yes_book no_book now) cb) =
      (broker_tick b m yes_book no_book now cb).0
  step b (Call.sets cb) = set_fill_callback b cb

  pub run : Broker F → List Call → Broker F
  run b [] = b
  run b (c ∷ cs) = run (step b c) cs

  -- The portfolio's calls for the fills of one market.
  abbrev fill_calls : ℕ → List (Fill F) → List Run.Call
  fill_calls market_id [] = []
  fill_calls market_id (f ∷ fs) =
      Run.Call.fills (key_of market_id f) f.order.side f.qty f.price ∷ fill_calls market_id fs

  -- The fills that a call gives in the simulator alone.
  fills_of : SimQueue F → Pool.Call → List Run.Call
  fills_of sq (Pool.Call.trades m y price size side now) =
      fill_calls m (on_trade sq m y price size side now).1
  fills_of sq (Pool.Call.ticks m yes_book no_book now) =
      fill_calls m (tick sq m yes_book no_book now).1
  fills_of sq (Pool.Call.submits m y side type price size book strategy signal now) = []
  fills_of sq (Pool.Call.cancels oid now) = []
  fills_of sq (Pool.Call.changes m y side price old_size new_size now) = []

  pub all_fills : SimQueue F → List Pool.Call → List Run.Call
  all_fills sq [] = []
  all_fills sq (c ∷ cs) = fills_of sq c ++ all_fills (Pool.step sq c) cs

  run_append :
      (p : Portfolio F) (xs ys : List Run.Call) → Run.run p (xs ++ ys) ≡ Run.run (Run.run p xs) ys
  unfolding Run.run
  run_append p [] ys = refl
  run_append p (x ∷ xs) ys = run_append (Run.step p x) xs ys

  book_fills-run :
      (market_id : ℕ) (fs : List (Fill F)) (p : Portfolio F)
      → book_fills market_id fs p ≡ Run.run p (fill_calls market_id fs)
  unfolding book_fills Run.run Run.step
  book_fills-run market_id [] p = refl
  book_fills-run market_id (f ∷ fs) p = book_fills-run market_id fs _

  map_same :
      (f g : Portfolio F → Portfolio F) (o : Option (Portfolio F))
      → ((p : Portfolio F) → f p ≡ g p)
      → Option.map f o ≡ Option.map g o
  map_same f g none h = refl
  map_same f g (some p) h = ap some (h p)

  map_twice :
      (f g : Portfolio F → Portfolio F) (o : Option (Portfolio F))
      → Option.map g (Option.map f o) ≡ Option.map (λ (p : Portfolio F). g (f p)) o
  map_twice f g none = refl
  map_twice f g (some p) = refl

  unchanged : (o : Option (Portfolio F)) → o ≡ Option.map (λ (p : Portfolio F). Run.run p []) o
  unfolding Run.run
  unchanged none = refl
  unchanged (some p) = refl

  -- What one call does, by the two components.
  Follows : Broker F → SimQueue F → List Run.Call → Broker F → Type 0
  Follows b sq fills b' =
      (b'.sim_queue ≡ sq)
      × (b'.portfolio ≡ Option.map (λ (p : Portfolio F). Run.run p fills) b.portfolio)

  step-Follows :
      (b : Broker F) (c : Pool.Call) (cb : Option Callback)
      → Follows b (Pool.step b.sim_queue c) (fills_of b.sim_queue c) (step b (Call.simulates c cb))
  unfolding Follows step fills_of Pool.step submit_ex cancel broker_on_trade broker_on_level_change
      broker_tick
  step-Follows b (Pool.Call.submits m y side type price size book strategy signal now) cb =
      (refl, unchanged b.portfolio)
  step-Follows b (Pool.Call.cancels oid now) cb = (refl, unchanged b.portfolio)
  step-Follows b (Pool.Call.changes m y side price old_size new_size now) cb =
      (refl, unchanged b.portfolio)
  step-Follows b (Pool.Call.trades m y price size side now) cb =
      (refl, map_same _ _ b.portfolio (book_fills-run m _))
  step-Follows b (Pool.Call.ticks m yes_book no_book now) cb =
      (refl, map_same _ _ b.portfolio (book_fills-run m _))

  -- Under any sequence of calls the broker's simulator is the one that gets the same calls alone, and
  -- its portfolio, if it has one, the one that gets exactly the simulator's fills, each once, in order,
  -- for its market, side, price and size.
  pub run_lem :
      (b : Broker F) (cs : List Call)
      → ((run b cs).sim_queue ≡ Pool.run b.sim_queue (sim_calls cs))
        × ((run b cs).portfolio
            ≡ Option.map
                (λ (p : Portfolio F). Run.run p (all_fills b.sim_queue (sim_calls cs)))
                b.portfolio)
  unfolding run all_fills Pool.run step set_fill_callback Follows
  run_lem b [] = (refl, unchanged b.portfolio)
  run_lem b (Call.sets cb ∷ cs) = run_lem (set_fill_callback b cb) cs
  run_lem b (Call.simulates c cb ∷ cs) =
      let b' = step b (Call.simulates c cb) in
      let s = step-Follows b c cb in
      let rest = run_lem b' cs in
      let sims = sim_calls cs in
      let after = λ (q : SimQueue F) (p : Portfolio F). Run.run p (all_fills q sims) in
      let now = fills_of b.sim_queue c in
      let later = all_fills (Pool.step b.sim_queue c) sims in
      (
        rest.0 ∙ ap (λ (q : SimQueue F). Pool.run q sims) s.0,
        rest.1
            ∙ ap₂ (λ (q : SimQueue F) (o : Option (Portfolio F)). Option.map (after q) o) s.0 s.1
            ∙ map_twice (λ p. Run.run p now) (λ p. Run.run p later) b.portfolio
            ∙ map_same _ _ b.portfolio (λ p. sym (run_append p now later)),
      )
