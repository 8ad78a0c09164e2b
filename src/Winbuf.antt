-- ===== src/Winbuf.antt =====
-- src/util/pt_winbuf.c and include/util/pt_winbuf.h: the circular buffer of samples behind the rolling
-- features. The arrays `t` and `v` are one list of samples of length `cap`; what `malloc` leaves in them
-- is a parameter of `init`. The buffer and the out parameter are never NULL; `free` is left out.
pub mod Recent
pub mod Append
pub mod Add
pub mod Agg
mod Tests
use polymarket_trade_engine.Prelude.{
  ℕ, zero, suc, ◌+◌, ◌-◌, ◌%◌, Bool, Option, none, some, List, if◌then◌else◌, ltb, leb, ◌==◌,
  get_or, set, length, add64, sub64,
}
use polymarket_trade_engine.Double.{Double, whole}

pub record Sample (F : Type 0) : Type 0 where
  pub t : ℕ
  pub v : F

-- `pt_winbuf_t`
pub record Winbuf (F : Type 0) : Type 0 where
  pub samples : List (Sample F)
  pub cap : ℕ
  pub head : ℕ
  pub count : ℕ

-- `pt_winagg_t` when `ok` is 1, and the running values of the loop.
pub record Winagg (F : Type 0) : Type 0 where
  pub sum : F
  pub min : F
  pub max : F
  pub first : F
  pub last : F
  pub first_t : ℕ
  pub last_t : ℕ
  pub count : ℕ

-- The index that the code takes for the sample `k` places before the newest.
pub slot_before : {F : Type 0} → Winbuf F → ℕ → ℕ
slot_before w k = sub64 (sub64 (add64 w.head w.count) 1) k % w.cap

-- The start of the window, which does not go below 0.
abbrev pub window_start : ℕ → ℕ → ℕ
window_start now dur = if ltb dur now then now - dur else 0

-- A sample that comes with a smaller time gets the latest one's.
abbrev pub no_earlier : ℕ → ℕ → ℕ
no_earlier t latest_t = if ltb t latest_t then latest_t else t

module _ {F : Type 0} where
  -- `block` is what the two allocations give, none where one fails.
  pub init : Option (List (Sample F)) → ℕ → Option (Winbuf F)
  init none cap = none
  init (some block) cap =
      if cap == 0 then none else some (record { samples = block; cap = cap; head = 0; count = 0 })

  pub reset : Winbuf F → Winbuf F
  reset w = record w { head = 0; count = 0 }

module _ {F : Type 0} ⦃d : Double F⦄ where
  abbrev pub sample_at : Winbuf F → ℕ → Sample F
  sample_at w i = get_or w.samples i (record { t = 0; v = whole 0 })

  -- A write to the slot at `head`; the count rises until the buffer is full.
  pub append : Winbuf F → ℕ → F → Winbuf F
  append w t v = record w {
    samples = set w.samples w.head (record { t = t; v = v });
    head = add64 w.head 1 % w.cap;
    count = if w.count == w.cap then w.count else add64 w.count 1;
  }

  -- A further sample, where `latest` is taken for the slot of the newest one: an equal or earlier time
  -- replaces its value.
  pub add_after : Winbuf F → ℕ → ℕ → F → Winbuf F
  add_after w latest t v =
      let latest_t = (sample_at w latest).t in
      let t' = no_earlier t latest_t in
      if t' == latest_t
      then record w { samples = set w.samples latest (record { t = latest_t; v = v }) }
      else append w t' v

  pub add : Winbuf F → ℕ → F → Winbuf F
  add w t v = if ltb 0 w.count then add_after w (slot_before w 0) t v else append w t v

  -- The running values after one more sample of the window.
  abbrev pub tally : Sample F → Winagg F → Winagg F
  tally s a =
      let fresh = a.count == 0 in
      let mn = if fresh then s.v else a.min in
      let mx = if fresh then s.v else a.max in
      record {
        sum = d.add a.sum s.v;
        min = if d.lt s.v mn then s.v else mn;
        max = if d.lt mx s.v then s.v else mx;
        first = s.v;
        last = if fresh then s.v else a.last;
        first_t = s.t;
        last_t = if fresh then s.t else a.last_t;
        count = add64 a.count 1;
      }

  abbrev pub no_samples : Winagg F
  no_samples = record {
    sum = whole 0;
    min = whole 0;
    max = whole 0;
    first = whole 0;
    last = whole 0;
    first_t = 0;
    last_t = 0;
    count = 0;
  }

  -- `n` more samples, from `k` places before the newest on. A sample after `now` is passed over, and
  -- the first one at or before `lo` ends the loop.
  pub agg_loop : Winbuf F → ℕ → ℕ → ℕ → ℕ → Winagg F → Winagg F
  agg_loop w now lo k zero a = a
  agg_loop w now lo k (suc n) a =
      let s = sample_at w (slot_before w k) in
      let skipped = agg_loop w now lo (suc k) n a in
      let taken = agg_loop w now lo (suc k) n (tally s a) in
      if ltb now s.t then skipped else if leb s.t lo then a else taken

  -- The aggregate over the times after `now` - `dur` and up to `now`, if any sample is there.
  pub agg : Winbuf F → ℕ → ℕ → Option (Winagg F)
  agg w now dur =
      if dur == 0
      then none
      else let a = agg_loop w now (window_start now dur) 0 w.count no_samples in
        if a.count == 0 then none else some a
