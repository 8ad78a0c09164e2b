-- ===== src/Types.antt =====
-- include/core/ptypes.h: the scalar types. A price is a scaled `int64_t`, an integer of ℤ; sizes,
-- sequence numbers, times and ids are unsigned words.
use polymarket_trade_engine.Prelude.{ℕ, Bool, true, false, ℤ, eqb_ℤ}

-- `pt_side_t` as it is passed, in an `int`: the code asks only whether it is PT_SIDE_BID or
-- PT_SIDE_ASK, and any other value is `other`.
pub data Side : Type 0 where
  bid ask : Side
  other : ℤ → Side

abbrev pub is_bid : Side → Bool
is_bid bid = true
is_bid _ = false

abbrev pub is_ask : Side → Bool
is_ask ask = true
is_ask _ = false

-- PT_PRICE_SCALE
abbrev pub price_scale : ℕ
price_scale = 1000

-- A status code: 0 and -1.
pub data Rc : Type 0 where
  ok fail : Rc

abbrev pub same_side : Side → Side → Bool
same_side bid bid = true
same_side ask ask = true
same_side (other a) (other b) = eqb_ℤ a b
same_side _ _ = false
