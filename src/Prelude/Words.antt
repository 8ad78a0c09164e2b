-- ===== src/Prelude/Words.antt =====
-- 64-bit words. An unsigned word is a number below 2 ^ 64, and its arithmetic wraps. Signed 64-bit
-- arithmetic is exact in ℤ (its overflow is undefined in C); the casts between the two are written out.
use Prim.Native.Nat.{ℕ, ◌+◌, ◌-◌, ◌%◌, ◌^◌}
use polymarket_trade_engine.Prelude.Tests.{ltb, if◌then◌else◌}
use polymarket_trade_engine.Prelude.Int.{ℤ, pos, negsuc}

abbrev pub word : ℕ
word = 2 ^ 64

abbrev pub add64 : ℕ → ℕ → ℕ
add64 a b = (a + b) % word

abbrev pub sub64 : ℕ → ℕ → ℕ
sub64 a b = (a + word - b) % word

-- `(int64_t)n` of an unsigned word.
abbrev pub to_int64 : ℕ → ℤ
to_int64 n = if ltb n (2 ^ 63) then pos n else negsuc (word - n - 1)

-- `(uint64_t)a` of a signed one.
abbrev pub to_uint64 : ℤ → ℕ
to_uint64 (pos n) = n % word
to_uint64 (negsuc n) = word - 1 - n % word
