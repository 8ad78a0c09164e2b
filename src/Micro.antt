-- ===== src/Micro.antt =====
-- An arithmetic in place of `double` on which the models run: numbers with six decimals, exact where
-- the decimals allow it and cut off where not.
use polymarket_trade_engine.Prelude.{
  ℕ, ◌+◌, ◌*◌, ◌/◌, ◌^◌, if◌then◌else◌, ℤ, pos, pos_part, neg_part, sub_ℕ, ltb_ℤ, leb_ℤ, eqb_ℤ,
  arith,
}
use polymarket_trade_engine.Double.{Double}
use polymarket_trade_engine.Risk.Gate.{IsTruncating}

abbrev pub Micro : Type 0
Micro = ℤ

abbrev scale : ℕ
scale = 1_000_000

abbrev size_of : ℤ → ℕ
size_of a = pos_part a + neg_part a

-- The number of this size with the sign of a product or quotient.
abbrev signed : ℤ → ℤ → ℕ → ℤ
signed a b n =
    if (ltb_ℤ a (pos 0))
    then (if ltb_ℤ b (pos 0) then pos n else sub_ℕ 0 n)
    else (if ltb_ℤ b (pos 0) then sub_ℕ 0 n else pos n)

instance abbrev pub micro_double : Double Micro
micro_double = record {
  add = λ a b. sub_ℕ (pos_part a + pos_part b) (neg_part a + neg_part b);
  sub = λ a b. sub_ℕ (pos_part a + neg_part b) (neg_part a + pos_part b);
  mul = λ a b. signed a b (size_of a * size_of b / scale);
  div = λ a b. signed a b (size_of a * scale / size_of b);
  lt = ltb_ℤ;
  le = leb_ℤ;
  eq = eqb_ℤ;
  neg = λ a. sub_ℕ (neg_part a) (pos_part a);
  abs = λ a. pos (size_of a);
  round = λ a. signed a a ((size_of a + 500_000) / scale * scale);
  of_int = λ a. sub_ℕ (pos_part a * scale) (neg_part a * scale);
  of_nat = λ n. pos (n * scale);
  to_nat = λ a. pos_part a / scale;
  to_int = λ a. sub_ℕ (pos_part a / scale) (neg_part a / scale);
  decimal = λ a k. sub_ℕ (pos_part a * scale / 10 ^ k) (neg_part a * scale / 10 ^ k);
}

pub Micro-IsTruncating : IsTruncating Micro
Micro-IsTruncating = record { to_nat-le = λ x n p h. ground arith }
