-- ===== src/Double.antt =====
-- The `double`s of C, over any type `F` of values: the operations that the engine uses. Nothing is
-- assumed of them here, so what is proved with no law holds for IEEE arithmetic with its rounding,
-- infinities and NaN; a theorem that needs a law names it (`IsTruncating` of Risk/Gate).
use polymarket_trade_engine.Prelude.{ℕ, Bool, ℤ, pos}

pub record Double (F : Type 0) : Type 0 where
  pub add : F → F → F
  pub sub : F → F → F
  pub mul : F → F → F
  pub div : F → F → F
  pub lt : F → F → Bool
  pub le : F → F → Bool
  pub eq : F → F → Bool
  pub neg : F → F
  -- `fabs` and `round`
  pub abs : F → F
  pub round : F → F
  -- `(double)a`, of an `int64_t` and of a `uint64_t`
  pub of_int : ℤ → F
  pub of_nat : ℕ → F
  -- `(uint64_t)x` and `(int64_t)x`
  pub to_nat : F → ℕ
  pub to_int : F → ℤ
  -- the literal that is `m` times 10 to the power -k
  pub decimal : ℤ → ℕ → F

module _ {F : Type 0} ⦃d : Double F⦄ where
  abbrev pub whole : ℕ → F
  whole n = d.decimal (pos n) 0
