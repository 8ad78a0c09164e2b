-- ===== src/Stdio.antt =====
-- fprintf and fscanf of the C library, as far as the formats of the repository use them. A text is a list of
-- bytes and printed numbers; a format is a list of literal pieces and conversions.
use Prim.Native.Char.{code}
use Prim.Native.String.{String}
use polymarket_trade_engine.Prelude.{
  ℕ, ◌||◌, Bool, Option, none, some, List, [], ◌∷◌, if◌then◌else◌, ◌==◌,
}
use polymarket_trade_engine.Double.{Double}

-- The bytes of a literal in ASCII.
abbrev pub codes : String → List ℕ
codes String.[] = []
codes (String.◌∷◌ c s) = code c ∷ codes s

-- A byte, the digits of an unsigned number, or a double with four decimals.
pub data Symbol (F : Type 0) : Type 0 where
  byte : ℕ → Symbol F
  digits : ℕ → Symbol F
  decimals : F → Symbol F

abbrev pub Text : Type 0 → Type 0
Text F = List (Symbol F)

-- A piece of a format: bytes, `%llu`, or `%.4f` and `%lf`.
pub data Directive : Type 0 where
  literal : List ℕ → Directive
  unsigned real : Directive

-- What is printed or read by a conversion.
pub data Value (F : Type 0) : Type 0 where
  number : ℕ → Value F
  double : F → Value F

-- `isspace`
abbrev is_space : ℕ → Bool
is_space c = c == 32 || c == 10 || c == 9 || c == 13 || c == 11 || c == 12

module _ {F : Type 0} where
  unfoldable pub put_bytes : List ℕ → Text F → Text F
  put_bytes [] t = t
  put_bytes (c ∷ cs) t = Symbol.byte c ∷ put_bytes cs t

  -- Conversions and values correspond in every call of the repository.
  unfoldable pub fprintf : List Directive → List (Value F) → Text F
  fprintf [] vs = []
  fprintf (Directive.literal s ∷ ds) vs = put_bytes s (fprintf ds vs)
  fprintf (Directive.unsigned ∷ ds) (Value.number n ∷ vs) = Symbol.digits n ∷ fprintf ds vs
  fprintf (Directive.real ∷ ds) (Value.double x ∷ vs) = Symbol.decimals x ∷ fprintf ds vs
  fprintf (_ ∷ ds) vs = fprintf ds vs

  unfoldable pub skip_space : Text F → Text F
  skip_space [] = []
  skip_space (Symbol.byte c ∷ t) =
      let rest = skip_space t in if is_space c then rest else Symbol.byte c ∷ t
  skip_space (s ∷ t) = s ∷ t

  -- A space of the format stands for any spaces, also none; every other byte for itself.
  unfoldable pub match_byte : ℕ → Text F → Option (Text F)
  match_byte c t = if is_space c then some (skip_space t) else elim t [
    | [] ↦ none
    | s ∷ rest ↦ elim s [
      | Symbol.byte x ↦ if x == c then some rest else none
      | Symbol.digits n ↦ none
      | Symbol.decimals x ↦ none
    ]
  ]

  unfoldable pub match_bytes : List ℕ → Text F → Option (Text F)
  match_bytes [] t = some t
  match_bytes (c ∷ cs) t = elim (match_byte c t) [ none ↦ none | some rest ↦ match_bytes cs rest ]

module _ {F : Type 0} ⦃d : Double F⦄ where
  -- The values read before the first mismatch. `reread` is what `%lf` reads of a double with four decimals.
  unfoldable pub fscanf : (F → F) → List Directive → Text F → List (Value F)
  fscanf reread [] t = []
  fscanf reread (Directive.literal s ∷ ds) t = elim (match_bytes s t) [
    | none ↦ []
    | some rest ↦ fscanf reread ds rest
  ]
  fscanf reread (Directive.unsigned ∷ ds) t = elim (skip_space t) [
    | [] ↦ []
    | s ∷ rest ↦ elim s [
      | Symbol.byte x ↦ []
      | Symbol.digits n ↦ Value.number n ∷ fscanf reread ds rest
      | Symbol.decimals x ↦ []
    ]
  ]
  fscanf reread (Directive.real ∷ ds) t = elim (skip_space t) [
    | [] ↦ []
    | s ∷ rest ↦ elim s [
      | Symbol.byte x ↦ []
      | Symbol.digits n ↦ Value.double (d.of_nat n) ∷ fscanf reread ds rest
      | Symbol.decimals x ↦ Value.double (reread x) ∷ fscanf reread ds rest
    ]
  ]
