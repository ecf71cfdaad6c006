-- ===== src/Parser/Run.antt =====
-- src/parser.c: what a call of the parser comes to, and what it takes from the C library.
use lexidb.Base.{ℕ, Bool, List}
use lexidb.Base.Int.{ℤ}

-- `spins` is a loop that never ends, `aborts` a failed assertion. `out_of_fuel` has no counterpart in
-- the program.
pub data Run {ℓ} (A : Type ℓ) : Type ℓ where
  ret : A → Run A
  spins aborts out_of_fuel : Run A

-- A call made after another one has returned.
abbrev pub ◌>>=◌ {ℓ₁ ℓ₂} : {X : Type ℓ₁} {Y : Type ℓ₂} → Run X → (X → Run Y) → Run Y
ret x >>= next = next x
spins >>= _ = spins
aborts >>= _ = aborts
out_of_fuel >>= _ = out_of_fuel

infixl 5 ◌>>=◌
-- The C library: `strtod`, `strtold` followed by the conversion to int64_t, `printf` of a double, and
-- whether `calloc` gives a number of bytes.
pub record Libc (Double : Type 0) : Type 0 where
  pub strtod : List ℕ → Double
  pub strtold_int64 : List ℕ → ℤ
  pub format_g : Double → List ℕ
  pub calloc : ℕ → Bool
