-- ===== src/Auth.antt =====
-- src/auth.c: how a password is hashed and compared. src/sha256.c is another project's code: its digest
-- is a parameter. A user name is compared by `vstr_cmp` (src/vstr.c).
use lexidb.Base.{
  ℕ, zero, suc, ◌/◌, ◌%◌, ◌≡◌, refl, Bool, true, false, List, [], ◌∷◌, arith, length, get_or, ◌==◌,
  if◌then◌else◌, codes, ◌↔◌,
}

unfoldable pub hex_digit : ℕ → ℕ
hex_digit n = get_or (codes "0123456789abcdef") n 0

-- two digits for each byte of the digest
unfoldable pub hex : List ℕ → List ℕ
unfolding hex_digit
hex [] = []
hex (c ∷ cs) = hex_digit (c / 16 % 16) ∷ hex_digit (c % 16) ∷ hex cs

unfoldable pub hash_password : (List ℕ → List ℕ) → List ℕ → List ℕ
unfolding hex
hash_password sha256 p = hex (sha256 p)

-- whether `res` is 0 after the loop: it is when no byte of the first `len` differs; a byte behind the
-- end is the terminator's 0
unfoldable pub time_safe_equal : List ℕ → List ℕ → ℕ → Bool
time_safe_equal xs ys zero = true
time_safe_equal [] [] (suc len) = true
time_safe_equal [] (y ∷ ys) (suc len) = false
time_safe_equal (x ∷ xs) [] (suc len) = false
time_safe_equal (x ∷ xs) (y ∷ ys) (suc len) =
    let rest = time_safe_equal xs ys len in if x == y then rest else false

-- whether strncmp is 0: it stops behind a 0 that both have
unfoldable pub strncmp_zero : List ℕ → List ℕ → Bool
strncmp_zero [] ys = true
strncmp_zero (x ∷ xs) [] = true
strncmp_zero (x ∷ xs) (y ∷ ys) =
    let rest = strncmp_zero xs ys in if x == y then (if x == 0 then true else rest) else false

unfoldable pub vstr_cmp_zero : List ℕ → List ℕ → Bool
unfolding strncmp_zero
vstr_cmp_zero a b = if length a == length b then strncmp_zero a b else false

pub strncmp_zero_refl : (xs : List ℕ) → strncmp_zero xs xs ≡ true
unfolding strncmp_zero
strncmp_zero_refl [] = refl
strncmp_zero_refl (x ∷ xs) = ground (arith, strncmp_zero_refl xs)

-- The comparison of two hashes of one length tells whether they are the same.
pub time_safe_equal_iff :
    (xs ys : List ℕ)
    → length xs ≡ length ys
    → (time_safe_equal xs ys (length xs) ≡ true) ↔ (xs ≡ ys)
unfolding time_safe_equal
time_safe_equal_iff [] [] e = (λ _. refl, λ _. refl)
time_safe_equal_iff [] (y ∷ ys) e = absurd (omega arith)
time_safe_equal_iff (x ∷ xs) [] e = absurd (omega arith)
time_safe_equal_iff (x ∷ xs) (y ∷ ys) e =
    let rest = time_safe_equal_iff xs ys (omega arith) in ground (arith, rest)
