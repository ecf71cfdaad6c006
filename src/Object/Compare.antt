-- ===== src/Object/Compare.antt =====
-- src/object.c: `object_cmp`, by which the databases' tables compare keys: whether its result is 0.
use lexidb.Auth.{strncmp_zero, vstr_cmp_zero}
use lexidb.Base.{
  ℕ, ◌-◌, ◌%◌, ◌^◌, ◌<◌, ◌≡◌, ◌≢◌, ◌↔◌, refl, ap, Bool, true, false, List, [], ◌∷◌, length, All,
  arith, ◌==◌, ==_iff, Bool-cases, inl, inr,
}
use lexidb.Base.Int.{ℤ, pos, negsuc}
use lexidb.Object.{Object, null, int, double, bool, string, array, ht}

-- the low 32 bits, in two's complement
unfoldable pub low_word : ℤ → ℕ
low_word (pos n) = n % 2 ^ 32
low_word (negsuc n) = 2 ^ 32 - 1 - n % 2 ^ 32

-- The difference of two integers is cut to an int, which is 0 where their low words are the same. Of
-- two doubles, and of two Booleans, the first is compared with itself; `self_difference_zero` tells
-- whether `d - d` is 0 as an int, which C leaves open for infinities and NaN.
unfoldable pub object_cmp_zero : {D : Type 0} → (D → Bool) → Object D → Object D → Bool
unfolding low_word
object_cmp_zero self_difference_zero null null = true
object_cmp_zero self_difference_zero (int y) (int z) = low_word y == low_word z
object_cmp_zero self_difference_zero (double d) (double e) = self_difference_zero d
object_cmp_zero self_difference_zero (bool u) (bool v) = true
object_cmp_zero self_difference_zero (string s) (string t) = vstr_cmp_zero s t
object_cmp_zero self_difference_zero _ _ = false

strncmp_zero_iff :
    (xs ys : List ℕ)
    → length xs ≡ length ys
    → All (λ c. c ≢ 0) xs
    → (strncmp_zero xs ys ≡ true) ↔ (xs ≡ ys)
unfolding strncmp_zero
strncmp_zero_iff [] [] e plain = (λ _. refl, λ _. refl)
strncmp_zero_iff [] (y ∷ ys) e plain = absurd (omega arith)
strncmp_zero_iff (x ∷ xs) [] e plain = absurd (omega arith)
strncmp_zero_iff (x ∷ xs) (y ∷ ys) e plain =
    let rest = strncmp_zero_iff xs ys (omega arith) plain.1 in ground (arith, rest, plain.0)

vstr_cmp_zero_iff :
    (xs ys : List ℕ) → All (λ c. c ≢ 0) xs → (vstr_cmp_zero xs ys ≡ true) ↔ (xs ≡ ys)
unfolding vstr_cmp_zero
vstr_cmp_zero_iff xs ys plain = elim (Bool-cases (length xs == length ys)) [
  | inl same ↦ rw same (strncmp_zero_iff xs ys ((==_iff _ _).0 same) plain)
  | inr other ↦ rw other (λ h. absurd (ground arith), λ h. absurd (ground (arith, ap length h)))
]

-- an int32_t
abbrev pub IsSmall : ℤ → Type 0
IsSmall (pos n) = n < 2 ^ 31
IsSmall (negsuc n) = n < 2 ^ 31

low_word_iff : (y z : ℤ) → IsSmall y → IsSmall z → ((low_word y == low_word z) ≡ true) ↔ (y ≡ z)
unfolding low_word
low_word_iff (pos m) (pos n) h k = ground arith
low_word_iff (pos m) (negsuc n) h k = ground arith
low_word_iff (negsuc m) (pos n) h k = ground arith
low_word_iff (negsuc m) (negsuc n) h k = ground arith

-- an object that the comparison tells apart from the others: NULL, an int32_t, or a string with no
-- zero byte
abbrev pub IsPlain : {D : Type 0} → Object D → Type 0
IsPlain null = Unit
IsPlain (int z) = IsSmall z
IsPlain (string s) = All (λ c. c ≢ 0) s
IsPlain _ = ⊥

-- Of NULL, integers of 32 bits and strings with no zero byte, the comparison finds exactly the same
-- ones equal.
pub object_cmp_zero_iff :
    {D : Type 0} (self_difference_zero : D → Bool) (a b : Object D)
    → IsPlain a
    → IsPlain b
    → (object_cmp_zero self_difference_zero a b ≡ true) ↔ (a ≡ b)
unfolding object_cmp_zero
object_cmp_zero_iff f null null h k = (λ _. refl, λ _. refl)
object_cmp_zero_iff f (int y) (int z) h k = let same = low_word_iff y z h k in ground (arith, same)
object_cmp_zero_iff f (string s) (string t) h k =
    let same = vstr_cmp_zero_iff s t h in ground (arith, same)
object_cmp_zero_iff f null (int z) h k = ground arith
object_cmp_zero_iff f null (string t) h k = ground arith
object_cmp_zero_iff f null (double e) h k = absurd k
object_cmp_zero_iff f null (bool v) h k = absurd k
object_cmp_zero_iff f null (array os) h k = absurd k
object_cmp_zero_iff f null (ht ps) h k = absurd k
object_cmp_zero_iff f (int y) null h k = ground arith
object_cmp_zero_iff f (int y) (string t) h k = ground arith
object_cmp_zero_iff f (int y) (double e) h k = absurd k
object_cmp_zero_iff f (int y) (bool v) h k = absurd k
object_cmp_zero_iff f (int y) (array os) h k = absurd k
object_cmp_zero_iff f (int y) (ht ps) h k = absurd k
object_cmp_zero_iff f (string s) null h k = ground arith
object_cmp_zero_iff f (string s) (int z) h k = ground arith
object_cmp_zero_iff f (string s) (double e) h k = absurd k
object_cmp_zero_iff f (string s) (bool v) h k = absurd k
object_cmp_zero_iff f (string s) (array os) h k = absurd k
object_cmp_zero_iff f (string s) (ht ps) h k = absurd k
object_cmp_zero_iff f (double e) o h k = absurd h
object_cmp_zero_iff f (bool v) o h k = absurd h
object_cmp_zero_iff f (array os) o h k = absurd h
object_cmp_zero_iff f (ht ps) o h k = absurd h
