-- ===== src/Tests/Platform.antt =====
-- A C library and an allocator that meet what the theorems ask of them, and keys compared by memcmp.
use lexidb.Base.{
  ℕ, ◌+◌, ◌-◌, ◌^◌, ◌<◌, ◌≡◌, refl, ap, List, [], ◌∷◌, ◌++◌, none, arith, true, if◌then◌else◌, ◌==◌,
  ltb,
}
use lexidb.Base.Decimal.{decimal, decimal_ℤ}
use lexidb.Base.Int.{ℤ, pos, negsuc}
use lexidb.Keys.{KeyOps, IsLawful, memcmp-IsLawful}
use lexidb.Memory.{Memory, CallocFits}
use lexidb.Parser.Run.{Libc}
use lexidb.Parser.Scan.{at, parse_len}
use lexidb.Protocol.Lines.{digits_of_head}
use lexidb.Protocol.Numbers.{parse_len-decimal}
use lexidb.Protocol.Values.{IsInt64, IsStandard}

abbrev pub text_ops : KeyOps (List ℕ)
text_ops = record { bytes = λ k. k; siphash = λ k. first k; key_cmp = none }
  where
    first : List ℕ → ℕ
    first [] = 7
    first (c ∷ _) = c

pub text_ops-IsLawful : IsLawful text_ops
text_ops-IsLawful = memcmp-IsLawful text_ops refl

abbrev pub memory : Memory
memory = record { calloc = λ n. ltb n (2 ^ 61); malloc = true }

pub memory-CallocFits : CallocFits memory
memory-CallocFits n h = ground arith

value : List ℕ → ℕ
value ds = (parse_len (at (ds ++ b'\r' ∷ []))).0

signed : ℕ → List ℕ → ℤ
signed c ds =
    if c == b'-'
    then (let v = value ds in if v == 0 then pos 0 else negsuc (v - 1))
    else pos (value (c ∷ ds))

pub read_ℤ : List ℕ → ℤ
read_ℤ [] = pos 0
read_ℤ (c ∷ ds) = signed c ds

value-decimal : (n : ℕ) → n < 2 ^ 64 → value (decimal n) ≡ n
unfolding value
value-decimal n h = ap (λ r. r.0) (parse_len-decimal n b'\r' [] h refl)

read_ℤ-decimal_ℤ : (z : ℤ) → IsInt64 z → read_ℤ (decimal_ℤ z) ≡ z
unfolding read_ℤ decimal_ℤ signed
read_ℤ-decimal_ℤ (pos n) h =
    let (d, ds, e, g) = digits_of_head (n + 1) n (omega arith) in
    let whole : decimal n ≡ d ∷ ds = unfold decimal in e in
    rw whole (ground (arith, ap value whole, value-decimal n (omega arith)))
read_ℤ-decimal_ℤ (negsuc n) h = rw (value-decimal (n + 1) (omega arith)) (ground arith)

abbrev pub libc : Libc ℕ
libc = record {
  strtod = λ s. 0;
  strtold_int64 = read_ℤ;
  format_g = λ d. b'0' ∷ [];
  calloc = λ n. ltb n (2 ^ 40);
}

pub libc-IsStandard : IsStandard libc
libc-IsStandard = record { strtold-decimal = read_ℤ-decimal_ℤ; InLine-format_g = λ d. (refl, tt) }
