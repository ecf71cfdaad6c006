-- ===== src/Protocol/Numbers.antt =====
-- src/parser.c: the scanners on what src/builder.c writes.
use lexidb.Base.{
  ℕ, zero, suc, ◌+◌, ◌-◌, ◌*◌, ◌/◌, ◌%◌, ◌^◌, ◌<◌, ◌≡◌, refl, ◌∙◌, ap, List, [], ◌∷◌, ◌++◌,
  append_assoc, arith, Bool-cases, inl, inr, true, false, ltb,
}
use lexidb.Base.Decimal.{decimal, digits_of}
use lexidb.Parser.Scan.{Parser, at, is_digit, len_loop, parse_len}

-- `parse_len` with a count so far
abbrev scan_len : ℕ → List ℕ → ℕ × Parser
scan_len res xs = len_loop res (at xs).ch (at xs).rest

scan_len_digit :
    (res d : ℕ) (xs : List ℕ)
    → is_digit d ≡ true
    → scan_len res (d ∷ xs) ≡ scan_len ((res * 10 + (d - b'0')) % 2 ^ 64) xs
unfolding len_loop
scan_len_digit res d [] h = rw h refl
scan_len_digit res d (x ∷ xs) h = rw h refl

scan_len_end :
    (res c : ℕ) (xs : List ℕ) → is_digit c ≡ false → scan_len res (c ∷ xs) ≡ (res, at (c ∷ xs))
unfolding len_loop
scan_len_end res c [] h = rw h refl
scan_len_end res c (x ∷ xs) h = rw h refl

scan_len-digits_of :
    (fuel n : ℕ) (xs : List ℕ)
    → n < fuel
    → n < 2 ^ 64
    → scan_len 0 (digits_of fuel n ++ xs) ≡ scan_len n xs
unfolding digits_of
scan_len-digits_of zero n xs h fits = absurd (omega arith)
scan_len-digits_of (suc fuel) n xs h fits = elim (Bool-cases (ltb n 10)) [
  | inl small ↦
      rw small
        (scan_len_digit 0 (48 + n) xs (ground arith) ∙ ap (λ m. scan_len m xs) (ground arith))
  | inr large ↦
      rw (large, append_assoc)
        (scan_len-digits_of fuel (n / 10) ((48 + n % 10) ∷ xs) (ground arith) (omega arith)
          ∙ scan_len_digit (n / 10) (48 + n % 10) xs (ground arith)
          ∙ ap (λ m. scan_len m xs) (omega arith))
]

-- A printed length is read back, whatever byte follows that is no digit.
pub parse_len-decimal :
    (n c : ℕ) (xs : List ℕ)
    → n < 2 ^ 64
    → is_digit c ≡ false
    → parse_len (at (decimal n ++ c ∷ xs)) ≡ (n, at (c ∷ xs))
unfolding parse_len decimal
parse_len-decimal n c xs fits h =
    scan_len-digits_of (n + 1) n (c ∷ xs) (omega arith) fits ∙ scan_len_end n c xs h

scan_len_stop : (n : ℕ) (xs : List ℕ) → is_digit (at xs).ch ≡ false → scan_len n xs ≡ (n, at xs)
unfolding len_loop
scan_len_stop n [] h = refl
scan_len_stop n (c ∷ xs) h = scan_len_end n c xs h

-- the same, where the number may end the text
pub parse_len-decimal_end :
    (n : ℕ) (xs : List ℕ)
    → n < 2 ^ 64
    → is_digit (at xs).ch ≡ false
    → parse_len (at (decimal n ++ xs)) ≡ (n, at xs)
unfolding parse_len decimal
parse_len-decimal_end n xs fits h =
    scan_len-digits_of (n + 1) n xs (omega arith) fits ∙ scan_len_stop n xs h
