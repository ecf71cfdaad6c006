-- ===== src/Protocol/Lines.antt =====
-- src/parser.c: the scanners on lines, strings and headers.
use lexidb.Base.{
  ℕ, ◌≤◌, zero, suc, ◌+◌, ◌/◌, ◌%◌, ◌^◌, ◌<◌, ◌≡◌, refl, List, [], ◌∷◌, ◌++◌, length, some, arith,
  Bool-cases, inl, inr, true, false, ltb, ◌==◌, All, ==_refl,
}
use lexidb.Base.Decimal.{decimal, decimal_ℤ, digits_of}
use lexidb.Base.Int.{ℤ, pos, negsuc}
use lexidb.Parser.Objects.{parse_header, end_of_line}
use lexidb.Object.{Object}
use lexidb.Parser.Run.{Libc}
use lexidb.Parser.Scan.{
  at, is_digit, line_loop, scan_line, double_loop, take_bytes, ends_line, push_first,
  expect_peek_byte, expect_peek_byte_to_be_num, read_char, parse_simple_string,
}
use lexidb.Protocol.Numbers.{parse_len-decimal}

-- the bytes of a line's text
abbrev pub InLine : List ℕ → Type 0
InLine = All (λ c. ends_line c ≡ false)

pub All-append {ℓ κ} :
    {A : Type ℓ} (P : A → Type κ) (xs ys : List A) → All P xs → All P ys → All P (xs ++ ys)
All-append P [] ys h g = g
All-append P (x ∷ xs) ys h g = (h.0, All-append P xs ys h.1 g)

All-digits_of : (fuel n : ℕ) → All (λ c. is_digit c ≡ true) (digits_of fuel n)
unfolding digits_of
All-digits_of zero n = tt
All-digits_of (suc fuel) n = elim (Bool-cases (ltb n 10)) [
  | inl small ↦ rw small (ground arith, tt)
  | inr large ↦
      rw large
        (All-append _ (digits_of fuel (n / 10)) _ (All-digits_of fuel (n / 10)) (ground arith, tt))
]

digits_are-InLine : (xs : List ℕ) → All (λ c. is_digit c ≡ true) xs → InLine xs
digits_are-InLine [] h = tt
digits_are-InLine (x ∷ xs) h = (ground arith, digits_are-InLine xs h.1)

pub InLine-decimal_ℤ : (z : ℤ) → InLine (decimal_ℤ z)
unfolding decimal_ℤ decimal
InLine-decimal_ℤ (pos n) = digits_are-InLine _ (All-digits_of (n + 1) n)
InLine-decimal_ℤ (negsuc n) = (refl, digits_are-InLine _ (All-digits_of (n + 1 + 1) (n + 1)))

line_loop-end : (xs : List ℕ) → line_loop b'\r' xs ≡ ([], record { ch = b'\r'; rest = xs })
unfolding line_loop
line_loop-end [] = refl
line_loop-end (x ∷ xs) = refl

pub scan_line-text :
    (s xs : List ℕ) → InLine s → scan_line (at (s ++ b'\r' ∷ xs)) ≡ (s, at (b'\r' ∷ xs))
unfolding scan_line line_loop
scan_line-text [] xs h = line_loop-end xs
scan_line-text (c ∷ []) xs h = rw (h.0, line_loop-end xs) refl
scan_line-text (c ∷ d ∷ s) xs h = rw (h.0, scan_line-text (d ∷ s) xs h.1) refl

pub length-at : (xs : List ℕ) → length xs ≤ length (at xs).rest + 1
length-at [] = omega arith
length-at (x ∷ xs) = omega arith

pub double_loop-text :
    (fuel : ℕ) (s xs : List ℕ)
    → length s < fuel
    → InLine s
    → double_loop fuel (at (s ++ b'\r' ∷ xs)) ≡ some (s, at (b'\r' ∷ xs))
unfolding double_loop
double_loop-text zero s xs f h = absurd (omega arith)
double_loop-text (suc fuel) [] xs f h = refl
double_loop-text (suc fuel) (c ∷ s) xs f h =
    let here : c == b'\r' ≡ false = ground arith in
    rw (here, double_loop-text fuel s xs (omega arith) h.1, push_first) refl

pub take_bytes-string : (s xs : List ℕ) → take_bytes (length s) (at (s ++ xs)) ≡ (s, at xs)
unfolding take_bytes
take_bytes-string [] xs = refl
take_bytes-string (c ∷ s) xs = rw (take_bytes-string s xs) refl

pub digits_of_head :
    (fuel n : ℕ)
    → n < fuel
    → (d : ℕ) × (ds : List ℕ) × (digits_of fuel n ≡ d ∷ ds) × (is_digit d ≡ true)
unfolding digits_of
digits_of_head zero n h = absurd (omega arith)
digits_of_head (suc fuel) n h = elim (Bool-cases (ltb n 10)) [
  | inl small ↦ (48 + n, [], rw small refl, ground arith)
  | inr large ↦
      let (d, ds, e, g) = digits_of_head fuel (n / 10) (ground arith) in
      (d, ds ++ (48 + n % 10) ∷ [], rw (large, e) refl, g)
]

digit_end : is_digit b'\r' ≡ false
digit_end = refl

expect_num-decimal :
    (type n : ℕ) (xs : List ℕ)
    → expect_peek_byte_to_be_num (at (type ∷ (decimal n ++ xs))) ≡ (true, at (decimal n ++ xs))
unfolding expect_peek_byte_to_be_num decimal
expect_num-decimal type n xs =
    let (d, ds, e, g) = digits_of_head (n + 1) n (omega arith) in rw (e, g) refl

pub expect_peek_byte-found :
    (c byte : ℕ) (xs : List ℕ) → expect_peek_byte (at (c ∷ byte ∷ xs)) byte ≡ (true, at (byte ∷ xs))
unfolding expect_peek_byte
expect_peek_byte-found c byte xs = rw (==_refl byte) refl

pub parse_simple_string-line :
    (type : ℕ) (s xs : List ℕ)
    → InLine s
    → parse_simple_string (at (type ∷ (s ++ b'\r' ∷ b'\n' ∷ xs))) ≡ (s, at (b'\n' ∷ xs))
unfolding parse_simple_string read_char
parse_simple_string-line type s xs h = rw (scan_line-text s (b'\n' ∷ xs) h) refl

module _ {D : Type 0} (libc : Libc D) where
  -- A printed length after a type byte is read, with its line.
  pub parse_header-decimal :
      (type n : ℕ) (xs : List ℕ)
      → n < 2 ^ 64
      → parse_header libc (at (type ∷ (decimal n ++ b'\r' ∷ b'\n' ∷ xs))) ≡ (some n, at xs)
  unfolding parse_header read_char
  parse_header-decimal type n xs fits =
      rw
        (
          expect_num-decimal type n (b'\r' ∷ b'\n' ∷ xs),
          parse_len-decimal n b'\r' (b'\n' ∷ xs) fits digit_end,
          expect_peek_byte-found b'\r' b'\n' xs,
        )
        refl

  pub end_of_line-crlf :
      (o : Object D) (xs : List ℕ) → end_of_line libc o (at (b'\r' ∷ b'\n' ∷ xs)) ≡ (o, at xs)
  unfolding end_of_line expect_peek_byte
  end_of_line-crlf o xs = refl
