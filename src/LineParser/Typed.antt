-- ===== src/LineParser/Typed.antt =====
-- src/line_parser.c: strings and numbers as a user types them.
use lexidb.Base.{
  ℕ, ◌+◌, ◌-◌, ◌<◌, ◌^◌, ◌≡◌, refl, sym, ◌∙◌, ap, Bool, true, false, ◌||◌, not, List, [], ◌∷◌, ◌++◌,
  ltb, ◌==◌, ==_iff, if◌then◌else◌, All, arith, Bool-cases, inl, inr, append_assoc,
}
use lexidb.Base.Decimal.{decimal, decimal_ℤ}
use lexidb.Base.Int.{pos, negsuc}
use lexidb.Hilexi.{as_int64}
use lexidb.LineParser.{
  ends_bulk, escaped, push_char, bulk_loop, negated, parse_number, is_letter, is_start_of_number,
  object_at,
}
use lexidb.Object.{Object, null, int, double, bool, string, array, ht}
use lexidb.Parser.Scan.{Parser, at, read_char, peek_byte, is_digit}
use lexidb.Protocol.Lines.{digits_of_head}
use lexidb.Protocol.Numbers.{parse_len-decimal_end}

-- A quotation mark is typed behind a backslash; no other character needs one, and the backslash itself
-- cannot be typed in front of every character.
abbrev pub quoted : List ℕ → List ℕ
quoted [] = []
quoted (c ∷ s) = if c == b'"' then b'\\' ∷ b'"' ∷ quoted s else c ∷ quoted s

abbrev pub is_typable : ℕ → Bool
is_typable c = not (c == b'\\' || c == 0)

abbrev pub IsTyped : {D : Type 0} → Object D → Type 0
IsTyped (string s) = All (λ c. is_typable c ≡ true) s
IsTyped (int (pos n)) = n < 2 ^ 63
IsTyped (int (negsuc n)) = n + 1 < 2 ^ 63
IsTyped _ = ⊥

abbrev pub typed : {D : Type 0} → Object D → List ℕ
typed (string s) = b'"' ∷ (quoted s ++ b'"' ∷ [])
typed (int z) = decimal_ℤ z
typed _ = []

abbrev bulk_at : List ℕ → List ℕ × Parser
bulk_at xs = bulk_loop (at xs).ch (at xs).rest

bulk_at-end : (xs : List ℕ) → bulk_at (b'"' ∷ xs) ≡ ([], at (b'"' ∷ xs))
unfolding bulk_loop
bulk_at-end [] = refl
bulk_at-end (x ∷ []) = refl
bulk_at-end (x ∷ y ∷ ys) = refl

bulk_at-char :
    (c : ℕ) (xs : List ℕ)
    → ends_bulk c ≡ false
    → c == b'\\' ≡ false
    → bulk_at (c ∷ xs) ≡ push_char c (bulk_at xs)
unfolding bulk_loop
bulk_at-char c [] h g = rw h refl
bulk_at-char c (x ∷ []) h g = rw (h, g) refl
bulk_at-char c (x ∷ y ∷ ys) h g = rw (h, g) refl

bulk_at-quote : (xs : List ℕ) → bulk_at (b'\\' ∷ b'"' ∷ xs) ≡ push_char b'"' (bulk_at xs)
unfolding bulk_loop escaped
bulk_at-quote [] = refl
bulk_at-quote (y ∷ ys) = refl

bulk_at-quoted :
    (s xs : List ℕ)
    → All (λ c. is_typable c ≡ true) s
    → bulk_at (quoted s ++ b'"' ∷ xs) ≡ (s, at (b'"' ∷ xs))
bulk_at-quoted [] xs h = bulk_at-end xs
bulk_at-quoted (c ∷ s) xs h =
    let more = bulk_at-quoted s xs h.1 in
    elim (Bool-cases (c == b'"')) [
      | inl quote ↦ rw quote (
          bulk_at-quote (quoted s ++ b'"' ∷ xs)
          ∙ ap (push_char b'"') more
          ∙ ap (λ d. (d ∷ s, at (b'"' ∷ xs))) (sym ((==_iff c b'"').0 quote)))
      | inr other ↦ rw other (
          bulk_at-char c (quoted s ++ b'"' ∷ xs) (ground (arith, h.0)) (ground (arith, h.0))
          ∙ ap (push_char c) more)
    ]

-- the first character of a number
pub decimal_head : (n : ℕ) (xs : List ℕ) → (is_digit (at (decimal n ++ xs)).ch ≡ true)
unfolding decimal
decimal_head n xs = let (d, ds, e, g) = digits_of_head (n + 1) n (omega arith) in rw e g

peek_byte-at : (c : ℕ) (xs : List ℕ) → peek_byte (at (c ∷ xs)) ≡ (at xs).ch
unfolding peek_byte
peek_byte-at c [] = refl
peek_byte-at c (x ∷ xs) = refl

module _ {D : Type 0} where
  pub object_at-typed :
      (o : Object D) (xs : List ℕ)
      → IsTyped o
      → is_digit (at xs).ch ≡ false
      → object_at (at (typed o ++ xs)) ≡ (o, at xs)
  unfolding object_at parse_number is_start_of_number as_int64 negated decimal_ℤ read_char
  object_at-typed (string s) xs h g =
      rw (append_assoc (quoted s) (b'"' ∷ []) xs, bulk_at-quoted s xs h) refl
  object_at-typed (int (pos n)) xs h g =
      let digit = decimal_head n xs in
      let no_letter : is_letter (at (decimal n ++ xs)).ch ≡ false = ground (arith, digit) in
      let no_bulk : (at (decimal n ++ xs)).ch == b'"' ≡ false = ground (arith, digit) in
      let no_sign : (at (decimal n ++ xs)).ch == b'-' ≡ false = ground (arith, digit) in
      let few : ltb n (2 ^ 63) ≡ true = ground arith in
      rw (no_letter, no_bulk, digit, no_sign, parse_len-decimal_end n xs (omega arith) g, few) refl
  object_at-typed (int (negsuc n)) xs h g =
      let rest = decimal (n + 1) ++ xs in
      let digit : is_digit (peek_byte (at (b'-' ∷ rest))) ≡ true =
        ap is_digit (peek_byte-at b'-' rest) ∙ decimal_head (n + 1) xs in
      let few : ltb (n + 1) (2 ^ 63) ≡ true = ground arith in
      let some_value : n + 1 == 0 ≡ false = ground arith in
      let value : n + 1 - 1 ≡ n = omega arith in
      rw (digit, parse_len-decimal_end (n + 1) xs (omega arith) g, few, some_value, value) refl
  object_at-typed null xs h g = elim h [ ]
  object_at-typed (double d) xs h g = elim h [ ]
  object_at-typed (bool b) xs h g = elim h [ ]
  object_at-typed (array o) xs h g = elim h [ ]
  object_at-typed (ht ps) xs h g = elim h [ ]
