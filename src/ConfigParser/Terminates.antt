-- ===== src/ConfigParser/Terminates.antt =====
-- src/config_parser.c: every loop ends, whatever the file holds.
use lexidb.Base.{
  ℕ, zero, suc, ◌+◌, ◌≤◌, ◌<◌, ◌≡◌, refl, Bool, false, List, [], ◌∷◌, length, arith, Bool-cases,
  inl, inr, ◌==◌, Option, some,
}
use lexidb.Chars.{span_loop, span, is_space, skip_spaces}
use lexidb.Chars.Laws.{left, left-at, span-Passes}
use lexidb.ConfigParser.{
  and_line, LineDataType, address, port, user, loglevel, databases, LineData, Config, Result, ok,
  err, ends_line, in_word, in_line, is_blank, in_address, read_string, skip_whitespace,
  skip_comment, skip_empty_lines_and_comments, lookups, lookup_in, parse_line_data_type, user_loop,
  parse_user, parse_num_databases, parse_port, alone, parse_address, parse_log_level, line_of,
  parse_line_data, parse_line, store_line, and_stored, parse_loop, config_new, parse_config,
}
use lexidb.Parser.Scan.{Parser, parser_new, read_char, is_digit, parse_len, len_loop}
use lexidb.Server.{User}
use lexidb.Vec.{Vec}

left-skip_spaces : (p : Parser) → left (skip_spaces p) ≤ left p
unfolding skip_spaces
left-skip_spaces p = (span-Passes is_space refl p).0

left-read_string : (p : Parser) → left (read_string p).1 ≤ left p
unfolding read_string
left-read_string p = (span-Passes in_word refl p).0

left-read_char : (p : Parser) → p.ch == 0 ≡ false → left (read_char p) < left p
unfolding read_char
left-read_char p h = rw h (omega (arith, left-at p.rest))

len_loop-span :
    (c : ℕ) (xs : List ℕ) (res : ℕ) → (len_loop res c xs).1 ≡ (span_loop is_digit c xs).1
unfolding len_loop span_loop
len_loop-span c [] res = elim (Bool-cases (is_digit c)) [ inl h ↦ rw h refl | inr h ↦ rw h refl ]
len_loop-span c (x ∷ xs) res = elim (Bool-cases (is_digit c)) [
  | inl h ↦ rw h (len_loop-span x xs _)
  | inr h ↦ rw h refl
]

left-parse_len : (p : Parser) → left (parse_len p).1 ≤ left p
unfolding parse_len span
left-parse_len p = rw (len_loop-span p.ch p.rest 0) ((span-Passes is_digit refl p).0)

-- a loop that ends, with no more left than at its start
abbrev Ends : {A : Type 0} → Parser → Option (A × Parser) → Type 0
Ends {A} p r = (a : A) × (q : Parser) × (r ≡ some (a, q)) × (left q ≤ left p)

user_loop-Ends : (fuel : ℕ) (u : User) (p : Parser) → left p < fuel → Ends p (user_loop fuel u p)
unfolding user_loop
user_loop-Ends zero u p h = absurd (omega arith)
user_loop-Ends (suc fuel) u p h = elim (Bool-cases (ends_line p.ch)) [
  | inl over ↦ rw over (_, _, refl, omega arith)
  | inr here ↦ elim (Bool-cases (p.ch == b'>')) [
    | inr other ↦ rw (here, other) (_, _, refl, omega arith)
    | inl found ↦
        let read = left-read_char p (ground arith) in
        let fewer = left-read_string (read_char p) in
        let spaces = left-skip_spaces (read_string (read_char p)).1 in
        let (a, r, ends, less) =
          user_loop-Ends fuel (record u { password = (read_string (read_char p)).0 })
            (skip_spaces (read_string (read_char p)).1) (omega (arith, read, fewer, spaces)) in
        rw (here, found, ends) (a, r, refl, omega (arith, read, fewer, spaces, less))
  ]
]

skip-Ends :
    (fuel : ℕ) (p : Parser)
    → left p < fuel
    → (q : Parser) × (skip_empty_lines_and_comments fuel p ≡ some q) × (left q ≤ left p)
unfolding skip_empty_lines_and_comments skip_comment skip_whitespace
skip-Ends zero p h = absurd (omega arith)
skip-Ends (suc fuel) p h = elim (Bool-cases (p.ch == b'#')) [
  | inl comment ↦
      let (_, less, _, _) = span-Passes in_line refl p in
      let passed = less (ground arith) in
      let (q, ends, fewer) = skip-Ends fuel (span in_line p).1 (omega (arith, passed)) in
      rw (comment, ends) (q, refl, omega (arith, passed, fewer))
  | inr no_comment ↦ elim (Bool-cases (p.ch == b'\n')) [
    | inr text ↦ rw (no_comment, text) (p, refl, omega arith)
    | inl line ↦
        let (_, less, _, _) = span-Passes is_blank refl p in
        let passed = less (ground arith) in
        let (q, ends, fewer) = skip-Ends fuel (span is_blank p).1 (omega (arith, passed)) in
        rw (no_comment, line, ends) (q, refl, omega (arith, passed, fewer))
  ]
]

-- a result that has read on where it is one
abbrev ReadsOn : {A : Type 0} → Parser → Result A × Parser → Type 0
ReadsOn p (ok a, q) = left q < left p
ReadsOn p (err e, q) = Unit

reads_on : {A : Type 0} (p q : Parser) (r : Result A) → left q < left p → ReadsOn p (r, q)
reads_on p q (ok a) h = h
reads_on p q (err e) h = tt

parse_line_data_type-ReadsOn : (p : Parser) → ReadsOn p (parse_line_data_type p)
unfolding parse_line_data_type read_string
parse_line_data_type-ReadsOn p = elim (Bool-cases (in_word p.ch)) [
  | inl word ↦
      let (_, less, _, _) = span-Passes in_word refl p in
      reads_on p (span in_word p).1 (lookup_in lookups (span in_word p).0) (less word)
  | inr other ↦ let (_, _, _, same) = span-Passes in_word refl p in rw (same other) tt
]

left-alone : (p : Parser) (r : List ℕ × Parser) → left r.1 ≤ left p → left (alone r).1 ≤ left p
left-alone p (s, q) h = omega (arith, left-skip_spaces q)

Ends-line_of :
    {A : Type 0} (p : Parser) (make : A → LineData) (r : Result A × Parser)
    → left r.1 ≤ left p
    → Ends p (some (line_of make r))
Ends-line_of p make (ok a, q) h = (_, _, refl, h)
Ends-line_of p make (err e, q) h = (_, _, refl, h)

left-number : (p : Parser) → left (skip_spaces (parse_len (skip_spaces p)).1) ≤ left p
left-number p =
    let number = left-parse_len (skip_spaces p) in
    omega (arith, left-skip_spaces p, number, left-skip_spaces (parse_len (skip_spaces p)).1)

parse_line_data-Ends :
    (fuel : ℕ) (type : LineDataType) (p : Parser)
    → left p < fuel
    → Ends p (parse_line_data fuel (ok type, p))
unfolding parse_line_data parse_address parse_log_level parse_port parse_user parse_num_databases
parse_line_data-Ends fuel address p h =
    let spaces = left-skip_spaces p in
    let (fewer, _, _, _) = span-Passes in_address refl (skip_spaces p) in
    (_, _, refl, left-alone p (span in_address (skip_spaces p)) (omega (arith, spaces, fewer)))
parse_line_data-Ends fuel loglevel p h = (
  _,
  _,
  refl,
  left-alone p (read_string (skip_spaces p))
      (omega (arith, left-skip_spaces p, left-read_string (skip_spaces p))),
)
parse_line_data-Ends fuel port p h = Ends-line_of p _ (parse_port (skip_spaces p)) (left-number p)
parse_line_data-Ends fuel databases p h =
    Ends-line_of p _ (parse_num_databases (skip_spaces p)) (left-number p)
parse_line_data-Ends fuel user p h =
    let spaces = left-skip_spaces p in
    let name = left-read_string (skip_spaces p) in
    let more = left-skip_spaces (read_string (skip_spaces p)).1 in
    let (u, q, ends, fewer) =
      user_loop-Ends fuel (record { name = (read_string (skip_spaces p)).0; password = [] })
        (skip_spaces (read_string (skip_spaces p)).1) (omega (arith, spaces, name, more)) in
    rw ends (Ends-line_of p _ (u, q) (omega (arith, spaces, name, more, fewer)))

-- a line's result, which has read on where it is one
abbrev ReadsLine : Parser → Option (Result LineData × Parser) → Type 0
ReadsLine p r = (a : Result LineData) × (q : Parser) × (r ≡ some (a, q)) × ReadsOn p (a, q)

parse_line_data-ReadsLine :
    (fuel : ℕ) (p : Parser) (r : Result LineDataType × Parser)
    → left p < fuel
    → ReadsOn p r
    → ReadsLine p (parse_line_data fuel r)
unfolding parse_line_data
parse_line_data-ReadsLine fuel p (err e, q) h less = (err e, q, refl, tt)
parse_line_data-ReadsLine fuel p (ok type, q) h less =
    let (a, r, ends, fewer) = parse_line_data-Ends fuel type q (omega (arith, less)) in
    (a, r, ends, reads_on p r a (omega (arith, less, fewer)))

parse_line-ReadsLine : (fuel : ℕ) (p : Parser) → left p < fuel → ReadsLine p (parse_line fuel p)
unfolding parse_line
parse_line-ReadsLine fuel p h =
    parse_line_data-ReadsLine fuel p (parse_line_data_type p) h (parse_line_data_type-ReadsOn p)

abbrev Returns : Option (Result Config) → Type 0
Returns r = (a : Result Config) × (r ≡ some a)

Returns-and_stored :
    (r : Result Config) (next : Config → Option (Result Config))
    → ((c : Config) → Returns (next c))
    → Returns (and_stored r next)
Returns-and_stored (ok c) next h = h c
Returns-and_stored (err e) next h = (err e, refl)

module _ (realloc : ℕ → Bool) where
  abbrev and_then : ℕ → Config → LineData → Parser → Option (Result Config)
  and_then fuel c d r = and_stored (store_line realloc c d) (λ c'. parse_loop realloc fuel c' r)

  Returns-and_line :
      (fuel : ℕ) (c : Config) (p q : Parser) (a : Result LineData)
      → left p < suc fuel
      → ReadsOn p (a, q)
      → ((c' : Config) → left q < fuel → Returns (parse_loop realloc fuel c' q))
      → Returns (and_line (some (a, q)) (and_then fuel c))
  Returns-and_line fuel c p q (err e) h less more = (err e, refl)
  Returns-and_line fuel c p q (ok d) h less more =
      Returns-and_stored (store_line realloc c d) _ (λ c'. more c' (omega (arith, less)))

  parse_loop-Returns :
      (fuel : ℕ) (c : Config) (p : Parser) → left p < fuel → Returns (parse_loop realloc fuel c p)
  unfolding parse_loop
  parse_loop-Returns zero c p h = absurd (omega arith)
  parse_loop-Returns (suc fuel) c p h = elim (Bool-cases (p.ch == 0)) [
    | inl over ↦ rw over (ok c, refl)
    | inr text ↦
        let (q, skipped, fewer) = skip-Ends (suc fuel) p h in
        elim (Bool-cases (q.ch == 0)) [
          | inl over ↦ rw (text, skipped, over) (ok c, refl)
          | inr line ↦
              let (a, r, read, less) = parse_line-ReadsLine (suc fuel) q (omega (arith, fewer)) in
              rw (text, skipped, line, read)
                (Returns-and_line fuel c q r a (omega (arith, fewer)) less
                  (λ c' few. parse_loop-Returns fuel c' r few))
        ]
  ]

  -- The parser of the configuration ends on every text, within one round more than the text has
  -- characters, with a configuration or an error.
  pub parse_config-Returns :
      (users : Vec User) (input : List ℕ)
      → (a : Result Config) × (parse_config realloc users input ≡ some a)
  unfolding parse_config parser_new read_char
  parse_config-Returns users input =
      parse_loop-Returns (length input + 1) (config_new users) (parser_new input)
        (omega (arith, left-at input))
