-- ===== src/Parser/Scan.antt =====
-- src/parser.c: the byte level. A `Parser` is the current byte and the bytes from `pos` on; the position
-- only moves forward.
use lexidb.Base.{
  ℕ, zero, suc, ◌+◌, ◌-◌, ◌*◌, ◌%◌, ◌^◌, Bool, true, false, ◌&&◌, ◌||◌, List, [], ◌∷◌, leb, ◌==◌,
  if◌then◌else◌, Option, some, none,
}

pub record Parser : Type 0 where
  pub ch : ℕ
  pub rest : List ℕ

-- the parser that stands before its first byte
abbrev pub at : List ℕ → Parser
at [] = record { ch = 0; rest = [] }
at (x ∷ xs) = record { ch = x; rest = xs }

unfoldable pub read_char : Parser → Parser
read_char p = at p.rest

unfoldable pub parser_new : List ℕ → Parser
unfolding read_char
parser_new input = read_char (record { ch = 0; rest = input })

abbrev head_byte : List ℕ → ℕ
head_byte [] = 0
head_byte (x ∷ _) = x

unfoldable pub peek_byte : Parser → ℕ
peek_byte p = head_byte p.rest

abbrev pub is_digit : ℕ → Bool
is_digit c = leb b'0' c && leb c b'9'

-- the result, and whether the byte was there; the parser stands on it then
unfoldable pub expect_peek_byte : Parser → ℕ → Bool × Parser
unfolding peek_byte read_char
expect_peek_byte p byte = if peek_byte p == byte then (true, read_char p) else (false, p)

unfoldable pub expect_peek_byte_to_be_num : Parser → Bool × Parser
unfolding peek_byte read_char
expect_peek_byte_to_be_num p = if is_digit (peek_byte p) then (true, read_char p) else (false, p)

-- the loop of `parse_len`, on a uint64_t
unfoldable pub len_loop : ℕ → ℕ → List ℕ → ℕ × Parser
len_loop res c [] =
    if is_digit c
    then ((res * 10 + (c - b'0')) % 2 ^ 64, at [])
    else (res, record { ch = c; rest = [] })
len_loop res c (x ∷ xs) =
    let more = len_loop ((res * 10 + (c - b'0')) % 2 ^ 64) x xs in
    if is_digit c then more else (res, record { ch = c; rest = x ∷ xs })

unfoldable pub parse_len : Parser → ℕ × Parser
unfolding len_loop
parse_len p = len_loop 0 p.ch p.rest

abbrev pub ends_line : ℕ → Bool
ends_line c = c == b'\r' || c == 0

-- `while (p->ch != '\r' && p->ch != 0)` of `parse_simple_string`, `parse_error` and `parse_integer`
unfoldable pub line_loop : ℕ → List ℕ → List ℕ × Parser
line_loop c [] = if ends_line c then ([], record { ch = c; rest = [] }) else (c ∷ [], at [])
line_loop c (x ∷ xs) =
    let (s, p) = line_loop x xs in
    if ends_line c then ([], record { ch = c; rest = x ∷ xs }) else (c ∷ s, p)

unfoldable pub scan_line : Parser → List ℕ × Parser
unfolding line_loop
scan_line p = line_loop p.ch p.rest

abbrev pub push_first : ℕ → Option (List ℕ × Parser) → Option (List ℕ × Parser)
push_first c none = none
push_first c (some (s, p)) = some (c ∷ s, p)

-- `while (p->ch != '\r')` of `parse_double`. At the end of the input the current byte stays 0, and the
-- loop goes on for ever: `none` at every fuel.
unfoldable pub double_loop : ℕ → Parser → Option (List ℕ × Parser)
double_loop zero p = none
double_loop (suc fuel) p =
    let more = push_first p.ch (double_loop fuel (at p.rest)) in
    if p.ch == b'\r' then some ([], p) else more

-- the loop of `parse_string`
unfoldable pub take_bytes : ℕ → Parser → List ℕ × Parser
take_bytes zero p = ([], p)
take_bytes (suc n) p = let (s, q) = take_bytes n (at p.rest) in (p.ch ∷ s, q)

-- `parse_simple_string` and `parse_error`: an unfinished line gives the empty string, since
-- `vstr_free` empties the string that is then returned.
unfoldable pub parse_simple_string : Parser → List ℕ × Parser
unfolding scan_line read_char expect_peek_byte
parse_simple_string p =
    let (s, q) = scan_line (read_char p) in
    if q.ch == b'\r'
    then (let (found, r) = expect_peek_byte q b'\n' in if found then (s, r) else ([], r))
    else ([], q)
