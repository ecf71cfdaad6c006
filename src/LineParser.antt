-- ===== src/LineParser.antt =====
-- src/line_parser.c: the commands that a user types. A `Parser` is the current character and the line
-- behind it; `skip_spaces` is `skip_whitespace`.
pub mod Typed
pub mod Calls
use lexidb.Base.{
  ℕ, ◌+◌, ◌-◌, ◌^◌, Bool, true, false, ◌&&◌, ◌||◌, not, List, [], ◌∷◌, Option, none, some, String,
  leb, ◌==◌, if◌then◌else◌,
}
use lexidb.Base.Int.{ℤ, pos, negsuc}
use lexidb.Keys.{memcmp_zero}
use lexidb.Chars.{span_loop, span, skip_spaces}
use lexidb.Cmd.{
  Cmdt, Cmd, no_cmd, illegal, okc, auth, ping, infoc, select, help, keys, set, get, del, push, pop,
  enque, deque, zset, zhas, zdel, zeroed, one, two,
}
use lexidb.Hilexi.{as_int64}
use lexidb.Object.{Object, null, int, string}
use lexidb.Parser.Commands.{lookup_in, is_name}
use lexidb.Parser.Run.{Libc}
use lexidb.Parser.Scan.{Parser, at, parser_new, read_char, peek_byte, is_digit, parse_len, len_loop}

abbrev pub lookups : List (String × Cmdt)
lookups =
    ("set", set)
    ∷ ("SET", set)
    ∷ ("get", get)
    ∷ ("GET", get)
    ∷ ("del", del)
    ∷ ("DEL", del)
    ∷ ("pop", pop)
    ∷ ("POP", pop)
    ∷ ("ping", ping)
    ∷ ("PING", ping)
    ∷ ("info", infoc)
    ∷ ("INFO", infoc)
    ∷ ("HELP", help)
    ∷ ("help", help)
    ∷ ("keys", keys)
    ∷ ("KEYS", keys)
    ∷ ("push", push)
    ∷ ("PUSH", push)
    ∷ ("zset", zset)
    ∷ ("ZSET", zset)
    ∷ ("zhas", zhas)
    ∷ ("ZHAS", zhas)
    ∷ ("zdel", zdel)
    ∷ ("ZDEL", zdel)
    ∷ ("enque", enque)
    ∷ ("ENQUE", enque)
    ∷ ("deque", deque)
    ∷ ("DEQUE", deque)
    ∷ ("select", select)
    ∷ ("SELECT", select)
    ∷ []

unfoldable pub lookup_cmd : List ℕ → Cmdt
unfolding lookup_in
lookup_cmd s = lookup_in lookups s

-- `p->ch != ' ' && p->ch != 0`
abbrev pub in_word : ℕ → Bool
in_word c = not (c == b' ' || c == 0)

unfoldable pub parse_cmd_type : Parser → Cmdt × Parser
unfolding skip_spaces span lookup_cmd
parse_cmd_type p = let (s, q) = span in_word (skip_spaces p) in (lookup_cmd s, q)

unfoldable pub parse_string : Parser → List ℕ × Parser
unfolding span
parse_string p = span in_word p

abbrev pub ends_bulk : ℕ → Bool
ends_bulk c = c == b'"' || c == 0

-- what a backslash and this character stand for
unfoldable pub escaped : ℕ → Option ℕ
escaped c =
    if c == b'n'
    then some b'\n'
    else if c == b'r'
    then some b'\r'
    else if c == b't'
    then some b'\t'
    else if c == b'"'
    then some b'"'
    else none

abbrev pub push_char : ℕ → List ℕ × Parser → List ℕ × Parser
push_char c (s, p) = (c ∷ s, p)

-- a character of a bulk string that is no escape, and one behind a backslash, with what the loop gives
-- from the next character on, and from the one after
abbrev pub escape : Option ℕ → List ℕ × Parser → List ℕ × Parser → List ℕ × Parser
escape none next after = push_char b'\\' next
escape (some c) next after = push_char c after

-- the loop of `parse_bulk_string`
unfoldable pub bulk_loop : ℕ → List ℕ → List ℕ × Parser
unfolding escaped
bulk_loop c [] = if ends_bulk c then ([], record { ch = c; rest = [] }) else (c ∷ [], at [])
bulk_loop c (x ∷ []) =
    let next = bulk_loop x [] in
    if ends_bulk c
    then ([], record { ch = c; rest = x ∷ [] })
    else if c == b'\\'
    then escape (escaped x) next ([], at [])
    else push_char c next
bulk_loop c (x ∷ y ∷ ys) =
    let next = bulk_loop x (y ∷ ys) in
    let after = bulk_loop y ys in
    if ends_bulk c
    then ([], record { ch = c; rest = x ∷ y ∷ ys })
    else if c == b'\\'
    then escape (escaped x) next after
    else push_char c next

unfoldable pub parse_bulk_string : Parser → List ℕ × Parser
unfolding bulk_loop read_char
parse_bulk_string p = let q = read_char p in let (s, r) = bulk_loop q.ch q.rest in (s, read_char r)

-- `-num` on an int64_t
unfoldable pub negated : ℤ → ℤ
negated (pos n) = if n == 0 then pos 0 else negsuc (n - 1)
negated (negsuc n) = if n + 1 == 2 ^ 63 then negsuc n else pos (n + 1)

-- The loop on digits is that of `parse_len`, on an int64_t. Where that overflows, which C leaves
-- undefined, it wraps around.
unfoldable pub parse_number : Parser → ℤ × Parser
unfolding parse_len as_int64 negated read_char
parse_number p =
    let (num, q) = parse_len (if p.ch == b'-' then read_char p else p) in
    (if p.ch == b'-' then negated (as_int64 num) else as_int64 num, q)

abbrev pub is_letter : ℕ → Bool
is_letter c = leb b'a' c && leb c b'z' || leb b'A' c && leb c b'Z'

unfoldable pub is_start_of_number : Parser → Bool
unfolding peek_byte
is_start_of_number p = is_digit p.ch || p.ch == b'-' && is_digit (peek_byte p)

module _ {D : Type 0} where
  abbrev as_string : List ℕ × Parser → Object D × Parser
  as_string (s, p) = (string s, p)

  abbrev as_int : ℤ × Parser → Object D × Parser
  as_int (z, p) = (int z, p)

  -- `parse_object` behind the white space
  unfoldable pub object_at : Parser → Object D × Parser
  unfolding parse_string parse_bulk_string parse_number is_start_of_number
  object_at p =
      if is_letter p.ch
      then as_string (parse_string p)
      else if p.ch == b'"'
      then as_string (parse_bulk_string p)
      else if is_start_of_number p
      then as_int (parse_number p)
      else (null, p)

  unfoldable pub parse_object : Parser → Object D × Parser
  unfolding object_at skip_spaces
  parse_object p = object_at (skip_spaces p)

  unfoldable pub one_object : Cmdt → Parser → Cmd D
  unfolding parse_object
  one_object type p = record { type = type; args = one (parse_object p).0 }

  abbrev plain : Cmdt → Cmd D
  plain type = record { type = type; args = zeroed }

  unfoldable pub select_object : Object D → Cmd D
  select_object (int z) = record { type = select; args = one (int z) }
  select_object o = no_cmd

  -- the switch of `parse_cmd`
  unfoldable pub cmd_of_type : Cmdt → Parser → Cmd D
  unfolding one_object select_object parse_object
  cmd_of_type ping p = plain ping
  cmd_of_type infoc p = plain infoc
  cmd_of_type help p = plain help
  cmd_of_type keys p = plain keys
  cmd_of_type set p =
      let (key, q) = parse_object p in
      let (value, r) = parse_object q in record { type = set; args = two key value }
  cmd_of_type get p = one_object get p
  cmd_of_type del p = one_object del p
  cmd_of_type push p = one_object push p
  cmd_of_type pop p = plain pop
  cmd_of_type enque p = one_object enque p
  cmd_of_type deque p = plain deque
  cmd_of_type zset p = one_object zset p
  cmd_of_type zhas p = one_object zhas p
  cmd_of_type zdel p = one_object zdel p
  cmd_of_type select p = select_object (parse_object p).0
  cmd_of_type type p = no_cmd

  unfoldable pub parse_cmd : Parser → Cmd D
  unfolding parse_cmd_type cmd_of_type skip_spaces
  parse_cmd p = let (type, q) = parse_cmd_type p in cmd_of_type type (skip_spaces q)

  unfoldable pub parse_line : List ℕ → Cmd D
  unfolding parse_cmd parser_new
  parse_line line = parse_cmd (parser_new line)

-- A declaration that opens this name opens the whole parser, so that it computes.
unfoldable pub line_program : Unit {0}
unfolding parse_line parse_cmd parser_new read_char parse_cmd_type cmd_of_type lookup_cmd lookup_in
    is_name memcmp_zero skip_spaces span span_loop one_object select_object parse_object object_at
    parse_string parse_bulk_string bulk_loop escaped parse_number parse_len len_loop as_int64
    negated is_start_of_number peek_byte
line_program = tt
