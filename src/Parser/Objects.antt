-- ===== src/Parser/Objects.antt =====
-- src/parser.c (parse_object): values.
use lexidb.Base.{
  ℕ, zero, suc, ◌+◌, ◌-◌, ◌^◌, ◌%◌, Bool, true, false, ◌&&◌, ◌||◌, List, leb, ltb, ◌==◌,
  if◌then◌else◌, length, Option, some, none,
}
use lexidb.Object.{
  Object, Items, Pairs, null, int, double, bool, string, array, ht, no_items, item, no_pairs, pair,
}
use lexidb.Parser.Run.{Run, ret, spins, aborts, out_of_fuel, ◌>>=◌, Libc}
use lexidb.Parser.Scan.{
  Parser, read_char, peek_byte, expect_peek_byte, expect_peek_byte_to_be_num, parse_len, scan_line,
  double_loop, take_bytes, parse_simple_string,
}

abbrev pub vstr_max_small_size : ℕ
vstr_max_small_size = 23

abbrev pub vstr_max_large_size : ℕ
vstr_max_large_size = 2 ^ 56 - 1

module _ {D : Type 0} (libc : Libc D) where
  -- `vstr_new_len(len)` passes its assertions
  unfoldable pub reserves : ℕ → Bool
  reserves len =
      if ltb vstr_max_small_size len
      then leb len vstr_max_large_size && libc.calloc (len + 1)
      else true

  unfoldable pub parse_string : Parser → ℕ → Run (List ℕ × Parser)
  parse_string p len = if reserves ((len + 1) % 2 ^ 64) then ret (take_bytes len p) else aborts

  -- `\r` is the current byte and `\n` the next; the parser goes past them
  unfoldable pub end_of_line : Object D → Parser → Object D × Parser
  end_of_line o p =
      if p.ch == b'\r'
      then (let (found, q) = expect_peek_byte p b'\n' in
          if found then (o, read_char q) else (null, q))
      else (null, p)

  -- a length and its line; `none` where `parse_object` gives up
  unfoldable pub parse_header : Parser → Option ℕ × Parser
  parse_header p =
      let (is_num, q) = expect_peek_byte_to_be_num p in
      if is_num
      then (let (len, r) = parse_len q in
          if r.ch == b'\r'
          then (let (found, t) = expect_peek_byte r b'\n' in
              if found then (some len, read_char t) else (none, t))
          else (none, r))
      else (none, q)

  unfoldable pub string_body : Option ℕ × Parser → Run (Object D × Parser)
  string_body (none, p) = ret (null, p)
  string_body (some len, p) = parse_string p len >>= λ r. ret (end_of_line (string r.0) r.1)

  unfoldable pub parse_integer : Parser → Object D × Parser
  parse_integer p =
      let (s, q) = scan_line (read_char p) in end_of_line (int (libc.strtold_int64 s)) q

  unfoldable pub double_body : Option (List ℕ × Parser) → Run (Object D × Parser)
  double_body none = spins
  double_body (some (s, q)) = ret (end_of_line (double (libc.strtod s)) q)

  -- More rounds than there are bytes left: at that fuel the loop has met `\r` or never will.
  unfoldable pub parse_double : Parser → Run (Object D × Parser)
  parse_double p = let q = read_char p in double_body (double_loop (length q.rest + 2) q)

  unfoldable pub parse_boolean : Parser → Object D × Parser
  parse_boolean p =
      let q = read_char p in
      if q.ch == b't' then ends true q else if q.ch == b'f' then ends false q else (null, q)
    where
      ends : Bool → Parser → Object D × Parser
      ends b q =
          let (cr, r) = expect_peek_byte q b'\r' in
          if cr
          then (let (lf, t) = expect_peek_byte r b'\n' in
              if lf then (bool b, read_char t) else (null, t))
          else (null, r)

  unfoldable pub parse_line_object : Parser → Object D × Parser
  parse_line_object p = let (s, q) = parse_simple_string p in (string s, read_char q)

  -- the calls of `parse_object` for the elements of an array, and for the pairs of a table
  unfoldable pub repeat_items :
      (Parser → Run (Object D × Parser)) → ℕ → Parser → Run (Items D × Parser)
  repeat_items call zero p = ret (no_items, p)
  repeat_items call (suc n) p =
      call p >>= λ r. repeat_items call n r.1 >>= λ t. ret (item r.0 t.0, t.1)

  unfoldable pub repeat_pairs :
      (Parser → Run (Object D × Parser)) → ℕ → Parser → Run (Pairs D × Parser)
  repeat_pairs call zero p = ret (no_pairs, p)
  repeat_pairs call (suc n) p =
      call p >>= λ k. call k.1 >>= λ v. repeat_pairs call n v.1 >>= λ t. ret (pair k.0 v.0 t.0, t.1)

  unfoldable pub array_body :
      (Parser → Run (Object D × Parser)) → Option ℕ × Parser → Run (Object D × Parser)
  array_body call (none, p) = ret (null, p)
  array_body call (some len, p) = repeat_items call len p >>= λ r. ret (array r.0, r.1)

  unfoldable pub ht_body :
      (Parser → Run (Object D × Parser)) → Option ℕ × Parser → Run (Object D × Parser)
  ht_body call (none, p) = ret (null, p)
  ht_body call (some len, p) = repeat_pairs call len p >>= λ r. ret (ht r.0, r.1)

  -- the switch on the type byte
  unfoldable pub parse_by_type :
      (Parser → Run (Object D × Parser)) → Parser → Run (Object D × Parser)
  parse_by_type call p =
      if p.ch == b'$'
      then string_body (parse_header p)
      else if p.ch == b':'
      then ret (parse_integer p)
      else if p.ch == b','
      then parse_double p
      else if p.ch == b'#'
      then ret (parse_boolean p)
      else if p.ch == b'+' || p.ch == b'-'
      then ret (parse_line_object p)
      else if p.ch == b'*'
      then array_body call (parse_header p)
      else if p.ch == b'%'
      then ht_body call (parse_header p)
      else ret (null, p)

  -- The fuel bounds the depth of the recursion.
  unfoldable pub parse_object : ℕ → Parser → Run (Object D × Parser)
  parse_object zero p = out_of_fuel
  parse_object (suc fuel) p = parse_by_type (parse_object fuel) p

-- opens all of the parser of values, for runs
unfoldable pub objects_program : Unit {0}
unfolding read_char peek_byte expect_peek_byte expect_peek_byte_to_be_num parse_len scan_line
    double_loop take_bytes parse_simple_string reserves parse_string end_of_line parse_header
    string_body parse_integer double_body parse_double parse_boolean parse_line_object repeat_items
    repeat_pairs array_body ht_body parse_by_type parse_object
objects_program = tt
