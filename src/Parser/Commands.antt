-- ===== src/Parser/Commands.antt =====
-- src/parser.c (parse, parse_from_server and parse_cmd): commands.
use lexidb.Base.{
  ℕ, zero, suc, ◌+◌, Bool, true, false, ◌&&◌, List, [], ◌∷◌, ◌==◌, if◌then◌else◌, length, Option,
  some, none, String, codes,
}
use lexidb.Cmd.{
  Cmdt, Cmd, no_cmd, illegal, okc, auth, ping, infoc, select, help, keys, set, get, del, push, pop,
  enque, deque, zset, zhas, zdel, zeroed, one, two, help_with,
}
use lexidb.Keys.{memcmp_zero}
use lexidb.Object.{Object, null, int, string}
use lexidb.Parser.Objects.{objects_program, parse_header, parse_object}
use lexidb.Parser.Run.{Run, ret, ◌>>=◌, Libc}
use lexidb.Parser.Scan.{Parser, parser_new, read_char, parse_simple_string}

-- the table `lookup`; each length there is that of its name
abbrev pub lookup_table : List (String × Cmdt)
lookup_table =
    ("OK", okc)
    ∷ ("SET", set)
    ∷ ("GET", get)
    ∷ ("DEL", del)
    ∷ ("POP", pop)
    ∷ ("HELP", help)
    ∷ ("AUTH", auth)
    ∷ ("PING", ping)
    ∷ ("INFO", infoc)
    ∷ ("KEYS", keys)
    ∷ ("PUSH", push)
    ∷ ("ZSET", zset)
    ∷ ("ZHAS", zhas)
    ∷ ("ZDEL", zdel)
    ∷ ("ENQUE", enque)
    ∷ ("DEQUE", deque)
    ∷ ("SELECT", select)
    ∷ []

-- `l.cmd_len == s_len && memcmp(s_data, l.cmd, s_len) == 0`
unfoldable pub is_name : List ℕ → String → Bool
unfolding memcmp_zero
is_name s name = length (codes name) == length s && memcmp_zero s (codes name)

unfoldable pub lookup_in : List (String × Cmdt) → List ℕ → Cmdt
lookup_in [] s = illegal
lookup_in ((name, type) ∷ more) s = if is_name s name then type else lookup_in more s

unfoldable pub lookup_cmd : List ℕ → Cmdt
unfolding lookup_in is_name
lookup_cmd s = lookup_in lookup_table s

module _ {D : Type 0} (libc : Libc D) where
  unfoldable pub parse_simple_string_cmd : Parser → Cmdt × Parser
  parse_simple_string_cmd p = let (s, q) = parse_simple_string p in (lookup_cmd s, read_char q)

  unfoldable pub cmd_of_object : Object D → Cmdt
  cmd_of_object (string s) = lookup_cmd s
  cmd_of_object _ = illegal

  -- also `parse_bulk_string_cmd`
  unfoldable pub parse_cmd_type : ℕ → Parser → Run (Cmdt × Parser)
  parse_cmd_type fuel p =
      if p.ch == b'$'
      then (parse_object libc fuel p >>= λ r. ret (cmd_of_object r.0, r.1))
      else if p.ch == b'+'
      then ret (parse_simple_string_cmd p)
      else ret (illegal, p)

  -- `object.type == Null`
  unfoldable pub is_null : Object D → Bool
  is_null null = true
  is_null _ = false

  unfoldable pub is_int : Object D → Bool
  is_int (int z) = true
  is_int _ = false

  -- a command of one object, such as GET, and of two, such as SET
  unfoldable pub with_one : (Object D → Bool) → Cmdt → ℕ → ℕ → Parser → Run (Cmd D)
  with_one refuses type len fuel p =
      if len == 2
      then (parse_object libc fuel p >>= λ r.
          ret (if refuses r.0 then no_cmd else record { type = type; args = one r.0 }))
      else ret no_cmd

  unfoldable pub second_object : Cmdt → Object D → Object D → Cmd D
  second_object type a b = if is_null b then no_cmd else record { type = type; args = two a b }

  unfoldable pub with_two : Cmdt → ℕ → ℕ → Parser → Run (Cmd D)
  with_two type len fuel p =
      if len == 3
      then (parse_object libc fuel p >>= λ a.
          if is_null a.0
          then ret no_cmd
          else (parse_object libc fuel a.1 >>= λ b. ret (second_object type a.0 b.0)))
      else ret no_cmd

  unfoldable pub help_cmd : Cmdt → Cmd D
  help_cmd illegal = no_cmd
  help_cmd type = record { type = help; args = help_with type }

  unfoldable pub not_int : Object D → Bool
  not_int o = if is_int o then false else true

  -- the switch of `parse_array_cmd`
  unfoldable pub parse_args : Cmdt → ℕ → ℕ → Parser → Run (Cmd D)
  parse_args help len fuel p = parse_cmd_type fuel p >>= λ r. ret (help_cmd r.0)
  parse_args auth len fuel p = with_two auth len fuel p
  parse_args set len fuel p = with_two set len fuel p
  parse_args get len fuel p = with_one is_null get len fuel p
  parse_args del len fuel p = with_one is_null del len fuel p
  parse_args push len fuel p = with_one is_null push len fuel p
  parse_args enque len fuel p = with_one is_null enque len fuel p
  parse_args zset len fuel p = with_one is_null zset len fuel p
  parse_args zhas len fuel p = with_one is_null zhas len fuel p
  parse_args zdel len fuel p = with_one is_null zdel len fuel p
  parse_args select len fuel p = with_one not_int select len fuel p
  parse_args _ len fuel p = ret no_cmd

  unfoldable pub array_cmd_body : ℕ → Option ℕ × Parser → Run (Cmd D)
  array_cmd_body fuel (none, p) = ret no_cmd
  array_cmd_body fuel (some zero, p) = ret no_cmd
  array_cmd_body fuel (some (suc n), p) =
      parse_cmd_type fuel p >>= λ r. parse_args r.0 (suc n) fuel r.1

  unfoldable pub parse_array_cmd : ℕ → Parser → Run (Cmd D)
  parse_array_cmd fuel p = array_cmd_body fuel (parse_header libc p)

  unfoldable pub parse_cmd : ℕ → Parser → Run (Cmd D)
  parse_cmd fuel p =
      if p.ch == b'*'
      then parse_array_cmd fuel p
      else if p.ch == b'+'
      then ret (record { type = (parse_simple_string_cmd p).0; args = zeroed })
      else if p.ch == b'$'
      then (parse_cmd_type fuel p >>= λ r. ret (record { type = r.0; args = zeroed }))
      else ret no_cmd

  -- More fuel than bytes, so more than the depth of any value in the input.
  unfoldable pub parse : List ℕ → Run (Cmd D)
  parse input = parse_cmd (length input + 2) (parser_new input)

  unfoldable pub parse_from_server : List ℕ → Run (Object D × Parser)
  parse_from_server input = parse_object libc (length input + 2) (parser_new input)

-- opens all of the parser of commands, for runs
unfoldable pub commands_program : Unit {0}
unfolding objects_program parser_new is_name lookup_in lookup_cmd parse_simple_string_cmd
    cmd_of_object parse_cmd_type is_null is_int with_one second_object with_two help_cmd not_int
    parse_args array_cmd_body parse_array_cmd parse_cmd parse parse_from_server
commands_program = tt
