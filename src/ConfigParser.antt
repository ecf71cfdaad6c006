-- ===== src/ConfigParser.antt =====
-- src/config_parser.h, src/config_parser.c: the parser of the configuration file. A result of type Err
-- is its message. The fuel of the loops bounds their rounds; `none` is where it has run out.
pub mod Lines
pub mod Terminates
pub mod Text
pub mod Skips
pub mod Reads
pub mod Port
pub mod Bounds
use lexidb.Base.{
  ℕ, zero, suc, ◌+◌, Bool, true, false, ◌&&◌, ◌||◌, not, List, [], ◌∷◌, ◌++◌, Option, none, some,
  String, codes, length, replicate, ltb, ◌==◌, if◌then◌else◌,
}
use lexidb.Base.Decimal.{decimal}
use lexidb.Keys.{memcmp_zero}
use lexidb.Chars.{span, span_loop, skip_spaces, is_space}
use lexidb.Parser.Commands.{is_name}
use lexidb.Parser.Scan.{Parser, at, parser_new, read_char, is_digit, parse_len, len_loop}
use lexidb.Server.{User}
use lexidb.Vec.{Vec, push, vec_realloc, append}

pub data LineDataType : Type 0 where
  address port user loglevel databases : LineDataType

-- `line_data`: a type with the data that belong to it
pub data LineData : Type 0 where
  address_line loglevel_line : List ℕ → LineData
  port_line databases_line : ℕ → LineData
  user_line : User → LineData

pub record Config : Type 0 where
  pub port : ℕ
  pub databases : ℕ
  pub address : List ℕ
  pub users : Vec User
  pub loglevel : List ℕ

pub data Result (A : Type 0) : Type 0 where
  ok : A → Result A
  err : List ℕ → Result A

abbrev pub lookups : List (String × LineDataType)
lookups =
    ("port", port)
    ∷ ("user", user)
    ∷ ("address", address)
    ∷ ("loglevel", loglevel)
    ∷ ("databases", databases)
    ∷ []

abbrev ends_word : ℕ → Bool
ends_word c = c == b' ' || c == b'\n' || c == 0

abbrev pub ends_line : ℕ → Bool
ends_line c = c == b'\n' || c == 0

abbrev pub in_word : ℕ → Bool
in_word c = not (ends_word c)

abbrev pub in_line : ℕ → Bool
in_line c = not (ends_line c)

abbrev pub is_blank : ℕ → Bool
is_blank c = is_space c || c == b'\r' || c == b'\n'

abbrev pub in_address : ℕ → Bool
in_address c = is_digit c || c == b'.'

unfoldable pub read_string : Parser → List ℕ × Parser
unfolding span
read_string p = span in_word p

unfoldable pub skip_whitespace : Parser → Parser
unfolding span
skip_whitespace p = (span is_blank p).1

unfoldable pub skip_comment : Parser → Parser
unfolding span
skip_comment p = (span in_line p).1

unfoldable pub skip_empty_lines_and_comments : ℕ → Parser → Option Parser
unfolding skip_comment skip_whitespace
skip_empty_lines_and_comments zero p = none
skip_empty_lines_and_comments (suc fuel) p =
    let after_comment = skip_empty_lines_and_comments fuel (skip_comment p) in
    let after_lines = skip_empty_lines_and_comments fuel (skip_whitespace p) in
    if p.ch == b'#' then after_comment else if p.ch == b'\n' then after_lines else some p

unfoldable pub lookup_in : List (String × LineDataType) → List ℕ → Result LineDataType
unfolding is_name
lookup_in [] s = err (codes "unknown data type: " ++ s)
lookup_in ((name, type) ∷ more) s =
    let rest = lookup_in more s in if is_name s name then ok type else rest

unfoldable pub parse_line_data_type : Parser → Result LineDataType × Parser
unfolding lookup_in read_string
parse_line_data_type p = let (s, q) = read_string p in (lookup_in lookups s, q)

-- the loop of `parse_user`, on the user so far
unfoldable pub user_loop : ℕ → User → Parser → Option (Result User × Parser)
unfolding read_string skip_spaces read_char
user_loop zero u p = none
user_loop (suc fuel) u p =
    let (password, q) = read_string (read_char p) in
    let more = user_loop fuel (record u { password = password }) (skip_spaces q) in
    if ends_line p.ch
    then some (ok u, p)
    else if p.ch == b'>'
    then more
    else some (err (codes "unexpected character when parsing user '" ++ p.ch ∷ codes "'"), p)

unfoldable pub parse_user : ℕ → Parser → Option (Result User × Parser)
unfolding user_loop read_string skip_spaces
parse_user fuel p =
    let (name, q) = read_string p in
    user_loop fuel (record { name = name; password = [] }) (skip_spaces q)

-- The loop on digits is that of `parse_len`: it wraps around at 2^64.
unfoldable pub parse_num_databases : Parser → Result ℕ × Parser
unfolding parse_len skip_spaces
parse_num_databases p =
    let (num, q) = parse_len p in
    let r = skip_spaces q in
    (if ends_line r.ch then ok num else err (codes "expected only the number of databases"), r)

unfoldable pub parse_port : Parser → Result ℕ × Parser
unfolding parse_len skip_spaces
parse_port p =
    let (num, q) = parse_len p in
    let r = skip_spaces q in
    (
      if ends_line r.ch
          then (if ltb 65535 num
              then err (decimal num ++ codes " is too big to be a port")
              else ok num)
          else err (codes "expected only the number of databases"),
      r,
    )

-- Where more follows on the line, the string is freed, which leaves it empty, and returned.
abbrev pub alone : List ℕ × Parser → List ℕ × Parser
alone (s, q) = let r = skip_spaces q in (if ends_line r.ch then s else [], r)

unfoldable pub parse_address : Parser → List ℕ × Parser
unfolding span skip_spaces
parse_address p = alone (span in_address p)

unfoldable pub parse_log_level : Parser → List ℕ × Parser
unfolding read_string skip_spaces
parse_log_level p = alone (read_string p)

abbrev pub line_of : {A : Type 0} → (A → LineData) → Result A × Parser → Result LineData × Parser
line_of make (ok a, p) = (ok (make a), p)
line_of make (err e, p) = (err e, p)

abbrev pub line_of? :
    {A : Type 0} → (A → LineData) → Option (Result A × Parser) → Option (Result LineData × Parser)
line_of? make none = none
line_of? make (some r) = some (line_of make r)

unfoldable pub parse_line_data :
    ℕ → Result LineDataType × Parser → Option (Result LineData × Parser)
unfolding parse_address parse_log_level parse_port parse_user parse_num_databases skip_spaces
parse_line_data fuel (err e, p) = some (err e, p)
parse_line_data fuel (ok address, p) =
    let (s, q) = parse_address (skip_spaces p) in some (ok (address_line s), q)
parse_line_data fuel (ok loglevel, p) =
    let (s, q) = parse_log_level (skip_spaces p) in some (ok (loglevel_line s), q)
parse_line_data fuel (ok port, p) = some (line_of (λ n. port_line n) (parse_port (skip_spaces p)))
parse_line_data fuel (ok user, p) = line_of? (λ u. user_line u) (parse_user fuel (skip_spaces p))
parse_line_data fuel (ok databases, p) =
    some (line_of (λ n. databases_line n) (parse_num_databases (skip_spaces p)))

unfoldable pub parse_line : ℕ → Parser → Option (Result LineData × Parser)
unfolding parse_line_data parse_line_data_type
parse_line fuel p = parse_line_data fuel (parse_line_data_type p)

-- The struct all of whose bytes are 0: a string in it counts as 23 bytes of 0, for `small_avail` is 0.
abbrev pub no_user : User
no_user = record { name = replicate 23 0; password = replicate 23 0 }

abbrev pub push_or_keep : Vec User → Option (Vec User) → Vec User
push_or_keep v none = v
push_or_keep v (some w) = w

-- the switch of `config_parser_parse`; what vec_push answers is not looked at
unfoldable pub store_line : (ℕ → Bool) → Config → LineData → Result Config
store_line realloc c (address_line s) =
    if length c.address == 0
    then ok (record c { address = s })
    else err (codes "address set twice in config")
store_line realloc c (loglevel_line s) =
    if length c.loglevel == 0
    then ok (record c { loglevel = s })
    else err (codes "loglevel set twice in config")
store_line realloc c (port_line n) =
    if c.port == 0 then ok (record c { port = n }) else err (codes "port set twice in config")
store_line realloc c (user_line u) =
    ok (record c { users = push_or_keep c.users (push no_user realloc c.users u) })
store_line realloc c (databases_line n) =
    if c.databases == 0
    then ok (record c { databases = n })
    else err (codes "number of databases set twice in config")

abbrev pub and_skipped {ℓ} : {A : Type ℓ} → Option Parser → (Parser → Option A) → Option A
and_skipped none next = none
and_skipped (some p) next = next p

abbrev pub and_stored : Result Config → (Config → Option (Result Config)) → Option (Result Config)
and_stored (err e) next = some (err e)
and_stored (ok c) next = next c

abbrev pub and_line :
    Option (Result LineData × Parser)
    → (LineData → Parser → Option (Result Config))
    → Option (Result Config)
and_line none next = none
and_line (some (err e, p)) next = some (err e)
and_line (some (ok d, p)) next = next d p

-- the loop of `config_parser_parse`; the lines of a round have as much fuel as it
unfoldable pub parse_loop : (ℕ → Bool) → ℕ → Config → Parser → Option (Result Config)
unfolding skip_empty_lines_and_comments parse_line store_line
parse_loop realloc zero c p = none
parse_loop realloc (suc fuel) c p =
    if p.ch == 0
    then some (ok c)
    else and_skipped (skip_empty_lines_and_comments (suc fuel) p) (λ q.
      if q.ch == 0
      then some (ok c)
      else and_line (parse_line (suc fuel) q)
          (λ d r. and_stored (store_line realloc c d) (λ c'. parse_loop realloc fuel c' r)))

-- `config_new`, with the vector that vec_new gives
unfoldable pub config_new : Vec User → Config
config_new users = record { port = 0; databases = 0; address = []; users = users; loglevel = [] }

unfoldable pub parse_config : (ℕ → Bool) → Vec User → List ℕ → Option (Result Config)
unfolding parse_loop config_new parser_new
parse_config realloc users input =
    parse_loop realloc (length input + 1) (config_new users) (parser_new input)

-- A declaration that opens this name opens the whole parser, so that it computes.
unfoldable pub config_program : Unit {0}
unfolding parse_config parser_new config_new parse_loop store_line parse_line parse_line_data
    parse_line_data_type lookup_in is_name memcmp_zero parse_address parse_log_level parse_port
    parse_num_databases parse_user user_loop parse_len len_loop skip_empty_lines_and_comments
    skip_comment skip_whitespace skip_spaces read_string read_char span span_loop push vec_realloc
    append
config_program = tt
