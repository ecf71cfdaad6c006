-- ===== src/Clap.antt =====
-- src/clap.h, src/clap.c: the arguments that a program takes, and the parser of its command line. An
-- argument of argv is its bytes before the terminator. A string made from one has the memory it needs.
-- `atoll` is the C library's.
pub mod Reads
pub mod Names
pub mod Help
pub mod Table
use lexidb.Auth.{strncmp_zero}
use lexidb.Base.{
  ℕ, Bool, true, false, ◌||◌, List, [], ◌∷◌, ◌++◌, Option, none, some, codes, length, ◌==◌,
  if◌then◌else◌,
}
use lexidb.Base.Int.{ℤ, pos, negsuc}
use lexidb.Ht
use lexidb.Ht.{Ht, HtResult, ht_ok, ht_inv_key, ht_oom}
use lexidb.Keys.{KeyOps, memcmp_zero}
use lexidb.Memory.{Memory}
use lexidb.Object.{Object, int, string}
use lexidb.Vec.{Vec, find, push}

-- `objectt`
pub data Objectt : Type 0 where
  null_arg int_arg double_arg bool_arg string_arg array_arg ht_arg : Objectt

-- The flags tell which strings were given.
pub record Arg : Type 0 where
  pub name : List ℕ
  pub short_arg : List ℕ
  pub long_arg : List ℕ
  pub description : List ℕ
  pub type : Objectt
  pub has_short : Bool
  pub has_long : Bool
  pub has_description : Bool

-- an argument all of whose bytes are 0
abbrev pub blank_arg : Arg
blank_arg = record {
  name = [];
  short_arg = [];
  long_arg = [];
  description = [];
  type = null_arg;
  has_short = false;
  has_long = false;
  has_description = false;
}

-- `vstr_from`, or an empty string for a null pointer
abbrev pub given : Option (List ℕ) → List ℕ
given none = []
given (some s) = s

abbrev pub is_given : Option (List ℕ) → Bool
is_given none = false
is_given (some s) = true

unfoldable pub arg_new :
    List ℕ → Option (List ℕ) → Option (List ℕ) → Option (List ℕ) → Objectt → Arg
arg_new name short long description type = record {
  name = name;
  short_arg = given short;
  long_arg = given long;
  description = given description;
  type = type;
  has_short = is_given short;
  has_long = is_given long;
  has_description = is_given description;
}

-- the vector, or `none` for -1
unfoldable pub args_add :
    (ℕ → Bool)
    → Vec Arg
    → List ℕ
    → Option (List ℕ)
    → Option (List ℕ)
    → Option (List ℕ)
    → Objectt
    → Option (Vec Arg)
unfolding arg_new push
args_add realloc args name none none description type = none
args_add realloc args name (some s) long description type =
    push blank_arg realloc args (arg_new name (some s) long description type)
args_add realloc args name none (some l) description type =
    push blank_arg realloc args (arg_new name none (some l) description type)

-- whether `find_arg_fn` gives 0
unfoldable pub find_arg_fn : List ℕ → Arg → Bool
find_arg_fn word arg =
    if length arg.long_arg == length word
    then strncmp_zero arg.long_arg word
    else if length arg.short_arg == length word
    then strncmp_zero arg.short_arg word
    else false

-- `strncmp(word, s, strlen(s)) == 0`
abbrev pub starts_with : List ℕ → List ℕ → Bool
starts_with word s = memcmp_zero s word

abbrev pub is_help : List ℕ → Bool
is_help word = starts_with word (codes "--help") || starts_with word (codes "-h")

abbrev pub is_version : List ℕ → Bool
is_version word = starts_with word (codes "--version") || starts_with word (codes "-v")

pub record Cla (D : Type 0) : Type 0 where
  pub help_requested : Bool
  pub version_requested : Bool
  pub has_error : Bool
  pub error : List ℕ
  pub args : Ht (List ℕ) (Object D)

-- what `parse_args` returns: 0, HELP_REQUESTED, VERSION_REQUESTED or CLA_ERROR
pub data ParseResult : Type 0 where
  done help_asked version_asked cla_error : ParseResult

-- the numbers of the enumeration
abbrev pub ht_result_code : HtResult → ℤ
ht_result_code ht_ok = pos 0
ht_result_code ht_inv_key = pos 1
ht_result_code ht_oom = pos 2

abbrev pub is_minus_one : ℤ → Bool
is_minus_one (pos n) = false
is_minus_one (negsuc n) = n == 0

-- a table with no key_cmp
abbrev pub text_keys : (List ℕ → ℕ) → KeyOps (List ℕ)
text_keys siphash = record { bytes = λ k. k; siphash = siphash; key_cmp = none }

module _ {D : Type 0} (siphash : List ℕ → ℕ) (m : Memory) (atoll : List ℕ → ℤ) where
  abbrev pub failed : Cla D → List ℕ → ParseResult × Cla D
  failed c error = (cla_error, record c { error = error })

  -- the value of an argument, after `ht_try_insert`
  abbrev pub and_inserted :
      Cla D
      → List ℕ
      → Ht (List ℕ) (Object D) × HtResult
      → (Cla D → ParseResult × Cla D)
      → ParseResult × Cla D
  and_inserted c word (t, r) next =
      if is_minus_one (ht_result_code r)
      then failed (record c { args = t })
          (codes "failed to insert " ++ word ++ codes " into args table")
      else next (record c { args = t })

  unfoldable pub store_arg :
      Cla D → List ℕ → Arg → Object D → (Cla D → ParseResult × Cla D) → ParseResult × Cla D
  store_arg c word arg value next =
      and_inserted c word (Ht.try_insert (text_keys siphash) m c.args arg.name value) next

  -- the case of an argument that was found, where `value` is the next of argv, if there is one
  unfoldable pub take_arg :
      Cla D
      → List ℕ
      → Option (List ℕ)
      → Arg
      → Objectt
      → (Cla D → ParseResult × Cla D)
      → (Cla D → ParseResult × Cla D)
      → ParseResult × Cla D
  unfolding store_arg
  take_arg c word value arg null_arg at_next behind_next = at_next c
  take_arg c word none arg int_arg at_next behind_next =
      failed c (word ++ codes " requires an argument of type int")
  take_arg c word (some s) arg int_arg at_next behind_next =
      store_arg c word arg (int (atoll s)) behind_next
  take_arg c word none arg string_arg at_next behind_next =
      failed c (word ++ codes " requires an argument of type string")
  take_arg c word (some s) arg string_arg at_next behind_next =
      store_arg c word arg (string s) behind_next
  take_arg c word value arg type at_next behind_next = (cla_error, c)

  abbrev pub and_found :
      Cla D → List ℕ → Option (ℕ × Arg) → (Arg → ParseResult × Cla D) → ParseResult × Cla D
  and_found c word none next = failed c (codes "unkown argument " ++ word)
  and_found c word (some (i, arg)) next = next arg

  -- one round of the loop
  abbrev pub parse_arg :
      Vec Arg
      → Cla D
      → List ℕ
      → Option (List ℕ)
      → (Cla D → ParseResult × Cla D)
      → (Cla D → ParseResult × Cla D)
      → ParseResult × Cla D
  parse_arg args c word value at_next behind_next =
      if is_help word
      then (help_asked, c)
      else if is_version word
      then (version_asked, c)
      else and_found c word (find (find_arg_fn word) args)
          (λ arg. take_arg c word value arg arg.type at_next behind_next)

  -- the loop of `parse_args`, over argv from `i` on
  unfoldable pub parse_args : Vec Arg → List (List ℕ) → Cla D → ParseResult × Cla D
  unfolding take_arg find_arg_fn find memcmp_zero
  parse_args args [] c = (done, c)
  parse_args args (word ∷ []) c = parse_arg args c word none (λ c. (done, c)) (λ c. (done, c))
  parse_args args (word ∷ s ∷ rest) c =
      parse_arg args c word (some s) (λ c. parse_args args (s ∷ rest) c)
        (λ c. parse_args args rest c)

  abbrev pub with_result : ParseResult × Cla D → Cla D
  with_result (done, c) = c
  with_result (help_asked, c) = record c { help_requested = true }
  with_result (version_asked, c) = record c { version_requested = true }
  with_result (cla_error, c) = record c { has_error = true }

  -- The help page is for `Help.show_help`.
  unfoldable pub parse_cmd_line_args : Vec Arg → List (List ℕ) → Cla D
  unfolding parse_args
  parse_cmd_line_args args words = with_result (
      parse_args args words (record {
        help_requested = false;
        version_requested = false;
        has_error = false;
        error = [];
        args = Ht.new;
      }))

  unfoldable pub args_get : Cla D → List ℕ → Option (Object D)
  args_get c name = Ht.get (text_keys siphash) c.args name
