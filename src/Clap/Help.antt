-- ===== src/Clap/Help.antt =====
-- src/clap.c: the help page, as the bytes that are printed.
pub mod Aligned
use lexidb.Base.{
  ℕ, ◌+◌, ◌-◌, suc, Bool, true, false, ◌&&◌, List, [], ◌∷◌, ◌++◌, Option, none, some, codes, length,
  map, flatten, get_or, replicate, ltb, if◌then◌else◌,
}
use lexidb.Clap.{Objectt, null_arg, Arg, blank_arg}
use lexidb.Vec.{Vec}
use lexidb.Vec.Iter.{iter_new, walk}

-- the macro, of two values
abbrev pub max : ℕ → ℕ → ℕ
max a b = if ltb b a then a else b

abbrev pub when {ℓ} : {A : Type ℓ} → Bool → List A → List A
when b xs = if b then xs else []

abbrev pub has_value : Objectt → Bool
has_value null_arg = false
has_value type = true

-- what stands between the forms of an argument, or behind the long one alone
abbrev pub between_len : Arg → ℕ
between_len arg = if arg.has_long && arg.has_short then 2 else if arg.has_long then 1 else 0

unfoldable pub line_len : Arg → ℕ
line_len arg =
    (if arg.has_long then length arg.long_arg else 0)
    + between_len arg
    + (if arg.has_short then length arg.short_arg else 0)
    + 1
    + (if has_value arg.type then 3 + length arg.name else 0)

-- the loop of `find_longest_help_line`
unfoldable pub find_longest_help_line : ℕ → List Arg → ℕ
unfolding line_len
find_longest_help_line longest [] = longest
find_longest_help_line longest (arg ∷ args) =
    find_longest_help_line (max longest (line_len arg)) args

-- `cur_len` before the description
unfoldable pub cur_len : Arg → ℕ
cur_len arg =
    (if arg.has_long then length arg.long_arg else 0)
    + between_len arg
    + (if arg.has_short then length arg.short_arg + 1 else 0)
    + 1
    + (if has_value arg.type then length arg.name + 3 else 0)

abbrev pub between : Arg → List ℕ
between arg =
    if arg.has_long && arg.has_short then codes ", " else if arg.has_long then codes " " else []

unfoldable pub forms : Arg → List ℕ
forms arg =
    when arg.has_long arg.long_arg
    ++ (between arg
        ++ (when arg.has_short (arg.short_arg ++ codes " ")
            ++ when (has_value arg.type) (codes "<" ++ arg.name ++ codes "> ")))

-- `for (i = len; i < longest; ++i) printf(" ")`
abbrev pub padding : ℕ → ℕ → List ℕ
padding len longest = replicate (longest - len) b' '

unfoldable pub help_line : ℕ → Arg → List ℕ
unfolding forms cur_len
help_line longest arg =
    codes "\t"
    ++ (forms arg
        ++ (if arg.has_description
            then padding (cur_len arg) (longest + 1) ++ arg.description ++ codes "\n"
            else codes "\n"))

-- the elements that a loop over a vector sees, or `none` where it does not end
unfoldable pub seen : Vec Arg → Option (List Arg)
unfolding iter_new walk
seen args = at_each (walk (suc args.len) (iter_new args))
  where
    at_each : Option (List ℕ) → Option (List Arg)
    at_each none = none
    at_each (some places) = some (map (λ i. get_or args.slots i blank_arg) places)

abbrev pub usage : List ℕ → List ℕ
usage program = codes "usage: " ++ program ++ codes " <options>\n"

abbrev pub help_usage : ℕ → List ℕ
help_usage longest = codes "\t--help, -h" ++ (padding 10 longest ++ codes "show this page\n")

abbrev pub version_usage : ℕ → List ℕ
version_usage longest = codes "\t--version, -v" ++ (padding 13 longest ++ codes "get the version\n")

abbrev pub page : ℕ → List ℕ → List Arg → List ℕ
page longest program args =
    usage program
    ++ flatten (help_usage longest ∷ version_usage longest ∷ map (help_line longest) args)

unfoldable pub show_help : List ℕ → Vec Arg → Option (List ℕ)
unfolding seen find_longest_help_line help_line
show_help program args = shown (seen args)
  where
    shown : Option (List Arg) → Option (List ℕ)
    shown none = none
    shown (some list) = some (page (max (find_longest_help_line 0 list) 13) program list)
