-- ===== src/Clap/Help/Aligned.antt =====
-- src/clap.c: where the descriptions of the help page stand.
use lexidb.Base.{
  ℕ, zero, suc, ◌+◌, ◌-◌, ◌^◌, ◌≤◌, ◌<◌, ◌≡◌, refl, ap, ◌∙◌, true, List, [], ◌∷◌, ◌++◌, some, codes,
  length, map, flatten, take, get_or, arith, length-append, length-replicate, append_assoc,
}
use lexidb.Clap.{Arg, blank_arg}
use lexidb.Clap.Help.{
  max, when, has_value, between, line_len, find_longest_help_line, cur_len, forms, padding,
  help_line, seen, usage, page, show_help,
}
use lexidb.Vec.{Vec}
use lexidb.Vec.Iter.{range, walk-iter_new}
use lexidb.Vec.Laws.{items}

-- a line of the page: what stands before the description, and the description
abbrev pub row : List ℕ × List ℕ → List ℕ
row (left, right) = codes "\t" ++ (left ++ (right ++ codes "\n"))

length-forms : (arg : Arg) → length (forms arg) + 1 ≡ cur_len arg
unfolding forms cur_len
length-forms arg =
    let long = when arg.has_long arg.long_arg in
    let short = when arg.has_short (arg.short_arg ++ codes " ") in
    let value = when (has_value arg.type) (codes "<" ++ arg.name ++ codes "> ") in
    ground (
      arith,
      length-append long (between arg ++ (short ++ value)),
      length-append (between arg) (short ++ value),
      length-append short value,
      length-append arg.short_arg (codes " "),
      length-append arg.name (codes "> "),
    )

cur_len-line_len : (arg : Arg) → cur_len arg ≤ line_len arg + 1
unfolding cur_len line_len
cur_len-line_len arg = ground arith

abbrev left : ℕ → Arg → List ℕ
left w arg = forms arg ++ padding (cur_len arg) (w + 1)

length-left : (w : ℕ) (arg : Arg) → line_len arg ≤ w → length (left w arg) ≡ w
length-left w arg fits =
    length-append (forms arg) _
    ∙ omega (
      arith,
      length-forms arg,
      cur_len-line_len arg,
      fits,
      length-replicate {A = ℕ} (w + 1 - cur_len arg) b' ',
    )

longest_grows : (longest : ℕ) (args : List Arg) → longest ≤ find_longest_help_line longest args
unfolding find_longest_help_line
longest_grows longest [] = omega arith
longest_grows longest (arg ∷ args) = ground (arith, longest_grows (max longest (line_len arg)) args)

map-range :
    (i n : ℕ) (xs ys : List Arg)
    → ((j : ℕ) → get_or xs (i + j) blank_arg ≡ get_or ys j blank_arg)
    → n ≤ length ys
    → map (λ j. get_or xs j blank_arg) (range i n) ≡ take n ys
map-range i zero xs ys same fits = refl
map-range i (suc n) xs [] same fits = absurd (omega arith)
map-range i (suc n) xs (y ∷ ys) same fits =
    let here : get_or xs i blank_arg ≡ y = ap (λ j. get_or xs j blank_arg) (omega arith) ∙ same 0 in
    let rest =
      map-range (suc i) n xs ys (λ j. ap (λ k. get_or xs k blank_arg) (omega arith) ∙ same (suc j))
        (omega arith) in
    rw (here, rest) refl

-- The lines are those of the arguments.
seen-items :
    (args : Vec Arg)
    → 0 < args.len
    → args.len < 2 ^ 63
    → args.len ≤ length args.slots
    → seen args ≡ some (items args)
unfolding seen
seen-items args some_in small fits = rw (walk-iter_new args some_in small) (
    ap (λ xs. some xs)
      (map-range 0 args.len args.slots args.slots
        (λ j. ap (λ k. get_or args.slots k blank_arg) (omega arith)) fits))

abbrev pub AllDescribed : List Arg → Type 0
AllDescribed [] = Unit
AllDescribed (arg ∷ args) = (arg.has_description ≡ true) × AllDescribed args

abbrev pub AllWide : ℕ → List (List ℕ × List ℕ) → Type 0
AllWide w [] = Unit
AllWide w (r ∷ rows) = (length r.0 ≡ w) × AllWide w rows

abbrev row_of : ℕ → Arg → List ℕ × List ℕ
row_of w arg = (left w arg, arg.description)

rows-AllWide :
    (w longest : ℕ) (args : List Arg)
    → find_longest_help_line longest args ≤ w
    → AllWide w (map (row_of w) args)
unfolding find_longest_help_line
rows-AllWide w longest [] fits = tt
rows-AllWide w longest (arg ∷ args) fits =
    let grown = longest_grows (max longest (line_len arg)) args in
    (
      length-left w arg (ground (arith, grown, fits)),
      rows-AllWide w (max longest (line_len arg)) args fits,
    )

help_line-row :
    (w : ℕ) (arg : Arg) → arg.has_description ≡ true → help_line w arg ≡ row (row_of w arg)
unfolding help_line
help_line-row w arg described = rw described (simp append_assoc)

help_lines-rows :
    (w : ℕ) (args : List Arg)
    → AllDescribed args
    → map (help_line w) args ≡ map row (map (row_of w) args)
help_lines-rows w [] all = refl
help_lines-rows w (arg ∷ args) (described, all) =
    rw (help_line-row w arg described, help_lines-rows w args all) refl

descriptions :
    (w : ℕ) (args : List Arg) → map (λ r. r.1) (map (row_of w) args) ≡ map (λ a. a.description) args
descriptions w [] = refl
descriptions w (arg ∷ args) = ap (λ ds. arg.description ∷ ds) (descriptions w args)

-- The page of a program is the usage and lines of one description each, of which every one stands in
-- the same column.
pub record IsAligned (program : List ℕ) (args : List Arg) (text : List ℕ) : Type 0 where
  pub column : ℕ
  pub rows : List (List ℕ × List ℕ)
  pub lines : text ≡ usage program ++ flatten (map row rows)
  pub aligned : AllWide column rows
  pub described :
      map (λ r. r.1) rows
      ≡ codes "show this page" ∷ codes "get the version" ∷ map (λ a. a.description) args

page-IsAligned :
    (w : ℕ) (program : List ℕ) (args : List Arg)
    → 13 ≤ w
    → find_longest_help_line 0 args ≤ w
    → AllDescribed args
    → IsAligned program args (page w program args)
page-IsAligned w program args wide fits all = record {
  column = w;
  rows =
      (codes "--help, -h" ++ padding 10 w, codes "show this page")
      ∷ (codes "--version, -v" ++ padding 13 w, codes "get the version")
      ∷ map (row_of w) args;
  lines = rw (help_lines-rows w args all) (simp append_assoc);
  aligned = (
    omega (arith, length-replicate {A = ℕ} (w - 10) b' '),
    (omega (arith, length-replicate {A = ℕ} (w - 13) b' '), rows-AllWide w 0 args fits),
  );
  described =
      ap (λ ds. codes "show this page" ∷ codes "get the version" ∷ ds) (descriptions w args);
}

-- The help page of a vector of arguments, 0 < n < 2^63, that all have a description, is printed,
-- and all its descriptions stand in one column.
pub show_help-IsAligned :
    (program : List ℕ) (args : Vec Arg)
    → 0 < args.len
    → args.len < 2 ^ 63
    → args.len ≤ length args.slots
    → AllDescribed (items args)
    → (text : List ℕ) × (show_help program args ≡ some text) × IsAligned program (items args) text
unfolding show_help
show_help-IsAligned program args some_in small fits all =
    let longest = find_longest_help_line 0 (items args) in
    (
      page (max longest 13) program (items args),
      rw (seen-items args some_in small fits) refl,
      page-IsAligned (max longest 13) program (items args) (ground arith) (ground arith) all,
    )
