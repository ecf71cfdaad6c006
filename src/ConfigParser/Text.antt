-- ===== src/ConfigParser/Text.antt =====
-- src/config_parser.c: the lines of a configuration's text are read as the settings that they stand for.
use lexidb.Base.{
  ℕ, ltb, zero, suc, ◌+◌, ◌<◌, ◌≡◌, refl, ◌∙◌, ap, Bool, ◌&&◌, true, false, List, [], ◌∷◌, ◌++◌,
  length, arith, Bool-cases, inl, inr, All, some, codes, append_assoc,
}
use lexidb.Base.Decimal.{decimal}
use lexidb.Chars.Laws.{NoSpace, skip_spaces-none, skip_spaces-one, span-text}
use lexidb.ConfigParser.{
  LineData, address_line, loglevel_line, port_line, databases_line, user_line, ok, in_word,
  in_address, read_string, lookup_in, lookups, parse_line_data_type, parse_line_data, parse_line,
  user_loop, parse_user, parse_num_databases, parse_port, parse_address, parse_log_level,
}
use lexidb.ConfigParser.Lines.{directive, is_word_char, IsWord, IsSetting}
use lexidb.Parser.Scan.{Parser, at, read_char}
use lexidb.Protocol.Lines.{digits_of_head}
use lexidb.Protocol.Numbers.{parse_len-decimal}
use lexidb.Server.{User}

in_word-IsWord : (s : List ℕ) → IsWord s → All (λ c. in_word c ≡ true) s
in_word-IsWord [] h = tt
in_word-IsWord (c ∷ s) h = (ground arith, in_word-IsWord s h.1)

abbrev all_word : List ℕ → Bool
all_word [] = true
all_word (c ∷ s) = is_word_char c && all_word s

IsWord-all_word : (s : List ℕ) → all_word s ≡ true → IsWord s
IsWord-all_word [] h = tt
IsWord-all_word (c ∷ s) h = elim (Bool-cases (is_word_char c)) [
  | inl word ↦ (word, IsWord-all_word s (rw word at h))
  | inr other ↦ absurd (ground (arith, h, other))
]

NoSpace-IsWord : (s xs : List ℕ) → IsWord s → NoSpace xs → NoSpace (s ++ xs)
NoSpace-IsWord [] xs h e = e
NoSpace-IsWord (c ∷ s) xs h e = ground arith

NoSpace-named : (s xs : List ℕ) → 0 < length s → IsWord s → NoSpace (s ++ xs)
NoSpace-named [] xs h w = absurd (omega arith)
NoSpace-named (c ∷ s) xs h w = ground arith

NoSpace-in_address :
    (s xs : List ℕ) → All (λ c. in_address c ≡ true) s → NoSpace xs → NoSpace (s ++ xs)
NoSpace-in_address [] xs h e = e
NoSpace-in_address (c ∷ s) xs h e = ground arith

NoSpace-decimal : (n : ℕ) (xs : List ℕ) → NoSpace (decimal n ++ xs)
unfolding decimal
NoSpace-decimal n xs =
    let (d, ds, e, g) = digits_of_head (n + 1) n (omega arith) in rw e (ground arith)

read_string-word :
    (s xs : List ℕ)
    → IsWord s
    → in_word (at xs).ch ≡ false
    → read_string (at (s ++ xs)) ≡ (s, at xs)
unfolding read_string
read_string-word s xs h e = span-text in_word refl s xs (in_word-IsWord s h) e

-- the name of a setting
parse_line_data_type-name :
    (name xs : List ℕ)
    → all_word name ≡ true
    → parse_line_data_type (at (name ++ b' ' ∷ xs)) ≡ (lookup_in lookups name, at (b' ' ∷ xs))
unfolding parse_line_data_type
parse_line_data_type-name name xs h =
    rw (read_string-word name (b' ' ∷ xs) (IsWord-all_word name h) refl) refl

-- the end of a setting's line
abbrev pub behind : List ℕ → Parser
behind xs = at (b'\n' ∷ xs)

user_loop-password :
    (fuel : ℕ) (name password xs : List ℕ)
    → IsWord password
    → user_loop
        (suc (suc fuel))
        (record { name = name; password = [] })
        (at (b'>' ∷ (password ++ b'\n' ∷ xs)))
      ≡ some (ok (record { name = name; password = password }), behind xs)
unfolding user_loop read_char
user_loop-password fuel name password xs h =
    rw (read_string-word password (b'\n' ∷ xs) h refl, skip_spaces-none (b'\n' ∷ xs) refl) refl

parse_user_line :
    (fuel : ℕ) (u : User) (xs : List ℕ)
    → 0 < length u.name
    → IsWord u.name
    → IsWord u.password
    → parse_line
        (suc (suc fuel))
        (at (codes "user " ++ (u.name ++ b' ' ∷ b'>' ∷ (u.password ++ b'\n' ∷ xs))))
      ≡ some (ok (user_line u), behind xs)
unfolding parse_line parse_line_data lookup_in parse_user
parse_user_line fuel u xs named name password =
    let rest = b' ' ∷ b'>' ∷ (u.password ++ b'\n' ∷ xs) in
    rw
      (
        parse_line_data_type-name (codes "user") (u.name ++ rest) refl,
        skip_spaces-one (u.name ++ rest) (NoSpace-named u.name rest named name),
        read_string-word u.name rest name refl,
        skip_spaces-one (b'>' ∷ (u.password ++ b'\n' ∷ xs)) refl,
        user_loop-password fuel u.name u.password xs password,
      )
      refl

pub parse_setting :
    (fuel : ℕ) (d : LineData) (xs : List ℕ)
    → 1 < fuel
    → IsSetting d
    → parse_line fuel (at (directive d ++ b'\n' ∷ xs)) ≡ some (ok d, behind xs)
unfolding parse_line parse_line_data lookup_in parse_address parse_log_level parse_port
    parse_num_databases parse_user
parse_setting fuel (address_line s) xs h fits =
    rw
      (
        parse_line_data_type-name (codes "address") (s ++ b'\n' ∷ xs) refl,
        skip_spaces-one (s ++ b'\n' ∷ xs) (NoSpace-in_address s (b'\n' ∷ xs) fits refl),
        span-text in_address refl s (b'\n' ∷ xs) fits refl,
        skip_spaces-none (b'\n' ∷ xs) refl,
      )
      refl
parse_setting fuel (loglevel_line s) xs h fits =
    rw
      (
        parse_line_data_type-name (codes "loglevel") (s ++ b'\n' ∷ xs) refl,
        skip_spaces-one (s ++ b'\n' ∷ xs) (NoSpace-IsWord s (b'\n' ∷ xs) fits refl),
        read_string-word s (b'\n' ∷ xs) fits refl,
        skip_spaces-none (b'\n' ∷ xs) refl,
      )
      refl
parse_setting fuel (port_line n) xs h fits =
    let small : ltb 65535 n ≡ false = ground arith in
    rw
      (
        parse_line_data_type-name (codes "port") (decimal n ++ b'\n' ∷ xs) refl,
        skip_spaces-one (decimal n ++ b'\n' ∷ xs) (NoSpace-decimal n (b'\n' ∷ xs)),
        parse_len-decimal n b'\n' xs (omega arith) refl,
        skip_spaces-none (b'\n' ∷ xs) refl,
        small,
      )
      refl
parse_setting fuel (databases_line n) xs h fits =
    rw
      (
        parse_line_data_type-name (codes "databases") (decimal n ++ b'\n' ∷ xs) refl,
        skip_spaces-one (decimal n ++ b'\n' ∷ xs) (NoSpace-decimal n (b'\n' ∷ xs)),
        parse_len-decimal n b'\n' xs fits refl,
        skip_spaces-none (b'\n' ∷ xs) refl,
      )
      refl
parse_setting zero (user_line u) xs h fits = absurd (omega arith)
parse_setting (suc zero) (user_line u) xs h fits = absurd (omega arith)
parse_setting (suc (suc fuel)) (user_line u) xs h (named, name, password) =
    ap (λ ys. parse_line (suc (suc fuel)) (at (codes "user " ++ ys)))
      (append_assoc u.name (b' ' ∷ b'>' ∷ u.password) (b'\n' ∷ xs))
    ∙ parse_user_line fuel u xs named name password
