-- ===== src/ConfigParser/Lines.antt =====
-- src/config_parser.c: the text of a configuration, and the settings that it stands for.
use lexidb.Base.{ℕ, ◌<◌, ◌≡◌, ◌^◌, Bool, true, false, List, [], ◌∷◌, ◌++◌, length, All, ◌==◌, codes}
use lexidb.Base.Decimal.{decimal}
use lexidb.ConfigParser.{
  LineData, address_line, loglevel_line, port_line, databases_line, user_line, Config, Result, ok,
  err, in_word, in_line, in_address, store_line,
}

pub data Line : Type 0 where
  blank : Line
  comment : List ℕ → Line
  setting : LineData → Line

abbrev pub directive : LineData → List ℕ
directive (address_line s) = codes "address " ++ s
directive (loglevel_line s) = codes "loglevel " ++ s
directive (port_line n) = codes "port " ++ decimal n
directive (databases_line n) = codes "databases " ++ decimal n
directive (user_line u) = codes "user " ++ (u.name ++ b' ' ∷ b'>' ∷ u.password)

abbrev pub text_of : List Line → List ℕ
text_of [] = []
text_of (blank ∷ ls) = b'\n' ∷ text_of ls
text_of (comment s ∷ ls) = b'#' ∷ (s ++ b'\n' ∷ text_of ls)
text_of (setting d ∷ ls) = directive d ++ b'\n' ∷ text_of ls

-- a word: no space, tab or end of line in it
abbrev pub is_word_char : ℕ → Bool
is_word_char c = elim (c == b'\t') [ true ↦ false | false ↦ in_word c ]

abbrev pub IsWord : List ℕ → Type 0
IsWord = All (λ c. is_word_char c ≡ true)

-- what the settings may hold
abbrev pub IsSetting : LineData → Type 0
IsSetting (address_line s) = All (λ c. in_address c ≡ true) s
IsSetting (loglevel_line s) = IsWord s
IsSetting (port_line n) = n < 2 ^ 16
IsSetting (databases_line n) = n < 2 ^ 64
IsSetting (user_line u) = (0 < length u.name) × IsWord u.name × IsWord u.password

abbrev pub IsLine : Line → Type 0
IsLine blank = Unit
IsLine (comment s) = All (λ c. in_line c ≡ true) s
IsLine (setting d) = IsSetting d

-- the settings of a text, one after the other, up to the first that is refused
abbrev pub store_from : (ℕ → Bool) → Result Config → LineData → Result Config
store_from realloc (ok c) d = store_line realloc c d
store_from realloc (err e) d = err e

abbrev pub store_all : (ℕ → Bool) → Result Config → List Line → Result Config
store_all realloc r [] = r
store_all realloc r (blank ∷ ls) = store_all realloc r ls
store_all realloc r (comment s ∷ ls) = store_all realloc r ls
store_all realloc r (setting d ∷ ls) = store_all realloc (store_from realloc r d) ls
