-- ===== src/ConfigParser/Reads.antt =====
-- src/config_parser.c: the parser on the text of a configuration.
use lexidb.Base.{
  ℕ, zero, suc, ◌+◌, ◌<◌, ◌≤◌, ◌≡◌, refl, sym, ◌∙◌, ap, Bool, false, List, [], ◌∷◌, ◌++◌, length,
  length-append, arith, All, ◌==◌, Option, some, if◌then◌else◌,
}
use lexidb.ConfigParser.{
  LineData, address_line, loglevel_line, port_line, databases_line, user_line, Config, Result, ok,
  err, skip_empty_lines_and_comments, parse_line, store_line, and_line, and_stored, parse_loop,
  parse_config, config_new,
}
use lexidb.ConfigParser.Lines.{Line, blank, comment, setting, directive, text_of, IsLine, store_all}
use lexidb.ConfigParser.Skips.{first_setting, skip-Skips}
use lexidb.ConfigParser.Text.{behind, parse_setting}
use lexidb.Parser.Scan.{Parser, at, parser_new, read_char}
use lexidb.Server.{User}
use lexidb.Vec.{Vec}

module _ (realloc : ℕ → Bool) where
  -- a round of the loop, from the setting on
  abbrev round : ℕ → Config → Parser → Option (Result Config)
  round fuel c q =
      if q.ch == 0
      then some (ok c)
      else and_line (parse_line (suc fuel) q)
          (λ d r. and_stored (store_line realloc c d) (λ c'. parse_loop realloc fuel c' r))

  parse_loop-skip :
      (fuel : ℕ) (c : Config) (p q : Parser)
      → p.ch == 0 ≡ false
      → skip_empty_lines_and_comments (suc fuel) p ≡ some q
      → parse_loop realloc (suc fuel) c p ≡ round fuel c q
  unfolding parse_loop
  parse_loop-skip fuel c p q text skipped = rw (text, skipped) refl

  store_all_err : (e : List ℕ) (ls : List Line) → store_all realloc (err e) ls ≡ err e
  store_all_err e [] = refl
  store_all_err e (blank ∷ ls) = store_all_err e ls
  store_all_err e (comment s ∷ ls) = store_all_err e ls
  store_all_err e (setting d ∷ ls) = store_all_err e ls

  length-directive : (d : LineData) → 1 ≤ length (directive d)
  length-directive (address_line s) = omega arith
  length-directive (loglevel_line s) = omega arith
  length-directive (port_line n) = omega arith
  length-directive (databases_line n) = omega arith
  length-directive (user_line u) = omega arith

  directive_text : (d : LineData) (xs : List ℕ) → (at (directive d ++ xs)).ch == 0 ≡ false
  directive_text (address_line s) xs = refl
  directive_text (loglevel_line s) xs = refl
  directive_text (port_line n) xs = refl
  directive_text (databases_line n) xs = refl
  directive_text (user_line u) xs = refl

  -- what the round from the first setting of the lines on comes to
  abbrev Rounds : List Line → Type 0
  Rounds ls =
      (fuel : ℕ) (c : Config)
      → length (text_of ls) < suc fuel
      → round fuel c (at (text_of (first_setting ls))) ≡ some (store_all realloc (ok c) ls)

  -- what is left of the loop when a setting has been stored
  stored-lines :
      (ls : List Line) (fuel : ℕ) (r : Result Config)
      → All IsLine ls
      → length (text_of ls) + 1 < fuel
      → Rounds ls
      → and_stored r (λ c'. parse_loop realloc fuel c' (behind (text_of ls)))
        ≡ some (store_all realloc r ls)
  stored-lines ls fuel (err e) well h more = ap (λ r. some r) (sym (store_all_err e ls))
  stored-lines ls zero (ok c) well h more = absurd (omega arith)
  stored-lines ls (suc fuel) (ok c) well h more =
      parse_loop-skip fuel c (behind (text_of ls)) (at (text_of (first_setting ls))) refl
        ((skip-Skips ls (suc fuel) well).1 h)
      ∙ more fuel c (omega (arith, h))

  round-lines : (ls : List Line) → All IsLine ls → Rounds ls
  round-lines [] well fuel c h = refl
  round-lines (blank ∷ ls) well fuel c h = round-lines ls well.1 fuel c (omega (arith, h))
  round-lines (comment s ∷ ls) well fuel c h =
      round-lines ls well.1 fuel c (omega (arith, h, length-append s (b'\n' ∷ text_of ls)))
  round-lines (setting d ∷ ls) well fuel c h =
      let long = length-append (directive d) (b'\n' ∷ text_of ls) in
      let more = round-lines ls well.1 in
      rw
        (
          directive_text d (b'\n' ∷ text_of ls),
          parse_setting (suc fuel) d (text_of ls) (omega (arith, h, long, length-directive d))
              well.0,
        )
        (stored-lines ls fuel (store_line realloc c d) well.1
          (omega (arith, h, long, length-directive d)) more)

  first_text : (l : Line) (ls : List Line) → (at (text_of (l ∷ ls))).ch == 0 ≡ false
  first_text blank ls = refl
  first_text (comment s) ls = refl
  first_text (setting d) ls = directive_text d (b'\n' ∷ text_of ls)

  parse_loop-text :
      (ls : List Line) (fuel : ℕ) (c : Config)
      → All IsLine ls
      → length (text_of ls) < fuel
      → parse_loop realloc fuel c (at (text_of ls)) ≡ some (store_all realloc (ok c) ls)
  parse_loop-text ls zero c well h = absurd (omega arith)
  parse_loop-text [] (suc fuel) c well h = unfold parse_loop in refl
  parse_loop-text (l ∷ ls) (suc fuel) c well h =
      parse_loop-skip fuel c (at (text_of (l ∷ ls))) (at (text_of (first_setting (l ∷ ls))))
        (first_text l ls) ((skip-Skips (l ∷ ls) (suc fuel) well).0 h)
      ∙ round-lines (l ∷ ls) well fuel c h

  -- The text of a configuration of any lines, each empty, a comment or a setting whose address has
  -- digits and points only, whose words have no space, tab or end of line, whose user has a name,
  -- and whose port and number of databases fit 16 and 64 bits, is parsed as the settings stored one
  -- after the other, up to the first that is refused.
  pub parse_config-text_of :
      (users : Vec User) (ls : List Line)
      → All IsLine ls
      → parse_config realloc users (text_of ls)
        ≡ some (store_all realloc (ok (config_new users)) ls)
  unfolding parse_config parser_new read_char
  parse_config-text_of users ls well =
      parse_loop-text ls (length (text_of ls) + 1) (config_new users) well (omega arith)
