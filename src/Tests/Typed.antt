-- ===== src/Tests/Typed.antt =====
-- Lines as a user types them.
use lexidb.Base.{ℕ, ◌≡◌, refl, [], ◌∷◌, codes, arith}
use lexidb.Base.Int.{pos, negsuc}
use lexidb.Cmd.{set, two, no_cmd}
use lexidb.Hilexi.Calls.{Call, to_set, command}
use lexidb.LineParser.{parse_line, line_program}
use lexidb.LineParser.Calls.{typed_line, parse_line-typed_line}
use lexidb.Object.{null, int, string}
use lexidb.Tests.Platform.{libc}

-- set "a \"b" -7
abbrev typed_set : Call ℕ
typed_set = to_set (string (codes "a \"b")) (int (negsuc 6))

parse_line-typed_line_example : parse_line (typed_line typed_set) ≡ command libc typed_set
parse_line-typed_line_example =
    parse_line-typed_line libc typed_set ((refl, (refl, (refl, (refl, tt)))), omega arith)

bare_words :
    parse_line {D = ℕ} (codes "  SET key 12")
    ≡ record { type = set; args = two (string (codes "key")) (int (pos 12)) }
unfolding line_program
bare_words = refl

-- A SET without a value has NULL for it.
no_value :
    parse_line {D = ℕ} (codes "set key")
    ≡ record { type = set; args = two (string (codes "key")) null }
unfolding line_program
no_value = refl

-- A backslash in front of an n cannot be typed.
no_backslash :
    parse_line {D = ℕ} (codes "set \"\\\\n\" 1")
    ≡ record { type = set; args = two (string (92 ∷ 10 ∷ [])) (int (pos 1)) }
unfolding line_program
no_backslash = refl

no_number : parse_line {D = ℕ} (codes "select one") ≡ no_cmd
unfolding line_program
no_number = refl
