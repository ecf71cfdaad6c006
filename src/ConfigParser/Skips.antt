-- ===== src/ConfigParser/Skips.antt =====
-- src/config_parser.c: empty lines and comments are passed over, up to the next setting.
use lexidb.Base.{
  ℕ, zero, suc, ◌+◌, ◌<◌, ◌≡◌, refl, ◌∙◌, ap, true, false, List, [], ◌∷◌, ◌++◌, length,
  length-append, arith, All, ◌==◌, some,
}
use lexidb.Chars.{span, span_loop}
use lexidb.Chars.Laws.{span-text}
use lexidb.ConfigParser.{
  LineData, address_line, loglevel_line, port_line, databases_line, user_line, in_line, is_blank,
  skip_whitespace, skip_comment, skip_empty_lines_and_comments,
}
use lexidb.ConfigParser.Lines.{Line, blank, comment, setting, directive, text_of, IsLine}
use lexidb.ConfigParser.Text.{behind}
use lexidb.Parser.Scan.{at}

-- the lines from the first setting on
abbrev pub first_setting : List Line → List Line
first_setting [] = []
first_setting (blank ∷ ls) = first_setting ls
first_setting (comment s ∷ ls) = first_setting ls
first_setting (setting d ∷ ls) = setting d ∷ ls

-- neither blank nor a comment
abbrev Starts : List ℕ → Type 0
Starts xs = ((at xs).ch == b'#' ≡ false) × (is_blank (at xs).ch ≡ false)

Starts-directive : (d : LineData) (xs : List ℕ) → Starts (directive d ++ xs)
Starts-directive (address_line s) xs = (refl, refl)
Starts-directive (loglevel_line s) xs = (refl, refl)
Starts-directive (port_line n) xs = (refl, refl)
Starts-directive (databases_line n) xs = (refl, refl)
Starts-directive (user_line u) xs = (refl, refl)

skip-stop :
    (fuel : ℕ) (xs : List ℕ)
    → Starts xs
    → skip_empty_lines_and_comments (suc fuel) (at xs) ≡ some (at xs)
unfolding skip_empty_lines_and_comments
skip-stop fuel xs (no_comment, text) =
    let no_line : (at xs).ch == b'\n' ≡ false = ground arith in rw (no_comment, no_line) refl

skip_whitespace-behind :
    (xs : List ℕ) → is_blank (at xs).ch ≡ false → skip_whitespace (behind xs) ≡ at xs
unfolding skip_whitespace
skip_whitespace-behind xs h = rw (span-text is_blank refl (b'\n' ∷ []) xs (refl, tt) h) refl

skip-behind :
    (fuel : ℕ) (xs : List ℕ)
    → Starts xs
    → skip_empty_lines_and_comments (suc (suc fuel)) (behind xs) ≡ some (at xs)
unfolding skip_empty_lines_and_comments
skip-behind fuel xs starts = rw (skip_whitespace-behind xs starts.1) (skip-stop fuel xs starts)

skip_comment-line :
    (s xs : List ℕ)
    → All (λ c. in_line c ≡ true) s
    → skip_comment (at (b'#' ∷ (s ++ b'\n' ∷ xs))) ≡ behind xs
unfolding skip_comment
skip_comment-line s xs h =
    ap (λ r. r.1) (span-text in_line refl (b'#' ∷ s) (b'\n' ∷ xs) (refl, h) refl)

skip-comment :
    (fuel : ℕ) (s xs : List ℕ)
    → All (λ c. in_line c ≡ true) s
    → skip_empty_lines_and_comments (suc fuel) (at (b'#' ∷ (s ++ b'\n' ∷ xs)))
      ≡ skip_empty_lines_and_comments fuel (behind xs)
unfolding skip_empty_lines_and_comments
skip-comment fuel s xs h = ap (skip_empty_lines_and_comments fuel) (skip_comment-line s xs h)

skip-behind_blank :
    (fuel : ℕ) (xs : List ℕ)
    → skip_empty_lines_and_comments fuel (behind (b'\n' ∷ xs))
      ≡ skip_empty_lines_and_comments fuel (behind xs)
unfolding skip_empty_lines_and_comments skip_whitespace span span_loop
skip-behind_blank zero xs = refl
skip-behind_blank (suc fuel) xs = refl

-- A text's empty lines and comments are passed over, from its start and from the end of the line before it.
abbrev Skips : ℕ → List Line → Type 0
Skips fuel ls =
    (length (text_of ls) < fuel
      → skip_empty_lines_and_comments fuel (at (text_of ls))
        ≡ some (at (text_of (first_setting ls))))
    × (length (text_of ls) + 1 < fuel
        → skip_empty_lines_and_comments fuel (behind (text_of ls))
          ≡ some (at (text_of (first_setting ls))))

skip-behind_comment :
    (fuel : ℕ) (s xs : List ℕ)
    → skip_empty_lines_and_comments (suc fuel) (behind (b'#' ∷ (s ++ b'\n' ∷ xs)))
      ≡ skip_empty_lines_and_comments fuel (at (b'#' ∷ (s ++ b'\n' ∷ xs)))
unfolding skip_empty_lines_and_comments
skip-behind_comment fuel s xs =
    ap (skip_empty_lines_and_comments fuel) (skip_whitespace-behind (b'#' ∷ (s ++ b'\n' ∷ xs)) refl)

Skips-Starts :
    (fuel : ℕ) (xs : List ℕ)
    → Starts xs
    → (length xs < fuel → skip_empty_lines_and_comments fuel (at xs) ≡ some (at xs))
      × (length xs + 1 < fuel → skip_empty_lines_and_comments fuel (behind xs) ≡ some (at xs))
Skips-Starts zero xs s = (λ h. absurd (omega arith), λ h. absurd (omega arith))
Skips-Starts (suc zero) xs s = (λ h. skip-stop zero xs s, λ h. absurd (omega arith))
Skips-Starts (suc (suc fuel)) xs s = (λ h. skip-stop (suc fuel) xs s, λ h. skip-behind fuel xs s)

pub skip-Skips : (ls : List Line) (fuel : ℕ) → All IsLine ls → Skips fuel ls
skip-Skips [] fuel well = Skips-Starts fuel [] (refl, refl)
skip-Skips (setting d ∷ ls) fuel well =
    Skips-Starts fuel (directive d ++ b'\n' ∷ text_of ls) (Starts-directive d (b'\n' ∷ text_of ls))
skip-Skips (blank ∷ ls) fuel well =
    let (here, next) = skip-Skips ls fuel well.1 in
    (
      λ h. next (omega (arith, h)),
      λ h. skip-behind_blank fuel (text_of ls) ∙ next (omega (arith, h)),
    )
skip-Skips (comment s ∷ ls) zero well = (λ h. absurd (omega arith), λ h. absurd (omega arith))
skip-Skips (comment s ∷ ls) (suc zero) well = (λ h. absurd (omega arith), λ h. absurd (omega arith))
skip-Skips (comment s ∷ ls) (suc (suc fuel)) well =
    let (_, next) = skip-Skips ls (suc fuel) well.1 in
    let (_, later) = skip-Skips ls fuel well.1 in
    let long = length-append s (b'\n' ∷ text_of ls) in
    (
      λ h. skip-comment (suc fuel) s (text_of ls) well.0 ∙ next (omega (arith, h, long)),
      λ h.
          skip-behind_comment (suc fuel) s (text_of ls)
          ∙ skip-comment fuel s (text_of ls) well.0
          ∙ later (omega (arith, h, long)),
    )
