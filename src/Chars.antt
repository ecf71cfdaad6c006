-- ===== src/Chars.antt =====
-- src/config_parser.c, src/line_parser.c: the character level, which the two have in common with
-- src/parser.c: `read_char` stands for config_parser_read_char and for line_parser_read_char. The strings
-- that the loops build by vstr_push_char have the memory that they need.
pub mod Laws
use lexidb.Base.{ℕ, Bool, ◌||◌, List, [], ◌∷◌, ◌==◌, if◌then◌else◌}
use lexidb.Parser.Scan.{Parser, at}

-- A loop that goes on while a test holds of the current character: the characters that it has passed,
-- and the parser behind them. The tests do not hold of 0, at which every loop stops.
unfoldable pub span_loop : (ℕ → Bool) → ℕ → List ℕ → List ℕ × Parser
span_loop test c [] = if test c then (c ∷ [], at []) else ([], record { ch = c; rest = [] })
span_loop test c (x ∷ xs) =
    let (s, p) = span_loop test x xs in
    if test c then (c ∷ s, p) else ([], record { ch = c; rest = x ∷ xs })

unfoldable pub span : (ℕ → Bool) → Parser → List ℕ × Parser
unfolding span_loop
span test p = span_loop test p.ch p.rest

abbrev pub is_space : ℕ → Bool
is_space c = c == b' ' || c == b'\t'

-- `config_parser_skip_spaces`, and `skip_whitespace` of the line parser
unfoldable pub skip_spaces : Parser → Parser
unfolding span
skip_spaces p = (span is_space p).1
