-- ===== src/ConfigParser/Port.antt =====
-- src/config_parser.c (config_parser_parse_port): the number of a port, as it is written.
use lexidb.Base.{
  ℕ, ◌<◌, ◌^◌, ◌≡◌, refl, true, false, List, [], ◌∷◌, ◌++◌, codes, ltb, if◌then◌else◌, arith,
}
use lexidb.Base.Decimal.{decimal}
use lexidb.Chars.{skip_spaces}
use lexidb.Chars.Laws.{skip_spaces-none}
use lexidb.ConfigParser.{ok, err, ends_line, parse_port}
use lexidb.Parser.Scan.{at, is_digit}
use lexidb.Protocol.Numbers.{parse_len-decimal_end}

ends_line-is_digit : (c : ℕ) → ends_line c ≡ true → is_digit c ≡ false
ends_line-is_digit c h = ground (arith, h)

ends_line-skip_spaces :
    (rest : List ℕ) → ends_line (at rest).ch ≡ true → skip_spaces (at rest) ≡ at rest
ends_line-skip_spaces [] h = skip_spaces-none [] refl
ends_line-skip_spaces (c ∷ rest) h = skip_spaces-none (c ∷ rest) (ground (arith, h))

-- The decimal numeral of a number below 2^64, at the end of a line, is parsed as that port where
-- the number is at most 65535, and is else refused with an error that names the number; in both
-- cases it is read up to the end of the line.
pub parse_port-decimal :
    (n : ℕ) (rest : List ℕ)
    → n < 2 ^ 64
    → ends_line (at rest).ch ≡ true
    → parse_port (at (decimal n ++ rest))
      ≡ (if ltb 65535 n then err (decimal n ++ codes " is too big to be a port") else ok n, at rest)
unfolding parse_port
parse_port-decimal n rest fits ends =
    rw
      (
        parse_len-decimal_end n rest fits (ends_line-is_digit (at rest).ch ends),
        ends_line-skip_spaces rest ends,
        ends,
      )
      refl
