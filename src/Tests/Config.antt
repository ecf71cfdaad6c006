-- ===== src/Tests/Config.antt =====
-- The configuration parser on lexi.conf, and on texts that it refuses.
use lexidb.Base.{ℕ, ◌≡◌, ◌^◌, refl, Bool, List, [], ◌∷◌, some, arith, codes, ltb, All}
use lexidb.Base.Decimal.{decimal}
use lexidb.ConfigParser.{
  Config, Result, ok, err, address_line, loglevel_line, port_line, databases_line, user_line,
  parse_config, parse_port, config_new, no_user, config_program,
}
use lexidb.ConfigParser.Port.{parse_port-decimal}
use lexidb.ConfigParser.Lines.{Line, blank, comment, setting, text_of, store_all, IsLine}
use lexidb.ConfigParser.Reads.{parse_config-text_of}
use lexidb.ConfigParser.Terminates.{parse_config-Returns}
use lexidb.Parser.Scan.{at}
use lexidb.Server.{User}
use lexidb.Vec.{Vec}

abbrev realloc : ℕ → Bool
realloc n = ltb n (2 ^ 40)

-- what vec_new gives
abbrev users : Vec User
users = record { len = 0; cap = 2; data_size = 56; slots = no_user ∷ no_user ∷ [] }

abbrev lines : List Line
lines =
    comment (codes " users")
    ∷ setting (user_line (record { name = codes "root"; password = codes "root" }))
    ∷ blank
    ∷ setting (databases_line 16)
    ∷ comment []
    ∷ setting (address_line (codes "127.0.0.1"))
    ∷ blank
    ∷ blank
    ∷ setting (port_line 6969)
    ∷ setting (loglevel_line (codes "info"))
    ∷ []

lines_are-IsLine : All IsLine lines
lines_are-IsLine = (
  (refl, (refl, (refl, (refl, (refl, (refl, tt)))))),
  (
    (omega arith, (refl, (refl, (refl, (refl, tt)))), (refl, (refl, (refl, (refl, tt))))),
    (
      tt,
      (
        omega arith,
        (
          tt,
          (
            (refl, (refl, (refl, (refl, (refl, (refl, (refl, (refl, (refl, tt))))))))),
            (tt, (tt, (omega arith, ((refl, (refl, (refl, (refl, tt)))), tt)))),
          ),
        ),
      ),
    ),
  ),
)

parse_config-text_of_example :
    parse_config realloc users (text_of lines)
    ≡ some (store_all realloc (ok (config_new users)) lines)
parse_config-text_of_example = parse_config-text_of realloc users lines lines_are-IsLine

parse_config-Returns_example :
    (a : Result Config) × (parse_config realloc users (codes "address here\nuser") ≡ some a)
parse_config-Returns_example = parse_config-Returns realloc users (codes "address here\nuser")

-- The number wraps around at 2^64 before it is compared with the greatest port.
abbrev wrapped : Config
wrapped = record (config_new users) { port = 6969 }

port_wraps : parse_config realloc users (codes "port 18446744073709558585") ≡ some (ok wrapped)
unfolding config_program
port_wraps = refl

parse_port-decimal_example :
    parse_port (at (codes "70000\n"))
    ≡ (err (codes "70000 is too big to be a port"), at (codes "\n"))
unfolding decimal
parse_port-decimal_example = parse_port-decimal 70000 (codes "\n") (omega arith) refl

-- An address is set once.
two_addresses :
    parse_config realloc users (codes "address 127.0.0.1\naddress 10.0.0.1\n")
    ≡ some (err (codes "address set twice in config"))
unfolding config_program
two_addresses = refl

-- Port 0 counts as none.
two_ports :
    parse_config realloc users (codes "port 0\nport 80")
    ≡ some (ok (record (config_new users) { port = 80 }))
unfolding config_program
two_ports = refl

-- An address that is no numeral is dropped, and the line read again as a setting.
named_address :
    parse_config realloc users (codes "address localhost")
    ≡ some (err (codes "unknown data type: localhost"))
unfolding config_program
named_address = refl

port_error :
    parse_config realloc users (codes "port x")
    ≡ some (err (codes "expected only the number of databases"))
unfolding config_program
port_error = refl
