-- ===== src/Server/Run/Path.antt =====
-- src/server.c: the configuration file that the command line names.

use lexidb.Base.{
  inl, inr, ℕ, ◌+◌, ◌*◌, ◌%◌, ◌^◌, ◌≤◌, ◌≡◌, refl, ap, Bool, true, false, List, [], ◌∷◌, Option,
  codes, length, arith,
}
use lexidb.Base.Int.{ℤ}
use lexidb.Clap.{Arg, blank_arg, args_add, arg_new}
use lexidb.Clap.Names.{Names, All-has_no_zero}
use lexidb.Clap.Reads.{Setting, AreSettings, command_line, first_value, parse_cmd_line_args-Reads}
use lexidb.Keys.{same, memcmp_zero}
use lexidb.Memory.{Memory, CallocFits}
use lexidb.Server.Boot.{System, started, ◌>>=◌}
use lexidb.Server.Run.{
  conf_arg, default_conf_path, server_args, given_path, run_from, run_cla, server_run,
}
use lexidb.Vec
use lexidb.Vec.{Vec, vec_header, find, find_from, push, append}

-- a path behind the long or the short form
abbrev pub PathArg : Type 0
PathArg = Bool × List ℕ

abbrev pub form : Bool → List ℕ
form true = codes "--config"
form false = codes "-c"

abbrev pub words_of_paths : List PathArg → List (List ℕ)
words_of_paths [] = []
words_of_paths ((long, path) ∷ rest) = form long ∷ path ∷ words_of_paths rest

abbrev pub first_path : List PathArg → List ℕ
first_path [] = default_conf_path
first_path ((long, path) ∷ rest) = path

abbrev settings : List PathArg → List Setting
settings [] = []
settings ((long, path) ∷ rest) =
    record { word = form long; arg = conf_arg; text = path } ∷ settings rest

command_line-settings : (ps : List PathArg) → command_line (settings ps) ≡ words_of_paths ps
unfolding conf_arg
command_line-settings [] = refl
command_line-settings ((long, path) ∷ ps) =
    ap (λ ws. form long ∷ path ∷ ws) (command_line-settings ps)

length-settings : (ps : List PathArg) → length (settings ps) ≡ length ps
length-settings [] = refl
length-settings (p ∷ ps) = omega (arith, length-settings ps)

abbrev conf_args : ℕ → Vec Arg
conf_args size = record { len = 1; cap = 2; data_size = size; slots = conf_arg ∷ blank_arg ∷ [] }

form-Names : (size : ℕ) (long : Bool) → Names (conf_args size) (form long) conf_arg
unfolding conf_arg
form-Names size true = record {
  plain = All-has_no_zero (form true) refl;
  index = 0;
  here = refl;
  spells = inl refl;
  first = tt;
}
form-Names size false = record {
  plain = All-has_no_zero (form false) refl;
  index = 0;
  here = refl;
  spells = inr (refl, λ e. omega (arith, e));
  first = tt;
}

settings-AreSettings : (size : ℕ) (ps : List PathArg) → AreSettings (conf_args size) (settings ps)
unfolding conf_arg memcmp_zero
settings-AreSettings size [] = tt
settings-AreSettings size ((true, path) ∷ ps) = (
  record { no_help = refl; no_version = refl; named = form-Names size true; parsed = refl },
  settings-AreSettings size ps,
)
settings-AreSettings size ((false, path) ∷ ps) = (
  record { no_help = refl; no_version = refl; named = form-Names size false; parsed = refl },
  settings-AreSettings size ps,
)

server_args-conf_args :
    {Handler : Type 0} (arg_size : ℕ) (sys : System Handler)
    → sys.malloc ((vec_header + arg_size * 2) % 2 ^ 64) ≡ true
    → server_args arg_size sys ≡ started (conf_args arg_size)
unfolding server_args Vec.new args_add arg_new push append ◌>>=◌ conf_arg
server_args-conf_args arg_size sys got = rw got refl

module _ (D : Type 0) {K Handler : Type 0} (siphash : List ℕ → ℕ) (m : Memory) (atoll : List ℕ → ℤ)
    (realpath : List ℕ → Option (List ℕ)) (blank : K) (sys : System Handler) where
  first_value-settings :
      (ps : List PathArg)
      → given_path {D = D} (first_value siphash m atoll (codes "config file path") (settings ps))
        ≡ first_path ps
  unfolding conf_arg same memcmp_zero
  first_value-settings [] = refl
  first_value-settings ((long, path) ∷ ps) = refl

  -- Where the handler for SIGINT can be set, with memory for the vector of arguments, and a calloc
  -- that gives no array of 2^64 bytes or more, a command line of at most 32 paths, each behind -c
  -- or --config, starts the server with the configuration file of the first path, or of
  -- ../lexi.conf where there is none.
  pub server_run-Path :
      (arg_size : ℕ) (ps : List PathArg)
      → CallocFits m
      → sys.sigint_handler ≡ true
      → sys.malloc ((vec_header + arg_size * 2) % 2 ^ 64) ≡ true
      → length ps ≤ 32
      → server_run D siphash m atoll realpath blank sys arg_size (words_of_paths ps)
        ≡ run_from blank sys (realpath (first_path ps))
  unfolding server_run run_cla ◌>>=◌
  server_run-Path arg_size ps fits handled got few =
      let read =
        parse_cmd_line_args-Reads {D = D} siphash m atoll (conf_args arg_size) (settings ps) fits
          (settings-AreSettings arg_size ps) (omega (arith, few, length-settings ps)) in
      let (help, version, error) = read.flags in
      rw
        (
          handled,
          server_args-conf_args arg_size sys got,
          ← command_line-settings ps,
          error,
          version,
          help,
          read.gets (codes "config file path"),
          first_value-settings ps,
        )
        refl
