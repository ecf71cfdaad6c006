-- ===== src/Tests/Args.antt =====
-- The command line of the server.

use lexidb.Base.{inl, inr, ℕ, ◌≡◌, refl, List, [], ◌∷◌, some, arith, codes}
use lexidb.Clap.{Arg, parse_cmd_line_args, blank_arg}
use lexidb.Clap.Help.{show_help}
use lexidb.Clap.Help.Aligned.{IsAligned, show_help-IsAligned}
use lexidb.Clap.Names.{Names, All-has_no_zero}
use lexidb.Clap.Reads.{Setting, Reads, parse_cmd_line_args-Reads}
use lexidb.Keys.{memcmp_zero}
use lexidb.Server.Run.{conf_arg}
use lexidb.Tests.Platform.{memory, memory-CallocFits, read_ℤ}
use lexidb.Vec.{Vec}

abbrev pub sip : List ℕ → ℕ
sip k = 5

abbrev arguments : Vec Arg
arguments = record { len = 1; cap = 2; data_size = 112; slots = conf_arg ∷ blank_arg ∷ [] }

abbrev two_paths : List Setting
two_paths =
    record { word = codes "--config"; arg = conf_arg; text = codes "a.conf" }
    ∷ record { word = codes "-c"; arg = conf_arg; text = codes "b.conf" }
    ∷ []

long-Names : Names arguments (codes "--config") conf_arg
unfolding conf_arg
long-Names = record {
  plain = All-has_no_zero (codes "--config") refl;
  index = 0;
  here = refl;
  spells = inl refl;
  first = tt;
}

short-Names : Names arguments (codes "-c") conf_arg
unfolding conf_arg
short-Names = record {
  plain = All-has_no_zero (codes "-c") refl;
  index = 0;
  here = refl;
  spells = inr (refl, λ e. omega (arith, e));
  first = tt;
}

parse_cmd_line_args-Reads_example : Reads {D = ℕ} sip memory read_ℤ two_paths (
    parse_cmd_line_args sip memory read_ℤ arguments
      (codes "--config" ∷ codes "a.conf" ∷ codes "-c" ∷ codes "b.conf" ∷ []))
unfolding conf_arg memcmp_zero
parse_cmd_line_args-Reads_example =
    parse_cmd_line_args-Reads sip memory read_ℤ arguments two_paths memory-CallocFits
      (
        record { no_help = refl; no_version = refl; named = long-Names; parsed = refl },
        (record { no_help = refl; no_version = refl; named = short-Names; parsed = refl }, tt),
      )
      (omega arith)

show_help-IsAligned_example :
    (text : List ℕ) × (show_help (codes "lexidb") arguments ≡ some text)
    × IsAligned (codes "lexidb") (conf_arg ∷ []) text
unfolding conf_arg
show_help-IsAligned_example =
    show_help-IsAligned (codes "lexidb") arguments (omega arith) (omega arith) (omega arith)
      (refl, tt)
