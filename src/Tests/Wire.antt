-- ===== src/Tests/Wire.antt =====
-- The protocol at concrete values and requests.
use lexidb.Base.{ℕ, ◌≡◌, true, refl, List, [], some, arith, true, codes}
use lexidb.Base.Int.{negsuc}
use lexidb.Base.Decimal.{decimal, decimal_ℤ}
use lexidb.Builder.{add_object, count_items}
use lexidb.Builder.Wire.{wire, add_object_iff}
use lexidb.Cmd.{ping, set, zeroed, two, no_cmd}
use lexidb.Object.{Object, null, int, bool, string, array, no_items, item}
use lexidb.Parser.Commands.{parse, parse_from_server, commands_program}
use lexidb.Parser.Objects.{reserves}
use lexidb.Parser.Run.{ret, spins}
use lexidb.Parser.Scan.{at}
use lexidb.Protocol.RoundTrip.{parse_from_server-add_object}
use lexidb.Protocol.Values.{reread, Fits}
use lexidb.Tests.Platform.{libc, libc-IsStandard}

-- [true, "ab", -5, [NULL]]
abbrev pub sample : Object ℕ
sample = array (
    item (bool true) (
      item (string (codes "ab"))
        (item (int (negsuc 4)) (item (array (item null no_items)) no_items))))

pub sample-Fits : Fits libc sample
unfolding reserves count_items
sample-Fits =
    (omega arith, (tt, ((omega arith, refl), (omega arith, ((omega arith, (tt, tt)), tt)))))

abbrev pub sample_form : List ℕ
sample_form = codes "*4\r\n#t\r\n$2\r\nab\r\n:-5\r\n*1\r\n+NONE\r\n"

pub sample-written : add_object libc [] sample ≡ some sample_form
sample-written =
    (add_object_iff libc [] sample_form sample).1
      ((tt, (tt, (tt, ((tt, tt), tt)))), unfold wire count_items decimal decimal_ℤ in refl)

parse_from_server-add_object_example :
    parse_from_server libc sample_form ≡ ret (reread libc sample, at [])
parse_from_server-add_object_example =
    parse_from_server-add_object libc libc-IsStandard sample sample_form sample-written sample-Fits

ping_request : parse libc (codes "+PING\r\n") ≡ ret (record { type = ping; args = zeroed })
unfolding commands_program
ping_request = refl

set_request :
    parse libc (codes "*3\r\n$3\r\nSET\r\n$1\r\na\r\n#t\r\n")
    ≡ ret (record { type = set; args = two (string (codes "a")) (bool true) })
unfolding commands_program
set_request = refl

-- A key and no value.
short_request : parse libc (codes "*2\r\n$3\r\nSET\r\n$1\r\na\r\n") ≡ ret no_cmd
unfolding commands_program
short_request = refl

-- A double with no line end.
open_double : parse libc (codes "*2\r\n$3\r\nGET\r\n,1.5") ≡ spins
unfolding commands_program
open_double = refl
