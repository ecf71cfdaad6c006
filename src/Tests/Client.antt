-- ===== src/Tests/Client.antt =====
-- The client library at concrete calls.
use lexidb.Base.{flatten, ℕ, ◌≡◌, true, refl, List, [], ◌∷◌, some, arith, codes}
use lexidb.Base.Decimal.{decimal}
use lexidb.Hilexi.{Hilexi, Socket, received, would_block, exchange, set_request}
use lexidb.Builder.{add_object, add_string, add_array}
use lexidb.Hilexi.Calls.{Call, to_set, request, command}
use lexidb.Hilexi.Requests.{parse-request}
use lexidb.Hilexi.Replies.{Delivers, Completes, exchange-Completes}
use lexidb.Object.{string}
use lexidb.Parser.Commands.{parse}
use lexidb.Parser.Objects.{reserves}
use lexidb.Parser.Run.{ret}
use lexidb.Tests.Platform.{libc, libc-IsStandard}
use lexidb.Tests.Wire.{sample, sample_form, sample-Fits, sample-written}

abbrev set_call : Call ℕ
set_call = to_set (string (codes "k")) (string (codes "value"))

abbrev set_form : List ℕ
set_form = codes "*3\r\n$3\r\nSET\r\n$1\r\nk\r\n$5\r\nvalue\r\n"

set_written : request libc set_call [] ≡ some set_form
unfolding set_request add_object add_string add_array decimal
set_written = refl

parse-request_example : parse libc set_form ≡ ret (command libc set_call)
parse-request_example =
    parse-request libc libc-IsStandard set_call set_form set_written
      (unfold reserves in ((omega arith, refl), (omega arith, refl)))

abbrev hilexi : Hilexi
hilexi = record { builder = codes "left over"; read_buf = []; read_cap = 4096 }

-- EAGAIN, two pieces of the reply, then EAGAIN
abbrev socket : Socket
socket = record {
  writes = some 9 ∷ some 30 ∷ some 1 ∷ some 1 ∷ [];
  reads =
      would_block
      ∷ received (codes "*4\r\n#t\r\n$2")
      ∷ received (codes "\r\nab\r\n:-5\r\n*1\r\n+NONE\r\n")
      ∷ would_block
      ∷ [];
  realloc = λ n. true;
}

abbrev ping_form : List ℕ
ping_form = codes "+P\r\n"

socket-Delivers : Delivers socket ping_form sample_form
unfolding flatten
socket-Delivers = record {
  grants = λ n. refl;
  taking = (omega arith, (omega arith, (omega arith, (omega arith, tt))));
  enough = omega arith;
  idle = 1;
  piece = codes "*4\r\n#t\r\n$2";
  pieces = codes "\r\nab\r\n:-5\r\n*1\r\n+NONE\r\n" ∷ [];
  later = [];
  reads = refl;
  whole = refl;
}

exchange-Completes_example :
    Completes libc ping_form sample (exchange libc socket hilexi (some ping_form))
exchange-Completes_example =
    exchange-Completes libc libc-IsStandard socket hilexi ping_form sample_form sample refl
      sample-written sample-Fits socket-Delivers
