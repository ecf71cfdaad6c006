-- ===== src/Tests/Sessions.antt =====
-- A client's request, from the server's read to its write.
use lexidb.Base.{ℕ, ◌≡◌, refl, List, [], ◌∷◌, some, true, false, codes, arith, map, flatten}
use lexidb.Base.Decimal.{decimal}
use lexidb.Builder.{add_array, add_int, add_ok, add_string}
use lexidb.Hilexi.{as_int64, select_request}
use lexidb.Hilexi.Calls.{Call, to_select, request, command}
use lexidb.Server.{Client, Platform}
use lexidb.Server.Connection.{Connection, read_from_client, client_write_loop}
use lexidb.Server.Commands.{first_object}
use lexidb.Server.Execute.{execute_cmd, execute_type, execute_select, db_number}
use lexidb.Server.Serves.{Serves, read_from_client-Serves}
use lexidb.Socket.{received}
use lexidb.Tests.Commands.{place, value, platform, server, client}
use lexidb.Tests.Platform.{libc, libc-IsStandard, text_ops}

abbrev pub roomy : Platform
roomy = record platform { realloc = λ n. true }

abbrev known : Client
known = record client { authenticated = true }

abbrev connection : Connection
connection = record {
  client = known;
  read_buf = [];
  read_cap = 4096;
  write_size = 0;
  writable = false;
}

abbrev select_call : Call ℕ
select_call = to_select 0

abbrev pub select_form : List ℕ
select_form = codes "*2\r\n$6\r\nSELECT\r\n:0\r\n"

select_written : request libc select_call [] ≡ some select_form
unfolding select_request add_array add_string add_int as_int64 decimal
select_written = refl

abbrev pieces : List (List ℕ)
pieces = codes "*2\r\n$6\r\nSELE" ∷ codes "CT\r\n:0\r\n" ∷ []

pieces_whole : flatten pieces ≡ select_form
unfolding flatten
pieces_whole = refl

abbrev selected : Client
selected = record known { database_num = 0; builder = add_ok [] }

select_runs :
    execute_cmd libc text_ops place value roomy server known (command libc select_call)
    ≡ some (server, selected)
unfolding execute_cmd execute_type execute_select as_int64 db_number first_object
select_runs = refl

read_from_client-Serves_example :
    Serves libc text_ops place value roomy server selected (
      read_from_client libc text_ops place value roomy true (map received pieces) server connection)
read_from_client-Serves_example =
    read_from_client-Serves libc text_ops place value roomy libc-IsStandard (λ n. refl) select_call
      select_form pieces server server connection selected refl select_written (omega arith)
      pieces_whole select_runs

-- After a partial write the reply is sent from its start again.
sent_again :
    client_write_loop (some 2 ∷ some 5 ∷ []) 0 (codes "+OK\r\n") ≡ (codes "+O+OK\r\n", true)
unfolding client_write_loop
sent_again = refl
