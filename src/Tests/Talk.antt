-- ===== src/Tests/Talk.antt =====
-- A session of the client program with the server: log in, select a database, leave.
use lexidb.Auth.{hash_password, time_safe_equal, vstr_cmp_zero}
use lexidb.Base.{flatten, ℕ, ◌≡◌, refl, List, [], ◌∷◌, arith, codes}
use lexidb.Base.Decimal.{decimal}
use lexidb.Builder.{add_array, add_int, add_ok, add_string}
use lexidb.Cli.{shown}
use lexidb.Cli.Loop.{Turn, IsAnswered}
use lexidb.Cli.Start.{World, main, Meets}
use lexidb.Conversation.{Runs, login_turn, serve_all, main-Runs}
use lexidb.Hilexi.{as_int64, select_request}
use lexidb.Hilexi.Calls.{to_select}
use lexidb.Hilexi.Replies.{Delivers}
use lexidb.Object.{string}
use lexidb.Parser.Objects.{reserves}
use lexidb.Parser.Run.{ret}
use lexidb.Server.{Server, User}
use lexidb.Server.Commands.{first_object, second_object}
use lexidb.Server.Connection.{create_client}
use lexidb.Server.Execute.{
  execute_cmd, execute_type, execute_select, db_number, logged_in, auth_reply,
}
use lexidb.Tests.Commands.{place, value, server, client}
use lexidb.Tests.Platform.{libc, libc-IsStandard, text_ops}
use lexidb.Tests.Sessions.{roomy, select_form}
use lexidb.Tests.Strings.{heap-Grants}
use lexidb.Tests.Terminal.{
  world, socket_of, ok_form, ok_form-IsReply, login_form-Delivers, All-replicate,
}

-- its password is "root", under a digest that is the text itself
abbrev admin : User
admin = record { name = codes "root"; password = codes "726f6f74" }

abbrev open_server : Server (List ℕ)
open_server = record server { users = admin ∷ [] }

abbrev select_turn : Turn ℕ
select_turn = record {
  call = to_select 0;
  out = select_form;
  answer = string (codes "OK");
  reply = ok_form;
  socket = socket_of ok_form;
}

abbrev talk : World
talk = record world { calls = select_turn.socket ∷ []; typed = codes "select 0\nexit\n" }

select_form-Delivers : Delivers (socket_of ok_form) select_form ok_form
unfolding flatten
select_form-Delivers = record {
  grants = λ n. refl;
  taking = All-replicate 40;
  enough = omega arith;
  idle = 1;
  piece = ok_form;
  pieces = [];
  later = [];
  reads = refl;
  whole = refl;
}

select_turn-IsAnswered : IsAnswered libc select_turn
unfolding select_request add_string add_array add_int as_int64 decimal
select_turn-IsAnswered = record {
  typable = omega arith;
  unbroken = (refl, (refl, (refl, (refl, (refl, (refl, (refl, (refl, tt))))))));
  short = omega arith;
  requested = refl;
  replied = ok_form-IsReply;
  delivers = select_form-Delivers;
}

talk-Meets : Meets libc talk ok_form (select_turn ∷ []) []
unfolding decimal
talk-Meets = record {
  socket = refl;
  buffer = refl;
  tries = 1;
  later = [];
  connects = refl;
  replied = ok_form-IsReply;
  delivers = login_form-Delivers;
  answered = (select_turn-IsAnswered, tt);
  calls = refl;
  typed = refl;
  grants = heap-Grants;
}

both_run :
    Runs libc text_ops place value
      (λ i. roomy)
      0
      open_server
      client
      (login_turn talk ok_form ∷ select_turn ∷ [])
      open_server
unfolding execute_cmd execute_type execute_select as_int64 db_number first_object second_object
    logged_in auth_reply hash_password time_safe_equal vstr_cmp_zero add_ok
both_run = (_, _, refl, refl, (_, _, refl, refl, refl))

main-Runs_example :
    (serve_all libc text_ops place value
        (λ i. roomy)
        0
        open_server
        (create_client client)
        (main libc 2 talk).sent
      ≡ ret (open_server, ok_form ∷ ok_form ∷ []))
    × ((main libc 2 talk).told ≡ shown (string (codes "OK")) ∷ [])
unfolding create_client
main-Runs_example =
    main-Runs libc text_ops place value (λ i. roomy) libc-IsStandard (λ i n. refl) talk ok_form
      (select_turn ∷ []) [] 2 open_server open_server (create_client client) talk-Meets
      (omega arith)
      (unfold reserves in (((omega arith, refl), (omega arith, refl)), (omega arith, tt))) refl
      both_run
