-- ===== src/Tests/Terminal.antt =====
-- A session at the terminal: a user reads a value, and leaves.
use lexidb.Base.{
  flatten, ℕ, zero, suc, All, replicate, ◌≡◌, true, refl, List, [], ◌∷◌, some, arith, codes,
}
use lexidb.Base.Decimal.{decimal}
use lexidb.Builder.{add_object, add_string, add_array}
use lexidb.Cli.{shown, returned}
use lexidb.Cli.Loop.{Turn, IsAnswered}
use lexidb.Cli.Start.{World, connected, in_progress, login_form, main, Meets, main-Session}
use lexidb.Hilexi.{Socket, received, would_block, get_request}
use lexidb.Hilexi.Calls.{to_get}
use lexidb.Hilexi.Replies.{Delivers, IsReply, Takes}
use lexidb.Object.{string}
use lexidb.Parser.Commands.{commands_program}
use lexidb.Parser.Scan.{at}
use lexidb.Tests.Platform.{libc}
use lexidb.Tests.Strings.{heap, heap-Grants}

abbrev pub ok_form : List ℕ
ok_form = codes "+OK\r\n"

abbrev value_form : List ℕ
value_form = codes "$5\r\nvalue\r\n"

abbrev get_form : List ℕ
get_form = codes "*2\r\n$3\r\nGET\r\n$1\r\nk\r\n"

-- the kernel takes up to 40 bytes at once, and the reply comes whole after an EAGAIN
abbrev pub socket_of : List ℕ → Socket
socket_of reply = record {
  writes = replicate 40 (some 40);
  reads = would_block ∷ received reply ∷ would_block ∷ [];
  realloc = λ n. true;
}

abbrev get_turn : Turn ℕ
get_turn = record {
  call = to_get (string (codes "k"));
  out = get_form;
  answer = string (codes "value");
  reply = value_form;
  socket = socket_of value_form;
}

abbrev pub world : World
world = record {
  socket = true;
  buffer = true;
  connects = in_progress ∷ connected ∷ [];
  login = socket_of ok_form;
  calls = get_turn.socket ∷ [];
  typed = codes "get \"k\"\nexit\n";
  heap = heap;
  layout = λ lg. lg.bytes;
}

pub ok_form-IsReply : IsReply libc ok_form (string (codes "OK"))
unfolding commands_program
ok_form-IsReply = (at [], refl)

value_form-IsReply : IsReply libc value_form (string (codes "value"))
unfolding commands_program
value_form-IsReply = (at [], refl)

pub All-replicate : (n : ℕ) → All Takes (replicate n (some 40))
All-replicate zero = tt
All-replicate (suc n) = (omega arith, All-replicate n)

pub login_form-Delivers : Delivers (socket_of ok_form) login_form ok_form
unfolding flatten
login_form-Delivers = record {
  grants = λ n. refl;
  taking = All-replicate 40;
  enough = omega arith;
  idle = 1;
  piece = ok_form;
  pieces = [];
  later = [];
  reads = refl;
  whole = refl;
}

value_form-Delivers : Delivers (socket_of value_form) get_form value_form
unfolding flatten
value_form-Delivers = record {
  grants = λ n. refl;
  taking = All-replicate 40;
  enough = omega arith;
  idle = 1;
  piece = value_form;
  pieces = [];
  later = [];
  reads = refl;
  whole = refl;
}

get_turn-IsAnswered : IsAnswered libc get_turn
unfolding get_request add_object add_string add_array decimal
get_turn-IsAnswered = record {
  typable = (refl, tt);
  unbroken = (refl, (refl, (refl, (refl, (refl, (refl, (refl, tt)))))));
  short = omega arith;
  requested = refl;
  replied = value_form-IsReply;
  delivers = value_form-Delivers;
}

world-Meets : Meets libc world ok_form (get_turn ∷ []) []
world-Meets = record {
  socket = refl;
  buffer = refl;
  tries = 1;
  later = [];
  connects = refl;
  replied = ok_form-IsReply;
  delivers = login_form-Delivers;
  answered = (get_turn-IsAnswered, tt);
  calls = refl;
  typed = refl;
  grants = heap-Grants;
}

main-Session_example : main libc 2 world ≡ record {
  sent = login_form ∷ get_form ∷ [];
  told = shown (string (codes "value")) ∷ [];
  ends = returned 0;
}
main-Session_example =
    main-Session libc world ok_form (get_turn ∷ []) [] 2 world-Meets (omega arith)
