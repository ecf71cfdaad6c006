-- ===== src/Tests/Clients.antt =====
-- Clients that come and go.
use lexidb.Base.{
  ℕ, ◌≡◌, ◌^◌, refl, List, [], ◌∷◌, Option, none, some, arith, ltb, Bool, true, ◌==◌, if◌then◌else◌,
  replicate,
}
use lexidb.Ev.{no_event}
use lexidb.Server.Clients.{Net, Accept, Socket, new_socket, server_accept, close_client, ev_read}
use lexidb.Server.Clients.Placed.{Placed, Tracks}
use lexidb.Server.Clients.Tracks.{Accepted, server_accept-Accepted, Closed, close_client-Closed}
use lexidb.Vec.Laws.{AllocFits}

abbrev realloc : ℕ → Bool
realloc n = ltb n (2 ^ 40)

realloc-AllocFits : AllocFits realloc
realloc-AllocFits n h = ground arith

abbrev at_64 : ℕ → Option Socket
at_64 a = if a == 64 then some (new_socket 5) else none

abbrev one_client : Net ℕ
one_client = record {
  clients = record { len = 1; cap = 2; data_size = 8; slots = 64 ∷ 0 ∷ [] };
  store = at_64;
  ev = record { max_fd = some 5; num_fds = 10; events = replicate 10 no_event };
}

abbrev connected : List Placed
connected = (64, new_socket 5) ∷ []

one_client-Tracks : Tracks one_client connected
one_client-Tracks = record {
  valid = record {
    sized = omega arith;
    roomy = omega arith;
    within = omega arith;
    allocated = refl;
    small = omega arith;
  };
  listed = refl;
  stored = (refl, tt);
  distinct = (tt, tt);
}

abbrev second : Accept
second = record { tcp_accept = some 6; nonblocking = true; block = some 96; read_buf = true }

server_accept-Accepted_example :
    Accepted realloc
      (λ c. true)
      1
      second
      connected
      one_client
      (server_accept realloc (λ c. true) 1 second one_client)
server_accept-Accepted_example =
    server_accept-Accepted realloc (λ c. true) 1 second one_client connected realloc-AllocFits
      (λ a block. ground (arith, block)) one_client-Tracks

close_client-Closed_example :
    (after : Net ℕ) × (close_client realloc (λ c. true) 1 5 ev_read one_client ≡ some after)
    × Closed realloc (λ c. true) 1 5 connected after
close_client-Closed_example =
    close_client-Closed realloc (λ c. true) 1 5 ev_read one_client connected one_client-Tracks
