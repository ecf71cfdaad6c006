-- ===== src/Server/Clients.antt =====
-- src/server.c: the clients of the server. A client stands at an address that calloc gives, and the vector
-- holds the addresses. `server_accept`, and what `read_from_client` does to close a client.
pub mod Placed
pub mod Tracks
use lexidb.Base.{
  ℕ, zero, suc, ◌+◌, Bool, true, false, List, [], ◌∷◌, Option, none, some, ◌==◌, if◌then◌else◌,
}
use lexidb.Ev.{Ev, Mask, Ctl, ev_add_event, ev_delete_event}
use lexidb.Server.Connection.{Connection, create_client}
use lexidb.Vec.{Vec, push, remove_at}
use lexidb.Vec.Laws.{items}

pub record Socket : Type 0 where
  pub fd : ℕ
  pub connection : Connection

-- an address that is not allocated, or has been freed, holds `none`
abbrev pub Store : Type 0
Store = ℕ → Option Socket

abbrev pub put : Store → ℕ → Option Socket → Store
put store a o = λ b. if b == a then o else store b

pub record Net (Handler : Type 0) : Type 0 where
  pub clients : Vec ℕ
  pub store : Store
  pub ev : Ev Handler Unit

-- what vec_find gives for a file: an index with the client, -1, or the use of a freed pointer
pub data Found : Type 0 where
  found : ℕ → ℕ → Socket → Found
  missing dangling : Found

-- the loop of vec_find with client_compare
unfoldable pub find_client : ℕ → Store → List ℕ → ℕ → Found
find_client fd store [] i = missing
find_client fd store (a ∷ pointers) i =
    let rest = find_client fd store pointers (i + 1) in compared (store a) rest
  where
    compared : Option Socket → Found → Found
    compared none rest = dangling
    compared (some s) rest = if s.fd == fd then found i a s else rest

-- What the system answers to server_accept: the file of the new connection, whether it can be made not
-- to block, and the memory for the client and for its buffer.
pub record Accept : Type 0 where
  pub tcp_accept : Option ℕ
  pub nonblocking : Bool
  pub block : Option ℕ
  pub read_buf : Bool

abbrev pub new_socket : ℕ → Socket
unfolding create_client
new_socket fd = record {
  fd = fd;
  connection =
      create_client (record { authenticated = false; database_num = 0; builder = []; user = none });
}

abbrev pub ev_read : Mask
ev_read = record { read = true; write = false; both = false }

module _ {Handler : Type 0} (realloc : ℕ → Bool) (epoll_ctl : Ctl → Bool)
    (read_from_client : Handler) where
  -- where ev_add_event refuses, the client is freed, and stays in the vector
  abbrev pub registered : ℕ → Net Handler → Bool × Ev Handler Unit → Net Handler
  registered a net (true, ev) = record net { ev = ev }
  registered a net (false, ev) = record net { ev = ev; store = put net.store a none }

  abbrev pub pushed : ℕ → ℕ → Net Handler → Option (Vec ℕ) → Net Handler
  pushed fd a net none = net
  pushed fd a net (some clients) =
      registered a (record net { clients = clients })
        (ev_add_event epoll_ctl net.ev fd ev_read read_from_client tt)

  unfoldable pub add_client : ℕ → ℕ → Net Handler → Net Handler
  unfolding push ev_add_event
  add_client fd a net =
      pushed fd a (record net { store = put net.store a (some (new_socket fd)) })
        (push 0 realloc net.clients a)

  abbrev pub with_block : ℕ → Bool → Net Handler → Option ℕ → Net Handler
  with_block fd read_buf net none = net
  with_block fd read_buf net (some a) = if read_buf then add_client fd a net else net

  abbrev pub with_file : Accept → Net Handler → Option ℕ → Net Handler
  with_file answer net none = net
  with_file answer net (some fd) =
      if answer.nonblocking then with_block fd answer.read_buf net answer.block else net

  unfoldable pub server_accept : Accept → Net Handler → Net Handler
  unfolding add_client
  server_accept answer net = with_file answer net answer.tcp_accept

  abbrev pub removed : Vec ℕ → Option (ℕ × Vec ℕ) → Vec ℕ
  removed v none = v
  removed v (some (a, w)) = w

  abbrev pub closed : ℕ → Mask → Net Handler → Found → Option (Net Handler)
  closed fd mask net dangling = none
  closed fd mask net missing = some (record net { ev = (ev_delete_event net.ev fd ev_read).1 })
  closed fd mask net (found i a s) = some (record net {
    clients = removed net.clients (remove_at 0 net.clients i);
    ev = (ev_delete_event net.ev fd mask).1;
    store = put net.store a none;
  })

  -- how `read_from_client` closes a client: `none` is the use of a freed pointer
  unfoldable pub close_client : ℕ → Mask → Net Handler → Option (Net Handler)
  unfolding find_client remove_at ev_delete_event
  close_client fd mask net = closed fd mask net (find_client fd net.store (items net.clients) 0)
