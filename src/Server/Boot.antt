-- ===== src/Server/Boot.antt =====
-- src/server.c (server_new, lexidb_new, determine_loglevel), src/util.c (read_file): the server that a
-- configuration file gives. What is closed and freed on the way out is left out, and so are the fields
-- that commands do not read. `object_size` and `user_size` are what sizeof gives.
pub mod Steps
pub mod Users
pub mod Ready
pub mod Ends
use lexidb.Auth.{strncmp_zero}
use lexidb.Base.{
  ltb, ℕ, suc, ◌+◌, ◌*◌, Bool, true, false, List, [], ◌∷◌, String, codes, Option, none, some,
  length, replicate, ◌==◌, if◌then◌else◌,
}
use lexidb.ConfigParser.{Config, Result, ok, err, no_user, parse_config}
use lexidb.Ev.{Ev, Mask, Ctl, ev_new, ev_add_event}
use lexidb.HashSet
use lexidb.Ht
use lexidb.Queue
use lexidb.Server.{Lexidb, Server, User}
use lexidb.Server.Start.{add_users}
use lexidb.Vec
use lexidb.Vec.{Vec, vec_header}
use lexidb.Vec.Laws.{items}
use lexidb.Vstr.{Vstr, Heap, max_small_size, vstr_new, vstr_push_char}
use lexidb.Vstr.Laws.{text}

pub data LogLevel : Type 0 where
  no_logs info debug verbose : LogLevel

abbrev pub log_level_lookups : List (String × LogLevel)
log_level_lookups =
    ("none", no_logs) ∷ ("info", info) ∷ ("debug", debug) ∷ ("verbose", verbose) ∷ []

unfoldable pub lookup_level : List ℕ → List (String × LogLevel) → Option LogLevel
unfolding strncmp_zero
lookup_level s [] = none
lookup_level s ((name, level) ∷ rest) =
    let later = lookup_level s rest in
    if length (codes name) == length s
    then (if strncmp_zero s (codes name) then some level else later)
    else later

unfoldable pub determine_loglevel : List ℕ → Option LogLevel
unfolding lookup_level
determine_loglevel s = lookup_level s log_level_lookups

abbrev unless_refused : Bool × Vstr → (Vstr → Option Vstr) → Option Vstr
unless_refused (false, s) next = none
unless_refused (true, s) next = next s

-- the loop of `read_file` on a file's bytes: a byte 255, as a signed char, is EOF
unfoldable pub read_file_loop : Heap → List ℕ → Vstr → Option Vstr
unfolding vstr_push_char
read_file_loop heap [] s = some s
read_file_loop heap (c ∷ cs) s =
    if c == 255
    then some s
    else unless_refused (vstr_push_char heap s c) (λ t. read_file_loop heap cs t)

abbrev text_of : Option Vstr → Option (List ℕ)
text_of none = none
text_of (some s) = some (text s)

-- the text, or `none` where there is no memory for it
unfoldable pub read_file : Heap → List ℕ → Option (List ℕ)
unfolding read_file_loop vstr_new text
read_file heap file = text_of (read_file_loop heap file vstr_new)

-- why the server does not start
pub data StartError : Type 0 where
  no_socket no_reuse_addr no_file not_read : StartError
  bad_config : List ℕ → StartError
  bad_log_level not_bound not_listening no_users_vec users_not_added : StartError
  no_executable_path no_clients_vec no_events no_accept_event : StartError

-- `crashed` is a failed assertion, `endless` a loop that does not end.
pub data Started {ℓ} (A : Type ℓ) : Type ℓ where
  started : A → Started A
  failed : StartError → Started A
  crashed endless : Started A

infixl 5 ◌>>=◌
unfoldable pub ◌>>=◌ {ℓ₁ ℓ₂} : {A : Type ℓ₁} {B : Type ℓ₂} → Started A → (A → Started B) → Started B
started a >>= next = next a
failed e >>= next = failed e
crashed >>= next = crashed
endless >>= next = endless

abbrev pub check : Bool → StartError → Started (Unit {0})
check true e = started tt
check false e = failed e

abbrev pub from_some {ℓ} : {A : Type ℓ} → Option A → Started A → Started A
from_some none otherwise = otherwise
from_some (some a) otherwise = started a

-- What the system answers while the server starts. `Handler` are the functions that handle events.
-- `heap` gives memory to strings; `freed_address` is what is read where an address's bytes, or its
-- terminator, are no longer there.
pub record System (Handler : Type 0) : Type 0 where
  pub sigint_handler : Bool
  pub create_tcp_socket : Option ℕ
  pub set_reuse_addr : Bool
  pub fopen : List ℕ → Option (List ℕ)
  pub tcp_bind : List ℕ → ℕ → Bool
  pub tcp_listen : Bool
  pub malloc : ℕ → Bool
  pub realloc : ℕ → Bool
  pub calloc : ℕ → Bool
  pub heap : Heap
  pub freed_address : List ℕ → List ℕ
  pub executable_path : Option (List ℕ)
  pub os_name : List ℕ
  pub ev_allocated : Bool
  pub epoll_ctl : Ctl → Bool
  pub server_accept : Handler
  pub time : ℕ
  pub pid : ℕ
  pub sha256 : List ℕ → List ℕ
  pub user_size : ℕ
  pub object_size : ℕ

abbrev pub default_address : List ℕ
default_address = codes "127.0.0.1"

abbrev pub default_port : ℕ
default_port = 6969

abbrev pub default_databases : ℕ
default_databases = 16

abbrev pub server_backlog : ℕ
server_backlog = 10

abbrev pub or_default : List ℕ → List ℕ → List ℕ
or_default s d = if length s == 0 then d else s

-- `vstr_from(addr)` comes after `config_free_light`, which frees an address that is on the heap, and leaves
-- one in the struct, of which 23 bytes have no terminator.
unfoldable pub kept_address : (List ℕ → List ℕ) → List ℕ → List ℕ
kept_address freed address =
    if length address == 0
    then default_address
    else if ltb (length address) max_small_size
    then address
    else freed address

abbrev pub or_number : ℕ → ℕ → ℕ
or_number n d = if n == 0 then d else n

-- the log level of the configuration
unfoldable pub log_level_of : List ℕ → Started LogLevel
unfolding determine_loglevel
log_level_of s =
    if length s == 0 then started info else from_some (determine_loglevel s) (failed bad_log_level)

abbrev pub from_config : Option (Result Config) → Started Config
from_config none = endless
from_config (some (err e)) = failed (bad_config e)
from_config (some (ok c)) = started c

abbrev pub from_users : Option (Option (Vec User)) → Started (Vec User)
from_users none = endless
from_users (some none) = failed users_not_added
from_users (some (some users)) = started users

-- what the server keeps beside the fields of `Server`
pub record Running (K Handler : Type 0) : Type 0 where
  pub server : Server K
  pub log_level : LogLevel
  pub sfd : ℕ
  pub ev : Ev Handler Unit

module _ {K Handler : Type 0} (blank : K) (sys : System Handler) where
  -- a database with no entries, in which the vector is what vec_new gives
  abbrev pub empty_lexidb : Vec K → Lexidb K
  empty_lexidb vec = record { dict = Ht.new; set = HashSet.new; queue = Queue.new; vec = vec }

  -- the array of databases; an assertion fails where there is no memory for it or for a vector
  unfoldable pub lexidb_new : ℕ → Started (List (Lexidb K))
  lexidb_new num_databases =
      if sys.calloc num_databases
      then (from_some (Vec.new blank sys.malloc sys.object_size) crashed >>= λ vec.
          started (replicate num_databases (empty_lexidb vec)))
      else crashed

  abbrev pub read_mask : Mask
  read_mask = record { read = true; write = false; both = false }

  abbrev pub registered : Bool × Ev Handler Unit → Started (Ev Handler Unit)
  registered (true, ev) = started ev
  registered (false, ev) = failed no_accept_event

  unfoldable pub read_config : List ℕ → Started Config
  unfolding read_file
  read_config conf_file_path = from_some (sys.fopen conf_file_path) (failed no_file) >>= λ file.
      from_some (read_file sys.heap file) (failed not_read) >>= λ input.
      from_some (Vec.new no_user sys.malloc sys.user_size) crashed >>= λ users.
      from_config (parse_config sys.realloc users input)

  -- The vector of the server's users. The loop over an empty vector does not end there; its first
  -- round takes the bytes 0 behind it for a user, and its second finds that user.
  unfoldable pub users_of : Config → Started (Vec User)
  users_of config =
      from_some (Vec.new no_user sys.malloc sys.user_size) (failed no_users_vec) >>= λ users.
      from_users (add_users sys.realloc sys.sha256 config.users (suc (suc config.users.len)) users)

  unfoldable pub events_of : ℕ → Started (Ev Handler Unit)
  events_of sfd = from_some (ev_new sys.ev_allocated server_backlog) (failed no_events) >>= λ ev.
      registered (ev_add_event sys.epoll_ctl ev sfd read_mask sys.server_accept tt)

  unfoldable pub server_new : List ℕ → Started (Running K Handler)
  unfolding read_config log_level_of users_of events_of lexidb_new kept_address
  server_new conf_file_path = from_some sys.create_tcp_socket (failed no_socket) >>= λ sfd.
      check sys.set_reuse_addr no_reuse_addr >>= λ _. read_config conf_file_path >>= λ config.
      let addr = or_default config.address default_address in
      let port = or_number config.port default_port in
      log_level_of config.loglevel >>= λ level. check (sys.tcp_bind addr port) not_bound >>= λ _.
      check sys.tcp_listen not_listening >>= λ _. users_of config >>= λ users.
      let num_databases = or_number config.databases default_databases in
      from_some sys.executable_path (failed no_executable_path) >>= λ path.
      check (sys.malloc (vec_header + 8 * 2)) no_clients_vec >>= λ _. events_of sfd >>= λ ev.
      lexidb_new num_databases >>= λ db. started (record {
        server = record {
          pid = sys.pid;
          port = port;
          executable_path = path;
          os_name = sys.os_name;
          addr = kept_address sys.freed_address config.address;
          conf_file_path = conf_file_path;
          num_databases = num_databases;
          db = db;
          num_clients = 0;
          users = items users;
          cmd_executed = 0;
          start_time = sys.time;
        };
        log_level = level;
        sfd = sfd;
        ev = ev;
      })
