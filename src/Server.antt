-- ===== src/Server.antt =====
-- src/server.h, src/server.c: the state of the server and of a client. A stored object is of a type `K`
-- of structs as they lie in memory: its bytes, a pointer to a long string among them, are what the
-- tables hash.
pub mod Commands
pub mod Execute
pub mod Isolation
pub mod Storage
pub mod Range
pub mod Members
pub mod Login
pub mod Access
pub mod Start
pub mod Boot
pub mod Run
pub mod Connection
pub mod Clients
pub mod Serves
pub mod Listing
use lexidb.Base.{ℕ, Bool, List, Option}
use lexidb.Builder.{Builder}
use lexidb.HashSet.{HashSet}
use lexidb.Ht.{Ht}
use lexidb.Memory.{Memory}
use lexidb.Queue.{Queue}
use lexidb.Vec.{Vec}

-- a database
pub record Lexidb (K : Type 0) : Type 0 where
  pub dict : Ht K K
  pub set : HashSet K
  pub queue : Queue K
  pub vec : Vec K

pub record User : Type 0 where
  pub name : List ℕ
  pub password : List ℕ

-- The fields that commands read or write; `num_clients` is the length of `clients`.
pub record Server (K : Type 0) : Type 0 where
  pub pid : ℕ
  pub port : ℕ
  pub executable_path : List ℕ
  pub os_name : List ℕ
  pub addr : List ℕ
  pub conf_file_path : List ℕ
  pub num_databases : ℕ
  pub db : List (Lexidb K)
  pub num_clients : ℕ
  pub users : List User
  pub cmd_executed : ℕ
  pub start_time : ℕ

-- `authenticated` is the flag AUTHENTICATED, the only one.
pub record Client : Type 0 where
  pub authenticated : Bool
  pub database_num : ℕ
  pub builder : Builder
  pub user : Option User

-- What the system gives while a command runs: the allocator's answers, the time, and the name of the
-- multiplexing interface.
pub record Platform : Type 0 where
  pub memory : Memory
  pub realloc : ℕ → Bool
  pub node : Option ℕ
  pub time : ℕ
  pub ev_api_name : List ℕ
  pub sha256 : List ℕ → List ℕ
