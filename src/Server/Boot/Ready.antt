-- ===== src/Server/Boot/Ready.antt =====
-- src/server.c: the server that has started.
use lexidb.Base.{ℕ, ◌^◌, ◌<◌, ◌≡◌, false, List, [], map, none, some, length, get_elem?}
use lexidb.ConfigParser.{Config, ok, no_user, parse_config}
use lexidb.ConfigParser.Bounds.{IsBounded, AreUsers, parse_config-IsBounded, parse_config-AreUsers}
use lexidb.Ev.{Ev}
use lexidb.HashSet
use lexidb.Ht
use lexidb.Keys.{KeyOps}
use lexidb.Queue
use lexidb.Server.{Server, Lexidb, User}
use lexidb.Server.Boot.{
  System, started, Running, read_file, read_config, or_number, default_databases, default_port,
  server_backlog, kept_address,
}
use lexidb.Server.Execute.{find_user}
use lexidb.Server.Start.{hashed}
use lexidb.Vec
use lexidb.Vec.{Vec, vec_header}
use lexidb.Vec.Laws.{items, AllocFits, IsValid}
use lexidb.Server.Boot.Steps.{
  bind-started, from_some-failed, from_some-crashed, from_config-ok, vec_new-IsValid,
}

module _ {K Handler : Type 0} (blank : K) (sys : System Handler) (fits : AllocFits sys.realloc)
    (user_sized : (0 < sys.user_size) × (sys.user_size < 2 ^ 32)) where
  -- nothing is stored in any of its parts
  pub record IsEmpty (ops : KeyOps K) (d : Lexidb K) : Type 0 where
    pub dict : Ht.Laws.IsValid ops d.dict × ((k : K) → Ht.get ops d.dict k ≡ none)
    pub set : HashSet.Laws.IsValid ops d.set × ((k : K) → HashSet.has ops d.set k ≡ false)
    pub queue : Queue.Nodes.Holds d.queue []
    pub vec : IsValid d.vec × (items d.vec ≡ [])

  -- what holds of the databases of a server that starts
  pub record HasDatabases (ops : KeyOps K) (n : ℕ) (db : List (Lexidb K)) : Type 0 where
    pub numbered : length db ≡ n
    pub empty : (j : ℕ) (d : Lexidb K) → get_elem? db j ≡ some d → IsEmpty ops d

  -- Where the server's settings come from: the file that was read, and its configuration, parsed into a
  -- vector with no user.
  pub record Configured (path : List ℕ) (s : Server K) : Type 0 where
    pub file : List ℕ
    pub opened : sys.fopen path ≡ some file
    pub input : List ℕ
    pub read : read_file sys.heap file ≡ some input
    pub config : Config
    pub unset : Vec User
    pub no_users : items unset ≡ []
    pub parsed : parse_config sys.realloc unset input ≡ some (ok config)
    pub addr : s.addr ≡ kept_address sys.freed_address config.address
    pub port : s.port ≡ or_number config.port default_port
    pub port_bound : (0 < s.port) × (s.port < 2 ^ 16)
    pub num_databases : s.num_databases ≡ or_number config.databases default_databases
    pub some_databases : 0 < s.num_databases
    pub some_users : 0 < config.users.len
    pub users : s.users ≡ map (hashed sys.sha256) (items config.users)
    pub user_found :
        (i : ℕ) (u : User)
        → get_elem? (items config.users) i ≡ some u
        → find_user u.name s.users ≡ some (hashed sys.sha256 u)

  -- a server that can take its first client
  pub record IsReady (ops : KeyOps K) (path : List ℕ) (r : Running K Handler) : Type 0 where
    pub configured : Configured path r.server
    pub databases : HasDatabases ops r.server.num_databases r.server.db
    pub listening : r.sfd < server_backlog

  -- a configuration with what it was read from
  pub record Parsed (path : List ℕ) (config : Config) : Type 0 where
    pub file : List ℕ
    pub opened : sys.fopen path ≡ some file
    pub input : List ℕ
    pub read : read_file sys.heap file ≡ some input
    pub unset : Vec User
    pub made : Vec.new no_user sys.malloc sys.user_size ≡ some unset
    pub no_users : items unset ≡ []
    pub parsed : parse_config sys.realloc unset input ≡ some (ok config)
    pub bounded : IsBounded config
    pub users : AreUsers sys.realloc unset config.users

  pub read_config-Parsed :
      (path : List ℕ) (config : Config)
      → read_config blank sys path ≡ started config
      → Parsed path config
  unfolding read_config
  read_config-Parsed path config h =
      let (file, opened, h) = bind-started _ _ config h in
      let (input, read, h) = bind-started _ _ config h in
      let (unset, made, h) = bind-started _ _ config h in
      let parsed = from_config-ok _ _ h in
      let new = from_some-crashed _ _ made in
      let (fresh, empty) =
        vec_new-IsValid no_user sys.malloc sys.user_size unset user_sized.0 user_sized.1 new in
      record {
        file = file;
        opened = from_some-failed _ _ _ opened;
        input = input;
        read = from_some-failed _ _ _ read;
        unset = unset;
        made = new;
        no_users = empty;
        parsed = parsed;
        bounded = parse_config-IsBounded sys.realloc unset input config parsed;
        users = parse_config-AreUsers sys.realloc unset input config fits fresh parsed;
      }
