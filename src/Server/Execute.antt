-- ===== src/Server/Execute.antt =====
-- src/server.c: `execute_auth_command` and `execute_cmd`.
use lexidb.Auth.{hash_password, time_safe_equal, vstr_cmp_zero}
use lexidb.Base.{
  ℕ, ◌+◌, ◌-◌, ◌^◌, Bool, true, false, List, [], ◌∷◌, Option, none, some, codes, if◌then◌else◌, map,
  flatten, get_elem?, set, length, leb, ◌==◌, ◌++◌, not, ◌&&◌,
}
use lexidb.Base.Decimal.{decimal}
use lexidb.Base.Int.{pos, negsuc}
use lexidb.Builder.{
  Builder, add_ok, add_none, add_pong, add_err, add_int, add_string, add_ht, add_object, add_array,
  and_then,
}
use lexidb.Cmd.{
  Cmd, Cmdt, CmdData, illegal, okc, auth, ping, infoc, select, help, keys, set as set_type, get,
  del, push, pop, enque, deque, zset, zhas, zdel,
}
use lexidb.Ht.{entry_key}
use lexidb.Ht.Iter.{ht_walk, ht_iter_new}
use lexidb.Keys.{KeyOps}
use lexidb.Object.{Object, int, string}
use lexidb.Parser.Run.{Libc}
use lexidb.Server.{Lexidb, Server, Client, User, Platform}
use lexidb.Server.Commands.{
  Answer, first_object, second_object, replied, execute_set, execute_get, execute_del, execute_push,
  execute_pop, execute_enque, execute_deque, execute_zset, execute_zhas, execute_zdel,
}

-- `db_num` as a size_t
unfoldable pub db_number : {D : Type 0} → Object D → ℕ
db_number (int (pos n)) = n
db_number (int (negsuc n)) = 2 ^ 64 - (n + 1)
db_number o = 0

-- `vec_find(s->users, &username, &user, user_compare_by_username)`
unfoldable pub find_user : List ℕ → List User → Option User
find_user name [] = none
find_user name (u ∷ us) =
    let rest = find_user name us in if vstr_cmp_zero name u.name then some u else rest

-- the user, where the password is right
unfoldable pub check_password : (List ℕ → List ℕ) → List ℕ → Option User → Option User
check_password sha256 password none = none
check_password sha256 password (some u) =
    let hashed = hash_password sha256 password in
    if time_safe_equal hashed u.password (length hashed) then some u else none

module _ {D K : Type 0} (libc : Libc D) (ops : KeyOps K) (place : Object D → K)
    (value : K → Object D) (p : Platform) where
  unfoldable pub logged_in : Server K → Object D → Object D → Option User
  unfolding find_user check_password
  logged_in s (string username) (string password) =
      check_password p.sha256 password (find_user username s.users)
  logged_in s o q = none

  unfoldable pub auth_reply : Client → Option User → Client
  auth_reply c none = record c { builder = add_err c.builder (codes "failed to authenticate") }
  auth_reply c (some u) = record c {
    authenticated = true;
    builder = add_ok c.builder;
    user = some u;
  }

  -- the body of the loop over the keys
  unfoldable pub add_keys : Builder → List K → Option Builder
  add_keys b [] = some b
  add_keys b (k ∷ ks) = and_then (add_object libc b (value k)) (λ c. add_keys c ks)

  abbrev pub keys_of : Option (List (K × K)) → Option (List K)
  keys_of none = none
  keys_of (some entries) = some (map entry_key entries)

  -- the keys that the iterator over a dictionary sees
  abbrev pub dict_keys : Option (Lexidb K) → Option (List K)
  dict_keys none = none
  dict_keys (some d) = keys_of (ht_walk (length (flatten d.dict.entries) + 1) (ht_iter_new d.dict))

  abbrev pub add_seen : Builder → Option (List K) → Option Builder
  add_seen b none = none
  add_seen b (some ks) = add_keys b ks

  -- The number of keys is the client's database's, the keys are those of the first database.
  unfoldable pub execute_keys : Server K → Lexidb K → Builder → Option (Answer K)
  unfolding add_keys ht_walk ht_iter_new
  execute_keys s d b =
      if d.dict.num_entries == 0
      then replied d (some (add_none b)) true
      else replied d (add_seen (add_array b d.dict.num_entries) (dict_keys (get_elem? s.db 0))) true

  abbrev info_string : Builder → List ℕ → List ℕ → Builder
  info_string b name v = add_string (add_string b name) v

  abbrev info_int : Builder → List ℕ → ℕ → Builder
  info_int b name v = add_int (add_string b name) (pos v)

  unfoldable pub info_reply : Server K → Builder → Builder
  info_reply s b =
      let b = add_ht b 11 in
      let b = info_int b (codes "process id") s.pid in
      let b = info_string b (codes "executable") s.executable_path in
      let b = info_string b (codes "config file") s.conf_file_path in
      let b = info_string b (codes "OS") s.os_name in
      let b = info_string b (codes "multiplexing api") p.ev_api_name in
      let b = info_string b (codes "host") s.addr in
      let b = info_int b (codes "port") s.port in
      let b = info_int b (codes "commands processes") s.cmd_executed in
      let b = info_int b (codes "num connections") s.num_clients in
      let b = info_int b (codes "num databases") s.num_databases in
      info_string b (codes "uptime") (decimal (p.time - s.start_time) ++ codes " secs")

  -- a command on the client's database; `none` is an index past the databases
  abbrev pub with_db : Option (Lexidb K) → (Lexidb K → Option (Answer K)) → Option (Answer K)
  with_db none command = none
  with_db (some d) command = command d

  abbrev pub stored : Server K → Client → Option (Answer K) → Option (Server K × Client)
  stored s c none = none
  stored s c (some a) = some (
    record s {
      db = set s.db c.database_num a.db;
      cmd_executed = if a.counted then s.cmd_executed + 1 else s.cmd_executed;
    },
    record c { builder = a.reply },
  )

  abbrev pub on_db : Server K → Client → (Lexidb K → Option (Answer K)) → Option (Server K × Client)
  on_db s c command = stored s c (with_db (get_elem? s.db c.database_num) command)

  unfoldable pub execute_select : Server K → Client → ℕ → Client
  execute_select s c n =
      if leb s.num_databases n
      then record c { builder = add_err c.builder (codes "EDBRANGE") }
      else record c { database_num = n; builder = add_ok c.builder }

  abbrev pub counted : Server K → Server K
  counted s = record s { cmd_executed = s.cmd_executed + 1 }

  abbrev pub refused : Client → List ℕ → Client
  refused c error = record c { builder = add_err c.builder error }

  -- the switch of `execute_cmd`
  unfoldable pub execute_type : Server K → Client → Cmdt → CmdData D → Option (Server K × Client)
  unfolding execute_keys execute_select logged_in auth_reply info_reply
  execute_type s c okc args = some (s, c)
  execute_type s c ping args = some (counted s, record c { builder = add_pong c.builder })
  execute_type s c auth args =
      some (s, auth_reply c (logged_in s (first_object args) (second_object args)))
  execute_type s c infoc args = some (counted s, record c { builder = info_reply s c.builder })
  execute_type s c select args = some (s, execute_select s c (db_number (first_object args)))
  execute_type s c keys args = on_db s c (λ d. execute_keys s d c.builder)
  execute_type s c set_type args =
      on_db s c (λ d. execute_set libc ops place value p d c.builder args)
  execute_type s c get args = on_db s c (λ d. execute_get libc ops place value p d c.builder args)
  execute_type s c del args = on_db s c (λ d. execute_del libc ops place value p d c.builder args)
  execute_type s c push args = on_db s c (λ d. execute_push libc ops place value p d c.builder args)
  execute_type s c pop args = on_db s c (λ d. execute_pop libc ops place value p d c.builder)
  execute_type s c enque args =
      on_db s c (λ d. execute_enque libc ops place value p d c.builder args)
  execute_type s c deque args = on_db s c (λ d. execute_deque libc ops place value p d c.builder)
  execute_type s c zset args = on_db s c (λ d. execute_zset libc ops place value p d c.builder args)
  execute_type s c zhas args = on_db s c (λ d. execute_zhas libc ops place value p d c.builder args)
  execute_type s c zdel args = on_db s c (λ d. execute_zdel libc ops place value p d c.builder args)
  execute_type s c help args = some (s, refused c (codes "EINVCMD"))
  execute_type s c illegal args = some (s, refused c (codes "EINVCMD"))

  abbrev pub is_auth : Cmdt → Bool
  is_auth auth = true
  is_auth t = false

  abbrev pub is_illegal : Cmdt → Bool
  is_illegal illegal = true
  is_illegal t = false

  -- `execute_cmd`, on what `parse` gives for the client's read buffer: the client has to be
  -- authenticated, for everything but AUTH
  unfoldable pub execute_cmd : Server K → Client → Cmd D → Option (Server K × Client)
  unfolding execute_type
  execute_cmd s c cmd =
      let run = execute_type s c cmd.type cmd.args in
      if is_illegal cmd.type
      then some (s, refused c (codes "EINVCMD"))
      else if not c.authenticated && not (is_auth cmd.type)
      then some (s, refused c (codes "EUNAUTHED"))
      else run
