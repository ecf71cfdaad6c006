-- ===== src/Tests/Commands.antt =====
-- The server at a concrete state: two databases, keys that are strings, and one user.
use lexidb.Server.Login.{LoggedIn, logged_in-LoggedIn}
use lexidb.Auth.{vstr_cmp_zero, hash_password, time_safe_equal}
use lexidb.Base.{ℕ, ◌≡◌, ◌↔◌, refl, List, [], ◌∷◌, none, some, true, false, ltb, ◌^◌, codes, arith}
use lexidb.Base.Decimal.{decimal}
use lexidb.Builder.{add_object, add_ok}
use lexidb.Builder.Wire.{wire, add_object_iff}
use lexidb.Cmd.{Cmd, one, two, set as set_type, get}
use lexidb.HashSet
use lexidb.Ht
use lexidb.Buckets.{slot_of}
use lexidb.Buckets.Store.{chain_at}
use lexidb.Keys.{same, hash}
use lexidb.Object.{Object, null, int, double, bool, string, array, ht}
use lexidb.Object.Compare.{object_cmp_zero, object_cmp_zero_iff}
use lexidb.Parser.Commands.{parse_from_server}
use lexidb.Parser.Objects.{reserves}
use lexidb.Parser.Run.{ret}
use lexidb.Parser.Scan.{at}
use lexidb.Protocol.Values.{reread}
use lexidb.Queue
use lexidb.Server.{Lexidb, Server, Client, Platform}
use lexidb.Server.{User}
use lexidb.Server.Access.{Locked, execute_all, execute_all-Locked}
use lexidb.Server.Commands.{Answer, execute_zset, execute_get, execute_set}
use lexidb.Server.Execute.{execute_cmd, logged_in}
use lexidb.Server.Isolation.{Isolated, execute_cmd-Isolated}
use lexidb.Server.Members.{Added, execute_zset-Added, execute_zset_lost}
use lexidb.Server.Range.{InRange, StaysInRange, execute_cmd-InRange}
use lexidb.Memory.{CallocFits}
use lexidb.Server.Storage.{Stored, execute_set-Stored, get_after_set}
use lexidb.Tests.Platform.{
  text_ops, text_ops-IsLawful, memory, memory-CallocFits, libc, libc-IsStandard,
}

-- the struct of a string
abbrev pub place : Object ℕ → List ℕ
place null = []
place (int z) = []
place (double d) = []
place (bool b) = []
place (string s) = s
place (array o) = []
place (ht p) = []

abbrev pub value : List ℕ → Object ℕ
value s = string s

abbrev pub platform : Platform
platform = record {
  memory = memory;
  realloc = λ n. ltb n (2 ^ 40);
  node = some 64;
  time = 20;
  ev_api_name = codes "epoll";
  sha256 = λ s. s;
}

abbrev pub empty_db : Lexidb (List ℕ)
empty_db = record {
  dict = Ht.new;
  set = HashSet.new;
  queue = Queue.new;
  vec = record { len = 0; cap = 2; data_size = 32; slots = [] ∷ [] ∷ [] };
}

abbrev pub server : Server (List ℕ)
server = record {
  pid = 7;
  port = 6969;
  executable_path = codes "/lexidb";
  os_name = codes "Linux";
  addr = codes "127.0.0.1";
  conf_file_path = codes "/lexi.conf";
  num_databases = 2;
  db = empty_db ∷ empty_db ∷ [];
  num_clients = 1;
  users = record { name = codes "root"; password = codes "73" } ∷ [];
  cmd_executed = 0;
  start_time = 10;
}

abbrev pub client : Client
client = record { authenticated = false; database_num = 1; builder = []; user = none }

abbrev foo_object : Object ℕ
foo_object = string (codes "foo")

abbrev set_foo : Cmd ℕ
set_foo = record { type = set_type; args = two foo_object foo_object }

abbrev get_foo : Cmd ℕ
get_foo = record { type = get; args = one foo_object }

execute_set-Stored_example :
    (r : Answer (List ℕ)) × (execute_set libc text_ops place value platform empty_db []
        (two foo_object foo_object)
      ≡ some r)
    × Stored libc text_ops text_ops-IsLawful value platform memory-CallocFits place place empty_db
        [] foo_object foo_object r
unfolding Ht.new
execute_set-Stored_example =
    execute_set-Stored libc text_ops text_ops-IsLawful value platform memory-CallocFits place place
      empty_db [] foo_object foo_object (Ht.Laws.new-IsValid text_ops).0 refl

execute_cmd-Isolated_example :
    Isolated libc text_ops place value platform server client
      (execute_cmd libc text_ops place value platform server client set_foo)
execute_cmd-Isolated_example =
    execute_cmd-Isolated libc text_ops place value platform server client set_foo

execute_all-Locked_example :
    Locked libc text_ops place value platform server client
      (codes "-EUNAUTHED\r\n-EUNAUTHED\r\n")
      (execute_all libc text_ops place value platform (set_foo ∷ get_foo ∷ []) server client)
execute_all-Locked_example =
    execute_all-Locked libc text_ops place value platform server client (set_foo ∷ get_foo ∷ [])
      refl (λ h. absurd (ground arith), (λ h. absurd (ground arith), tt))

foo-written : add_object libc [] foo_object ≡ some (codes "$3\r\nfoo\r\n")
foo-written =
    (add_object_iff libc [] (codes "$3\r\nfoo\r\n") foo_object).1 (tt, unfold wire decimal in refl)

get_after_set_example :
    (r : Answer (List ℕ)) × (s : Answer (List ℕ)) × (execute_set libc text_ops place value platform
        empty_db []
        (two foo_object foo_object)
      ≡ some r)
    × (execute_get libc text_ops place value platform r.db [] (one foo_object) ≡ some s)
    × (parse_from_server libc s.reply ≡ ret (reread libc foo_object, at []))
unfolding Ht.new same
get_after_set_example =
    get_after_set libc text_ops text_ops-IsLawful value platform memory-CallocFits place place
      libc-IsStandard empty_db [] foo_object foo_object foo_object (codes "$3\r\nfoo\r\n")
      (Ht.Laws.new-IsValid text_ops).0 refl refl refl (unfold reserves in (omega arith, refl))
      foo-written

client-InRange : InRange libc text_ops place value platform server client
client-InRange = record { all = refl; within = omega arith }

execute_cmd-InRange_example :
    StaysInRange libc text_ops place value platform
      (execute_cmd libc text_ops place value platform server client set_foo)
execute_cmd-InRange_example =
    execute_cmd-InRange libc text_ops place value platform server client set_foo client-InRange

execute_zset-Added_example :
    (r : Answer (List ℕ)) × (execute_zset libc text_ops place value platform empty_db []
        (one foo_object)
      ≡ some r)
    × Added libc text_ops text_ops-IsLawful value platform memory-CallocFits place place empty_db []
        foo_object r
unfolding HashSet.new
execute_zset-Added_example =
    execute_zset-Added libc text_ops text_ops-IsLawful value platform memory-CallocFits place place
      empty_db [] foo_object (HashSet.Laws.new-IsValid text_ops).0 refl refl

abbrev exhausted : Platform
exhausted = record platform { memory = record memory { malloc = false } }

exhausted-CallocFits : CallocFits exhausted.memory
exhausted-CallocFits n h = memory-CallocFits n h

execute_zset_lost_example :
    (r : Answer (List ℕ)) × (execute_zset libc text_ops place value exhausted empty_db []
        (one foo_object)
      ≡ some r)
    × (r.reply ≡ add_ok [])
    × ((k : List ℕ) → HashSet.has text_ops r.db.set k ≡ HashSet.has text_ops empty_db.set k)
unfolding HashSet.new HashSet.make_room chain_at slot_of hash
execute_zset_lost_example =
    execute_zset_lost libc text_ops text_ops-IsLawful value exhausted exhausted-CallocFits place
      place empty_db [] foo_object (HashSet.Laws.new-IsValid text_ops).0 refl refl
      ((HashSet.Laws.new-IsValid text_ops).1 (codes "foo")) refl

abbrev root : User
root = record { name = codes "root"; password = codes "73" }

root_in :
    logged_in libc text_ops place value platform server (string (codes "root")) (string (codes "s"))
    ≡ some root
unfolding logged_in vstr_cmp_zero hash_password time_safe_equal
root_in = refl

logged_in-LoggedIn_example :
    LoggedIn libc text_ops place value platform server
      (string (codes "root"))
      (string (codes "s"))
      root
logged_in-LoggedIn_example =
    logged_in-LoggedIn libc text_ops place value platform server (string (codes "root"))
      (string (codes "s")) root root_in

object_cmp_zero_iff_example :
    (object_cmp_zero {D = ℕ} (λ d. true) foo_object (string (codes "fop")) ≡ true)
    ↔ (foo_object ≡ string (codes "fop"))
object_cmp_zero_iff_example =
    object_cmp_zero_iff (λ d. true) foo_object (string (codes "fop"))
      (
        (λ h. absurd (omega arith)),
        ((λ h. absurd (omega arith)), ((λ h. absurd (omega arith)), tt)),
      )
      (
        (λ h. absurd (omega arith)),
        ((λ h. absurd (omega arith)), ((λ h. absurd (omega arith)), tt)),
      )
