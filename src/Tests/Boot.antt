-- ===== src/Tests/Boot.antt =====
-- A server that starts.
use lexidb.Auth.{vstr_cmp_zero, strncmp_zero, hash_password}
use lexidb.Base.{
  ℕ, ◌^◌, ◌≡◌, ◌≢◌, refl, List, [], ◌∷◌, Option, none, some, arith, codes, ltb, true, false,
  replicate,
}
use lexidb.ConfigParser.{config_program}
use lexidb.Ev.{ev_new, ev_add_event, no_event}
use lexidb.HashSet
use lexidb.Ht
use lexidb.Queue
use lexidb.Server.Boot.{
  System, Running, failed, endless, users_not_added, server_new, info, read_config, read_file,
  read_file_loop, kept_address, users_of, events_of, lexidb_new, log_level_of, ◌>>=◌, read_mask,
}
use lexidb.Server.Boot.Ends.{server_new-Ends}
use lexidb.Server.Run.{server_run, run_from}
use lexidb.Server.Run.Path.{server_run-Path}
use lexidb.Server.Start.{add_user, round, add_loop, add_users}
use lexidb.Tests.Args.{sip}
use lexidb.Tests.Platform.{memory, memory-CallocFits, read_ℤ}
use lexidb.Tests.Strings.{heap}
use lexidb.Vec
use lexidb.Vec.{find, find_from, push, append, vec_realloc}
use lexidb.Vec.Iter.{iter_new, iter_next}
use lexidb.Vec.Laws.{AllocFits}
use lexidb.Vstr.{vstr_len, vstr_data, vstr_new, vstr_push_char, sm_push_char, copy_to}
use lexidb.Vstr.Laws.{text}

abbrev conf_file : List ℕ → Option (List ℕ)
conf_file path = some (codes "user root >s\nport 7000\n")

abbrev sys : System ℕ
sys = record {
  sigint_handler = true;
  heap = heap;
  freed_address = λ s. s;
  create_tcp_socket = some 3;
  set_reuse_addr = true;
  fopen = conf_file;
  tcp_bind = λ addr port. true;
  tcp_listen = true;
  malloc = λ n. ltb n (2 ^ 40);
  realloc = λ n. ltb n (2 ^ 40);
  calloc = λ n. ltb n (2 ^ 40);
  executable_path = some (codes "/lexidb");
  os_name = codes "Linux";
  ev_allocated = true;
  epoll_ctl = λ c. true;
  server_accept = 1;
  time = 10;
  pid = 7;
  sha256 = λ s. s;
  user_size = 56;
  object_size = 64;
}

sys-AllocFits : AllocFits sys.realloc
sys-AllocFits n h = ground arith

abbrev running : Running (List ℕ) ℕ
running = record {
  server = record {
    pid = 7;
    port = 7000;
    executable_path = codes "/lexidb";
    os_name = codes "Linux";
    addr = codes "127.0.0.1";
    conf_file_path = codes "/lexi.conf";
    num_databases = 16;
    db = replicate 16 (record {
      dict = Ht.new;
      set = HashSet.new;
      queue = Queue.new;
      vec = record { len = 0; cap = 2; data_size = 64; slots = [] ∷ [] ∷ [] };
    });
    num_clients = 0;
    users = record { name = codes "root"; password = codes "73" } ∷ [];
    cmd_executed = 0;
    start_time = 10;
  };
  log_level = info;
  sfd = 3;
  ev =
      (ev_add_event (λ c. true)
        (record { max_fd = none; num_fds = 10; events = replicate 10 no_event }) 3
        (read_mask {K = List ℕ} [] sys) 1 tt).1;
}

abbrev no_user_sys : System ℕ
no_user_sys = record sys { fopen = λ path. some (codes "port 80\n") }

-- A configuration without users is refused.
no_users_refused :
    server_new {K = List ℕ} [] no_user_sys (codes "/lexi.conf") ≡ failed users_not_added
unfolding config_program server_new read_config read_file read_file_loop kept_address text vstr_len
    vstr_data vstr_new vstr_push_char sm_push_char copy_to users_of events_of lexidb_new
    log_level_of ◌>>=◌ Vec.new add_users add_loop round add_user iter_new iter_next find find_from
    push append vec_realloc vstr_cmp_zero strncmp_zero hash_password ev_new ev_add_event
no_users_refused = refl

server_new-Ends_example : server_new {K = List ℕ} [] no_user_sys (codes "/lexi.conf") ≢ endless
server_new-Ends_example =
    server_new-Ends [] no_user_sys sys-AllocFits (omega arith, omega arith) (codes "/lexi.conf")

server_run-Path_example :
    server_run ℕ sip memory read_ℤ
      (λ path. some path)
      []
      sys
      112
      (codes "--config" ∷ codes "a.conf" ∷ codes "-c" ∷ codes "b.conf" ∷ [])
    ≡ run_from {K = List ℕ} [] sys (some (codes "a.conf"))
server_run-Path_example =
    server_run-Path ℕ sip memory read_ℤ (λ path. some path) [] sys 112
      ((true, codes "a.conf") ∷ (false, codes "b.conf") ∷ []) memory-CallocFits refl refl
      (omega arith)
