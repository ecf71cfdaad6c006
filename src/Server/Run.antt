-- ===== src/Server/Run.antt =====
-- src/server.c (server_run): from the command line to the server that awaits events. `realpath` is the
-- C library's. What is logged is left out.
pub mod Path
use lexidb.Base.{ℕ, Bool, List, [], Option, none, some, codes, if◌then◌else◌}
use lexidb.Base.Int.{ℤ}
use lexidb.Clap.{Arg, Cla, string_arg, arg_new, blank_arg, args_add, parse_cmd_line_args, args_get}
use lexidb.Memory.{Memory}
use lexidb.Object.{Object, string}
use lexidb.Server.Boot.{
  System, Started, started, failed, crashed, endless, Running, ◌>>=◌, from_some, server_new,
}
use lexidb.Vec
use lexidb.Vec.{Vec}

-- the argument that `server_run` adds
unfoldable pub conf_arg : Arg
unfolding arg_new
conf_arg =
    arg_new (codes "config file path") (some (codes "-c")) (some (codes "--config"))
      (some (codes "the path to the configuration file to configure lexidb")) string_arg

-- The process ends with a status, or the server waits for its events.
pub data Outcome (K Handler : Type 0) : Type 0 where
  exits : ℕ → Outcome K Handler
  awaits : Running K Handler → Outcome K Handler

abbrev pub default_conf_path : List ℕ
default_conf_path = codes "../lexi.conf"

abbrev added : Vec Arg → Option (Vec Arg) → Vec Arg
added v none = v
added v (some w) = w

-- The vector of arguments; what args_add answers is not looked at, and without a vector it crashes.
unfoldable pub server_args : {Handler : Type 0} → ℕ → System Handler → Started (Vec Arg)
unfolding conf_arg args_add
server_args arg_size sys = from_some (Vec.new blank_arg sys.malloc arg_size) crashed >>= λ v.
    started (
      added v (
        args_add sys.realloc v (codes "config file path") (some (codes "-c"))
          (some (codes "--config"))
          (some (codes "the path to the configuration file to configure lexidb")) string_arg))

-- the path of the configuration; the argument has a string
abbrev pub given_path : {D : Type 0} → Option (Object D) → List ℕ
given_path none = default_conf_path
given_path (some (string path)) = path
given_path (some o) = []

abbrev pub after_new :
    {K Handler : Type 0} → Started (Running K Handler) → Started (Outcome K Handler)
after_new (started r) = started (awaits r)
after_new (failed e) = started (exits 1)
after_new crashed = crashed
after_new endless = endless

abbrev pub run_from :
    {K Handler : Type 0} → K → System Handler → Option (List ℕ) → Started (Outcome K Handler)
run_from blank sys none = started (exits 1)
run_from blank sys (some path) = after_new (server_new blank sys path)

module _ (D : Type 0) {K Handler : Type 0} (siphash : List ℕ → ℕ) (m : Memory) (atoll : List ℕ → ℤ)
    (realpath : List ℕ → Option (List ℕ)) (blank : K) (sys : System Handler) where
  unfoldable pub run_cla : Cla D → Started (Outcome K Handler)
  unfolding args_get server_new
  run_cla c =
      if c.has_error
      then started (exits 0)
      else if c.version_requested
      then started (exits 0)
      else if c.help_requested
      then started (exits 0)
      else run_from blank sys
          (realpath (given_path (args_get siphash m atoll c (codes "config file path"))))

  -- the whole program, up to `ev_await`
  unfoldable pub server_run : ℕ → List (List ℕ) → Started (Outcome K Handler)
  unfolding server_args run_cla parse_cmd_line_args
  server_run arg_size words =
      if sys.sigint_handler
      then (server_args arg_size sys >>= λ args.
          run_cla (parse_cmd_line_args siphash m atoll args words))
      else started (exits 1)
