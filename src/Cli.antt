-- ===== src/Cli.antt =====
-- src/lexi-cli.c, src/read_line.c: the client program. The terminal is the bytes that have been typed;
-- where they end the program waits for more. The end of the file, at which `fgetc` gives -1 for ever,
-- is not among them.
pub mod Typing
pub mod Turns
pub mod Loop
pub mod Start
use lexidb.Base.{
  ℕ, zero, suc, ◌-◌, Bool, true, false, ◌&&◌, List, [], ◌∷◌, ◌++◌, Option, none, some, codes,
  length, if◌then◌else◌, ◌==◌,
}
use lexidb.Cmd.{
  Cmd, Cmdt, CmdData, ping, infoc, select, help, keys, set, get, del, push, pop, enque, deque, zset,
  zhas, zdel,
}
use lexidb.Hilexi.{
  Hilexi, Socket, Exchange, hilexi_authenticate, hilexi_ping, hilexi_select, hilexi_set,
  hilexi_info, hilexi_keys, hilexi_pop, hilexi_deque, hilexi_get, hilexi_del, hilexi_push,
  hilexi_enque, hilexi_zset, hilexi_zhas, hilexi_zdel,
}
use lexidb.Keys.{memcmp_zero}
use lexidb.LineParser.{parse_line}
use lexidb.Object.{Object, string}
use lexidb.Parser.Run.{Run, ret, spins, Libc}
use lexidb.Server.Commands.{first_object, second_object}
use lexidb.Server.Execute.{db_number}
use lexidb.Vstr.{Vstr, Heap, VstrLg, vstr_new, vstr_push_char, vstr_reset}
use lexidb.Vstr.Laws.{text}

abbrev unless_refused :
    (VstrLg → List ℕ)
    → List ℕ
    → Bool × Vstr
    → (Vstr → Option (Vstr × List ℕ))
    → Option (Vstr × List ℕ)
unless_refused layout rest (false, s) next = some (vstr_reset layout s, rest)
unless_refused layout rest (true, s) next = next s

-- the loop of `read_line`: the line, and what has been typed behind it
unfoldable pub read_line_loop : Heap → (VstrLg → List ℕ) → List ℕ → Vstr → Option (Vstr × List ℕ)
unfolding vstr_push_char vstr_reset
read_line_loop heap layout [] s = none
read_line_loop heap layout (c ∷ typed) s =
    if c == b'\n'
    then some (s, typed)
    else unless_refused layout typed (vstr_push_char heap s c)
        (λ t. read_line_loop heap layout typed t)

unfoldable pub read_line : Heap → (VstrLg → List ℕ) → List ℕ → Option (Vstr × List ℕ)
unfolding read_line_loop vstr_new
read_line heap layout typed = read_line_loop heap layout typed vstr_new

-- `line_len == 4 && memcmp(line_data, "exit", 4) == 0`
unfoldable pub is_exit : List ℕ → Bool
is_exit line = length line == 4 && memcmp_zero line (codes "exit")

-- What the user sees: an object, or an error.
pub data Told (D : Type 0) : Type 0 where
  shown : Object D → Told D
  failed : Told D

-- The program has returned, waits for a line, or is in a call that never returns; or it has no
-- fuel, which has no counterpart in the program.
pub data Ends : Type 0 where
  returned : ℕ → Ends
  waits hangs no_fuel : Ends

-- what the program has sent, what it has told the user, and where it is
pub record Session (D : Type 0) : Type 0 where
  pub sent : List (List ℕ)
  pub told : List (Told D)
  pub ends : Ends

module _ {D : Type 0} (libc : Libc D) where
  -- nothing is sent
  abbrev without_call : Hilexi → Option (Object D) → Exchange (Object D)
  without_call l r = record { sent = []; outcome = ret r; client = l }

  -- the switch of `execute_cmd`
  unfoldable pub execute_cmd_type : Socket → Hilexi → Cmdt → CmdData D → Exchange (Object D)
  unfolding first_object second_object db_number hilexi_ping hilexi_select hilexi_set hilexi_info
      hilexi_keys hilexi_pop hilexi_deque hilexi_get hilexi_del hilexi_push hilexi_enque hilexi_zset
      hilexi_zhas hilexi_zdel
  execute_cmd_type socket l ping args = hilexi_ping libc socket l
  execute_cmd_type socket l infoc args = hilexi_info libc socket l
  execute_cmd_type socket l help args = without_call l (some (string (codes "help")))
  execute_cmd_type socket l select args =
      hilexi_select libc socket l (db_number (first_object args))
  execute_cmd_type socket l keys args = hilexi_keys libc socket l
  execute_cmd_type socket l set args =
      hilexi_set libc socket l (first_object args) (second_object args)
  execute_cmd_type socket l get args = hilexi_get libc socket l (first_object args)
  execute_cmd_type socket l del args = hilexi_del libc socket l (first_object args)
  execute_cmd_type socket l push args = hilexi_push libc socket l (first_object args)
  execute_cmd_type socket l pop args = hilexi_pop libc socket l
  execute_cmd_type socket l enque args = hilexi_enque libc socket l (first_object args)
  execute_cmd_type socket l deque args = hilexi_deque libc socket l
  execute_cmd_type socket l zset args = hilexi_zset libc socket l (first_object args)
  execute_cmd_type socket l zhas args = hilexi_zhas libc socket l (first_object args)
  execute_cmd_type socket l zdel args = hilexi_zdel libc socket l (first_object args)
  execute_cmd_type socket l type args = without_call l none

  unfoldable pub execute_cmd : Socket → Hilexi → Cmd D → Exchange (Object D)
  unfolding execute_cmd_type
  execute_cmd socket l cmd = execute_cmd_type socket l cmd.type cmd.args

  -- what the result of a command is to the user
  unfoldable pub told_of : Option (Object D) → Told D
  told_of none = failed
  told_of (some o) = shown o

  abbrev after_command : List ℕ → Run (Option (Object D)) → Session D → Session D
  after_command out (ret r) rest = record {
    sent = out ∷ rest.sent;
    told = told_of r ∷ rest.told;
    ends = rest.ends;
  }
  after_command out _ rest = record { sent = out ∷ []; told = []; ends = hangs }

  abbrev pub ended : Ends → Session D
  ended e = record { sent = []; told = []; ends = e }

  abbrev with_socket : List Socket → (Socket → List Socket → Session D) → Session D
  with_socket [] next = ended waits
  with_socket (socket ∷ sockets) next = next socket sockets

  abbrev if_line : Option (Vstr × List ℕ) → (List ℕ → List ℕ → Session D) → Session D
  if_line none next = ended waits
  if_line (some (s, typed)) next = next (text s) typed

  -- The loop of `main`. Every command has the kernel's answers to it in its turn.
  unfoldable pub main_loop :
      ℕ → Heap → (VstrLg → List ℕ) → List Socket → List ℕ → Hilexi → Session D
  unfolding read_line text is_exit execute_cmd told_of
  main_loop zero heap layout sockets typed l = ended no_fuel
  main_loop (suc fuel) heap layout sockets typed l =
      if_line (read_line heap layout typed) (λ line rest.
        let empty = main_loop fuel heap layout sockets rest l in
        let run = with_socket sockets (λ socket later.
          let e = execute_cmd socket l (parse_line line) in
          after_command e.sent e.outcome (main_loop fuel heap layout later rest e.client)) in
        if length line == 0 then empty else if is_exit line then ended (returned 0) else run)
