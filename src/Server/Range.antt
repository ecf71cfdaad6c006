-- ===== src/Server/Range.antt =====
-- src/server.c: the number of the database that a client uses.
use lexidb.Base.{
  ℕ, ◌<◌, ◌≡◌, Option, none, some, arith, length, length-set, Bool-cases, inl, inr, ◌&&◌, not, leb,
}
use lexidb.Cmd.{
  Cmd, Cmdt, CmdData, illegal, okc, auth, ping, infoc, select, help, keys, set as set_type, get,
  del, push, pop, enque, deque, zset, zhas, zdel,
}
use lexidb.Keys.{KeyOps}
use lexidb.Object.{Object}
use lexidb.Parser.Run.{Libc}
use lexidb.Server.{Server, Client, User, Platform}
use lexidb.Server.Commands.{Answer}
use lexidb.Server.Execute.{
  execute_type, execute_cmd, stored, is_auth, is_illegal, auth_reply, execute_select,
}

module _ {D K : Type 0} (libc : Libc D) (ops : KeyOps K) (place : Object D → K)
    (value : K → Object D) (p : Platform) where
  -- The client uses one of the databases.
  pub record InRange (s : Server K) (c : Client) : Type 0 where
    pub all : s.num_databases ≡ length s.db
    pub within : c.database_num < s.num_databases

  abbrev pub StaysInRange : Option (Server K × Client) → Type 0
  StaysInRange none = Unit
  StaysInRange (some (t, e)) = InRange t e

  stored-InRange :
      (s : Server K) (c : Client) (a : Option (Answer K))
      → InRange s c
      → StaysInRange (stored libc ops place value p s c a)
  stored-InRange s c none r = tt
  stored-InRange s c (some a) r = record {
    all = omega (arith, r.all, length-set s.db c.database_num a.db);
    within = r.within;
  }

  auth_reply-InRange :
      (s : Server K) (c : Client) (u : Option User)
      → InRange s c
      → InRange s (auth_reply libc ops place value p c u)
  unfolding auth_reply
  auth_reply-InRange s c none r = record { all = r.all; within = r.within }
  auth_reply-InRange s c (some u) r = record { all = r.all; within = r.within }

  execute_select-InRange :
      (s : Server K) (c : Client) (n : ℕ)
      → InRange s c
      → InRange s (execute_select libc ops place value p s c n)
  unfolding execute_select
  execute_select-InRange s c n r = elim (Bool-cases (leb s.num_databases n)) [
    | inl past ↦ rw past (record { all = r.all; within = r.within })
    | inr inside ↦ rw inside (record { all = r.all; within = ground arith })
  ]

  execute_type-InRange :
      (s : Server K) (c : Client) (t : Cmdt) (args : CmdData D)
      → InRange s c
      → StaysInRange (execute_type libc ops place value p s c t args)
  unfolding execute_type
  execute_type-InRange s c okc args r = record { all = r.all; within = r.within }
  execute_type-InRange s c ping args r = record { all = r.all; within = r.within }
  execute_type-InRange s c auth args r = auth_reply-InRange s c _ r
  execute_type-InRange s c infoc args r = record { all = r.all; within = r.within }
  execute_type-InRange s c select args r = execute_select-InRange s c _ r
  execute_type-InRange s c help args r = record { all = r.all; within = r.within }
  execute_type-InRange s c illegal args r = record { all = r.all; within = r.within }
  execute_type-InRange s c keys args r = stored-InRange s c _ r
  execute_type-InRange s c set_type args r = stored-InRange s c _ r
  execute_type-InRange s c get args r = stored-InRange s c _ r
  execute_type-InRange s c del args r = stored-InRange s c _ r
  execute_type-InRange s c push args r = stored-InRange s c _ r
  execute_type-InRange s c pop args r = stored-InRange s c _ r
  execute_type-InRange s c enque args r = stored-InRange s c _ r
  execute_type-InRange s c deque args r = stored-InRange s c _ r
  execute_type-InRange s c zset args r = stored-InRange s c _ r
  execute_type-InRange s c zhas args r = stored-InRange s c _ r
  execute_type-InRange s c zdel args r = stored-InRange s c _ r

  -- A command that returns leaves a client that uses one of the databases using one of them,
  -- whatever number it selects.
  pub execute_cmd-InRange :
      (s : Server K) (c : Client) (cmd : Cmd D)
      → InRange s c
      → StaysInRange (execute_cmd libc ops place value p s c cmd)
  unfolding execute_cmd
  execute_cmd-InRange s c cmd r = elim (Bool-cases (is_illegal libc ops place value p cmd.type)) [
    | inl bad ↦ rw bad (record { all = r.all; within = r.within })
    | inr known ↦
        elim (Bool-cases (not c.authenticated && not (is_auth libc ops place value p cmd.type))) [
          | inl unknown ↦ rw (known, unknown) (record { all = r.all; within = r.within })
          | inr admitted ↦ rw (known, admitted) (execute_type-InRange s c cmd.type cmd.args r)
        ]
  ]
