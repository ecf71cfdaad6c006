-- ===== src/Server/Commands.antt =====
-- src/server.c: the commands on the client's database (`execute_set_command` and its like, with what
-- `execute_cmd` replies).
use lexidb.Base.{Bool, true, false, Option, none, some, codes, if◌then◌else◌}
use lexidb.Base.Int.{pos}
use lexidb.Builder.{Builder, add_ok, add_none, add_err, add_int, add_object}
use lexidb.Cmd.{CmdData, zeroed, one, two, help_with}
use lexidb.HashSet
use lexidb.HashSet.{HashSet, SetResult, set_ok, set_key_exists, set_inv_key, set_oom, minus_one}
use lexidb.Ht
use lexidb.Ht.{Ht, HtResult, ht_ok, ht_inv_key, ht_oom}
use lexidb.Keys.{KeyOps}
use lexidb.Object.{Object, null}
use lexidb.Parser.Run.{Libc}
use lexidb.Queue
use lexidb.Queue.{Queue, QueueResult, done, failed, crashed}
use lexidb.Server.{Lexidb, Platform}
use lexidb.Vec
use lexidb.Vec.{Vec}

-- the union's objects; what the parser has not set is zero, a Null object
unfoldable pub first_object : {D : Type 0} → CmdData D → Object D
first_object zeroed = null
first_object (one o) = o
first_object (two o p) = o
first_object (help_with t) = null

unfoldable pub second_object : {D : Type 0} → CmdData D → Object D
second_object zeroed = null
second_object (one o) = null
second_object (two o p) = p
second_object (help_with t) = null

-- A command's outcome: the database, the reply, and whether `cmd_executed` goes up.
pub record Answer (K : Type 0) : Type 0 where
  pub db : Lexidb K
  pub reply : Builder
  pub counted : Bool

-- `none` where the writer gives no reply
abbrev pub replied : {K : Type 0} → Lexidb K → Option Builder → Bool → Option (Answer K)
replied d none counted = none
replied d (some b) counted = some (record { db = d; reply = b; counted = counted })

-- `place` is where the parser has put the request's objects, `value` the object that a struct holds.
module _ {D K : Type 0} (libc : Libc D) (ops : KeyOps K) (place : Object D → K)
    (value : K → Object D) (p : Platform) where
  unfoldable pub set_reply : Lexidb K → Builder → Ht K K × HtResult → Option (Answer K)
  set_reply d b (t, ht_ok) = replied (record d { dict = t }) (some (add_ok b)) true
  set_reply d b (t, ht_inv_key) =
      replied (record d { dict = t }) (some (add_err b (codes "EOOM"))) false
  set_reply d b (t, ht_oom) =
      replied (record d { dict = t }) (some (add_err b (codes "EOOM"))) false

  unfoldable pub execute_set : Lexidb K → Builder → CmdData D → Option (Answer K)
  unfolding set_reply
  execute_set d b args =
      set_reply d b
        (Ht.insert ops p.memory d.dict (place (first_object args)) (place (second_object args)))

  unfoldable pub get_reply : Lexidb K → Builder → Option K → Option (Answer K)
  get_reply d b none = replied d (some (add_none b)) false
  get_reply d b (some o) = replied d (add_object libc b (value o)) true

  unfoldable pub execute_get : Lexidb K → Builder → CmdData D → Option (Answer K)
  unfolding get_reply
  execute_get d b args = get_reply d b (Ht.get ops d.dict (place (first_object args)))

  unfoldable pub del_reply : Lexidb K → Builder → Ht K K × HtResult → Option (Answer K)
  del_reply d b (t, ht_ok) = replied (record d { dict = t }) (some (add_ok b)) true
  del_reply d b (t, ht_inv_key) =
      replied (record d { dict = t }) (some (add_err b (codes "EINVKEY"))) false
  del_reply d b (t, ht_oom) =
      replied (record d { dict = t }) (some (add_err b (codes "EINVKEY"))) false

  unfoldable pub execute_del : Lexidb K → Builder → CmdData D → Option (Answer K)
  unfolding del_reply
  execute_del d b args = del_reply d b (Ht.delete ops d.dict (place (first_object args)))

  unfoldable pub push_reply : Lexidb K → Builder → Option (Vec K) → Option (Answer K)
  push_reply d b none = replied d (some (add_err b (codes "unable to push"))) false
  push_reply d b (some v) = replied (record d { vec = v }) (some (add_ok b)) true

  unfoldable pub execute_push : Lexidb K → Builder → CmdData D → Option (Answer K)
  unfolding push_reply
  execute_push d b args =
      push_reply d b (Vec.push (place null) p.realloc d.vec (place (first_object args)))

  unfoldable pub pop_reply : Lexidb K → Builder → Option (K × Vec K) → Option (Answer K)
  pop_reply d b none = replied d (some (add_none b)) false
  pop_reply d b (some (o, v)) = replied (record d { vec = v }) (add_object libc b (value o)) true

  unfoldable pub execute_pop : Lexidb K → Builder → Option (Answer K)
  unfolding pop_reply
  execute_pop d b = pop_reply d b (Vec.pop (place null) d.vec)

  -- A use of a null or freed pointer does not return.
  unfoldable pub enque_reply : Lexidb K → Builder → QueueResult (Queue K) → Option (Answer K)
  enque_reply d b (done q) = replied (record d { queue = q }) (some (add_ok b)) true
  enque_reply d b failed = replied d (some (add_err b (codes "failed to enque data"))) false
  enque_reply d b crashed = none

  unfoldable pub execute_enque : Lexidb K → Builder → CmdData D → Option (Answer K)
  unfolding enque_reply
  execute_enque d b args = enque_reply d b (Queue.enque d.queue (place (first_object args)) p.node)

  unfoldable pub deque_reply : Lexidb K → Builder → QueueResult (K × Queue K) → Option (Answer K)
  deque_reply d b (done (o, q)) =
      replied (record d { queue = q }) (add_object libc b (value o)) true
  deque_reply d b failed = replied d (some (add_none b)) false
  deque_reply d b crashed = none

  unfoldable pub execute_deque : Lexidb K → Builder → Option (Answer K)
  unfolding deque_reply
  execute_deque d b = deque_reply d b (Queue.deque d.queue)

  -- Of all the failures only SET_OOM is an error to the client.
  unfoldable pub zset_reply : Lexidb K → Builder → HashSet K × SetResult → Option (Answer K)
  zset_reply d b (s, set_oom) =
      replied (record d { set = s }) (some (add_err b (codes "EOOM"))) false
  zset_reply d b (s, set_ok) = replied (record d { set = s }) (some (add_ok b)) true
  zset_reply d b (s, set_key_exists) = replied (record d { set = s }) (some (add_ok b)) true
  zset_reply d b (s, set_inv_key) = replied (record d { set = s }) (some (add_ok b)) true
  zset_reply d b (s, minus_one) = replied (record d { set = s }) (some (add_ok b)) true

  unfoldable pub execute_zset : Lexidb K → Builder → CmdData D → Option (Answer K)
  unfolding zset_reply
  execute_zset d b args =
      zset_reply d b (HashSet.insert ops p.memory d.set (place (first_object args)))

  unfoldable pub execute_zhas : Lexidb K → Builder → CmdData D → Option (Answer K)
  execute_zhas d b args =
      if HashSet.has ops d.set (place (first_object args))
      then replied d (some (add_int b (pos 1))) true
      else replied d (some (add_none b)) false

  unfoldable pub zdel_reply : Lexidb K → Builder → HashSet K × SetResult → Option (Answer K)
  zdel_reply d b (s, set_ok) = replied (record d { set = s }) (some (add_ok b)) true
  zdel_reply d b (s, r) = replied (record d { set = s }) (some (add_err b (codes "EINVKEY"))) false

  unfoldable pub execute_zdel : Lexidb K → Builder → CmdData D → Option (Answer K)
  unfolding zdel_reply
  execute_zdel d b args = zdel_reply d b (HashSet.delete ops d.set (place (first_object args)))
