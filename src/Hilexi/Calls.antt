-- ===== src/Hilexi/Calls.antt =====
-- src/hilexi.c: the calls of the client library, the requests they write and the commands they stand for.
use lexidb.Base.{ℕ, ◌^◌, ◌<◌, List, Option}
use lexidb.Builder.{Builder}
use lexidb.Cmd.{
  Cmd, auth, ping, infoc, select, keys, set as set_type, get, del, push, pop, enque, deque, zset,
  zhas, zdel, zeroed, one, two,
}
use lexidb.Hilexi.{
  as_int64, auth_request, ping_request, select_request, set_request, info_request, keys_request,
  pop_request, deque_request, get_request, del_request, push_request, enque_request, zset_request,
  zhas_request, zdel_request,
}
use lexidb.Object.{Object, int, string}
use lexidb.Parser.Run.{Libc}
use lexidb.Protocol.Values.{reread, Fits}

-- a call of the library, with its arguments
pub data Call (D : Type 0) : Type 0 where
  to_authenticate : List ℕ → List ℕ → Call D
  to_ping to_info to_keys to_pop to_deque : Call D
  to_select : ℕ → Call D
  to_set : Object D → Object D → Call D
  to_get to_del to_push to_enque to_zset to_zhas to_zdel : Object D → Call D

module _ {D : Type 0} (libc : Libc D) where
  -- the request that a call writes
  abbrev pub request : Call D → Builder → Option Builder
  request (to_authenticate u p) b = auth_request libc b u p
  request to_ping b = ping_request libc b
  request to_info b = info_request libc b
  request to_keys b = keys_request libc b
  request to_pop b = pop_request libc b
  request to_deque b = deque_request libc b
  request (to_select n) b = select_request libc b n
  request (to_set k v) b = set_request libc b k v
  request (to_get o) b = get_request libc b o
  request (to_del o) b = del_request libc b o
  request (to_push o) b = push_request libc b o
  request (to_enque o) b = enque_request libc b o
  request (to_zset o) b = zset_request libc b o
  request (to_zhas o) b = zhas_request libc b o
  request (to_zdel o) b = zdel_request libc b o

  -- the command that it stands for
  abbrev pub command : Call D → Cmd D
  command (to_authenticate u p) = record { type = auth; args = two (string u) (string p) }
  command to_ping = record { type = ping; args = zeroed }
  command to_info = record { type = infoc; args = zeroed }
  command to_keys = record { type = keys; args = zeroed }
  command to_pop = record { type = pop; args = zeroed }
  command to_deque = record { type = deque; args = zeroed }
  command (to_select n) = record { type = select; args = one (int (as_int64 n)) }
  command (to_set k v) = record { type = set_type; args = two (reread libc k) (reread libc v) }
  command (to_get o) = record { type = get; args = one (reread libc o) }
  command (to_del o) = record { type = del; args = one (reread libc o) }
  command (to_push o) = record { type = push; args = one (reread libc o) }
  command (to_enque o) = record { type = enque; args = one (reread libc o) }
  command (to_zset o) = record { type = zset; args = one (reread libc o) }
  command (to_zhas o) = record { type = zhas; args = one (reread libc o) }
  command (to_zdel o) = record { type = zdel; args = one (reread libc o) }

  -- the arguments are within the machine's bounds
  abbrev pub FitsCall : Call D → Type 0
  FitsCall (to_authenticate u p) = Fits libc (string u) × Fits libc (string p)
  FitsCall (to_select n) = n < 2 ^ 64
  FitsCall (to_set k v) = Fits libc k × Fits libc v
  FitsCall (to_get o) = Fits libc o
  FitsCall (to_del o) = Fits libc o
  FitsCall (to_push o) = Fits libc o
  FitsCall (to_enque o) = Fits libc o
  FitsCall (to_zset o) = Fits libc o
  FitsCall (to_zhas o) = Fits libc o
  FitsCall (to_zdel o) = Fits libc o
  FitsCall _ = Unit
