-- ===== src/Hilexi.antt =====
-- src/hilexi.c: the client library. `read_buf` is the bytes that have been read into the buffer, up to
-- `read_pos`. The socket is what the kernel answers, in order, to the calls of write and of read; where
-- the answers end, the client waits for ever. A result of type Err is `none`.
pub mod Calls
pub mod Messages
pub mod Requests
pub mod Replies
pub use lexidb.Socket.{ReadAnswer, received, closed, would_block, read_failed}
use lexidb.Auth.{vstr_cmp_zero}
use lexidb.Base.{
  ℕ, ◌+◌, ◌-◌, ◌*◌, ◌%◌, ◌^◌, Bool, true, false, List, [], ◌∷◌, ◌++◌, Option, none, some, codes,
  length, take, drop, ◌==◌, ltb, if◌then◌else◌,
}
use lexidb.Base.Int.{ℤ, pos, negsuc}
use lexidb.Builder.{Builder, add_array, add_string, add_int, add_ping, add_object, and_then}
use lexidb.Object.{Object, string}
use lexidb.Parser.Commands.{parse_from_server}
use lexidb.Parser.Run.{Run, ret, spins, ◌>>=◌, Libc}
use lexidb.Parser.Scan.{Parser}

pub record Hilexi : Type 0 where
  pub builder : Builder
  pub read_buf : List ℕ
  pub read_cap : ℕ

-- What a write answers is the number of bytes that it took, or -1.
pub record Socket : Type 0 where
  pub writes : List (Option ℕ)
  pub reads : List ReadAnswer
  pub realloc : ℕ → Bool

pub data Ending : Type 0 where
  finished failed waiting : Ending

-- the loop of `hilexi_write`: the bytes that the kernel takes of those that are left
unfoldable pub write_loop : List (Option ℕ) → List ℕ → List ℕ × Ending
write_loop answers [] = ([], finished)
write_loop [] (x ∷ xs) = ([], waiting)
write_loop (none ∷ answers) (x ∷ xs) = ([], failed)
write_loop (some n ∷ answers) (x ∷ xs) =
    let (sent, ending) = write_loop answers (drop n (x ∷ xs)) in (take n (x ∷ xs) ++ sent, ending)

unfoldable pub hilexi_write : Socket → Hilexi → (List ℕ × Ending) × Hilexi
unfolding write_loop
hilexi_write socket l = (write_loop socket.writes l.builder, record l { builder = [] })

-- `realloc_read_buf`, where the buffer is full
unfoldable pub grow : (ℕ → Bool) → Hilexi → Option Hilexi
grow realloc l =
    if length l.read_buf == l.read_cap
    then (if realloc (l.read_cap * 2 % 2 ^ 64)
        then some (record l { read_cap = l.read_cap * 2 % 2 ^ 64 })
        else none)
    else some l

abbrev pub if_grown : Hilexi → Option Hilexi → (Hilexi → Ending × Hilexi) → Ending × Hilexi
if_grown l none next = (failed, l)
if_grown l (some m) next = next m

-- the loop of `hilexi_read`; `any` is `received_data`
unfoldable pub read_loop : (ℕ → Bool) → Bool → List ReadAnswer → Hilexi → Ending × Hilexi
unfolding grow
read_loop realloc any [] l = if_grown l (grow realloc l) (λ m. (waiting, m))
read_loop realloc any (received xs ∷ answers) l =
    if_grown l (grow realloc l)
      (λ m. read_loop realloc true answers (record m { read_buf = m.read_buf ++ xs }))
read_loop realloc any (closed ∷ answers) l = if_grown l (grow realloc l) (λ m. (finished, m))
read_loop realloc any (would_block ∷ answers) l =
    if_grown l (grow realloc l)
      (λ m. let again = read_loop realloc any answers m in if any then (finished, m) else again)
read_loop realloc any (read_failed ∷ answers) l = if_grown l (grow realloc l) (λ m. (failed, m))

unfoldable pub hilexi_read : Socket → Hilexi → Ending × Hilexi
unfolding read_loop
hilexi_read socket l = read_loop socket.realloc false socket.reads l

-- `db_num` as an int64_t
unfoldable pub as_int64 : ℕ → ℤ
as_int64 n = if ltb n (2 ^ 63) then pos n else negsuc (2 ^ 64 - n - 1)

-- what the socket was given, what the call gives to the program, and the client after it
pub record Exchange (A : Type 0) : Type 0 where
  pub sent : List ℕ
  pub outcome : Run (Option A)
  pub client : Hilexi

module _ {D : Type 0} (libc : Libc D) where
  abbrev parsed : Run (Object D × Parser) → Run (Option (Object D))
  parsed r = r >>= λ o. ret (some o.0)

  -- the reply is parsed (`hilexi_parse`) where the read has succeeded
  unfoldable pub after_read : List ℕ → Ending × Hilexi → Exchange (Object D)
  after_read sent (finished, l) = record {
    sent = sent;
    outcome = parsed (parse_from_server libc l.read_buf);
    client = record l { read_buf = [] };
  }
  after_read sent (failed, l) = record { sent = sent; outcome = ret none; client = l }
  after_read sent (waiting, l) = record { sent = sent; outcome = spins; client = l }

  unfoldable pub after_write : Socket → (List ℕ × Ending) × Hilexi → Exchange (Object D)
  unfolding after_read hilexi_read
  after_write socket ((sent, finished), l) = after_read sent (hilexi_read socket l)
  after_write socket ((sent, failed), l) = record { sent = sent; outcome = ret none; client = l }
  after_write socket ((sent, waiting), l) = record { sent = sent; outcome = spins; client = l }

  -- a request is written, and its reply read; where the builder gives none, neither does the call
  unfoldable pub exchange : Socket → Hilexi → Option Builder → Exchange (Object D)
  unfolding after_write hilexi_write
  exchange socket l none = record { sent = []; outcome = spins; client = l }
  exchange socket l (some b) = after_write socket (hilexi_write socket (record l { builder = b }))

  abbrev one_object : List ℕ → Builder → Object D → Option Builder
  one_object name b o = add_object libc (add_string (add_array b 2) name) o

  unfoldable pub auth_request : Builder → List ℕ → List ℕ → Option Builder
  auth_request b username password =
      some (add_string (add_string (add_string (add_array b 3) (codes "AUTH")) username) password)

  unfoldable pub ping_request : Builder → Option Builder
  ping_request b = some (add_ping b)

  unfoldable pub select_request : Builder → ℕ → Option Builder
  unfolding as_int64
  select_request b db_num =
      some (add_int (add_string (add_array b 2) (codes "SELECT")) (as_int64 db_num))

  unfoldable pub set_request : Builder → Object D → Object D → Option Builder
  set_request b key value =
      and_then (add_object libc (add_string (add_array b 3) (codes "SET")) key)
        (λ c. add_object libc c value)

  unfoldable pub info_request : Builder → Option Builder
  info_request b = some (add_string b (codes "INFO"))

  unfoldable pub keys_request : Builder → Option Builder
  keys_request b = some (add_string b (codes "KEYS"))

  unfoldable pub pop_request : Builder → Option Builder
  pop_request b = some (add_string b (codes "POP"))

  unfoldable pub deque_request : Builder → Option Builder
  deque_request b = some (add_string b (codes "DEQUE"))

  unfoldable pub get_request : Builder → Object D → Option Builder
  get_request b key = one_object (codes "GET") b key

  unfoldable pub del_request : Builder → Object D → Option Builder
  del_request b key = one_object (codes "DEL") b key

  unfoldable pub push_request : Builder → Object D → Option Builder
  push_request b value = one_object (codes "PUSH") b value

  unfoldable pub enque_request : Builder → Object D → Option Builder
  enque_request b value = one_object (codes "ENQUE") b value

  unfoldable pub zset_request : Builder → Object D → Option Builder
  zset_request b value = one_object (codes "ZSET") b value

  unfoldable pub zhas_request : Builder → Object D → Option Builder
  zhas_request b value = one_object (codes "ZHAS") b value

  unfoldable pub zdel_request : Builder → Object D → Option Builder
  zdel_request b value = one_object (codes "ZDEL") b value

  -- `vstr_cmp(&s, &ok)`, or -1: whether the result is 0
  unfoldable pub accepted : Option (Object D) → Option Bool
  accepted none = none
  accepted (some (string s)) = some (vstr_cmp_zero s (codes "OK"))
  accepted (some o) = some false

  unfoldable pub hilexi_authenticate : Socket → Hilexi → List ℕ → List ℕ → Exchange Bool
  unfolding accepted auth_request exchange
  hilexi_authenticate socket l username password =
      let e = exchange socket l (auth_request l.builder username password) in
      record { sent = e.sent; outcome = e.outcome >>= λ r. ret (accepted r); client = e.client }

  unfoldable pub hilexi_ping : Socket → Hilexi → Exchange (Object D)
  unfolding ping_request exchange
  hilexi_ping socket l = exchange socket l (ping_request l.builder)

  unfoldable pub hilexi_select : Socket → Hilexi → ℕ → Exchange (Object D)
  unfolding select_request exchange
  hilexi_select socket l db_num = exchange socket l (select_request l.builder db_num)

  unfoldable pub hilexi_set : Socket → Hilexi → Object D → Object D → Exchange (Object D)
  unfolding set_request exchange
  hilexi_set socket l key value = exchange socket l (set_request l.builder key value)

  unfoldable pub hilexi_info : Socket → Hilexi → Exchange (Object D)
  unfolding info_request exchange
  hilexi_info socket l = exchange socket l (info_request l.builder)

  unfoldable pub hilexi_keys : Socket → Hilexi → Exchange (Object D)
  unfolding keys_request exchange
  hilexi_keys socket l = exchange socket l (keys_request l.builder)

  unfoldable pub hilexi_pop : Socket → Hilexi → Exchange (Object D)
  unfolding pop_request exchange
  hilexi_pop socket l = exchange socket l (pop_request l.builder)

  unfoldable pub hilexi_deque : Socket → Hilexi → Exchange (Object D)
  unfolding deque_request exchange
  hilexi_deque socket l = exchange socket l (deque_request l.builder)

  unfoldable pub hilexi_get : Socket → Hilexi → Object D → Exchange (Object D)
  unfolding get_request exchange
  hilexi_get socket l key = exchange socket l (get_request l.builder key)

  unfoldable pub hilexi_del : Socket → Hilexi → Object D → Exchange (Object D)
  unfolding del_request exchange
  hilexi_del socket l key = exchange socket l (del_request l.builder key)

  unfoldable pub hilexi_push : Socket → Hilexi → Object D → Exchange (Object D)
  unfolding push_request exchange
  hilexi_push socket l value = exchange socket l (push_request l.builder value)

  unfoldable pub hilexi_enque : Socket → Hilexi → Object D → Exchange (Object D)
  unfolding enque_request exchange
  hilexi_enque socket l value = exchange socket l (enque_request l.builder value)

  unfoldable pub hilexi_zset : Socket → Hilexi → Object D → Exchange (Object D)
  unfolding zset_request exchange
  hilexi_zset socket l value = exchange socket l (zset_request l.builder value)

  unfoldable pub hilexi_zhas : Socket → Hilexi → Object D → Exchange (Object D)
  unfolding zhas_request exchange
  hilexi_zhas socket l value = exchange socket l (zhas_request l.builder value)

  unfoldable pub hilexi_zdel : Socket → Hilexi → Object D → Exchange (Object D)
  unfolding zdel_request exchange
  hilexi_zdel socket l value = exchange socket l (zdel_request l.builder value)
