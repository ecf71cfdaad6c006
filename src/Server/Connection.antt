-- ===== src/Server/Connection.antt =====
-- src/server.c: read_from_client and write_to_client, on the client that vec_find gives for the socket.
-- `answers` is what the kernel answers, in order; where it ends, EAGAIN.
use lexidb.Base.{
  ℕ, ◌+◌, ◌-◌, ◌*◌, ◌%◌, ◌^◌, Bool, true, false, List, [], ◌∷◌, ◌++◌, Option, none, some, length,
  take, leb, if◌then◌else◌,
}
use lexidb.Keys.{KeyOps}
use lexidb.Object.{Object}
use lexidb.Parser.Commands.{parse}
use lexidb.Parser.Run.{Run, ret, spins, ◌>>=◌, Libc}
use lexidb.Server.{Server, Client, Platform}
use lexidb.Server.Execute.{execute_cmd}
use lexidb.Socket.{ReadAnswer, received, closed, would_block, read_failed}

-- A client with its buffer: `read_buf` is the bytes up to `read_pos`. `write_size` is how much of the
-- builder is to be written, and `writable` whether its socket is registered for EV_WRITE.
pub record Connection : Type 0 where
  pub client : Client
  pub read_buf : List ℕ
  pub read_cap : ℕ
  pub write_size : ℕ
  pub writable : Bool

abbrev pub client_read_buf_cap : ℕ
client_read_buf_cap = 4096

-- `create_client`, with a client of zero bytes and the memory that it asks for
unfoldable pub create_client : Client → Connection
create_client zero_client = record {
  client = zero_client;
  read_buf = [];
  read_cap = client_read_buf_cap;
  write_size = 0;
  writable = false;
}

unfoldable pub realloc_client_read_buf : (ℕ → Bool) → Connection → Option Connection
realloc_client_read_buf realloc c =
    if realloc (c.read_cap * 2 % 2 ^ 64)
    then some (record c { read_cap = c.read_cap * 2 % 2 ^ 64 })
    else none

-- how the loop of `read_from_client` ends: nothing more to read, the client to be closed, or an error
-- after which it is kept
pub data ReadEnd : Type 0 where
  drained closing kept : ReadEnd

abbrev pub room_for : (ℕ → Bool) → Connection → Option Connection
room_for realloc c =
    if leb c.read_cap (length c.read_buf) then realloc_client_read_buf realloc c else some c

abbrev pub with_room :
    Connection → Option Connection → (Connection → ReadEnd × Connection) → ReadEnd × Connection
with_room c none next = (closing, c)
with_room c (some d) next = next d

unfoldable pub client_read_loop : (ℕ → Bool) → List ReadAnswer → Connection → ReadEnd × Connection
unfolding realloc_client_read_buf
client_read_loop realloc [] c = with_room c (room_for realloc c) (λ d. (drained, d))
client_read_loop realloc (received xs ∷ answers) c =
    with_room c (room_for realloc c)
      (λ d. client_read_loop realloc answers (record d { read_buf = d.read_buf ++ xs }))
client_read_loop realloc (closed ∷ answers) c = with_room c (room_for realloc c) (λ d. (closing, d))
client_read_loop realloc (would_block ∷ answers) c =
    with_room c (room_for realloc c) (λ d. (drained, d))
client_read_loop realloc (read_failed ∷ answers) c =
    with_room c (room_for realloc c) (λ d. (kept, d))

-- the loop of `write_to_client`: each write is given the whole buffer. What the kernel has taken, and
-- whether the loop has ended with all sent.
unfoldable pub client_write_loop : List (Option ℕ) → ℕ → List ℕ → List ℕ × Bool
client_write_loop [] sent buf = ([], leb (length buf) sent)
client_write_loop (none ∷ answers) sent buf = ([], leb (length buf) sent)
client_write_loop (some n ∷ answers) sent buf =
    let (more, done) = client_write_loop answers (sent + n) buf in
    if leb (length buf) sent then ([], true) else (take n buf ++ more, done)

abbrev pub after_writes : Connection → List ℕ × Bool → List ℕ × Connection
after_writes c (sent, false) = (sent, c)
after_writes c (sent, true) =
    (sent, record c { writable = false; client = record c.client { builder = [] } })

unfoldable pub write_to_client : List (Option ℕ) → Connection → List ℕ × Connection
unfolding client_write_loop
write_to_client answers c =
    after_writes c (client_write_loop answers 0 (take c.write_size c.client.builder))

module _ {D K : Type 0} (libc : Libc D) (ops : KeyOps K) (place : Object D → K)
    (value : K → Object D) (p : Platform) where
  -- the reply is to be written, where ev_add_event registers the socket for it; else the buffers are
  -- left as they are. Where the command gives no reply, neither does this.
  unfoldable pub after_execute :
      Bool → Connection → Option (Server K × Client) → Run (Server K × Option Connection)
  after_execute registers c none = spins
  after_execute registers c (some (s, client)) =
      let answered = record c { client = client; write_size = length client.builder } in
      ret (
        s,
        some (if registers then record answered { read_buf = []; writable = true } else answered),
      )

  -- a client that is closed is removed from the clients
  unfoldable pub after_reads :
      Bool → Server K → ReadEnd × Connection → Run (Server K × Option Connection)
  unfolding after_execute execute_cmd
  after_reads registers s (drained, c) = parse libc c.read_buf >>= λ cmd.
      after_execute registers c (execute_cmd libc ops place value p s c.client cmd)
  after_reads registers s (closing, c) = ret (record s { num_clients = s.num_clients - 1 }, none)
  after_reads registers s (kept, c) = ret (s, some c)

  -- `read_from_client`; `registers` is what ev_add_event answers
  unfoldable pub read_from_client :
      Bool → List ReadAnswer → Server K → Connection → Run (Server K × Option Connection)
  unfolding after_reads client_read_loop
  read_from_client registers answers s c =
      after_reads registers s (client_read_loop p.realloc answers c)
