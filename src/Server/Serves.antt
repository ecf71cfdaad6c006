-- ===== src/Server/Serves.antt =====
-- src/server.c, src/hilexi.c: a request of the client library, from the server's read to its write.
use lexidb.Base.{
  take_whole, ℕ, suc, ◌+◌, ◌*◌, ◌%◌, ◌^◌, ◌≡◌, refl, sym, ◌∙◌, ap, Bool, true, false, List, [], ◌∷◌,
  ◌++◌, Option, some, length, map, flatten, leb, append_assoc, append-nil, arith, Bool-cases, inl,
  inr,
}
use lexidb.Builder.{Builder}
use lexidb.Hilexi.Calls.{Call, request, command, FitsCall}
use lexidb.Hilexi.Requests.{parse-request}
use lexidb.Keys.{KeyOps}
use lexidb.Object.{Object}
use lexidb.Parser.Run.{Run, ret, Libc}
use lexidb.Protocol.Values.{IsStandard}
use lexidb.Server.{Server, Client, Platform}
use lexidb.Server.Execute.{execute_cmd}
use lexidb.Server.Connection.{
  Connection, realloc_client_read_buf, room_for, drained, ReadEnd, client_read_loop,
  client_write_loop, write_to_client, after_execute, after_reads, read_from_client,
}
use lexidb.Socket.{received}

module _ (realloc : ℕ → Bool) (grants : (n : ℕ) → realloc n ≡ true) where
  -- the connection with more room
  abbrev Roomier : Connection → Option Connection → Type 0
  Roomier c r = (d : Connection) × (r ≡ some d) × (d.client ≡ c.client) × (d.read_buf ≡ c.read_buf)

  room_for-Roomier : (c : Connection) → Roomier c (room_for realloc c)
  unfolding realloc_client_read_buf
  room_for-Roomier c = elim (Bool-cases (leb c.read_cap (length c.read_buf))) [
    | inr room ↦ rw room (c, refl, refl, refl)
    | inl full ↦ rw (full, grants (c.read_cap * 2 % 2 ^ 64)) (_, refl, refl, refl)
  ]

  abbrev Drains : Connection → List ℕ → ReadEnd × Connection → Type 0
  Drains c xs r =
      (d : Connection) × (r ≡ (drained, d))
      × (d.client ≡ c.client)
      × (d.read_buf ≡ c.read_buf ++ xs)

  -- all the pieces are read, in their order
  client_read_loop-Drains :
      (pieces : List (List ℕ)) (c : Connection)
      → Drains c (flatten pieces) (client_read_loop realloc (map received pieces) c)
  unfolding client_read_loop flatten
  client_read_loop-Drains [] c =
      let (d, e, same, buf) = room_for-Roomier c in
      rw e (d, refl, same, buf ∙ sym (append-nil c.read_buf))
  client_read_loop-Drains (xs ∷ pieces) c =
      let (d, e, same, buf) = room_for-Roomier c in
      let (f, ends, kept, read) =
        client_read_loop-Drains pieces (record d { read_buf = d.read_buf ++ xs }) in
      rw e (f, ends, kept ∙ same, read ∙ rw buf (append_assoc c.read_buf xs (flatten pieces)))

module _ {D K : Type 0} (libc : Libc D) (ops : KeyOps K) (place : Object D → K)
    (value : K → Object D) (p : Platform) where
  -- What the server is after a request, and what it writes when the kernel takes the reply at once.
  pub record Serves (s : Server K) (client : Client) (r : Run (Server K × Option Connection))
      : Type 0 where
    pub connection : Connection
    pub returns : r ≡ ret (s, some connection)
    pub replied : connection.client ≡ client
    pub emptied : connection.read_buf ≡ []
    pub registered : connection.writable ≡ true
    pub sent : (write_to_client (some (length client.builder) ∷ []) connection).0 ≡ client.builder
    pub settled :
        (write_to_client (some (length client.builder) ∷ []) connection).1.client
        ≡ record client { builder = [] }
    pub ready : (write_to_client (some (length client.builder) ∷ []) connection).1.read_buf ≡ []

  -- one write that takes all
  one_write : (xs : List ℕ) → client_write_loop (some (length xs) ∷ []) 0 xs ≡ (xs, true)
  unfolding client_write_loop
  one_write [] = refl
  one_write (x ∷ xs) =
      let more : leb (suc (length xs)) 0 ≡ false = ground arith in
      let all : leb (suc (length xs)) (0 + suc (length xs)) ≡ true = ground arith in
      rw (more, all, take_whole xs, append-nil (x ∷ xs)) refl

  after_execute-Serves :
      (c : Connection) (s : Server K) (client : Client)
      → Serves s client (after_execute libc ops place value p true c (some (s, client)))
  unfolding after_execute write_to_client
  after_execute-Serves c s client = record {
    connection = record c {
      client = client;
      write_size = length client.builder;
      read_buf = [];
      writable = true;
    };
    returns = refl;
    replied = refl;
    emptied = refl;
    registered = refl;
    sent = rw (take_whole client.builder, one_write client.builder) refl;
    settled = rw (take_whole client.builder, one_write client.builder) refl;
    ready = rw (take_whole client.builder, one_write client.builder) refl;
  }

  -- With the number conversions of a standard C library and memory for the buffer, a request of the
  -- client library within the machine's bounds, read in any pieces into an empty buffer, is served
  -- as the command that the call stands for: the server and the client are what that command leaves
  -- where it returns, the socket waits to be written, the buffer is empty, and when the kernel
  -- takes the reply at once exactly the reply is sent, and the builder is empty again.
  pub read_from_client-Serves :
      (std : IsStandard libc) (grants : (n : ℕ) → p.realloc n ≡ true) (call : Call D)
      (out : Builder) (pieces : List (List ℕ)) (s t : Server K) (c : Connection) (client : Client)
      → c.read_buf ≡ []
      → request libc call [] ≡ some out
      → FitsCall libc call
      → flatten pieces ≡ out
      → execute_cmd libc ops place value p s c.client (command libc call) ≡ some (t, client)
      → Serves t client (read_from_client libc ops place value p true (map received pieces) s c)
  unfolding read_from_client after_reads
  read_from_client-Serves std grants call out pieces s t c client empty written fits whole runs =
      let (d, ends, same, read) = client_read_loop-Drains p.realloc grants pieces c in
      let all_read : d.read_buf ≡ out = read ∙ ap (λ ys. ys ++ flatten pieces) empty ∙ whole in
      rw (ends, all_read, parse-request libc std call out written fits, same, runs)
        (after_execute-Serves d t client)
