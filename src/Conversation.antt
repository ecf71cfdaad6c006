-- ===== src/Conversation.antt =====
-- src/lexi-cli.c, src/server.c: a session of the client program with the server.
use lexidb.Base.{
  ◌+◌, flatten, ℕ, ◌<◌, ◌≡◌, refl, sym, ◌∙◌, ap, true, List, [], ◌∷◌, Option, none, some, codes,
  length, map, All, subst, append-nil,
}
use lexidb.Cli.{shown}
use lexidb.Cli.Loop.{Turn, IsAnswered}
use lexidb.Cli.Start.{World, main, Meets, login_form, auth_request-root, main-Session}
use lexidb.Hilexi.Calls.{to_authenticate, request, command, FitsCall}
use lexidb.Keys.{KeyOps}
use lexidb.Object.{Object, string}
use lexidb.Parser.Run.{Run, ret, Libc, ◌>>=◌}
use lexidb.Protocol.Values.{IsStandard}
use lexidb.Server.{Server, Client, Platform}
use lexidb.Server.Connection.{Connection, write_to_client, read_from_client}
use lexidb.Server.Execute.{execute_cmd}
use lexidb.Server.Serves.{Serves, read_from_client-Serves}
use lexidb.Socket.{received}

-- the call that the program begins with
abbrev pub login_turn : {D : Type 0} → World → List ℕ → Turn D
login_turn w reply = record {
  call = to_authenticate (codes "root") (codes "root");
  out = login_form;
  answer = string (codes "OK");
  reply = reply;
  socket = w.login;
}

module _ {D K : Type 0} (libc : Libc D) (ops : KeyOps K) (place : Object D → K)
    (value : K → Object D) (p : ℕ → Platform) where
  -- what the socket is given when it takes the reply at once
  abbrev pub written : Server K × Option Connection → Run (Server K × (Option Connection × List ℕ))
  written (s, none) = ret (s, (none, []))
  written (s, some c) =
      let (sent, d) = write_to_client (some (length c.client.builder) ∷ []) c in
      ret (s, (some d, sent))

  abbrev pub with_next :
      (Server K → Connection → Run (Server K × List (List ℕ)))
      → Server K × (Option Connection × List ℕ)
      → Run (Server K × List (List ℕ))
  with_next next (s, (none, sent)) = ret (s, sent ∷ [])
  with_next next (s, (some c, sent)) = next s c >>= λ r. ret (r.0, sent ∷ r.1)

  -- Each request comes when the reply before it has been written. What the system gives, memory and
  -- time among it, is `p i` while the request `i` runs.
  unfoldable pub serve_all :
      ℕ → Server K → Connection → List (List ℕ) → Run (Server K × List (List ℕ))
  unfolding read_from_client write_to_client
  serve_all i s c [] = ret (s, [])
  serve_all i s c (out ∷ outs) =
      read_from_client libc ops place value (p i) true (received out ∷ []) s c
      >>= (λ r. written r)
      >>= with_next (λ t d. serve_all (i + 1) t d outs)

  -- The commands that the calls stand for leave the server so, and their replies are these.
  abbrev pub Runs : ℕ → Server K → Client → List (Turn D) → Server K → Type 0
  Runs i s c [] u = s ≡ u
  Runs i s c (turn ∷ turns) u =
      (t : Server K) × (d : Client) × (execute_cmd libc ops place value (p i) s c
          (command libc turn.call)
        ≡ some (t, d))
      × (d.builder ≡ turn.reply)
      × Runs (i + 1) t (record d { builder = [] }) turns u

  abbrev Asks : Turn D → Type 0
  Asks t = (request libc t.call [] ≡ some t.out) × FitsCall libc t.call

  serve_all-Serves :
      (i : ℕ) (out : List ℕ) (outs : List (List ℕ)) (s t : Server K) (c : Connection)
      (client : Client)
      → (r : Serves libc ops place value
          (p i)
          t
          client
          (read_from_client libc ops place value (p i) true (received out ∷ []) s c))
      → serve_all i s c (out ∷ outs)
        ≡ with_next
            (λ t d. serve_all (i + 1) t d outs)
            (
              t,
              (
                some (write_to_client (some (length client.builder) ∷ []) r.connection).1,
                client.builder,
              ),
            )
  unfolding serve_all
  serve_all-Serves i out outs s t c client r =
      let whole = length client.builder in
      ap (λ q. q >>= (λ x. written x) >>= with_next (λ t d. serve_all (i + 1) t d outs)) r.returns
      ∙ ap
          (λ n.
            with_next (λ t d. serve_all (i + 1) t d outs)
              (
                t,
                (
                  some (write_to_client (some n ∷ []) r.connection).1,
                  (write_to_client (some n ∷ []) r.connection).0,
                ),
              ))
          (ap (λ d. length d.builder) r.replied)
      ∙ ap
          (λ sent.
            with_next (λ t d. serve_all (i + 1) t d outs)
              (t, (some (write_to_client (some whole ∷ []) r.connection).1, sent)))
          r.sent

  module _ (std : IsStandard libc) (grants : (i n : ℕ) → (p i).realloc n ≡ true) where
    serve_all-Runs :
        (turns : List (Turn D)) (i : ℕ) (s u : Server K) (c : Connection)
        → All Asks turns
        → c.read_buf ≡ []
        → Runs i s c.client turns u
        → serve_all i s c (map (λ t. t.out) turns) ≡ ret (u, map (λ t. t.reply) turns)
    unfolding serve_all flatten
    serve_all-Runs [] i s u c asks empty runs = rw runs refl
    serve_all-Runs (turn ∷ turns) i s u c asks empty (t, d, runs, replied, later) =
        let r =
          read_from_client-Serves libc ops place value (p i) std (grants i) turn.call turn.out
            (turn.out ∷ []) s t c d empty asks.0.0 asks.0.1 (append-nil turn.out) runs in
        let next : Connection = (write_to_client (some (length d.builder) ∷ []) r.connection).1 in
        let rest =
          serve_all-Runs turns (i + 1) t u next asks.1 r.ready
            (subst (λ e. Runs (i + 1) t e turns u) (sym r.settled) later) in
        serve_all-Serves i turn.out (map (λ t. t.out) turns) s t c d r ∙ rw (rest, replied) refl

    Asks-answered :
        (turns : List (Turn D))
        → All (λ t. FitsCall libc t.call) turns
        → All (IsAnswered libc) turns
        → All Asks turns
    Asks-answered [] fits answered = tt
    Asks-answered (t ∷ turns) fits answered =
        ((answered.0.requested, fits.0), Asks-answered turns fits.1 answered.1)

    -- Under the conditions of `Cli.Start.main-Session`, with the number conversions of a standard C
    -- library, memory for the server's buffer at each request, and arguments within the machine's
    -- bounds, where what else the system gives may differ from request to request: if the commands
    -- of the log in and of the typed calls, executed in turn, return with the replies that the
    -- program reads, each with an empty builder for the next, then a server whose client has an
    -- empty buffer, given what the program sends, request after request, ends as those commands
    -- leave it and writes exactly those replies when the kernel takes each at once; and the program
    -- shows the objects that are parsed from the replies to the calls, in order.
    pub main-Runs :
        (w : World) (reply : List ℕ) (turns : List (Turn D)) (rest : List ℕ) (fuel : ℕ)
        (s u : Server K) (c : Connection) (m : Meets libc w reply turns rest)
        → length turns < fuel
        → All (λ t. FitsCall libc t.call) (login_turn w reply ∷ turns)
        → c.read_buf ≡ []
        → Runs 0 s c.client (login_turn w reply ∷ turns) u
        → (serve_all 0 s c (main libc fuel w).sent ≡ ret (u, reply ∷ map (λ t. t.reply) turns))
          × ((main libc fuel w).told ≡ map (λ t. shown t.answer) turns)
    main-Runs w reply turns rest fuel s u c m enough fits empty runs =
        let session = main-Session libc w reply turns rest fuel m enough in
        let asks : All Asks (login_turn w reply ∷ turns) =
          ((auth_request-root libc, fits.0), Asks-answered turns fits.1 m.answered) in
        (
          ap (λ r. serve_all 0 s c r.sent) session
              ∙ serve_all-Runs (login_turn w reply ∷ turns) 0 s u c asks empty runs,
          ap (λ r. r.told) session,
        )
