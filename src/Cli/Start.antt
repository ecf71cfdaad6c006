-- ===== src/Cli/Start.antt =====
-- src/lexi-cli.c, src/hilexi.c: `main`, from the socket to the end of the session.
use lexidb.Auth.{vstr_cmp_zero}
use lexidb.Base.{
  ℕ, ◌<◌, ◌≡◌, refl, ap, ◌∙◌, Bool, true, false, List, [], ◌∷◌, ◌++◌, Option, none, some, codes,
  length, map, replicate, All, if◌then◌else◌, zero, suc,
}
use lexidb.Base.Decimal.{decimal}
use lexidb.Builder.{add_string, add_array}
use lexidb.Cli.{Session, failed, returned, waits, hangs, main_loop, ended}
use lexidb.Cli.Loop.{Turn, IsAnswered, typed_lines, session_of, main_loop-Session}
use lexidb.Hilexi.{Hilexi, Socket, Exchange, exchange, accepted, auth_request, hilexi_authenticate}
use lexidb.Hilexi.Replies.{Delivers, IsReply, exchange-Answers}
use lexidb.Object.{Object, string}
use lexidb.Parser.Run.{Run, ret, Libc, ◌>>=◌}
use lexidb.Vstr.{Heap, VstrLg}
use lexidb.Vstr.Large.{Grants}

-- What `tcp_connect` answers: 0, or -1 with EINPROGRESS or with another error.
pub data ConnectAnswer : Type 0 where
  connected in_progress refused : ConnectAnswer

-- the loop of `hilexi_connect`: whether the result is 0
unfoldable hilexi_connect : List ConnectAnswer → Option Bool
hilexi_connect [] = none
hilexi_connect (connected ∷ answers) = some true
hilexi_connect (in_progress ∷ answers) = hilexi_connect answers
hilexi_connect (refused ∷ answers) = some false

-- whether the kernel gives a socket, and the allocator the buffer
unfoldable hilexi_new : Bool → Bool → Option Hilexi
hilexi_new socket buffer =
    if socket
    then (if buffer then some (record { builder = []; read_buf = []; read_cap = 4096 }) else none)
    else none

-- What the program meets.
pub record World : Type 0 where
  pub socket : Bool
  pub buffer : Bool
  pub connects : List ConnectAnswer
  pub login : Socket
  pub calls : List Socket
  pub typed : List ℕ
  pub heap : Heap
  pub layout : VstrLg → List ℕ

-- the request that logs the user "root" in
abbrev pub login_form : List ℕ
login_form = codes "*3\r\n$4\r\nAUTH\r\n$4\r\nroot\r\n$4\r\nroot\r\n"

module _ {D : Type 0} (libc : Libc D) where
  -- an error, and the result 1
  abbrev given_up : List (List ℕ) → Session D
  given_up sent = record { sent = sent; told = failed ∷ []; ends = returned 1 }

  abbrev if_made : Option Hilexi → (Hilexi → Session D) → Session D
  if_made none next = given_up []
  if_made (some l) next = next l

  abbrev if_connected : Option Bool → Session D → Session D
  if_connected none next = ended libc waits
  if_connected (some false) next = given_up []
  if_connected (some true) next = next

  abbrev if_accepted : List ℕ → Run (Option Bool) → Session D → Session D
  if_accepted out (ret (some true)) next = record next { sent = out ∷ next.sent }
  if_accepted out (ret _) next = given_up (out ∷ [])
  if_accepted out _ next = record { sent = out ∷ []; told = []; ends = hangs }

  -- what `main` does with the result of `hilexi_authenticate`
  unfoldable after_login : ℕ → World → Exchange Bool → Session D
  unfolding main_loop
  after_login fuel w e =
      if_accepted e.sent e.outcome (main_loop libc fuel w.heap w.layout w.calls w.typed e.client)

  unfoldable pub main : ℕ → World → Session D
  unfolding hilexi_new hilexi_connect hilexi_authenticate after_login
  main fuel w = if_made (hilexi_new w.socket w.buffer) (λ l.
      if_connected (hilexi_connect w.connects)
        (after_login fuel w (hilexi_authenticate libc w.login l (codes "root") (codes "root"))))

  -- What the user types and the server answers, where the program can connect and log in.
  pub record Meets (w : World) (reply : List ℕ) (turns : List (Turn D)) (rest : List ℕ)
      : Type 0 where
    pub socket : w.socket ≡ true
    pub buffer : w.buffer ≡ true
    pub tries : ℕ
    pub later : List ConnectAnswer
    pub connects : w.connects ≡ replicate tries in_progress ++ connected ∷ later
    pub replied : IsReply libc reply (string (codes "OK"))
    pub delivers : Delivers w.login login_form reply
    pub answered : All (IsAnswered libc) turns
    pub calls : w.calls ≡ map (λ t. t.socket) turns
    pub typed : w.typed ≡ typed_lines turns rest
    pub grants : Grants w.heap

  pub auth_request-root : auth_request libc [] (codes "root") (codes "root") ≡ some login_form
  unfolding auth_request add_string add_array decimal
  auth_request-root = refl

  with_accepted : Exchange (Object D) → Exchange Bool
  with_accepted e = record {
    sent = e.sent;
    outcome = e.outcome >>= λ r. ret (accepted libc r);
    client = e.client;
  }

  hilexi_authenticate-root :
      (socket : Socket) (l : Hilexi)
      → l.builder ≡ []
      → hilexi_authenticate libc socket l (codes "root") (codes "root")
        ≡ with_accepted (exchange libc socket l (some login_form))
  unfolding hilexi_authenticate with_accepted
  hilexi_authenticate-root socket l clean =
      ap
        (λ b.
          with_accepted
            (exchange libc socket l (auth_request libc b (codes "root") (codes "root"))))
        clean
      ∙ ap (λ r. with_accepted (exchange libc socket l r)) auth_request-root

  hilexi_connect-replicate :
      (tries : ℕ) (later : List ConnectAnswer)
      → hilexi_connect (replicate tries in_progress ++ connected ∷ later) ≡ some true
  unfolding hilexi_connect
  hilexi_connect-replicate zero later = refl
  hilexi_connect-replicate (suc tries) later = hilexi_connect-replicate tries later

  -- Where the program gets a socket and its buffer, an allocator that gives every block of up to
  -- 2^57 bytes, and a connection after any number of tries that are still in progress, and the
  -- reply to its log in is parsed as the string OK: if the user types lines of calls as
  -- `typed_line` spells them, none with a line break or of 2^56 bytes, and then exit, and the
  -- kernel delivers each request and its reply, which is parsed as an object, then with fuel for
  -- more rounds than there are calls the program sends exactly its log in and the request of each
  -- call, shows those objects in the order of the lines, and returns 0.
  pub main-Session :
      (w : World) (reply : List ℕ) (turns : List (Turn D)) (rest : List ℕ) (fuel : ℕ)
      → Meets w reply turns rest
      → length turns < fuel
      → main fuel w ≡ record (session_of libc turns) { sent = login_form ∷ map (λ t. t.out) turns }
  unfolding main after_login hilexi_new with_accepted accepted vstr_cmp_zero
  main-Session w reply turns rest fuel m enough =
      let l : Hilexi = record { builder = []; read_buf = []; read_cap = 4096 } in
      let a =
        exchange-Answers libc w.login l login_form reply (string (codes "OK")) refl m.replied
          m.delivers in
      let e : Exchange (Object D) = exchange libc w.login l (some login_form) in
      let later =
        main_loop-Session libc w.heap m.grants w.layout turns rest fuel e.client m.answered
          a.cleared a.emptied enough in
      rw (m.socket, m.buffer, m.connects, hilexi_connect-replicate m.tries m.later)
        (ap (λ r. after_login fuel w r) (hilexi_authenticate-root w.login l refl)
          ∙ rw (a.outcome, a.sent, m.calls, m.typed, later) refl)
