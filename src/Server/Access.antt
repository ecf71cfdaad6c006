-- ===== src/Server/Access.antt =====
-- src/server.c: what a client can do before it has authenticated.
use lexidb.Base.{
  ℕ, ◌++◌, append_assoc, append-nil, sym, ◌∙◌, ◌≡◌, refl, ap, true, false, List, [], ◌∷◌, Option,
  none, some, Bool-cases, inl, inr, ◌&&◌, not, All, arith, codes,
}
use lexidb.Builder.{Builder, add_err, add_end}
use lexidb.Cmd.{Cmd, Cmdt, CmdData, illegal, auth}
use lexidb.Keys.{KeyOps}
use lexidb.Object.{Object}
use lexidb.Parser.Run.{Libc}
use lexidb.Server.{Server, Client, Platform}
use lexidb.Server.Commands.{first_object, second_object}
use lexidb.Server.Execute.{
  execute_type, execute_cmd, is_auth, is_illegal, logged_in, auth_reply, refused,
}

module _ {D K : Type 0} (libc : Libc D) (ops : KeyOps K) (place : Object D → K)
    (value : K → Object D) (p : Platform) where
  abbrev then_run :
      Option (Server K × Client)
      → (Server K → Client → Option (Server K × Client))
      → Option (Server K × Client)
  then_run none next = none
  then_run (some (s, c)) next = next s c

  -- the commands of a client, one after the other
  abbrev pub execute_all : List (Cmd D) → Server K → Client → Option (Server K × Client)
  execute_all [] s c = some (s, c)
  execute_all (cmd ∷ cmds) s c =
      then_run (execute_cmd libc ops place value p s c cmd) (λ t e. execute_all cmds t e)

  -- The command is not AUTH with the name and the password of a user.
  abbrev pub IsNoLogin : Server K → Cmd D → Type 0
  IsNoLogin s cmd =
      is_auth libc ops place value p cmd.type ≡ true
      → logged_in libc ops place value p s (first_object cmd.args) (second_object cmd.args) ≡ none

  -- the answer to a command of a client that is not let in
  abbrev pub refusal : Cmdt → List ℕ
  refusal illegal = codes "-EINVCMD\r\n"
  refusal auth = codes "-failed to authenticate\r\n"
  refusal t = codes "-EUNAUTHED\r\n"

  abbrev pub refusals : List (Cmd D) → List ℕ
  refusals [] = []
  refusals (cmd ∷ cmds) = refusal cmd.type ++ refusals cmds

  -- the server as it was, and a client that has not authenticated, with these bytes more to be written
  abbrev pub Locked : Server K → Client → List ℕ → Option (Server K × Client) → Type 0
  Locked s c answers r =
      (e : Client) × (r ≡ some (s, e))
      × (e.authenticated ≡ false)
      × (e.builder ≡ c.builder ++ answers)

  add_err-append :
      (b : Builder) (e : List ℕ) → add_err b e ≡ b ++ (((b'-' ∷ e) ++ b'\r' ∷ []) ++ b'\n' ∷ [])
  unfolding add_err add_end
  add_err-append b e =
      ap (λ x. (x ++ b'\r' ∷ []) ++ b'\n' ∷ []) (append_assoc b (b'-' ∷ []) e)
      ∙ ap (λ x. x ++ b'\n' ∷ []) (append_assoc b (b'-' ∷ e) (b'\r' ∷ []))
      ∙ append_assoc b ((b'-' ∷ e) ++ b'\r' ∷ []) (b'\n' ∷ [])

  execute_type-Locked :
      (s : Server K) (c : Client) (t : Cmdt) (args : CmdData D)
      → is_auth libc ops place value p t ≡ true
      → c.authenticated ≡ false
      → logged_in libc ops place value p s (first_object args) (second_object args) ≡ none
      → Locked s c (refusal t) (execute_type libc ops place value p s c t args)
  unfolding execute_type auth_reply
  execute_type-Locked s c auth args h out none_in = (
    auth_reply libc ops place value p c none,
    ap (λ u. some (s, auth_reply libc ops place value p c u)) none_in,
    out,
    add_err-append c.builder (codes "failed to authenticate"),
  )
  execute_type-Locked s c t args h out none_in = absurd (ground arith)

  -- a command that is neither illegal nor AUTH
  refusal-other :
      (t : Cmdt)
      → is_illegal libc ops place value p t ≡ false
      → is_auth libc ops place value p t ≡ false
      → refusal t ≡ codes "-EUNAUTHED\r\n"
  refusal-other illegal h g = absurd (ground arith)
  refusal-other auth h g = absurd (ground arith)
  refusal-other t h g = refl

  refusal-illegal :
      (t : Cmdt) → is_illegal libc ops place value p t ≡ true → refusal t ≡ codes "-EINVCMD\r\n"
  refusal-illegal illegal h = refl
  refusal-illegal t h = absurd (ground arith)

  execute_cmd-Locked :
      (s : Server K) (c : Client) (cmd : Cmd D)
      → c.authenticated ≡ false
      → IsNoLogin s cmd
      → Locked s c (refusal cmd.type) (execute_cmd libc ops place value p s c cmd)
  unfolding execute_cmd
  execute_cmd-Locked s c cmd out no_login =
      elim (Bool-cases (is_illegal libc ops place value p cmd.type)) [
        | inl bad ↦
            rw (bad, refusal-illegal cmd.type bad)
              (
                refused libc ops place value p c (codes "EINVCMD"),
                refl,
                out,
                add_err-append c.builder (codes "EINVCMD"),
              )
        | inr known ↦ elim (Bool-cases (is_auth libc ops place value p cmd.type)) [
          | inl login ↦
              let passed : (not c.authenticated && not (is_auth libc ops place value p cmd.type))
                  ≡ false =
                rw (out, login) refl in
              rw (known, passed)
                (execute_type-Locked s c cmd.type cmd.args login out (no_login login))
          | inr other ↦
              let stopped : (not c.authenticated && not (is_auth libc ops place value p cmd.type))
                  ≡ true =
                rw (out, other) refl in
              rw (known, stopped, refusal-other cmd.type known other)
                (
                  refused libc ops place value p c (codes "EUNAUTHED"),
                  refl,
                  out,
                  add_err-append c.builder (codes "EUNAUTHED"),
                )
        ]
      ]

  -- Whatever commands a client sends that has not authenticated, as long as none is AUTH with the
  -- name and the password of a user: the server is in the end as it was, the client is not
  -- authenticated, and behind what was to be written it has one answer for each command, in order:
  -- the error EINVCMD for an illegal one, `failed to authenticate` for an AUTH, EUNAUTHED for any
  -- other.
  pub execute_all-Locked :
      (s : Server K) (c : Client) (cmds : List (Cmd D))
      → c.authenticated ≡ false
      → All (IsNoLogin s) cmds
      → Locked s c (refusals cmds) (execute_all cmds s c)
  execute_all-Locked s c [] out none_in = (c, refl, out, sym (append-nil c.builder))
  execute_all-Locked s c (cmd ∷ cmds) out none_in =
      let (e, ran, still_out, answer) = execute_cmd-Locked s c cmd out none_in.0 in
      let (f, rest, locked, answers) = execute_all-Locked s e cmds still_out none_in.1 in
      rw ran (
        f,
        rest,
        locked,
        answers
            ∙ ap (λ b. b ++ refusals cmds) answer
            ∙ append_assoc c.builder (refusal cmd.type) (refusals cmds),
      )
