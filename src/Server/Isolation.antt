-- ===== src/Server/Isolation.antt =====
-- src/server.c: what a command leaves alone.
use lexidb.Base.{
  ℕ, zero, suc, ◌≡◌, ◌≢◌, refl, ap, List, [], ◌∷◌, Option, none, some, length, set, get_elem?,
  length-set, Bool-cases, inl, inr, ◌&&◌, not,
}
use lexidb.Cmd.{
  Cmd, Cmdt, CmdData, illegal, okc, auth, ping, infoc, select, help, keys, set as set_type, get,
  del, push, pop, enque, deque, zset, zhas, zdel,
}
use lexidb.Keys.{KeyOps}
use lexidb.Object.{Object}
use lexidb.Parser.Run.{Libc}
use lexidb.Server.{Server, Client, Platform}
use lexidb.Server.Commands.{Answer}
use lexidb.Server.Execute.{execute_type, execute_cmd, stored, is_auth, is_illegal}

get_elem?-set_other {ℓ} :
    {A : Type ℓ} (xs : List A) (i j : ℕ) (x : A) → j ≢ i → get_elem? (set xs i x) j ≡ get_elem? xs j
get_elem?-set_other [] i j x h = refl
get_elem?-set_other (y ∷ ys) zero zero x h = absurd (h refl)
get_elem?-set_other (y ∷ ys) zero (suc j) x h = refl
get_elem?-set_other (y ∷ ys) (suc i) zero x h = refl
get_elem?-set_other (y ∷ ys) (suc i) (suc j) x h = get_elem?-set_other ys i j x (λ e. h (ap suc e))

module _ {D K : Type 0} (libc : Libc D) (ops : KeyOps K) (place : Object D → K)
    (value : K → Object D) (p : Platform) where
  -- What a command of a client may change, where it returns: of the databases only the client's own,
  -- and never how many there are, or the users.
  abbrev pub Isolated : Server K → Client → Option (Server K × Client) → Type 0
  Isolated s c none = Unit
  Isolated s c (some (t, e)) =
      ((j : ℕ) → j ≢ c.database_num → get_elem? t.db j ≡ get_elem? s.db j)
      × (length t.db ≡ length s.db)
      × (t.num_databases ≡ s.num_databases)
      × (t.users ≡ s.users)

  stored-Isolated :
      (s : Server K) (c : Client) (a : Option (Answer K))
      → Isolated s c (stored libc ops place value p s c a)
  stored-Isolated s c none = tt
  stored-Isolated s c (some a) = (
    λ j other. get_elem?-set_other s.db c.database_num j a.db other,
    length-set s.db c.database_num a.db,
    refl,
    refl,
  )

  execute_type-Isolated :
      (s : Server K) (c : Client) (t : Cmdt) (args : CmdData D)
      → Isolated s c (execute_type libc ops place value p s c t args)
  unfolding execute_type
  execute_type-Isolated s c okc args = (λ j o. refl, refl, refl, refl)
  execute_type-Isolated s c ping args = (λ j o. refl, refl, refl, refl)
  execute_type-Isolated s c auth args = (λ j o. refl, refl, refl, refl)
  execute_type-Isolated s c infoc args = (λ j o. refl, refl, refl, refl)
  execute_type-Isolated s c select args = (λ j o. refl, refl, refl, refl)
  execute_type-Isolated s c help args = (λ j o. refl, refl, refl, refl)
  execute_type-Isolated s c illegal args = (λ j o. refl, refl, refl, refl)
  execute_type-Isolated s c keys args = stored-Isolated s c _
  execute_type-Isolated s c set_type args = stored-Isolated s c _
  execute_type-Isolated s c get args = stored-Isolated s c _
  execute_type-Isolated s c del args = stored-Isolated s c _
  execute_type-Isolated s c push args = stored-Isolated s c _
  execute_type-Isolated s c pop args = stored-Isolated s c _
  execute_type-Isolated s c enque args = stored-Isolated s c _
  execute_type-Isolated s c deque args = stored-Isolated s c _
  execute_type-Isolated s c zset args = stored-Isolated s c _
  execute_type-Isolated s c zhas args = stored-Isolated s c _
  execute_type-Isolated s c zdel args = stored-Isolated s c _

  -- A command that returns leaves every database but the client's own as it is, and the number of
  -- databases and the users.
  pub execute_cmd-Isolated :
      (s : Server K) (c : Client) (cmd : Cmd D)
      → Isolated s c (execute_cmd libc ops place value p s c cmd)
  unfolding execute_cmd
  execute_cmd-Isolated s c cmd = elim (Bool-cases (is_illegal libc ops place value p cmd.type)) [
    | inl bad ↦ rw bad (λ j o. refl, refl, refl, refl)
    | inr known ↦
        elim (Bool-cases (not c.authenticated && not (is_auth libc ops place value p cmd.type))) [
          | inl unknown ↦ rw (known, unknown) (λ j o. refl, refl, refl, refl)
          | inr admitted ↦ rw (known, admitted) (execute_type-Isolated s c cmd.type cmd.args)
        ]
  ]
