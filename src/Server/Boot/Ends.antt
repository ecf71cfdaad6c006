-- ===== src/Server/Boot/Ends.antt =====
-- src/server.c (server_new): the loops on the way to a server that starts.
use lexidb.Base.{
  ℕ, ◌^◌, ◌<◌, ◌≡◌, ◌≢◌, refl, Bool, true, false, List, Option, none, some, length, arith,
  Bool-cases, inl, inr, ◌==◌,
}
use lexidb.ConfigParser.{Config, Result, ok, err}
use lexidb.ConfigParser.Terminates.{parse_config-Returns}
use lexidb.Ev.{Ev}
use lexidb.Server.{User}
use lexidb.Server.Boot.{
  System, Started, started, failed, crashed, endless, StartError, ◌>>=◌, check, from_some,
  from_config, from_users, registered, read_config, log_level_of, users_of, events_of, lexidb_new,
  server_new,
}
use lexidb.Server.Boot.Ready.{read_config-Parsed}
use lexidb.Server.Boot.Steps.{from_some-failed}
use lexidb.Server.Boot.Users.{add_users-none, add_users-some}
use lexidb.Vec.{Vec}
use lexidb.Vec.Laws.{AllocFits}

-- It is not a loop without an end.
pub record Stops {ℓ} {A : Type ℓ} (r : Started A) : Type ℓ where
  pub stops : r ≢ endless

started-Stops {ℓ} : {A : Type ℓ} (a : A) → Stops (started a)
started-Stops a = record { stops = λ e. cc }

failed-Stops {ℓ} : {A : Type ℓ} (e : StartError) → Stops {A = A} (failed e)
failed-Stops e = record { stops = λ h. cc }

crashed-Stops {ℓ} : {A : Type ℓ} → Stops {A = A} crashed
crashed-Stops = record { stops = λ h. cc }

bind-Stops {ℓ₁ ℓ₂} :
    {A : Type ℓ₁} {B : Type ℓ₂} (r : Started A) (next : A → Started B)
    → Stops r
    → ((a : A) → r ≡ started a → Stops (next a))
    → Stops (r >>= next)
unfolding ◌>>=◌
bind-Stops (started a) next h rest = rest a refl
bind-Stops (failed e) next h rest = failed-Stops e
bind-Stops crashed next h rest = crashed-Stops
bind-Stops endless next h rest = absurd (h.stops refl)

or_failed {ℓ} : {A : Type ℓ} (o : Option A) (e : StartError) → Stops (from_some o (failed e))
or_failed none e = failed-Stops e
or_failed (some a) e = started-Stops a

or_crashed {ℓ} : {A : Type ℓ} (o : Option A) → Stops (from_some o crashed)
or_crashed none = crashed-Stops
or_crashed (some a) = started-Stops a

check-Stops : (b : Bool) (e : StartError) → Stops (check b e)
check-Stops true e = started-Stops tt
check-Stops false e = failed-Stops e

from_config-Stops : (a : Result Config) → Stops (from_config (some a))
from_config-Stops (err e) = failed-Stops _
from_config-Stops (ok c) = started-Stops c

from_users-Stops : (o : Option (Vec User)) → Stops (from_users (some o))
from_users-Stops none = failed-Stops _
from_users-Stops (some w) = started-Stops w

log_level_of-Stops : (s : List ℕ) → Stops (log_level_of s)
unfolding log_level_of
log_level_of-Stops s = elim (Bool-cases (length s == 0)) [
  | inl unset ↦ rw unset (started-Stops _)
  | inr set ↦ rw set (or_failed _ _)
]

module _ {K Handler : Type 0} (blank : K) (sys : System Handler) where
  read_config-Stops : (path : List ℕ) → Stops (read_config blank sys path)
  unfolding read_config
  read_config-Stops path = bind-Stops _ _ (or_failed _ _) (λ file _.
      bind-Stops _ _ (or_failed _ _) (λ input _. bind-Stops _ _ (or_crashed _) (λ users _.
        let (a, ends) = parse_config-Returns sys.realloc users input in
        rw ends (from_config-Stops a))))

  registered-Stops : (r : Bool × Ev Handler Unit) → Stops (registered blank sys r)
  registered-Stops (true, ev) = started-Stops ev
  registered-Stops (false, ev) = failed-Stops _

  events_of-Stops : (sfd : ℕ) → Stops (events_of blank sys sfd)
  unfolding events_of
  events_of-Stops sfd = bind-Stops _ _ (or_failed _ _) (λ ev _. registered-Stops _)

  lexidb_new-Stops : (n : ℕ) → Stops (lexidb_new blank sys n)
  unfolding lexidb_new
  lexidb_new-Stops n = elim (Bool-cases (sys.calloc n)) [
    | inl got ↦ rw got (bind-Stops _ _ (or_crashed _) (λ vec _. started-Stops _))
    | inr refused ↦ rw refused crashed-Stops
  ]

  module _ (fits : AllocFits sys.realloc)
      (user_sized : (0 < sys.user_size) × (sys.user_size < 2 ^ 32)) where
    users_of-Stops :
        (path : List ℕ) (config : Config)
        → read_config blank sys path ≡ started config
        → Stops (users_of blank sys config)
    unfolding users_of
    users_of-Stops path config h =
        let r = read_config-Parsed blank sys fits user_sized path config h in
        bind-Stops _ _ (or_failed _ _) (λ users e.
          let made = from_some-failed _ _ _ e in
          elim (Bool-cases (config.users.len == 0)) [
            | inl none_in ↦
                rw
                  (add_users-none blank sys fits user_sized config.users r.unset users r.made made
                    r.users (ground (arith, none_in)))
                  (from_users-Stops none)
            | inr some_in ↦
                let (o, ends, _) =
                  add_users-some blank sys fits user_sized config.users users r.users.valid made
                    (ground (arith, some_in)) in
                rw ends (from_users-Stops o)
          ])

    server_new-Stops : (path : List ℕ) → Stops (server_new blank sys path)
    unfolding server_new
    server_new-Stops path = bind-Stops _ _ (or_failed _ _) (λ sfd _.
        bind-Stops _ _ (check-Stops _ _) (λ _ _.
          bind-Stops _ _ (read_config-Stops path) (λ config e.
            bind-Stops _ _ (log_level_of-Stops config.loglevel) (λ level _.
              bind-Stops _ _ (check-Stops _ _) (λ _ _. bind-Stops _ _ (check-Stops _ _) (λ _ _.
                bind-Stops _ _ (users_of-Stops path config e) (λ users _.
                  bind-Stops _ _ (or_failed _ _) (λ exe _. bind-Stops _ _ (check-Stops _ _) (λ _ _.
                    bind-Stops _ _ (events_of-Stops sfd) (λ ev _.
                      bind-Stops _ _ (lexidb_new-Stops _) (λ db _. started-Stops _)))))))))))

    -- With an allocator that gives no block of 2^63 bytes, and structs of fewer than 2^32 bytes,
    -- starting the server ends on every configuration file, with a server, an error or a failed
    -- assertion: the loops of the configuration's parser, and the one that adds the configured
    -- users, which goes two rounds through a configuration without users, do not run out of rounds.
    pub server_new-Ends : (path : List ℕ) → server_new blank sys path ≢ endless
    server_new-Ends path = (server_new-Stops path).stops
