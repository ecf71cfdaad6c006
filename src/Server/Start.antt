-- ===== src/Server/Start.antt =====
-- src/server.c (add_users): the users of the configuration, taken into the server's vector. On -1 the
-- server does not start, so what the vectors hold then is left out. The message is output.
pub mod Search
pub mod Users
use lexidb.Auth.{hash_password, vstr_cmp_zero}
use lexidb.Base.{Bool, ℕ, zero, suc, List, [], Option, none, some, get_or}
use lexidb.ConfigParser.{no_user}
use lexidb.Server.{User}
use lexidb.Vec.{Vec, find, push}
use lexidb.Vec.Iter.{VecIter, iter_new, iter_next}

-- the user, with its password's hash
abbrev pub hashed : (List ℕ → List ℕ) → User → User
hashed sha256 u = record u { password = hash_password sha256 u.password }

-- `user_compare` finds no difference
abbrev pub same_name : User → User → Bool
same_name u x = vstr_cmp_zero u.name x.name

abbrev pub unless_found : Option (ℕ × User) → Option (Vec User) → Option (Vec User)
unless_found (some found) pushed = none
unless_found none pushed = pushed

-- one round of the loop of `add_users`: the vector, or `none` for -1
unfoldable pub add_user : (ℕ → Bool) → (List ℕ → List ℕ) → Vec User → User → Option (Vec User)
add_user realloc sha256 users u =
    unless_found (find (same_name u) users) (push no_user realloc users (hashed sha256 u))

module _ (realloc : ℕ → Bool) (sha256 : List ℕ → List ℕ) (config : Vec User) where
  abbrev pub next_round :
      Option (Vec User) → (Vec User → Option (Option (Vec User))) → Option (Option (Vec User))
  next_round none go = some none
  next_round (some users) go = go users

  unfoldable pub round :
      Option ℕ → Vec User → (Vec User → Option (Option (Vec User))) → Option (Option (Vec User))
  unfolding add_user
  round none users go = some (some users)
  round (some i) users go =
      next_round (add_user realloc sha256 users (get_or config.slots i no_user)) go

  -- the loop, or `none` when it has not ended after as many rounds as there is fuel
  unfoldable pub add_loop : ℕ → VecIter → Vec User → Option (Option (Vec User))
  unfolding round iter_next
  add_loop zero it users = none
  add_loop (suc fuel) it users = round it.cur users (λ w. add_loop fuel (iter_next it) w)

  unfoldable pub add_users : ℕ → Vec User → Option (Option (Vec User))
  unfolding add_loop iter_new
  add_users fuel users = add_loop fuel (iter_new config) users
