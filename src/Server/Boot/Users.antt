-- ===== src/Server/Boot/Users.antt =====
-- src/server.c: the users of a server that starts.
use lexidb.Base.{
  refl, Option, ◌∷◌, ◌+◌, ◌%◌, ℕ, zero, suc, ◌*◌, ◌^◌, ◌≤◌, ◌<◌, ◌≡◌, ap, sym, ◌∙◌, Bool, List, [],
  none, some, arith, subst, get_or, some-injective, Bool-cases, Option-cases, inl, inr, ◌==◌,
}
use lexidb.Auth.{vstr_cmp_zero, strncmp_zero}
use lexidb.ConfigParser.{Config, no_user}
use lexidb.ConfigParser.Bounds.{AreUsers}
use lexidb.Server.{User}
use lexidb.Server.Boot.{System, started, users_of}
use lexidb.Server.Start.{add_users, add_loop, round, add_user}
use lexidb.Server.Start.Users.{Taken, add_users-Taken}
use lexidb.Vec
use lexidb.Vec.{Vec, find, find_from, push, append, vec_header}
use lexidb.Vec.Iter.{VecIter, iter_new, iter_next}
use lexidb.Vec.Laws.{items, AllocFits, IsValid}
use lexidb.Server.Boot.Steps.{bind-started, from_some-failed, from_users-some, vec_new-IsValid}

-- a vector that vec_new gives
abbrev pub fresh : ℕ → Vec User
fresh size = record { len = 0; cap = 2; data_size = size; slots = no_user ∷ no_user ∷ [] }

-- A configuration with no users is refused in the second round.
add_users-fresh :
    (realloc : ℕ → Bool) (sha256 : List ℕ → List ℕ) (size size' : ℕ)
    → add_users realloc sha256 (fresh size) 2 (fresh size') ≡ some none
unfolding add_users add_loop round add_user find find_from push append iter_new iter_next
    vstr_cmp_zero strncmp_zero
add_users-fresh realloc sha256 size size' = refl

-- More fuel does not change a result.
add_loop-more :
    (realloc : ℕ → Bool) (sha256 : List ℕ → List ℕ) (config : Vec User) (fuel : ℕ) (it : VecIter)
    (users : Vec User) (o : Option (Vec User))
    → add_loop realloc sha256 config fuel it users ≡ some o
    → add_loop realloc sha256 config (suc fuel) it users ≡ some o
unfolding add_loop round
add_loop-more realloc sha256 config zero it users o h = absurd cc
add_loop-more realloc sha256 config (suc fuel) it users o h = elim (Option-cases it.cur) [
  | inl over ↦ rw over (rw over at h)
  | inr (i, here) ↦
      elim (Option-cases (add_user realloc sha256 users (get_or config.slots i no_user))) [
        | inl refused ↦ rw (here, refused) (rw (here, refused) at h)
        | inr (w, added) ↦
            rw (here, added)
              (add_loop-more realloc sha256 config fuel (iter_next it) w o (rw (here, added) at h))
      ]
]

mul_grows : (n size : ℕ) → 0 < size → n ≤ n * size
mul_grows zero size h = omega arith
mul_grows (suc n) size h = omega (arith, mul_grows n size h)

len_small {ℓ} : {A : Type ℓ} (v : Vec A) → IsValid v → v.len < 2 ^ 63
len_small v valid =
    omega (arith, valid.small, valid.within, mul_grows v.cap v.data_size valid.sized)

module _ {K Handler : Type 0} (blank : K) (sys : System Handler) (fits : AllocFits sys.realloc)
    (user_sized : (0 < sys.user_size) × (sys.user_size < 2 ^ 32)) where
  vec_new-fresh :
      (v : Vec User) → Vec.new no_user sys.malloc sys.user_size ≡ some v → v ≡ fresh sys.user_size
  unfolding Vec.new
  vec_new-fresh v h = elim (Bool-cases (sys.malloc ((vec_header + sys.user_size * 2) % 2 ^ 64))) [
    | inr refused ↦ let clash : none ≡ some v = rw refused at h in absurd cc
    | inl got ↦ sym (some-injective _ _ (rw got at h))
  ]

  -- A configuration with no users is refused.
  pub add_users-none :
      (config unset users : Vec User)
      → Vec.new no_user sys.malloc sys.user_size ≡ some unset
      → Vec.new no_user sys.malloc sys.user_size ≡ some users
      → AreUsers sys.realloc unset config
      → config.len ≡ 0
      → add_users sys.realloc sys.sha256 config (suc (suc config.len)) users ≡ some none
  add_users-none config unset users new made are none_in =
      ap (λ v. add_users sys.realloc sys.sha256 v (suc (suc v.len)) users)
        (are.none_in none_in ∙ vec_new-fresh unset new)
      ∙ ap (λ v. add_users sys.realloc sys.sha256 (fresh sys.user_size) 2 v)
          (vec_new-fresh users made)
      ∙ add_users-fresh sys.realloc sys.sha256 sys.user_size sys.user_size

  -- A configuration with users is gone through.
  pub add_users-some :
      (config users : Vec User)
      → IsValid config
      → Vec.new no_user sys.malloc sys.user_size ≡ some users
      → 0 < config.len
      → (o : Option (Vec User)) × (add_users sys.realloc sys.sha256 config
            (suc (suc config.len))
            users
          ≡ some o)
        × Taken sys.realloc sys.sha256 [] (items config) o
  unfolding add_users
  add_users-some config users valid made some_in =
      let (fresh_users, empty) =
        vec_new-IsValid no_user sys.malloc sys.user_size users user_sized.0 user_sized.1 made in
      let (o, ends, taken) =
        add_users-Taken sys.realloc sys.sha256 config users fits valid fresh_users some_in
          (len_small config valid) in
      (
        o,
        add_loop-more sys.realloc sys.sha256 config (suc config.len) (iter_new config) users o ends,
        subst (λ before. Taken sys.realloc sys.sha256 before (items config) o) empty taken,
      )

  pub users_of-Taken :
      (config : Config) (unset w : Vec User)
      → Vec.new no_user sys.malloc sys.user_size ≡ some unset
      → AreUsers sys.realloc unset config.users
      → users_of blank sys config ≡ started w
      → (0 < config.users.len) × Taken sys.realloc sys.sha256 [] (items config.users) (some w)
  unfolding users_of
  users_of-Taken config unset w new are h =
      let (users, made, rest) = bind-started _ _ _ h in
      let made' = from_some-failed _ _ _ made in
      let ran : add_users sys.realloc sys.sha256 config.users (suc (suc config.users.len)) users
          ≡ some (some w) =
        from_users-some _ _ rest in
      elim (Bool-cases (config.users.len == 0)) [
        | inl none_in ↦
            let fails =
              add_users-none config.users unset users new made' are (ground (arith, none_in)) in
            absurd (let clash = sym fails ∙ ran in cc)
        | inr some_in ↦
            let more : 0 < config.users.len = ground (arith, some_in) in
            let (o, ends, taken) = add_users-some config.users users are.valid made' more in
            let is_w : o ≡ some w = some-injective _ _ (sym ends ∙ ran) in
            (more, subst (λ r. Taken sys.realloc sys.sha256 [] (items config.users) r) is_w taken)
      ]
