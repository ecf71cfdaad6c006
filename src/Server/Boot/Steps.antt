-- ===== src/Server/Boot/Steps.antt =====
-- src/server.c: what is known of the steps before one that is reached.
use lexidb.Base.{
  ℕ, ◌+◌, ◌*◌, ◌%◌, ◌^◌, ◌<◌, ◌≡◌, refl, Bool, [], ◌∷◌, Option, none, some, arith, subst,
  some-injective, Bool-cases, inl, inr,
}
use lexidb.ConfigParser.{Config, Result, ok, err}
use lexidb.Server.{User}
use lexidb.Server.Boot.{
  Started, started, failed, crashed, endless, StartError, ◌>>=◌, from_some, from_config, from_users,
}
use lexidb.Vec
use lexidb.Vec.{Vec, vec_header}
use lexidb.Vec.Laws.{items, IsValid}

-- Where a sequence has started something, so has its first part, and the rest with it.
pub bind-started {ℓ₁ ℓ₂} :
    {A : Type ℓ₁} {B : Type ℓ₂} (r : Started A) (next : A → Started B) (b : B)
    → (r >>= next) ≡ started b
    → (a : A) × (r ≡ started a) × (next a ≡ started b)
unfolding ◌>>=◌
bind-started (started a) next b h = (a, refl, h)
bind-started (failed e) next b h = absurd cc
bind-started crashed next b h = absurd cc
bind-started endless next b h = absurd cc

-- what holds of all that is started
pub record Gives {ℓ} {A : Type ℓ} (Q : A → Type 0) (r : Started A) : Type ℓ where
  pub gives : (a : A) → r ≡ started a → Q a

pub bind-Gives {ℓ₁ ℓ₂} :
    {A : Type ℓ₁} {B : Type ℓ₂} {Q : B → Type 0} (r : Started A) (next : A → Started B)
    → ((a : A) → r ≡ started a → Gives Q (next a))
    → Gives Q (r >>= next)
bind-Gives r next rest = record {
  gives = λ b e. let (a, first, then_b) = bind-started r next b e in (rest a first).gives b then_b;
}

pub started-injective {ℓ} : {A : Type ℓ} (a b : A) → started a ≡ started b → a ≡ b
started-injective a b h = cc

pub from_some-failed {ℓ} :
    {A : Type ℓ} (o : Option A) (e : StartError) (a : A)
    → from_some o (failed e) ≡ started a
    → o ≡ some a
from_some-failed none e a h = absurd cc
from_some-failed (some x) e a h = cc

pub from_some-crashed {ℓ} :
    {A : Type ℓ} (o : Option A) (a : A) → from_some o crashed ≡ started a → o ≡ some a
from_some-crashed none a h = absurd cc
from_some-crashed (some x) a h = cc

pub from_config-ok :
    (r : Option (Result Config)) (c : Config) → from_config r ≡ started c → r ≡ some (ok c)
from_config-ok none c h = absurd cc
from_config-ok (some (err e)) c h = absurd cc
from_config-ok (some (ok d)) c h = cc

pub from_users-some :
    (r : Option (Option (Vec User))) (w : Vec User) → from_users r ≡ started w → r ≡ some (some w)
from_users-some none w h = absurd cc
from_users-some (some none) w h = absurd cc
from_users-some (some (some v)) w h = cc

-- A vector from vec_new is valid and has no element.
pub vec_new-IsValid {ℓ} :
    {A : Type ℓ} (blank : A) (malloc : ℕ → Bool) (size : ℕ) (v : Vec A)
    → 0 < size
    → size < 2 ^ 32
    → Vec.new blank malloc size ≡ some v
    → IsValid v × (items v ≡ [])
unfolding Vec.new
vec_new-IsValid blank malloc size v sized small h =
    elim (Bool-cases (malloc ((vec_header + size * 2) % 2 ^ 64))) [
      | inr refused ↦ let clash : none ≡ some v = rw refused at h in absurd cc
      | inl got ↦
          let made : some
                (record { len = 0; cap = 2; data_size = size; slots = blank ∷ blank ∷ [] })
              ≡ some v =
            rw got at h in
          subst (λ w. IsValid w × (items w ≡ [])) (some-injective _ _ made)
            (
              record {
                sized = sized;
                roomy = omega arith;
                within = omega arith;
                allocated = refl;
                small = omega arith;
              },
              refl,
            )
    ]
