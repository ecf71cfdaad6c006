-- ===== src/Server/Login.antt =====
-- src/server.c (execute_auth_command): who is let in.
use lexidb.Auth.{hash_password, time_safe_equal, vstr_cmp_zero, strncmp_zero}
use lexidb.Base.{
  ℕ, ◌==◌, ==_iff, take, subst, false, suc, ◌≡◌, refl, ap, sym, true, List, [], ◌∷◌, Option, none,
  some, get_elem?, length, arith, Bool-cases, inl, inr, some-injective,
}
use lexidb.Keys.{KeyOps}
use lexidb.Object.{Object, string}
use lexidb.Parser.Run.{Libc}
use lexidb.Server.{Server, User, Platform}
use lexidb.Vstr.{c_string}
use lexidb.Server.Execute.{find_user, check_password, logged_in}

-- Two strings of one length agree up to a byte 0.
strncmp_zero-c_string :
    (xs ys : List ℕ) → length xs ≡ length ys → strncmp_zero xs ys ≡ true → c_string xs ≡ c_string ys
unfolding strncmp_zero c_string
strncmp_zero-c_string [] [] e h = refl
strncmp_zero-c_string [] (y ∷ ys) e h = absurd (omega (arith, e))
strncmp_zero-c_string (x ∷ xs) [] e h = absurd (omega (arith, e))
strncmp_zero-c_string (x ∷ xs) (y ∷ ys) e h = elim (Bool-cases (x == y)) [
  | inr other ↦ absurd (ground (arith, h, other))
  | inl same ↦
      let first : x ≡ y = (==_iff x y).0 same in
      elim (Bool-cases (x == 0)) [
        | inl over ↦
            let over_y : y == 0 ≡ true = ground (arith, over, first) in rw (over, over_y) refl
        | inr more ↦
            let more_y : y == 0 ≡ false = ground (arith, more, first) in
            let rest =
              strncmp_zero-c_string xs ys (omega (arith, e)) (ground (arith, h, same, more)) in
            rw (more, more_y, first, rest) refl
      ]
]

-- The names have one length, and are the same up to a byte 0.
abbrev pub SameName : List ℕ → List ℕ → Type 0
SameName xs ys = (length xs ≡ length ys) × (c_string xs ≡ c_string ys)

vstr_cmp_zero-SameName : (xs ys : List ℕ) → vstr_cmp_zero xs ys ≡ true → SameName xs ys
unfolding vstr_cmp_zero
vstr_cmp_zero-SameName xs ys h = elim (Bool-cases (length xs == length ys)) [
  | inl same ↦
      let e : length xs ≡ length ys = (==_iff _ _).0 same in
      (e, strncmp_zero-c_string xs ys e (rw same at h))
  | inr other ↦ let clash : false ≡ true = rw other at h in absurd cc
]

-- a user of the list, with this name
abbrev pub IsUser : List ℕ → List User → User → Type 0
IsUser name us u = (i : ℕ) × (get_elem? us i ≡ some u) × SameName name u.name

find_user-IsUser :
    (name : List ℕ) (us : List User) (u : User) → find_user name us ≡ some u → IsUser name us u
unfolding find_user
find_user-IsUser name [] u h = absurd (ground arith)
find_user-IsUser name (x ∷ us) u h = elim (Bool-cases (vstr_cmp_zero name x.name)) [
  | inl here ↦
      let same : x ≡ u = some-injective _ _ (rw here at h) in
      (
        0,
        ap some same,
        subst (λ y. SameName name y.name) same (vstr_cmp_zero-SameName name x.name here),
      )
  | inr other ↦
      let (i, at_i, named) = find_user-IsUser name us u (rw other at h) in (suc i, at_i, named)
]

time_safe_equal-take :
    (xs ys : List ℕ) → time_safe_equal xs ys (length xs) ≡ true → take (length xs) ys ≡ xs
unfolding time_safe_equal
time_safe_equal-take [] ys h = refl
time_safe_equal-take (x ∷ xs) [] h = absurd cc
time_safe_equal-take (x ∷ xs) (y ∷ ys) h = elim (Bool-cases (x == y)) [
  | inl same ↦
      let first : y ≡ x = sym ((==_iff x y).0 same) in
      rw (first, time_safe_equal-take xs ys (rw same at h)) refl
  | inr other ↦ let clash : false ≡ true = rw other at h in absurd cc
]

-- What the user has for a password starts with the hash of this one.
abbrev pub HasPassword : (List ℕ → List ℕ) → List ℕ → User → Type 0
HasPassword sha256 password u =
    let hash = hash_password sha256 password in take (length hash) u.password ≡ hash

check_password_lem :
    (sha256 : List ℕ → List ℕ) (password : List ℕ) (found : Option User) (u : User)
    → check_password sha256 password found ≡ some u
    → (found ≡ some u) × HasPassword sha256 password u
unfolding check_password
check_password_lem sha256 password none u h = absurd (ground arith)
check_password_lem sha256 password (some x) u h =
    let hash = hash_password sha256 password in
    elim (Bool-cases (time_safe_equal hash x.password (length hash))) [
      | inl right ↦
          let same : x ≡ u = some-injective _ _ (rw right at h) in
          (
            ap some same,
            subst (λ y. HasPassword sha256 password y) same
                (time_safe_equal-take hash x.password right),
          )
      | inr wrong ↦ let no_user : none ≡ some u = rw wrong at h in absurd (ground arith)
    ]

module _ {D K : Type 0} (libc : Libc D) (ops : KeyOps K) (place : Object D → K)
    (value : K → Object D) (p : Platform) where
  -- what an accepted AUTH has shown
  pub record LoggedIn (s : Server K) (o q : Object D) (u : User) : Type 0 where
    pub name : List ℕ
    pub password : List ℕ
    pub is_name : o ≡ string name
    pub is_password : q ≡ string password
    pub is_user : IsUser name s.users u
    pub has_password : HasPassword p.sha256 password u

  -- An AUTH is accepted as a user only with two strings, where that user is one of the server's,
  -- with a name that has the length of the first string and is the same up to a byte 0, and what
  -- the user has for a password starts with the hash of the second string.
  pub logged_in-LoggedIn :
      (s : Server K) (o q : Object D) (u : User)
      → logged_in libc ops place value p s o q ≡ some u
      → LoggedIn s o q u
  unfolding logged_in
  logged_in-LoggedIn s (string name) (string password) u h =
      let (found, right) = check_password_lem p.sha256 password (find_user name s.users) u h in
      record {
        name = name;
        password = password;
        is_name = refl;
        is_password = refl;
        is_user = find_user-IsUser name s.users u found;
        has_password = right;
      }
  logged_in-LoggedIn s o q u h = absurd (ground arith)
