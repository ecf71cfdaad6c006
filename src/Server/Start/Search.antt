-- ===== src/Server/Start/Search.antt =====
-- src/server.c: the search for a user by name, over the vector and over its list.
use lexidb.Auth.{vstr_cmp_zero, strncmp_zero_refl}
use lexidb.Base.{
  ℕ, zero, suc, ◌+◌, ◌≤◌, ◌<◌, ◌≡◌, refl, Option, none, some, List, [], ◌∷◌, ◌++◌, arith, length,
  take, drop, get_or, Bool-cases, inl, inr, ==_refl,
}
use lexidb.Server.{User}
use lexidb.Server.Execute.{find_user}
use lexidb.ConfigParser.{no_user}
use lexidb.Server.Start.{same_name}
use lexidb.Vec.{find_from}

abbrev pub found_user : Option (ℕ × User) → Option User
found_user none = none
found_user (some r) = some r.1

-- `vec_find` with `user_compare` looks for the name as `vec_find` with `user_compare_by_username` does.
pub find_from-find_user :
    (u : User) (n i : ℕ) (xs : List User)
    → found_user (find_from (same_name u) n xs i) ≡ find_user u.name (take n xs)
unfolding find_from find_user
find_from-find_user u zero i xs = refl
find_from-find_user u (suc n) i [] = refl
find_from-find_user u (suc n) i (x ∷ xs) = elim (Bool-cases (vstr_cmp_zero u.name x.name)) [
  | inl here ↦ rw here refl
  | inr other ↦ rw other (find_from-find_user u n (i + 1) xs)
]

pub finds_itself : (u : User) → find_user u.name (u ∷ []) ≡ some u
unfolding find_user vstr_cmp_zero
finds_itself u = rw (==_refl (length u.name), strncmp_zero_refl u.name) refl

pub find_user-append :
    (name : List ℕ) (xs ys : List User) (w : User)
    → find_user name xs ≡ some w
    → find_user name (xs ++ ys) ≡ some w
unfolding find_user
find_user-append name [] ys w h = absurd cc
find_user-append name (x ∷ xs) ys w h = elim (Bool-cases (vstr_cmp_zero name x.name)) [
  | inl here ↦ rw here (rw here at h)
  | inr other ↦ rw other (find_user-append name xs ys w (rw other at h))
]

pub find_user-append_none :
    (name : List ℕ) (xs ys : List User)
    → find_user name xs ≡ none
    → find_user name (xs ++ ys) ≡ find_user name ys
unfolding find_user
find_user-append_none name [] ys h = refl
find_user-append_none name (x ∷ xs) ys h = elim (Bool-cases (vstr_cmp_zero name x.name)) [
  | inl here ↦ let clash : some x ≡ none = rw here at h in absurd cc
  | inr other ↦ rw other (find_user-append_none name xs ys (rw other at h))
]

pub drop-take :
    (i n : ℕ) (xs : List User)
    → i < n
    → n ≤ length xs
    → drop i (take n xs) ≡ get_or xs i no_user ∷ drop (suc i) (take n xs)
drop-take i zero xs below fits = absurd (omega arith)
drop-take i (suc n) [] below fits = absurd (omega arith)
drop-take zero (suc n) (x ∷ xs) below fits = refl
drop-take (suc i) (suc n) (x ∷ xs) below fits = drop-take i n xs (omega arith) (omega arith)

pub drop-all : (n : ℕ) (xs : List User) → length xs ≤ n → drop n xs ≡ []
drop-all zero [] h = refl
drop-all zero (x ∷ xs) h = absurd (omega arith)
drop-all (suc n) [] h = refl
drop-all (suc n) (x ∷ xs) h = drop-all n xs (omega arith)
