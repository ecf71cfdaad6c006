-- ===== src/Server/Clients/Placed.antt =====
-- src/server.c: a list of clients, each at its address, and the vector of the addresses.
use lexidb.Base.{
  All, take, ℕ, zero, suc, ◌+◌, ◌≡◌, ◌≢◌, refl, ap, sym, ◌∙◌, false, List, [], ◌∷◌, ◌++◌, map,
  Option, none, some, get_elem?, some-injective, arith, ◌==◌, ==_iff, ◌⊎◌, if◌then◌else◌,
  Bool-cases, inl, inr, subst,
}
use lexidb.Server.Clients.{Socket, Store, put, Net, Found, found, missing, find_client}
use lexidb.Vec.Laws.{IsValid, items, without}

-- a client with the address that it stands at
abbrev pub Placed : Type 0
Placed = ℕ × Socket

abbrev pub Stored : Store → List Placed → Type 0
Stored store [] = Unit
Stored store ((a, s) ∷ xs) = (store a ≡ some s) × Stored store xs

-- none of the clients stands at this address
abbrev pub Apart : ℕ → List Placed → Type 0
Apart a [] = Unit
Apart a ((b, s) ∷ xs) = (b ≢ a) × Apart a xs

abbrev pub Distinct : List Placed → Type 0
Distinct [] = Unit
Distinct ((a, s) ∷ xs) = Apart a xs × Distinct xs

abbrev pub addresses : List Placed → List ℕ
addresses xs = map (λ x. x.0) xs

-- The vector has the addresses of these clients, in order, each allocated, and no two the same.
pub record Tracks {Handler : Type 0} (net : Net Handler) (xs : List Placed) : Type 0 where
  pub valid : IsValid net.clients
  pub listed : items net.clients ≡ addresses xs
  pub stored : Stored net.store xs
  pub distinct : Distinct xs

-- the first client with this file, with its index
abbrev pub first_with : ℕ → List Placed → ℕ → Found
first_with fd [] i = missing
first_with fd ((a, s) ∷ xs) i = if s.fd == fd then found i a s else first_with fd xs (i + 1)

pub find_client-first_with :
    (fd : ℕ) (store : Store) (xs : List Placed) (i : ℕ)
    → Stored store xs
    → find_client fd store (addresses xs) i ≡ first_with fd xs i
unfolding find_client
find_client-first_with fd store [] i h = refl
find_client-first_with fd store ((a, s) ∷ xs) i (here, h) =
    rw (here, find_client-first_with fd store xs (i + 1) h) refl

pub Stored-put :
    (store : Store) (a : ℕ) (o : Option Socket) (xs : List Placed)
    → Apart a xs
    → Stored store xs
    → Stored (put store a o) xs
Stored-put store a o [] apart h = tt
Stored-put store a o ((b, s) ∷ xs) (other, apart) (here, h) =
    let differs : b == a ≡ false = ground (arith, other, ==_iff b a) in
    (rw differs here, Stored-put store a o xs apart h)

pub Stored-append :
    (store : Store) (xs : List Placed) (a : ℕ) (s : Socket)
    → Stored store xs
    → store a ≡ some s
    → Stored store (xs ++ (a, s) ∷ [])
Stored-append store [] a s h here = (here, tt)
Stored-append store (x ∷ xs) a s (first, h) here = (first, Stored-append store xs a s h here)

-- an address that is not allocated is no client's
pub Stored-Apart :
    (store : Store) (a : ℕ) (xs : List Placed) → store a ≡ none → Stored store xs → Apart a xs
Stored-Apart store a [] free h = tt
Stored-Apart store a ((b, s) ∷ xs) free (here, h) =
    (λ same. absurd (let clash = ap store same ∙ free in cc), Stored-Apart store a xs free h)

pub Apart-append :
    (b : ℕ) (xs : List Placed) (a : ℕ) (s : Socket)
    → Apart b xs
    → a ≢ b
    → Apart b (xs ++ (a, s) ∷ [])
Apart-append b [] a s h other = (other, tt)
Apart-append b (x ∷ xs) a s (first, h) other = (first, Apart-append b xs a s h other)

pub Distinct-append :
    (xs : List Placed) (a : ℕ) (s : Socket)
    → Distinct xs
    → Apart a xs
    → Distinct (xs ++ (a, s) ∷ [])
Distinct-append [] a s h apart = (tt, tt)
Distinct-append ((b, t) ∷ xs) a s (first, h) (other, apart) =
    (Apart-append b xs a s first (λ same. other (sym same)), Distinct-append xs a s h apart)

pub addresses-append :
    (xs : List Placed) (a : ℕ) (s : Socket) → addresses (xs ++ (a, s) ∷ []) ≡ addresses xs ++ a ∷ []
addresses-append [] a s = refl
addresses-append (x ∷ xs) a s = ap (λ as'. x.0 ∷ as') (addresses-append xs a s)

pub Apart-without : (b : ℕ) (xs : List Placed) (i : ℕ) → Apart b xs → Apart b (without i xs)
Apart-without b [] i apart = tt
Apart-without b (x ∷ xs) zero (other, apart) = apart
Apart-without b (x ∷ xs) (suc i) (other, apart) = (other, Apart-without b xs i apart)

pub Apart-get :
    (b : ℕ) (xs : List Placed) (i a : ℕ) (s : Socket)
    → Apart b xs
    → get_elem? xs i ≡ some (a, s)
    → a ≢ b
Apart-get b [] i a s apart h = absurd cc
Apart-get b ((c, t) ∷ xs) zero a s (other, apart) h =
    λ same. other (ap (λ x. x.0) (some-injective _ _ h) ∙ same)
Apart-get b (x ∷ xs) (suc i) a s (other, apart) h = Apart-get b xs i a s apart h

-- What is left when the client at an index goes: the others, all apart from it.
pub without-Stored :
    (store : Store) (xs : List Placed) (i a : ℕ) (s : Socket)
    → Stored store xs
    → Distinct xs
    → get_elem? xs i ≡ some (a, s)
    → Stored store (without i xs)
      × Distinct (without i xs)
      × Apart a (without i xs)
      × (addresses (without i xs) ≡ without i (addresses xs))
      × (get_elem? (addresses xs) i ≡ some a)
without-Stored store [] i a s h d at_i = absurd cc
without-Stored store ((b, t) ∷ xs) zero a s (here, h) (apart, d) at_i =
    let same : (b, t) ≡ (a, s) = some-injective _ _ at_i in
    (h, d, subst (λ c. Apart c xs) (ap (λ x. x.0) same) apart, refl, ap (λ x. some x.0) same)
without-Stored store ((b, t) ∷ xs) (suc i) a s (here, h) (apart, d) at_i =
    let (h', d', apart', listed, at_a) = without-Stored store xs i a s h d at_i in
    (
      (here, h'),
      (Apart-without b xs i apart, d'),
      (λ same. Apart-get b xs i a s apart at_i (sym same), apart'),
      ap (λ ys. b ∷ ys) listed,
      at_a,
    )

-- none of these clients has the file
abbrev pub AreOthers : ℕ → List Placed → Type 0
AreOthers fd xs = All (λ x. x.1.fd ≢ fd) xs

-- The search ends at the first client with the file.
pub first_with-cases :
    (fd : ℕ) (xs : List Placed) (i : ℕ)
    → ((first_with fd xs i ≡ missing) × AreOthers fd xs)
      ⊎ ((j : ℕ) × (a : ℕ) × (s : Socket) × (first_with fd xs i ≡ found (i + j) a s)
          × (get_elem? xs j ≡ some (a, s))
          × (s.fd ≡ fd)
          × AreOthers fd (take j xs))
first_with-cases fd [] i = inl (refl, tt)
first_with-cases fd ((a, s) ∷ xs) i = elim (Bool-cases (s.fd == fd)) [
  | inl here ↦
      let i_zero : i ≡ i + 0 = omega arith in
      inr (0, a, s, rw here (ap (λ k. found k a s) i_zero), refl, ground arith, tt)
  | inr other ↦
      let differs : s.fd ≢ fd = λ e. ground (arith, other, e, ==_iff s.fd fd) in
      elim (first_with-cases fd xs (i + 1)) [
        | inl (none_there, others) ↦ inl (rw other none_there, (differs, others))
        | inr (j, b, t, there, at_j, same, others) ↦
            let next : i + 1 + j ≡ i + suc j = omega arith in
            inr (
              suc j,
              b,
              t,
              rw other (there ∙ ap (λ k. found k b t) next),
              at_j,
              same,
              (differs, others),
            )
      ]
]
