-- ===== src/Vec/Laws.antt =====
-- src/vec.c: the elements of a vector as a list, and the lemmas on slots that its operations need.
use lexidb.Base.{
  ℕ, zero, suc, ◌+◌, ◌-◌, ◌*◌, ◌^◌, ◌≤◌, ◌<◌, ◌≡◌, refl, ap, Bool, true, List, [], ◌∷◌, ◌++◌, arith,
  length, set, get_or, get_elem?, take, drop, some, none,
}
use lexidb.Vec.{Vec, vec_header}

-- An allocator gives no block of 2^63 bytes or more.
abbrev pub AllocFits : (ℕ → Bool) → Type 0
AllocFits alloc = (n : ℕ) → alloc n ≡ true → n < 2 ^ 63

module _ {ℓ} {A : Type ℓ} where
  abbrev pub items : Vec A → List A
  items v = take v.len v.slots

  pub record IsValid (v : Vec A) : Type 0 where
    pub sized : 0 < v.data_size
    pub roomy : 2 ≤ v.cap
    pub within : v.len ≤ v.cap
    pub allocated : length v.slots ≡ v.cap
    pub small : vec_header + v.cap * v.data_size < 2 ^ 63

  -- the list without its element at an index
  abbrev pub without : ℕ → List A → List A
  without i [] = []
  without zero (x ∷ xs) = xs
  without (suc i) (x ∷ xs) = x ∷ without i xs

  pub length-take : (n : ℕ) (xs : List A) → n ≤ length xs → length (take n xs) ≡ n
  length-take zero xs h = refl
  length-take (suc n) [] h = absurd (omega arith)
  length-take (suc n) (x ∷ xs) h = ap suc (length-take n xs (omega arith))

  pub length-drop : (n : ℕ) (xs : List A) → length (drop n xs) ≡ length xs - n
  length-drop zero xs = omega arith
  length-drop (suc n) [] = omega arith
  length-drop (suc n) (x ∷ xs) = omega (arith, length-drop n xs)

  -- What follows the first `n` slots is not looked at.
  pub take-append : (xs ys : List A) (n : ℕ) → length xs ≡ n → take n (xs ++ ys) ≡ xs
  take-append [] ys zero e = refl
  take-append [] ys (suc n) e = absurd (omega arith)
  take-append (x ∷ xs) ys zero e = absurd (omega arith)
  take-append (x ∷ xs) ys (suc n) e = ap (λ zs. x ∷ zs) (take-append xs ys n (omega arith))

  pub take-set :
      (n : ℕ) (xs : List A) (x : A)
      → n < length xs
      → take (suc n) (set xs n x) ≡ take n xs ++ x ∷ []
  take-set n [] x h = absurd (omega arith)
  take-set zero (y ∷ ys) x h = refl
  take-set (suc n) (y ∷ ys) x h = ap (λ zs. y ∷ zs) (take-set n ys x (omega arith))

  pub take-set_last : (n : ℕ) (xs : List A) (x : A) → take n (set xs n x) ≡ take n xs
  take-set_last zero xs x = refl
  take-set_last (suc n) [] x = refl
  take-set_last (suc n) (y ∷ ys) x = ap (λ zs. y ∷ zs) (take-set_last n ys x)

  pub take_last :
      (n : ℕ) (xs : List A) (d : A)
      → n < length xs
      → take (suc n) xs ≡ take n xs ++ get_or xs n d ∷ []
  take_last n [] d h = absurd (omega arith)
  take_last zero (y ∷ ys) d h = refl
  take_last (suc n) (y ∷ ys) d h = ap (λ zs. y ∷ zs) (take_last n ys d (omega arith))

  pub get_elem?-take :
      (n i : ℕ) (xs : List A) (d : A)
      → i < n
      → n ≤ length xs
      → get_elem? (take n xs) i ≡ some (get_or xs i d)
  get_elem?-take zero i xs d h k = absurd (omega arith)
  get_elem?-take (suc n) i [] d h k = absurd (omega arith)
  get_elem?-take (suc n) zero (x ∷ xs) d h k = refl
  get_elem?-take (suc n) (suc i) (x ∷ xs) d h k =
      get_elem?-take n i xs d (omega arith) (omega arith)

  pub without_last : (n : ℕ) (xs : List A) → n < length xs → without n (take (suc n) xs) ≡ take n xs
  without_last n [] h = absurd (omega arith)
  without_last zero (x ∷ xs) h = refl
  without_last (suc n) (x ∷ xs) h = ap (λ zs. x ∷ zs) (without_last n xs (omega arith))

  -- the elements before and behind an index
  pub without-take :
      (i m n : ℕ) (xs : List A)
      → n ≡ suc (i + m)
      → without i (take n xs) ≡ take i xs ++ take m (drop (suc i) xs)
  without-take i m zero xs e = absurd (omega arith)
  without-take zero zero (suc n) [] e = refl
  without-take zero (suc m) (suc n) [] e = refl
  without-take (suc i) zero (suc n) [] e = refl
  without-take (suc i) (suc m) (suc n) [] e = refl
  without-take zero m (suc n) (x ∷ xs) e =
      let same : n ≡ m = omega arith in ap (λ k. take k xs) same
  without-take (suc i) m (suc n) (x ∷ xs) e =
      ap (λ zs. x ∷ zs) (without-take i m n xs (omega arith))

  pub get_elem?-take_past : (n i : ℕ) (xs : List A) → n ≤ i → get_elem? (take n xs) i ≡ none
  get_elem?-take_past zero i xs h = refl
  get_elem?-take_past (suc n) i [] h = refl
  get_elem?-take_past (suc n) zero (x ∷ xs) h = absurd (omega arith)
  get_elem?-take_past (suc n) (suc i) (x ∷ xs) h = get_elem?-take_past n i xs (omega arith)
