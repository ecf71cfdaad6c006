-- ===== src/Keys.antt =====
-- src/ht.c, src/set.c: how the two hash tables compare and hash keys. A table's `key_cmp` may be
-- NULL; the keys are then compared by their sizes and their bytes. `siphash` stands for the
-- function of src/siphash.c at the table's seed.
use lexidb.Base.{
  ℕ, ◌≡◌, refl, Bool, true, false, ◌&&◌, Option, none, some, List, [], ◌∷◌, arith, ◌==◌, length,
  if◌then◌else◌, ◌∙◌, ap,
}

pub record KeyOps {ℓ} (K : Type ℓ) : Type ℓ where
  pub bytes : K → List ℕ
  pub siphash : List ℕ → ℕ
  pub key_cmp : Option (K → K → Bool)

-- memcmp is 0: every byte of the first buffer agrees with the second's.
unfoldable pub memcmp_zero : List ℕ → List ℕ → Bool
memcmp_zero [] ys = true
memcmp_zero (x ∷ xs) [] = false
memcmp_zero (x ∷ xs) (y ∷ ys) = x == y && memcmp_zero xs ys

module _ {ℓ} {K : Type ℓ} (ops : KeyOps K) where
  compare_with : Option (K → K → Bool) → K → K → Bool
  compare_with (some cmp) k j = cmp k j
  compare_with none k j =
      if length (ops.bytes k) == length (ops.bytes j)
      then memcmp_zero (ops.bytes k) (ops.bytes j)
      else false

  -- `cmp == 0` in the loops of ht.c and set.c
  unfoldable pub same : K → K → Bool
  unfolding compare_with memcmp_zero
  same k j = compare_with ops.key_cmp k j

  unfoldable pub hash : K → ℕ
  hash k = ops.siphash (ops.bytes k)

  -- What a table needs of its keys.
  pub record IsLawful : Type ℓ where
    pub same_refl : (a : K) → same a a ≡ true
    pub same_symm : (a b : K) → same a b ≡ same b a
    pub same_trans : (a b c : K) → same a b ≡ true → same b c ≡ true → same a c ≡ true
    pub hash-same : (a b : K) → same a b ≡ true → hash a ≡ hash b

memcmp_zero_refl : (xs : List ℕ) → memcmp_zero xs xs ≡ true
unfolding memcmp_zero
memcmp_zero_refl [] = refl
memcmp_zero_refl (x ∷ xs) = ground (arith, memcmp_zero_refl xs)

memcmp_zero-eq : (xs ys : List ℕ) → length xs ≡ length ys → memcmp_zero xs ys ≡ true → xs ≡ ys
unfolding memcmp_zero
memcmp_zero-eq [] [] h e = refl
memcmp_zero-eq [] (y ∷ ys) h e = absurd (omega arith)
memcmp_zero-eq (x ∷ xs) [] h e = absurd (omega arith)
memcmp_zero-eq (x ∷ xs) (y ∷ ys) h e = ground (arith, memcmp_zero-eq xs ys)

module _ {ℓ} {K : Type ℓ} (ops : KeyOps K) (plain : ops.key_cmp ≡ none) where
  same-bytes : (a b : K) → same ops a b ≡ true → ops.bytes a ≡ ops.bytes b
  unfolding same
  same-bytes a b h = ground (arith, rw plain at h, memcmp_zero-eq (ops.bytes a) (ops.bytes b))

  bytes-same : (a b : K) → ops.bytes a ≡ ops.bytes b → same ops a b ≡ true
  unfolding same
  bytes-same a b e = rw (plain, e) (ground (arith, memcmp_zero_refl (ops.bytes b)))

  bytes-same_symm : (a b : K) → same ops a b ≡ same ops b a
  bytes-same_symm a b =
      ground (arith, same-bytes a b, same-bytes b a, bytes-same a b, bytes-same b a)

  -- Keys of a table with no key_cmp are compared by an equivalence, and equal keys have one hash,
  -- at every hash function.
  pub memcmp-IsLawful : IsLawful ops
  unfolding hash
  memcmp-IsLawful = record {
    same_refl = λ a. bytes-same a a refl;
    same_symm = bytes-same_symm;
    same_trans = λ a b c p q. bytes-same a c (same-bytes a b p ∙ same-bytes b c q);
    hash-same = λ a b p. ap ops.siphash (same-bytes a b p);
  }
