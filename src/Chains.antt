-- ===== src/Chains.antt =====
-- src/ht.c, src/set.c: one chain of entries, as the loops over `cur->next` see it.
use lexidb.Base.{
  ℕ, ◌+◌, ◌≤◌, ◌≡◌, refl, Bool, true, false, Option, none, some, List, [], ◌∷◌, ◌++◌, arith, length,
  if◌then◌else◌, ◌∙◌,
}
use lexidb.Keys.{KeyOps, same, IsLawful}

abbrev pub to_nat : Bool → ℕ
to_nat true = 1
to_nat false = 0

abbrev pub or_else {ℓ} : {A : Type ℓ} → Option A → Option A → Option A
or_else none b = b
or_else (some a) b = some a

module _ {ℓ} {E : Type ℓ} where
  -- the entry at which a loop over a chain stops
  unfoldable pub find : (E → Bool) → List E → Option E
  find p [] = none
  find p (e ∷ c) = if p e then some e else find p c

  -- the chain without that entry: `prev->next = cur->next`, or the slot's head
  unfoldable pub unlink : (E → Bool) → List E → List E
  unlink p [] = []
  unlink p (e ∷ c) = if p e then c else e ∷ unlink p c

  -- the chain with that entry overwritten
  unfoldable pub overwrite : (E → Bool) → (E → E) → List E → List E
  overwrite p f [] = []
  overwrite p f (e ∷ c) = if p e then f e ∷ c else e ∷ overwrite p f c

  unfoldable pub count : (E → Bool) → List E → ℕ
  count p [] = 0
  count p (e ∷ c) = to_nat (p e) + count p c

  module _ (p : E → Bool) where
    pub find-none : (c : List E) → count p c ≡ 0 → find p c ≡ none
    unfolding count find
    find-none [] h = refl
    find-none (e ∷ c) h = ground (arith, find-none c)

    pub count_zero : (c : List E) → find p c ≡ none → count p c ≡ 0
    unfolding count find
    count_zero [] h = refl
    count_zero (e ∷ c) h = ground (arith, count_zero c)

    pub find-append : (a b : List E) → find p (a ++ b) ≡ or_else (find p a) (find p b)
    unfolding find
    find-append [] b = refl
    find-append (e ∷ a) b = rw (find-append a b) (ground arith)

    pub count-append : (a b : List E) → count p (a ++ b) ≡ count p a + count p b
    unfolding count
    count-append [] b = omega arith
    count-append (e ∷ a) b = omega (arith, count-append a b)

    pub find_hit : (c : List E) (e : E) → find p c ≡ some e → p e ≡ true
    unfolding find
    find_hit [] e h = cc
    find_hit (x ∷ c) e h = ground (arith, find_hit c e)

    pub length-unlink :
        (c : List E) (e : E) → find p c ≡ some e → length (unlink p c) + 1 ≡ length c
    unfolding find unlink
    length-unlink [] e h = cc
    length-unlink (x ∷ c) e h = ground (arith, length-unlink c e)

    pub length-overwrite : (f : E → E) (c : List E) → length (overwrite p f c) ≡ length c
    unfolding overwrite
    length-overwrite f [] = refl
    length-overwrite f (x ∷ c) = ground (arith, length-overwrite f c)

-- the test of one entry in a search for `k`
abbrev pub hit {ℓ} : {K E : Type ℓ} → KeyOps K → (E → K) → K → E → Bool
hit ops key k e = same ops k (key e)

-- Two keys are the same to a chain, or hit different entries.
module _ {ℓ} {K E : Type ℓ} (ops : KeyOps K) (key : E → K) (lawful : IsLawful ops) where
  pub hit_congr : (a b : K) (e : E) → same ops a b ≡ true → hit ops key a e ≡ hit ops key b e
  hit_congr a b e h =
      ground
        (arith, lawful.same_symm a b, lawful.same_trans a b (key e), lawful.same_trans b a (key e))

  pub hit_both :
      (a b : K) (e : E) → hit ops key a e ≡ true → hit ops key b e ≡ true → same ops a b ≡ true
  hit_both a b e h g = lawful.same_trans a (key e) b h (lawful.same_symm (key e) b ∙ g)

  pub count-hit_congr :
      (a b : K) (c : List E)
      → same ops a b ≡ true
      → count (hit ops key a) c ≡ count (hit ops key b) c
  unfolding count
  count-hit_congr a b [] h = refl
  count-hit_congr a b (e ∷ c) h = rw (hit_congr a b e h, count-hit_congr a b c h)

  pub find-hit_congr :
      (a b : K) (c : List E) → same ops a b ≡ true → find (hit ops key a) c ≡ find (hit ops key b) c
  unfolding find
  find-hit_congr a b [] h = refl
  find-hit_congr a b (e ∷ c) h = rw (hit_congr a b e h, find-hit_congr a b c h)

  module _ (q k : K) where
    pub find-unlink :
        (c : List E)
        → count (hit ops key q) c ≤ 1
        → find (hit ops key q) (unlink (hit ops key k) c)
          ≡ (if same ops q k then none else find (hit ops key q) c)
    unfolding find unlink count
    find-unlink [] h = ground arith
    find-unlink (e ∷ c) h =
        ground (arith, find-unlink c, find-none (hit ops key q) c, hit_congr q k e, hit_both q k e)

    pub count-unlink-le :
        (c : List E) → count (hit ops key q) (unlink (hit ops key k) c) ≤ count (hit ops key q) c
    unfolding unlink count
    count-unlink-le [] = omega arith
    count-unlink-le (e ∷ c) = ground (arith, count-unlink-le c)

  module _ (f : E → E) (keeps : (e : E) → key (f e) ≡ key e) where
    pub count-overwrite :
        (q k : K) (c : List E)
        → count (hit ops key q) (overwrite (hit ops key k) f c) ≡ count (hit ops key q) c
    unfolding overwrite count
    count-overwrite q k [] = refl
    count-overwrite q k (e ∷ c) = ground (arith, count-overwrite q k c, keeps e)

    pub find-overwrite :
        (q k : K) (c : List E) (e : E)
        → find (hit ops key k) c ≡ some e
        → find (hit ops key q) (overwrite (hit ops key k) f c)
          ≡ (if same ops q k then some (f e) else find (hit ops key q) c)
    unfolding find overwrite
    find-overwrite q k [] e h = cc
    find-overwrite q k (x ∷ c) e h =
        ground (arith, find-overwrite q k c e, keeps x, hit_congr q k x, hit_both q k x)
