-- ===== src/Clap/Table.antt =====
-- src/clap.c: the table of the values, where the first value of a name stays.
use lexidb.Base.{
  ℕ, ◌+◌, ◌≤◌, ◌<◌, ◌≡◌, refl, ap, sym, ◌∙◌, Bool, true, false, List, [], ◌∷◌, Option, none, some,
  length, arith, ◌==◌, if◌then◌else◌, Bool-cases, Option-cases, inl, inr,
}
use lexidb.Clap.{text_keys}
use lexidb.Ht
use lexidb.Ht.{Ht, HtResult, ht_ok, ht_inv_key, ht_oom}
use lexidb.Keys.{same, memcmp_zero, memcmp-IsLawful}
use lexidb.Memory.{Memory, CallocFits}
use lexidb.Object.{Object}

abbrev pub or_else {ℓ} : {A : Type ℓ} → Option A → Option A → Option A
or_else none o = o
or_else (some a) o = some a

pub or_else-none {ℓ} : {A : Type ℓ} (o : Option A) → or_else o none ≡ o
or_else-none none = refl
or_else-none (some a) = refl

pub or_else_assoc {ℓ} :
    {A : Type ℓ} (o p q : Option A) → or_else (or_else o p) q ≡ or_else o (or_else p q)
or_else_assoc none p q = refl
or_else_assoc (some a) p q = refl

pub absent_wins {ℓ} :
    {A : Type ℓ} (b : Bool) (old : Option A) (v : A)
    → (b ≡ true → old ≡ none)
    → (if b then some v else old) ≡ or_else old (if b then some v else none)
absent_wins true old v h = rw (h refl) refl
absent_wins false old v h = sym (or_else-none old)

pub present_wins {ℓ} :
    {A : Type ℓ} (b : Bool) (old : Option A) (v w : A)
    → (b ≡ true → old ≡ some w)
    → old ≡ or_else old (if b then some v else none)
present_wins true old v w h = rw (h refl) refl
present_wins false old v w h = sym (or_else-none old)

-- Texts that compare as the same are the same.
pub memcmp-same : (xs ys : List ℕ) → length xs ≡ length ys → memcmp_zero xs ys ≡ true → xs ≡ ys
unfolding memcmp_zero
memcmp-same [] [] e h = refl
memcmp-same [] (y ∷ ys) e h = absurd (omega arith)
memcmp-same (x ∷ xs) [] e h = absurd (omega arith)
memcmp-same (x ∷ xs) (y ∷ ys) e h = ground (arith, memcmp-same xs ys (omega arith))

pub same-≡ : (siphash : List ℕ → ℕ) (j k : List ℕ) → same (text_keys siphash) j k ≡ true → j ≡ k
unfolding same
same-≡ siphash j k h = elim (Bool-cases (length j == length k)) [
  | inl e ↦ memcmp-same j k (ground arith) (rw e at h)
  | inr e ↦ let clash : false ≡ true = rw e at h in absurd cc
]

pub if_none {ℓ} : {A : Type ℓ} (b : Bool) → ◌≡◌ {A = Option A} (if b then none else none) none
if_none true = refl
if_none false = refl

module _ {D : Type 0} (siphash : List ℕ → ℕ) (m : Memory) where
  pub record Ready (n : ℕ) (t : Ht (List ℕ) (Object D)) : Type 0 where
    pub valid : Ht.Laws.IsValid (text_keys siphash) t
    pub cap : t.capacity ≡ 32
    pub few : t.num_entries ≤ n

  abbrev pub reads : Ht (List ℕ) (Object D) → List ℕ → Option (Object D)
  reads t name = Ht.get (text_keys siphash) t name

  pub try_insert-Ready :
      (n : ℕ) (t : Ht (List ℕ) (Object D)) (k : List ℕ) (v : Object D)
      → CallocFits m
      → Ready n t
      → n < 32
      → let r = (Ht.try_insert (text_keys siphash) m t k v).0 in
        Ready (n + 1) r
        × ((q : List ℕ)
            → reads r q
              ≡ or_else (reads t q) (if same (text_keys siphash) q k then some v else none))
  try_insert-Ready n t k v fits ready below =
      let ops = text_keys siphash in
      let a =
        Ht.Correct.try_insert-Answers ops (memcmp-IsLawful ops refl) k m fits t v ready.valid in
      let (cap, num) =
        Ht.Size.try_insert-GrowsByOne ops m t k v (omega (arith, ready.cap, ready.few)) in
      let room : Ht.Laws.no_room ops m t ≡ false = ground (arith, ready.cap, ready.few) in
      (
        record {
          valid = a.still_valid;
          cap = cap ∙ ready.cap;
          few = omega (arith, num, ready.few);
        },
        elim (Option-cases (reads t k)) [
          | inl e ↦
              let w = a.written (rw (room, e) refl) in
              λ q.
                w.reads q
                ∙ absent_wins (same ops q k) (reads t q) v
                    (λ h. ap (reads t) (same-≡ siphash q k h) ∙ e)
          | inr (old, e) ↦
              let kept = a.unchanged (rw (room, e) (λ clash. absurd cc)) in
              λ q.
                kept q
                ∙ present_wins (same ops q k) (reads t q) v old
                    (λ h. ap (reads t) (same-≡ siphash q k h) ∙ e)
        ],
      )
