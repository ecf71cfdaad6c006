-- ===== src/Vec/Correct.antt =====
-- src/vec.c: what the operations do to the list of the elements.
use lexidb.Base.{
  ℕ, zero, suc, ◌+◌, ◌-◌, ◌*◌, ◌%◌, ◌^◌, ◌≤◌, ◌<◌, ◌≡◌, refl, ap, sym, ◌∙◌, Bool, true, false,
  Option, none, some, List, [], ◌∷◌, ◌++◌, arith, length, set, get_elem?, take, drop, replicate,
  ltb, ◌==◌, Bool-cases, inl, inr, length-append, length-set, length-replicate, append_assoc,
}
use lexidb.Vec.{
  Vec, vec_header, vec_realloc, doubled_bytes, append, push, pop, remove_at, shift_down,
}
use lexidb.Vec.Laws.{
  AllocFits, items, IsValid, without, length-take, length-drop, take-append, take-set,
  take-set_last, take_last, get_elem?-take, get_elem?-take_past, without_last, without-take,
}

module _ {ℓ} {A : Type ℓ} (blank : A) where
  -- a vector with the elements `xs`, in good order
  pub record Holds (v : Vec A) (xs : List A) : Type ℓ where
    pub still_valid : IsValid v
    pub same_items : items v ≡ xs

  append-Holds :
      (v : Vec A) (x : A) → IsValid v → v.len < v.cap → Holds (append blank v x) (items v ++ x ∷ [])
  unfolding append
  append-Holds v x valid room = record {
    still_valid = record {
      sized = valid.sized;
      roomy = valid.roomy;
      within = omega arith;
      allocated = length-set v.slots v.len x ∙ valid.allocated;
      small = valid.small;
    };
    same_items =
        let more : v.len + 1 ≡ suc v.len = omega arith in
        ap (λ n. take n (set v.slots v.len x)) more
        ∙ take-set v.len v.slots x (omega (arith, valid.allocated));
  }

  product_lem : (n size : ℕ) → 0 < size → n ≤ n * size
  product_lem zero size h = omega arith
  product_lem (suc n) size h = omega (arith, product_lem n size h)

  grown-Holds :
      (v : Vec A) (cap : ℕ)
      → IsValid v
      → v.cap ≤ cap
      → vec_header + cap * v.data_size < 2 ^ 63
      → Holds
          (record v { cap = cap; slots = take v.len v.slots ++ replicate (cap - v.len) blank })
          (items v)
  grown-Holds v cap valid more fits = record {
    still_valid = record {
      sized = valid.sized;
      roomy = omega (arith, valid.roomy);
      within = omega (arith, valid.within);
      allocated = omega (
        arith,
        length-append (take v.len v.slots) (replicate (cap - v.len) blank),
        length-take v.len v.slots (omega (arith, valid.allocated, valid.within)),
        length-replicate (cap - v.len) blank,
        valid.within,
      );
      small = fits;
    };
    same_items =
        take-append (take v.len v.slots) _ v.len
          (length-take v.len v.slots (omega (arith, valid.allocated, valid.within)));
  }

  -- Twice the capacity, and the bytes that it takes, are no more than a size_t holds.
  doubled_lem :
      (v : Vec A)
      → IsValid v
      → (v.cap * 2 % 2 ^ 64 ≡ v.cap * 2)
        × (doubled_bytes blank v ≡ vec_header + v.cap * 2 * v.data_size)
  doubled_lem v valid =
      let few = product_lem v.cap v.data_size valid.sized in
      let same : v.cap * 2 % 2 ^ 64 ≡ v.cap * 2 = omega (arith, valid.small) in
      (same, rw same (omega (arith, valid.small)))

  -- What an append may answer: it fails where the vector is full and cannot be doubled.
  abbrev pub Pushed : (ℕ → Bool) → Vec A → A → Option (Vec A) → Type ℓ
  Pushed realloc v x none =
      (v.len ≡ v.cap) × (realloc (doubled_bytes blank v) ≡ false) × Holds v (items v)
  Pushed realloc v x (some w) =
      (v.len ≡ v.cap → realloc (doubled_bytes blank v) ≡ true) × Holds w (items v ++ x ∷ [])

  -- With an allocator that gives no block of 2^63 bytes, an append to a valid vector puts the
  -- element behind the others and leaves the vector valid, or fails, where it is full and realloc
  -- refuses twice its capacity, and keeps the elements.
  pub push-Pushed :
      (realloc : ℕ → Bool) (v : Vec A) (x : A)
      → AllocFits realloc
      → IsValid v
      → Pushed realloc v x (push blank realloc v x)
  unfolding push vec_realloc
  push-Pushed realloc v x fits valid = elim (Bool-cases (v.len == v.cap)) [
    | inr room ↦
        rw room
          (λ full. absurd (ground arith), append-Holds v x valid (ground (arith, valid.within)))
    | inl full ↦ elim (Bool-cases (realloc (doubled_bytes blank v))) [
      | inr refused ↦
          rw (full, refused)
            (ground arith, refused, record { still_valid = valid; same_items = refl })
      | inl got ↦
          let (same, bytes) = doubled_lem v valid in
          let grown =
            grown-Holds v (v.cap * 2 % 2 ^ 64) valid (omega arith)
              (rw same (omega (arith, fits _ got, bytes))) in
          let added =
            append-Holds _ x grown.still_valid (omega (arith, same, valid.roomy, valid.within)) in
          rw (full, got)
            (
              λ _. got,
              record {
                still_valid = added.still_valid;
                same_items = added.same_items ∙ ap (λ xs. xs ++ x ∷ []) grown.same_items;
              },
            )
    ]
  ]

  abbrev pub Popped : Vec A → Option (A × Vec A) → Type ℓ
  Popped v none = items v ≡ []
  Popped v (some (x, w)) = IsValid w × (items v ≡ items w ++ x ∷ [])

  -- On a valid vector a pop fails exactly when there is no element, and else takes off the last one
  -- and leaves the vector valid.
  pub pop-Popped : (v : Vec A) → IsValid v → Popped v (pop blank v)
  unfolding pop
  pop-Popped v valid = elim (Bool-cases (v.len == 0)) [
    | inl empty ↦
        let none_in : v.len ≡ 0 = ground arith in rw empty (ap (λ n. take n v.slots) none_in)
    | inr full ↦
        let count : v.len ≡ suc (v.len - 1) = ground arith in
        rw full (
          record {
            sized = valid.sized;
            roomy = valid.roomy;
            within = omega (arith, valid.within);
            allocated = valid.allocated;
            small = valid.small;
          },
          ap (λ n. take n v.slots) count
              ∙ take_last (v.len - 1) v.slots blank (omega (arith, valid.within, valid.allocated)),
        )
  ]

  shift_down-items :
      (idx n : ℕ) (xs : List A)
      → idx ≤ n
      → suc n ≤ length xs
      → take n (shift_down blank idx n xs) ≡ without idx (take (suc n) xs)
  unfolding shift_down
  shift_down-items idx n xs order inside = rw (← append_assoc) (
      take-append (take idx xs ++ take (n - idx) (drop (suc idx) xs)) _ n (
        omega (
          arith,
          length-append (take idx xs) (take (n - idx) (drop (suc idx) xs)),
          length-take idx xs (omega arith),
          length-take (n - idx) (drop (suc idx) xs) (omega (arith, length-drop (suc idx) xs)),
        ))
      ∙ sym (without-take idx (n - idx) (suc n) xs (omega arith)))

  length-shift_down :
      (idx n : ℕ) (xs : List A)
      → idx ≤ n
      → suc n ≤ length xs
      → length (shift_down blank idx n xs) ≡ length xs
  unfolding shift_down
  length-shift_down idx n xs order inside = omega (
    arith,
    length-append (take idx xs) (take (n - idx) (drop (suc idx) xs) ++ blank ∷ drop (suc n) xs),
    length-append (take (n - idx) (drop (suc idx) xs)) (blank ∷ drop (suc n) xs),
    length-take idx xs (omega arith),
    length-take (n - idx) (drop (suc idx) xs) (omega (arith, length-drop (suc idx) xs)),
    length-drop (suc idx) xs,
    length-drop (suc n) xs,
  )

  abbrev pub Removed : Vec A → ℕ → Option (A × Vec A) → Type ℓ
  Removed v idx none = get_elem? (items v) idx ≡ none
  Removed v idx (some (x, w)) = (get_elem? (items v) idx ≡ some x) × Holds w (without idx (items v))

  -- the vector without an element, when the slots are one element shorter at the index
  closed-Holds :
      (v : Vec A) (idx : ℕ) (ys : List A)
      → IsValid v
      → idx < v.len
      → length ys ≡ length v.slots
      → take (v.len - 1) ys ≡ without idx (items v)
      → Holds (record v { len = v.len - 1; slots = ys }) (without idx (items v))
  closed-Holds v idx ys valid inside long same = record {
    still_valid = record {
      sized = valid.sized;
      roomy = valid.roomy;
      within = omega (arith, valid.within);
      allocated = long ∙ valid.allocated;
      small = valid.small;
    };
    same_items = same;
  }

  -- On a valid vector a removal fails exactly when the index is past the elements, and else gives
  -- the element at the index, leaves the others in order, and the vector valid.
  pub remove_at-Removed : (v : Vec A) (idx : ℕ) → IsValid v → Removed v idx (remove_at blank v idx)
  unfolding remove_at
  remove_at-Removed v idx valid = elim (Bool-cases (ltb idx v.len)) [
    | inr past ↦ rw past (get_elem?-take_past v.len idx v.slots (ground arith))
    | inl inside ↦
        let here : idx < v.len = ground arith in
        let count : v.len ≡ suc (v.len - 1) = omega arith in
        let allotted : v.len ≤ length v.slots = omega (arith, valid.within, valid.allocated) in
        let behind = sym (ap (λ n. without idx (take n v.slots)) count) in
        rw inside (
          get_elem?-take v.len idx v.slots blank here
              (omega (arith, valid.within, valid.allocated)),
          elim (Bool-cases (v.len - 1 == idx)) [
            | inl last ↦
                let end : v.len - 1 ≡ idx = ground arith in
                rw last (
                  closed-Holds v idx (set v.slots idx blank) valid here
                    (length-set v.slots idx blank)
                    (ap (λ n. take n (set v.slots idx blank)) end
                      ∙ take-set_last idx v.slots blank
                      ∙ sym (without_last idx v.slots (omega arith))
                      ∙ ap (λ n. without idx (take (suc n) v.slots)) (sym end)
                      ∙ behind))
            | inr before ↦ rw before (
                closed-Holds v idx _ valid here
                  (length-shift_down idx (v.len - 1) v.slots (omega arith) (omega arith))
                  (shift_down-items idx (v.len - 1) v.slots (omega arith) (omega arith) ∙ behind))
          ],
        )
  ]
