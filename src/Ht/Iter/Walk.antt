-- ===== src/Ht/Iter/Walk.antt =====
-- src/ht.c: what the loop over a table sees, by the entries that are left from the iterator's next one on.
use lexidb.Base.{
  ℕ, zero, suc, ◌+◌, ◌≤◌, ◌<◌, ◌≡◌, ◌⊎◌, refl, sym, ◌∙◌, ap, Bool, true, false, ◌&&◌, some, List,
  [], ◌∷◌, ◌++◌, arith, length, drop, flatten, ◌==◌, inl, inr, ==_refl,
}
use lexidb.Ht.{Ht}
use lexidb.Vec.Laws.{length-drop}
use lexidb.Ht.Iter.{
  HtIter, next_chain, is_null, stand_on, ht_iter_next, ht_iter_new, visit, ht_walk, start,
}

and_false : (b : Bool) → b && false ≡ false
and_false true = refl
and_false false = refl

module _ {E : Type 0} where
  -- an iterator over this array, with these pointers
  abbrev standing : List (List E) → List E → List E → ℕ → HtIter E
  standing entries cur next slot = record {
    entries = entries;
    cur = cur;
    next = next;
    next_slot = slot;
    end_slot = length entries;
  }

  -- These are the entries from `next` on.
  record Ahead (entries : List (List E)) (xs next : List E) (slot : ℕ) : Type 0 where
    ahead : xs ≡ next ++ flatten (drop (suc slot) entries)
    place : (next ≡ []) × (slot ≡ length entries) ⊎ (is_null next ≡ false) × (slot < length entries)

  -- an iterator with these entries from `next` on
  abbrev Stands : List (List E) → List E → List E → HtIter E → Type 0
  Stands entries cur xs it =
      (next : List E) × (slot : ℕ) × (it ≡ standing entries cur next slot)
      × Ahead entries xs next slot

  drop-past : (n : ℕ) (xs : List (List E)) → length xs ≤ n → drop n xs ≡ []
  drop-past zero [] h = refl
  drop-past (suc n) [] h = refl
  drop-past zero (x ∷ xs) h = absurd (omega arith)
  drop-past (suc n) (x ∷ xs) h = drop-past n xs (omega arith)

  drop-suc :
      (n : ℕ) (xs cs : List (List E)) (c : List E) → drop n xs ≡ c ∷ cs → drop (suc n) xs ≡ cs
  drop-suc zero [] cs c h = absurd cc
  drop-suc zero (x ∷ xs) cs c h = cc
  drop-suc (suc n) [] cs c h = absurd cc
  drop-suc (suc n) (x ∷ xs) cs c h = drop-suc n xs cs c h

  next_chain-Stands :
      (i : ℕ) (entries chains : List (List E)) (cur next : List E) (slot : ℕ)
      → drop i entries ≡ chains
      → i + length chains ≡ length entries
      → Stands entries cur
          (flatten chains)
          (stand_on (standing entries cur next slot) (next_chain i chains))
  unfolding next_chain flatten
  next_chain-Stands i entries [] cur next slot there size = (
    [],
    length entries,
    refl,
    record {
      ahead = sym (ap flatten (drop-past (suc (length entries)) entries (omega arith)));
      place = inl (refl, refl);
    },
  )
  next_chain-Stands i entries ([] ∷ chains) cur next slot there size =
      next_chain-Stands (suc i) entries chains cur next slot (drop-suc i entries chains [] there)
        (omega (arith, size))
  next_chain-Stands i entries ((e ∷ c) ∷ chains) cur next slot there size = (
    e ∷ c,
    i,
    refl,
    record {
      ahead = ap (λ cs. e ∷ (c ++ flatten cs)) (sym (drop-suc i entries chains (e ∷ c) there));
      place = inr (refl, omega (arith, size));
    },
  )

  advance-none :
      (entries : List (List E)) (cur : List E)
      → ht_iter_next (standing entries cur [] (length entries))
        ≡ standing entries [] [] (length entries)
  unfolding ht_iter_next
  advance-none entries cur = rw (==_refl (length entries)) refl

  advance-some :
      (entries : List (List E)) (cur c : List E) (e : E) (slot : ℕ)
      → slot < length entries
      → Stands entries
          (e ∷ c)
          (c ++ flatten (drop (suc slot) entries))
          (ht_iter_next (standing entries cur (e ∷ c) slot))
  unfolding ht_iter_next
  advance-some entries cur (d ∷ c) e slot inside =
      let more : slot == length entries ≡ false = ground arith in
      let later : slot == 0 && false ≡ false = and_false (slot == 0) in
      rw (more, later) (d ∷ c, slot, refl, record { ahead = refl; place = inr (refl, inside) })
  advance-some entries cur [] e slot inside =
      let more : slot == length entries ≡ false = ground arith in
      let later : slot == 0 && false ≡ false = and_false (slot == 0) in
      rw (more, later)
        (next_chain-Stands (suc slot) entries (drop (suc slot) entries) (e ∷ []) (e ∷ []) slot refl
          (omega (arith, length-drop (suc slot) entries, inside)))

  nil_case :
      (entries : List (List E)) (xs : List E) (slot : ℕ)
      → Ahead entries xs [] slot
      → (xs ≡ []) × (slot ≡ length entries)
  unfolding flatten
  nil_case entries xs slot h = go h.place
    where
      go :
          (◌≡◌ {A = List E} [] []) × (slot ≡ length entries)
            ⊎ (true ≡ false) × (slot < length entries)
          → (xs ≡ []) × (slot ≡ length entries)
      go (inl (_, end)) =
          (h.ahead ∙ ap flatten (drop-past (suc slot) entries (omega (arith, end))), end)
      go (inr (clash, _)) = absurd cc

  cons_case :
      (entries : List (List E)) (xs c : List E) (e : E) (slot : ℕ)
      → Ahead entries xs (e ∷ c) slot
      → slot < length entries
  cons_case entries xs c e slot h = go h.place
    where
      go :
          (e ∷ c ≡ []) × (slot ≡ length entries) ⊎ (false ≡ false) × (slot < length entries)
          → slot < length entries
      go (inl (clash, _)) = absurd cc
      go (inr (_, inside)) = inside

  walk_on :
      (fuel : ℕ) (entries : List (List E)) (xs c next : List E) (e : E) (slot : ℕ)
      → Ahead entries xs next slot
      → length xs + 1 < fuel
      → ht_walk fuel (standing entries (e ∷ c) next slot) ≡ some (e ∷ xs)
  unfolding ht_walk
  walk_on zero entries xs c next e slot h enough = absurd (omega arith)
  walk_on (suc zero) entries xs c next e slot h enough = absurd (omega arith)
  walk_on (suc (suc fuel)) entries xs c [] e slot h enough =
      let (none_left, end) = nil_case entries xs slot h in
      rw (none_left, end, advance-none entries (e ∷ c)) refl
  walk_on (suc (suc fuel)) entries xs c (d ∷ ds) e slot h enough =
      let (next, slot', moved, further) =
        advance-some entries (e ∷ c) ds d slot (cons_case entries xs ds d slot h) in
      let rest : ht_walk (suc fuel) (standing entries (d ∷ ds) next slot')
          ≡ some (d ∷ (ds ++ flatten (drop (suc slot) entries))) =
        walk_on (suc fuel) entries (ds ++ flatten (drop (suc slot) entries)) ds next d slot' further
          (omega (arith, enough, ap length h.ahead)) in
      ap (λ it. visit (e ∷ c) (ht_walk (suc fuel) it)) moved
      ∙ ap (visit (e ∷ c)) rest
      ∙ ap (λ ys. some (e ∷ ys)) (sym h.ahead)

  first-Stands :
      (entries : List (List E))
      → 0 < length entries
      → Stands entries [] (flatten entries) (ht_iter_next (standing entries [] [] 0))
  unfolding ht_iter_next
  first-Stands entries some_slot =
      let more : 0 == length entries ≡ false = ground arith in
      rw more (next_chain-Stands 0 entries entries [] [] 0 refl (omega arith))

  walk_first :
      (fuel : ℕ) (entries : List (List E)) (xs next : List E) (slot : ℕ)
      → Ahead entries xs next slot
      → length xs < fuel
      → ht_walk fuel (ht_iter_next (standing entries [] next slot)) ≡ some xs
  walk_first zero entries xs next slot h enough = absurd (omega arith)
  walk_first (suc fuel) entries xs [] slot h enough =
      let (none_left, end) = nil_case entries xs slot h in
      rw (none_left, end, advance-none entries []) (unfold ht_walk in refl)
  walk_first (suc fuel) entries xs (d ∷ ds) slot h enough =
      let (next, slot', moved, further) =
        advance-some entries [] ds d slot (cons_case entries xs ds d slot h) in
      ap (ht_walk (suc fuel)) moved
      ∙ walk_on (suc fuel) entries (ds ++ flatten (drop (suc slot) entries)) ds next d slot' further
          (omega (arith, enough, ap length h.ahead))
      ∙ ap (λ ys. some ys) (sym h.ahead)

-- The loop over a table that has a slot, and as many as its capacity says, sees each entry once, in
-- the order of the slots and of the chains, and ends.
pub ht_walk-flatten :
    {K V : Type 0} (ht : Ht K V)
    → length ht.entries ≡ ht.capacity
    → 0 < ht.capacity
    → ht_walk (length (flatten ht.entries) + 1) (ht_iter_new ht) ≡ some (flatten ht.entries)
unfolding ht_iter_new
ht_walk-flatten ht sized some_slot =
    let entries = ht.entries in
    let (next, slot, moved, ahead) = first-Stands entries (omega (arith, sized, some_slot)) in
    let begun : start ht ≡ standing entries [] [] 0 = cc in
    ap (λ it. ht_walk (length (flatten entries) + 1) (ht_iter_next (ht_iter_next it))) begun
    ∙ ap (λ it. ht_walk (length (flatten entries) + 1) (ht_iter_next it)) moved
    ∙ walk_first (length (flatten entries) + 1) entries (flatten entries) next slot ahead
        (omega arith)
