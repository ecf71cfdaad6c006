-- ===== src/Vec/Iter.antt =====
-- src/vec.c: the iterator over a vector. `cur` and `next` are indices of elements; a null pointer is
-- `none`.
use lexidb.Base.{
  ℕ, zero, suc, ◌+◌, ◌-◌, ◌%◌, ◌^◌, ◌≤◌, ◌<◌, ◌≡◌, ◌≢◌, inl, inr, Option-cases, refl, ap, ◌∙◌,
  Option, none, some, List, [], ◌∷◌, arith, ltb, if◌then◌else◌,
}
use lexidb.Vec.{Vec}

pub record VecIter : Type 0 where
  pub cur : Option ℕ
  pub next : Option ℕ
  pub next_idx : ℕ
  pub end_idx : ℕ

unfoldable pub iter_next : VecIter → VecIter
iter_next it = record {
  cur = it.next;
  next = if ltb it.end_idx it.next_idx then none else some it.next_idx;
  next_idx = (it.next_idx + 1) % 2 ^ 64;
  end_idx = it.end_idx;
}

-- `vec->len - 1` as a size_t
unfoldable pub iter_new {ℓ} : {A : Type ℓ} → Vec A → VecIter
unfolding iter_next
iter_new v = iter_next (
    iter_next
      (record { cur = none; next = none; next_idx = 0; end_idx = (v.len + (2 ^ 64 - 1)) % 2 ^ 64 }))

abbrev pub visit : Option ℕ → Option (List ℕ) → Option (List ℕ)
visit none rest = some []
visit (some i) none = none
visit (some i) (some is) = some (i ∷ is)

-- `while (iter.cur) { ...; vec_iter_next(&iter); }`: the indices of the elements that the loop sees, or
-- `none` when it has not ended after as many rounds as there is fuel
unfoldable pub walk : ℕ → VecIter → Option (List ℕ)
walk zero it = none
walk (suc fuel) it = visit it.cur (walk fuel (iter_next it))

-- `n` numbers, from `i` on
abbrev pub range : ℕ → ℕ → List ℕ
range i zero = []
range i (suc n) = i ∷ range (suc i) n

abbrev pub within : ℕ → ℕ → Option ℕ
within len i = if ltb i len then some i else none

-- the iterator on element `i`
abbrev pub standing : ℕ → ℕ → VecIter
standing len i = record {
  cur = within len i;
  next = within len (suc i);
  next_idx = suc (suc i);
  end_idx = len - 1;
}

pub standing-next :
    (len i : ℕ) → i < len → len < 2 ^ 63 → iter_next (standing len i) ≡ standing len (suc i)
unfolding iter_next
standing-next len i inside small = ground arith

walk-standing :
    (len left i : ℕ)
    → i + left ≡ len
    → len < 2 ^ 63
    → walk (suc left) (standing len i) ≡ some (range i left)
unfolding walk
walk-standing len zero i e small = rw (within-end len i (omega arith)) refl
  where
    within-end : (len i : ℕ) → len ≤ i → within len i ≡ none
    within-end len i h = ground arith
walk-standing len (suc left) i e small =
    ap (λ it. visit (within len i) (walk (suc left) it)) (standing-next len i (omega arith) small)
    ∙ ap (visit (within len i)) (walk-standing len left (suc i) (omega arith) small)
    ∙ ap (λ c. visit c (some (range (suc i) left))) (within-some len i (omega arith))
  where
    within-some : (len i : ℕ) → i < len → within len i ≡ some i
    within-some len i h = ground arith

pub starts {ℓ} :
    {A : Type ℓ} (v : Vec A) → 0 < v.len → v.len < 2 ^ 63 → iter_new v ≡ standing v.len 0
unfolding iter_new iter_next
starts v some_in small = ground arith

-- The loop over a vector with 0 < n < 2^63 elements sees each of them once, in order, and ends
-- after n rounds.
pub walk-iter_new {ℓ} :
    {A : Type ℓ} (v : Vec A)
    → 0 < v.len
    → v.len < 2 ^ 63
    → walk (suc v.len) (iter_new v) ≡ some (range 0 v.len)
walk-iter_new v some_in small =
    ap (walk (suc v.len)) (starts v some_in small) ∙ walk-standing v.len v.len 0 (omega arith) small

-- On an empty vector `end_idx` is the greatest size_t, and no index is past it.
walk_endless :
    (fuel : ℕ) (it : VecIter)
    → it.end_idx ≡ 2 ^ 64 - 1
    → it.next_idx < 2 ^ 64
    → it.cur ≢ none
    → it.next ≢ none
    → walk fuel it ≡ none
unfolding walk iter_next
walk_endless zero it e small here there = refl
walk_endless (suc fuel) it e small here there = elim (Option-cases it.cur) [
  | inl none_here ↦ absurd (here none_here)
  | inr (i, here_i) ↦
      rw (here_i, walk_endless fuel (iter_next it) e (omega arith) there (ground arith)) refl
]

-- The loop over an empty vector has not ended after any number of rounds.
pub walk-empty {ℓ} :
    {A : Type ℓ} (v : Vec A) → v.len ≡ 0 → (fuel : ℕ) → walk fuel (iter_new v) ≡ none
unfolding iter_new iter_next
walk-empty v none_in fuel =
    walk_endless fuel (iter_new v) (omega (arith, none_in)) (omega arith) (ground (arith, none_in))
      (ground (arith, none_in))
