-- ===== src/Ht/Iter.antt =====
-- src/ht.c: the iterator over a table. A pointer to an entry is the chain from that entry on; a null
-- pointer is the empty one. The iterator has the table's array with it.
pub mod Walk
use lexidb.Base.{
  ℕ, zero, suc, ◌+◌, ◌≤◌, ◌<◌, ◌≡◌, ◌⊎◌, refl, sym, ◌∙◌, ap, Bool, true, false, ◌&&◌, Option, none,
  some, List, [], ◌∷◌, ◌++◌, arith, length, drop, flatten, ◌==◌, if◌then◌else◌, inl, inr, ==_refl,
}
use lexidb.Ht.{Ht}
use lexidb.Vec.Laws.{length-drop}

pub record HtIter (E : Type 0) : Type 0 where
  pub entries : List (List E)
  pub cur : List E
  pub next : List E
  pub next_slot : ℕ
  pub end_slot : ℕ

module _ {E : Type 0} where
  -- the loop for the first chain from a slot on
  unfoldable pub next_chain : ℕ → List (List E) → Option (ℕ × List E)
  next_chain i [] = none
  next_chain i ([] ∷ chains) = next_chain (suc i) chains
  next_chain i ((e ∷ c) ∷ chains) = some (i, e ∷ c)

  abbrev pub is_null : List E → Bool
  is_null [] = true
  is_null (e ∷ c) = false

  abbrev pub behind : List E → List E
  behind [] = []
  behind (e ∷ c) = c

  abbrev pub stand_on : HtIter E → Option (ℕ × List E) → HtIter E
  stand_on it none = record it { next = []; next_slot = it.end_slot }
  stand_on it (some (i, c)) = record it { next = c; next_slot = i }

  unfoldable pub ht_iter_next : HtIter E → HtIter E
  unfolding next_chain
  ht_iter_next it =
      let moved : HtIter E = record it { cur = it.next } in
      if it.next_slot == it.end_slot
      then record moved { next = [] }
      else if it.next_slot == 0 && is_null it.next
      then stand_on moved (next_chain 0 it.entries)
      else if is_null (behind it.next)
      then stand_on moved (next_chain (suc it.next_slot) (drop (suc it.next_slot) it.entries))
      else record moved { next = behind it.next }

  abbrev pub visit : List E → Option (List E) → Option (List E)
  visit [] rest = some []
  visit (e ∷ c) none = none
  visit (e ∷ c) (some es) = some (e ∷ es)

  -- `while (iter.cur) { ...; ht_iter_next(&iter); }`: the entries that the loop sees, or `none` when it has
  -- not ended after as many rounds as there is fuel
  unfoldable pub ht_walk : ℕ → HtIter E → Option (List E)
  unfolding ht_iter_next
  ht_walk zero it = none
  ht_walk (suc fuel) it = visit it.cur (ht_walk fuel (ht_iter_next it))

-- an iterator that has not moved
abbrev pub start : {K V : Type 0} → Ht K V → HtIter (K × V)
start ht = record {
  entries = ht.entries;
  cur = [];
  next = [];
  next_slot = 0;
  end_slot = ht.capacity;
}

unfoldable pub ht_iter_new : {K V : Type 0} → Ht K V → HtIter (K × V)
unfolding ht_iter_next
ht_iter_new ht = ht_iter_next (ht_iter_next (start ht))
