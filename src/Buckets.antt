-- ===== src/Buckets.antt =====
-- src/ht.c, src/set.c: the array of chains. Both tables hash a key to a slot by
-- `siphash(key) % capacity`, put a new entry at the head of its chain, and double the array by
-- moving every entry to the head of its new chain.
pub mod Resize
pub mod Store
pub mod Change
use lexidb.Base.{
  ℕ, zero, suc, ◌+◌, ◌%◌, ◌≤◌, ◌<◌, ◌≡◌, ◌≢◌, ◌∙◌, refl, Bool, true, false, Option, none, some,
  List, [], ◌∷◌, ◌++◌, arith, length, get_or, set, flatten, if◌then◌else◌, length-append,
  length-set, get_or-set, ==_iff, ◌==◌, not,
}
use lexidb.Chains.{find, count, hit}
use lexidb.Keys.{KeyOps, same, hash, IsLawful}

-- `new_entry->next = entries[slot]; entries[slot] = new_entry`
unfoldable pub push_front {ℓ} : {E : Type ℓ} → List (List E) → ℕ → E → List (List E)
push_front bs slot e = set bs slot (e ∷ get_or bs slot [])

module _ {ℓ} {E : Type ℓ} where
  -- How many entries stand in the array, when the chain of a slot becomes another one.
  pub entries-set :
      (chains : List (List E)) (slot : ℕ) (new : List E)
      → slot < length chains
      → length (flatten chains) + length new
        ≡ length (get_or chains slot []) + length (flatten (set chains slot new))
  unfolding flatten
  entries-set [] slot new inside = absurd (omega arith)
  entries-set (old ∷ others) zero new inside = simp length-append (omega arith)
  entries-set (other ∷ others) (suc slot) new inside =
      let rest = entries-set others slot new (omega arith) in simp length-append (omega arith)

-- `ht_hash`, `set_hash`
unfoldable pub slot_of {ℓ} : {K : Type ℓ} → KeyOps K → K → ℕ → ℕ
slot_of ops k capacity = hash ops k % capacity

module _ {ℓ} {K : Type ℓ} (ops : KeyOps K) where
  pub slot_of-lt : (k : K) {n : ℕ} → 0 < n → slot_of ops k n < n
  unfolding slot_of
  slot_of-lt k h = omega arith

  pub slot_of_congr :
      IsLawful ops → (a b : K) (n : ℕ) → same ops a b ≡ true → slot_of ops a n ≡ slot_of ops b n
  unfolding slot_of
  slot_of_congr lawful a b n e = rw (lawful.hash-same a b e)

module _ {ℓ} {K E : Type ℓ} (ops : KeyOps K) (key : E → K) where
  abbrev pub chain_of : List (List E) → K → List E
  chain_of bs k = get_or bs (slot_of ops k (length bs)) []

  -- the inner loop of a resize: every entry of a chain, to the head of its chain in the new array
  unfoldable pub move_chain : ℕ → List E → List (List E) → List (List E)
  move_chain new_cap [] fresh = fresh
  move_chain new_cap (e ∷ c) fresh =
      move_chain new_cap c (push_front fresh (slot_of ops (key e) new_cap) e)

  -- the outer loop
  unfoldable pub move_all : ℕ → List (List E) → List (List E) → List (List E)
  unfolding move_chain push_front slot_of
  move_all new_cap [] fresh = fresh
  move_all new_cap (c ∷ old) fresh = move_all new_cap old (move_chain new_cap c fresh)

  -- what a lookup of `q` finds
  unfoldable pub view : List (List E) → K → Option E
  view bs q = find (hit ops key q) (chain_of bs q)

  -- An entry stands in the chain of its key's slot, and no other entry has its key.
  abbrev pub IsPlaced : List (List E) → Type ℓ
  IsPlaced bs =
      (q : K) (i : ℕ)
      → (count (hit ops key q) (get_or bs i []) ≤ 1)
        × (slot_of ops q (length bs) ≢ i → count (hit ops key q) (get_or bs i []) ≡ 0)

  module _ (lawful : IsLawful ops) where
    -- Every operation replaces the chain of its key's slot by some `c`.
    module _ (bs : List (List E)) (pos : 0 < length bs) (k : K) (c : List E) where
      abbrev replaced : List (List E)
      replaced = set bs (slot_of ops k (length bs)) c

      pub view-set :
          (answer : K → Option E)
          → ((q : K)
              → find (hit ops key q) c
                ≡ (if same ops q k then answer q else find (hit ops key q) (chain_of bs k)))
          → (q : K) → view replaced q ≡ (if same ops q k then answer q else view bs q)
      unfolding view
      view-set answer reads q =
          rw (length-set, get_or-set bs _ _ c [] (slot_of-lt ops k pos))
            (ground (
              arith,
              reads q,
              slot_of_congr ops lawful q k (length bs),
              ==_iff (slot_of ops k (length bs)) (slot_of ops q (length bs)),
            ))

      pub set-IsPlaced :
          IsPlaced bs
          → ((q : K) → count (hit ops key q) c ≤ 1)
          → ((q : K)
              → same ops q k ≡ false
              → count (hit ops key q) c ≤ count (hit ops key q) (chain_of bs k))
          → IsPlaced replaced
      set-IsPlaced placed few old q i =
          rw (length-set, get_or-set bs _ i c [] (slot_of-lt ops k pos))
            (ground (
              arith,
              few q,
              old q,
              placed q i,
              slot_of_congr ops lawful q k (length bs),
              ==_iff (slot_of ops k (length bs)) i,
            ))
