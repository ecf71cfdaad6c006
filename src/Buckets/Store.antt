-- ===== src/Buckets/Store.antt =====
-- src/ht.c, src/set.c: the state that both tables keep (an entry count, a capacity and the array),
-- its invariant, and the three changes that their operations make to the chain of a key.
use lexidb.Base.{
  ℕ, ◌*◌, ◌^◌, ◌≤◌, ◌<◌, ◌≡◌, ◌∙◌, refl, Option, none, List, [], arith, length, get_or, set,
  flatten, replicate, length-replicate,
}
use lexidb.Buckets.{slot_of, move_all, view, IsPlaced}
use lexidb.Buckets.Resize.{
  move_all-Rehashed, cleared, cleared-IsPlaced, view-cleared, entries-cleared,
}
use lexidb.Chains.{find, hit}
use lexidb.Keys.{KeyOps, IsLawful}

module _ {ℓ} {K E : Type ℓ} (ops : KeyOps K) where
  -- the chain of a key, `entries[slot]`
  unfoldable pub chain_at : List (List E) → ℕ → K → List E
  chain_at bs capacity k = get_or bs (slot_of ops k capacity) []

  unfoldable pub put_chain : List (List E) → ℕ → K → List E → List (List E)
  put_chain bs capacity k c = set bs (slot_of ops k capacity) c

module _ {ℓ} {K E : Type ℓ} (ops : KeyOps K) (key : E → K) where
  -- the search that every operation begins with
  unfoldable pub search_chain : List (List E) → ℕ → K → Option E
  unfolding chain_at
  search_chain bs capacity k = find (hit ops key k) (chain_at ops bs capacity k)

  -- The counters count, every entry is in place, and there are at most as many entries as chains.
  pub record IsSound (num capacity : ℕ) (bs : List (List E)) : Type ℓ where
    pub width : length bs ≡ capacity
    pub counted : length (flatten bs) ≡ num
    pub placed : IsPlaced ops key bs
    pub roomy : 0 < capacity
    pub small : capacity * 8 < 2 ^ 64
    pub load : num ≤ capacity

  pub cleared-IsSound : (n : ℕ) → 0 < n → n * 8 < 2 ^ 64 → IsSound 0 n (cleared ops key n)
  cleared-IsSound n pos small = record {
    width = length-replicate n [];
    counted = entries-cleared ops key n;
    placed = cleared-IsPlaced ops key n;
    roomy = pos;
    small = small;
    load = omega arith;
  }

  pub search_chain-view :
      (bs : List (List E)) (n : ℕ) (q : K) → length bs ≡ n → search_chain bs n q ≡ view ops key bs q
  unfolding search_chain view
  search_chain-view bs n q w = rw w refl

  pub search_chain-cleared : (n : ℕ) (q : K) → search_chain (cleared ops key n) n q ≡ none
  search_chain-cleared n q =
      search_chain-view (cleared ops key n) n q (length-replicate n []) ∙ view-cleared ops key n q

  module _ (lawful : IsLawful ops) where
    -- Doubling keeps every entry and every search.
    pub move_all-IsSound :
        (num n : ℕ) (bs : List (List E))
        → IsSound num n bs
        → n * 2 * 8 < 2 ^ 64
        → IsSound num (n * 2) (move_all ops key (n * 2) bs (replicate (n * 2) []))
    move_all-IsSound num n bs s fits =
        let moved = move_all-Rehashed ops key (n * 2) lawful bs (omega (arith, s.roomy)) s.placed in
        record {
          width = moved.width;
          counted = moved.entries ∙ s.counted;
          placed = moved.placed;
          roomy = omega (arith, s.roomy);
          small = fits;
          load = omega (arith, s.load);
        }

    pub search_chain-move_all :
        (num n : ℕ) (bs : List (List E)) (q : K)
        → IsSound num n bs
        → search_chain (move_all ops key (n * 2) bs (replicate (n * 2) [])) (n * 2) q
          ≡ search_chain bs n q
    search_chain-move_all num n bs q s =
        let moved = move_all-Rehashed ops key (n * 2) lawful bs (omega (arith, s.roomy)) s.placed in
        rw (search_chain-view _ (n * 2) q moved.width, search_chain-view bs n q s.width)
          (moved.reads q)
