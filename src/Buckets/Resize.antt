-- ===== src/Buckets/Resize.antt =====
-- src/ht.c (ht_resize), src/set.c (set_resize): what moving the entries to a new array keeps.
use lexidb.Base.{
  ℕ, zero, suc, ◌+◌, ◌≤◌, ◌<◌, ◌≡◌, ◌≢◌, ◌∙◌, refl, true, none, some, List, [], ◌∷◌, ◌++◌, arith,
  length, get_or, flatten, if◌then◌else◌, length-set, replicate, length-replicate, get_or-replicate,
  ap, sym,
}
use lexidb.Buckets.{
  push_front, slot_of, move_chain, move_all, view, chain_of, IsPlaced, slot_of-lt, view-set,
  set-IsPlaced, entries-set,
}
use lexidb.Chains.{
  find, count, hit, or_else, find-none, count_zero, find-append, count-append, count-hit_congr,
}
use lexidb.Keys.{KeyOps, same, IsLawful}

module _ {ℓ} {K E : Type ℓ} (ops : KeyOps K) (key : E → K) where
  move_chain-append :
      (n : ℕ) (a b : List E) (fresh : List (List E))
      → move_chain ops key n (a ++ b) fresh ≡ move_chain ops key n b (move_chain ops key n a fresh)
  unfolding move_chain
  move_chain-append n [] b fresh = refl
  move_chain-append n (e ∷ a) b fresh = move_chain-append n a b _

  -- The nested loops are one loop over all the entries.
  move_all-flatten :
      (n : ℕ) (bs fresh : List (List E))
      → move_all ops key n bs fresh ≡ move_chain ops key n (flatten bs) fresh
  unfolding move_all flatten
  move_all-flatten n [] fresh = refl
  move_all-flatten n (c ∷ cs) fresh =
      move_all-flatten n cs _ ∙ sym (move_chain-append n c (flatten cs) fresh)

  module _ (q : K) where
    nowhere :
        (bs : List (List E))
        → ((i : ℕ) → count (hit ops key q) (get_or bs i []) ≡ 0)
        → count (hit ops key q) (flatten bs) ≡ 0
    unfolding flatten count
    nowhere [] h = refl
    nowhere (c ∷ bs) h = rw (count-append, h 0, nowhere bs (λ i. h (suc i)))

    -- All the hits of `q` stand in one chain, so a search of all the entries is a search of it.
    only_in :
        (bs : List (List E)) (j : ℕ)
        → ((i : ℕ) → i ≢ j → count (hit ops key q) (get_or bs i []) ≡ 0)
        → (find (hit ops key q) (flatten bs) ≡ find (hit ops key q) (get_or bs j []))
          × (count (hit ops key q) (flatten bs) ≡ count (hit ops key q) (get_or bs j []))
    unfolding flatten
    only_in [] j h = (refl, refl)
    only_in (c ∷ bs) zero h =
        let rest = nowhere bs (λ i. h (suc i) (omega arith)) in
        rw (find-append, count-append, rest, find-none _ (flatten bs) rest)
          (ground arith, omega arith)
    only_in (c ∷ bs) (suc j) h =
        let none_here = h 0 (omega arith) in
        let rest = only_in bs j (λ i n. h (suc i) (omega arith)) in
        rw (find-append, count-append, none_here, find-none _ c none_here)
          (rest.0, omega (arith, rest.1))

  pub flatten-view :
      (bs : List (List E)) (q : K)
      → IsPlaced ops key bs
      → (find (hit ops key q) (flatten bs) ≡ view ops key bs q)
        × (count (hit ops key q) (flatten bs) ≤ 1)
  unfolding view
  flatten-view bs q placed =
      let (found, counted) =
        only_in q bs (slot_of ops q (length bs)) (λ i n. (placed q i).1 (λ e. n (sym e))) in
      (found, rw counted (placed q _).0)

  module _ (lawful : IsLawful ops) where
    -- A new entry goes to the head of its chain.
    module _ (bs : List (List E)) (pos : 0 < length bs) (e : E) where
      abbrev pub pushed : List (List E)
      pushed = push_front bs (slot_of ops (key e) (length bs)) e

      pub length-push_front : length pushed ≡ length bs
      unfolding push_front
      length-push_front = length-set bs _ _

      pub entries-push_front : length (flatten pushed) ≡ length (flatten bs) + 1
      unfolding push_front
      entries-push_front = omega (
        arith,
        entries-set bs (slot_of ops (key e) (length bs)) (e ∷ chain_of ops key bs (key e))
            (slot_of-lt ops (key e) pos),
      )

      pub view-push_front :
          (q : K)
          → view ops key pushed q ≡ (if same ops q (key e) then some e else view ops key bs q)
      unfolding push_front
      view-push_front =
          view-set ops key lawful bs pos (key e) _ (λ _. some e) (λ q. unfold find in refl)

      pub push_front-IsPlaced :
          IsPlaced ops key bs → view ops key bs (key e) ≡ none → IsPlaced ops key pushed
      unfolding push_front view count
      push_front-IsPlaced placed absent =
          set-IsPlaced ops key lawful bs pos (key e) _ placed
            (λ q. ground (arith, placed q (slot_of ops (key e) (length bs)), absent_hits q))
            (λ q apart. rw apart (omega arith))
        where
          absent_hits :
              (q : K)
              → same ops q (key e) ≡ true
              → count (hit ops key q) (chain_of ops key bs (key e)) ≡ 0
          absent_hits q h = count-hit_congr ops key lawful q (key e) _ h ∙ count_zero _ _ absent

    -- `fresh` has taken the entries `es` in: the width is kept, no entry is lost, each is in place,
    -- and a lookup finds what it found in `es`, or else in `fresh`.
    pub record Moved (es : List E) (fresh result : List (List E)) : Type ℓ where
      pub width : length result ≡ length fresh
      pub entries : length (flatten result) ≡ length (flatten fresh) + length es
      pub placed : IsPlaced ops key result
      pub reads :
          (q : K) → view ops key result q ≡ or_else (find (hit ops key q) es) (view ops key fresh q)

    move_chain-Moved :
        (n : ℕ) (es : List E) (fresh : List (List E))
        → length fresh ≡ n
        → 0 < n
        → IsPlaced ops key fresh
        → ((q : K) → count (hit ops key q) es ≤ 1)
        → ((q : K) → 0 < count (hit ops key q) es → view ops key fresh q ≡ none)
        → Moved es fresh (move_chain ops key n es fresh)
    unfolding move_chain find count
    move_chain-Moved n [] fresh w pos placed once apart = record {
      width = refl;
      entries = omega arith;
      placed = placed;
      reads = λ q. refl;
    }
    move_chain-Moved n (e ∷ es) fresh w pos placed once apart =
        let pos' : 0 < length fresh = omega arith in
        let front = push_front fresh (slot_of ops (key e) n) e in
        let same_front : pushed fresh pos' e ≡ front =
          ap (λ m. push_front fresh (slot_of ops (key e) m) e) w in
        let reads_front : (q : K)
            → view ops key front q ≡ (if same ops q (key e) then some e else view ops key fresh q) =
          λ q. rw (← same_front) (view-push_front fresh pos' e q) in
        let placed_front : IsPlaced ops key front = rw (← same_front) (
          push_front-IsPlaced fresh pos' e placed
            (apart (key e) (rw (lawful.same_refl (key e)) (omega arith)))) in
        let rest =
          move_chain-Moved n es front (rw (← same_front) (length-push_front fresh pos' e ∙ w)) pos
            placed_front (λ q. omega (arith, once q))
            (λ q h. ground (arith, reads_front q, once q, apart q)) in
        record {
          width = rest.width ∙ rw (← same_front) (length-push_front fresh pos' e);
          entries =
              rest.entries ∙ rw (← same_front) (rw (entries-push_front fresh pos' e) (omega arith));
          placed = rest.placed;
          reads = λ q.
              ground (arith, rest.reads q, reads_front q, once q, find-none (hit ops key q) es);
        }

flatten-replicate {ℓ} : (E : Type ℓ) (n : ℕ) → flatten {A = E} (replicate n []) ≡ []
unfolding flatten
flatten-replicate E zero = refl
flatten-replicate E (suc n) = flatten-replicate E n

-- A fresh array, as calloc gives it.
module _ {ℓ} {K E : Type ℓ} (ops : KeyOps K) (key : E → K) (n : ℕ) where
  abbrev pub cleared : List (List E)
  cleared = replicate n []

  pub entries-cleared : length (flatten cleared) ≡ 0
  entries-cleared = ap length (flatten-replicate E n)

  pub cleared-IsPlaced : IsPlaced ops key cleared
  unfolding count
  cleared-IsPlaced q i = rw get_or-replicate (omega arith)

  pub view-cleared : (q : K) → view ops key cleared q ≡ none
  unfolding view find
  view-cleared q = rw get_or-replicate refl

  module _ (lawful : IsLawful ops) where
    -- The array `result` of `n` chains has the entries of `bs`, in place, and answers as `bs` does.
    pub record Rehashed (bs result : List (List E)) : Type ℓ where
      pub width : length result ≡ n
      pub entries : length (flatten result) ≡ length (flatten bs)
      pub placed : IsPlaced ops key result
      pub reads : (q : K) → view ops key result q ≡ view ops key bs q

    -- With keys compared by an equivalence that the hash respects, moving the entries of an array
    -- in which every entry is in place to a cleared array of n > 0 chains gives n chains with as
    -- many entries, each in the slot of its key, in which every search finds what it found before.
    pub move_all-Rehashed :
        (bs : List (List E))
        → 0 < n
        → IsPlaced ops key bs
        → Rehashed bs (move_all ops key n bs cleared)
    move_all-Rehashed bs pos placed = rw (move_all-flatten ops key n bs cleared) (record {
      width = moved.width ∙ length-replicate n [];
      entries = moved.entries ∙ rw entries-cleared (omega arith);
      placed = moved.placed;
      reads =
          λ q. ground (arith, moved.reads q, view-cleared q, (flatten-view ops key bs q placed).0);
    })
      where
        moved :
            Moved ops key lawful (flatten bs) cleared (move_chain ops key n (flatten bs) cleared)
        moved =
            move_chain-Moved ops key lawful n (flatten bs) cleared (length-replicate n []) pos
              cleared-IsPlaced (λ q. (flatten-view ops key bs q placed).1) (λ q _. view-cleared q)
