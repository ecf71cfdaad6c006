-- ===== src/HashSet/Laws.antt =====
-- src/set.c: the invariant of the set, and making room for one entry more.
use lexidb.Base.{
  [], ◌*◌, ◌%◌, ◌^◌, ◌<◌, ◌≡◌, refl, Bool, true, false, arith, if◌then◌else◌, leb, not, ◌&&◌,
  replicate, Bool-cases, inl, inr,
}
use lexidb.Buckets.{move_all}
use lexidb.Buckets.Store.{
  IsSound, cleared-IsSound, search_chain-cleared, move_all-IsSound, search_chain-move_all,
}
use lexidb.Keys.{KeyOps, IsLawful}
use lexidb.Memory.{Memory, CallocFits}
use lexidb.HashSet.{
  HashSet, SetResult, set_ok, set_oom, entry_data, set_initial_cap, new, resize, make_room, search,
  found, has,
}

module _ {ℓ} {K : Type ℓ} (ops : KeyOps K) where
  abbrev pub IsValid : HashSet K → Type ℓ
  IsValid s = IsSound ops entry_data s.num_entries s.capacity s.entries

  -- A new set is valid and empty.
  pub new-IsValid : IsValid new × ((q : K) → has ops new q ≡ false)
  unfolding new has search found
  new-IsValid = (
    cleared-IsSound ops entry_data set_initial_cap (omega arith) (omega arith),
    λ q. rw (search_chain-cleared ops entry_data set_initial_cap q) refl,
  )

  -- an insertion is out of memory when the set is full and cannot be doubled
  abbrev pub no_room : Memory → HashSet K → Bool
  no_room m s = leb s.capacity s.num_entries && not (m.calloc (s.capacity * 2))

  -- Room for one entry more in a table of the same set; or no memory, and no change.
  pub record Kept (m : Memory) (s : HashSet K) (r : HashSet K × SetResult) : Type ℓ where
    pub valid : IsValid r.0
    pub searches : (q : K) → search ops r.0 q ≡ search ops s q
    pub num : r.0.num_entries ≡ s.num_entries
    pub answer : r.1 ≡ (if no_room m s then set_oom else set_ok)
    pub room : r.1 ≡ set_ok → r.0.num_entries < r.0.capacity

  doubled : HashSet K → HashSet K
  doubled s = record s {
    capacity = s.capacity * 2;
    entries = move_all ops entry_data (s.capacity * 2) s.entries (replicate (s.capacity * 2) []);
  }

  resize_lem :
      (m : Memory) (s : HashSet K)
      → s.capacity * 8 < 2 ^ 64
      → resize ops m s ≡ (if m.calloc (s.capacity * 2) then (doubled s, set_ok) else (s, set_oom))
  unfolding resize doubled
  resize_lem m s small =
      let no_wrap : s.capacity * 2 % 2 ^ 64 ≡ s.capacity * 2 = omega arith in rw no_wrap refl

  module _ (lawful : IsLawful ops) (m : Memory) (fits : CallocFits m) where
    doubled-Kept :
        (s : HashSet K)
        → IsValid s
        → m.calloc (s.capacity * 2) ≡ true
        → IsValid (doubled s) × ((q : K) → search ops (doubled s) q ≡ search ops s q)
    unfolding doubled search
    doubled-Kept s v got = (
      move_all-IsSound ops entry_data lawful s.num_entries s.capacity s.entries v
          (fits (s.capacity * 2) got),
      λ q. search_chain-move_all ops entry_data lawful s.num_entries s.capacity s.entries q v,
    )

    pub make_room-Kept : (s : HashSet K) → IsValid s → Kept m s (make_room ops m s)
    unfolding make_room
    make_room-Kept s v = elim (Bool-cases (leb s.capacity s.num_entries)) [
      | inr e ↦ rw e (record {
        valid = v;
        searches = λ q. refl;
        num = refl;
        answer = rw e;
        room = λ _. ground (arith, v.load);
      })
      | inl e ↦ elim (Bool-cases (m.calloc (s.capacity * 2))) [
        | inl got ↦
            let (valid, searches) = doubled-Kept s v got in
            rw (e, resize_lem m s v.small, got)
              (record {
                valid = valid;
                searches = searches;
                num = unfold doubled in refl;
                answer = rw (e, got);
                room = λ _. unfold doubled in omega (arith, v.roomy, v.load);
              })
        | inr no_memory ↦
            rw (e, resize_lem m s v.small, no_memory)
              (record {
                valid = v;
                searches = λ q. refl;
                num = refl;
                answer = rw (e, no_memory);
                room = λ h. cc;
              })
      ]
    ]
