-- ===== src/Ht/Laws.antt =====
-- src/ht.c: the invariant of the table, and making room for one entry more.
use lexidb.Base.{
  [], ◌*◌, ◌%◌, ◌^◌, ◌<◌, ◌≡◌, refl, ap, Bool, true, none, arith, if◌then◌else◌, ◌==◌, not, ◌&&◌,
  replicate, Bool-cases, inl, inr,
}
use lexidb.Buckets.{move_all}
use lexidb.Buckets.Store.{
  IsSound, cleared-IsSound, search_chain-cleared, move_all-IsSound, search_chain-move_all,
}
use lexidb.Keys.{KeyOps, IsLawful}
use lexidb.Memory.{Memory, CallocFits}
use lexidb.Ht.{
  Ht, HtResult, ht_ok, ht_oom, entry_key, ht_initial_cap, new, resize, make_room, get, value_of,
}

module _ {ℓ} {K V : Type ℓ} (ops : KeyOps K) where
  abbrev pub IsValid : Ht K V → Type ℓ
  IsValid t = IsSound ops entry_key t.num_entries t.capacity t.entries

  -- A new table is valid and has no key.
  pub new-IsValid : IsValid new × ((q : K) → get ops (new {V = V}) q ≡ none)
  unfolding new get
  new-IsValid = (
    cleared-IsSound ops entry_key ht_initial_cap (omega arith) (omega arith),
    λ q. ap value_of (search_chain-cleared ops entry_key ht_initial_cap q),
  )

  -- an insertion is out of memory when the table is full and cannot be doubled
  abbrev pub no_room : Memory → Ht K V → Bool
  no_room m t = t.num_entries == t.capacity && not (m.calloc (t.capacity * 2))

  -- Room for one entry more in a table that stands for the same map; or no memory, and no change.
  pub record Kept (m : Memory) (t : Ht K V) (r : Ht K V × HtResult) : Type ℓ where
    pub valid : IsValid r.0
    pub reads : (q : K) → get ops r.0 q ≡ get ops t q
    pub num : r.0.num_entries ≡ t.num_entries
    pub answer : r.1 ≡ (if no_room m t then ht_oom else ht_ok)
    pub room : r.1 ≡ ht_ok → r.0.num_entries < r.0.capacity

  doubled : Ht K V → Ht K V
  doubled t = record t {
    capacity = t.capacity * 2;
    entries = move_all ops entry_key (t.capacity * 2) t.entries (replicate (t.capacity * 2) []);
  }

  resize_lem :
      (m : Memory) (t : Ht K V)
      → t.capacity * 8 < 2 ^ 64
      → resize ops m t ≡ (if m.calloc (t.capacity * 2) then (doubled t, ht_ok) else (t, ht_oom))
  unfolding resize doubled
  resize_lem m t small =
      let no_wrap : t.capacity * 2 % 2 ^ 64 ≡ t.capacity * 2 = omega arith in rw no_wrap refl

  module _ (lawful : IsLawful ops) (m : Memory) (fits : CallocFits m) where
    doubled-Kept :
        (t : Ht K V)
        → IsValid t
        → m.calloc (t.capacity * 2) ≡ true
        → IsValid (doubled t) × ((q : K) → get ops (doubled t) q ≡ get ops t q)
    unfolding doubled get
    doubled-Kept t v got = (
      move_all-IsSound ops entry_key lawful t.num_entries t.capacity t.entries v
          (fits (t.capacity * 2) got),
      λ q.
          ap value_of
            (search_chain-move_all ops entry_key lawful t.num_entries t.capacity t.entries q v),
    )

    pub make_room-Kept : (t : Ht K V) → IsValid t → Kept m t (make_room ops m t)
    unfolding make_room
    make_room-Kept t v = elim (Bool-cases (t.num_entries == t.capacity)) [
      | inr e ↦ rw e (record {
        valid = v;
        reads = λ q. refl;
        num = refl;
        answer = rw e;
        room = λ _. ground (arith, v.load);
      })
      | inl e ↦ elim (Bool-cases (m.calloc (t.capacity * 2))) [
        | inl got ↦
            let (valid, reads) = doubled-Kept t v got in
            rw (e, resize_lem m t v.small, got)
              (record {
                valid = valid;
                reads = reads;
                num = unfold doubled in refl;
                answer = rw (e, got);
                room = λ _. unfold doubled in ground (arith, v.roomy);
              })
        | inr no_memory ↦
            rw (e, resize_lem m t v.small, no_memory)
              (record {
                valid = v;
                reads = λ q. refl;
                num = refl;
                answer = rw (e, no_memory);
                room = λ h. cc;
              })
      ]
    ]
