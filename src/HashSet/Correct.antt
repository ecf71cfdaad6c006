-- ===== src/HashSet/Correct.antt =====
-- src/set.c: each operation against the set of keys that the table stands for.
use lexidb.Base.{
  ◌<◌, ◌+◌, ◌≡◌, ◌≢◌, ◌∙◌, refl, Bool, true, false, none, List, [], ◌∷◌, if◌then◌else◌, arith,
  Option-cases, Bool-cases, inl, inr,
}
use lexidb.Buckets.Store.{search_chain, chain_at}
use lexidb.Buckets.Change.{push_front-Changes, unlink-Changes}
use lexidb.Chains.{to_nat, find}
use lexidb.Keys.{KeyOps, same, IsLawful}
use lexidb.Memory.{Memory, CallocFits}
use lexidb.HashSet.{
  HashSet, SetResult, set_ok, set_key_exists, set_inv_key, set_oom, minus_one, entry_data, search,
  has, found, add_entry, insert_after_search, insert_at, insert_into, insert, make_room, delete,
  delete_at,
}
use lexidb.HashSet.Laws.{IsValid, Kept, make_room-Kept, no_room}

-- what is answered where malloc fails: -1 in an empty slot, SET_OOM in another
abbrev pub no_entry {ℓ} : {K : Type ℓ} → List K → SetResult
no_entry [] = minus_one
no_entry (_ ∷ _) = set_oom

module _ {ℓ} {K : Type ℓ} (ops : KeyOps K) where
  -- `r` is a valid set, `s` with the membership of `k` made `new`, and counts its entries.
  pub record Writes (s : HashSet K) (k : K) (new : Bool) (r : HashSet K) : Type ℓ where
    pub valid : IsValid ops r
    pub members : (q : K) → has ops r q ≡ (if same ops q k then new else has ops s q)
    pub num : r.num_entries + to_nat (has ops s k) ≡ s.num_entries + to_nat new

  -- An operation that answers `answer`, and writes if that is `set_ok`.
  pub record SetAnswers (s : HashSet K) (k : K) (new : Bool) (answer : SetResult)
      (r : HashSet K × SetResult) : Type ℓ where
    pub answered : r.1 ≡ answer
    pub written : answer ≡ set_ok → Writes s k new r.0
    pub unchanged : answer ≢ set_ok → (q : K) → has ops r.0 q ≡ has ops s q
    pub still_valid : IsValid ops r.0

  abbrev pub slot_chain : HashSet K → K → List K
  slot_chain s k = chain_at ops s.entries s.capacity k

  -- the table that `set_insert` searches: the one that it was given, or that doubled
  abbrev pub roomy : Memory → HashSet K → HashSet K
  roomy m s = (make_room ops m s).0

  module _ (lawful : IsLawful ops) (k : K) where
    -- An answer other than `set_ok`, with the table that was searched.
    refused :
        (s : HashSet K) (new : Bool) (answer : SetResult)
        → IsValid ops s
        → answer ≢ set_ok
        → SetAnswers s k new answer (s, answer)
    refused s new answer valid n = record {
      answered = refl;
      written = λ e. absurd (n e);
      unchanged = λ _ _. refl;
      still_valid = valid;
    }

    add_entry-SetAnswers :
        (m : Memory) (failure : SetResult) (s : HashSet K)
        → IsValid ops s
        → s.num_entries < s.capacity
        → search ops s k ≡ none
        → failure ≢ set_ok
        → SetAnswers s k true (if m.malloc then set_ok else failure) (add_entry ops m failure s k)
    unfolding add_entry has found search
    add_entry-SetAnswers m failure s valid room e n = elim (Bool-cases m.malloc) [
      | inr failed ↦ rw failed (refused s true failure valid n)
      | inl got ↦
          let c =
            push_front-Changes ops entry_data lawful s.num_entries s.capacity s.entries valid k k
              refl room e in
          rw got (record {
            answered = refl;
            written = λ _. record {
              valid = c.sound;
              members = λ q. ground (arith, c.reads q);
              num = rw e (omega arith);
            };
            unchanged = λ h. absurd (h refl);
            still_valid = c.sound;
          })
    ]

    insert_answer : Memory → HashSet K → SetResult
    insert_answer m s =
        if has ops s k
        then set_key_exists
        else if m.malloc
        then set_ok
        else no_entry (slot_chain s k)

    empty_slot : (s : HashSet K) → slot_chain s k ≡ [] → search ops s k ≡ none
    unfolding search
    empty_slot s e = unfold search_chain find in rw e refl

    insert_at-SetAnswers :
        (m : Memory) (s : HashSet K) (c : List K)
        → slot_chain s k ≡ c
        → IsValid ops s
        → s.num_entries < s.capacity
        → SetAnswers s k true (insert_answer m s) (insert_at ops m s k c)
    unfolding insert_at insert_after_search insert_answer has found
    insert_at-SetAnswers m s [] e valid room =
        rw (empty_slot s e, e) (add_entry-SetAnswers m minus_one s valid room (empty_slot s e) (cc))
    insert_at-SetAnswers m s (x ∷ c) e valid room = elim (Option-cases (search ops s k)) [
      | inl absent ↦ rw (absent, e) (add_entry-SetAnswers m set_oom s valid room absent (cc))
      | inr (y, present) ↦ rw present (refused s true set_key_exists valid (cc))
    ]

    SetAnswers-Kept :
        (m : Memory) (s s' : HashSet K) (new : Bool) (answer : SetResult)
        (r : HashSet K × SetResult)
        → Kept ops m s (s', set_ok)
        → SetAnswers s' k new answer r
        → SetAnswers s k new answer r
    unfolding has
    SetAnswers-Kept m s s' new answer r kept a = record {
      answered = a.answered;
      written = λ h. record {
        valid = (a.written h).valid;
        members = λ q. (a.written h).members q ∙ rw (kept.searches q) refl;
        num = rw (← kept.searches k, ← kept.num) (a.written h).num;
      };
      unchanged = λ n q. a.unchanged n q ∙ rw (kept.searches q) refl;
      still_valid = a.still_valid;
    }

    insert_into-SetAnswers :
        (m : Memory) (s : HashSet K) (r : HashSet K × SetResult)
        → Kept ops m s r
        → SetAnswers s k true
            (if no_room ops m s
              then set_oom
              else if has ops s k
              then set_key_exists
              else if m.malloc
              then set_ok
              else no_entry (slot_chain r.0 k))
            (insert_into ops m k r)
    unfolding insert_into insert_answer
    insert_into-SetAnswers m s (s', set_ok) kept =
        let room : no_room ops m s ≡ false = ground arith in
        let a =
          SetAnswers-Kept m s s' true _ _ kept
            (insert_at-SetAnswers m s' (slot_chain s' k) refl kept.valid (kept.room refl)) in
        rw (room, ← members) a
      where
        members : has ops s' k ≡ has ops s k
        members = unfold has in rw (kept.searches k) refl
    insert_into-SetAnswers m s (s', set_oom) kept =
        let stuck : no_room ops m s ≡ true = ground arith in
        rw stuck (record {
          answered = refl;
          written = λ e. cc;
          unchanged = λ _ q. unfold has in rw (kept.searches q) refl;
          still_valid = kept.valid;
        })
    insert_into-SetAnswers m s (s', set_key_exists) kept = absurd (ground arith)
    insert_into-SetAnswers m s (s', set_inv_key) kept = absurd (ground arith)
    insert_into-SetAnswers m s (s', minus_one) kept = absurd (ground arith)

    -- With keys compared by an equivalence that the hash respects, and a calloc that gives no array
    -- of 2^64 bytes or more, insertion into a valid set answers SET_OOM when the table is full and
    -- cannot be doubled, else SET_KEY_EXISTS when the key is there, else SET_OK when malloc gives
    -- an entry, else SET_OOM in a slot with entries and -1 in an empty one; it adds the key when it
    -- answers SET_OK, otherwise no membership changes, and the set is valid in every case.
    pub insert-SetAnswers :
        (m : Memory)
        → CallocFits m
        → (s : HashSet K) → IsValid ops s
        → SetAnswers s k true
            (if no_room ops m s
              then set_oom
              else if has ops s k
              then set_key_exists
              else if m.malloc
              then set_ok
              else no_entry (slot_chain (roomy m s) k))
            (insert ops m s k)
    unfolding insert
    insert-SetAnswers m fits s valid =
        insert_into-SetAnswers m s _ (make_room-Kept ops lawful m fits s valid)

    -- With keys compared by an equivalence that the hash respects, deletion from a valid set
    -- answers SET_OK exactly when the key is there, and removes it; else it answers SET_INV_KEY and
    -- no membership changes; in either case the set is valid.
    pub delete-SetAnswers :
        (s : HashSet K)
        → IsValid ops s
        → SetAnswers s k false (if has ops s k then set_ok else set_inv_key) (delete ops s k)
    unfolding delete delete_at has found
    delete-SetAnswers s valid = elim (Option-cases (search ops s k)) [
      | inl e ↦ rw e (refused s false set_inv_key valid (cc))
      | inr (x, e) ↦
          let (pos, c) =
            unlink-Changes ops entry_data lawful s.num_entries s.capacity s.entries valid k x
              (unfold search in e) in
          rw e (record {
            answered = refl;
            written = λ _. record {
              valid = c.sound;
              members = λ q. unfold search in ground (arith, c.reads q);
              num = rw e (omega (arith, pos));
            };
            unchanged = λ h. absurd (h refl);
            still_valid = c.sound;
          })
    ]
