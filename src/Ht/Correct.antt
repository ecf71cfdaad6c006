-- ===== src/Ht/Correct.antt =====
-- src/ht.c: each operation against the map from keys to values that the table stands for.
use lexidb.Base.{
  ℕ, ◌<◌, ◌+◌, ◌≡◌, ◌≢◌, ◌∙◌, refl, Bool, true, false, Option, none, some, if◌then◌else◌, arith,
  Option-cases, inl, inr, sym,
}
use lexidb.Buckets.Store.{search_chain}
use lexidb.Buckets.Change.{Changes, push_front-Changes, overwrite-Changes, unlink-Changes}
use lexidb.Keys.{KeyOps, same, IsLawful}
use lexidb.Memory.{Memory, CallocFits}
use lexidb.Ht.{
  Ht, HtResult, ht_ok, ht_inv_key, ht_oom, entry_key, value_of, insert_at, insert_into, insert,
  try_insert_at, try_insert_into, try_insert, get, delete, delete_at, add_entry,
}
use lexidb.Ht.Laws.{IsValid, Kept, make_room-Kept, no_room}

abbrev pub found {ℓ} : {A : Type ℓ} → Option A → ℕ
found none = 0
found (some _) = 1

abbrev pub is_some {ℓ} : {A : Type ℓ} → Option A → Bool
is_some none = false
is_some (some _) = true

module _ {ℓ} {K V : Type ℓ} (ops : KeyOps K) where
  -- `r` is a valid table, `t` with the value of `k` made `new`, and counts its entries.
  pub record Writes (t : Ht K V) (k : K) (new : Option V) (r : Ht K V) : Type ℓ where
    pub valid : IsValid ops r
    pub reads : (q : K) → get ops r q ≡ (if same ops q k then new else get ops t q)
    pub num : r.num_entries + found (get ops t k) ≡ t.num_entries + found new

  -- An operation that answers `answer`, and writes `new` under `k` if that is `ht_ok`.
  pub record Answers (t : Ht K V) (k : K) (new : Option V) (answer : HtResult)
      (r : Ht K V × HtResult) : Type ℓ where
    pub answered : r.1 ≡ answer
    pub written : answer ≡ ht_ok → Writes t k new r.0
    pub unchanged : answer ≢ ht_ok → (q : K) → get ops r.0 q ≡ get ops t q
    pub still_valid : IsValid ops r.0

  module _ (lawful : IsLawful ops) (k : K) where
    abbrev searched : Ht K V → Option (K × V)
    searched t = search_chain ops entry_key t.entries t.capacity k

    Changes-Writes :
        (t r : Ht K V) (answer : Option (K × V))
        → r.capacity ≡ t.capacity
        → Changes ops entry_key t.num_entries t.capacity t.entries k answer r.num_entries r.entries
        → r.num_entries + found (searched t) ≡ t.num_entries + found answer
        → Writes t k (value_of answer) r
    unfolding get
    Changes-Writes t r answer cap c num = record {
      valid = rw cap c.sound;
      reads = λ q. rw cap (ground (arith, c.reads q));
      num = ground (arith, num);
    }

    add_entry-Writes :
        (t : Ht K V) (v : V)
        → IsValid ops t
        → t.num_entries < t.capacity
        → searched t ≡ none
        → Writes t k (some v) (add_entry ops t k v)
    unfolding add_entry
    add_entry-Writes t v valid room e =
        Changes-Writes t (add_entry ops t k v) (some (k, v)) refl
          (push_front-Changes ops entry_key lawful t.num_entries t.capacity t.entries valid k (k, v)
            refl room e)
          (rw e (omega arith))

    insert_at-Writes :
        (t : Ht K V) (v : V) (o : Option (K × V))
        → IsValid ops t
        → t.num_entries < t.capacity
        → searched t ≡ o
        → Writes t k (some v) (insert_at ops t k v o)
    unfolding insert_at
    insert_at-Writes t v none valid room e = add_entry-Writes t v valid room e
    insert_at-Writes t v (some e) valid room h =
        Changes-Writes t (insert_at ops t k v (some e)) (some (e.0, v)) refl
          (overwrite-Changes ops entry_key lawful t.num_entries t.capacity t.entries valid k
            (λ x. (x.0, v)) e (λ _. refl) h)
          (rw h refl)

    Writes-Kept :
        (m : Memory) (t t' r : Ht K V) (new : Option V) (a : HtResult)
        → Kept ops m t (t', a)
        → Writes t' k new r
        → Writes t k new r
    Writes-Kept m t t' r new a kept w = record {
      valid = w.valid;
      reads = λ q. w.reads q ∙ rw (kept.reads q) refl;
      num = rw (← kept.reads k, ← kept.num) w.num;
    }

    -- the answer and the table when the table is full and calloc fails
    out_of_memory :
        (m : Memory) (t t' : Ht K V) (new : Option V)
        → Kept ops m t (t', ht_oom)
        → Answers t k new ht_oom (t', ht_oom)
    out_of_memory m t t' new kept = record {
      answered = refl;
      written = λ e. cc;
      unchanged = λ _. kept.reads;
      still_valid = kept.valid;
    }

    insert_into-Answers :
        (m : Memory) (t : Ht K V) (v : V) (r : Ht K V × HtResult)
        → Kept ops m t r
        → Answers t k (some v) (if no_room ops m t then ht_oom else ht_ok) (insert_into ops k v r)
    unfolding insert_into
    insert_into-Answers m t v (t', ht_ok) kept =
        let w =
          Writes-Kept m t t' _ (some v) ht_ok kept
            (insert_at-Writes t' v _ kept.valid (kept.room refl) refl) in
        record {
          answered = kept.answer;
          written = λ _. w;
          unchanged = λ n. absurd (n (sym kept.answer));
          still_valid = w.valid;
        }
    insert_into-Answers m t v (t', ht_inv_key) kept = absurd (ground arith)
    insert_into-Answers m t v (t', ht_oom) kept =
        rw (← kept.answer) (out_of_memory m t t' (some v) kept)

    -- With keys compared by an equivalence that the hash respects, and a calloc that gives no array
    -- of 2^64 bytes or more, insertion into a valid table answers ht_oom exactly when the table is
    -- full and cannot be doubled, and then no key changes its value; else it answers ht_ok, the key
    -- has the value, the others keep theirs, and a new key is counted; in either case the table is
    -- valid.
    pub insert-Answers :
        (m : Memory)
        → CallocFits m
        → (t : Ht K V) (v : V) → IsValid ops t
        → Answers t k (some v) (if no_room ops m t then ht_oom else ht_ok) (insert ops m t k v)
    unfolding insert
    insert-Answers m fits t v valid =
        insert_into-Answers m t v _ (make_room-Kept ops lawful m fits t valid)

    try_insert_at-Answers :
        (t : Ht K V) (v : V) (o : Option (K × V))
        → IsValid ops t
        → t.num_entries < t.capacity
        → searched t ≡ o
        → Answers t k
            (some v)
            (if is_some (get ops t k) then ht_inv_key else ht_ok)
            (try_insert_at ops t k v o)
    unfolding try_insert_at get
    try_insert_at-Answers t v none valid room e =
        let w = add_entry-Writes t v valid room e in
        rw e (record {
          answered = refl;
          written = λ _. w;
          unchanged = λ n. absurd (n refl);
          still_valid = w.valid;
        })
    try_insert_at-Answers t v (some _) valid room e = rw e (record {
      answered = refl;
      written = λ h. cc;
      unchanged = λ _ _. refl;
      still_valid = valid;
    })

    try_answer : Bool → Option V → HtResult
    try_answer full o = if full then ht_oom else if is_some o then ht_inv_key else ht_ok

    try_insert_into-Answers :
        (m : Memory) (t : Ht K V) (v : V) (r : Ht K V × HtResult)
        → Kept ops m t r
        → Answers t k
            (some v)
            (try_answer (no_room ops m t) (get ops t k))
            (try_insert_into ops k v r)
    unfolding try_insert_into try_answer
    try_insert_into-Answers m t v (t', ht_ok) kept =
        let a = try_insert_at-Answers t' v _ kept.valid (kept.room refl) refl in
        let roomy : no_room ops m t ≡ false = ground arith in
        rw (roomy, ← kept.reads k)
          (record {
            answered = a.answered;
            written = λ h. Writes-Kept m t t' _ (some v) ht_ok kept (a.written h);
            unchanged = λ n q. a.unchanged n q ∙ kept.reads q;
            still_valid = a.still_valid;
          })
    try_insert_into-Answers m t v (t', ht_inv_key) kept = absurd (ground arith)
    try_insert_into-Answers m t v (t', ht_oom) kept =
        let stuck : no_room ops m t ≡ true = ground arith in
        rw stuck (out_of_memory m t t' (some v) kept)

    -- With keys compared by an equivalence that the hash respects, and a calloc that gives no array
    -- of 2^64 bytes or more, an insertion into a valid table that must not replace answers ht_oom
    -- when the table is full and cannot be doubled, else ht_inv_key when the key is there, else
    -- ht_ok; it writes the value only in the last case, and the table stays valid.
    pub try_insert-Answers :
        (m : Memory)
        → CallocFits m
        → (t : Ht K V) (v : V) → IsValid ops t
        → Answers t k
            (some v)
            (if no_room ops m t
              then ht_oom
              else if is_some (get ops t k)
              then ht_inv_key
              else ht_ok)
            (try_insert ops m t k v)
    unfolding try_insert try_answer
    try_insert-Answers m fits t v valid =
        try_insert_into-Answers m t v _ (make_room-Kept ops lawful m fits t valid)

    -- With keys compared by an equivalence that the hash respects, deletion from a valid table
    -- answers ht_ok exactly when the key is there, and then the key has no value, the others keep
    -- theirs, and one entry less is counted; else it answers ht_inv_key and no key changes its
    -- value; in either case the table is valid.
    pub delete-Answers :
        (t : Ht K V)
        → IsValid ops t
        → Answers t k none (if is_some (get ops t k) then ht_ok else ht_inv_key) (delete ops t k)
    unfolding delete delete_at get
    delete-Answers t valid = elim (Option-cases (searched t)) [
      | inl e ↦ rw e (record {
        answered = refl;
        written = λ h. cc;
        unchanged = λ _ _. refl;
        still_valid = valid;
      })
      | inr (x, e) ↦
          let (pos, c) =
            unlink-Changes ops entry_key lawful t.num_entries t.capacity t.entries valid k x e in
          let w = Changes-Writes t _ none refl c (rw e (omega (arith, pos))) in
          rw e (record {
            answered = refl;
            written = λ _. unfold get in w;
            unchanged = λ n. absurd (n refl);
            still_valid = w.valid;
          })
    ]
