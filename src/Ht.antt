-- ===== src/Ht.antt =====
-- src/ht.c: the chained hash table from keys to values behind every database's dictionary.
-- `ht_entry_new` copies the key and the data; an entry is the pair of the two. `get_random_bytes`
-- only picks the seed, which is part of `KeyOps.siphash`. `ht_entry_new` does not test what malloc
-- returns, so the model has no such failure.
pub mod Laws
pub mod Correct
pub mod Iter
pub mod Size
use lexidb.Base.{
  ℕ, ◌+◌, ◌-◌, ◌*◌, ◌%◌, ◌^◌, Bool, true, false, Option, none, some, List, [], ◌∷◌, ◌==◌,
  if◌then◌else◌, replicate, get_or, set,
}
use lexidb.Buckets.{slot_of, push_front, move_all}
use lexidb.Buckets.Store.{chain_at, put_chain, search_chain}
use lexidb.Chains.{unlink, overwrite, hit}
use lexidb.Keys.{KeyOps}
use lexidb.Memory.{Memory}

pub data HtResult : Type 0 where
  ht_ok ht_inv_key ht_oom : HtResult

pub record Ht {ℓ} (K V : Type ℓ) : Type ℓ where
  pub num_entries : ℕ
  pub capacity : ℕ
  pub entries : List (List (K × V))

-- the key of an entry
abbrev pub entry_key {ℓ} : {K V : Type ℓ} → K × V → K
entry_key e = e.0

abbrev pub ht_initial_cap : ℕ
ht_initial_cap = 32

unfoldable pub new {ℓ} : {K V : Type ℓ} → Ht K V
new = record { num_entries = 0; capacity = ht_initial_cap; entries = replicate ht_initial_cap [] }

-- `ht_entry_get_value`, or NULL
abbrev pub value_of {ℓ} : {K V : Type ℓ} → Option (K × V) → Option V
value_of none = none
value_of (some e) = some e.1

module _ {ℓ} {K V : Type ℓ} (ops : KeyOps K) where
  -- `capacity << 1` as a size_t
  unfoldable pub resize : Memory → Ht K V → Ht K V × HtResult
  resize m t =
      let new_cap = t.capacity * 2 % 2 ^ 64 in
      if m.calloc new_cap
      then (
        record t {
          capacity = new_cap;
          entries = move_all ops entry_key new_cap t.entries (replicate new_cap []);
        },
        ht_ok,
      )
      else (t, ht_oom)

  -- the test at the head of both insertions
  unfoldable pub make_room : Memory → Ht K V → Ht K V × HtResult
  unfolding resize
  make_room m t = if t.num_entries == t.capacity then resize m t else (t, ht_ok)

  -- a new entry, at the head of the chain
  unfoldable pub add_entry : Ht K V → K → V → Ht K V
  add_entry t k v = record t {
    num_entries = t.num_entries + 1;
    entries = push_front t.entries (slot_of ops k t.capacity) (k, v);
  }

  insert_at : Ht K V → K → V → Option (K × V) → Ht K V
  unfolding add_entry
  insert_at t k v (some e) = record t {
    entries =
        put_chain ops t.entries t.capacity k
          (overwrite (hit ops entry_key k) (λ e. (e.0, v)) (chain_at ops t.entries t.capacity k));
  }
  insert_at t k v none = add_entry t k v

  insert_into : K → V → Ht K V × HtResult → Ht K V × HtResult
  unfolding insert_at
  insert_into k v (t, ht_ok) =
      (insert_at t k v (search_chain ops entry_key t.entries t.capacity k), ht_ok)
  insert_into k v (t, r) = (t, r)

  unfoldable pub insert : Memory → Ht K V → K → V → Ht K V × HtResult
  unfolding make_room insert_into
  insert m t k v = insert_into k v (make_room m t)

  try_insert_at : Ht K V → K → V → Option (K × V) → Ht K V × HtResult
  unfolding add_entry
  try_insert_at t k v (some e) = (t, ht_inv_key)
  try_insert_at t k v none = (add_entry t k v, ht_ok)

  try_insert_into : K → V → Ht K V × HtResult → Ht K V × HtResult
  unfolding try_insert_at
  try_insert_into k v (t, ht_ok) =
      try_insert_at t k v (search_chain ops entry_key t.entries t.capacity k)
  try_insert_into k v (t, r) = (t, r)

  unfoldable pub try_insert : Memory → Ht K V → K → V → Ht K V × HtResult
  unfolding make_room try_insert_into
  try_insert m t k v = try_insert_into k v (make_room m t)

  unfoldable pub get : Ht K V → K → Option V
  unfolding search_chain
  get t k = value_of (search_chain ops entry_key t.entries t.capacity k)

  delete_at : Ht K V → K → Option (K × V) → Ht K V × HtResult
  delete_at t k none = (t, ht_inv_key)
  delete_at t k (some e) = (
    record t {
      num_entries = t.num_entries - 1;
      entries =
          put_chain ops t.entries t.capacity k
            (unlink (hit ops entry_key k) (chain_at ops t.entries t.capacity k));
    },
    ht_ok,
  )

  unfoldable pub delete : Ht K V → K → Ht K V × HtResult
  unfolding delete_at search_chain
  delete t k = delete_at t k (search_chain ops entry_key t.entries t.capacity k)
