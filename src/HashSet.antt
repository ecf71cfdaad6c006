-- ===== src/HashSet.antt =====
-- src/set.c: the chained hash set behind every database's set. The seed is part of `KeyOps.siphash`.
pub mod Laws
pub mod Correct
use lexidb.Base.{
  ℕ, ◌+◌, ◌-◌, ◌*◌, ◌%◌, ◌^◌, Bool, true, false, Option, none, some, List, [], ◌∷◌, leb,
  if◌then◌else◌, replicate,
}
use lexidb.Buckets.{slot_of, push_front, move_all}
use lexidb.Buckets.Store.{chain_at, put_chain, search_chain}
use lexidb.Chains.{unlink, hit}
use lexidb.Keys.{KeyOps}
use lexidb.Memory.{Memory}

-- `minus_one` is the -1 that `set_insert` returns where malloc fails for the first entry of a slot; it
-- is none of the enumeration's values.
pub data SetResult : Type 0 where
  set_ok set_key_exists set_inv_key set_oom minus_one : SetResult

pub record HashSet {ℓ} (K : Type ℓ) : Type ℓ where
  pub num_entries : ℕ
  pub capacity : ℕ
  pub entries : List (List K)

-- An entry is its data.
abbrev pub entry_data {ℓ} : {K : Type ℓ} → K → K
entry_data k = k

abbrev pub set_initial_cap : ℕ
set_initial_cap = 32

unfoldable pub new {ℓ} : {K : Type ℓ} → HashSet K
new = record { num_entries = 0; capacity = set_initial_cap; entries = replicate set_initial_cap [] }

unfoldable pub len {ℓ} : {K : Type ℓ} → HashSet K → ℕ
len s = s.num_entries

module _ {ℓ} {K : Type ℓ} (ops : KeyOps K) where
  -- `capacity << 1` as a size_t
  unfoldable pub resize : Memory → HashSet K → HashSet K × SetResult
  resize m s =
      let new_cap = s.capacity * 2 % 2 ^ 64 in
      if m.calloc new_cap
      then (
        record s {
          capacity = new_cap;
          entries = move_all ops entry_data new_cap s.entries (replicate new_cap []);
        },
        set_ok,
      )
      else (s, set_oom)

  -- the test at the head of `set_insert`
  unfoldable pub make_room : Memory → HashSet K → HashSet K × SetResult
  unfolding resize
  make_room m s = if leb s.capacity s.num_entries then resize m s else (s, set_ok)

  -- the search that the three operations share
  unfoldable pub search : HashSet K → K → Option K
  unfolding search_chain
  search s k = search_chain ops entry_data s.entries s.capacity k

  -- a new entry, at the head of the chain, or the failure that the caller returns
  add_entry : Memory → SetResult → HashSet K → K → HashSet K × SetResult
  unfolding push_front slot_of
  add_entry m failure s k =
      if m.malloc
      then (
        record s {
          num_entries = s.num_entries + 1;
          entries = push_front s.entries (slot_of ops k s.capacity) k;
        },
        set_ok,
      )
      else (s, failure)

  insert_after_search : Memory → HashSet K → K → Option K → HashSet K × SetResult
  insert_after_search m s k (some _) = (s, set_key_exists)
  insert_after_search m s k none = add_entry m set_oom s k

  insert_at : Memory → HashSet K → K → List K → HashSet K × SetResult
  insert_at m s k [] = add_entry m minus_one s k
  insert_at m s k (_ ∷ _) = insert_after_search m s k (search s k)

  insert_into : Memory → K → HashSet K × SetResult → HashSet K × SetResult
  unfolding chain_at
  insert_into m k (s, set_ok) = insert_at m s k (chain_at ops s.entries s.capacity k)
  insert_into m k (s, r) = (s, r)

  unfoldable pub insert : Memory → HashSet K → K → HashSet K × SetResult
  unfolding make_room insert_into insert_at insert_after_search add_entry
  insert m s k = insert_into m k (make_room m s)

  found : Option K → Bool
  found none = false
  found (some _) = true

  unfoldable pub has : HashSet K → K → Bool
  unfolding found search
  has s k = found (search s k)

  delete_at : HashSet K → K → Option K → HashSet K × SetResult
  unfolding put_chain chain_at
  delete_at s k none = (s, set_inv_key)
  delete_at s k (some _) = (
    record s {
      num_entries = s.num_entries - 1;
      entries =
          put_chain ops s.entries s.capacity k
            (unlink (hit ops entry_data k) (chain_at ops s.entries s.capacity k));
    },
    set_ok,
  )

  unfoldable pub delete : HashSet K → K → HashSet K × SetResult
  unfolding delete_at search
  delete s k = delete_at s k (search s k)
