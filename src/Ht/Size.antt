-- ===== src/Ht/Size.antt =====
-- src/ht.c: the size of a table with room.
use lexidb.Base.{◌<◌, ◌≤◌, ◌+◌, ◌≡◌, refl, Option, none, some, arith, false, ◌==◌}
use lexidb.Buckets.Store.{search_chain}
use lexidb.Ht.{Ht, entry_key, make_room, try_insert, try_insert_at, try_insert_into}
use lexidb.Keys.{KeyOps}
use lexidb.Memory.{Memory}

module _ {ℓ} {K V : Type ℓ} (ops : KeyOps K) (m : Memory) where
  -- the capacity as it was, and at most an entry more
  abbrev pub GrowsByOne : Ht K V → Ht K V → Type 0
  GrowsByOne t r = (r.capacity ≡ t.capacity) × (r.num_entries ≤ t.num_entries + 1)

  try_insert_at-GrowsByOne :
      (t : Ht K V) (k : K) (v : V) (o : Option (K × V)) → GrowsByOne t (try_insert_at ops t k v o).0
  unfolding try_insert_at
  try_insert_at-GrowsByOne t k v none = (refl, omega arith)
  try_insert_at-GrowsByOne t k v (some e) = (refl, omega arith)

  pub try_insert-GrowsByOne :
      (t : Ht K V) (k : K) (v : V)
      → t.num_entries < t.capacity
      → GrowsByOne t (try_insert ops m t k v).0
  unfolding try_insert make_room try_insert_into
  try_insert-GrowsByOne t k v room =
      let roomy : t.num_entries == t.capacity ≡ false = ground arith in
      rw roomy (try_insert_at-GrowsByOne t k v (search_chain ops entry_key t.entries t.capacity k))
