-- ===== src/Vec.antt =====
-- src/vec.c: the growing array behind every database's list, the parsed arrays, and the server's
-- clients and users. `slots` is `data`, the allocation, slot by slot; the slots from `len` on hold what memset
-- or an earlier element left there. A null pointer or a result of -1 is `none`; where an operation
-- answers -1 the vector is as it was.
pub mod Iter
pub mod Laws
pub mod Correct
use lexidb.Base.{
  ℕ, zero, suc, ◌+◌, ◌-◌, ◌*◌, ◌%◌, ◌^◌, Bool, true, false, Option, none, some, List, [], ◌∷◌, ◌++◌,
  ltb, ◌==◌, if◌then◌else◌, set, get_or, take, drop, replicate,
}

pub record Vec {ℓ} (A : Type ℓ) : Type ℓ where
  pub len : ℕ
  pub cap : ℕ
  pub data_size : ℕ
  pub slots : List A

abbrev pub vec_initial_cap : ℕ
vec_initial_cap = 2

-- `sizeof(vec)`: three size_t
abbrev pub vec_header : ℕ
vec_header = 24

-- `blank` is the element all of whose bytes are 0.
module _ {ℓ} {A : Type ℓ} (blank : A) where
  unfoldable pub new_with_capacity : (ℕ → Bool) → ℕ → ℕ → Option (Vec A)
  new_with_capacity malloc data_size capacity =
      if ltb capacity 2
      then none
      else if malloc ((vec_header + data_size * capacity) % 2 ^ 64)
      then some (record {
        len = 0;
        cap = capacity;
        data_size = data_size;
        slots = replicate capacity blank;
      })
      else none

  unfoldable pub new : (ℕ → Bool) → ℕ → Option (Vec A)
  new malloc data_size =
      if malloc ((vec_header + data_size * vec_initial_cap) % 2 ^ 64)
      then some (record {
        len = 0;
        cap = vec_initial_cap;
        data_size = data_size;
        slots = replicate vec_initial_cap blank;
      })
      else none

  -- what `realloc` is asked for, in bytes
  abbrev pub doubled_bytes : Vec A → ℕ
  doubled_bytes v = (vec_header + (v.cap * 2 % 2 ^ 64) * v.data_size) % 2 ^ 64

  unfoldable pub vec_realloc : (ℕ → Bool) → Vec A → Option (Vec A)
  vec_realloc realloc v =
      let cap = v.cap * 2 % 2 ^ 64 in
      if realloc (doubled_bytes v)
      then some
          (record v { cap = cap; slots = take v.len v.slots ++ replicate (cap - v.len) blank })
      else none

  -- the element, in the slot behind the last one
  unfoldable pub append : Vec A → A → Vec A
  append v x = record v { len = v.len + 1; slots = set v.slots v.len x }

  abbrev append_to : Option (Vec A) → A → Option (Vec A)
  append_to none x = none
  append_to (some v) x = some (append v x)

  unfoldable pub push : (ℕ → Bool) → Vec A → A → Option (Vec A)
  unfolding vec_realloc append
  push realloc v x = append_to (if v.len == v.cap then vec_realloc realloc v else some v) x

  -- The popped element, and the vector: its bytes stay in the slot.
  unfoldable pub pop : Vec A → Option (A × Vec A)
  pop v =
      if v.len == 0
      then none
      else some (get_or v.slots (v.len - 1) blank, record v { len = v.len - 1 })

  unfoldable pub get_at : Vec A → ℕ → Option A
  get_at v idx = if ltb idx v.len then some (get_or v.slots idx blank) else none

  -- memmove of the elements behind `idx`, and memset of the slot that becomes free
  unfoldable pub shift_down : ℕ → ℕ → List A → List A
  shift_down idx new_len xs =
      take idx xs ++ (take (new_len - idx) (drop (suc idx) xs) ++ blank ∷ drop (suc new_len) xs)

  unfoldable pub remove_at : Vec A → ℕ → Option (A × Vec A)
  unfolding shift_down
  remove_at v idx =
      let new_len = v.len - 1 in
      if ltb idx v.len
      then some (
        get_or v.slots idx blank,
        record v {
          len = new_len;
          slots = if new_len == idx then set v.slots idx blank else shift_down idx new_len v.slots;
        },
      )
      else none

-- the loop of `vec_find`, over the `n` elements from index `i` on; `at` tells what compares as 0
unfoldable pub find_from {ℓ} : {A : Type ℓ} → (A → Bool) → ℕ → List A → ℕ → Option (ℕ × A)
find_from at zero xs i = none
find_from at (suc n) [] i = none
find_from at (suc n) (x ∷ xs) i =
    let rest = find_from at n xs (i + 1) in if at x then some (i, x) else rest

unfoldable pub find {ℓ} : {A : Type ℓ} → (A → Bool) → Vec A → Option (ℕ × A)
unfolding find_from
find at v = find_from at v.len v.slots 0
