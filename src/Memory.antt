-- ===== src/Memory.antt =====
-- What the allocator answers. A null pointer is `false`.
use lexidb.Base.{ℕ, ◌*◌, ◌^◌, ◌<◌, ◌≡◌, Bool, true}

pub record Memory : Type 0 where
  pub calloc : ℕ → Bool
  pub malloc : Bool

-- calloc fails when the size in bytes, here of an array of pointers, is no size_t.
abbrev pub CallocFits : Memory → Type 0
CallocFits m = (n : ℕ) → m.calloc n ≡ true → n * 8 < 2 ^ 64
