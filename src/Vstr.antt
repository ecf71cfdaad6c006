-- ===== src/Vstr.antt =====
-- src/vstr.h, src/vstr.c: strings that lie in the struct up to 23 bytes and on the heap beyond. The
-- constructor is the bit `is_large`. `bytes` is the buffer, byte by byte, whole; a string from the
-- program is its bytes without the terminator. A result of 0 is `true`, and -1 `false`.
pub mod Laws
pub mod Large
pub mod Correct
pub mod Lost
use lexidb.Base.{
  ℕ, zero, suc, ◌+◌, ◌-◌, ◌*◌, ◌%◌, ◌^◌, Bool, true, false, List, [], ◌∷◌, ◌++◌, length, take, drop,
  replicate, ltb, leb, ◌==◌, if◌then◌else◌, Option, none, some,
}

abbrev pub max_small_size : ℕ
max_small_size = 23

abbrev pub max_large_size : ℕ
max_large_size = 2 ^ 56 - 1

-- `vstr_lg`; a null pointer is the empty buffer
pub record VstrLg : Type 0 where
  pub len : ℕ
  pub cap : ℕ
  pub bytes : List ℕ

pub data Vstr : Type 0 where
  small : ℕ → List ℕ → Vstr
  large : VstrLg → Vstr

-- a C string up to its terminator, which strlen looks for
unfoldable pub c_string : List ℕ → List ℕ
c_string [] = []
c_string (c ∷ cs) = let rest = c_string cs in if c == 0 then [] else c ∷ rest

-- What the allocator answers.
pub record Heap : Type 0 where
  pub calloc : ℕ → Bool
  pub realloc : ℕ → Bool

-- memcpy to an offset of a buffer
unfoldable pub copy_to : ℕ → List ℕ → List ℕ → List ℕ
copy_to i xs bytes = take i bytes ++ (xs ++ drop (i + length xs) bytes)

-- `vstr_lg lg = {0}`
abbrev pub no_lg : VstrLg
no_lg = record { len = 0; cap = 0; bytes = [] }

-- the small buffer when the struct is zero
abbrev pub no_bytes : List ℕ
no_bytes = replicate max_small_size 0

unfoldable pub vstr_new : Vstr
vstr_new = small max_small_size no_bytes

unfoldable pub vstr_len : Vstr → ℕ
vstr_len (small avail bytes) = max_small_size - avail
vstr_len (large lg) = lg.len

unfoldable pub vstr_data : Vstr → List ℕ
vstr_data (small avail bytes) = bytes
vstr_data (large lg) = lg.bytes

unfoldable pub sm_push_string : List ℕ → List ℕ → ℕ → Option (List ℕ)
unfolding copy_to
sm_push_string bytes str avail =
    if ltb avail (length str) then none else some (copy_to (max_small_size - avail) str bytes)

unfoldable pub sm_push_char : List ℕ → ℕ → ℕ → Option (List ℕ)
unfolding copy_to
sm_push_char bytes c avail =
    if avail == 0 then none else some (copy_to (max_small_size - avail) (c ∷ []) bytes)

module _ (heap : Heap) where
  unfoldable pub make_lg : List ℕ → VstrLg
  unfolding copy_to
  make_lg bytes =
      if heap.calloc (max_small_size + 2)
      then record {
        len = max_small_size;
        cap = max_small_size + 2;
        bytes = copy_to 0 (take max_small_size bytes) (replicate (max_small_size + 2) 0);
      }
      else no_lg

  unfoldable pub make_lg_len : List ℕ → ℕ → VstrLg
  unfolding copy_to
  make_lg_len bytes len =
      if leb max_large_size len
      then no_lg
      else if heap.calloc (len + 1)
      then record {
        len = len;
        cap = len + 1;
        bytes = copy_to 0 (take len bytes) (replicate (len + 1) 0);
      }
      else no_lg

  -- `vstr_new_len`, where its assertions hold
  unfoldable pub vstr_new_len : ℕ → Option Vstr
  vstr_new_len len =
      if ltb max_small_size len
      then (if ltb max_large_size len
          then none
          else if heap.calloc (len + 1)
          then some (large (record { len = 0; cap = len + 1; bytes = replicate (len + 1) 0 }))
          else none)
      else some (small max_small_size no_bytes)

  -- Where there is no memory the struct is zero, `small_avail` with it
  unfoldable pub vstr_from_len : List ℕ → Vstr
  unfolding make_lg_len copy_to
  vstr_from_len str =
      if ltb max_small_size (length str)
      then (let lg = make_lg_len str (length str) in
          if lg.cap == 0 then small 0 no_bytes else large lg)
      else small (max_small_size - length str) (copy_to 0 str no_bytes)

  unfoldable pub vstr_from : List ℕ → Vstr
  unfolding vstr_from_len c_string
  vstr_from cstr = vstr_from_len (c_string cstr)

  -- the reserved string with what vsnprintf prints, and its terminator, in it
  abbrev pub with_print : List ℕ → Option Vstr → Option Vstr
  with_print printed none = none
  with_print printed (some (large lg)) =
      some
        (large (record lg { len = length printed; bytes = copy_to 0 (printed ++ 0 ∷ []) lg.bytes }))
  with_print printed (some (small avail bytes)) =
      some (small (max_small_size - (length printed + 1) + 1) (copy_to 0 (printed ++ 0 ∷ []) bytes))

  -- `vstr_format`, of what its arguments print as; `none` where an assertion fails
  unfoldable pub vstr_format : List ℕ → Option Vstr
  unfolding vstr_new_len copy_to
  vstr_format printed =
      let formatted = with_print printed (vstr_new_len (length printed + 1)) in
      if length printed == 0 then none else formatted

  -- the buffer with a new capacity: the bytes up to `len`, and zeros
  abbrev pub recapped : VstrLg → ℕ → VstrLg
  recapped lg cap = record lg {
    cap = cap;
    bytes = take lg.len lg.bytes ++ replicate (cap - lg.len) 0;
  }

  unfoldable pub realloc_lg : VstrLg → Option VstrLg
  realloc_lg lg =
      let cap = lg.cap * 2 % 2 ^ 64 in if heap.realloc cap then some (recapped lg cap) else none

  unfoldable pub realloc_lg_len : VstrLg → ℕ → Option VstrLg
  realloc_lg_len lg new_len =
      let cap = (lg.cap + new_len) % 2 ^ 64 in
      if heap.realloc cap then some (recapped lg cap) else none

  -- the end of `vstr_lg_push_char`
  unfoldable pub put_char : VstrLg → ℕ → Option VstrLg → Bool × VstrLg
  unfolding copy_to
  put_char old c none = (false, old)
  put_char old c (some lg) =
      if ltb max_large_size (lg.len + 1)
      then (false, lg)
      else (true, record lg { len = lg.len + 1; bytes = copy_to lg.len (c ∷ []) lg.bytes })

  unfoldable pub lg_push_char : VstrLg → ℕ → Bool × VstrLg
  unfolding put_char realloc_lg
  lg_push_char lg c =
      if lg.cap == 0
      then (false, lg)
      else put_char lg c (if lg.len == lg.cap - 1 then realloc_lg lg else some lg)

  -- the end of `vstr_lg_push_string`
  unfoldable pub put_string : VstrLg → List ℕ → Option VstrLg → Bool × VstrLg
  unfolding copy_to
  put_string old str none = (false, old)
  put_string old str (some lg) =
      (true, record lg { len = lg.len + length str; bytes = copy_to lg.len str lg.bytes })

  unfoldable pub lg_push_string : VstrLg → List ℕ → Bool × VstrLg
  unfolding put_string realloc_lg_len
  lg_push_string lg str =
      let total = (lg.len + length str) % 2 ^ 64 in
      if lg.cap == 0
      then (false, lg)
      else if ltb max_large_size total
      then (false, lg)
      else put_string lg str
          (if ltb (lg.cap - 1) total then realloc_lg_len lg (length str) else some lg)

  abbrev pub as_large : Bool × VstrLg → Bool × Vstr
  as_large (done, lg) = (done, large lg)

  -- The growth of a full small string. Where there is no memory, the zero struct has taken the place of
  -- the bytes.
  unfoldable pub grow_char : List ℕ → ℕ → Bool × Vstr
  unfolding make_lg lg_push_char
  grow_char bytes c =
      let lg = make_lg bytes in
      let pushed = as_large (lg_push_char lg c) in
      if lg.cap == 0 then (false, small 0 no_bytes) else pushed

  abbrev pub pushed_char : List ℕ → ℕ → ℕ → Option (List ℕ) → Bool × Vstr
  pushed_char old avail c (some bytes) = (true, small (avail - 1) bytes)
  pushed_char old avail c none = grow_char old c

  unfoldable pub vstr_push_char : Vstr → ℕ → Bool × Vstr
  unfolding grow_char lg_push_char sm_push_char
  vstr_push_char (large lg) c = as_large (lg_push_char lg c)
  vstr_push_char (small avail bytes) c = pushed_char bytes avail c (sm_push_char bytes c avail)

  abbrev pub pushed_string : List ℕ → ℕ → List ℕ → Option (List ℕ) → Bool × Vstr
  pushed_string old avail str (some bytes) = (true, small (avail - length str) bytes)
  pushed_string old avail str none =
      as_large (lg_push_string (make_lg_len old (max_small_size - avail)) str)

  unfoldable pub vstr_push_string_len : Vstr → List ℕ → Bool × Vstr
  unfolding make_lg_len lg_push_string sm_push_string
  vstr_push_string_len (large lg) str = as_large (lg_push_string lg str)
  vstr_push_string_len (small avail bytes) str =
      pushed_string bytes avail str (sm_push_string bytes str avail)

  unfoldable pub vstr_push_string : Vstr → List ℕ → Bool × Vstr
  unfolding vstr_push_string_len c_string
  vstr_push_string s cstr = vstr_push_string_len s (c_string cstr)

-- `layout` is what the 23 bytes of a struct `vstr_lg` hold: they stay when the pointer is freed.
unfoldable pub vstr_reset : (VstrLg → List ℕ) → Vstr → Vstr
vstr_reset layout (large lg) = small max_small_size (layout lg)
vstr_reset layout (small avail bytes) = small max_small_size no_bytes

-- `vstr_free`: the buffer of a small string is left as it is
unfoldable pub vstr_free : (VstrLg → List ℕ) → Vstr → Vstr
vstr_free layout (large lg) = small max_small_size (layout lg)
vstr_free layout (small avail bytes) = small max_small_size bytes
