-- ===== src/Vstr/Lost.antt =====
-- src/vstr.c: a small string that has to grow where there is no memory.
use lexidb.Base.{
  ℕ, ◌+◌, ◌-◌, ◌<◌, ◌≡◌, refl, Bool, true, false, List, [], length, arith, Bool-cases, inl, inr,
  ltb, leb,
}
use lexidb.Vstr.{
  vstr_len, vstr_data, Vstr, Heap, small, no_lg, max_small_size, max_large_size, make_lg,
  make_lg_len, lg_push_string, grow_char, sm_push_char, sm_push_string, vstr_push_char,
  vstr_push_string_len,
}
use lexidb.Vstr.Laws.{text, zeros}

-- a failed push, and the bytes after it
abbrev pub Lost : List ℕ → Bool × Vstr → Type 0
Lost xs r = (r.0 ≡ false) × (text r.1 ≡ xs)

module _ (heap : Heap) (refuses : (n : ℕ) → heap.calloc n ≡ false) where
  make_lg_len-no_lg : (bytes : List ℕ) (len : ℕ) → make_lg_len heap bytes len ≡ no_lg
  unfolding make_lg_len
  make_lg_len-no_lg bytes len = elim (Bool-cases (leb max_large_size len)) [
    | inl long ↦ rw long refl
    | inr short ↦ rw (short, refuses (len + 1)) refl
  ]

  -- Where calloc refuses, a character pushed to a small string with no room, and bytes pushed to
  -- one without room for them, are refused; the first leaves 23 bytes of 0 in place of the string,
  -- and the second an empty string.
  pub vstr_push-Lost :
      (avail c : ℕ) (full bytes ys : List ℕ)
      → avail < length ys
      → Lost (zeros max_small_size) (vstr_push_char heap (small 0 full) c)
        × Lost [] (vstr_push_string_len heap (small avail bytes) ys)
  unfolding vstr_push_char sm_push_char grow_char make_lg vstr_push_string_len sm_push_string
      lg_push_string text vstr_len vstr_data
  vstr_push-Lost avail c full bytes ys tight =
      let long : ltb avail (length ys) ≡ true = ground arith in
      (
        rw (refuses (max_small_size + 2)) (refl, refl),
        rw (long, make_lg_len-no_lg bytes (max_small_size - avail)) (refl, refl),
      )
