-- ===== src/Vstr/Large.antt =====
-- src/vstr.c: the operations on large strings, where the allocator gives what they ask for.
use lexidb.Base.{
  ℕ, ◌+◌, ◌-◌, ◌*◌, ◌%◌, ◌≤◌, ◌<◌, ◌^◌, ◌≡◌, refl, sym, Bool, true, false, List, [], ◌∷◌, ◌++◌,
  length, take, arith, length-append, Bool-cases, inl, inr, ltb, leb, ◌==◌,
}
use lexidb.Vstr.{
  VstrLg, Heap, max_small_size, max_large_size, copy_to, make_lg, make_lg_len, realloc_lg,
  realloc_lg_len, recapped, put_char, lg_push_char, put_string, lg_push_string,
}
use lexidb.Vstr.Laws.{LgStands, zeros, copy_to-Holds, Holds-zeros, Holds-recapped}

-- The allocator gives every block of up to 2^57 bytes.
pub record Grants (heap : Heap) : Type 0 where
  pub calloc : (n : ℕ) → n ≤ 2 ^ 57 → heap.calloc n ≡ true
  pub realloc : (n : ℕ) → n ≤ 2 ^ 57 → heap.realloc n ≡ true

LgStands-recapped :
    (lg : VstrLg) (xs : List ℕ) (cap : ℕ)
    → LgStands xs lg
    → lg.len < cap
    → cap ≤ 2 ^ 57
    → (heap : Heap) → LgStands xs (recapped heap lg cap)
LgStands-recapped lg xs cap h room fits heap = record {
  counted = h.counted;
  roomy = room;
  small = fits;
  short = h.short;
  buffer = Holds-recapped _ cap lg.len xs lg.bytes h.counted (omega (arith, room)) h.buffer;
}

-- bytes written behind those of a string with room for them
LgStands-written :
    (lg : VstrLg) (xs ys : List ℕ)
    → LgStands xs lg
    → lg.len + length ys < lg.cap
    → lg.len + length ys ≤ max_large_size
    → LgStands
        (xs ++ ys)
        (record lg { len = lg.len + length ys; bytes = copy_to lg.len ys lg.bytes })
LgStands-written lg xs ys h room short = record {
  counted = omega (arith, length-append xs ys, h.counted);
  roomy = room;
  small = h.small;
  short = short;
  buffer =
      copy_to-Holds _ lg.len xs ys lg.bytes h.counted (omega (arith, h.counted, room)) h.buffer;
}

-- a push that has succeeded, and the bytes after it
abbrev pub LgPushes : List ℕ → Bool × VstrLg → Type 0
LgPushes xs r = (m : VstrLg) × (r ≡ (true, m)) × LgStands xs m

module _ (heap : Heap) (grants : Grants heap) where
  pub lg_push_string-LgPushes :
      (lg : VstrLg) (xs ys : List ℕ)
      → LgStands xs lg
      → length xs + length ys ≤ max_large_size
      → LgPushes (xs ++ ys) (lg_push_string heap lg ys)
  unfolding lg_push_string realloc_lg_len put_string
  lg_push_string-LgPushes lg xs ys h short =
      let total : (lg.len + length ys) % 2 ^ 64 ≡ lg.len + length ys = omega (arith, h.counted) in
      let some_cap : lg.cap == 0 ≡ false = ground (arith, h.roomy) in
      let fits : ltb max_large_size (lg.len + length ys) ≡ false = ground (arith, h.counted) in
      elim (Bool-cases (ltb (lg.cap - 1) (lg.len + length ys))) [
        | inr room ↦
            rw (total, some_cap, fits, room)
              (
                _,
                refl,
                LgStands-written lg xs ys h (ground (arith, h.roomy)) (omega (arith, h.counted)),
              )
        | inl tight ↦
            let larger : (lg.cap + length ys) % 2 ^ 64 ≡ lg.cap + length ys =
              omega (arith, h.small, h.counted) in
            let few : lg.cap + length ys ≤ 2 ^ 57 = ground (arith, h.counted) in
            let m =
              LgStands-recapped lg xs (lg.cap + length ys) h (omega (arith, h.roomy)) few heap in
            rw (total, some_cap, fits, tight, larger, grants.realloc (lg.cap + length ys) few)
              (
                _,
                refl,
                LgStands-written (recapped heap lg (lg.cap + length ys)) xs ys m
                    (omega (arith, h.roomy)) (omega (arith, h.counted)),
              )
      ]

  pub lg_push_char-LgPushes :
      (lg : VstrLg) (xs : List ℕ) (c : ℕ)
      → LgStands xs lg
      → length xs + 1 ≤ max_large_size
      → LgPushes (xs ++ c ∷ []) (lg_push_char heap lg c)
  unfolding lg_push_char realloc_lg put_char
  lg_push_char-LgPushes lg xs c h short =
      let some_cap : lg.cap == 0 ≡ false = ground (arith, h.roomy) in
      let fits : ltb max_large_size (lg.len + 1) ≡ false = ground (arith, h.counted) in
      elim (Bool-cases (lg.len == lg.cap - 1)) [
        | inr room ↦
            rw (some_cap, room, fits)
              (
                _,
                refl,
                LgStands-written lg xs (c ∷ []) h (ground (arith, h.roomy))
                    (omega (arith, h.counted)),
              )
        | inl full ↦
            let larger : lg.cap * 2 % 2 ^ 64 ≡ lg.cap * 2 = omega (arith, h.small) in
            let few : lg.cap * 2 ≤ 2 ^ 57 = ground (arith, h.counted, h.roomy) in
            let m = LgStands-recapped lg xs (lg.cap * 2) h (omega (arith, h.roomy)) few heap in
            rw (some_cap, full, larger, grants.realloc (lg.cap * 2) few, fits)
              (
                _,
                refl,
                LgStands-written (recapped heap lg (lg.cap * 2)) xs (c ∷ []) m
                    (ground (arith, h.roomy)) (omega (arith, h.counted)),
              )
      ]

  -- a new buffer, with a text copied to it
  LgStands-fresh :
      (xs : List ℕ) (cap : ℕ)
      → length xs < cap
      → cap ≤ 2 ^ 57
      → length xs ≤ max_large_size
      → LgStands xs (record { len = length xs; cap = cap; bytes = copy_to 0 xs (zeros cap) })
  LgStands-fresh xs cap room few short = record {
    counted = refl;
    roomy = room;
    small = few;
    short = short;
    buffer = copy_to-Holds cap 0 [] xs (zeros cap) refl (omega arith) (Holds-zeros cap);
  }

  pub make_lg_len-LgStands :
      (xs bytes : List ℕ)
      → length xs < max_large_size
      → take (length xs) bytes ≡ xs
      → (m : VstrLg) × (make_lg_len heap bytes (length xs) ≡ m)
        × LgStands xs m
        × (m.cap == 0 ≡ false)
  unfolding make_lg_len
  make_lg_len-LgStands xs bytes short e =
      let fits : leb max_large_size (length xs) ≡ false = ground arith in
      rw (fits, grants.calloc (length xs + 1) (omega arith), e)
        (
          _,
          refl,
          LgStands-fresh xs (length xs + 1) (omega arith) (omega arith) (omega arith),
          ground arith,
        )

  pub make_lg-LgStands :
      (xs bytes : List ℕ)
      → length xs ≡ max_small_size
      → take max_small_size bytes ≡ xs
      → (m : VstrLg) × (make_lg heap bytes ≡ m) × LgStands xs m × (m.cap == 0 ≡ false)
  unfolding make_lg
  make_lg-LgStands xs bytes full e =
      rw (grants.calloc (max_small_size + 2) (omega arith), e, sym full)
        (
          _,
          refl,
          LgStands-fresh xs (max_small_size + 2) (omega (arith, full)) (omega arith)
              (omega (arith, full)),
          refl,
        )
