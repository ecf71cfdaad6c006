-- ===== src/Vstr/Correct.antt =====
-- src/vstr.c: the operations on strings, where the allocator gives what they ask for.
use lexidb.Base.{
  take_whole, ℕ, ◌+◌, ◌-◌, ◌≤◌, ◌<◌, ◌≡◌, refl, sym, ◌∙◌, ap, Bool, true, false, List, [], ◌∷◌,
  ◌++◌, length, take, arith, length-append, Bool-cases, inl, inr, ltb, ◌==◌, if◌then◌else◌,
}
use lexidb.Vstr.{
  Vstr, VstrLg, Heap, small, large, max_small_size, max_large_size, copy_to, no_bytes,
  sm_push_string, sm_push_char, make_lg, make_lg_len, vstr_from_len, lg_push_char, as_large,
  grow_char, vstr_push_char, vstr_push_string_len,
}
use lexidb.Vstr.Large.{
  Grants, LgPushes, lg_push_string-LgPushes, lg_push_char-LgPushes, make_lg_len-LgStands,
  make_lg-LgStands,
}
use lexidb.Vstr.Laws.{Stands, take-Holds, copy_to-Holds, Holds-zeros}

-- a push that has succeeded, and the bytes after it
abbrev pub Pushes : List ℕ → Bool × Vstr → Type 0
Pushes xs r = (t : Vstr) × (r ≡ (true, t)) × Stands xs t

module _ (heap : Heap) (grants : Grants heap) where
  -- A new string stands for the bytes that it is made of.
  pub vstr_from_len-Stands :
      (xs : List ℕ) → length xs < max_large_size → Stands xs (vstr_from_len heap xs)
  unfolding vstr_from_len
  vstr_from_len-Stands xs short = elim (Bool-cases (ltb max_small_size (length xs))) [
    | inr few ↦ rw few (
      omega arith,
      ground arith,
      copy_to-Holds max_small_size 0 [] xs no_bytes refl (ground arith)
          (Holds-zeros max_small_size),
    )
    | inl many ↦
        let (m, made, stands, some_cap) =
          make_lg_len-LgStands heap grants xs xs short (take_whole xs) in
        rw (many, made, some_cap) stands
  ]

  Pushes-as_large : (xs : List ℕ) (r : Bool × VstrLg) → LgPushes xs r → Pushes xs (as_large heap r)
  Pushes-as_large xs r (m, e, h) = (large m, ap (as_large heap) e, h)

  Stands-small :
      (avail : ℕ) (xs ys bytes : List ℕ)
      → Stands xs (small avail bytes)
      → length ys ≤ avail
      → Stands (xs ++ ys) (small (avail - length ys) (copy_to (max_small_size - avail) ys bytes))
  Stands-small avail xs ys bytes (within, counted, holds) room = (
    omega (arith, within),
    omega (arith, counted, within, length-append xs ys),
    copy_to-Holds max_small_size (max_small_size - avail) xs ys bytes counted
        (omega (arith, counted, within)) holds,
  )

  -- With an allocator that gives every block of up to 2^57 bytes, bytes pushed to a string, small
  -- or large, stand behind the others, in a buffer that is zero behind them, as long as there are
  -- less than 2^56 in all.
  pub vstr_push_string_len-Pushes :
      (s : Vstr) (xs ys : List ℕ)
      → Stands xs s
      → length xs + length ys ≤ max_large_size
      → Pushes (xs ++ ys) (vstr_push_string_len heap s ys)
  unfolding vstr_push_string_len sm_push_string
  vstr_push_string_len-Pushes (large lg) xs ys h short =
      Pushes-as_large _ _ (lg_push_string-LgPushes heap grants lg xs ys h short)
  vstr_push_string_len-Pushes (small avail bytes) xs ys h short =
      elim (Bool-cases (ltb avail (length ys))) [
        | inr room ↦ rw room (_, refl, Stands-small avail xs ys bytes h (ground arith))
        | inl tight ↦
            let (within, counted, holds) = h in
            let (m, made, stands, _) =
              make_lg_len-LgStands heap grants xs bytes (omega (arith, counted))
                (take-Holds _ _ xs bytes refl holds) in
            let old : make_lg_len heap bytes (max_small_size - avail) ≡ m =
              ap (make_lg_len heap bytes) (sym counted) ∙ made in
            rw (tight, old)
              (Pushes-as_large _ _ (lg_push_string-LgPushes heap grants m xs ys stands short))
      ]

  if-false : {A : Type 0} (b : Bool) (x y : A) → b ≡ false → (if b then x else y) ≡ y
  if-false b x y h = rw h refl

  grow_char-made :
      (bytes : List ℕ) (c : ℕ) (m : VstrLg)
      → make_lg heap bytes ≡ m
      → m.cap == 0 ≡ false
      → grow_char heap bytes c ≡ as_large heap (lg_push_char heap m c)
  unfolding grow_char
  grow_char-made bytes c m made some_cap =
      ap
        (λ lg.
          if lg.cap == 0 then (false, small 0 no_bytes) else as_large heap (lg_push_char heap lg c))
        made
      ∙ if-false (m.cap == 0) (false, small 0 no_bytes) (as_large heap (lg_push_char heap m c))
          some_cap

  grow_char-Pushes :
      (bytes xs : List ℕ) (c : ℕ)
      → length xs ≡ max_small_size
      → take max_small_size bytes ≡ xs
      → Pushes (xs ++ c ∷ []) (grow_char heap bytes c)
  grow_char-Pushes bytes xs c whole e =
      let (m, made, stands, some_cap) = make_lg-LgStands heap grants xs bytes whole e in
      let (t, pushed, after) =
        Pushes-as_large _ _
          (lg_push_char-LgPushes heap grants m xs c stands (omega (arith, whole))) in
      (t, grow_char-made bytes c m made some_cap ∙ pushed, after)

  -- With an allocator that gives every block of up to 2^57 bytes, a character pushed to a string of
  -- less than 2^56 - 1 bytes, small or large, stands behind the others, in a buffer that is zero
  -- behind it.
  pub vstr_push_char-Pushes :
      (s : Vstr) (xs : List ℕ) (c : ℕ)
      → Stands xs s
      → length xs + 1 ≤ max_large_size
      → Pushes (xs ++ c ∷ []) (vstr_push_char heap s c)
  unfolding vstr_push_char sm_push_char
  vstr_push_char-Pushes (large lg) xs c h short =
      Pushes-as_large _ _ (lg_push_char-LgPushes heap grants lg xs c h short)
  vstr_push_char-Pushes (small avail bytes) xs c h short = elim (Bool-cases (avail == 0)) [
    | inr room ↦ rw room (_, refl, Stands-small avail xs (c ∷ []) bytes h (ground arith))
    | inl full ↦
        let (within, counted, holds) = h in
        let whole : length xs ≡ max_small_size = ground (arith, counted) in
        rw full (grow_char-Pushes bytes xs c whole (take-Holds _ _ xs bytes whole holds))
  ]
