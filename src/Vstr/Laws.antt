-- ===== src/Vstr/Laws.antt =====
-- src/vstr.c: the text of a string, and writes to its buffer.
use lexidb.Base.{
  ℕ, zero, suc, ◌+◌, ◌-◌, ◌≤◌, ◌<◌, ◌^◌, ◌≡◌, refl, sym, ◌∙◌, ap, List, [], ◌∷◌, ◌++◌, length, take,
  drop, replicate, arith, length-append, append_assoc,
}
use lexidb.Vec.Laws.{take-append}
use lexidb.Vstr.{
  Vstr, VstrLg, small, large, max_small_size, max_large_size, copy_to, vstr_len, vstr_data,
}

-- the bytes that a string stands for
unfoldable pub text : Vstr → List ℕ
unfolding vstr_len vstr_data
text s = take (vstr_len s) (vstr_data s)

-- A buffer of a size with a text at its start, and zeros behind it.
pub record Holds (size : ℕ) (xs bytes : List ℕ) : Type 0 where
  pub fits : length xs ≤ size
  pub holds : bytes ≡ xs ++ replicate (size - length xs) 0

-- A large string holds these bytes, and has room for the terminator.
pub record LgStands (xs : List ℕ) (lg : VstrLg) : Type 0 where
  pub counted : length xs ≡ lg.len
  pub roomy : lg.len < lg.cap
  pub small : lg.cap ≤ 2 ^ 57
  pub short : lg.len ≤ max_large_size
  pub buffer : Holds lg.cap xs lg.bytes

-- A string stands for these bytes. Its buffer is zero behind them.
abbrev pub Stands : List ℕ → Vstr → Type 0
Stands xs (small avail bytes) =
    (avail ≤ max_small_size) × (length xs ≡ max_small_size - avail) × Holds max_small_size xs bytes
Stands xs (large lg) = LgStands xs lg

abbrev pub zeros : ℕ → List ℕ
zeros n = replicate n 0

zeros_same : (m n : ℕ) → m ≡ n → zeros m ≡ zeros n
zeros_same m n e = ap (λ k. zeros k) e

drop-zeros : (n m : ℕ) → drop n (zeros m) ≡ zeros (m - n)
drop-zeros zero m = zeros_same m (m - 0) (omega arith)
drop-zeros (suc n) zero = zeros_same 0 (0 - suc n) (omega arith)
drop-zeros (suc n) (suc m) = drop-zeros n m ∙ zeros_same (m - n) (suc m - suc n) (omega arith)

drop-append : (xs ys : List ℕ) (n : ℕ) → drop (length xs + n) (xs ++ ys) ≡ drop n ys
drop-append [] ys n = let same : 0 + n ≡ n = omega arith in rw same refl
drop-append (x ∷ xs) ys n =
    let same : length (x ∷ xs) + n ≡ suc (length xs + n) = omega arith in
    rw same (drop-append xs ys n)

pub take-Holds :
    (size n : ℕ) (xs bytes : List ℕ) → length xs ≡ n → Holds size xs bytes → take n bytes ≡ xs
take-Holds size n xs bytes e h = rw h.holds (take-append xs _ n e)

-- A text is written behind the one that is there.
pub copy_to-Holds :
    (size n : ℕ) (xs ys bytes : List ℕ)
    → length xs ≡ n
    → length xs + length ys ≤ size
    → Holds size xs bytes
    → Holds size (xs ++ ys) (copy_to n ys bytes)
unfolding copy_to
copy_to-Holds size n xs ys bytes e room h = record {
  fits = omega (arith, room, length-append xs ys);
  holds =
      let rest : drop (n + length ys) bytes ≡ replicate (size - length (xs ++ ys)) 0 =
        let there : n + length ys ≡ length xs + length ys = omega (arith, e) in
        rw (there, h.holds)
          (drop-append xs _ (length ys)
            ∙ drop-zeros (length ys) (size - length xs)
            ∙ zeros_same (size - length xs - length ys) (size - length (xs ++ ys))
                (omega (arith, length-append xs ys))) in
      rw (take-Holds size n xs bytes e h, rest) (sym (append_assoc xs ys _));
}

pub Holds-zeros : (size : ℕ) → Holds size [] (replicate size 0)
Holds-zeros size = record { fits = omega arith; holds = zeros_same size (size - 0) (omega arith) }

-- A buffer that is recapped has its text.
pub Holds-recapped :
    (size size' n : ℕ) (xs bytes : List ℕ)
    → length xs ≡ n
    → n ≤ size'
    → Holds size xs bytes
    → Holds size' xs (take n bytes ++ replicate (size' - n) 0)
Holds-recapped size size' n xs bytes e room h = record {
  fits = omega (arith, e);
  holds = rw (take-Holds size n xs bytes e h) (ap (λ k. xs ++ replicate (size' - k) 0) (sym e));
}

pub text-Stands : (s : Vstr) (xs : List ℕ) → Stands xs s → text s ≡ xs
unfolding text vstr_len vstr_data
text-Stands (small avail bytes) xs (within, counted, holds) = take-Holds _ _ xs bytes counted holds
text-Stands (large lg) xs h = take-Holds _ _ xs lg.bytes h.counted h.buffer
