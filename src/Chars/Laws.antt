-- ===== src/Chars/Laws.antt =====
-- src/config_parser.c, src/line_parser.c: what the loops on characters pass, and what they leave.
use lexidb.Base.{
  ℕ, zero, suc, ◌+◌, ◌≤◌, ◌<◌, ◌≡◌, refl, Bool, true, false, List, [], ◌∷◌, ◌++◌, length, arith,
  Bool-cases, inl, inr, All, if◌then◌else◌, ◌==◌,
}
use lexidb.Chars.{is_space, skip_spaces, span_loop, span}
use lexidb.Parser.Scan.{Parser, at}

-- what is left to read: none at a character 0, where every loop stops
abbrev pub left : Parser → ℕ
left p = if p.ch == 0 then 0 else length p.rest + 1

pub left-at : (xs : List ℕ) → left (at xs) ≤ length xs
left-at [] = omega arith
left-at (x ∷ xs) = ground arith

module _ (test : ℕ → Bool) (stops : test 0 ≡ false) where
  span_loop-stop :
      (c : ℕ) (xs : List ℕ)
      → test c ≡ false
      → span_loop test c xs ≡ ([], record { ch = c; rest = xs })
  unfolding span_loop
  span_loop-stop c [] h = rw h refl
  span_loop-stop c (x ∷ xs) h = rw h refl

  span-stop : (xs : List ℕ) → test (at xs).ch ≡ false → span test (at xs) ≡ ([], at xs)
  unfolding span
  span-stop [] h = span_loop-stop 0 [] h
  span-stop (x ∷ xs) h = span_loop-stop x xs h

  -- a loop passes a text of which the test holds, up to a character of which it does not
  pub span-text :
      (s xs : List ℕ)
      → All (λ c. test c ≡ true) s
      → test (at xs).ch ≡ false
      → span test (at (s ++ xs)) ≡ (s, at xs)
  unfolding span span_loop
  span-text [] xs h e = span-stop xs e
  span-text (c ∷ []) [] h e = rw h.0 refl
  span-text (c ∷ []) (x ∷ xs) h e = rw (h.0, span_loop-stop x xs e) refl
  span-text (c ∷ d ∷ s) xs h e = rw (h.0, span-text (d ∷ s) xs h.1 e) refl

  nonzero : (c : ℕ) → test c ≡ true → c == 0 ≡ false
  nonzero zero h = cc
  nonzero (suc c) h = ground arith

  left-here :
      (c : ℕ) (xs : List ℕ) → test c ≡ true → left (record { ch = c; rest = xs }) ≡ length xs + 1
  left-here c xs h = rw (nonzero c h) refl

  -- what a loop leaves of the text in front of it
  abbrev pub Passes : Parser → List ℕ × Parser → Type 0
  Passes p r =
      (left r.1 ≤ left p)
      × (test p.ch ≡ true → left r.1 < left p)
      × (test r.1.ch ≡ false)
      × (test p.ch ≡ false → r ≡ ([], p))

  span_loop-Passes :
      (c : ℕ) (xs : List ℕ) → Passes (record { ch = c; rest = xs }) (span_loop test c xs)
  unfolding span_loop
  span_loop-Passes c [] = elim (Bool-cases (test c)) [
    | inr miss ↦ rw (span_loop-stop c [] miss) (omega arith, λ h. cc, miss, λ _. refl)
    | inl h ↦ rw (h, left-here c [] h) (omega arith, λ _. omega arith, stops, λ e. cc)
  ]
  span_loop-Passes c (x ∷ xs) =
      let (fewer, _, stopped, _) = span_loop-Passes x xs in
      let near : left (record { ch = x; rest = xs }) ≤ length xs + 1 =
        omega (arith, left-at (x ∷ xs)) in
      elim (Bool-cases (test c)) [
        | inr miss ↦ rw (span_loop-stop c (x ∷ xs) miss) (omega arith, λ h. cc, miss, λ _. refl)
        | inl h ↦
            rw (h, left-here c (x ∷ xs) h)
              (omega (arith, fewer, near), λ _. omega (arith, fewer, near), stopped, λ e. cc)
      ]

  pub span-Passes : (p : Parser) → Passes p (span test p)
  unfolding span
  span-Passes p = span_loop-Passes p.ch p.rest

-- the first character of a text is no space
abbrev pub NoSpace : List ℕ → Type 0
NoSpace xs = is_space (at xs).ch ≡ false

pub skip_spaces-none : (xs : List ℕ) → NoSpace xs → skip_spaces (at xs) ≡ at xs
unfolding skip_spaces
skip_spaces-none xs h = rw (skip_spaces, span-text is_space refl [] xs tt h) refl

pub skip_spaces-one : (xs : List ℕ) → NoSpace xs → skip_spaces (at (b' ' ∷ xs)) ≡ at xs
unfolding skip_spaces
skip_spaces-one xs h = rw (span-text is_space refl (b' ' ∷ []) xs (refl, tt) h) refl
