-- ===== src/Clap/Names.antt =====
-- src/clap.c (find_arg_fn): the argument that a word of the command line names.
use lexidb.Auth.{strncmp_zero, strncmp_zero_refl}
use lexidb.Base.{
  not, ◌&&◌, ℕ, zero, suc, ◌+◌, ◌≡◌, ◌≢◌, refl, ap, ◌∙◌, Bool, true, false, List, [], ◌∷◌, some,
  length, take, get_elem?, some-injective, ◌==◌, ==_iff, ◌⊎◌, inl, inr, All, arith, Bool-cases,
}
use lexidb.Clap.{Arg, find_arg_fn}
use lexidb.Vec.{Vec, find, find_from}
use lexidb.Vec.Laws.{items}

-- the word is the argument's long form, or its short form where that is not as long as the long one
abbrev pub Spells : List ℕ → Arg → Type 0
Spells word arg =
    (arg.long_arg ≡ word) ⊎ ((arg.short_arg ≡ word) × (length arg.long_arg ≢ length word))

-- it is neither form of these arguments
abbrev pub AreOthers : List ℕ → List Arg → Type 0
AreOthers word args = All (λ a. (a.long_arg ≢ word) × (a.short_arg ≢ word)) args

-- The word, which like all words of the command line has no byte 0, is a form of an argument in the
-- vector, and of none before it.
pub record Names (args : Vec Arg) (word : List ℕ) (arg : Arg) : Type 0 where
  pub plain : All (λ c. c ≢ 0) word
  pub index : ℕ
  pub here : get_elem? (items args) index ≡ some arg
  pub spells : Spells word arg
  pub first : AreOthers word (take index (items args))

-- a word that is written out has no byte 0
abbrev pub has_no_zero : List ℕ → Bool
has_no_zero [] = true
has_no_zero (c ∷ cs) = not (c == 0) && has_no_zero cs

pub All-has_no_zero : (cs : List ℕ) → has_no_zero cs ≡ true → All (λ c. c ≢ 0) cs
All-has_no_zero [] h = tt
All-has_no_zero (c ∷ cs) h = elim (Bool-cases (c == 0)) [
  | inl zero_byte ↦ let clash : false ≡ true = rw zero_byte at h in absurd cc
  | inr other ↦ (λ e. ground (arith, other, e), All-has_no_zero cs (rw other at h))
]

find_arg_fn-Spells : (word : List ℕ) (arg : Arg) → Spells word arg → find_arg_fn word arg ≡ true
unfolding find_arg_fn
find_arg_fn-Spells word arg (inl long) =
    let same : length arg.long_arg == length word ≡ true = ground (arith, ap length long) in
    rw (same, long) (strncmp_zero_refl word)
find_arg_fn-Spells word arg (inr (short, other)) =
    let no_long : length arg.long_arg == length word ≡ false = ground (arith, other) in
    let same : length arg.short_arg == length word ≡ true = ground (arith, ap length short) in
    rw (no_long, same, short) (strncmp_zero_refl word)

strncmp_zero-plain :
    (xs ys : List ℕ)
    → length xs ≡ length ys
    → All (λ c. c ≢ 0) ys
    → xs ≢ ys
    → strncmp_zero xs ys ≡ false
unfolding strncmp_zero
strncmp_zero-plain [] [] e plain other = absurd (other refl)
strncmp_zero-plain [] (y ∷ ys) e plain other = absurd (omega (arith, e))
strncmp_zero-plain (x ∷ xs) [] e plain other = absurd (omega (arith, e))
strncmp_zero-plain (x ∷ xs) (y ∷ ys) e plain other = elim (Bool-cases (x == y)) [
  | inr differs ↦ rw differs refl
  | inl same ↦
      let first : x ≡ y = (==_iff x y).0 same in
      let more : x == 0 ≡ false = ground (arith, first, plain.0) in
      rw (same, more)
        (strncmp_zero-plain xs ys (omega (arith, e)) plain.1
          (λ rest. other (ap (λ c. c ∷ xs) first ∙ ap (λ zs. y ∷ zs) rest)))
]

find_arg_fn-other :
    (word : List ℕ) (arg : Arg)
    → All (λ c. c ≢ 0) word
    → arg.long_arg ≢ word
    → arg.short_arg ≢ word
    → find_arg_fn word arg ≡ false
unfolding find_arg_fn
find_arg_fn-other word arg plain long short =
    elim (Bool-cases (length arg.long_arg == length word)) [
      | inl same ↦ rw same (strncmp_zero-plain arg.long_arg word ((==_iff _ _).0 same) plain long)
      | inr other ↦ elim (Bool-cases (length arg.short_arg == length word)) [
        | inl same ↦
            rw (other, same)
              (strncmp_zero-plain arg.short_arg word ((==_iff _ _).0 same) plain short)
        | inr neither ↦ rw (other, neither) refl
      ]
    ]

find_from-first :
    (word : List ℕ) (arg : Arg) (n k i : ℕ) (slots : List Arg)
    → All (λ c. c ≢ 0) word
    → get_elem? (take n slots) i ≡ some arg
    → Spells word arg
    → AreOthers word (take i (take n slots))
    → find_from (find_arg_fn word) n slots k ≡ some (k + i, arg)
unfolding find_from
find_from-first word arg zero k i slots plain here spells first = absurd cc
find_from-first word arg (suc n) k i [] plain here spells first = absurd cc
find_from-first word arg (suc n) k zero (a ∷ slots) plain here spells first =
    let same : a ≡ arg = some-injective _ _ here in
    let at_k : k + 0 ≡ k = omega arith in rw (same, find_arg_fn-Spells word arg spells, at_k) refl
find_from-first word arg (suc n) k (suc i) (a ∷ slots) plain here spells first =
    let other = find_arg_fn-other word a plain first.0.0 first.0.1 in
    let next : k + 1 + i ≡ k + suc i = omega arith in
    rw (other, find_from-first word arg n (k + 1) i slots plain here spells first.1, next) refl

pub find-Names :
    (args : Vec Arg) (word : List ℕ) (arg : Arg)
    → Names args word arg
    → (i : ℕ) × (find (find_arg_fn word) args ≡ some (i, arg))
unfolding find
find-Names args word arg h =
    (_, find_from-first word arg args.len 0 h.index args.slots h.plain h.here h.spells h.first)
