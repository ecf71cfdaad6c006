-- ===== src/Clap/Reads.antt =====
-- src/clap.c: a command line of the arguments that the program takes is read as what it sets.
use lexidb.Base.{
  ℕ, ◌+◌, ◌≤◌, ◌≡◌, refl, ap, sym, ◌∙◌, Bool, true, false, List, [], ◌∷◌, ◌++◌, Option, none, some,
  length, arith, if◌then◌else◌, inl, inr, ◌⊎◌, some-injective,
}
use lexidb.Base.Int.{ℤ}
use lexidb.Clap.{
  Objectt, null_arg, int_arg, string_arg, Arg, Cla, ParseResult, done, is_minus_one, ht_result_code,
  is_help, is_version, text_keys, store_arg, take_arg, parse_args, parse_cmd_line_args, args_get,
  with_result,
}
use lexidb.Clap.Names.{Names, find-Names}
use lexidb.Clap.Table.{
  or_else, or_else-none, or_else_assoc, if_none, Ready, reads, try_insert-Ready,
}
use lexidb.Ht
use lexidb.Ht.{Ht, HtResult, ht_ok, ht_inv_key, ht_oom}
use lexidb.Keys.{same}
use lexidb.Memory.{Memory, CallocFits}
use lexidb.Object.{Object, int, string}
use lexidb.Vec.{Vec}

-- a word of the command line, the argument that it names, and the value behind it, where the argument
-- has one
pub record Setting : Type 0 where
  pub word : List ℕ
  pub arg : Arg
  pub text : List ℕ

abbrev pub words_of : Objectt → List ℕ → List ℕ → List (List ℕ)
words_of null_arg word text = word ∷ []
words_of type word text = word ∷ text ∷ []

abbrev pub command_line : List Setting → List (List ℕ)
command_line [] = []
command_line (s ∷ ss) = words_of s.arg.type s.word s.text ++ command_line ss

-- an argument of this type can be parsed
abbrev pub is_parsed : Objectt → Bool
is_parsed null_arg = true
is_parsed int_arg = true
is_parsed string_arg = true
is_parsed type = false

-- The word is the argument's, and is not taken for one of the two that ask for help or the version.
pub record IsSetting (args : Vec Arg) (s : Setting) : Type 0 where
  pub no_help : is_help s.word ≡ false
  pub no_version : is_version s.word ≡ false
  pub named : Names args s.word s.arg
  pub parsed : is_parsed s.arg.type ≡ true

abbrev pub AreSettings : Vec Arg → List Setting → Type 0
AreSettings args [] = Unit
AreSettings args (s ∷ ss) = IsSetting args s × AreSettings args ss

words_of-null :
    (type : Objectt) (word text : List ℕ) → type ≡ null_arg → words_of type word text ≡ word ∷ []
words_of-null type word text e = rw e refl

never_minus_one : (r : HtResult) → is_minus_one (ht_result_code r) ≡ false
never_minus_one ht_ok = refl
never_minus_one ht_inv_key = refl
never_minus_one ht_oom = refl

module _ {D : Type 0} (siphash : List ℕ → ℕ) (m : Memory) (atoll : List ℕ → ℤ) where
  abbrev value_of : Objectt → List ℕ → Option (Object D)
  value_of int_arg text = some (int (atoll text))
  value_of string_arg text = some (string text)
  value_of type text = none

  abbrev set_by : List ℕ → Setting → Option (Object D)
  set_by name s =
      if same (text_keys siphash) name s.arg.name then value_of s.arg.type s.text else none

  -- what the first setting of an argument with this name sets
  abbrev pub first_value : List ℕ → List Setting → Option (Object D)
  first_value name [] = none
  first_value name (s ∷ ss) = or_else (set_by name s) (first_value name ss)

  -- a table with room for more than `n` entries less
  -- the outcome of a loop that has read the settings: no more than the table has changed
  record ReadsOn (args : Vec Arg) (ss : List Setting) (c : Cla D) (r : ParseResult × Cla D)
      : Type 0 where
    ended : r.0 ≡ done
    same_flags :
        (r.1.help_requested ≡ c.help_requested)
        × (r.1.version_requested ≡ c.version_requested)
        × (r.1.has_error ≡ c.has_error)
    values :
        (q : List ℕ)
        → reads siphash m r.1.args q ≡ or_else (reads siphash m c.args q) (first_value q ss)

  abbrev Loop : Vec Arg → List Setting → Cla D → Type 0
  Loop args ss c = ReadsOn args ss c (parse_args siphash m atoll args (command_line ss) c)

  -- the round for an argument without a value
  parse_args-null :
      (args : Vec Arg) (s : Setting) (rest : List (List ℕ)) (c : Cla D)
      → IsSetting args s
      → s.arg.type ≡ null_arg
      → parse_args siphash m atoll args (s.word ∷ rest) c ≡ parse_args siphash m atoll args rest c
  unfolding parse_args take_arg
  parse_args-null args s [] c h e =
      let (i, there) = find-Names args s.word s.arg h.named in
      rw (h.no_help, h.no_version, there, e) refl
  parse_args-null args s (next ∷ rest) c h e =
      let (i, there) = find-Names args s.word s.arg h.named in
      rw (h.no_help, h.no_version, there, e) refl

  store_arg-try_insert :
      (c : Cla D) (word : List ℕ) (arg : Arg) (v : Object D) (next : Cla D → ParseResult × Cla D)
      → store_arg siphash m atoll c word arg v next
        ≡ next (record c { args = (Ht.try_insert (text_keys siphash) m c.args arg.name v).0 })
  unfolding store_arg
  store_arg-try_insert c word arg v next =
      rw (never_minus_one (Ht.try_insert (text_keys siphash) m c.args arg.name v).1) refl

  take_arg-value :
      (type : Objectt) (c : Cla D) (word text : List ℕ) (arg : Arg) (v : Object D)
      (at_next behind_next : Cla D → ParseResult × Cla D)
      → value_of type text ≡ some v
      → take_arg siphash m atoll c word (some text) arg type at_next behind_next
        ≡ behind_next
            (record c { args = (Ht.try_insert (text_keys siphash) m c.args arg.name v).0 })
  unfolding take_arg
  take_arg-value int_arg c word text arg v at_next behind_next e =
      rw (← some-injective _ _ e) (store_arg-try_insert c word arg (int (atoll text)) behind_next)
  take_arg-value string_arg c word text arg v at_next behind_next e =
      rw (← some-injective _ _ e) (store_arg-try_insert c word arg (string text) behind_next)
  take_arg-value type c word text arg v at_next behind_next e = absurd cc

  -- the round for an argument with a value
  parse_args-value :
      (args : Vec Arg) (s : Setting) (rest : List (List ℕ)) (c : Cla D) (v : Object D)
      → IsSetting args s
      → value_of s.arg.type s.text ≡ some v
      → parse_args siphash m atoll args (s.word ∷ s.text ∷ rest) c
        ≡ parse_args siphash m atoll args rest
            (record c { args = (Ht.try_insert (text_keys siphash) m c.args s.arg.name v).0 })
  unfolding parse_args
  parse_args-value args s rest c v h e =
      let (i, there) = find-Names args s.word s.arg h.named in
      rw (h.no_help, h.no_version, there) (take_arg-value s.arg.type c s.word s.text s.arg v _ _ e)

  ReadsOn-null :
      (args : Vec Arg) (s : Setting) (ss : List Setting) (c : Cla D)
      → IsSetting args s
      → s.arg.type ≡ null_arg
      → Loop args ss c
      → Loop args (s ∷ ss) c
  ReadsOn-null args s ss c h e rest =
      rw (words_of-null s.arg.type s.word s.text e, parse_args-null args s (command_line ss) c h e)
        (record {
          ended = rest.ended;
          same_flags = rest.same_flags;
          values = λ q.
              rest.values q
              ∙ ap (λ o. or_else (reads siphash m c.args q) (or_else o (first_value q ss)))
                  (sym (if_none (same (text_keys siphash) q s.arg.name)))
              ∙ ap
                  (λ t. or_else (reads siphash m c.args q) (
                    or_else
                      (if same (text_keys siphash) q s.arg.name then value_of t s.text else none)
                      (first_value q ss)))
                  (sym e);
        })

  words_of-value :
      (type : Objectt) (word text : List ℕ) (v : Object D)
      → value_of type text ≡ some v
      → words_of type word text ≡ word ∷ text ∷ []
  words_of-value int_arg word text v e = refl
  words_of-value string_arg word text v e = refl
  words_of-value type word text v e = absurd cc

  ReadsOn-value :
      (args : Vec Arg) (s : Setting) (ss : List Setting) (c : Cla D) (v : Object D)
      → IsSetting args s
      → value_of s.arg.type s.text ≡ some v
      → let r = (Ht.try_insert (text_keys siphash) m c.args s.arg.name v).0 in
        ((q : List ℕ)
          → reads siphash m r q
            ≡ or_else
                (reads siphash m c.args q)
                (if same (text_keys siphash) q s.arg.name then some v else none))
        → Loop args ss (record c { args = r })
        → Loop args (s ∷ ss) c
  ReadsOn-value args s ss c v h e grown rest =
      rw
        (
          words_of-value s.arg.type s.word s.text v e,
          parse_args-value args s (command_line ss) c v h e,
        )
        (record {
          ended = rest.ended;
          same_flags = rest.same_flags;
          values = λ q.
              rest.values q
              ∙ ap (λ o. or_else o (first_value q ss)) (grown q)
              ∙ or_else_assoc (reads siphash m c.args q)
                  (if same (text_keys siphash) q s.arg.name then some v else none)
                  (first_value q ss)
              ∙ ap
                  (λ o. or_else (reads siphash m c.args q) (
                    or_else (if same (text_keys siphash) q s.arg.name then o else none)
                      (first_value q ss)))
                  (sym e);
        })

  is_parsed-sets :
      (type : Objectt) (text : List ℕ)
      → is_parsed type ≡ true
      → (type ≡ null_arg) ⊎ ((v : Object D) × (value_of type text ≡ some v))
  is_parsed-sets null_arg text h = inl refl
  is_parsed-sets int_arg text h = inr (int (atoll text), refl)
  is_parsed-sets string_arg text h = inr (string text, refl)
  is_parsed-sets type text h = absurd cc

  parse_args-ReadsOn :
      (args : Vec Arg) (n : ℕ) (ss : List Setting) (c : Cla D)
      → CallocFits m
      → AreSettings args ss
      → Ready siphash m n c.args
      → n + length ss ≤ 32
      → Loop args ss c
  parse_args-ReadsOn args n [] c fits all ready below = record {
    ended = unfold parse_args in refl;
    same_flags = unfold parse_args in (refl, refl, refl);
    values = unfold parse_args in λ q. sym (or_else-none (reads siphash m c.args q));
  }
  parse_args-ReadsOn args n (s ∷ ss) c fits (h, all) ready below =
      elim (is_parsed-sets s.arg.type s.text h.parsed) [
        | inl e ↦
            ReadsOn-null args s ss c h e
              (parse_args-ReadsOn args n ss c fits all ready (omega arith))
        | inr (v, e) ↦
            let (ready', grown) =
              try_insert-Ready siphash m n c.args s.arg.name v fits ready (omega arith) in
            ReadsOn-value args s ss c v h e grown
              (parse_args-ReadsOn args (n + 1) ss _ fits all ready' (omega arith))
      ]

  -- what a program gets from a command line of settings
  pub record Reads (ss : List Setting) (c : Cla D) : Type 0 where
    pub flags : (c.help_requested ≡ false) × (c.version_requested ≡ false) × (c.has_error ≡ false)
    pub gets : (name : List ℕ) → args_get siphash m atoll c name ≡ first_value name ss

  ReadsOn-Reads :
      (args : Vec Arg) (ss : List Setting) (c : Cla D) (r : ParseResult × Cla D)
      → ReadsOn args ss c r
      → (c.help_requested ≡ false) × (c.version_requested ≡ false) × (c.has_error ≡ false)
      → ((q : List ℕ) → reads siphash m c.args q ≡ none)
      → Reads ss (with_result siphash m atoll r)
  unfolding args_get
  ReadsOn-Reads args ss c (done, e) h (help, version, error) empty = record {
    flags = (h.same_flags.0 ∙ help, h.same_flags.1 ∙ version, h.same_flags.2 ∙ error);
    gets = λ q. h.values q ∙ ap (λ o. or_else o (first_value q ss)) (empty q);
  }
  ReadsOn-Reads args ss c (r, e) h flags empty = absurd (let clash = h.ended in cc)

  -- With a calloc that gives no array of 2^64 bytes or more, a command line of at most 32 settings,
  -- each the long form of an argument, or a short form that is not as long as the long one, without
  -- a byte 0 and no form of an argument before it, without a value, or for an integer's or a
  -- string's argument with the value behind it, and none starting like a request for help or the
  -- version, is read without an error; each name then has the value that the first setting of its
  -- argument gives, and the other names have none.
  pub parse_cmd_line_args-Reads :
      (args : Vec Arg) (ss : List Setting)
      → CallocFits m
      → AreSettings args ss
      → length ss ≤ 32
      → Reads ss (parse_cmd_line_args siphash m atoll args (command_line ss))
  unfolding parse_cmd_line_args Ht.new
  parse_cmd_line_args-Reads args ss fits all few =
      let (valid, empty) = Ht.Laws.new-IsValid {V = Object D} (text_keys siphash) in
      ReadsOn-Reads args ss _ _
        (parse_args-ReadsOn args 0 ss _ fits all
          (record { valid = valid; cap = refl; few = omega arith }) (omega arith))
        (refl, refl, refl) empty
