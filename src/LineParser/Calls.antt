-- ===== src/LineParser/Calls.antt =====
-- src/line_parser.c, src/hilexi.c: what a user types, and the calls of the client library.
use lexidb.Base.{
  ℕ, ◌<◌, ◌^◌, ◌≡◌, refl, sym, ◌∙◌, ap, Bool, true, false, ◌&&◌, List, [], ◌∷◌, ◌++◌, codes, ltb,
  All, arith, Bool-cases, inl, inr, append-nil,
}
use lexidb.Base.Decimal.{decimal, decimal_ℤ}
use lexidb.Base.Int.{pos, negsuc}
use lexidb.Chars.{skip_spaces}
use lexidb.Chars.Laws.{NoSpace, skip_spaces-none, skip_spaces-one, span-text}
use lexidb.Cmd.{
  Cmdt, Cmd, get, del, push, enque, zset, zhas, zdel, select, set as set_type, one, two,
}
use lexidb.Hilexi.{as_int64}
use lexidb.Hilexi.Calls.{
  Call, to_authenticate, to_ping, to_info, to_keys, to_pop, to_deque, to_select, to_set, to_get,
  to_del, to_push, to_enque, to_zset, to_zhas, to_zdel, command,
}
use lexidb.Keys.{memcmp_zero}
use lexidb.LineParser.{
  in_word, lookup_cmd, parse_cmd_type, object_at, parse_object, one_object, select_object,
  cmd_of_type, parse_cmd, parse_line,
}
use lexidb.LineParser.Typed.{IsTyped, typed, object_at-typed, decimal_head}
use lexidb.Object.{Object, null, int, double, bool, string, array, ht}
use lexidb.Parser.Commands.{lookup_in, is_name}
use lexidb.Parser.Run.{Libc}
use lexidb.Parser.Scan.{Parser, at, parser_new, read_char, is_digit}
use lexidb.Protocol.Values.{reread}

all_of : (ℕ → Bool) → List ℕ → Bool
all_of test [] = true
all_of test (c ∷ s) = test c && all_of test s

All-all_of : (test : ℕ → Bool) (s : List ℕ) → all_of test s ≡ true → All (λ c. test c ≡ true) s
unfolding all_of
All-all_of test [] h = tt
All-all_of test (c ∷ s) h = elim (Bool-cases (test c)) [
  | inl here ↦ (here, All-all_of test s (rw here at h))
  | inr other ↦ absurd (ground (arith, h, other))
]

parse_cmd_type-name :
    (name rest : List ℕ)
    → all_of in_word name ≡ true
    → NoSpace (name ++ rest)
    → in_word (at rest).ch ≡ false
    → parse_cmd_type (at (name ++ rest)) ≡ (lookup_cmd name, at rest)
unfolding parse_cmd_type
parse_cmd_type-name name rest word text ends =
    rw
      (
        skip_spaces-none (name ++ rest) text,
        span-text in_word refl name rest (All-all_of in_word name word) ends,
      )
      refl

module _ {D : Type 0} where
  -- the calls that a user can type
  abbrev pub IsTypedCall : Call D → Type 0
  IsTypedCall (to_authenticate u p) = ⊥
  IsTypedCall (to_select n) = n < 2 ^ 63
  IsTypedCall (to_set k v) = IsTyped k × IsTyped v
  IsTypedCall (to_get o) = IsTyped o
  IsTypedCall (to_del o) = IsTyped o
  IsTypedCall (to_push o) = IsTyped o
  IsTypedCall (to_enque o) = IsTyped o
  IsTypedCall (to_zset o) = IsTyped o
  IsTypedCall (to_zhas o) = IsTyped o
  IsTypedCall (to_zdel o) = IsTyped o
  IsTypedCall _ = Unit

  abbrev pub typed_line : Call D → List ℕ
  typed_line (to_authenticate u p) = []
  typed_line to_ping = codes "ping"
  typed_line to_info = codes "info"
  typed_line to_keys = codes "keys"
  typed_line to_pop = codes "pop"
  typed_line to_deque = codes "deque"
  typed_line (to_select n) = codes "select" ++ b' ' ∷ decimal n
  typed_line (to_set k v) = codes "set" ++ b' ' ∷ (typed k ++ b' ' ∷ typed v)
  typed_line (to_get o) = codes "get" ++ b' ' ∷ typed o
  typed_line (to_del o) = codes "del" ++ b' ' ∷ typed o
  typed_line (to_push o) = codes "push" ++ b' ' ∷ typed o
  typed_line (to_enque o) = codes "enque" ++ b' ' ∷ typed o
  typed_line (to_zset o) = codes "zset" ++ b' ' ∷ typed o
  typed_line (to_zhas o) = codes "zhas" ++ b' ' ∷ typed o
  typed_line (to_zdel o) = codes "zdel" ++ b' ' ∷ typed o

  NoSpace-typed : (o : Object D) (xs : List ℕ) → IsTyped o → NoSpace (typed o ++ xs)
  unfolding decimal_ℤ
  NoSpace-typed (string s) xs h = refl
  NoSpace-typed (int (pos n)) xs h = let digit = decimal_head n xs in ground (arith, digit)
  NoSpace-typed (int (negsuc n)) xs h = refl
  NoSpace-typed null xs h = elim h [ ]
  NoSpace-typed (double d) xs h = elim h [ ]
  NoSpace-typed (bool b) xs h = elim h [ ]
  NoSpace-typed (array o) xs h = elim h [ ]
  NoSpace-typed (ht ps) xs h = elim h [ ]

  -- an object behind one space or none
  parse_object-typed :
      (o : Object D) (xs : List ℕ)
      → IsTyped o
      → is_digit (at xs).ch ≡ false
      → parse_object (at (typed o ++ xs)) ≡ (o, at xs)
  unfolding parse_object
  parse_object-typed o xs h g =
      ap object_at (skip_spaces-none (typed o ++ xs) (NoSpace-typed o xs h))
      ∙ object_at-typed o xs h g

  parse_object-spaced : (o : Object D) → IsTyped o → parse_object (at (b' ' ∷ typed o)) ≡ (o, at [])
  unfolding parse_object
  parse_object-spaced o h =
      ap (λ xs. parse_object (at (b' ' ∷ xs))) (sym (append-nil (typed o)))
      ∙ ap object_at (skip_spaces-one (typed o ++ []) (NoSpace-typed o [] h))
      ∙ object_at-typed o [] h refl

  parse_line-name :
      (name rest : List ℕ)
      → all_of in_word name ≡ true
      → NoSpace (name ++ rest)
      → in_word (at rest).ch ≡ false
      → parse_line {D = D} (name ++ rest) ≡ cmd_of_type (lookup_cmd name) (skip_spaces (at rest))
  unfolding parse_line parse_cmd parser_new read_char
  parse_line-name name rest word text ends =
      ap (λ r. cmd_of_type r.0 (skip_spaces r.1)) (parse_cmd_type-name name rest word text ends)

  parse_object-alone :
      (o : Object D) → IsTyped o → parse_object (skip_spaces (at (b' ' ∷ typed o))) ≡ (o, at [])
  parse_object-alone o h =
      ap (λ xs. parse_object (skip_spaces (at (b' ' ∷ xs)))) (sym (append-nil (typed o)))
      ∙ ap parse_object (skip_spaces-one (typed o ++ []) (NoSpace-typed o [] h))
      ∙ parse_object-typed o [] h refl

  -- a command of one object
  parse_line-one :
      (name : List ℕ) (type : Cmdt) (o : Object D)
      → all_of in_word name ≡ true
      → NoSpace (name ++ b' ' ∷ typed o)
      → ((p : Parser) → cmd_of_type {D = D} (lookup_cmd name) p ≡ one_object type p)
      → IsTyped o
      → parse_line (name ++ b' ' ∷ typed o) ≡ record { type = type; args = one o }
  unfolding one_object
  parse_line-one name type o word text of_one h =
      parse_line-name name (b' ' ∷ typed o) word text refl
      ∙ of_one _
      ∙ ap (λ r. record { type = type; args = one r.0 }) (parse_object-alone o h)

  set_of : Parser → Cmd D
  set_of p = record {
    type = set_type;
    args = two (parse_object {D = D} p).0 (parse_object {D = D} (parse_object {D = D} p).1).0;
  }

  parse_line-set :
      (k v : Object D)
      → IsTyped k
      → IsTyped v
      → parse_line (codes "set" ++ b' ' ∷ (typed k ++ b' ' ∷ typed v))
        ≡ record { type = set_type; args = two k v }
  unfolding set_of cmd_of_type lookup_cmd lookup_in is_name memcmp_zero all_of
  parse_line-set k v h g =
      parse_line-name (codes "set") (b' ' ∷ (typed k ++ b' ' ∷ typed v)) refl refl refl
      ∙ ap set_of (skip_spaces-one (typed k ++ b' ' ∷ typed v) (NoSpace-typed k (b' ' ∷ typed v) h))
      ∙ ap (λ r. record { type = set_type; args = two r.0 (parse_object {D = D} r.1).0 })
          (parse_object-typed k (b' ' ∷ typed v) h refl)
      ∙ ap (λ r. record { type = set_type; args = two k r.0 }) (parse_object-spaced v g)

  parse_line-plain :
      (name : List ℕ) (c : Cmd D)
      → all_of in_word name ≡ true
      → NoSpace (name ++ [])
      → ((p : Parser) → cmd_of_type (lookup_cmd name) p ≡ c)
      → parse_line name ≡ c
  parse_line-plain name c word text plain =
      ap parse_line (sym (append-nil name)) ∙ parse_line-name name [] word text refl ∙ plain _

  pub reread-typed : (libc : Libc D) (o : Object D) → IsTyped o → reread libc o ≡ o
  unfolding reread
  reread-typed libc (string s) h = refl
  reread-typed libc (int (pos n)) h = refl
  reread-typed libc (int (negsuc n)) h = refl
  reread-typed libc null h = elim h [ ]
  reread-typed libc (double d) h = elim h [ ]
  reread-typed libc (bool b) h = elim h [ ]
  reread-typed libc (array o) h = elim h [ ]
  reread-typed libc (ht ps) h = elim h [ ]

  -- a typed command of one object, as the server parses it
  parse_line-command :
      (libc : Libc D) (name : List ℕ) (type : Cmdt) (o : Object D)
      → all_of in_word name ≡ true
      → NoSpace (name ++ b' ' ∷ typed o)
      → ((p : Parser) → cmd_of_type {D = D} (lookup_cmd name) p ≡ one_object type p)
      → IsTyped o
      → parse_line (name ++ b' ' ∷ typed o) ≡ record { type = type; args = one (reread libc o) }
  parse_line-command libc name type o word text of_one h =
      parse_line-one name type o word text of_one h
      ∙ ap (λ q. record { type = type; args = one q }) (sym (reread-typed libc o h))

  -- A line that names a command in small letters and its objects, each a string between quotation
  -- marks in which a quotation mark is typed behind a backslash and there is no other backslash and
  -- no byte 0, or a number of 64 bits other than the least, is parsed as the command that the
  -- server makes of the call of the client library.
  pub parse_line-typed_line :
      (libc : Libc D) (call : Call D)
      → IsTypedCall call
      → parse_line (typed_line call) ≡ command libc call
  unfolding cmd_of_type lookup_cmd lookup_in is_name memcmp_zero all_of select_object as_int64
      decimal_ℤ
  parse_line-typed_line libc (to_authenticate u p) h = elim h [ ]
  parse_line-typed_line libc to_ping h = parse_line-plain (codes "ping") _ refl refl (λ p. refl)
  parse_line-typed_line libc to_info h = parse_line-plain (codes "info") _ refl refl (λ p. refl)
  parse_line-typed_line libc to_keys h = parse_line-plain (codes "keys") _ refl refl (λ p. refl)
  parse_line-typed_line libc to_pop h = parse_line-plain (codes "pop") _ refl refl (λ p. refl)
  parse_line-typed_line libc to_deque h = parse_line-plain (codes "deque") _ refl refl (λ p. refl)
  parse_line-typed_line libc (to_set k v) h =
      parse_line-set k v h.0 h.1
      ∙ ap (λ q. record { type = set_type; args = two q v }) (sym (reread-typed libc k h.0))
      ∙ ap (λ q. record { type = set_type; args = two (reread libc k) q })
          (sym (reread-typed libc v h.1))
  parse_line-typed_line libc (to_get o) h =
      parse_line-command libc (codes "get") get o refl refl (λ p. refl) h
  parse_line-typed_line libc (to_del o) h =
      parse_line-command libc (codes "del") del o refl refl (λ p. refl) h
  parse_line-typed_line libc (to_push o) h =
      parse_line-command libc (codes "push") push o refl refl (λ p. refl) h
  parse_line-typed_line libc (to_enque o) h =
      parse_line-command libc (codes "enque") enque o refl refl (λ p. refl) h
  parse_line-typed_line libc (to_zset o) h =
      parse_line-command libc (codes "zset") zset o refl refl (λ p. refl) h
  parse_line-typed_line libc (to_zhas o) h =
      parse_line-command libc (codes "zhas") zhas o refl refl (λ p. refl) h
  parse_line-typed_line libc (to_zdel o) h =
      parse_line-command libc (codes "zdel") zdel o refl refl (λ p. refl) h
  parse_line-typed_line libc (to_select n) h =
      let few : ltb n (2 ^ 63) ≡ true = ground arith in
      let value : pos n ≡ as_int64 n = rw few refl in
      parse_line-name (codes "select") (b' ' ∷ decimal n) refl refl refl
      ∙ ap (λ r. select_object r.0) (parse_object-alone (int (pos n)) h)
      ∙ ap (λ z. record { type = select; args = one (int z) }) value
