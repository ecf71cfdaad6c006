-- ===== src/ConfigParser/Bounds.antt =====
-- src/config_parser.c: the numbers of a configuration.
use lexidb.Base.{
  refl, ap, sym, ◌∙◌, ◌++◌, take, length-append, ℕ, zero, suc, ◌+◌, ◌<◌, ◌^◌, ◌≡◌, subst, Bool,
  List, [], ◌∷◌, length, arith, ◌==◌, Option, some, none, if◌then◌else◌, Bool-cases, inl, inr, ltb,
}
use lexidb.Chars.{skip_spaces}
use lexidb.ConfigParser.{
  LineDataType, address, port, user, loglevel, databases, LineData, address_line, loglevel_line,
  port_line, databases_line, user_line, Config, Result, ok, err, ends_line,
  skip_empty_lines_and_comments, parse_line_data, parse_line_data_type, parse_port,
  parse_num_databases, parse_user, parse_line, line_of, line_of?, store_line, and_skipped, and_line,
  and_stored, parse_loop, parse_config, config_new, push_or_keep, no_user,
}
use lexidb.Parser.Scan.{Parser, parser_new, len_loop, parse_len, is_digit}
use lexidb.Server.{User}
use lexidb.Vec.{Vec, push}
use lexidb.Vec.Correct.{Pushed, push-Pushed}
use lexidb.Vec.Laws.{IsValid, AllocFits, items}

len_loop_bound : (c : ℕ) (xs : List ℕ) (res : ℕ) → res < 2 ^ 64 → (len_loop res c xs).0 < 2 ^ 64
unfolding len_loop
len_loop_bound c [] res h = elim (Bool-cases (is_digit c)) [
  | inl d ↦ rw d (omega arith)
  | inr d ↦ rw d h
]
len_loop_bound c (x ∷ xs) res h = elim (Bool-cases (is_digit c)) [
  | inl d ↦ rw d (len_loop_bound x xs _ (omega arith))
  | inr d ↦ rw d h
]

parse_len_bound : (p : Parser) → (parse_len p).0 < 2 ^ 64
unfolding parse_len
parse_len_bound p = len_loop_bound p.ch p.rest 0 (omega arith)

abbrev Gives {ℓ} : {A : Type 0} → (A → Type ℓ) → Result A → Type ℓ
Gives P (ok a) = P a
Gives P (err e) = Unit

parse_port_bound : (p : Parser) → Gives (λ n. n < 2 ^ 16) (parse_port p).0
unfolding parse_port
parse_port_bound p = elim (Bool-cases (ends_line (skip_spaces (parse_len p).1).ch)) [
  | inr more ↦ rw more tt
  | inl whole ↦ elim (Bool-cases (ltb 65535 (parse_len p).0)) [
    | inl large ↦ rw (whole, large) tt
    | inr small ↦ rw (whole, small) (ground arith)
  ]
]

parse_num_databases_bound : (p : Parser) → Gives (λ n. n < 2 ^ 64) (parse_num_databases p).0
unfolding parse_num_databases
parse_num_databases_bound p = elim (Bool-cases (ends_line (skip_spaces (parse_len p).1).ch)) [
  | inr more ↦ rw more tt
  | inl whole ↦ rw whole (parse_len_bound p)
]

abbrev IsBoundedLine : LineData → Type 0
IsBoundedLine (port_line n) = n < 2 ^ 16
IsBoundedLine (databases_line n) = n < 2 ^ 64
IsBoundedLine _ = Unit

abbrev GivesLine : Option (Result LineData × Parser) → Type 0
GivesLine none = Unit
GivesLine (some (r, p)) = Gives IsBoundedLine r

GivesLine-number :
    (make : ℕ → LineData) (r : Result ℕ × Parser) (P : ℕ → Type 0)
    → ((n : ℕ) → P n → IsBoundedLine (make n))
    → Gives P r.0
    → GivesLine (some (line_of make r))
GivesLine-number make (ok n, p) P within h = within n h
GivesLine-number make (err e, p) P within h = tt

GivesLine-user : (r : Option (Result User × Parser)) → GivesLine (line_of? (λ u. user_line u) r)
GivesLine-user none = tt
GivesLine-user (some (ok u, p)) = tt
GivesLine-user (some (err e, p)) = tt

parse_line_data_bound :
    (fuel : ℕ) (r : Result LineDataType × Parser) → GivesLine (parse_line_data fuel r)
unfolding parse_line_data
parse_line_data_bound fuel (err e, p) = tt
parse_line_data_bound fuel (ok address, p) = tt
parse_line_data_bound fuel (ok loglevel, p) = tt
parse_line_data_bound fuel (ok port, p) =
    GivesLine-number _ (parse_port (skip_spaces p)) (λ n. n < 2 ^ 16) (λ n h. h)
      (parse_port_bound (skip_spaces p))
parse_line_data_bound fuel (ok databases, p) =
    GivesLine-number _ (parse_num_databases (skip_spaces p)) (λ n. n < 2 ^ 64) (λ n h. h)
      (parse_num_databases_bound (skip_spaces p))
parse_line_data_bound fuel (ok user, p) = GivesLine-user (parse_user fuel (skip_spaces p))

pub record IsBounded (c : Config) : Type 0 where
  pub port : c.port < 2 ^ 16
  pub databases : c.databases < 2 ^ 64

-- `Kept` is a property of the vector of users that pushing keeps.
module _ (realloc : ℕ → Bool) (Kept : Vec User → Type 0)
    (push-Kept : (v : Vec User) (u : User)
      → Kept v
      → Kept (push_or_keep v (push no_user realloc v u))) where
  abbrev Inv : Config → Type 0
  Inv c = IsBounded c × Kept c.users

  store_line_bound :
      (c : Config) (d : LineData) → Inv c → IsBoundedLine d → Gives Inv (store_line realloc c d)
  unfolding store_line
  store_line_bound c (address_line s) h b = elim (Bool-cases (length c.address == 0)) [
    | inl free ↦ rw free (record { port = h.0.port; databases = h.0.databases }, h.1)
    | inr taken ↦ rw taken tt
  ]
  store_line_bound c (loglevel_line s) h b = elim (Bool-cases (length c.loglevel == 0)) [
    | inl free ↦ rw free (record { port = h.0.port; databases = h.0.databases }, h.1)
    | inr taken ↦ rw taken tt
  ]
  store_line_bound c (port_line n) h b = elim (Bool-cases (c.port == 0)) [
    | inl free ↦ rw free (record { port = b; databases = h.0.databases }, h.1)
    | inr taken ↦ rw taken tt
  ]
  store_line_bound c (databases_line n) h b = elim (Bool-cases (c.databases == 0)) [
    | inl free ↦ rw free (record { port = h.0.port; databases = b }, h.1)
    | inr taken ↦ rw taken tt
  ]
  store_line_bound c (user_line u) h b =
      (record { port = h.0.port; databases = h.0.databases }, push-Kept c.users u h.1)

  abbrev GivesConfig : Option (Result Config) → Type 0
  GivesConfig none = Unit
  GivesConfig (some r) = Gives Inv r

  GivesConfig-stored :
      (r : Result Config) (next : Config → Option (Result Config))
      → Gives Inv r
      → ((c : Config) → Inv c → GivesConfig (next c))
      → GivesConfig (and_stored r next)
  GivesConfig-stored (ok c) next h more = more c h
  GivesConfig-stored (err e) next h more = tt

  GivesConfig-line :
      (c : Config) (r : Option (Result LineData × Parser))
      (next : Config → Parser → Option (Result Config))
      → Inv c
      → GivesLine r
      → ((c : Config) (p : Parser) → Inv c → GivesConfig (next c p))
      → GivesConfig (and_line r (λ d p. and_stored (store_line realloc c d) (λ c'. next c' p)))
  GivesConfig-line c none next h b more = tt
  GivesConfig-line c (some (err e, p)) next h b more = tt
  GivesConfig-line c (some (ok d, p)) next h b more =
      GivesConfig-stored (store_line realloc c d) _ (store_line_bound c d h b) (λ c'. more c' p)

  GivesConfig-skipped :
      (c : Config) (r : Option Parser) (next : Parser → Option (Result Config))
      → Inv c
      → ((p : Parser) → GivesConfig (next p))
      → GivesConfig (and_skipped r (λ q. if q.ch == 0 then some (ok c) else next q))
  GivesConfig-skipped c none next h more = tt
  GivesConfig-skipped c (some q) next h more = elim (Bool-cases (q.ch == 0)) [
    | inl over ↦ rw over h
    | inr text ↦ rw text (more q)
  ]

  parse_loop_bound :
      (fuel : ℕ) (c : Config) (p : Parser) → Inv c → GivesConfig (parse_loop realloc fuel c p)
  unfolding parse_loop
  parse_loop_bound zero c p h = tt
  parse_loop_bound (suc fuel) c p h = elim (Bool-cases (p.ch == 0)) [
    | inl over ↦ rw over h
    | inr text ↦ rw text (
        GivesConfig-skipped c (skip_empty_lines_and_comments (suc fuel) p) _ h (λ q.
          GivesConfig-line c (parse_line (suc fuel) q) _ h
            (unfold parse_line in parse_line_data_bound (suc fuel) (parse_line_data_type q))
            (λ c' r h'. parse_loop_bound fuel c' r h')))
  ]

  parse_config-Inv :
      (users : Vec User) (input : List ℕ) (c : Config)
      → Kept users
      → parse_config realloc users input ≡ some (ok c)
      → Inv c
  unfolding parse_config config_new
  parse_config-Inv users input c kept e =
      subst (λ r. GivesConfig r) e
        (parse_loop_bound (length input + 1) (config_new users) (parser_new input)
          (record { port = omega arith; databases = omega arith }, kept))

module _ (realloc : ℕ → Bool) where
  -- A configuration that the parser gives has a port of 16 bits and a number of databases of 64,
  -- whatever the text.
  pub parse_config-IsBounded :
      (users : Vec User) (input : List ℕ) (c : Config)
      → parse_config realloc users input ≡ some (ok c)
      → IsBounded c
  parse_config-IsBounded users input c e =
      (parse_config-Inv realloc (λ v. Unit) (λ v u kept. tt) users input c tt e).0

  -- The vector of users is valid, and the one that the parser was given where it has none.
  pub record AreUsers (unset v : Vec User) : Type 0 where
    pub valid : IsValid v
    pub none_in : v.len ≡ 0 → v ≡ unset

  push_or_keep-AreUsers :
      (unset v : Vec User) (u : User) (o : Option (Vec User))
      → AreUsers unset v
      → Pushed no_user realloc v u o
      → AreUsers unset (push_or_keep v o)
  push_or_keep-AreUsers unset v u none kept h = kept
  push_or_keep-AreUsers unset v u (some w) kept h = record {
    valid = h.1.still_valid;
    none_in = λ e.
        let one : take w.len w.slots ≡ items v ++ u ∷ [] = h.1.same_items in
        let nothing : take 0 w.slots ≡ items v ++ u ∷ [] = ap (λ n. take n w.slots) (sym e) ∙ one in
        absurd (omega (arith, ap length nothing, length-append (items v) (u ∷ [])));
  }

  pub parse_config-AreUsers :
      (users : Vec User) (input : List ℕ) (c : Config)
      → AllocFits realloc
      → IsValid users
      → parse_config realloc users input ≡ some (ok c)
      → AreUsers users c.users
  parse_config-AreUsers users input c fits valid e =
      (parse_config-Inv realloc (λ v. AreUsers users v)
        (λ v u h.
          push_or_keep-AreUsers users v u (push no_user realloc v u) h
            (push-Pushed no_user realloc v u fits h.valid))
        users input c (record { valid = valid; none_in = λ e. refl }) e).1
