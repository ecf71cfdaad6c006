-- ===== src/Hilexi/Messages.antt =====
-- src/parser.c: a request as one array, and as one string.
use lexidb.Base.{
  ℕ, suc, ◌+◌, ◌^◌, ◌≤◌, ◌<◌, ◌≡◌, refl, ◌∙◌, Bool, false, List, [], ◌++◌, some, length, arith,
  append-nil,
}
use lexidb.Builder.{Builder, add_object, count_items}
use lexidb.Builder.Wire.{wire, wire_items, add_object_iff}
use lexidb.Cmd.{Cmdt, zeroed, one, two}
use lexidb.Object.{Object, Items, null, int, double, bool, string, array, ht, no_items, item}
use lexidb.Parser.Commands.{
  parse, parse_cmd, parse_array_cmd, array_cmd_body, parse_cmd_type, parse_args, lookup_cmd,
  with_one, with_two, is_null, second_object, cmd_of_object,
}
use lexidb.Parser.Run.{ret, Libc, ◌>>=◌}
use lexidb.Parser.Scan.{Parser, at, parser_new, read_char}
use lexidb.Protocol.Lines.{parse_header-decimal}
use lexidb.Protocol.RoundTrip.{parse_object-wire, depth-le}
use lexidb.Protocol.Values.{IsStandard, reread, Fits, depth}

module _ {D : Type 0} (libc : Libc D) where
  abbrev pub message : List ℕ → Items D → Object D
  message name os = array (item (string name) os)

  pub is_null-reread : (o : Object D) → is_null libc (reread libc o) ≡ false
  unfolding is_null reread
  is_null-reread null = refl
  is_null-reread (int z) = refl
  is_null-reread (double d) = refl
  is_null-reread (bool v) = refl
  is_null-reread (string s) = refl
  is_null-reread (array os) = refl
  is_null-reread (ht ps) = refl

  module _ (std : IsStandard libc) where
    -- An array of which the first element is a name is read as that name's command.
    parse_cmd-message :
        (name : List ℕ) (os : Items D) (fuel : ℕ)
        → 0 < fuel
        → Fits libc (string name)
        → suc (count_items os) < 2 ^ 64
        → parse_cmd libc fuel (at (wire libc (message name os)))
          ≡ parse_args libc (lookup_cmd name) (suc (count_items os)) fuel (at (wire_items libc os))
    unfolding parse_cmd parse_array_cmd array_cmd_body parse_cmd_type wire count_items cmd_of_object
        lookup_cmd reread
    parse_cmd-message name os fuel some_fuel fits few =
        rw
          (
            parse_header-decimal libc b'*' (suc (count_items os))
                (wire libc (string name) ++ wire_items libc os) few,
            parse_object-wire libc std (string name) fuel (wire_items libc os)
                (unfold depth in some_fuel) fits,
            ◌>>=◌,
          )
          refl

    -- What the client writes as one array is one command to the server.
    parse-message :
        (name : List ℕ) (os : Items D) (out : Builder)
        → add_object libc [] (message name os) ≡ some out
        → Fits libc (string name)
        → suc (count_items os) < 2 ^ 64
        → (depth (message name os) ≤ length out)
          × (parse libc out
              ≡ parse_args libc
                  (lookup_cmd name)
                  (suc (count_items os))
                  (length out + 2)
                  (at (wire_items libc os)))
    unfolding parse parser_new read_char
    parse-message name os out written fits few =
        let form = ((add_object_iff libc [] out (message name os)).0 written).1 in
        rw form (
          depth-le libc std (message name os),
          parse_cmd-message name os (length (wire libc (message name os)) + 2) (omega arith) fits
              few,
        )

    with_one-wire :
        (refuses : Object D → Bool) (type : Cmdt) (fuel : ℕ) (o : Object D)
        → refuses (reread libc o) ≡ false
        → depth o < fuel
        → Fits libc o
        → with_one libc refuses type 2 fuel (at (wire_items libc (item o no_items)))
          ≡ ret (record { type = type; args = one (reread libc o) })
    unfolding with_one wire
    with_one-wire refuses type fuel o taken deep fits =
        rw (parse_object-wire libc std o fuel [] deep fits, ◌>>=◌, taken) refl

    with_two-wire :
        (type : Cmdt) (fuel : ℕ) (o q : Object D)
        → depth o < fuel
        → depth q < fuel
        → Fits libc o
        → Fits libc q
        → with_two libc type 3 fuel (at (wire_items libc (item o (item q no_items))))
          ≡ ret (record { type = type; args = two (reread libc o) (reread libc q) })
    unfolding with_two second_object wire
    with_two-wire type fuel o q deep deep' fits fits' =
        rw
          (
            parse_object-wire libc std o fuel (wire libc q ++ []) deep fits,
            ◌>>=◌,
            is_null-reread o,
            parse_object-wire libc std q fuel [] deep' fits',
            is_null-reread q,
          )
          refl

    -- a command of one object
    pub parse-one :
        (name : List ℕ) (refuses : Object D → Bool) (type : Cmdt) (o : Object D) (out : Builder)
        → add_object libc [] (message name (item o no_items)) ≡ some out
        → Fits libc (string name)
        → ((fuel : ℕ) (p : Parser)
            → parse_args libc (lookup_cmd name) 2 fuel p ≡ with_one libc refuses type 2 fuel p)
        → refuses (reread libc o) ≡ false
        → Fits libc o
        → parse libc out ≡ ret (record { type = type; args = one (reread libc o) })
    unfolding count_items depth
    parse-one name refuses type o out written named args taken fits =
        let (deep, read) = parse-message name (item o no_items) out written named (omega arith) in
        read ∙ args _ _ ∙ with_one-wire refuses type (length out + 2) o taken (omega arith) fits

    -- a command of two
    pub parse-two :
        (name : List ℕ) (type : Cmdt) (o q : Object D) (out : Builder)
        → add_object libc [] (message name (item o (item q no_items))) ≡ some out
        → Fits libc (string name)
        → ((fuel : ℕ) (p : Parser)
            → parse_args libc (lookup_cmd name) 3 fuel p ≡ with_two libc type 3 fuel p)
        → Fits libc o
        → Fits libc q
        → parse libc out ≡ ret (record { type = type; args = two (reread libc o) (reread libc q) })
    unfolding count_items depth
    parse-two name type o q out written named args fits fits' =
        let (deep, read) =
          parse-message name (item o (item q no_items)) out written named (omega arith) in
        read
        ∙ args _ _
        ∙ with_two-wire type (length out + 2) o q (omega arith) (omega arith) fits fits'

    -- a command that is a string alone
    pub parse-name :
        (name : List ℕ) (out : Builder)
        → add_object libc [] (string name) ≡ some out
        → Fits libc (string name)
        → parse libc out ≡ ret (record { type = lookup_cmd name; args = zeroed })
    unfolding parse parse_cmd parse_cmd_type parser_new read_char cmd_of_object depth lookup_cmd
        reread
    parse-name name out written fits =
        let form = ((add_object_iff libc [] out (string name)).0 written).1 in
        let read =
          parse_object-wire libc std (string name) (length (wire libc (string name)) + 2) []
            (omega arith) fits in
        rw form (unfold wire in (rw (rw append-nil at read, ◌>>=◌) refl))
