-- ===== src/Protocol/RoundTrip.antt =====
-- src/parser.c (parse_object) reads what src/builder.c (builder_add_object) writes.
use lexidb.Base.{
  ℕ, zero, suc, ◌+◌, ◌^◌, ◌%◌, ◌≤◌, ◌<◌, ◌≡◌, refl, List, [], ◌∷◌, ◌++◌, length, some, append_assoc,
  append-nil, arith, Bool, true, false, codes, length-append,
}
use lexidb.Base.Decimal.{decimal, decimal_ℤ}
use lexidb.Base.Int.{ℤ}
use lexidb.Builder.{count_items, add_object}
use lexidb.Builder.Wire.{wire, wire_items, crlf, add_object_iff}
use lexidb.Object.{Object, Items, Pairs, null, int, double, bool, string, array, ht, no_items, item}
use lexidb.Parser.Objects.{
  parse_object, parse_by_type, parse_string, string_body, parse_integer, parse_double, double_body,
  parse_boolean, parse_line_object, repeat_items, array_body, ht_body, repeat_pairs,
}
use lexidb.Parser.Commands.{parse_from_server}
use lexidb.Parser.Run.{Run, ret, ◌>>=◌, Libc}
use lexidb.Parser.Scan.{Parser, at, read_char, expect_peek_byte, parser_new}
use lexidb.Protocol.Values.{
  IsInt64, IsStandard, reread, reread_items, Fits, FitsAll, depth, depth_items,
}
use lexidb.Protocol.Lines.{
  InLine-decimal_ℤ, scan_line-text, double_loop-text, take_bytes-string, parse_header-decimal,
  end_of_line-crlf, parse_simple_string-line, length-at,
}

module _ {D : Type 0} (libc : Libc D) (std : IsStandard libc) where
  parse_string-string :
      (s xs : List ℕ)
      → Fits libc (string s)
      → parse_string libc (at (s ++ xs)) (length s) ≡ ret (s, at xs)
  unfolding parse_string
  parse_string-string s xs h =
      let no_wrap : (length s + 1) % 2 ^ 64 ≡ length s + 1 = omega arith in
      rw (no_wrap, h.1, take_bytes-string s xs) refl

  module _ (call : Parser → Run (Object D × Parser)) (xs : List ℕ) where
    abbrev Reads : Object D → Type 0
    Reads o = parse_by_type libc call (at (wire libc o ++ xs)) ≡ ret (reread libc o, at xs)

    read_null : Reads null
    unfolding parse_by_type wire reread parse_line_object read_char
    read_null =
        rw (parse_simple_string-line b'+' (codes "NONE") xs (refl, (refl, (refl, (refl, tt))))) refl

    read_int : (z : ℤ) → IsInt64 z → Reads (int z)
    unfolding parse_by_type wire reread parse_integer read_char
    read_int z h =
        rw
          (
            append_assoc,
            scan_line-text (decimal_ℤ z) (b'\n' ∷ xs) (InLine-decimal_ℤ z),
            std.strtold-decimal z h,
            end_of_line-crlf libc (int z) xs,
          )
          refl

    read_double : (d : D) → Reads (double d)
    unfolding parse_by_type wire reread parse_double read_char double_body
    read_double d =
        rw
          (
            append_assoc,
            double_loop-text _ (libc.format_g d) (b'\n' ∷ xs) enough (std.InLine-format_g d),
            end_of_line-crlf libc (double (libc.strtod (libc.format_g d))) xs,
          )
          refl
      where
        enough :
            length (libc.format_g d) < length (at (libc.format_g d ++ b'\r' ∷ b'\n' ∷ xs)).rest + 2
        enough =
            let line = libc.format_g d ++ b'\r' ∷ b'\n' ∷ xs in
            omega (arith, length-at line, length-append (libc.format_g d) (b'\r' ∷ b'\n' ∷ xs))

    read_bool : (v : Bool) → Reads (bool v)
    unfolding parse_by_type wire reread parse_boolean read_char expect_peek_byte
    read_bool true = refl
    read_bool false = refl

    read_string : (s : List ℕ) → Fits libc (string s) → Reads (string s)
    unfolding parse_by_type wire reread string_body
    read_string s h =
        rw
          (
            append_assoc,
            append_assoc,
            parse_header-decimal libc b'$' (length s) (s ++ (crlf ++ xs)) (omega arith),
            parse_string-string s (crlf ++ xs) h,
            ◌>>=◌,
            end_of_line-crlf libc (string s) xs,
          )
          refl

    read_ht : (ps : Pairs D) → Reads (ht ps)
    unfolding parse_by_type wire reread ht_body repeat_pairs
    read_ht ps = rw (append_assoc, parse_header-decimal libc b'%' 0 xs (omega arith)) refl

  read_array :
      (call : Parser → Run (Object D × Parser)) (os : Items D) (xs : List ℕ)
      → count_items os < 2 ^ 64
      → repeat_items libc call (count_items os) (at (wire_items libc os ++ xs))
        ≡ ret (reread_items libc os, at xs)
      → Reads call xs (array os)
  unfolding parse_by_type wire reread array_body
  read_array call os xs fits h =
      rw
        (
          append_assoc,
          parse_header-decimal libc b'*' (count_items os) (wire_items libc os ++ xs) fits,
          h,
          ◌>>=◌,
        )
        refl

  mutual
    unfolding parse_object wire reread depth repeat_items count_items

    read_object :
        (o : Object D) (fuel : ℕ) (xs : List ℕ)
        → depth o < fuel
        → Fits libc o
        → parse_object libc fuel (at (wire libc o ++ xs)) ≡ ret (reread libc o, at xs)
    read_object o zero xs h fits = absurd (omega arith)
    read_object null (suc fuel) xs h fits = read_null (parse_object libc fuel) xs
    read_object (int z) (suc fuel) xs h fits = read_int (parse_object libc fuel) xs z fits
    read_object (double d) (suc fuel) xs h fits = read_double (parse_object libc fuel) xs d
    read_object (bool v) (suc fuel) xs h fits = read_bool (parse_object libc fuel) xs v
    read_object (string s) (suc fuel) xs h fits = read_string (parse_object libc fuel) xs s fits
    read_object (array os) (suc fuel) xs h fits =
        read_array (parse_object libc fuel) os xs fits.0
          (read_items os fuel xs (omega arith) fits.1)
    read_object (ht ps) (suc fuel) xs h fits = read_ht (parse_object libc fuel) xs ps

    read_items :
        (os : Items D) (fuel : ℕ) (xs : List ℕ)
        → depth_items os < fuel
        → FitsAll libc os
        → repeat_items libc
            (parse_object libc fuel)
            (count_items os)
            (at (wire_items libc os ++ xs))
          ≡ ret (reread_items libc os, at xs)
    read_items no_items fuel xs h fits = refl
    read_items (item o os) fuel xs h fits =
        rw
          (
            append_assoc,
            read_object o fuel (wire_items libc os ++ xs) (omega arith) fits.0,
            ◌>>=◌,
            read_items os fuel xs (omega arith) fits.1,
            ◌>>=◌,
          )
          refl

  mutual
    unfolding wire depth

    pub depth-le : (o : Object D) → depth o ≤ length (wire libc o)
    depth-le null = omega arith
    depth-le (int z) = omega arith
    depth-le (double d) = omega arith
    depth-le (bool v) = omega arith
    depth-le (string s) = omega arith
    depth-le (array os) = omega (
      arith,
      depth_items-le os,
      length-append (decimal (count_items os)) (b'\r' ∷ b'\n' ∷ wire_items libc os),
    )
    depth-le (ht ps) = omega arith

    pub depth_items-le : (os : Items D) → depth_items os ≤ length (wire_items libc os)
    depth_items-le no_items = omega arith
    depth_items-le (item o os) =
        omega
          (arith, depth-le o, depth_items-le os, length-append (wire libc o) (wire_items libc os))

  -- With the number conversions of a standard C library, and more fuel than the value is deep, the
  -- reader reads the form of a value within the machine's bounds off the front of any input, and
  -- stands on the byte behind it; what it reads is the value, but with NULL as the string NONE,
  -- doubles as their prints stand for, and a table as the empty one.
  pub parse_object-wire :
      (o : Object D) (fuel : ℕ) (xs : List ℕ)
      → depth o < fuel
      → Fits libc o
      → parse_object libc fuel (at (wire libc o ++ xs)) ≡ ret (reread libc o, at xs)
  parse_object-wire = read_object

  -- With the number conversions of a standard C library, where the writer returns for a value
  -- within the machine's bounds, the client's reader reads back what it wrote into an empty
  -- builder, to the end: the value, but with NULL as the string NONE, doubles as their prints stand
  -- for, and a table as the empty one.
  pub parse_from_server-add_object :
      (o : Object D) (out : List ℕ)
      → add_object libc [] o ≡ some out
      → Fits libc o
      → parse_from_server libc out ≡ ret (reread libc o, at [])
  unfolding parse_from_server parser_new read_char
  parse_from_server-add_object o out h fits =
      let form = ((add_object_iff libc [] out o).0 h).1 in
      let read = read_object o (length (wire libc o) + 2) [] (omega (arith, depth-le o)) fits in
      rw form (rw append-nil at read)
