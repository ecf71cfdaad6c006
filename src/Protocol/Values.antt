-- ===== src/Protocol/Values.antt =====
-- src/builder.c, src/parser.c: what becomes of a value that is written and read again, and the bounds
-- within which it is.
use lexidb.Base.{ℕ, suc, ◌+◌, ◌^◌, ◌<◌, ◌≡◌, length, true, codes}
use lexidb.Base.Decimal.{decimal_ℤ}
use lexidb.Base.Int.{ℤ, pos, negsuc}
use lexidb.Builder.{count_items}
use lexidb.Object.{
  Object, Items, null, int, double, bool, string, array, ht, no_items, item, no_pairs,
}
use lexidb.Parser.Objects.{reserves}
use lexidb.Parser.Run.{Libc}
use lexidb.Protocol.Lines.{InLine}

-- an int64_t
abbrev pub IsInt64 : ℤ → Type 0
IsInt64 (pos n) = n < 2 ^ 63
IsInt64 (negsuc n) = n < 2 ^ 63

-- What the protocol takes from the C library: a long double holds every int64_t, and printf's %g
-- writes no line end and no NUL.
pub record IsStandard {D : Type 0} (libc : Libc D) : Type 0 where
  pub strtold-decimal : (z : ℤ) → IsInt64 z → libc.strtold_int64 (decimal_ℤ z) ≡ z
  pub InLine-format_g : (d : D) → InLine (libc.format_g d)

-- What the reader makes of a value that was written: NULL comes back as the string "NONE", and a
-- double as what its print stands for.
unfoldable mutual
  pub reread : {D : Type 0} → Libc D → Object D → Object D
  reread libc null = string (codes "NONE")
  reread libc (double d) = double (libc.strtod (libc.format_g d))
  reread libc (array os) = array (reread_items libc os)
  reread libc (int z) = int z
  reread libc (bool v) = bool v
  reread libc (string s) = string s
  reread libc (ht ps) = ht no_pairs

  pub reread_items : {D : Type 0} → Libc D → Items D → Items D
  reread_items libc no_items = no_items
  reread_items libc (item o os) = item (reread libc o) (reread_items libc os)

-- The machine's bounds: integers are int64_t, a string and the count of an array fit a size_t, and
-- there is memory for the string that the reader builds.
abbrev mutual
  pub Fits : {D : Type 0} → Libc D → Object D → Type 0
  Fits libc (int z) = IsInt64 z
  Fits libc (string s) = (length s + 1 < 2 ^ 64) × (reserves libc (length s + 1) ≡ true)
  Fits libc (array os) = (count_items os < 2 ^ 64) × FitsAll libc os
  Fits libc _ = Unit

  pub FitsAll : {D : Type 0} → Libc D → Items D → Type 0
  FitsAll libc no_items = Unit
  FitsAll libc (item o os) = Fits libc o × FitsAll libc os

-- the depth of the recursion
unfoldable mutual
  pub depth : {D : Type 0} → Object D → ℕ
  depth (array os) = suc (depth_items os)
  depth _ = 0

  pub depth_items : {D : Type 0} → Items D → ℕ
  depth_items no_items = 0
  depth_items (item o os) = depth o + depth_items os
