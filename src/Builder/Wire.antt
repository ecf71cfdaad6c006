-- ===== src/Builder/Wire.antt =====
-- src/builder.c: what the writer appends for each value, and for which values it returns.
use lexidb.Base.{
  ℕ, ◌≡◌, ◌↔◌, refl, ◌∙◌, List, [], ◌∷◌, ◌++◌, length, some, codes, append_assoc, append-nil,
  Option-cases, inl, inr, if◌then◌else◌,
}
use lexidb.Base.Decimal.{decimal, decimal_ℤ}
use lexidb.Builder.{
  Builder, add_end, add_none, add_int, add_double, add_boolean, add_string, add_array, add_ht,
  count_items, add_object, add_items, and_then,
}
use lexidb.Object.{
  Object, Items, null, int, double, bool, string, array, ht, no_items, item, no_pairs, pair,
}
use lexidb.Parser.Run.{Libc}

abbrev pub crlf : List ℕ
crlf = b'\r' ∷ b'\n' ∷ []

-- No empty array and no table with entries, at any depth.
abbrev mutual
  pub Returns : {D : Type 0} → Object D → Type 0
  Returns (array no_items) = ⊥
  Returns (array (item o os)) = Returns o × ReturnsAll os
  Returns (ht (pair k v ps)) = ⊥
  Returns _ = Unit

  pub ReturnsAll : {D : Type 0} → Items D → Type 0
  ReturnsAll no_items = Unit
  ReturnsAll (item o os) = Returns o × ReturnsAll os

module _ {D : Type 0} (libc : Libc D) where
  -- The protocol's form of a value; of a table, that of an empty one.
  unfoldable mutual
    pub wire : Object D → List ℕ
    wire null = codes "+NONE\r\n"
    wire (int z) = b':' ∷ (decimal_ℤ z ++ crlf)
    wire (double d) = b',' ∷ (libc.format_g d ++ crlf)
    wire (bool v) = b'#' ∷ (if v then b't' else b'f') ∷ crlf
    wire (string s) = b'$' ∷ (decimal (length s) ++ (b'\r' ∷ b'\n' ∷ (s ++ crlf)))
    wire (array os) = b'*' ∷ (decimal (count_items os) ++ (b'\r' ∷ b'\n' ∷ wire_items os))
    wire (ht ps) = b'%' ∷ (decimal 0 ++ crlf)

    pub wire_items : Items D → List ℕ
    wire_items no_items = []
    wire_items (item o os) = wire o ++ wire_items os

  mutual
    unfolding add_object wire add_end add_none add_int add_double add_boolean add_string add_array
        add_ht

    add_object-Returns :
        (b : Builder) (o : Object D) → Returns o → add_object libc b o ≡ some (b ++ wire o)
    add_object-Returns b null h = refl
    add_object-Returns b (int z) h = simp append_assoc
    add_object-Returns b (double d) h = simp append_assoc
    add_object-Returns b (bool v) h = simp append_assoc
    add_object-Returns b (string s) h = simp append_assoc
    add_object-Returns b (array no_items) h = elim h [ ]
    add_object-Returns b (array (item o os)) h =
        add_items-Returns (add_array b (count_items (item o os))) (item o os) h ∙ simp append_assoc
    add_object-Returns b (ht no_pairs) h = simp append_assoc
    add_object-Returns b (ht (pair k v ps)) h = elim h [ ]

    add_items-Returns :
        (b : Builder) (os : Items D)
        → ReturnsAll os
        → add_items libc b os ≡ some (b ++ wire_items os)
    add_items-Returns b no_items h = simp append-nil
    add_items-Returns b (item o os) h =
        rw (add_object-Returns b o h.0) (add_items-Returns (b ++ wire o) os h.1 ∙ simp append_assoc)

  mutual
    unfolding add_object

    Returns-add_object : (b c : Builder) (o : Object D) → add_object libc b o ≡ some c → Returns o
    Returns-add_object b c null h = tt
    Returns-add_object b c (int z) h = tt
    Returns-add_object b c (double d) h = tt
    Returns-add_object b c (bool v) h = tt
    Returns-add_object b c (string s) h = tt
    Returns-add_object b c (array no_items) h = cc
    Returns-add_object b c (array (item o os)) h =
        Returns-add_items (add_array b (count_items (item o os))) c (item o os) h
    Returns-add_object b c (ht no_pairs) h = tt
    Returns-add_object b c (ht (pair k v ps)) h = cc

    Returns-add_items :
        (b c : Builder) (os : Items D) → add_items libc b os ≡ some c → ReturnsAll os
    Returns-add_items b c no_items h = tt
    Returns-add_items b c (item o os) h = elim (Option-cases (add_object libc b o)) [
      | inl e ↦ cc
      | inr (b', e) ↦
          (Returns-add_object b b' o e, Returns-add_items b' c os (rw (e, and_then) at h))
    ]

  -- The model gives a reply for a value exactly if the value has, at no depth, an empty array or a table
  -- with entries, and it then has appended the form of the value and changed nothing before it.
  pub add_object_iff :
      (b c : Builder) (o : Object D)
      → (add_object libc b o ≡ some c) ↔ (Returns o × (c ≡ b ++ wire o))
  add_object_iff b c o = (
    λ h. let r = Returns-add_object b c o h in (r, cc (h, add_object-Returns b o r)),
    λ h. rw (h.1) (add_object-Returns b o h.0),
  )
