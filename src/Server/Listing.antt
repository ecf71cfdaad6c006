-- ===== src/Server/Listing.antt =====
-- src/server.c: what KEYS replies.
use lexidb.Base.{
  ℕ, suc, ◌<◌, ◌≡◌, ◌⊎◌, ◌↔◌, inl, inr, refl, ap, sym, ◌∙◌, true, false, List, [], ◌∷◌, map,
  flatten, Option, none, some, length, get_elem?, arith, ◌==◌, Bool-cases, Option-cases,
}
use lexidb.Buckets.Resize.{flatten-view}
use lexidb.Buckets.Store.{search_chain, search_chain-view}
use lexidb.Builder.{Builder, add_array, add_object, add_items, count_items}
use lexidb.Chains.{find, hit}
use lexidb.Ht
use lexidb.Ht.{Ht, entry_key, value_of}
use lexidb.Ht.Iter.Walk.{ht_walk-flatten}
use lexidb.Keys.{KeyOps, same}
use lexidb.Object.{Object, Items, no_items, item, array}
use lexidb.Parser.Run.{Libc}
use lexidb.Server.{Server, Lexidb, Platform}
use lexidb.Server.Commands.{Answer, replied}
use lexidb.Server.Execute.{execute_keys, add_keys}

-- the keys of a dictionary, slot by slot
abbrev pub stored_keys : {K : Type 0} → Lexidb K → List K
stored_keys d = map entry_key (flatten d.dict.entries)

-- one of the keys compares as the same
abbrev pub HasKey : {K : Type 0} → KeyOps K → K → List K → Type 0
HasKey ops k [] = ⊥
HasKey ops k (j ∷ js) = (same ops k j ≡ true) ⊎ HasKey ops k js

length-map : {A B : Type 0} (f : A → B) (xs : List A) → length (map f xs) ≡ length xs
length-map f [] = refl
length-map f (x ∷ xs) = ap suc (length-map f xs)

module _ {K : Type 0} (ops : KeyOps K) where
  find-HasKey :
      (k : K) (es : List (K × K))
      → ((e : K × K) × (find (hit ops entry_key k) es ≡ some e)) ↔ HasKey ops k (map entry_key es)
  unfolding find
  find-HasKey k [] = (λ h. absurd (let clash = h.1 in cc), λ h. absurd h)
  find-HasKey k (x ∷ es) = elim (Bool-cases (hit ops entry_key k x)) [
    | inl here ↦ (λ h. inl here, λ h. (x, rw here refl))
    | inr other ↦ (
      λ h. inr ((find-HasKey k es).0 (h.0, rw other at h.1)),
      λ h. elim h [
        | inl here ↦ absurd (let clash = sym here ∙ other in cc)
        | inr there ↦ let (e, found) = (find-HasKey k es).1 there in (e, rw other found)
      ],
    )
  ]

  some_value :
      (o : Option (K × K)) → ((v : K) × (value_of o ≡ some v)) ↔ ((e : K × K) × (o ≡ some e))
  some_value none = (λ h. absurd (let clash = h.1 in cc), λ h. absurd (let clash = h.1 in cc))
  some_value (some e) = (λ h. (e, refl), λ h. (e.1, refl))

  -- a GET finds exactly the keys that compare as one of the stored ones
  get-HasKey :
      (d : Lexidb K) (k : K)
      → Ht.Laws.IsValid ops d.dict
      → ((v : K) × (Ht.get ops d.dict k ≡ some v)) ↔ HasKey ops k (stored_keys d)
  unfolding Ht.get
  get-HasKey d k valid =
      let one =
        search_chain-view ops entry_key d.dict.entries d.dict.capacity k valid.width
        ∙ sym (flatten-view ops entry_key d.dict.entries k valid.placed).0 in
      let (to, from) = some_value (search_chain ops entry_key d.dict.entries d.dict.capacity k) in
      let (there, back) = find-HasKey k (flatten d.dict.entries) in
      (
        λ h. let (e, is_e) = to h in there (e, sym one ∙ is_e),
        λ h. let (e, is_e) = back h in from (e, one ∙ is_e),
      )

module _ {D K : Type 0} (libc : Libc D) (ops : KeyOps K) (place : Object D → K)
    (value : K → Object D) (p : Platform) where
  abbrev pub listed : List K → Items D
  listed [] = no_items
  listed (k ∷ ks) = item (value k) (listed ks)

  add_keys-add_items :
      (ks : List K) (b : Builder)
      → add_keys libc ops place value p b ks ≡ add_items libc b (listed ks)
  unfolding add_keys add_items
  add_keys-add_items [] b = refl
  add_keys-add_items (k ∷ ks) b = elim (Option-cases (add_object libc b (value k))) [
    | inl e ↦ rw e refl
    | inr (c, e) ↦ rw e (add_keys-add_items ks c)
  ]

  length-listed : (ks : List K) → count_items (listed ks) ≡ length ks
  unfolding count_items
  length-listed [] = refl
  length-listed (k ∷ ks) = ap suc (length-listed ks)

  -- the array of some keys, where there is one, is what a header with their number and the keys come to
  add_keys-add_object :
      (ks : List K) (b : Builder) (n : ℕ)
      → length ks ≡ n
      → 0 < n
      → add_keys libc ops place value p (add_array b n) ks ≡ add_object libc b (array (listed ks))
  add_keys-add_object [] b n e some_key = absurd (omega arith)
  add_keys-add_object (k ∷ ks) b n e some_key =
      ap (λ m. add_keys libc ops place value p (add_array b m) (k ∷ ks))
        (sym e ∙ sym (length-listed (k ∷ ks)))
      ∙ add_keys-add_items (k ∷ ks) (add_array b (count_items (listed (k ∷ ks))))
      ∙ unfold add_object in refl

  -- the reply to a KEYS, and the keys that it lists
  pub record IsListed (d : Lexidb K) (b : Builder) (reply : Option (Answer K)) : Type 0 where
    pub replies : reply ≡ replied d (add_object libc b (array (listed (stored_keys d)))) true
    pub number : length (stored_keys d) ≡ d.dict.num_entries
    pub complete :
        (k : K) → ((v : K) × (Ht.get ops d.dict k ≡ some v)) ↔ HasKey ops k (stored_keys d)

  -- On the first database, where its dictionary is valid and has an entry, a KEYS replies with the
  -- array of the stored keys, as many as are counted, and a GET finds exactly the keys that compare
  -- as one of these.
  pub execute_keys-IsListed :
      (s : Server K) (d : Lexidb K) (b : Builder)
      → get_elem? s.db 0 ≡ some d
      → Ht.Laws.IsValid ops d.dict
      → 0 < d.dict.num_entries
      → IsListed d b (execute_keys libc ops place value p s d b)
  unfolding execute_keys
  execute_keys-IsListed s d b first valid some_entry =
      let walked = ht_walk-flatten d.dict valid.width valid.roomy in
      let filled : d.dict.num_entries == 0 ≡ false = ground arith in
      let number = length-map entry_key (flatten d.dict.entries) ∙ valid.counted in
      record {
        replies =
            rw (filled, first, walked)
              (ap (λ r. replied d r true)
                (add_keys-add_object (stored_keys d) b d.dict.num_entries number some_entry));
        number = number;
        complete = λ k. get-HasKey ops d k valid;
      }
