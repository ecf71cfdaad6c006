-- ===== src/Tests/Listing.antt =====
-- KEYS on a database with one key.
use lexidb.Base.{ℕ, ◌<◌, ◌≡◌, refl, ap, List, [], ◌∷◌, some, arith, codes}
use lexidb.Ht
use lexidb.Ht.{Ht}
use lexidb.Server.{Lexidb}
use lexidb.Server.Execute.{execute_keys}
use lexidb.Server.Listing.{IsListed, execute_keys-IsListed}
use lexidb.Tests.Commands.{platform, place, value, server, empty_db}
use lexidb.Tests.Platform.{libc, text_ops, text_ops-IsLawful, memory, memory-CallocFits}

abbrev foo : List ℕ
foo = codes "foo"

abbrev one_entry : Lexidb (List ℕ)
one_entry = record empty_db { dict = (Ht.insert text_ops memory Ht.new foo foo).0 }

abbrev InsertedFoo : Type 0
InsertedFoo =
    Ht.Correct.Writes text_ops (Ht.new {V = List ℕ}) foo (some foo)
      (Ht.insert text_ops memory Ht.new foo foo).0

inserted : InsertedFoo
inserted =
    (Ht.Correct.insert-Answers text_ops text_ops-IsLawful foo memory memory-CallocFits Ht.new foo
        (Ht.Laws.new-IsValid text_ops).0).written
      (unfold Ht.new in refl)

has_entry : 0 < one_entry.dict.num_entries
has_entry =
    let none_yet : (Ht.new {K = List ℕ} {V = List ℕ}).num_entries ≡ 0 = unfold Ht.new in refl in
    let no_foo = (Ht.Laws.new-IsValid {V = List ℕ} text_ops).1 foo in
    let not_found : Ht.Correct.found (Ht.get text_ops Ht.new foo) ≡ 0 =
      ap (λ o. Ht.Correct.found o) no_foo in
    omega (arith, inserted.num, not_found, none_yet)

execute_keys-IsListed_example : IsListed libc text_ops place value platform one_entry [] (
    execute_keys libc text_ops place value platform
      (record server { db = one_entry ∷ [] })
      one_entry
      [])
execute_keys-IsListed_example =
    execute_keys-IsListed libc text_ops place value platform (record server { db = one_entry ∷ [] })
      one_entry [] refl inserted.valid has_entry
