-- ===== src/Tests/Tables.antt =====
-- The hash tables at concrete keys.
use lexidb.Base.{true, false, ℕ, List, none, some, if◌then◌else◌, codes}
use lexidb.HashSet
use lexidb.HashSet.{HashSet, SetResult, set_ok, set_oom, set_inv_key, set_key_exists}
use lexidb.Ht
use lexidb.Ht.{Ht, HtResult, ht_ok, ht_oom, ht_inv_key, entry_key}
use lexidb.Tests.Platform.{text_ops, text_ops-IsLawful, memory, memory-CallocFits}

abbrev foo : List ℕ
foo = codes "foo"

abbrev empty_ht : Ht (List ℕ) ℕ
empty_ht = Ht.new

abbrev empty_set : HashSet (List ℕ)
empty_set = HashSet.new

Ht_insert-Answers_example :
    Ht.Correct.Answers text_ops empty_ht foo
      (some 1)
      (if Ht.Laws.no_room text_ops memory empty_ht then ht_oom else ht_ok)
      (Ht.insert text_ops memory empty_ht foo 1)
Ht_insert-Answers_example =
    Ht.Correct.insert-Answers text_ops text_ops-IsLawful foo memory memory-CallocFits empty_ht 1
      (Ht.Laws.new-IsValid text_ops).0

abbrev one_key : Ht (List ℕ) ℕ
one_key = (Ht.insert text_ops memory empty_ht foo 1).0

one_key-IsValid : Ht.Laws.IsValid text_ops one_key
one_key-IsValid =
    (Ht.Correct.insert-Answers text_ops text_ops-IsLawful foo memory memory-CallocFits empty_ht 1
      (Ht.Laws.new-IsValid text_ops).0).still_valid

Ht_try_insert-Answers_example :
    Ht.Correct.Answers text_ops one_key foo
      (some 2)
      (if Ht.Laws.no_room text_ops memory one_key
        then ht_oom
        else if Ht.Correct.is_some (Ht.get text_ops one_key foo)
        then ht_inv_key
        else ht_ok)
      (Ht.try_insert text_ops memory one_key foo 2)
Ht_try_insert-Answers_example =
    Ht.Correct.try_insert-Answers text_ops text_ops-IsLawful foo memory memory-CallocFits one_key 2
      one_key-IsValid

Ht_delete-Answers_example :
    Ht.Correct.Answers text_ops one_key foo none
      (if Ht.Correct.is_some (Ht.get text_ops one_key foo) then ht_ok else ht_inv_key)
      (Ht.delete text_ops one_key foo)
Ht_delete-Answers_example =
    Ht.Correct.delete-Answers text_ops text_ops-IsLawful foo one_key one_key-IsValid

HashSet_insert-SetAnswers_example :
    HashSet.Correct.SetAnswers text_ops empty_set foo true
      (if HashSet.Laws.no_room text_ops memory empty_set
        then set_oom
        else if HashSet.has text_ops empty_set foo
        then set_key_exists
        else if memory.malloc
        then set_ok
        else HashSet.Correct.no_entry (
            HashSet.Correct.slot_chain text_ops
              (HashSet.Correct.roomy text_ops memory empty_set)
              foo))
      (HashSet.insert text_ops memory empty_set foo)
HashSet_insert-SetAnswers_example =
    HashSet.Correct.insert-SetAnswers text_ops text_ops-IsLawful foo memory memory-CallocFits
      empty_set (HashSet.Laws.new-IsValid text_ops).0

HashSet_delete-SetAnswers_example :
    HashSet.Correct.SetAnswers text_ops empty_set foo false
      (if HashSet.has text_ops empty_set foo then set_ok else set_inv_key)
      (HashSet.delete text_ops empty_set foo)
HashSet_delete-SetAnswers_example =
    HashSet.Correct.delete-SetAnswers text_ops text_ops-IsLawful foo empty_set
      (HashSet.Laws.new-IsValid text_ops).0
