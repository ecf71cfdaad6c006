-- ===== src/Tests/Strings.antt =====
-- Strings at concrete bytes, where they grow out of the struct and where they cannot.
use lexidb.Base.{ℕ, ◌≡◌, ◌^◌, ◌++◌, refl, false, List, [], ◌∷◌, arith, codes, leb, replicate}
use lexidb.Vstr.{
  Heap, small, vstr_from_len, make_lg_len, vstr_push_char, vstr_push_string_len, no_bytes,
}
use lexidb.Vstr.Large.{Grants}
use lexidb.Vstr.Correct.{Pushes, vstr_from_len-Stands, vstr_push_string_len-Pushes}
use lexidb.Vstr.Laws.{Stands}
use lexidb.Vstr.Lost.{Lost, vstr_push-Lost}

abbrev pub heap : Heap
heap = record { calloc = λ n. leb n (2 ^ 57); realloc = λ n. leb n (2 ^ 57) }

pub heap-Grants : Grants heap
heap-Grants = record { calloc = λ n h. ground arith; realloc = λ n h. ground arith }

-- 23 bytes
abbrev word : List ℕ
word = codes "0123456789abcdefghijklm"

word-Stands : Stands word (small 0 word)
word-Stands = (omega arith, refl, record { fits = omega arith; holds = refl })

vstr_push_string_len-Pushes_example :
    Pushes (word ++ codes "nop") (vstr_push_string_len heap (small 0 word) (codes "nop"))
vstr_push_string_len-Pushes_example =
    vstr_push_string_len-Pushes heap heap-Grants (small 0 word) word (codes "nop") word-Stands
      (omega arith)

vstr_from_len-Stands_example : Stands (word ++ word) (vstr_from_len heap (word ++ word))
vstr_from_len-Stands_example = vstr_from_len-Stands heap heap-Grants (word ++ word) (omega arith)

abbrev no_heap : Heap
no_heap = record { calloc = λ n. false; realloc = λ n. false }

vstr_push-Lost_example :
    Lost (replicate 23 0) (vstr_push_char no_heap (small 0 word) 110)
    × Lost [] (
        vstr_push_string_len no_heap
          (small 3 (codes "0123456789abcdefghij" ++ 0 ∷ 0 ∷ 0 ∷ []))
          (codes "nopq"))
vstr_push-Lost_example =
    vstr_push-Lost no_heap (λ n. refl) 3 110 word (codes "0123456789abcdefghij" ++ 0 ∷ 0 ∷ 0 ∷ [])
      (codes "nopq") (omega arith)

-- A string for which there is no memory counts as 23 bytes of 0.
no_memory : vstr_from_len no_heap (word ++ word) ≡ small 0 no_bytes
unfolding vstr_from_len make_lg_len
no_memory = refl
