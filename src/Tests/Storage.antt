-- ===== src/Tests/Storage.antt =====
-- Vectors and queues at concrete elements.
use lexidb.Base.{ℕ, refl, ◌^◌, [], ◌∷◌, none, some, arith, ltb, Bool, ◌==◌, if◌then◌else◌}
use lexidb.Queue
use lexidb.Queue.{Queue, done}
use lexidb.Vec.{Vec, push}
use lexidb.Vec.Correct.{Pushed, push-Pushed}
use lexidb.Vec.Laws.{IsValid, AllocFits}

abbrev realloc : ℕ → Bool
realloc n = ltb n (2 ^ 40)

realloc-AllocFits : AllocFits realloc
realloc-AllocFits n h = ground arith

abbrev full_vec : Vec ℕ
full_vec = record { len = 2; cap = 2; data_size = 32; slots = 5 ∷ 6 ∷ [] }

full_vec-IsValid : IsValid full_vec
full_vec-IsValid = record {
  sized = omega arith;
  roomy = omega arith;
  within = omega arith;
  allocated = refl;
  small = omega arith;
}

push-Pushed_example : Pushed 0 realloc full_vec 7 (push 0 realloc full_vec 7)
push-Pushed_example = push-Pushed 0 realloc full_vec 7 realloc-AllocFits full_vec-IsValid

-- two elements, at the addresses 64 and 96
abbrev two_queued : Queue ℕ
two_queued = record {
  num_el = 2;
  head = some 64;
  tail = some 96;
  heap = λ a. if a == 64 then some (5, some 96) else if a == 96 then some (6, none) else none;
}

two_queued-Holds : Queue.Nodes.Holds two_queued (5 ∷ 6 ∷ [])
two_queued-Holds = record {
  nodes = (64, 5) ∷ (96, 6) ∷ [];
  linked = (refl, (ground arith, tt), (refl, tt, tt));
  elements = refl;
  counted = refl;
  from = refl;
  to = refl;
}

deque-Dequed_example : Queue.Correct.Dequed (5 ∷ 6 ∷ []) (Queue.deque two_queued)
deque-Dequed_example = Queue.Correct.deque-Dequed two_queued (5 ∷ 6 ∷ []) two_queued-Holds
