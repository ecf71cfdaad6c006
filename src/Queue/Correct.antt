-- ===== src/Queue/Correct.antt =====
-- src/queue.c: what the operations do to the list of the queued elements.
use lexidb.Base.{
  ℕ, ◌+◌, ◌-◌, ◌≡◌, refl, ap, sym, ◌∙◌, true, false, none, some, List, [], ◌∷◌, ◌++◌, arith, length,
  ◌==◌, ==_iff, ==_refl, Bool-cases, inl, inr, length-append,
}
use lexidb.Queue.{
  Queue, Heap, QueueResult, done, failed, write, new, link, enque, unlink_head, deque,
}
use lexidb.Queue.Nodes.{
  first, last, Linked, values, Holds, Linked-write, apart_fresh, grown, last-end, values-end,
  tail_node, Linked-grown,
}

module _ {ℓ} {A : Type ℓ} where
  pub new-Holds : Holds {A = A} new []
  unfolding new
  new-Holds = record {
    nodes = [];
    linked = tt;
    elements = refl;
    counted = refl;
    from = refl;
    to = refl;
  }

  not_allocated :
      (h : Heap A) (t a : ℕ) (v : A) → h t ≡ some (v, none) → h a ≡ none → (t == a) ≡ false
  not_allocated h t a v end fresh = elim (Bool-cases (t == a)) [
    | inr other ↦ other
    | inl here ↦
        let same : t ≡ a = (==_iff t a).0 here in
        absurd (ground (arith, sym (ap h same) ∙ end, fresh))
  ]

  enque-end :
      (q : Queue A) (n : ℕ × A) (ns : List (ℕ × A)) (x : A) (a : ℕ)
      → Linked q.heap (n ∷ ns)
      → q.num_el ≡ length (n ∷ ns)
      → q.head ≡ some n.0
      → q.tail ≡ last (n ∷ ns)
      → q.heap a ≡ none
      → (r : Queue A) × (enque q x (some a) ≡ done r) × Holds r (values (n ∷ ns) ++ x ∷ [])
  unfolding enque link
  enque-end q n ns x a l count from to fresh =
      let (t, v, e, end) = tail_node q.heap n ns l in
      let apart = apart_fresh q.heap a (n ∷ ns) l fresh in
      let more : (q.num_el + 1 == 1) ≡ false = ground (arith, count) in
      let other = not_allocated q.heap t a v end fresh in
      (
        record q { num_el = q.num_el + 1; tail = some a; heap = grown q.heap t v a x },
        rw (more, to, e, other, end) refl,
        record {
          nodes = n ∷ ns ++ (a, x) ∷ [];
          linked = Linked-grown q.heap n ns t v a x l e end apart;
          elements = values-end (n ∷ ns) a x;
          counted = omega (arith, count, length-append (n ∷ ns) ((a, x) ∷ []));
          from = from;
          to = sym (last-end (n ∷ ns) a x);
        },
      )

  enque-first :
      (q : Queue A) (x : A) (a : ℕ)
      → q.num_el ≡ 0
      → (r : Queue A) × (enque q x (some a) ≡ done r) × Holds r (x ∷ [])
  unfolding enque
  enque-first q x a count =
      let one : (q.num_el + 1 == 1) ≡ true = ground (arith, count) in
      (
        record {
          num_el = q.num_el + 1;
          head = some a;
          tail = some a;
          heap = write q.heap a (some (x, none));
        },
        rw one refl,
        record {
          nodes = (a, x) ∷ [];
          linked = (rw (==_refl a) refl, tt, tt);
          elements = refl;
          counted = omega (arith, count);
          from = refl;
          to = refl;
        },
      )

  -- On a queue whose nodes are linked, with an address from malloc at which nothing is allocated,
  -- an enqueue never follows a null or freed pointer, and puts the element behind the others.
  pub enque-Holds :
      (q : Queue A) (xs : List A) (x : A) (a : ℕ)
      → Holds q xs
      → q.heap a ≡ none
      → (r : Queue A) × (enque q x (some a) ≡ done r) × Holds r (xs ++ x ∷ [])
  enque-Holds q xs x a held fresh =
      at held.nodes held.linked held.elements held.counted held.from held.to
    where
      at :
          (ns : List (ℕ × A))
          → Linked q.heap ns
          → values ns ≡ xs
          → q.num_el ≡ length ns
          → q.head ≡ first ns
          → q.tail ≡ last ns
          → (r : Queue A) × (enque q x (some a) ≡ done r) × Holds r (xs ++ x ∷ [])
      at [] l e count from to = rw (← e) (enque-first q x a count)
      at (n ∷ ns) l e count from to = rw (← e) (enque-end q n ns x a l count from to fresh)

  -- What a dequeue answers: the first element and the queue of the others.
  abbrev pub Dequed : List A → QueueResult (A × Queue A) → Type ℓ
  Dequed [] r = r ≡ failed
  Dequed (x ∷ xs) r = (s : Queue A) × (r ≡ done (x, s)) × Holds s xs

  deque_empty : (q : Queue A) → q.num_el ≡ 0 → deque q ≡ failed
  unfolding deque
  deque_empty q count = rw count refl

  deque-head :
      (q : Queue A) (n : ℕ × A) (ns : List (ℕ × A))
      → Linked q.heap (n ∷ ns)
      → q.num_el ≡ length (n ∷ ns)
      → q.head ≡ some n.0
      → q.tail ≡ last (n ∷ ns)
      → Dequed (values (n ∷ ns)) (deque q)
  unfolding deque unlink_head
  deque-head q (a, x) [] l count from to =
      let full : (q.num_el == 0) ≡ false = ground (arith, count) in
      let none_left : (q.num_el - 1 == 0) ≡ true = ground (arith, count) in
      (
        record { num_el = 0; head = none; tail = none; heap = write q.heap a none },
        rw (full, from, l.0, none_left) refl,
        record { nodes = []; linked = tt; elements = refl; counted = refl; from = refl; to = refl },
      )
  deque-head q (a, x) (m ∷ ns) l count from to =
      let full : (q.num_el == 0) ≡ false = ground (arith, count) in
      let some_left : (q.num_el - 1 == 0) ≡ false = ground (arith, count) in
      (
        record q { num_el = q.num_el - 1; head = some m.0; heap = write q.heap a none },
        rw (full, from, l.0, some_left) refl,
        record {
          nodes = m ∷ ns;
          linked = Linked-write q.heap a none (m ∷ ns) l.1 l.2;
          elements = refl;
          counted = omega (arith, count);
          from = refl;
          to = to;
        },
      )

  -- On a queue whose nodes are linked, a dequeue never follows a null or freed pointer: it answers
  -- -1 exactly when no element is queued, and else gives the element that has been queued longest
  -- and leaves the others.
  pub deque-Dequed : (q : Queue A) (xs : List A) → Holds q xs → Dequed xs (deque q)
  deque-Dequed q xs held = at held.nodes held.linked held.elements held.counted held.from held.to
    where
      at :
          (ns : List (ℕ × A))
          → Linked q.heap ns
          → values ns ≡ xs
          → q.num_el ≡ length ns
          → q.head ≡ first ns
          → q.tail ≡ last ns
          → Dequed xs (deque q)
      at [] l e count from to = rw (← e) (deque_empty q count)
      at (n ∷ ns) l e count from to = rw (← e) (deque-head q n ns l count from to)
