-- ===== src/Queue.antt =====
-- src/queue.c: the linked queue behind every database's queue. A node stands at an address of the heap,
-- which holds its data and its `next`; an address that holds `none` is not allocated. What malloc
-- returns is an argument of `enque`.
pub mod Nodes
pub mod Correct
use lexidb.Base.{ℕ, zero, suc, ◌+◌, ◌-◌, Bool, Option, none, some, ◌==◌, if◌then◌else◌}

abbrev pub Qnode {ℓ} : Type ℓ → Type ℓ
Qnode A = A × Option ℕ

abbrev pub Heap {ℓ} : Type ℓ → Type ℓ
Heap A = ℕ → Option (Qnode A)

pub record Queue {ℓ} (A : Type ℓ) : Type ℓ where
  pub num_el : ℕ
  pub head : Option ℕ
  pub tail : Option ℕ
  pub heap : Heap A

-- `failed` is the result -1, `crashed` the use of a pointer that is null or freed.
pub data QueueResult {ℓ} (A : Type ℓ) : Type ℓ where
  done : A → QueueResult A
  failed crashed : QueueResult A

module _ {ℓ} {A : Type ℓ} where
  abbrev pub write : Heap A → ℕ → Option (Qnode A) → Heap A
  write h a n = λ b. if b == a then n else h b

  -- what `p` points to
  abbrev pub load : Heap A → Option ℕ → Option (Qnode A)
  load h none = none
  load h (some a) = h a

  unfoldable pub new : Queue A
  new = record { num_el = 0; head = none; tail = none; heap = λ a. none }

  -- `tail->next = node; tail = node`
  unfoldable pub link : Queue A → Option ℕ → Option (Qnode A) → ℕ → QueueResult (Queue A)
  link q (some t) (some (v, old)) a =
      done (record q { tail = some a; heap = write q.heap t (some (v, some a)) })
  link q none n a = crashed
  link q (some t) none a = crashed

  enque_node : Queue A → A → ℕ → QueueResult (Queue A)
  unfolding link
  enque_node q x a =
      let allocated = record q { num_el = q.num_el + 1; heap = write q.heap a (some (x, none)) } in
      let linked = link allocated q.tail (load allocated.heap q.tail) a in
      if allocated.num_el == 1
      then done (record allocated { head = some a; tail = some a })
      else linked

  unfoldable pub enque : Queue A → A → Option ℕ → QueueResult (Queue A)
  unfolding enque_node
  enque q x none = failed
  enque q x (some a) = enque_node q x a

  -- the new head, and the old one freed
  unfoldable pub unlink_head : Queue A → Option ℕ → Option (Qnode A) → QueueResult (A × Queue A)
  unlink_head q (some a) (some (x, new_head)) =
      let left = q.num_el - 1 in
      let freed = write q.heap a none in
      if left == 0
      then done (x, record { num_el = 0; head = none; tail = none; heap = freed })
      else done (x, record q { num_el = left; head = new_head; heap = freed })
  unlink_head q none n = crashed
  unlink_head q (some a) none = crashed

  unfoldable pub deque : Queue A → QueueResult (A × Queue A)
  unfolding unlink_head
  deque q = if q.num_el == 0 then failed else unlink_head q q.head (load q.heap q.head)

  peeked : Option (Qnode A) → QueueResult A
  peeked none = crashed
  peeked (some n) = done n.0

  -- `failed` is the null pointer
  unfoldable pub peek : Queue A → QueueResult A
  unfolding peeked
  peek q = if q.num_el == 0 then failed else peeked (load q.heap q.head)
