-- ===== src/Queue/Nodes.antt =====
-- src/queue.c: the nodes of a queue, linked on the heap.
use lexidb.Base.{
  ℕ, ◌≡◌, ◌≢◌, refl, ap, sym, ◌∙◌, Option, none, some, List, [], ◌∷◌, ◌++◌, arith, length, All,
  some-injective,
}
use lexidb.Queue.{Queue, Heap, Qnode, write}

module _ {ℓ} {A : Type ℓ} where
  abbrev pub first : List (ℕ × A) → Option ℕ
  first [] = none
  first (n ∷ ns) = some n.0

  abbrev pub last : List (ℕ × A) → Option ℕ
  last [] = none
  last (n ∷ []) = some n.0
  last (n ∷ m ∷ ns) = last (m ∷ ns)

  -- The nodes stand at their addresses, which differ, each with the next one's address.
  abbrev pub Linked : Heap A → List (ℕ × A) → Type ℓ
  Linked h [] = Unit
  Linked h ((a, x) ∷ ns) = (h a ≡ some (x, first ns)) × All (λ n. n.0 ≢ a) ns × Linked h ns

  abbrev pub values : List (ℕ × A) → List A
  values [] = []
  values (n ∷ ns) = n.1 ∷ values ns

  -- a queue with the elements `xs`, at some addresses
  pub record Holds (q : Queue A) (xs : List A) : Type ℓ where
    pub nodes : List (ℕ × A)
    pub linked : Linked q.heap nodes
    pub elements : values nodes ≡ xs
    pub counted : q.num_el ≡ length nodes
    pub from : q.head ≡ first nodes
    pub to : q.tail ≡ last nodes

  -- Linked nodes stay linked when another address is written.
  pub Linked-write :
      (h : Heap A) (a : ℕ) (n : Option (Qnode A)) (ns : List (ℕ × A))
      → All (λ m. m.0 ≢ a) ns
      → Linked h ns
      → Linked (write h a n) ns
  Linked-write h a n [] apart l = l
  Linked-write h a n ((b, x) ∷ ns) apart l =
      (ground (arith, l.0, apart.0), l.1, Linked-write h a n ns apart.1 l.2)

  -- An address that is not allocated is no node's.
  pub apart_fresh :
      (h : Heap A) (a : ℕ) (ns : List (ℕ × A)) → Linked h ns → h a ≡ none → All (λ m. m.0 ≢ a) ns
  apart_fresh h a [] l fresh = tt
  apart_fresh h a ((b, x) ∷ ns) l fresh =
      let apart : b ≢ a = λ e. ground (arith, e, l.0, fresh) in
      (apart, apart_fresh h a ns l.2 fresh)

  All-end :
      (b a : ℕ) (x : A) (ns : List (ℕ × A))
      → All (λ m. m.0 ≢ b) ns
      → a ≢ b
      → All (λ m. m.0 ≢ b) (ns ++ (a, x) ∷ [])
  All-end b a x [] apart other = (other, tt)
  All-end b a x (n ∷ ns) apart other = (apart.0, All-end b a x ns apart.1 other)

  -- what the node at the tail becomes
  abbrev pub grown : Heap A → ℕ → A → ℕ → A → Heap A
  grown h t v a x = write (write h a (some (x, none))) t (some (v, some a))

  pub last-end : (ns : List (ℕ × A)) (a : ℕ) (x : A) → last (ns ++ (a, x) ∷ []) ≡ some a
  last-end [] a x = refl
  last-end (n ∷ []) a x = refl
  last-end (n ∷ m ∷ ns) a x = last-end (m ∷ ns) a x

  pub values-end :
      (ns : List (ℕ × A)) (a : ℕ) (x : A) → values (ns ++ (a, x) ∷ []) ≡ values ns ++ x ∷ []
  values-end [] a x = refl
  values-end (n ∷ ns) a x = ap (λ ys. n.1 ∷ ys) (values-end ns a x)

  -- the last node of a list that is not empty
  pub tail_node :
      (h : Heap A) (n : ℕ × A) (ns : List (ℕ × A))
      → Linked h (n ∷ ns)
      → (t : ℕ) × (v : A) × (last (n ∷ ns) ≡ some t) × (h t ≡ some (v, none))
  tail_node h (b, y) [] l = (b, y, refl, l.0)
  tail_node h n (m ∷ ns) l = tail_node h m ns l.2

  last_apart :
      (b : ℕ) (m : ℕ × A) (ns : List (ℕ × A)) (t : ℕ)
      → All (λ n. n.0 ≢ b) (m ∷ ns)
      → last (m ∷ ns) ≡ some t
      → b ≢ t
  last_apart b m [] t apart e = λ same. apart.0 (some-injective _ _ e ∙ sym same)
  last_apart b m (k ∷ ns) t apart e = last_apart b k ns t apart.1 e

  pub Linked-grown :
      (h : Heap A) (n : ℕ × A) (ns : List (ℕ × A)) (t : ℕ) (v : A) (a : ℕ) (x : A)
      → Linked h (n ∷ ns)
      → last (n ∷ ns) ≡ some t
      → h t ≡ some (v, none)
      → All (λ m. m.0 ≢ a) (n ∷ ns)
      → Linked (grown h t v a x) (n ∷ ns ++ (a, x) ∷ [])
  Linked-grown h (b, y) [] t v a x l e end fresh =
      let here : b ≡ t = some-injective _ _ e in
      let entry : h b ≡ some (v, none) = ap h here ∙ end in
      (
        ground (arith, here, entry, l.0),
        (λ q. fresh.0 (sym q), tt),
        (ground (arith, here, fresh.0), tt, tt),
      )
  Linked-grown h (b, y) (m ∷ ns) t v a x l e end fresh = (
    ground (arith, l.0, fresh.0, last_apart b m ns t l.1 e),
    All-end b a x (m ∷ ns) l.1 (λ q. fresh.0 (sym q)),
    Linked-grown h m ns t v a x l.2 e end fresh.1,
  )
