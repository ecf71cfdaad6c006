-- ===== src/Ev/Select/Reports.antt =====
-- src/ev_select.c: the events that fire, against the files that are ready.
use lexidb.Base.{
  ℕ, zero, suc, ◌+◌, ◌≤◌, ◌<◌, ◌≡◌, refl, ap, sym, ◌∙◌, true, false, ◌&&◌, List, [], ◌∷◌, Option,
  some, none, ◌==◌, ==_iff, ltb, if◌then◌else◌, All, arith, Bool-cases, inl, inr,
}
use lexidb.Ev.{Mask, ev_none, is_none, FileEvent, Ev, mask_at, ev_new}
use lexidb.Ev.Greatest.{Reaches}
use lexidb.Ev.Select.{
  FdSet, fd_setsize, EvApi, select_new, num_files, poll_loop, select_poll, EvCall, ev_calls,
}
use lexidb.Ev.Select.Mirrors.{IsMirrored, HasBits, reached-Keeps}

-- What select does: of the files below `n` that it is asked about it leaves those that are ready.
abbrev pub IsSelect : (ℕ → EvApi → Option EvApi) → FdSet → FdSet → Type 0
IsSelect select readable writable =
    (n : ℕ) (api : EvApi)
    → (left : EvApi) × (select n api ≡ some left)
      × ((i : ℕ)
          → (left.rfds i ≡ (ltb i n && (api.rfds i && readable i)))
            × (left.wfds i ≡ (ltb i n && (api.wfds i && writable i))))

-- the mask with which a file has fired
unfoldable pub fired_at : ℕ → List (ℕ × Mask) → Mask
fired_at i [] = ev_none
fired_at i (x ∷ xs) = let rest = fired_at i xs in if x.0 == i then x.1 else rest

past_max : (max : Option ℕ) (i : ℕ) → num_files max ≤ i → Reaches i max → ⊥
past_max none i h r = r
past_max (some m) i h r = omega (arith, h, r)

module _ {F C : Type 0} where
  fired : List (FileEvent F C) → EvApi → ℕ → Mask
  fired events left i = record {
    read = (mask_at events i).read && left.rfds i;
    write = (mask_at events i).write && left.wfds i;
    both = false;
  }

  -- nothing fires for a file before the first one that the loop sees
  poll_loop-before :
      (j n i : ℕ) (events : List (FileEvent F C)) (left : EvApi)
      → i < j
      → fired_at i (poll_loop j n events left) ≡ ev_none
  unfolding fired_at poll_loop
  poll_loop-before j zero i events left h = refl
  poll_loop-before j (suc n) i events left h =
      let rest = poll_loop-before (j + 1) n i events left (omega (arith, h)) in
      let other : j == i ≡ false = ground (arith, h) in
      elim (Bool-cases (is_none (mask_at events j))) [
        | inl idle ↦ rw idle rest
        | inr used ↦ rw (used, other) rest
      ]

  fired-idle :
      (events : List (FileEvent F C)) (left : EvApi) (i : ℕ)
      → is_none (mask_at events i) ≡ true
      → fired events left i ≡ ev_none
  unfolding fired is_none
  fired-idle events left i idle =
      let read : (mask_at events i).read ≡ false = ground (arith, idle) in
      let write : (mask_at events i).write ≡ false = ground (arith, idle) in rw (read, write) refl

  poll_loop-fired :
      (j n i : ℕ) (events : List (FileEvent F C)) (left : EvApi)
      → j ≤ i
      → i < j + n
      → fired_at i (poll_loop j n events left) ≡ fired events left i
  unfolding fired_at poll_loop
  poll_loop-fired j zero i events left h g = absurd (omega (arith, h, g))
  poll_loop-fired j (suc n) i events left h g = elim (Bool-cases (j == i)) [
    | inr other ↦
        let rest =
          poll_loop-fired (j + 1) n i events left (ground (arith, h, other)) (omega (arith, g)) in
        elim (Bool-cases (is_none (mask_at events j))) [
          | inl idle ↦ rw idle rest
          | inr used ↦ rw (used, other) rest
        ]
    | inl same ↦
        let at_j : j ≡ i = (==_iff j i).0 same in
        elim (Bool-cases (is_none (mask_at events j))) [
          | inl idle ↦
              let before : fired_at i (poll_loop (j + 1) n events left) ≡ ev_none =
                poll_loop-before (j + 1) n i events left (omega (arith, at_j)) in
              rw idle (
                before
                ∙ sym (
                    fired-idle events left i
                      (ap (λ k. is_none (mask_at events k)) (sym at_j) ∙ idle)))
          | inr used ↦ rw (used, same) (unfold fired in ap (λ k. fired events left k) at_j)
        ]
  ]

  poll_loop-past :
      (j n i : ℕ) (events : List (FileEvent F C)) (left : EvApi)
      → j + n ≤ i
      → fired_at i (poll_loop j n events left) ≡ ev_none
  unfolding fired_at poll_loop
  poll_loop-past j zero i events left h = refl
  poll_loop-past j (suc n) i events left h =
      let rest = poll_loop-past (j + 1) n i events left (omega (arith, h)) in
      let other : j == i ≡ false = ground (arith, h) in
      elim (Bool-cases (is_none (mask_at events j))) [
        | inl idle ↦ rw idle rest
        | inr used ↦ rw (used, other) rest
      ]

  -- the bits of a file's event for which it is ready
  abbrev pub ready : List (FileEvent F C) → FdSet → FdSet → ℕ → Mask
  ready events readable writable i = record {
    read = (mask_at events i).read && readable i;
    write = (mask_at events i).write && writable i;
    both = false;
  }

  select_poll-ready :
      (select : ℕ → EvApi → Option EvApi) (readable writable : FdSet) (s : EvApi × Ev F C) (i : ℕ)
      → IsSelect select readable writable
      → IsMirrored s
      → fired_at i (select_poll select s.1 s.0) ≡ ready s.1.events readable writable i
  unfolding select_poll
  select_poll-ready select readable writable s i is h =
      let (left, answered, sets) = is (num_files s.1.max_fd) s.0 in
      let (r, w) = sets i in
      let (mr, mw) = h.mirrors i in
      elim (Bool-cases (ltb i (num_files s.1.max_fd))) [
        | inl below ↦
            let read : ((mask_at s.1.events i).read && left.rfds i)
                ≡ ((mask_at s.1.events i).read && readable i) =
              ground (arith, r, mr, below) in
            let write : ((mask_at s.1.events i).write && left.wfds i)
                ≡ ((mask_at s.1.events i).write && writable i) =
              ground (arith, w, mw, below) in
            rw answered (
              poll_loop-fired 0 (num_files s.1.max_fd) i s.1.events left (omega arith)
                (ground (arith, below))
              ∙ (unfold fired in rw (read, write) refl))
        | inr past ↦ rw answered (
            poll_loop-past 0 (num_files s.1.max_fd) i s.1.events left (ground (arith, past))
            ∙ elim (Bool-cases (is_none (mask_at s.1.events i))) [
              | inl idle ↦
                  unfold fired in
                  sym (fired-idle s.1.events (record { rfds = readable; wfds = writable }) i idle)
              | inr used ↦
                  absurd (past_max s.1.max_fd i (ground (arith, past)) (h.greatest.above i used))
            ])
      ]

  -- What has been asked of select, and what fires.
  abbrev pub Reports : (ℕ → EvApi → Option EvApi) → FdSet → FdSet → EvApi × Ev F C → Type 0
  Reports select readable writable s =
      IsMirrored s
      × ((i : ℕ) → fired_at i (select_poll select s.1 s.0) ≡ ready s.1.events readable writable i)

  -- For a table of events with at most 1024 files, and a select that leaves of the files below its
  -- first argument that it is asked about exactly those that are ready: any calls of ev_add_event,
  -- each with at least one of the bits EV_READ and EV_WRITE, and of ev_delete_event, on a new
  -- table, never write past a set of files; they keep the table's size, the greatest file right,
  -- and in the two sets exactly the files whose event has the bit; and a poll then fires each file
  -- with exactly those of its bits for which it is ready.
  pub ev_calls-Reports :
      (n : ℕ) (xs : List (EvCall F C)) (ev : Ev F C) (select : ℕ → EvApi → Option EvApi)
      (readable writable : FdSet)
      → n ≤ fd_setsize
      → ev_new true n ≡ some ev
      → All HasBits xs
      → IsSelect select readable writable
      → (s : EvApi × Ev F C) × (ev_calls (select_new, ev) xs ≡ some s)
        × Reports select readable writable s
  ev_calls-Reports n xs ev select readable writable small made bits is =
      let (s, ran, kept) = reached-Keeps n xs ev small bits made in
      (s, ran, (kept, λ i. select_poll-ready select readable writable s i is kept))
