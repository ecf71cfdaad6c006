-- ===== src/Ev/Select/Mirrors.antt =====
-- src/ev_select.c: the files that select is asked about, and the events that fire.
use lexidb.Base.{
  if◌then◌else◌, Option, ◌≤◌, ltb, All, ℕ, ◌<◌, ◌≡◌, refl, sym, ◌∙◌, ap, Bool, true, false, ◌&&◌,
  not, List, [], ◌∷◌, none, some, length, get_or, set, ◌==◌, Bool-cases, inl, inr, arith, ==_iff,
  get_or-replicate, some-injective, leb, replicate, subst,
}
use lexidb.Ev.{
  Mask, is_none, mask_or, mask_without, FileEvent, Ev, no_event, mask_at, event_with, ev_add_event,
  ev_delete_event, deleted_mask, ev_new,
}
use lexidb.Ev.Greatest.{
  mask_at-set, mask_at-set_here, IsGreatest, add-above, some_mask, new-IsGreatest,
}
use lexidb.Ev.Deletes.{registered, Deleted, ev_delete_event-Deleted}
use lexidb.Ev.Select.{
  if_bit, FdSet, fd_setsize, ev_calls, EvApi, fd_set, fd_clr, select_add_event, select_del_event,
  EvCall, adds, deletes, ev_call, ev_calls, select_new,
}

-- the sets with a file in them, and without it
bits_set : EvApi → ℕ → Mask → EvApi
bits_set api fd mask = record {
  rfds = if mask.read then (λ i. if fd == i then true else api.rfds i) else api.rfds;
  wfds = if mask.write then (λ i. if fd == i then true else api.wfds i) else api.wfds;
}

bits_clr : EvApi → ℕ → Mask → EvApi
bits_clr api fd mask = record {
  rfds = if mask.read then (λ i. if fd == i then false else api.rfds i) else api.rfds;
  wfds = if mask.write then (λ i. if fd == i then false else api.wfds i) else api.wfds;
}

if_bit-some :
    (b : Bool) (changed s : FdSet) → if_bit b (some changed) s ≡ some (if b then changed else s)
if_bit-some true changed s = refl
if_bit-some false changed s = refl

select_add_event-bits_set :
    (api : EvApi) (fd : ℕ) (mask : Mask)
    → fd < fd_setsize
    → select_add_event api fd mask ≡ some (bits_set api fd mask)
unfolding select_add_event fd_set bits_set
select_add_event-bits_set api fd mask h =
    let inside : ltb fd fd_setsize ≡ true = ground arith in
    rw (inside, if_bit-some mask.read _ api.rfds, if_bit-some mask.write _ api.wfds) refl

select_del_event-bits_clr :
    (api : EvApi) (fd : ℕ) (mask : Mask)
    → fd < fd_setsize
    → select_del_event api fd mask ≡ some (bits_clr api fd mask)
unfolding select_del_event fd_clr bits_clr
select_del_event-bits_clr api fd mask h =
    let inside : ltb fd fd_setsize ≡ true = ground arith in
    rw (inside, if_bit-some mask.read _ api.rfds, if_bit-some mask.write _ api.wfds) refl

module _ {F C : Type 0} where
  -- select is asked about exactly the files with an event, for reading and for writing
  abbrev pub Mirrors : EvApi → List (FileEvent F C) → Type 0
  Mirrors api events =
      (i : ℕ) → (api.rfds i ≡ (mask_at events i).read) × (api.wfds i ≡ (mask_at events i).write)

  bits_set-Mirrors :
      (api : EvApi) (events : List (FileEvent F C)) (fd : ℕ) (mask : Mask) (fn : F) (d : C)
      → fd < length events
      → Mirrors api events
      → Mirrors
          (bits_set api fd mask)
          (set events fd (event_with (get_or events fd no_event) mask fn d))
  unfolding bits_set event_with mask_or
  bits_set-Mirrors api events fd mask fn d within h i =
      let here =
        mask_at-set events fd i (event_with (get_or events fd no_event) mask fn d) within in
      elim (Bool-cases (fd == i)) [
        | inl same ↦
            let at_fd : fd ≡ i = (==_iff fd i).0 same in
            let (r, w) =
              subst
                (λ k.
                  (api.rfds k ≡ (mask_at events fd).read)
                  × (api.wfds k ≡ (mask_at events fd).write))
                at_fd (h fd) in
            rw (here, same) (ground (arith, r, w, same), ground (arith, r, w, same))
        | inr other ↦
            let (r, w) = h i in
            rw (here, other) (ground (arith, r, w, other), ground (arith, r, w, other))
      ]

  bits_clr-Mirrors :
      (api : EvApi) (events : List (FileEvent F C)) (fd : ℕ) (mask : Mask) (e : FileEvent F C)
      → fd < length events
      → e.mask ≡ mask_without (mask_at events fd) mask
      → Mirrors api events
      → Mirrors (bits_clr api fd mask) (set events fd e)
  unfolding bits_clr mask_without
  bits_clr-Mirrors api events fd mask e within left h i =
      let here = mask_at-set events fd i e within in
      elim (Bool-cases (fd == i)) [
        | inl same ↦
            let at_fd : fd ≡ i = (==_iff fd i).0 same in
            let (r, w) =
              subst
                (λ k.
                  (api.rfds k ≡ (mask_at events fd).read)
                  × (api.wfds k ≡ (mask_at events fd).write))
                at_fd (h fd) in
            rw (here, same, left) (ground (arith, r, w, same), ground (arith, r, w, same))
        | inr other ↦
            let (r, w) = h i in
            rw (here, other) (ground (arith, r, w, other), ground (arith, r, w, other))
      ]

  -- deleting again changes nothing
  bits_clr-again :
      (api : EvApi) (events : List (FileEvent F C)) (fd : ℕ) (mask old : Mask)
      → mask_at events fd ≡ mask_without old mask
      → Mirrors api events
      → Mirrors (bits_clr api fd mask) events
  unfolding bits_clr mask_without
  bits_clr-again api events fd mask old left h i = elim (Bool-cases (fd == i)) [
    | inl same ↦
        let at_fd : fd ≡ i = (==_iff fd i).0 same in
        let here : mask_at events i ≡ mask_without old mask =
          ap (λ k. mask_at events k) (sym at_fd) ∙ left in
        let (r, w) = h i in
        let read : (mask_at events i).read ≡ old.read && not mask.read = ap (λ m. m.read) here in
        let write : (mask_at events i).write ≡ old.write && not mask.write =
          ap (λ m. m.write) here in
        (ground (arith, r, read, same), ground (arith, w, write, same))
    | inr other ↦ let (r, w) = h i in (ground (arith, r, other), ground (arith, w, other))
  ]

  -- the greatest file is right, and select is asked about the files of the table
  pub record IsMirrored (s : EvApi × Ev F C) : Type 0 where
    pub greatest : IsGreatest s.1
    pub small : s.1.num_fds ≤ fd_setsize
    pub mirrors : Mirrors s.0 s.1.events

  -- a state that is reached, and mirrored
  abbrev pub Keeps : Option (EvApi × Ev F C) → Type 0
  Keeps r = (s : EvApi × Ev F C) × (r ≡ some s) × IsMirrored s

  abbrev pub HasBits : EvCall F C → Type 0
  HasBits (adds fd mask fn d) = is_none mask ≡ false
  HasBits (deletes fd mask) = Unit

  ev_call-adds :
      (api : EvApi) (ev : Ev F C) (fd : ℕ) (mask : Mask) (fn : F) (d : C)
      → is_none mask ≡ false
      → IsMirrored (api, ev)
      → Keeps (ev_call (api, ev) (adds fd mask fn d))
  unfolding ev_call ev_add_event
  ev_call-adds api ev fd mask fn d bits h = elim (Bool-cases (leb ev.num_fds fd)) [
    | inl past ↦ rw past (_, refl, h)
    | inr within ↦
        let inside : fd < length ev.events = ground (arith, within, h.greatest.allocated) in
        rw (within, select_add_event-bits_set api fd mask (ground (arith, within, h.small)))
          (
            _,
            refl,
            record {
              greatest =
                  add-above ev fd (event_with (get_or ev.events fd no_event) mask fn d) h.greatest
                    inside (some_mask (mask_at ev.events fd) mask bits);
              small = h.small;
              mirrors = bits_set-Mirrors api ev.events fd mask fn d inside h.mirrors;
            },
          )
  ]

  deleted-IsGreatest :
      (ev : Ev F C) (fd : ℕ) (mask : Mask)
      → IsGreatest ev
      → leb ev.num_fds fd ≡ false
      → is_none (mask_at ev.events fd) ≡ false
      → IsGreatest (ev_delete_event ev fd mask).1
  deleted-IsGreatest ev fd mask h within used =
      let known : registered ev fd ≡ true = rw (within, used) refl in
      (subst (λ b. Deleted b ev fd mask (ev_delete_event ev fd mask).1) known
        (ev_delete_event-Deleted ev fd mask h)).greatest

  ev_call-deletes :
      (api : EvApi) (ev : Ev F C) (fd : ℕ) (mask : Mask)
      → IsMirrored (api, ev)
      → Keeps (ev_call (api, ev) (deletes fd mask))
  unfolding ev_call ev_delete_event
  ev_call-deletes api ev fd mask h = elim (Bool-cases (leb ev.num_fds fd)) [
    | inl past ↦ rw past (_, refl, h)
    | inr within ↦ elim (Bool-cases (is_none (mask_at ev.events fd))) [
      | inl idle ↦ rw (within, idle) (_, refl, h)
      | inr used ↦
          let e : FileEvent F C = get_or ev.events fd no_event in
          let all = deleted_mask mask in
          let f : FileEvent F C = record e { mask = mask_without e.mask all } in
          let inside : fd < length ev.events = ground (arith, within, h.greatest.allocated) in
          let below : fd < fd_setsize = ground (arith, within, h.small) in
          let once = bits_clr-Mirrors api ev.events fd all f inside refl h.mirrors in
          let greatest =
            rw (within, used) at (deleted-IsGreatest ev fd mask h.greatest within used) in
          rw
            (
              within,
              used,
              select_del_event-bits_clr api fd all below,
              select_del_event-bits_clr (bits_clr api fd all) fd all below,
            )
            (
              _,
              refl,
              record {
                greatest = greatest;
                small = h.small;
                mirrors =
                    bits_clr-again (bits_clr api fd all) (set ev.events fd f) fd all e.mask
                      (mask_at-set_here ev.events fd f inside) once;
              },
            )
    ]
  ]

  ev_call-Keeps :
      (s : EvApi × Ev F C) (x : EvCall F C) → HasBits x → IsMirrored s → Keeps (ev_call s x)
  ev_call-Keeps (api, ev) (adds fd mask fn d) bits h = ev_call-adds api ev fd mask fn d bits h
  ev_call-Keeps (api, ev) (deletes fd mask) bits h = ev_call-deletes api ev fd mask h

  ev_calls-Keeps :
      (xs : List (EvCall F C)) (s : EvApi × Ev F C)
      → All HasBits xs
      → IsMirrored s
      → Keeps (ev_calls s xs)
  unfolding ev_calls
  ev_calls-Keeps [] s bits h = (s, refl, h)
  ev_calls-Keeps (x ∷ xs) s bits h =
      let (t, called, kept) = ev_call-Keeps s x bits.0 h in
      rw called (ev_calls-Keeps xs t bits.1 kept)

  pub new-IsMirrored :
      (n : ℕ)
      → n ≤ fd_setsize
      → IsMirrored
          (select_new, record { max_fd = none; num_fds = n; events = replicate n no_event })
  unfolding select_new
  new-IsMirrored n small = record {
    greatest = new-IsGreatest n;
    small = small;
    mirrors = λ i.
        let idle = get_or-replicate n i (no_event {F = F} {C = C}) in
        (sym (ap (λ e. e.mask.read) idle), sym (ap (λ e. e.mask.write) idle));
  }

  pub reached-Keeps :
      (n : ℕ) (xs : List (EvCall F C)) (ev : Ev F C)
      → n ≤ fd_setsize
      → All HasBits xs
      → ev_new true n ≡ some ev
      → Keeps (ev_calls (select_new, ev) xs)
  unfolding ev_new
  reached-Keeps n xs ev small bits made =
      subst (λ v. Keeps (ev_calls (select_new, v) xs)) (some-injective _ _ made)
        (ev_calls-Keeps xs _ bits (new-IsMirrored n small))
