-- ===== src/Ev/Greatest.antt =====
-- src/ev.c: the greatest file with an event.
use lexidb.Base.{
  ℕ, zero, suc, ◌≤◌, ◌<◌, ◌≡◌, refl, sym, subst, ◌∙◌, ap, Bool, true, false, ◌&&◌, not, List,
  Option, none, some, length, get_or, set, replicate, get_or-set, get_or-replicate, length-set,
  length-replicate, ltb, leb, ◌==◌, if◌then◌else◌, arith, Bool-cases, inl, inr, ==_iff, ==_refl,
}
use lexidb.Ev.{
  Mask, is_none, mask_or, mask_without, FileEvent, Ev, no_event, mask_at, Ctl, later_of, event_with,
  ev_api_add_event, ev_add_event, last_with_mask,
}

abbrev pub Reaches : ℕ → Option ℕ → Type 0
Reaches i none = ⊥
Reaches i (some m) = i ≤ m

Reaches-later_of : (max : Option ℕ) (fd i : ℕ) → Reaches i max → Reaches i (later_of max fd)
Reaches-later_of none fd i h = absurd h
Reaches-later_of (some m) fd i h = elim (Bool-cases (ltb m fd)) [
  | inl below ↦ rw below (ground arith)
  | inr above ↦ rw above h
]

later_of-Reaches : (max : Option ℕ) (fd : ℕ) → Reaches fd (later_of max fd)
later_of-Reaches none fd = omega arith
later_of-Reaches (some m) fd = elim (Bool-cases (ltb m fd)) [
  | inl below ↦ rw below (omega arith)
  | inr above ↦ rw above (ground arith)
]

pub some_mask : (a b : Mask) → is_none b ≡ false → is_none (mask_or a b) ≡ false
unfolding is_none mask_or
some_mask a b h = ground arith

pub fewer_mask : (a b : Mask) → is_none (mask_without a b) ≡ false → is_none a ≡ false
unfolding is_none mask_without
fewer_mask a b h = ground arith

module _ {F C : Type 0} where
  abbrev pub HasMask : List (FileEvent F C) → Option ℕ → Type 0
  HasMask events none = Unit
  HasMask events (some m) = is_none (mask_at events m) ≡ false

  -- `max_fd` is the greatest file with an event, or -1 where there is none.
  pub record IsGreatest (ev : Ev F C) : Type 0 where
    pub allocated : length ev.events ≡ ev.num_fds
    pub above : (i : ℕ) → is_none (mask_at ev.events i) ≡ false → Reaches i ev.max_fd
    pub used : HasMask ev.events ev.max_fd

  pub last_with_mask-Greatest :
      (n : ℕ) (events : List (FileEvent F C))
      → ((i : ℕ) → n ≤ i → is_none (mask_at events i) ≡ true)
      → ((i : ℕ) → is_none (mask_at events i) ≡ false → Reaches i (last_with_mask n events))
        × HasMask events (last_with_mask n events)
  unfolding last_with_mask
  last_with_mask-Greatest zero events h = (λ i e. absurd (clash i e), tt)
    where
      clash : (i : ℕ) → is_none (mask_at events i) ≡ false → ⊥
      clash i e = let f = h i (omega arith) in cc
  last_with_mask-Greatest (suc n) events h = elim (Bool-cases (is_none (mask_at events n))) [
    | inl none_here ↦ rw none_here (last_with_mask-Greatest n events (λ i le. from i le none_here))
    | inr here ↦ rw here (λ i e. below i e, here)
  ]
    where
      from : (i : ℕ) → n ≤ i → is_none (mask_at events n) ≡ true → is_none (mask_at events i) ≡ true
      from i le none_here = elim (Bool-cases (n == i)) [
        | inl same ↦ ap (λ k. is_none (mask_at events k)) (sym ((==_iff n i).0 same)) ∙ none_here
        | inr other ↦ h i (ground arith)
      ]

      below : (i : ℕ) → is_none (mask_at events i) ≡ false → i ≤ n
      below i e = elim (Bool-cases (leb i n)) [
        | inl within ↦ ground arith
        | inr past ↦ let f = h i (ground arith) in absurd cc
      ]

  pub new-IsGreatest :
      (n : ℕ) → IsGreatest (record { max_fd = none; num_fds = n; events = replicate n no_event })
  unfolding is_none
  new-IsGreatest n = record {
    allocated = length-replicate n no_event;
    above = λ i e. clash i (sym (idle i) ∙ e);
    used = tt;
  }
    where
      clash : (i : ℕ) → true ≡ false → ⊥
      clash i h = cc

      idle : (i : ℕ) → is_none (mask_at (replicate n (no_event {F = F} {C = C})) i) ≡ true
      idle i = ap (λ x. is_none x.mask) (get_or-replicate n i (no_event {F = F} {C = C}))

  -- a mask is at its place, and the others are as they were
  pub mask_at-set :
      (events : List (FileEvent F C)) (fd i : ℕ) (e : FileEvent F C)
      → fd < length events
      → mask_at (set events fd e) i ≡ (if fd == i then e.mask else mask_at events i)
  mask_at-set events fd i e h = elim (Bool-cases (fd == i)) [
    | inl same ↦ ap (λ x. x.mask) (get_or-set events fd i e no_event h) ∙ rw same refl
    | inr other ↦ ap (λ x. x.mask) (get_or-set events fd i e no_event h) ∙ rw other refl
  ]

  pub mask_at-set_here :
      (events : List (FileEvent F C)) (fd : ℕ) (e : FileEvent F C)
      → fd < length events
      → mask_at (set events fd e) fd ≡ e.mask
  mask_at-set_here events fd e within = mask_at-set events fd fd e within ∙ rw (==_refl fd) refl

  -- a mask stays where an event gets one
  pub mask_stays :
      (events : List (FileEvent F C)) (fd i : ℕ) (e : FileEvent F C)
      → fd < length events
      → is_none e.mask ≡ false
      → is_none (mask_at events i) ≡ false
      → is_none (mask_at (set events fd e) i) ≡ false
  mask_stays events fd i e within some_bits masked = elim (Bool-cases (fd == i)) [
    | inl same ↦ ap is_none (mask_at-set events fd i e within) ∙ rw same some_bits
    | inr other ↦ ap is_none (mask_at-set events fd i e within) ∙ rw other masked
  ]

  HasMask-later_of :
      (events : List (FileEvent F C)) (fd : ℕ) (e : FileEvent F C)
      → fd < length events
      → is_none e.mask ≡ false
      → (max : Option ℕ) → HasMask events max
      → HasMask (set events fd e) (later_of max fd)
  HasMask-later_of events fd e within some_bits none h =
      ap is_none (mask_at-set_here events fd e within) ∙ some_bits
  HasMask-later_of events fd e within some_bits (some m) h = elim (Bool-cases (ltb m fd)) [
    | inl below ↦ rw below (ap is_none (mask_at-set_here events fd e within) ∙ some_bits)
    | inr above ↦ rw above (mask_stays events fd m e within some_bits h)
  ]

  -- what is above every file with a mask stays above when one gets a mask
  pub add-above :
      (ev : Ev F C) (fd : ℕ) (e : FileEvent F C)
      → IsGreatest ev
      → fd < length ev.events
      → is_none e.mask ≡ false
      → IsGreatest (record ev { events = set ev.events fd e; max_fd = later_of ev.max_fd fd })
  add-above ev fd e h within some_bits = record {
    allocated = length-set ev.events fd e ∙ h.allocated;
    above = λ i masked. above i masked;
    used = HasMask-later_of ev.events fd e within some_bits ev.max_fd h.used;
  }
    where
      above :
          (i : ℕ)
          → is_none (mask_at (set ev.events fd e) i) ≡ false
          → Reaches i (later_of ev.max_fd fd)
      above i masked = elim (Bool-cases (fd == i)) [
        | inl same ↦
            subst (λ k. Reaches k (later_of ev.max_fd fd)) ((==_iff fd i).0 same)
              (later_of-Reaches ev.max_fd fd)
        | inr other ↦
            Reaches-later_of ev.max_fd fd i
              (h.above i (rw (mask_at-set ev.events fd i e within, other) at masked))
      ]

  -- The table after the masks of one file have changed.
  pub record Masks (before after : Ev F C) (fd : ℕ) (mask : Mask) : Type 0 where
    pub greatest : IsGreatest after
    pub same_size : after.num_fds ≡ before.num_fds
    pub masks :
        (i : ℕ) → mask_at after.events i ≡ (if fd == i then mask else mask_at before.events i)

  abbrev pub Added : Ev F C → ℕ → Mask → Bool × Ev F C → Type 0
  Added ev fd mask (true, after) = Masks ev after fd (mask_or (mask_at ev.events fd) mask)
  Added ev fd mask (false, after) = after ≡ ev

  -- On a table whose greatest file is right, an event with a mask is added exactly where its file
  -- is below the number of files and epoll_ctl takes it: the mask joins the one of its file, every
  -- other mask stays, and the greatest file is right; else nothing changes.
  pub ev_add_event-Added :
      (epoll_ctl : Ctl → Bool) (ev : Ev F C) (fd : ℕ) (mask : Mask) (fn : F) (c : C)
      → IsGreatest ev
      → is_none mask ≡ false
      → Added ev fd mask (ev_add_event epoll_ctl ev fd mask fn c)
        × ((ev_add_event epoll_ctl ev fd mask fn c).0
            ≡ not (leb ev.num_fds fd) && epoll_ctl (ev_api_add_event ev fd mask))
  unfolding ev_add_event
  ev_add_event-Added epoll_ctl ev fd mask fn c h some_bits = elim (Bool-cases (leb ev.num_fds fd)) [
    | inl past ↦ rw past (refl, refl)
    | inr within ↦ elim (Bool-cases (epoll_ctl (ev_api_add_event ev fd mask))) [
      | inr refused ↦ rw (within, refused) (refl, refl)
      | inl taken ↦
          rw (within, taken)
            (
              record {
                greatest =
                    add-above ev fd (event_with (get_or ev.events fd no_event) mask fn c) h
                      (ground (arith, h.allocated))
                      (some_mask (mask_at ev.events fd) mask some_bits);
                same_size = refl;
                masks = λ i.
                    mask_at-set ev.events fd i (event_with (get_or ev.events fd no_event) mask fn c)
                      (ground (arith, h.allocated));
              },
              refl,
            )
    ]
  ]
