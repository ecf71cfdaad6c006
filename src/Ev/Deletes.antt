-- ===== src/Ev/Deletes.antt =====
-- src/ev.c: an event that is deleted.
use lexidb.Base.{
  ℕ, ◌≤◌, ◌<◌, ◌≡◌, refl, ◌∙◌, ap, Bool, true, false, ◌&&◌, not, Option, none, some, length, get_or,
  set, length-set, leb, ◌==◌, if◌then◌else◌, arith, Bool-cases, inl, inr, ==_iff, subst,
}
use lexidb.Ev.{
  Mask, is_none, mask_without, FileEvent, Ev, no_event, mask_at, last_with_mask, deleted_mask,
  is_max, ev_delete_event,
}
use lexidb.Ev.Greatest.{
  Reaches, HasMask, IsGreatest, Masks, last_with_mask-Greatest, mask_at-set, fewer_mask,
}

and_true : (a b : Bool) → a && b ≡ true → (a ≡ true) × (b ≡ true)
and_true true true h = (refl, refl)
and_true true false h = absurd cc
and_true false b h = absurd cc

is_max-Reaches : (max : Option ℕ) (fd i : ℕ) → is_max max fd ≡ true → Reaches i max → i ≤ fd
is_max-Reaches none fd i h r = absurd r
is_max-Reaches (some m) fd i h r = ground arith

module _ {F C : Type 0} where
  -- the new greatest file, when the masks of one have become fewer
  abbrev lowered : Ev F C → ℕ → FileEvent F C → Option ℕ
  lowered ev fd e =
      if is_max ev.max_fd fd && is_none e.mask
      then last_with_mask fd (set ev.events fd e)
      else ev.max_fd

  above-fewer :
      (ev : Ev F C) (fd : ℕ) (e : FileEvent F C)
      → IsGreatest ev
      → fd < length ev.events
      → (is_none e.mask ≡ false → is_none (mask_at ev.events fd) ≡ false)
      → (i : ℕ) → is_none (mask_at (set ev.events fd e) i) ≡ false
      → Reaches i ev.max_fd
  above-fewer ev fd e h within fewer i masked = elim (Bool-cases (fd == i)) [
    | inl same ↦
        let here : is_none e.mask ≡ false =
          rw (mask_at-set ev.events fd i e within, same) at masked in
        subst (λ k. Reaches k ev.max_fd) ((==_iff fd i).0 same) (h.above fd (fewer here))
    | inr other ↦ h.above i (rw (mask_at-set ev.events fd i e within, other) at masked)
  ]

  HasMask-other :
      (ev : Ev F C) (fd : ℕ) (e : FileEvent F C)
      → fd < length ev.events
      → (max : Option ℕ) → HasMask ev.events max
      → is_max max fd && is_none e.mask ≡ false
      → HasMask (set ev.events fd e) max
  HasMask-other ev fd e within none h other = tt
  HasMask-other ev fd e within (some m) h other = elim (Bool-cases (fd == m)) [
    | inl same ↦ ap is_none (mask_at-set ev.events fd m e within) ∙ rw same (rw same at other)
    | inr away ↦ ap is_none (mask_at-set ev.events fd m e within) ∙ rw away h
  ]

  lowered-IsGreatest :
      (ev : Ev F C) (fd : ℕ) (e : FileEvent F C)
      → IsGreatest ev
      → fd < length ev.events
      → (is_none e.mask ≡ false → is_none (mask_at ev.events fd) ≡ false)
      → IsGreatest (record ev { events = set ev.events fd e; max_fd = lowered ev fd e })
  lowered-IsGreatest ev fd e h within fewer =
      elim (Bool-cases (is_max ev.max_fd fd && is_none e.mask)) [
        | inr other ↦ rw other (record {
          allocated = length-set ev.events fd e ∙ h.allocated;
          above = above-fewer ev fd e h within fewer;
          used = HasMask-other ev fd e within ev.max_fd h.used other;
        })
        | inl last ↦
            let (above, used) =
              last_with_mask-Greatest fd (set ev.events fd e) (λ i le. beyond i le last) in
            rw last (record {
              allocated = length-set ev.events fd e ∙ h.allocated;
              above = above;
              used = used;
            })
      ]
    where
      beyond :
          (i : ℕ)
          → fd ≤ i
          → is_max ev.max_fd fd && is_none e.mask ≡ true
          → is_none (mask_at (set ev.events fd e) i) ≡ true
      beyond i le last =
          let (max, idle) = and_true (is_max ev.max_fd fd) (is_none e.mask) last in
          elim (Bool-cases (fd == i)) [
            | inl same ↦ ap is_none (mask_at-set ev.events fd i e within) ∙ rw same idle
            | inr other ↦ elim (Bool-cases (is_none (mask_at (set ev.events fd e) i))) [
              | inl none_there ↦ none_there
              | inr masked ↦
                  let low =
                    is_max-Reaches ev.max_fd fd i max
                      (above-fewer ev fd e h within fewer i masked) in
                  absurd (ground (arith, low, le, other))
            ]
          ]

  -- whether there is anything to delete
  abbrev pub registered : Ev F C → ℕ → Bool
  registered ev fd = not (leb ev.num_fds fd) && not (is_none (mask_at ev.events fd))

  abbrev pub Deleted : Bool → Ev F C → ℕ → Mask → Ev F C → Type 0
  Deleted true ev fd mask after =
      Masks ev after fd (mask_without (mask_at ev.events fd) (deleted_mask mask))
  Deleted false ev fd mask after = after ≡ ev

  -- On a table whose greatest file is right, a deletion takes the mask, and EV_BOTH with EV_WRITE,
  -- from its file's mask, leaves every other mask, and leaves the greatest file right; where the
  -- file is past the table or has no mask, nothing changes.
  pub ev_delete_event-Deleted :
      (ev : Ev F C) (fd : ℕ) (mask : Mask)
      → IsGreatest ev
      → Deleted (registered ev fd) ev fd mask (ev_delete_event ev fd mask).1
  unfolding ev_delete_event
  ev_delete_event-Deleted ev fd mask h = elim (Bool-cases (leb ev.num_fds fd)) [
    | inl past ↦ rw past refl
    | inr inside ↦ elim (Bool-cases (is_none (mask_at ev.events fd))) [
      | inl idle ↦ rw (inside, idle) refl
      | inr some_bits ↦
          let within : fd < length ev.events = ground (arith, h.allocated) in
          let e : FileEvent F C = record (get_or ev.events fd no_event) {
            mask = mask_without (mask_at ev.events fd) (deleted_mask mask);
          } in
          rw (inside, some_bits)
            (record {
              greatest =
                  lowered-IsGreatest ev fd e h within
                    (fewer_mask (mask_at ev.events fd) (deleted_mask mask));
              same_size = refl;
              masks = λ i. mask_at-set ev.events fd i e within;
            })
    ]
  ]
