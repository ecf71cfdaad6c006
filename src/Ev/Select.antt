-- ===== src/Ev/Select.antt =====
-- src/ev_select.c, and src/ev.c (ev_resize_num_fds): events where there is no epoll. An fd_set is the
-- files in it, below FD_SETSIZE.
pub mod Mirrors
pub mod Reports
use lexidb.Base.{
  ltb, ℕ, zero, suc, ◌+◌, Bool, true, false, ◌&&◌, ◌||◌, List, [], ◌∷◌, ◌++◌, Option, none, some,
  length, leb, ◌==◌, take, map, not, if◌then◌else◌,
}
use lexidb.Ev.{
  Mask, ev_none, is_none, FileEvent, Ev, no_event, mask_at, ev_add_event, ev_delete_event,
  deleted_mask,
}

abbrev pub FdSet : Type 0
FdSet = ℕ → Bool

abbrev pub fd_setsize : ℕ
fd_setsize = 1024

-- FD_SET and FD_CLR; `none` is a write past the set
unfoldable pub fd_set : FdSet → ℕ → Option FdSet
fd_set s fd = if ltb fd fd_setsize then some (λ i. if fd == i then true else s i) else none

unfoldable pub fd_clr : FdSet → ℕ → Option FdSet
fd_clr s fd = if ltb fd fd_setsize then some (λ i. if fd == i then false else s i) else none

-- the files that select is asked about
pub record EvApi : Type 0 where
  pub rfds : FdSet
  pub wfds : FdSet

unfoldable pub select_new : EvApi
select_new = record { rfds = λ i. false; wfds = λ i. false }

-- `ev_api_resize`
unfoldable pub select_resize : ℕ → Bool
select_resize setsize = if leb fd_setsize setsize then false else true

abbrev if_bit : Bool → Option FdSet → FdSet → Option FdSet
if_bit true changed s = changed
if_bit false changed s = some s

abbrev both_sets : Option FdSet → Option FdSet → Option EvApi
both_sets none w = none
both_sets (some r) none = none
both_sets (some r) (some w) = some (record { rfds = r; wfds = w })

unfoldable pub select_add_event : EvApi → ℕ → Mask → Option EvApi
unfolding fd_set
select_add_event api fd mask =
    both_sets (if_bit mask.read (fd_set api.rfds fd) api.rfds)
      (if_bit mask.write (fd_set api.wfds fd) api.wfds)

unfoldable pub select_del_event : EvApi → ℕ → Mask → Option EvApi
unfolding fd_clr
select_del_event api fd mask =
    both_sets (if_bit mask.read (fd_clr api.rfds fd) api.rfds)
      (if_bit mask.write (fd_clr api.wfds fd) api.wfds)

abbrev pub num_files : Option ℕ → ℕ
num_files none = 0
num_files (some m) = m + 1

abbrev is_past : Option ℕ → ℕ → Bool
is_past none num_fds = false
is_past (some m) num_fds = leb num_fds m

module _ {F C : Type 0} where
  -- the loop of `ev_api_poll`, from the file `j` on, for `n` files
  unfoldable pub poll_loop : ℕ → ℕ → List (FileEvent F C) → EvApi → List (ℕ × Mask)
  unfolding is_none
  poll_loop j zero events ready = []
  poll_loop j (suc n) events ready =
      let mask = mask_at events j in
      let rest = poll_loop (j + 1) n events ready in
      let fired : Mask = record {
        read = mask.read && ready.rfds j;
        write = mask.write && ready.wfds j;
        both = false;
      } in
      if is_none mask then rest else (j, fired) ∷ rest

  abbrev pub polled : Ev F C → Option EvApi → List (ℕ × Mask)
  polled ev none = []
  polled ev (some ready) = poll_loop 0 (num_files ev.max_fd) ev.events ready

  -- `ev_api_poll`. `select`, given one more than the greatest file and the sets, answers what it leaves
  -- in the sets, or that its result is not positive.
  unfoldable pub select_poll : (ℕ → EvApi → Option EvApi) → Ev F C → EvApi → List (ℕ × Mask)
  unfolding poll_loop
  select_poll select ev api = polled ev (select (num_files ev.max_fd) api)

  abbrev pub unmasked : FileEvent F C → FileEvent F C
  unmasked e = record e { mask = ev_none }

  -- the array of events after realloc, which leaves `fresh` behind the old ones
  abbrev recapped : List (FileEvent F C) → ℕ → List (FileEvent F C) → List (FileEvent F C)
  recapped events num_fds fresh = take num_fds (events ++ fresh)

  -- `resizes` is what ev_api_resize answers, and the others what the two calls of realloc do
  unfoldable pub ev_resize_num_fds :
      Bool → Bool → Bool → List (FileEvent F C) → Ev F C → ℕ → Bool × Ev F C
  ev_resize_num_fds resizes realloc_events realloc_fired fresh ev num_fds =
      let resized = recapped ev.events num_fds fresh in
      if ev.num_fds == num_fds
      then (true, ev)
      else if is_past ev.max_fd num_fds
      then (false, ev)
      else if not (resizes && realloc_events)
      then (false, ev)
      else if realloc_fired
      then (true, record ev { events = map unmasked resized })
      else (false, record ev { events = resized })

-- a call of `ev_add_event` or of `ev_delete_event`
pub data EvCall (F C : Type 0) : Type 0 where
  adds : ℕ → Mask → F → C → EvCall F C
  deletes : ℕ → Mask → EvCall F C

abbrev pub and_api : Option EvApi → (EvApi → Option EvApi) → Option EvApi
and_api none next = none
and_api (some api) next = next api

module _ {F C : Type 0} where
  abbrev pub with_table : Option EvApi → Ev F C → Option (EvApi × Ev F C)
  with_table none ev = none
  with_table (some api) ev = some (api, ev)

  -- A call on the table, with what it does to the sets. `ev_delete_event` asks for the event to be
  -- deleted before and after it writes the table.
  unfoldable pub ev_call : EvApi × Ev F C → EvCall F C → Option (EvApi × Ev F C)
  unfolding ev_add_event ev_delete_event select_add_event select_del_event deleted_mask is_none
  ev_call (api, ev) (adds fd mask fn d) =
      let (added, after) = ev_add_event (λ c. true) ev fd mask fn d in
      if added then with_table (select_add_event api fd mask) after else some (api, after)
  ev_call (api, ev) (deletes fd mask) =
      let after = (ev_delete_event ev fd mask).1 in
      let all = deleted_mask mask in
      if leb ev.num_fds fd || is_none (mask_at ev.events fd)
      then some (api, after)
      else with_table (and_api (select_del_event api fd all) (λ api'. select_del_event api' fd all))
          after

  abbrev pub and_calls :
      Option (EvApi × Ev F C) → (EvApi × Ev F C → Option (EvApi × Ev F C)) → Option (EvApi × Ev F C)
  and_calls none next = none
  and_calls (some s) next = next s

  unfoldable pub ev_calls : EvApi × Ev F C → List (EvCall F C) → Option (EvApi × Ev F C)
  unfolding ev_call
  ev_calls s [] = some s
  ev_calls s (x ∷ xs) = and_calls (ev_call s x) (λ t. ev_calls t xs)
