-- ===== src/Ev.antt =====
-- src/ev.h, src/ev.c, src/ev_epoll.c: the table of events and its masks. `F` are the functions that
-- handle events, and `C` the pointers that they are given. A mask is its bits EV_READ, EV_WRITE and
-- EV_BOTH. The kernel is what it answers: epoll_ctl and epoll_wait are parameters.
pub mod Greatest
pub mod Deletes
pub mod Select
use lexidb.Base.{
  ℕ, zero, suc, ◌+◌, Bool, true, false, ◌&&◌, ◌||◌, not, List, [], ◌∷◌, ◌++◌, Option, none, some,
  length, get_or, set, replicate, ltb, leb, ◌==◌, if◌then◌else◌,
}

pub record Mask : Type 0 where
  pub read : Bool
  pub write : Bool
  pub both : Bool

abbrev pub ev_none : Mask
ev_none = record { read = false; write = false; both = false }

unfoldable pub is_none : Mask → Bool
is_none m = not (m.read || (m.write || m.both))

-- `a | b` and `a & ~b`
unfoldable pub mask_or : Mask → Mask → Mask
mask_or a b = record {
  read = a.read || b.read;
  write = a.write || b.write;
  both = a.both || b.both;
}

unfoldable pub mask_without : Mask → Mask → Mask
mask_without a b = record {
  read = a.read && not b.read;
  write = a.write && not b.write;
  both = a.both && not b.both;
}

-- `ev_file_event`; a function that has not been set is `none`
pub record FileEvent (F C : Type 0) : Type 0 where
  pub mask : Mask
  pub read_fn : Option F
  pub write_fn : Option F
  pub client_data : Option C

-- `max_fd` is `none` for -1.
pub record Ev (F C : Type 0) : Type 0 where
  pub max_fd : Option ℕ
  pub num_fds : ℕ
  pub events : List (FileEvent F C)

-- a call of epoll_ctl
pub data CtlOp : Type 0 where
  ctl_add ctl_mod ctl_del : CtlOp

pub record Ctl : Type 0 where
  pub op : CtlOp
  pub fd : ℕ
  pub epollin : Bool
  pub epollout : Bool

abbrev pub later_of : Option ℕ → ℕ → Option ℕ
later_of none fd = some fd
later_of (some m) fd = if ltb m fd then some fd else some m

-- `if (mask & EV_WRITE) mask |= EV_BOTH`
unfoldable pub deleted_mask : Mask → Mask
deleted_mask m = record m { both = m.write || m.both }

abbrev pub is_max : Option ℕ → ℕ → Bool
is_max none fd = false
is_max (some m) fd = fd == m

module _ {F C : Type 0} where
  abbrev pub no_event : FileEvent F C
  no_event = record { mask = ev_none; read_fn = none; write_fn = none; client_data = none }

  abbrev pub mask_at : List (FileEvent F C) → ℕ → Mask
  mask_at events fd = (get_or events fd no_event).mask

  -- `malloc` is whether each of the allocations and epoll_create succeeds
  unfoldable pub ev_new : Bool → ℕ → Option (Ev F C)
  ev_new malloc num_fds =
      if malloc
      then some (record { max_fd = none; num_fds = num_fds; events = replicate num_fds no_event })
      else none

  -- `ev_api_add_event`: what epoll_ctl is called with
  unfoldable pub ev_api_add_event : Ev F C → ℕ → Mask → Ctl
  unfolding is_none mask_or
  ev_api_add_event ev fd mask =
      let old = mask_at ev.events fd in
      let all = mask_or mask old in
      record {
        op = if is_none old then ctl_add else ctl_mod;
        fd = fd;
        epollin = all.read;
        epollout = all.write;
      }

  unfoldable pub ev_api_del_event : Ev F C → ℕ → Mask → Ctl
  unfolding is_none mask_without
  ev_api_del_event ev fd delmask =
      let left = mask_without (mask_at ev.events fd) delmask in
      record {
        op = if is_none left then ctl_del else ctl_mod;
        fd = fd;
        epollin = left.read;
        epollout = left.write;
      }

  unfoldable pub event_with : FileEvent F C → Mask → F → C → FileEvent F C
  unfolding mask_or
  event_with e mask fn client_data = record {
    mask = mask_or e.mask mask;
    read_fn = if mask.read then some fn else e.read_fn;
    write_fn = if mask.write then some fn else e.write_fn;
    client_data = some client_data;
  }

  unfoldable pub ev_add_event : (Ctl → Bool) → Ev F C → ℕ → Mask → F → C → Bool × Ev F C
  unfolding ev_api_add_event event_with
  ev_add_event epoll_ctl ev fd mask fn client_data =
      if leb ev.num_fds fd
      then (false, ev)
      else if epoll_ctl (ev_api_add_event ev fd mask)
      then (
        true,
        record ev {
          events = set ev.events fd (event_with (get_or ev.events fd no_event) mask fn client_data);
          max_fd = later_of ev.max_fd fd;
        },
      )
      else (false, ev)

  -- the loop of `ev_delete_event` from `n - 1` down: the last event with a mask
  unfoldable pub last_with_mask : ℕ → List (FileEvent F C) → Option ℕ
  unfolding is_none
  last_with_mask zero events = none
  last_with_mask (suc n) events =
      let lower = last_with_mask n events in if is_none (mask_at events n) then lower else some n

  -- the calls of epoll_ctl, of which the answers are not looked at, and the table
  unfoldable pub ev_delete_event : Ev F C → ℕ → Mask → List Ctl × Ev F C
  unfolding is_none mask_without last_with_mask deleted_mask ev_api_del_event
  ev_delete_event ev fd mask =
      let e = get_or ev.events fd no_event in
      let all = deleted_mask mask in
      let left = mask_without e.mask all in
      let events = set ev.events fd (record e { mask = left }) in
      let after = record ev {
        events = events;
        max_fd =
            if is_max ev.max_fd fd && is_none left then last_with_mask fd events else ev.max_fd;
      } in
      if leb ev.num_fds fd
      then ([], ev)
      else if is_none e.mask
      then ([], ev)
      else (ev_api_del_event ev fd all ∷ ev_api_del_event after fd all ∷ [], after)

-- what epoll_wait reports of a file
pub record EpollEvent : Type 0 where
  pub fd : ℕ
  pub epollin : Bool
  pub epollout : Bool
  pub epollerr : Bool
  pub epollhup : Bool

-- `ev_api_poll`: the file and the mask of a fired event
unfoldable pub fired_mask : EpollEvent → ℕ × Mask
fired_mask e = (
  e.fd,
  record {
    read = e.epollin || (e.epollerr || e.epollhup);
    write = e.epollout || (e.epollerr || e.epollhup);
    both = false;
  },
)

-- The program's state, with the table in it, and what a function does to it.
module _ {F C S : Type 0} (same_fn : Option F → Option F → Bool) (event_at : S → ℕ → FileEvent F C)
    (call : Option F → ℕ → Option C → Mask → S → S) where
  -- whether anything has fired, and the state: a function of the event is called where the bits agree
  unfoldable pub fire_read : ℕ → Mask → Bool → Bool × S → Bool × S
  fire_read fd mask only (fired, s) =
      let e = event_at s fd in
      let after = call e.read_fn fd e.client_data mask s in
      if e.mask.read && mask.read && only && (not fired || not (same_fn e.write_fn e.read_fn))
      then (true, after)
      else (fired, s)

  unfoldable pub fire_write : ℕ → Mask → Bool × S → Bool × S
  fire_write fd mask (fired, s) =
      let e = event_at s fd in
      let after = call e.write_fn fd e.client_data mask s in
      if e.mask.write && mask.write && (not fired || not (same_fn e.write_fn e.read_fn))
      then (true, after)
      else (fired, s)

  -- a round of the loop of `ev_process_events`
  unfoldable pub process_event : ℕ × Mask → S → S
  unfolding fire_read fire_write
  process_event (fd, mask) s =
      let invert = (event_at s fd).mask.both in
      (fire_read fd mask invert (fire_write fd mask (fire_read fd mask (not invert) (false, s)))).1

  unfoldable pub process_fired : List (ℕ × Mask) → S → S
  unfolding process_event
  process_fired [] s = s
  process_fired (x ∷ xs) s = process_fired xs (process_event x s)
