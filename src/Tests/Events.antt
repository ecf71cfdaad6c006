-- ===== src/Tests/Events.antt =====
-- The table of events, with two files in it.
use lexidb.Base.{
  ltb, replicate, ◌≤◌, zero, suc, not, ◌&&◌, leb, ℕ, ◌≡◌, refl, Bool, true, false, List, [], ◌∷◌,
  Option, some, none, arith,
}
use lexidb.Ev.{
  mask_at, Mask, FileEvent, Ev, Ctl, no_event, ev_add_event, ev_delete_event, ev_api_add_event,
  process_fired, process_event, fire_read, fire_write, is_none, ev_new,
}
use lexidb.Ev.Deletes.{Deleted, registered, ev_delete_event-Deleted}
use lexidb.Ev.Select.{EvApi, EvCall, adds, deletes, ev_calls, select_new}
use lexidb.Ev.Select.Reports.{Reports, ev_calls-Reports}
use lexidb.Ev.Greatest.{IsGreatest, Added, ev_add_event-Added}

abbrev reads : Mask
reads = record { read = true; write = false; both = false }

abbrev writes : Mask
writes = record { read = false; write = true; both = false }

abbrev reading : FileEvent ℕ ℕ
reading = record { mask = reads; read_fn = some 7; write_fn = none; client_data = some 1 }

-- files 1 and 3 of five
abbrev ev : Ev ℕ ℕ
ev = record {
  max_fd = some 3;
  num_fds = 5;
  events = no_event ∷ reading ∷ no_event ∷ reading ∷ no_event ∷ [];
}

abbrev takes_all : Ctl → Bool
takes_all c = true

ev-IsGreatest : IsGreatest ev
unfolding is_none
ev-IsGreatest = record { allocated = refl; above = above; used = refl }
  where
    above : (i : ℕ) → is_none (mask_at ev.events i) ≡ false → i ≤ 3
    above zero h = omega arith
    above (suc zero) h = omega arith
    above (suc (suc zero)) h = omega arith
    above (suc (suc (suc zero))) h = omega arith
    above (suc (suc (suc (suc zero)))) h = absurd cc
    above (suc (suc (suc (suc (suc i))))) h = absurd cc

ev_add_event-Added_example :
    Added ev 4 writes (ev_add_event takes_all ev 4 writes 9 2)
    × ((ev_add_event takes_all ev 4 writes 9 2).0
        ≡ not (leb ev.num_fds 4) && takes_all (ev_api_add_event ev 4 writes))
unfolding is_none
ev_add_event-Added_example = ev_add_event-Added takes_all ev 4 writes 9 2 ev-IsGreatest refl

ev_delete_event-Deleted_example :
    Deleted (registered ev 3) ev 3 reads (ev_delete_event ev 3 reads).1
ev_delete_event-Deleted_example = ev_delete_event-Deleted ev 3 reads ev-IsGreatest

-- A file past the number of files is refused.
no_room : ev_add_event takes_all ev 5 reads 9 2 ≡ (false, ev)
unfolding ev_add_event
no_room = refl

-- With EV_BOTH a file that can be read and written is written first.
abbrev called : List ℕ
called =
    process_fired same (λ s i. e) (λ fn fd c m s. log fn s)
      ((3, record { read = true; write = true; both = false }) ∷ []) []
  where
    same : Option ℕ → Option ℕ → Bool
    same f g = false

    log : Option ℕ → List ℕ → List ℕ
    log none s = s
    log (some f) s = f ∷ s

    e : FileEvent ℕ ℕ
    e = record {
      mask = record { read = true; write = true; both = true };
      read_fn = some 7;
      write_fn = some 9;
      client_data = none;
    }

written_first : called ≡ 7 ∷ 9 ∷ []
unfolding process_fired process_event fire_read fire_write
written_first = refl

-- two files are registered, and one of them is taken out again
abbrev select_calls : List (EvCall ℕ ℕ)
select_calls = adds 1 reads 7 1 ∷ adds 2 writes 8 1 ∷ deletes 1 reads ∷ []

abbrev idle_ev : Ev ℕ ℕ
idle_ev = record { max_fd = none; num_fds = 4; events = replicate 4 no_event }

idle_ev-made : ev_new true 4 ≡ some idle_ev
unfolding ev_new
idle_ev-made = refl

-- of the files that select is asked about, those from 2 on are ready to be written
abbrev some_select : ℕ → EvApi → Option EvApi
some_select n api = some (record {
  rfds = λ i. ltb i n && (api.rfds i && false);
  wfds = λ i. ltb i n && (api.wfds i && leb 2 i);
})

ev_calls-Reports_example :
    (s : EvApi × Ev ℕ ℕ) × (ev_calls (select_new, idle_ev) select_calls ≡ some s)
    × Reports some_select (λ i. false) (λ i. leb 2 i) s
ev_calls-Reports_example =
    ev_calls-Reports 4 select_calls idle_ev some_select (λ i. false) (λ i. leb 2 i) (omega arith)
      idle_ev-made (unfold is_none in (refl, (refl, (tt, tt))))
      (λ n api. (_, refl, λ i. (refl, refl)))
