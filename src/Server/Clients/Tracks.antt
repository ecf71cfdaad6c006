-- ===== src/Server/Clients/Tracks.antt =====
-- src/server.c: the vector of clients against the list of the clients that are connected.
use lexidb.Base.{
  take, ℕ, ◌+◌, ◌≡◌, refl, ap, sym, ◌∙◌, Bool, true, false, List, [], ◌∷◌, ◌++◌, Option, none, some,
  get_elem?, arith, ==_refl, ◌⊎◌, Bool-cases, Option-cases, inl, inr, subst,
}
use lexidb.Ev.{Ev, Mask, Ctl, ev_add_event}
use lexidb.Server.Clients.{
  Socket, Store, put, Net, found, find_client, Accept, new_socket, ev_read, registered, pushed,
  add_client, server_accept, removed, closed, close_client,
}
use lexidb.Vec.{Vec, push, remove_at, doubled_bytes}
use lexidb.Vec.Correct.{Pushed, push-Pushed, Removed, remove_at-Removed}
use lexidb.Vec.Laws.{AllocFits, IsValid, items, without}
use lexidb.Server.Clients.Placed.{
  Placed, Apart, AreOthers, addresses, Tracks, Distinct-append, Stored-Apart, Stored-append,
  Stored-put, addresses-append, find_client-first_with, first_with-cases, without-Stored,
}

module _ {Handler : Type 0} (realloc : ℕ → Bool) (epoll_ctl : Ctl → Bool)
    (read_from_client : Handler) where
  -- the system refuses what the server needs for the client: the file, its mode, the memory for it and
  -- its buffer, or, where the vector is full, twice its capacity
  abbrev pub IsRefused : Accept → Vec ℕ → Type 0
  IsRefused answer clients =
      (answer.tcp_accept ≡ none)
      ⊎ (answer.nonblocking ≡ false)
      ⊎ (answer.block ≡ none)
      ⊎ (answer.read_buf ≡ false)
      ⊎ ((clients.len ≡ clients.cap) × (realloc (doubled_bytes 0 clients) ≡ false))

  -- a new client behind the others
  pub record IsTaken (answer : Accept) (xs : List Placed) (net after : Net Handler) : Type 0 where
    pub fd : ℕ
    pub address : ℕ
    pub file : answer.tcp_accept ≡ some fd
    pub place : answer.block ≡ some address
    pub tracks : Tracks after (xs ++ (address, new_socket fd) ∷ [])
    pub events : ev_add_event epoll_ctl net.ev fd ev_read read_from_client tt ≡ (true, after.ev)

  -- The table of events has refused the client: it is freed, and its address stays in the vector.
  pub record IsLeft (answer : Accept) (xs : List Placed) (net after : Net Handler) : Type 0 where
    pub fd : ℕ
    pub address : ℕ
    pub file : answer.tcp_accept ≡ some fd
    pub refused : (ev_add_event epoll_ctl net.ev fd ev_read read_from_client tt).0 ≡ false
    pub listed : items after.clients ≡ addresses xs ++ address ∷ []
    pub freed : after.store address ≡ none

  abbrev pub Accepted : Accept → List Placed → Net Handler → Net Handler → Type 0
  Accepted answer xs net after =
      IsTaken answer xs net after
      ⊎ (IsRefused answer net.clients × Tracks after xs × (after.ev ≡ net.ev))
      ⊎ IsLeft answer xs net after

  put_here : (store : Store) (a : ℕ) (o : Option Socket) → put store a o a ≡ o
  put_here store a o = rw (==_refl a) refl

  pushed-Accepted :
      (answer : Accept) (fd a : ℕ) (net : Net Handler) (xs : List Placed) (o : Option (Vec ℕ))
      → answer.tcp_accept ≡ some fd
      → answer.block ≡ some a
      → Tracks net xs
      → Apart a xs
      → Pushed 0 realloc net.clients a o
      → Accepted answer xs net (
          pushed realloc epoll_ctl read_from_client fd a
            (record net { store = put net.store a (some (new_socket fd)) })
            o)
  pushed-Accepted answer fd a net xs none file place h apart (full, refused, held) = inr (
      inl (
        inr (inr (inr (inr (full, refused)))),
        record {
          valid = h.valid;
          listed = h.listed;
          stored = Stored-put net.store a (some (new_socket fd)) xs apart h.stored;
          distinct = h.distinct;
        },
        refl,
      ))
  pushed-Accepted answer fd a net xs (some clients) file place h apart (room, held) =
      go (ev_add_event epoll_ctl net.ev fd ev_read read_from_client tt) refl
    where
      all_listed : items clients ≡ addresses xs ++ a ∷ []
      all_listed = held.same_items ∙ ap (λ as'. as' ++ a ∷ []) h.listed

      go :
          (r : Bool × Ev Handler Unit)
          → ev_add_event epoll_ctl net.ev fd ev_read read_from_client tt ≡ r
          → Accepted answer xs net (
              registered realloc epoll_ctl read_from_client a
                (record net { store = put net.store a (some (new_socket fd)); clients = clients })
                r)
      go (true, ev) e = inl (record {
        fd = fd;
        address = a;
        file = file;
        place = place;
        tracks = record {
          valid = held.still_valid;
          listed = all_listed ∙ sym (addresses-append xs a (new_socket fd));
          stored =
              Stored-append _ xs a (new_socket fd)
                (Stored-put net.store a (some (new_socket fd)) xs apart h.stored)
                (put_here net.store a (some (new_socket fd)));
          distinct = Distinct-append xs a (new_socket fd) h.distinct apart;
        };
        events = e;
      })
      go (false, ev) e = inr (
          inr (record {
            fd = fd;
            address = a;
            file = file;
            refused = ap (λ r. r.0) e;
            listed = all_listed;
            freed = put_here (put net.store a (some (new_socket fd))) a none;
          }))

  -- With an allocator that gives no block of 2^63 bytes, memory for a client only at an address
  -- where nothing stands, and a valid vector of the addresses of the clients, each of which stands
  -- there and no two at one address: accepting a connection either adds its file to the events and
  -- takes a new client with that file behind the others, the vector being so again; or leaves the
  -- clients and the events as they are, because the system refuses the file, its mode, the memory
  -- for the client or for its buffer, or, where the vector is full, twice its capacity; or, where
  -- the table of events refuses the file, leaves the address of a freed client behind the others.
  pub server_accept-Accepted :
      (answer : Accept) (net : Net Handler) (xs : List Placed)
      → AllocFits realloc
      → ((a : ℕ) → answer.block ≡ some a → net.store a ≡ none)
      → Tracks net xs
      → Accepted answer xs net (server_accept realloc epoll_ctl read_from_client answer net)
  server_accept-Accepted answer net xs fits fresh h = elim (Option-cases answer.tcp_accept) [
    | inl e ↦ to net (unfold server_accept in rw e refl) (inr (inl (inl e, h, refl)))
    | inr (fd, e) ↦ elim (Bool-cases answer.nonblocking) [
      | inr blocks ↦
          to net (unfold server_accept in rw (e, blocks) refl)
            (inr (inl (inr (inl blocks), h, refl)))
      | inl opened ↦ elim (Option-cases answer.block) [
        | inl no_block ↦
            to net (unfold server_accept in rw (e, opened, no_block) refl)
              (inr (inl (inr (inr (inl no_block)), h, refl)))
        | inr (a, block) ↦ elim (Bool-cases answer.read_buf) [
          | inr no_buf ↦
              to net (unfold server_accept in rw (e, opened, block, no_buf) refl)
                (inr (inl (inr (inr (inr (inl no_buf))), h, refl)))
          | inl buf ↦
              to (add_client realloc epoll_ctl read_from_client fd a net)
                (unfold server_accept in rw (e, opened, block, buf) refl)
                (unfold add_client in
                  pushed-Accepted answer fd a net xs (push 0 realloc net.clients a) e block h
                    (Stored-Apart net.store a xs (fresh a block) h.stored)
                    (push-Pushed 0 realloc net.clients a fits h.valid))
        ]
      ]
    ]
  ]
    where
      to :
          (n : Net Handler)
          → server_accept realloc epoll_ctl read_from_client answer net ≡ n
          → Accepted answer xs net n
          → Accepted answer xs net (server_accept realloc epoll_ctl read_from_client answer net)
      to n e h = subst (λ n. Accepted answer xs net n) (sym e) h

  -- What closing a file leaves: all clients, where none has the file, and else all but the first that
  -- has it, whose address is freed.
  abbrev pub Closed : ℕ → List Placed → Net Handler → Type 0
  Closed fd xs after =
      (AreOthers fd xs × Tracks after xs)
      ⊎ ((i : ℕ) × (a : ℕ) × (s : Socket) × (get_elem? xs i ≡ some (a, s))
          × (s.fd ≡ fd)
          × AreOthers fd (take i xs)
          × Tracks after (without i xs)
          × (after.store a ≡ none))

  removed-Holds :
      (net : Net Handler) (xs : List Placed) (i a : ℕ)
      → Tracks net xs
      → get_elem? (addresses xs) i ≡ some a
      → let clients =
          removed realloc epoll_ctl read_from_client net.clients (remove_at 0 net.clients i) in
        IsValid clients × (items clients ≡ without i (addresses xs))
  removed-Holds net xs i a h at_i =
      go (remove_at 0 net.clients i) (remove_at-Removed 0 net.clients i h.valid)
    where
      go :
          (r : Option (ℕ × Vec ℕ))
          → Removed 0 net.clients i r
          → let clients = removed realloc epoll_ctl read_from_client net.clients r in
            IsValid clients × (items clients ≡ without i (addresses xs))
      go none past = absurd (let clash = sym past ∙ ap (λ ys. get_elem? ys i) h.listed ∙ at_i in cc)
      go (some (b, w)) (here, held) =
          (held.still_valid, held.same_items ∙ ap (λ ys. without i ys) h.listed)

  -- Where the vector has the addresses of the clients, each of which stands there and no two at one
  -- address: closing a file follows no address in the vector that does not stand, and either finds
  -- no client with the file and leaves them as they are, or takes the client with the file that
  -- none with the same file stands before out of the vector and frees its address; the others stay,
  -- in order, the vector being so again.
  pub close_client-Closed :
      (fd : ℕ) (mask : Mask) (net : Net Handler) (xs : List Placed)
      → Tracks net xs
      → (after : Net Handler) × (close_client realloc epoll_ctl read_from_client fd mask net
          ≡ some after)
        × Closed fd xs after
  unfolding close_client
  close_client-Closed fd mask net xs h =
      let looked =
        ap (λ ys. find_client fd net.store ys 0) h.listed
        ∙ find_client-first_with fd net.store xs 0 h.stored in
      elim (first_with-cases fd xs 0) [
        | inl (no_client, others) ↦ (
          _,
          ap (λ f. closed realloc epoll_ctl read_from_client fd mask net f) (looked ∙ no_client),
          inl (
            others,
            record { valid = h.valid; listed = h.listed; stored = h.stored; distinct = h.distinct },
          ),
        )
        | inr (i, a, s, there, at_i, same, others) ↦
            let (stored, distinct, apart, listed, at_a) =
              without-Stored net.store xs i a s h.stored h.distinct at_i in
            let (valid, left) = removed-Holds net xs i a h at_a in
            let index : 0 + i ≡ i = omega arith in
            (
              _,
              ap (λ f. closed realloc epoll_ctl read_from_client fd mask net f)
                  (looked ∙ there ∙ ap (λ k. found k a s) index),
              inr (
                i,
                a,
                s,
                at_i,
                same,
                others,
                record {
                  valid = valid;
                  listed = left ∙ sym listed;
                  stored = Stored-put net.store a none (without i xs) apart stored;
                  distinct = distinct;
                },
                put_here net.store a none,
              ),
            )
      ]
