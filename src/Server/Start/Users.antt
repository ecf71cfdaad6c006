-- ===== src/Server/Start/Users.antt =====
-- src/server.c (add_users): the loop over the configuration's users, and who can log in afterwards.
use lexidb.Auth.{hash_password, time_safe_equal_iff}
use lexidb.Base.{
  ℕ, zero, suc, ◌+◌, ◌^◌, ◌≤◌, ◌<◌, ◌≡◌, ◌≢◌, ◌⊎◌, refl, sym, ◌∙◌, ap, Bool, false, Option, none,
  some, List, [], ◌∷◌, ◌++◌, map, arith, length, take, drop, get_elem?, inl, inr, append_assoc,
  append-nil, Option-cases, some-injective, subst,
}
use lexidb.Keys.{KeyOps}
use lexidb.Object.{Object, string}
use lexidb.Parser.Run.{Libc}
use lexidb.Server.{Server, User, Platform}
use lexidb.Server.Execute.{find_user, check_password, logged_in}
use lexidb.ConfigParser.{no_user}
use lexidb.Server.Start.{hashed, same_name, add_user, next_round, round, add_loop, add_users}
use lexidb.Vec.{Vec, find, find_from, push}
use lexidb.Vec.Correct.{Holds, Pushed, push-Pushed}
use lexidb.Vec.Iter.{standing, standing-next, starts, within}
use lexidb.Vec.Laws.{AllocFits, items, IsValid, length-take}
use lexidb.Server.Start.Search.{
  found_user, find_from-find_user, finds_itself, find_user-append, find_user-append_none, drop-take,
  drop-all,
}

module _ (realloc : ℕ → Bool) (sha256 : List ℕ → List ℕ) where
  -- the users of a list, taken in one after the other
  abbrev then_add : Option (Vec User) → (Vec User → Option (Vec User)) → Option (Vec User)
  then_add none go = none
  then_add (some users) go = go users

  add_list : List User → Vec User → Option (Vec User)
  add_list [] users = some users
  add_list (u ∷ us) users = then_add (add_user realloc sha256 users u) (λ w. add_list us w)

  next_round-then_add :
      (config : Vec User) (o : Option (Vec User)) (go : Vec User → Option (Option (Vec User)))
      (same : Vec User → Option (Vec User))
      → ((w : Vec User) → go w ≡ some (same w))
      → next_round realloc sha256 config o go ≡ some (then_add o same)
  next_round-then_add config none go same h = refl
  next_round-then_add config (some w) go same h = h w

  add_loop-add_list :
      (config : Vec User) (left i : ℕ) (users : Vec User)
      → i + left ≡ config.len
      → config.len < 2 ^ 63
      → config.len ≤ length config.slots
      → add_loop realloc sha256 config (suc left) (standing config.len i) users
        ≡ some (add_list (drop i (items config)) users)
  unfolding add_loop round add_list
  add_loop-add_list config zero i users e small fits =
      let past : within config.len i ≡ none = ground arith in
      rw (past, drop-all i (items config) (omega (arith, length-take config.len config.slots fits)))
        refl
  add_loop-add_list config (suc left) i users e small fits =
      let here : within config.len i ≡ some i = ground arith in
      rw (here, drop-take i config.len config.slots (omega arith) fits)
        (next_round-then_add config _ _ _ (λ w.
          ap (λ it. add_loop realloc sha256 config (suc left) it w)
            (standing-next config.len i (omega arith) small)
          ∙ add_loop-add_list config left (suc i) w (omega arith) small fits))

  -- why the users of a list were not all taken in: one has the name of an earlier one, or realloc refused
  abbrev pub Blocked : List User → List User → Type 0
  Blocked before us =
      ((i : ℕ) × (u : User) × (get_elem? us i ≡ some u)
        × (find_user u.name (before ++ map (hashed sha256) (take i us)) ≢ none))
      ⊎ ((n : ℕ) × (realloc n ≡ false))

  -- the users after those of a list were taken in: theirs are found by their names
  pub record TakenIn (before us : List User) (w : Vec User) : Type 0 where
    pub valid : IsValid w
    pub same : items w ≡ before ++ map (hashed sha256) us
    pub found :
        (i : ℕ) (u : User)
        → get_elem? us i ≡ some u
        → find_user u.name (items w) ≡ some (hashed sha256 u)

  abbrev pub Taken : List User → List User → Option (Vec User) → Type 0
  Taken before us none = Blocked before us
  Taken before us (some w) = TakenIn before us w

  abbrev TakenOne : Vec User → User → Option (Vec User) → Type 0
  TakenOne users u none = (find_user u.name (items users) ≢ none) ⊎ ((n : ℕ) × (realloc n ≡ false))
  TakenOne users u (some w) =
      (find_user u.name (items users) ≡ none)
      × Holds no_user w (items users ++ hashed sha256 u ∷ [])

  add_user-TakenOne :
      (users : Vec User) (u : User)
      → AllocFits realloc
      → IsValid users
      → TakenOne users u (add_user realloc sha256 users u)
  unfolding add_user find
  add_user-TakenOne users u fits valid =
      elim (Option-cases (find_from (same_name u) users.len users.slots 0)) [
        | inr (r, there) ↦ rw there (
            inl (λ free.
              let same = find_from-find_user u users.len 0 users.slots in
              let is_there = ap found_user there in absurd cc))
        | inl nobody ↦ rw nobody (
            go (sym (find_from-find_user u users.len 0 users.slots) ∙ ap found_user nobody)
              (push no_user realloc users (hashed sha256 u))
              (push-Pushed no_user realloc users (hashed sha256 u) fits valid))
      ]
    where
      go :
          find_user u.name (items users) ≡ none
          → (o : Option (Vec User)) → Pushed no_user realloc users (hashed sha256 u) o
          → TakenOne users u o
      go free none (full, refused, h) = inr (_, refused)
      go free (some w) (room, h) = (free, h)

  -- What becomes of the users behind one that was taken in, as seen from before it.
  behind-Taken :
      (before us : List User) (u : User) (o : Option (Vec User))
      → find_user u.name before ≡ none
      → Taken (before ++ hashed sha256 u ∷ []) us o
      → Taken before (u ∷ us) o
  behind-Taken before us u none free (inl (i, x, at_i, twice)) = inl (
    suc i,
    x,
    at_i,
    λ none_there. twice (
        ap (find_user x.name)
          (append_assoc before (hashed sha256 u ∷ []) (map (hashed sha256) (take i us)))
        ∙ none_there),
  )
  behind-Taken before us u none free (inr refused) = inr refused
  behind-Taken before us u (some w) free h = record {
    valid = h.valid;
    same = h.same ∙ append_assoc before (hashed sha256 u ∷ []) (map (hashed sha256) us);
    found = found;
  }
    where
      found :
          (i : ℕ) (x : User)
          → get_elem? (u ∷ us) i ≡ some x
          → find_user x.name (items w) ≡ some (hashed sha256 x)
      found zero x at_0 =
          subst (λ y. find_user y.name (items w) ≡ some (hashed sha256 y)) (some-injective _ _ at_0)
            (ap (find_user u.name) h.same
              ∙ find_user-append u.name (before ++ hashed sha256 u ∷ []) (map (hashed sha256) us)
                  (hashed sha256 u)
                  (find_user-append_none u.name before (hashed sha256 u ∷ []) free
                    ∙ finds_itself (hashed sha256 u)))
      found (suc i) x at_i = h.found i x at_i

  add_list-Taken :
      (us : List User) (users : Vec User)
      → AllocFits realloc
      → IsValid users
      → Taken (items users) us (add_list us users)
  unfolding add_list
  add_list-Taken [] users fits valid = record {
    valid = valid;
    same = sym (append-nil (items users));
    found = λ i u at_i. absurd cc;
  }
  add_list-Taken (u ∷ us) users fits valid =
      go (λ w v. add_list-Taken us w fits v) (add_user realloc sha256 users u)
        (add_user-TakenOne users u fits valid)
    where
      go :
          ((w : Vec User) → IsValid w → Taken (items w) us (add_list us w))
          → (o : Option (Vec User)) → TakenOne users u o
          → Taken (items users) (u ∷ us) (then_add o (λ w. add_list us w))
      go rest none (inl twice) = inl (
        0,
        u,
        refl,
        λ none_there. twice (ap (find_user u.name) (sym (append-nil (items users))) ∙ none_there),
      )
      go rest none (inr refused) = inr refused
      go rest (some w) (free, h) =
          behind-Taken (items users) us u (add_list us w) free
            (subst (λ xs. Taken xs us (add_list us w)) h.same_items (rest w h.still_valid))

  -- With an allocator that gives no block of 2^63 bytes, and users in the configuration, fewer than
  -- 2^63, the loop over them ends, after a round for each: with -1 only where one has a name that
  -- is there before it or where realloc refuses, and else with all of them behind the users there
  -- were, each with its password's hash, and each the one that its name finds.
  pub add_users-Taken :
      (config users : Vec User)
      → AllocFits realloc
      → IsValid config
      → IsValid users
      → 0 < config.len
      → config.len < 2 ^ 63
      → (o : Option (Vec User)) × (add_users realloc sha256 config (suc config.len) users ≡ some o)
        × Taken (items users) (items config) o
  unfolding add_users
  add_users-Taken config users fits configured valid some_in small = (
    add_list (items config) users,
    ap (λ it. add_loop realloc sha256 config (suc config.len) it users)
          (starts config some_in small)
        ∙ add_loop-add_list config config.len 0 users (omega arith) small
            (omega (arith, configured.within, configured.allocated)),
    add_list-Taken (items config) users fits valid,
  )

module _ {D K : Type 0} (libc : Libc D) (ops : KeyOps K) (place : Object D → K)
    (value : K → Object D) (p : Platform) where
  -- With an allocator that gives no block of 2^63 bytes, a server whose users are those that the
  -- loop gave lets in each user of the configuration, by the name and the password that stand
  -- there.
  pub logged_in-add_users :
      (s : Server K) (config users w : Vec User) (i : ℕ) (u : User)
      → AllocFits p.realloc
      → IsValid config
      → IsValid users
      → 0 < config.len
      → config.len < 2 ^ 63
      → add_users p.realloc p.sha256 config (suc config.len) users ≡ some (some w)
      → s.users ≡ items w
      → get_elem? (items config) i ≡ some u
      → logged_in libc ops place value p s (string u.name) (string u.password)
        ≡ some (hashed p.sha256 u)
  unfolding logged_in check_password
  logged_in-add_users s config users w i u fits configured valid some_in small done same at_i =
      let (o, ends, taken) =
        add_users-Taken p.realloc p.sha256 config users fits configured valid some_in small in
      let is_w : o ≡ some w = some-injective _ _ (sym ends ∙ done) in
      let all = subst (λ r. Taken p.realloc p.sha256 (items users) (items config) r) is_w taken in
      let hash = hash_password p.sha256 u.password in
      let right = (time_safe_equal_iff hash hash refl).1 refl in
      rw (same, all.found i u at_i, right) refl
