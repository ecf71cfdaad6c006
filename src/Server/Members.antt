-- ===== src/Server/Members.antt =====
-- src/server.c: what a database's set gives back of what was added to it.
use lexidb.Base.{
  ◌≡◌, ◌≢◌, refl, ◌∙◌, Bool, true, false, List, [], Option, some, Bool-cases, inl, inr, arith,
  if◌then◌else◌,
}
use lexidb.Base.Int.{pos}
use lexidb.Builder.{Builder, add_ok, add_none, add_int}
use lexidb.Cmd.{one}
use lexidb.HashSet
use lexidb.HashSet.{HashSet, SetResult, set_ok, set_key_exists, set_inv_key, set_oom, minus_one}
use lexidb.HashSet.Correct.{SetAnswers, insert-SetAnswers, slot_chain, roomy, no_entry}
use lexidb.HashSet.Laws.{IsValid, no_room}
use lexidb.Keys.{KeyOps, IsLawful, same}
use lexidb.Memory.{CallocFits}
use lexidb.Object.{Object}
use lexidb.Parser.Run.{Libc}
use lexidb.Server.{Lexidb, Platform}
use lexidb.Server.Commands.{Answer, replied, first_object, execute_zset, execute_zhas, zset_reply}

module _ {D K : Type 0} (libc : Libc D) (ops : KeyOps K) (lawful : IsLawful ops)
    (value : K → Object D) (p : Platform) (fits : CallocFits p.memory)
    (place place' : Object D → K) where
  -- what a ZHAS replies, by whether the key is there
  abbrev pub zhas_reply : Lexidb K → Builder → Bool → Option (Answer K)
  zhas_reply d b there =
      if there
      then replied d (some (add_int b (pos 1))) true
      else replied d (some (add_none b)) false

  -- All answers but SET_OOM get the reply OK.
  zset_ok :
      (d : Lexidb K) (b : Builder) (r : HashSet K × SetResult)
      → r.1 ≢ set_oom
      → zset_reply libc ops place value p d b r
        ≡ some (record { db = record d { set = r.0 }; reply = add_ok b; counted = true })
  unfolding zset_reply
  zset_ok d b (s, set_ok) h = refl
  zset_ok d b (s, set_key_exists) h = refl
  zset_ok d b (s, set_inv_key) h = refl
  zset_ok d b (s, minus_one) h = refl
  zset_ok d b (s, set_oom) h = absurd (h refl)

  with_memory :
      (full there got : Bool) (failure : SetResult)
      → full ≡ false
      → got ≡ true
      → (if full
          then set_oom
          else if there
          then set_key_exists
          else if got
          then set_ok
          else failure)
        ≡ (if there then set_key_exists else set_ok)
  with_memory full there got failure room given = rw (room, given) refl

  members :
      (s : HashSet K) (k : K) (answer : SetResult) (r : HashSet K × SetResult)
      → SetAnswers ops s k true answer r
      → answer ≡ (if HashSet.has ops s k then set_key_exists else set_ok)
      → (r.1 ≢ set_oom)
        × (HashSet.has ops r.0 k ≡ true)
        × ((q : K) → same ops q k ≡ false → HashSet.has ops r.0 q ≡ HashSet.has ops s q)
  members s k answer r a e = elim (Bool-cases (HashSet.has ops s k)) [
    | inl there ↦
        let known : answer ≡ set_key_exists = rw there at e in
        let kept = a.unchanged (λ h. ground (arith, known, h)) in
        (λ h. ground (arith, known, a.answered, h), kept k ∙ there, λ q _. kept q)
    | inr absent ↦
        let added : answer ≡ set_ok = rw absent at e in
        let w = a.written added in
        (
          λ h. ground (arith, added, a.answered, h),
          w.members k ∙ rw (lawful.same_refl k) refl,
          λ q other. w.members q ∙ rw other refl,
        )
  ]

  -- a database and a reply after a ZSET
  pub record Added (d : Lexidb K) (b : Builder) (o : Object D) (r : Answer K) : Type 0 where
    pub valid : IsValid ops r.db.set
    pub reply : r.reply ≡ add_ok b
    pub there :
        (b' : Builder) (q : Object D)
        → place' q ≡ place o
        → execute_zhas libc ops place' value p r.db b' (one q) ≡ zhas_reply r.db b' true
    pub others :
        (b' : Builder) (q : Object D)
        → same ops (place' q) (place o) ≡ false
        → execute_zhas libc ops place' value p r.db b' (one q)
          ≡ zhas_reply r.db b' (HashSet.has ops d.set (place' q))

  -- With keys compared by an equivalence that the hash respects, and a calloc that gives no array
  -- of 2^64 bytes or more, on a database with a valid set that has room for an entry, and with
  -- memory for it, a ZSET replies OK and leaves the set valid; a ZHAS of the same struct then
  -- replies 1, and of a key that compares as another what it replied before.
  pub execute_zset-Added :
      (d : Lexidb K) (b : Builder) (o : Object D)
      → IsValid ops d.set
      → no_room ops p.memory d.set ≡ false
      → p.memory.malloc ≡ true
      → (r : Answer K) × (execute_zset libc ops place value p d b (one o) ≡ some r) × Added d b o r
  unfolding execute_zset first_object execute_zhas
  execute_zset-Added d b o valid room got =
      let s = HashSet.insert ops p.memory d.set (place o) in
      let a = insert-SetAnswers ops lawful (place o) p.memory fits d.set valid in
      let (no_oom, here, rest) = members d.set (place o) _ s a (with_memory _ _ _ _ room got) in
      (
        record { db = record d { set = s.0 }; reply = add_ok b; counted = true },
        zset_ok d b s no_oom,
        record {
          valid = a.still_valid;
          reply = refl;
          there = λ b' q e. rw (e, here) refl;
          others = λ b' q e. rw (rest (place' q) e) refl;
        },
      )

  -- With keys compared by an equivalence that the hash respects, and a calloc that gives no array
  -- of 2^64 bytes or more, where a valid set has room, but malloc fails and the key's slot is
  -- empty, a ZSET of a key that is not there replies OK and adds nothing.
  pub execute_zset_lost :
      (d : Lexidb K) (b : Builder) (o : Object D)
      → IsValid ops d.set
      → no_room ops p.memory d.set ≡ false
      → p.memory.malloc ≡ false
      → HashSet.has ops d.set (place o) ≡ false
      → slot_chain ops (roomy ops p.memory d.set) (place o) ≡ []
      → (r : Answer K) × (execute_zset libc ops place value p d b (one o) ≡ some r)
        × (r.reply ≡ add_ok b)
        × ((k : K) → HashSet.has ops r.db.set k ≡ HashSet.has ops d.set k)
  unfolding execute_zset first_object
  execute_zset_lost d b o valid room refused absent empty =
      let s = HashSet.insert ops p.memory d.set (place o) in
      let a = insert-SetAnswers ops lawful (place o) p.memory fits d.set valid in
      let answer = without_memory _ _ _ _ room absent refused empty in
      (
        record { db = record d { set = s.0 }; reply = add_ok b; counted = true },
        zset_ok d b s (λ h. ground (arith, answer, a.answered, h)),
        refl,
        a.unchanged (λ h. ground (arith, answer, h)),
      )
    where
      without_memory :
          (full there got : Bool) (c : List K)
          → full ≡ false
          → there ≡ false
          → got ≡ false
          → c ≡ []
          → (if full
              then set_oom
              else if there
              then set_key_exists
              else if got
              then set_ok
              else no_entry c)
            ≡ minus_one
      without_memory full there got c e f g h = rw (e, f, g, h) refl
