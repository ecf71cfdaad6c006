-- ===== src/Server/Storage.antt =====
-- src/server.c: what a database gives back of what was stored in it.
use lexidb.Base.{[], ◌≡◌, refl, Bool, true, false, Option, some, arith, if◌then◌else◌}
use lexidb.Builder.{Builder, add_ok, add_object}
use lexidb.Cmd.{one, two}
use lexidb.Ht
use lexidb.Ht.{Ht, HtResult, ht_ok, ht_inv_key, ht_oom}
use lexidb.Keys.{KeyOps, IsLawful, same}
use lexidb.Memory.{CallocFits}
use lexidb.Object.{Object}
use lexidb.Parser.Commands.{parse_from_server}
use lexidb.Parser.Run.{Libc, ret}
use lexidb.Parser.Scan.{at}
use lexidb.Protocol.RoundTrip.{parse_from_server-add_object}
use lexidb.Protocol.Values.{IsStandard, Fits, reread}
use lexidb.Server.{Lexidb, Platform}
use lexidb.Server.Commands.{
  Answer, replied, first_object, second_object, execute_set, execute_get, set_reply, get_reply,
}

-- The two requests may have put their objects at different places.
module _ {D K : Type 0} (libc : Libc D) (ops : KeyOps K) (lawful : IsLawful ops)
    (value : K → Object D) (p : Platform) (fits : CallocFits p.memory)
    (place place' : Object D → K) where
  -- A database and a reply after a SET.
  pub record Stored (d : Lexidb K) (b : Builder) (k v : Object D) (r : Answer K) : Type 0 where
    pub valid : Ht.Laws.IsValid ops r.db.dict
    pub reply : r.reply ≡ add_ok b
    pub reads :
        (b' : Builder) (q : Object D)
        → execute_get libc ops place' value p r.db b' (one q) ≡ (
            if same ops (place' q) (place k)
            then replied r.db (add_object libc b' (value (place v))) true
            else get_reply libc ops place' value p r.db b' (Ht.get ops d.dict (place' q)))

  set_done :
      (d : Lexidb K) (b : Builder) (r : Ht K K × HtResult)
      → r.1 ≡ ht_ok
      → set_reply libc ops place value p d b r
        ≡ some (record { db = record d { dict = r.0 }; reply = add_ok b; counted = true })
  unfolding set_reply
  set_done d b (t, ht_ok) e = refl
  set_done d b (t, ht_inv_key) e = absurd (ground arith)
  set_done d b (t, ht_oom) e = absurd (ground arith)

  get_reply_if :
      (d : Lexidb K) (b : Builder) (hit : Bool) (x : K) (other : Option K)
      → get_reply libc ops place' value p d b (if hit then some x else other) ≡ (
          if hit
          then replied d (add_object libc b (value x)) true
          else get_reply libc ops place' value p d b other)
  unfolding get_reply
  get_reply_if d b true x other = refl
  get_reply_if d b false x other = refl

  -- With keys compared by an equivalence that the hash respects, and a calloc that gives no array
  -- of 2^64 bytes or more, on a database with a valid dictionary that has room for an entry, a SET
  -- replies OK and leaves the dictionary valid; a GET then finds the value under every key that
  -- compares as the same, and under each other key what it found before.
  pub execute_set-Stored :
      (d : Lexidb K) (b : Builder) (k v : Object D)
      → Ht.Laws.IsValid ops d.dict
      → Ht.Laws.no_room ops p.memory d.dict ≡ false
      → (r : Answer K) × (execute_set libc ops place value p d b (two k v) ≡ some r)
        × Stored d b k v r
  unfolding execute_set first_object second_object execute_get
  execute_set-Stored d b k v valid room =
      let t = Ht.insert ops p.memory d.dict (place k) (place v) in
      let a = Ht.Correct.insert-Answers ops lawful (place k) p.memory fits d.dict (place v) valid in
      let ok : t.1 ≡ ht_ok = rw room at a.answered in
      let w = a.written (rw room refl) in
      (
        record { db = record d { dict = t.0 }; reply = add_ok b; counted = true },
        set_done d b t ok,
        record {
          valid = w.valid;
          reply = refl;
          reads = λ b' q. rw (w.reads (place' q)) (get_reply_if _ b' _ _ _);
        },
      )

  module _ (standard : IsStandard libc) where
    -- With keys compared by an equivalence that the hash respects, and a calloc that gives no array
    -- of 2^64 bytes or more, and the number conversions of a standard C library, the value of a SET
    -- on a valid dictionary that has room reaches a client with a GET of a key that compares as the
    -- same: for a value that the struct holds, within the machine's bounds, and that the writer can
    -- write, the bytes of the reply read back as that value, but for NULL, doubles and tables as
    -- `reread` says.
    pub get_after_set :
        (d : Lexidb K) (b : Builder) (k v q : Object D) (out : Builder)
        → Ht.Laws.IsValid ops d.dict
        → Ht.Laws.no_room ops p.memory d.dict ≡ false
        → value (place v) ≡ v
        → same ops (place' q) (place k) ≡ true
        → Fits libc v
        → add_object libc [] v ≡ some out
        → (r : Answer K) × (s : Answer K) × (execute_set libc ops place value p d b (two k v)
            ≡ some r)
          × (execute_get libc ops place' value p r.db [] (one q) ≡ some s)
          × (parse_from_server libc s.reply ≡ ret (reread libc v, at []))
    get_after_set d b k v q out valid room held hit fits writes =
        let (r, ran, stored) = execute_set-Stored d b k v valid room in
        (
          r,
          record { db = r.db; reply = out; counted = true },
          ran,
          rw (stored.reads [] q, hit, held, writes) refl,
          parse_from_server-add_object libc standard v out writes fits,
        )
