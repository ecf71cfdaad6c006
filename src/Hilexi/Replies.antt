-- ===== src/Hilexi/Replies.antt =====
-- src/hilexi.c: a call over a socket that delivers.
use lexidb.Base.{
  ℕ, zero, suc, ◌-◌, ◌≤◌, ◌<◌, ◌≡◌, refl, ap, sym, ◌∙◌, Bool, true, false, List, [], ◌∷◌, ◌++◌,
  Option, none, some, length, take, drop, map, flatten, replicate, append_assoc, append-nil, arith,
  All, Bool-cases, inl, inr, ◌==◌,
}
use lexidb.Builder.{Builder, add_object}
use lexidb.Hilexi.{
  Hilexi, Socket, ReadAnswer, received, would_block, Ending, finished, failed, waiting, write_loop,
  hilexi_write, grow, read_loop, hilexi_read, Exchange, after_read, after_write, exchange,
}
use lexidb.Object.{Object}
use lexidb.Parser.Commands.{parse_from_server}
use lexidb.Parser.Run.{ret, Libc}
use lexidb.Parser.Scan.{Parser}
use lexidb.Protocol.RoundTrip.{parse_from_server-add_object}
use lexidb.Protocol.Values.{IsStandard, Fits, reread}

-- The kernel takes at least a byte.
abbrev pub Takes : Option ℕ → Type 0
Takes none = ⊥
Takes (some n) = 0 < n

take-drop : (n : ℕ) (xs : List ℕ) → take n xs ++ drop n xs ≡ xs
take-drop zero xs = refl
take-drop (suc n) [] = refl
take-drop (suc n) (x ∷ xs) = ap (λ ys. x ∷ ys) (take-drop n xs)

length-drop : (n : ℕ) (xs : List ℕ) → length (drop n xs) ≡ length xs - n
length-drop zero xs = omega arith
length-drop (suc n) [] = omega arith
length-drop (suc n) (x ∷ xs) = omega (arith, length-drop n xs)

write_loop-Takes :
    (answers : List (Option ℕ)) (xs : List ℕ)
    → All Takes answers
    → length xs ≤ length answers
    → write_loop answers xs ≡ (xs, finished)
unfolding write_loop
write_loop-Takes [] [] taking enough = refl
write_loop-Takes (a ∷ answers) [] taking enough = refl
write_loop-Takes [] (x ∷ xs) taking enough = absurd (omega arith)
write_loop-Takes (none ∷ answers) (x ∷ xs) taking enough = elim taking.0 [ ]
write_loop-Takes (some n ∷ answers) (x ∷ xs) taking enough =
    let rest =
      write_loop-Takes answers (drop n (x ∷ xs)) taking.1
        (omega (arith, length-drop n (x ∷ xs), taking.0)) in
    rw (rest, take-drop n (x ∷ xs)) refl

-- a read that ends well, with these bytes more
abbrev Reads : Hilexi → List ℕ → Ending × Hilexi → Type 0
Reads l xs r = (r.0 ≡ finished) × (r.1.read_buf ≡ l.read_buf ++ xs) × (r.1.builder ≡ l.builder)

module _ (realloc : ℕ → Bool) (grants : (n : ℕ) → realloc n ≡ true) where
  abbrev Same : Hilexi → Option Hilexi → Type 0
  Same l r = (m : Hilexi) × (r ≡ some m) × (m.read_buf ≡ l.read_buf) × (m.builder ≡ l.builder)

  grow-Same : (l : Hilexi) → Same l (grow realloc l)
  unfolding grow
  grow-Same l = elim (Bool-cases (length l.read_buf == l.read_cap)) [
    | inr room ↦ rw room (l, refl, refl, refl)
    | inl full ↦ rw (full, grants) (_, refl, refl, refl)
  ]

  read_loop-Reads :
      (chunks : List (List ℕ)) (later : List ReadAnswer) (l : Hilexi)
      → Reads l
          (flatten chunks)
          (read_loop realloc true (map received chunks ++ would_block ∷ later) l)
  unfolding read_loop flatten
  read_loop-Reads [] later l =
      let (m, grown, buf, b) = grow-Same l in rw grown (refl, buf ∙ sym (append-nil _), b)
  read_loop-Reads (xs ∷ chunks) later l =
      let (m, grown, buf, b) = grow-Same l in
      let (ends, read, kept) =
        read_loop-Reads chunks later (record m { read_buf = m.read_buf ++ xs }) in
      rw grown (ends, read ∙ rw buf (append_assoc l.read_buf xs (flatten chunks)), kept ∙ b)

  -- EAGAIN before the first bytes makes the loop try again
  read_loop_idle :
      (idle : ℕ) (xs : List ℕ) (chunks : List (List ℕ)) (later : List ReadAnswer) (l : Hilexi)
      → Reads l (xs ++ flatten chunks) (
          read_loop realloc false
            (replicate idle would_block
              ++ received xs ∷ (map received chunks ++ would_block ∷ later))
            l)
  unfolding read_loop
  read_loop_idle zero xs chunks later l =
      let (m, grown, buf, b) = grow-Same l in
      let (ends, read, kept) =
        read_loop-Reads chunks later (record m { read_buf = m.read_buf ++ xs }) in
      rw grown (ends, read ∙ rw buf (append_assoc l.read_buf xs (flatten chunks)), kept ∙ b)
  read_loop_idle (suc idle) xs chunks later l =
      let (m, grown, buf, b) = grow-Same l in
      let (ends, read, kept) = read_loop_idle idle xs chunks later m in
      rw grown (ends, read ∙ rw buf refl, kept ∙ b)

-- The kernel takes bytes at each write, and answers the reads with EAGAIN until the reply comes, then
-- with the reply in pieces, then with EAGAIN; there is memory for the buffer.
pub record Delivers (socket : Socket) (out reply : List ℕ) : Type 0 where
  pub grants : (n : ℕ) → socket.realloc n ≡ true
  pub taking : All Takes socket.writes
  pub enough : length out ≤ length socket.writes
  pub idle : ℕ
  pub piece : List ℕ
  pub pieces : List (List ℕ)
  pub later : List ReadAnswer
  pub reads :
      socket.reads
      ≡ replicate idle would_block ++ received piece ∷ (map received pieces ++ would_block ∷ later)
  pub whole : piece ++ flatten pieces ≡ reply

module _ {D : Type 0} (libc : Libc D) where
  -- what a call over such a socket comes to, where the reply is this object
  pub record Answers (out : List ℕ) (r : Object D) (e : Exchange (Object D)) : Type 0 where
    pub sent : e.sent ≡ out
    pub outcome : e.outcome ≡ ret (some r)
    pub cleared : e.client.builder ≡ []
    pub emptied : e.client.read_buf ≡ []

  abbrev pub Completes : List ℕ → Object D → Exchange (Object D) → Type 0
  Completes out o e = Answers out (reread libc o) e

  -- The parser reads the reply as this object.
  abbrev pub IsReply : List ℕ → Object D → Type 0
  IsReply reply r = (p : Parser) × (parse_from_server libc reply ≡ ret (r, p))

  after_read-Answers :
      (out xs reply : List ℕ) (l : Hilexi) (o : Object D) (r : Ending × Hilexi)
      → l.builder ≡ []
      → Reads l xs r
      → l.read_buf ≡ []
      → xs ≡ reply
      → IsReply reply o
      → Answers out o (after_read libc out r)
  unfolding after_read
  after_read-Answers out xs reply l o (finished, m) clean (ends, read, kept) empty whole
        (p, parsed) =
      record {
        sent = refl;
        outcome =
            let all_read : m.read_buf ≡ reply = read ∙ ap (λ ys. ys ++ xs) empty ∙ whole in
            rw (all_read, parsed) refl;
        cleared = kept ∙ clean;
        emptied = refl;
      }
  after_read-Answers out xs reply l o (failed, m) clean (ends, read, kept) empty whole replied = cc
  after_read-Answers out xs reply l o (waiting, m) clean (ends, read, kept) empty whole replied = cc

  -- a call over such a socket, whatever the reply
  pub exchange-Answers :
      (socket : Socket) (l : Hilexi) (out : Builder) (reply : List ℕ) (o : Object D)
      → l.read_buf ≡ []
      → IsReply reply o
      → Delivers socket out reply
      → Answers out o (exchange libc socket l (some out))
  unfolding exchange after_write hilexi_write hilexi_read
  exchange-Answers socket l out reply o empty replied d =
      let ready : Hilexi = record l { builder = [] } in
      let delivered =
        read_loop_idle socket.realloc d.grants d.idle d.piece d.pieces d.later ready in
      let all_sent = write_loop-Takes socket.writes out d.taking d.enough in
      rw (all_sent, d.reads)
        (after_read-Answers out (d.piece ++ flatten d.pieces) reply ready o _ refl delivered empty
          d.whole replied)

  -- With the number conversions of a standard C library, a call ends when the kernel takes at least
  -- a byte at every write and answers the reads with EAGAIN until the reply comes, then with the
  -- reply in pieces and EAGAIN, and memory for the buffer is never refused: the request has been
  -- sent, all of it and in order, the program gets the value that the server wrote as `reread`
  -- says, and the client's buffers are empty for the next call.
  pub exchange-Completes :
      (std : IsStandard libc) (socket : Socket) (l : Hilexi) (out reply : Builder) (o : Object D)
      → l.read_buf ≡ []
      → add_object libc [] o ≡ some reply
      → Fits libc o
      → Delivers socket out reply
      → Completes out o (exchange libc socket l (some out))
  exchange-Completes std socket l out reply o empty written fits d =
      exchange-Answers socket l out reply (reread libc o) empty
        (_, parse_from_server-add_object libc std o reply written fits) d
