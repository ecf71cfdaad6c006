-- ===== src/Cli/Loop.antt =====
-- src/lexi-cli.c: a session at the terminal, from the first line to the one that ends it.
use lexidb.Base.{
  ℕ, zero, suc, ◌≤◌, ◌<◌, ◌≡◌, refl, ◌∙◌, ap, List, [], ◌∷◌, ◌++◌, some, codes, length, map, All,
  arith,
}
use lexidb.Builder.{Builder}
use lexidb.Cli.{execute_cmd, is_exit, main_loop, read_line, shown, told_of, Session, returned}
use lexidb.Cli.Turns.{is_exit-typed_line, execute_cmd-typed_line}
use lexidb.Cli.Typing.{NoBreak, read_line-Gives}
use lexidb.Hilexi.{Hilexi, Socket}
use lexidb.Hilexi.Calls.{Call, request}
use lexidb.Hilexi.Replies.{Delivers, Answers, IsReply, exchange-Answers}
use lexidb.Keys.{memcmp_zero}
use lexidb.LineParser.{parse_line}
use lexidb.LineParser.Calls.{IsTypedCall, typed_line}
use lexidb.Object.{Object}
use lexidb.Parser.Run.{Libc}
use lexidb.Vstr.{Heap, Vstr, VstrLg, max_large_size}
use lexidb.Vstr.Large.{Grants}
use lexidb.Vstr.Laws.{text}

-- A call that the user types, the request, the object that the server answers with and its reply, and
-- what the kernel answers meanwhile.
pub record Turn (D : Type 0) : Type 0 where
  pub call : Call D
  pub out : Builder
  pub answer : Object D
  pub reply : List ℕ
  pub socket : Socket

-- the lines of the calls, and the line that ends the session
abbrev pub typed_lines : {D : Type 0} → List (Turn D) → List ℕ → List ℕ
typed_lines [] rest = codes "exit" ++ b'\n' ∷ rest
typed_lines (t ∷ turns) rest = typed_line t.call ++ b'\n' ∷ typed_lines turns rest

module _ {D : Type 0} (libc : Libc D) where
  pub record IsAnswered (t : Turn D) : Type 0 where
    pub typable : IsTypedCall t.call
    pub unbroken : NoBreak (typed_line t.call)
    pub short : length (typed_line t.call) ≤ max_large_size
    pub requested : request libc t.call [] ≡ some t.out
    pub replied : IsReply libc t.reply t.answer
    pub delivers : Delivers t.socket t.out t.reply

  abbrev pub session_of : List (Turn D) → Session D
  session_of turns = record {
    sent = map (λ t. t.out) turns;
    told = map (λ t. shown t.answer) turns;
    ends = returned 0;
  }

  module _ (heap : Heap) (grants : Grants heap) (layout : VstrLg → List ℕ) where
    turn-Answers :
        (t : Turn D) (l : Hilexi)
        → IsAnswered t
        → l.builder ≡ []
        → l.read_buf ≡ []
        → Answers libc t.out t.answer (execute_cmd libc t.socket l (parse_line (typed_line t.call)))
    turn-Answers t l a clean empty =
        let requested : request libc t.call l.builder ≡ some t.out =
          ap (λ b. request libc t.call b) clean ∙ a.requested in
        rw (execute_cmd-typed_line libc t.socket l t.call a.typable, requested)
          (exchange-Answers libc t.socket l t.out t.reply t.answer empty a.replied a.delivers)

    main_loop-exit :
        (sockets : List Socket) (typed rest : List ℕ) (fuel : ℕ) (l : Hilexi) (s : Vstr)
        → read_line heap layout typed ≡ some (s, rest)
        → text s ≡ codes "exit"
        → main_loop libc (suc fuel) heap layout sockets typed l ≡ session_of []
    unfolding main_loop is_exit memcmp_zero
    main_loop-exit sockets typed rest fuel l s read line = rw (read, line) refl

    -- every line is answered, in turn, until the one that ends the session
    pub main_loop-Session :
        (turns : List (Turn D)) (rest : List ℕ) (fuel : ℕ) (l : Hilexi)
        → All IsAnswered turns
        → l.builder ≡ []
        → l.read_buf ≡ []
        → length turns < fuel
        → main_loop libc fuel heap layout (map (λ t. t.socket) turns) (typed_lines turns rest) l
          ≡ session_of turns
    unfolding main_loop is_exit memcmp_zero told_of
    main_loop-Session turns rest zero l answered clean empty enough = absurd (omega (arith, enough))
    main_loop-Session [] rest (suc fuel) l answered clean empty enough =
        let (s, read, line) =
          read_line-Gives heap grants layout (codes "exit") rest (refl, (refl, (refl, (refl, tt))))
            (omega arith) in
        main_loop-exit [] (codes "exit" ++ b'\n' ∷ rest) rest fuel l s read line
    main_loop-Session (t ∷ turns) rest (suc fuel) l answered clean empty enough =
        let a = answered.0 in
        let (s, read, line) =
          read_line-Gives heap grants layout (typed_line t.call) (typed_lines turns rest) a.unbroken
            a.short in
        let (some_line, no_exit) = is_exit-typed_line t.call a.typable in
        let c = turn-Answers t l a clean empty in
        let after : Hilexi =
          (execute_cmd libc t.socket l (parse_line (typed_line t.call))).client in
        let later =
          main_loop-Session turns rest fuel after answered.1 c.cleared c.emptied
            (omega (arith, enough)) in
        rw (read, line, some_line, no_exit, c.outcome, c.sent, later) refl
