-- ===== src/Cli/Turns.antt =====
-- src/lexi-cli.c: the lines that a user types, the calls that they make, and a whole session.
use lexidb.Base.{
  ℕ, ◌<◌, ◌^◌, ◌≡◌, refl, ◌∙◌, ap, true, false, List, codes, length, ◌==◌, ltb, arith, Bool-cases,
  inl, inr,
}
use lexidb.Cli.{execute_cmd, execute_cmd_type, is_exit}
use lexidb.Hilexi.{
  Hilexi, Socket, exchange, as_int64, hilexi_ping, hilexi_select, hilexi_set, hilexi_info,
  hilexi_keys, hilexi_pop, hilexi_deque, hilexi_get, hilexi_del, hilexi_push, hilexi_enque,
  hilexi_zset, hilexi_zhas, hilexi_zdel,
}
use lexidb.Hilexi.Calls.{
  Call, to_authenticate, to_ping, to_info, to_keys, to_pop, to_deque, to_select, to_set, to_get,
  to_del, to_push, to_enque, to_zset, to_zhas, to_zdel, command, request,
}
use lexidb.Keys.{memcmp_zero}
use lexidb.LineParser.{parse_line}
use lexidb.LineParser.Calls.{IsTypedCall, typed_line, parse_line-typed_line, reread-typed}
use lexidb.Object.{int}
use lexidb.Parser.Run.{Libc}
use lexidb.Server.Commands.{first_object, second_object}
use lexidb.Server.Execute.{db_number}

is_exit-other : (line : List ℕ) → memcmp_zero line (codes "exit") ≡ false → is_exit line ≡ false
unfolding is_exit
is_exit-other line other = elim (Bool-cases (length line == 4)) [
  | inl four ↦ rw (four, other) refl
  | inr more ↦ rw more refl
]

db_number-as_int64 : (D : Type 0) (n : ℕ) → n < 2 ^ 63 → db_number {D = D} (int (as_int64 n)) ≡ n
unfolding db_number as_int64
db_number-as_int64 D n few = let small : ltb n (2 ^ 63) ≡ true = ground arith in rw small refl

module _ {D : Type 0} where
  -- neither an empty line nor the one that ends the program
  pub is_exit-typed_line :
      (call : Call D)
      → IsTypedCall call
      → (length (typed_line call) == 0 ≡ false) × (is_exit (typed_line call) ≡ false)
  unfolding memcmp_zero
  is_exit-typed_line (to_authenticate u p) h = elim h [ ]
  is_exit-typed_line to_ping h = (ground arith, is_exit-other _ refl)
  is_exit-typed_line to_info h = (ground arith, is_exit-other _ refl)
  is_exit-typed_line to_keys h = (ground arith, is_exit-other _ refl)
  is_exit-typed_line to_pop h = (ground arith, is_exit-other _ refl)
  is_exit-typed_line to_deque h = (ground arith, is_exit-other _ refl)
  is_exit-typed_line (to_select n) h = (ground arith, is_exit-other _ refl)
  is_exit-typed_line (to_set k v) h = (ground arith, is_exit-other _ refl)
  is_exit-typed_line (to_get o) h = (ground arith, is_exit-other _ refl)
  is_exit-typed_line (to_del o) h = (ground arith, is_exit-other _ refl)
  is_exit-typed_line (to_push o) h = (ground arith, is_exit-other _ refl)
  is_exit-typed_line (to_enque o) h = (ground arith, is_exit-other _ refl)
  is_exit-typed_line (to_zset o) h = (ground arith, is_exit-other _ refl)
  is_exit-typed_line (to_zhas o) h = (ground arith, is_exit-other _ refl)
  is_exit-typed_line (to_zdel o) h = (ground arith, is_exit-other _ refl)

  module _ (libc : Libc D) where
    execute_cmd-command :
        (socket : Socket) (l : Hilexi) (call : Call D)
        → IsTypedCall call
        → execute_cmd libc socket l (command libc call)
          ≡ exchange libc socket l (request libc call l.builder)
    unfolding execute_cmd execute_cmd_type first_object second_object hilexi_ping hilexi_select
        hilexi_set hilexi_info hilexi_keys hilexi_pop hilexi_deque hilexi_get hilexi_del hilexi_push
        hilexi_enque hilexi_zset hilexi_zhas hilexi_zdel
    execute_cmd-command socket l (to_authenticate u p) h = elim h [ ]
    execute_cmd-command socket l to_ping h = refl
    execute_cmd-command socket l to_info h = refl
    execute_cmd-command socket l to_keys h = refl
    execute_cmd-command socket l to_pop h = refl
    execute_cmd-command socket l to_deque h = refl
    execute_cmd-command socket l (to_select n) h = rw (db_number-as_int64 D n h) refl
    execute_cmd-command socket l (to_set k v) h =
        rw (reread-typed libc k h.0, reread-typed libc v h.1) refl
    execute_cmd-command socket l (to_get o) h = rw (reread-typed libc o h) refl
    execute_cmd-command socket l (to_del o) h = rw (reread-typed libc o h) refl
    execute_cmd-command socket l (to_push o) h = rw (reread-typed libc o h) refl
    execute_cmd-command socket l (to_enque o) h = rw (reread-typed libc o h) refl
    execute_cmd-command socket l (to_zset o) h = rw (reread-typed libc o h) refl
    execute_cmd-command socket l (to_zhas o) h = rw (reread-typed libc o h) refl
    execute_cmd-command socket l (to_zdel o) h = rw (reread-typed libc o h) refl

    -- the call of the library that a typed line makes
    pub execute_cmd-typed_line :
        (socket : Socket) (l : Hilexi) (call : Call D)
        → IsTypedCall call
        → execute_cmd libc socket l (parse_line (typed_line call))
          ≡ exchange libc socket l (request libc call l.builder)
    execute_cmd-typed_line socket l call h =
        ap (λ c. execute_cmd libc socket l c) (parse_line-typed_line libc call h)
        ∙ execute_cmd-command socket l call h
