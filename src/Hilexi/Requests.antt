-- ===== src/Hilexi/Requests.antt =====
-- src/hilexi.c, src/parser.c: what the server makes of the requests of the client library.
use lexidb.Base.{
  ℕ, ◌^◌, ◌<◌, ◌≡◌, refl, ap, sym, ◌∙◌, [], Option, none, some, codes, arith, ltb, Bool-cases, inl,
  inr, some-injective,
}
use lexidb.Builder.{
  Builder, add_ping, add_string, add_array, add_int, add_object, and_then, count_items,
}
use lexidb.Cmd.{
  auth, ping, select, set as set_type, get, del, push, enque, zset, zhas, zdel, zeroed,
}
use lexidb.Hilexi.Messages.{message, is_null-reread, parse-one, parse-two, parse-name}
use lexidb.Hilexi.Calls.{
  Call, to_authenticate, to_ping, to_info, to_keys, to_pop, to_deque, to_select, to_set, to_get,
  to_del, to_push, to_enque, to_zset, to_zhas, to_zdel, request, command, FitsCall,
}
use lexidb.Hilexi.{
  as_int64, auth_request, ping_request, select_request, set_request, info_request, keys_request,
  pop_request, deque_request, get_request, del_request, push_request, enque_request, zset_request,
  zhas_request, zdel_request,
}
use lexidb.Object.{Object, int, string, no_items, item}
use lexidb.Parser.Commands.{
  parse, parse_args, lookup_cmd, is_null, is_int, not_int, commands_program,
}
use lexidb.Parser.Objects.{reserves}
use lexidb.Parser.Run.{ret, Libc}
use lexidb.Protocol.Values.{IsInt64, IsStandard, reread}

and_then-some : (r : Option Builder) → and_then r (λ b. some b) ≡ r
and_then-some none = refl
and_then-some (some b) = refl

and_then_ext :
    (r : Option Builder) (f g : Builder → Option Builder)
    → ((b : Builder) → f b ≡ g b)
    → and_then r f ≡ and_then r g
and_then_ext none f g h = refl
and_then_ext (some b) f g h = h b

as_int64-IsInt64 : (n : ℕ) → n < 2 ^ 64 → IsInt64 (as_int64 n)
unfolding as_int64
as_int64-IsInt64 n h = elim (Bool-cases (ltb n (2 ^ 63))) [
  | inl small ↦ rw small (ground arith)
  | inr large ↦ rw large (ground arith)
]

module _ {D : Type 0} (libc : Libc D) where
  module _ (std : IsStandard libc) where
    parse-ping : parse libc (codes "+PING\r\n") ≡ ret (record { type = ping; args = zeroed })
    unfolding commands_program
    parse-ping = refl

    written_set :
        (k v : Object D)
        → set_request libc [] k v
          ≡ add_object libc [] (message libc (codes "SET") (item k (item v no_items)))
    unfolding set_request add_object add_array count_items
    written_set k v = and_then_ext _ _ _ (λ c. sym (and_then-some (add_object libc c v)))

    -- With the number conversions of a standard C library, and arguments within the machine's
    -- bounds, what a call of the client library writes is parsed by the server as the command that
    -- the call stands for, with its arguments; of these NULL, doubles and tables come back as
    -- `reread` says.
    pub parse-request :
        (call : Call D) (out : Builder)
        → request libc call [] ≡ some out
        → FitsCall libc call
        → parse libc out ≡ ret (command libc call)
    unfolding parse_args lookup_cmd not_int reread add_object add_string add_array add_int
        count_items reserves auth_request ping_request select_request add_ping info_request
        keys_request pop_request deque_request get_request del_request push_request enque_request
        zset_request zhas_request zdel_request is_int
    parse-request to_ping out h fits = ap (parse libc) (sym (some-injective _ _ h)) ∙ parse-ping
    parse-request (to_authenticate u p) out h fits =
        parse-two libc std (codes "AUTH") auth (string u) (string p) out h (omega arith, refl)
          (λ fuel p. refl) fits.0 fits.1
    parse-request (to_select n) out h fits =
        parse-one libc std (codes "SELECT") (not_int libc) select (int (as_int64 n)) out h
          (omega arith, refl) (λ fuel p. refl) refl (as_int64-IsInt64 n fits)
    parse-request (to_set k v) out h fits =
        parse-two libc std (codes "SET") set_type k v out (sym (written_set k v) ∙ h)
          (omega arith, refl) (λ fuel p. refl) fits.0 fits.1
    parse-request (to_get o) out h fits =
        parse-one libc std (codes "GET") (is_null libc) get o out
          (ap (λ r. and_then r (λ b. some b)) h) (omega arith, refl) (λ fuel p. refl)
          (is_null-reread libc o) fits
    parse-request (to_del o) out h fits =
        parse-one libc std (codes "DEL") (is_null libc) del o out
          (ap (λ r. and_then r (λ b. some b)) h) (omega arith, refl) (λ fuel p. refl)
          (is_null-reread libc o) fits
    parse-request (to_push o) out h fits =
        parse-one libc std (codes "PUSH") (is_null libc) push o out
          (ap (λ r. and_then r (λ b. some b)) h) (omega arith, refl) (λ fuel p. refl)
          (is_null-reread libc o) fits
    parse-request (to_enque o) out h fits =
        parse-one libc std (codes "ENQUE") (is_null libc) enque o out
          (ap (λ r. and_then r (λ b. some b)) h) (omega arith, refl) (λ fuel p. refl)
          (is_null-reread libc o) fits
    parse-request (to_zset o) out h fits =
        parse-one libc std (codes "ZSET") (is_null libc) zset o out
          (ap (λ r. and_then r (λ b. some b)) h) (omega arith, refl) (λ fuel p. refl)
          (is_null-reread libc o) fits
    parse-request (to_zhas o) out h fits =
        parse-one libc std (codes "ZHAS") (is_null libc) zhas o out
          (ap (λ r. and_then r (λ b. some b)) h) (omega arith, refl) (λ fuel p. refl)
          (is_null-reread libc o) fits
    parse-request (to_zdel o) out h fits =
        parse-one libc std (codes "ZDEL") (is_null libc) zdel o out
          (ap (λ r. and_then r (λ b. some b)) h) (omega arith, refl) (λ fuel p. refl)
          (is_null-reread libc o) fits
    parse-request to_info out h fits = parse-name libc std (codes "INFO") out h (omega arith, refl)
    parse-request to_keys out h fits = parse-name libc std (codes "KEYS") out h (omega arith, refl)
    parse-request to_pop out h fits = parse-name libc std (codes "POP") out h (omega arith, refl)
    parse-request to_deque out h fits =
        parse-name libc std (codes "DEQUE") out h (omega arith, refl)
