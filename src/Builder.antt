-- ===== src/Builder.antt =====
-- src/builder.c: the writer of requests and replies. A builder is the bytes that it holds. Pushing
-- bytes is taken to succeed: it fails only where memory runs out, and then the reply is cut short.
pub mod Wire
use lexidb.Base.{
  ℕ, suc, Bool, List, [], ◌∷◌, ◌++◌, length, Option, some, none, if◌then◌else◌, codes,
}
use lexidb.Base.Decimal.{decimal, decimal_ℤ}
use lexidb.Base.Int.{ℤ}
use lexidb.Object.{
  Object, Items, Pairs, null, int, double, bool, string, array, ht, no_items, item, no_pairs, pair,
}
use lexidb.Parser.Run.{Libc}

abbrev pub Builder : Type 0
Builder = List ℕ

abbrev push_char : Builder → ℕ → Builder
push_char b c = b ++ c ∷ []

abbrev push_string : Builder → List ℕ → Builder
push_string b s = b ++ s

unfoldable pub add_end : Builder → Builder
add_end b = push_char (push_char b b'\r') b'\n'

unfoldable pub add_ok : Builder → Builder
add_ok b = push_string b (codes "+OK\r\n")

unfoldable pub add_ping : Builder → Builder
add_ping b = push_string b (codes "+PING\r\n")

unfoldable pub add_pong : Builder → Builder
add_pong b = push_string b (codes "+PONG\r\n")

unfoldable pub add_none : Builder → Builder
add_none b = push_string b (codes "+NONE\r\n")

unfoldable pub add_array : Builder → ℕ → Builder
unfolding add_end decimal
add_array b len = add_end (push_string (push_char b b'*') (decimal len))

unfoldable pub add_err : Builder → List ℕ → Builder
unfolding add_end
add_err b s = add_end (push_string (push_char b b'-') s)

unfoldable pub add_string : Builder → List ℕ → Builder
unfolding add_end decimal
add_string b s =
    add_end (push_string (add_end (push_string (push_char b b'$') (decimal (length s)))) s)

unfoldable pub add_int : Builder → ℤ → Builder
unfolding add_end decimal_ℤ
add_int b z = add_end (push_string (push_char b b':') (decimal_ℤ z))

unfoldable pub add_boolean : Builder → Bool → Builder
unfolding add_end
add_boolean b v = add_end (push_char (push_char b b'#') (if v then b't' else b'f'))

unfoldable pub add_ht : Builder → ℕ → Builder
unfolding add_end decimal
add_ht b len = add_end (push_string (push_char b b'%') (decimal len))

unfoldable pub count_items : {D : Type 0} → Items D → ℕ
count_items no_items = 0
count_items (item o os) = suc (count_items os)

-- `if (add_res == -1) return -1`
abbrev pub and_then : Option Builder → (Builder → Option Builder) → Option Builder
and_then none next = none
and_then (some b) next = next b

module _ {D : Type 0} (libc : Libc D) where
  unfoldable pub add_double : Builder → D → Builder
  unfolding add_end
  add_double b d = add_end (push_string (push_char b b',') (libc.format_g d))

  -- `none` stands for no reply that this model gives, and says nothing of what the program then does.
  -- The iterator over an empty vector has the `end_idx` 0 - 1 and reads behind the vector, in memory
  -- that is not its own. The loop over a table never advances its iterator: where the table has
  -- entries it writes the first again and again, for as long as there is memory for the reply.
  unfoldable mutual
    pub add_object : Builder → Object D → Option Builder
    add_object b null = some (add_none b)
    add_object b (int z) = some (add_int b z)
    add_object b (double d) = some (add_double b d)
    add_object b (bool v) = some (add_boolean b v)
    add_object b (string s) = some (add_string b s)
    add_object b (array no_items) = none
    add_object b (array (item o os)) = add_items (add_array b (count_items (item o os))) (item o os)
    add_object b (ht no_pairs) = some (add_ht b 0)
    add_object b (ht (pair k v ps)) = none

    -- the loop over the elements
    pub add_items : Builder → Items D → Option Builder
    add_items b no_items = some b
    add_items b (item o os) = and_then (add_object b o) (λ c. add_items c os)
