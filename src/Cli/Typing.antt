-- ===== src/Cli/Typing.antt =====
-- src/read_line.c: a line as the user types it.
use lexidb.Base.{
  ℕ, ◌+◌, ◌≤◌, ◌≡◌, refl, sym, false, List, [], ◌∷◌, ◌++◌, Option, some, length, ◌==◌, All, arith,
  append_assoc, append-nil, length-append,
}
use lexidb.Cli.{read_line_loop, read_line}
use lexidb.Vstr.{Heap, Vstr, VstrLg, max_large_size, vstr_new}
use lexidb.Vstr.Correct.{vstr_push_char-Pushes}
use lexidb.Vstr.Large.{Grants}
use lexidb.Vstr.Laws.{Stands, text, text-Stands}

abbrev pub NoBreak : List ℕ → Type 0
NoBreak line = All (λ c. c == b'\n' ≡ false) line

-- the loop gives the line, and leaves what has been typed behind it
abbrev Gives : List ℕ → List ℕ → Option (Vstr × List ℕ) → Type 0
Gives line rest r = (s : Vstr) × (r ≡ some (s, rest)) × Stands line s

module _ (heap : Heap) (grants : Grants heap) (layout : VstrLg → List ℕ) where
  read_line_loop-Gives :
      (line rest xs : List ℕ) (s : Vstr)
      → NoBreak line
      → length xs + length line ≤ max_large_size
      → Stands xs s
      → Gives (xs ++ line) rest (read_line_loop heap layout (line ++ b'\n' ∷ rest) s)
  unfolding read_line_loop
  read_line_loop-Gives [] rest xs s whole short h = rw (append-nil xs) (s, refl, h)
  read_line_loop-Gives (c ∷ line) rest xs s whole short h =
      let (t, pushed, stands) = vstr_push_char-Pushes heap grants s xs c h (omega (arith, short)) in
      let fits : length (xs ++ c ∷ []) + length line ≤ max_large_size =
        omega (arith, short, length-append xs (c ∷ [])) in
      let (u, read, kept) = read_line_loop-Gives line rest (xs ++ c ∷ []) t whole.1 fits stands in
      rw (whole.0, pushed) (u, read, rw (sym (append_assoc xs (c ∷ []) line)) kept)

  -- With an allocator that gives every block of up to 2^57 bytes, a line without a line break of less
  -- than 2^56 bytes is read whole, and the next line starts behind its line break.
  pub read_line-Gives :
      (line rest : List ℕ)
      → NoBreak line
      → length line ≤ max_large_size
      → (s : Vstr) × (read_line heap layout (line ++ b'\n' ∷ rest) ≡ some (s, rest))
        × (text s ≡ line)
  unfolding read_line vstr_new
  read_line-Gives line rest whole short =
      let (s, read, stands) =
        read_line_loop-Gives line rest [] vstr_new whole (omega (arith, short))
          (omega arith, refl, record { fits = omega arith; holds = refl }) in
      (s, read, text-Stands s line stands)
