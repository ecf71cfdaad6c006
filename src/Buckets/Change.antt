-- ===== src/Buckets/Change.antt =====
-- src/ht.c, src/set.c: the three changes that the tables make to the chain of a key.
use lexidb.Base.{
  ℕ, ◌+◌, ◌-◌, ◌≤◌, ◌<◌, ◌≡◌, ◌∙◌, refl, ap, true, false, Option, none, some, List, [], ◌∷◌, arith,
  length, set, if◌then◌else◌, length-set,
}
use native.Mathlib.Nat.{le_refl, le_trans}
use lexidb.Buckets.{
  push_front, slot_of, view, chain_of, slot_of-lt, view-set, set-IsPlaced, entries-set,
}
use lexidb.Buckets.Store.{chain_at, put_chain, search_chain, IsSound, search_chain-view}
use lexidb.Chains.{
  find, unlink, overwrite, count, hit, find-unlink, count-unlink-le, find-overwrite,
  count-overwrite, length-unlink, length-overwrite, count-hit_congr, count_zero,
}
use lexidb.Keys.{KeyOps, same, IsLawful}

module _ {ℓ} {K E : Type ℓ} (ops : KeyOps K) (key : E → K) where
  -- After the change there are `num'` entries, and a search for the key `k` finds `answer`.
  pub record Changes (num capacity : ℕ) (bs : List (List E)) (k : K) (answer : Option E) (num' : ℕ)
      (bs' : List (List E)) : Type ℓ where
    pub sound : IsSound ops key num' capacity bs'
    pub reads :
        (q : K)
        → search_chain ops key bs' capacity q
          ≡ (if same ops q k then answer else search_chain ops key bs capacity q)

  module _ (lawful : IsLawful ops) (num n : ℕ) (bs : List (List E)) (s : IsSound ops key num n bs)
      (k : K) where
    old : List E
    old = chain_at ops bs n k

    pos : 0 < length bs
    pos = rw s.width s.roomy

    put_chain_lem : (c : List E) → put_chain ops bs n k c ≡ set bs (slot_of ops k (length bs)) c
    unfolding put_chain
    put_chain_lem c = rw s.width refl

    here : old ≡ chain_of ops key bs k
    unfolding old chain_at
    here = rw s.width refl

    once : (q : K) → count (hit ops key q) old ≤ 1
    once q = rw here (s.placed q _).0

    length-old-le : length old ≤ num
    length-old-le =
        omega (arith, ap length here, s.counted, entries-set bs _ [] (slot_of-lt ops k pos))

    put_chain-Changes :
        (c : List E) (num' : ℕ) (answer : Option E)
        → num' + length old ≡ num + length c
        → num' ≤ n
        → ((q : K)
            → find (hit ops key q) c ≡ (if same ops q k then answer else find (hit ops key q) old))
        → ((q : K) → count (hit ops key q) c ≤ 1)
        → ((q : K) → same ops q k ≡ false → count (hit ops key q) c ≤ count (hit ops key q) old)
        → Changes num n bs k answer num' (put_chain ops bs n k c)
    put_chain-Changes c num' answer size load finds few fewer = record {
      sound = record {
        width = width;
        counted = rw (put_chain_lem c) (
            omega
              (arith, size, ap length here, s.counted, entries-set bs _ c (slot_of-lt ops k pos)));
        placed =
            rw (put_chain_lem c)
              (set-IsPlaced ops key lawful bs pos k c s.placed few (rw here at fewer));
        roomy = s.roomy;
        small = s.small;
        load = load;
      };
      reads = λ q.
          rw
            (
              search_chain-view ops key (put_chain ops bs n k c) n q width,
              search_chain-view ops key bs n q s.width,
            )
            (seen q);
    }
      where
        width : length (put_chain ops bs n k c) ≡ n
        width = rw (put_chain_lem c) (length-set bs _ c ∙ s.width)

        seen :
            (q : K)
            → view ops key (put_chain ops bs n k c) q
              ≡ (if same ops q k then answer else view ops key bs q)
        seen =
            rw (put_chain_lem c)
              (view-set ops key lawful bs pos k c (λ _. answer) (rw here at finds))

    absent_count :
        (q : K)
        → search_chain ops key bs n k ≡ none
        → same ops q k ≡ true
        → count (hit ops key q) old ≡ 0
    unfolding search_chain old
    absent_count q e h = count-hit_congr ops key lawful q k old h ∙ count_zero (hit ops key k) old e

    pub push_front-Changes :
        (e : E)
        → key e ≡ k
        → num < n
        → search_chain ops key bs n k ≡ none
        → Changes num n bs k (some e) (num + 1) (push_front bs (slot_of ops k n) e)
    unfolding push_front put_chain chain_at find count old
    push_front-Changes e keyed room absent =
        put_chain-Changes (e ∷ old) (num + 1) (some e) (omega arith) (omega arith)
          (λ q. rw keyed refl) (λ q. rw keyed (ground (arith, once q, absent_count q)))
          (λ q apart. rw (keyed, apart) (omega arith))

    pub overwrite-Changes :
        (f : E → E) (e : E)
        → ((x : E) → key (f x) ≡ key x)
        → search_chain ops key bs n k ≡ some e
        → Changes num n bs k
            (some (f e))
            num
            (put_chain ops bs n k (overwrite (hit ops key k) f (chain_at ops bs n k)))
    unfolding search_chain old
    overwrite-Changes f e keeps h =
        put_chain-Changes (overwrite (hit ops key k) f old) num (some (f e))
          (rw length-overwrite refl) s.load (λ q. find-overwrite ops key lawful f keeps q k old e h)
          (λ q. rw (count-overwrite ops key lawful f keeps) (once q))
          (λ q apart. rw (count-overwrite ops key lawful f keeps) (le_refl _))

    pub unlink-Changes :
        (e : E)
        → search_chain ops key bs n k ≡ some e
        → (0 < num)
          × Changes num n bs k none
              (num - 1)
              (put_chain ops bs n k (unlink (hit ops key k) (chain_at ops bs n k)))
    unfolding search_chain old
    unlink-Changes e h =
        let shorter = length-unlink (hit ops key k) old e h in
        (
          omega (arith, length-old-le),
          put_chain-Changes (unlink (hit ops key k) old) (num - 1) none
              (omega (arith, length-old-le)) (omega (arith, s.load))
              (λ q. find-unlink ops key lawful q k old (once q))
              (λ q. le_trans (count-unlink-le ops key lawful q k old) (once q))
              (λ q _. count-unlink-le ops key lawful q k old),
        )
