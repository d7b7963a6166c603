-- ===== src/EStream/Collect/Rounds.antt =====
-- The rounds of `streamCollect` of lib/estream/estream.h over a buffer in memory.
use c_cpp_sandbox.Common.{
  ℕ, suc, true, false, Option, none, some, List, [], ◌∷◌, ◌≡◌, refl, ap, arith,
}
use c_cpp_sandbox.EStream.{EStream, got, raised, good, peek, get}
use c_cpp_sandbox.EStream.Memory.{Holds, good-some, peek-some, get-some, good-none, peek-none}
use c_cpp_sandbox.EStream.Criteria.{LoopCriteria, is_good, is_at_last, next_state}
use c_cpp_sandbox.EStream.Collect.{collect_loop}

module _ {S : Type 0} (accumulate : S → ℕ → Option S) where
  -- the collector, given all of a list
  abbrev pub accumulate_all : S → List ℕ → Option S
  accumulate_all acc [] = some acc
  accumulate_all acc (x ∷ l) = elim (accumulate acc x) [
    | none ↦ none
    | some acc' ↦ accumulate_all acc' l
  ]

  module _ (fuel : ℕ) (c c' : LoopCriteria) (el : ℕ) (acc acc' : S) (s : EStream)
      (next : next_state c el ≡ some c') where
    -- the criteria end the loop before `el` is taken
    pub round_stop :
        is_good c'.state ≡ false → collect_loop accumulate (suc fuel) c el acc s ≡ got acc s
    unfolding collect_loop
    round_stop e = rw (collect_loop, next, e) refl

    module _ (go : is_good c'.state ≡ true) (took : accumulate acc el ≡ some acc') where
      take_more :
          (x : ℕ) (s1 : EStream)
          → get s ≡ got el s1
          → good s1 ≡ (true, s1)
          → peek s1 ≡ got x s1
          → collect_loop accumulate (suc fuel) c el acc s
            ≡ collect_loop accumulate fuel c' x acc' s1
      unfolding collect_loop
      take_more x s1 e1 e2 e3 =
          rw (collect_loop, next, go, e1, took, ap (λ p. p.0) e2, ap (λ p. p.1) e2, e3) refl

      -- `el` is taken and there is an element behind it
      pub round_more :
          (x : ℕ) (l : List ℕ)
          → Holds s (el ∷ x ∷ l)
          → (s1 : EStream) × (collect_loop accumulate (suc fuel) c el acc s
              ≡ collect_loop accumulate fuel c' x acc' s1)
            × Holds s1 (x ∷ l)
      round_more x l h =
          let (s1, e, h1) = get-some s el (x ∷ l) h in
          (s1, take_more x s1 e (good-some s1 x l h1) (peek-some s1 x l h1), h1)

      take_last :
          (s1 s2 : EStream)
          → is_at_last c'.state ≡ true
          → get s ≡ got el s1
          → good s1 ≡ (false, s2)
          → collect_loop accumulate (suc fuel) c el acc s ≡ got acc' s2
      unfolding collect_loop
      take_last s1 s2 a e1 e2 =
          ground (arith, next, go, e1, took, ap (λ p. p.0) e2, ap (λ p. p.1) e2, a)

      -- `el` is the last element of the stream, and is to be the last that is taken
      pub round_last :
          is_at_last c'.state ≡ true
          → Holds s (el ∷ [])
          → (s2 : EStream) × (collect_loop accumulate (suc fuel) c el acc s ≡ got acc' s2)
            × Holds s2 []
      round_last a h =
          let (s1, e, h1) = get-some s el [] h in
          let (s2, e2, h2) = good-none s1 h1 in (s2, take_last s1 s2 a e e2, h2)

      take_dry :
          (s1 s2 s3 : EStream)
          → is_at_last c'.state ≡ false
          → get s ≡ got el s1
          → good s1 ≡ (false, s2)
          → peek s2 ≡ raised s3
          → collect_loop accumulate (suc fuel) c el acc s ≡ raised s3
      unfolding collect_loop
      take_dry s1 s2 s3 a e1 e2 e3 =
          ground (arith, next, go, e1, took, ap (λ p. p.0) e2, ap (λ p. p.1) e2, a, e3)

      -- `el` is the last element of the stream, and more are wanted
      pub round_dry :
          is_at_last c'.state ≡ false
          → Holds s (el ∷ [])
          → (s3 : EStream) × (collect_loop accumulate (suc fuel) c el acc s ≡ raised s3)
            × Holds s3 []
      round_dry a h =
          let (s1, e, h1) = get-some s el [] h in
          let (s2, e2, h2) = good-none s1 h1 in
          let (s3, e3, h3) = peek-none s2 h2 in (s3, take_dry s1 s2 s3 a e e2 e3, h3)
