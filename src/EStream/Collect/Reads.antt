-- ===== src/EStream/Collect/Reads.antt =====
-- Whole reads with `streamCollect` of lib/estream/estream.h over a buffer in memory, by a
-- number of elements.
use c_cpp_sandbox.Common.{
  ℕ, zero, suc, ◌-◌, ◌^◌, ◌<◌, true, false, Option, some, List, [], ◌∷◌, ◌++◌, ◌≡◌, refl, sym, ap,
  ap₂, ◌∙◌, inl, inr, arith, length, Option-cases,
}
use c_cpp_sandbox.EStream.{EStream, got}
use c_cpp_sandbox.EStream.Memory.{Holds, peek-some}
use c_cpp_sandbox.EStream.Criteria.{
  LoopCriteria, LoopCriteriaState, not_good, state_good, good_at_last, is_good, next_state,
  loop_criteria_until_num_elements, loop_criteria, until_size_next,
}
use c_cpp_sandbox.EStream.Collect.{collect_loop, stream_collect}
use c_cpp_sandbox.EStream.Collect.Rounds.{accumulate_all, round_stop, round_more, round_last}

module _ {S : Type 0} (accumulate : S → ℕ → Option S) where
  pub start :
      (fuel : ℕ) (c : LoopCriteria) (acc : S) (s : EStream) (x : ℕ) (l : List ℕ)
      → Holds s (x ∷ l)
      → stream_collect accumulate fuel c acc s ≡ collect_loop accumulate fuel c x acc s
  unfolding stream_collect
  start fuel c acc s x l h = rw (stream_collect, peek-some s x l h) refl

  pub accumulate_first :
      (acc acc' : S) (x : ℕ) (l : List ℕ)
      → accumulate_all accumulate acc (x ∷ l) ≡ some acc'
      → (acc1 : S) × (accumulate acc x ≡ some acc1) × (accumulate_all accumulate acc1 l ≡ some acc')
  accumulate_first acc acc' x l e = elim (Option-cases (accumulate acc x)) [
    | inl n ↦ absurd (ground (arith, n, e))
    | inr (acc1, f) ↦ (acc1, f, ground (arith, f, e))
  ]

  pub some_inj : (a b : S) → ◌≡◌ {A = Option S} (some a) (some b) → a ≡ b
  some_inj a b e = cc

  pub stop_at :
      (fuel : ℕ) (c c' : LoopCriteria) (el : ℕ) (acc : S) (s : EStream)
      → 0 < fuel
      → next_state c el ≡ some c'
      → is_good c'.state ≡ false
      → collect_loop accumulate fuel c el acc s ≡ got acc s
  stop_at zero c c' el acc s h next e = absurd (omega arith)
  stop_at (suc fuel) c c' el acc s h next e = round_stop accumulate fuel c c' el acc acc s next e

  abbrev counting : LoopCriteriaState → ℕ → LoopCriteria
  counting state k = record (loop_criteria loop_criteria_until_num_elements true k []) {
    state = state;
  }

  counting_next :
      (state : LoopCriteriaState) (k el : ℕ)
      → 0 < k
      → k < 2 ^ 64
      → next_state (counting state k) el ≡ some (counting (until_size_next state k) (k - 1))
  unfolding next_state
  counting_next state k el h1 h2 =
      ap (λ n. some (counting (until_size_next state k) n)) (omega arith)

  counting_more : (k : ℕ) → 1 < k → until_size_next state_good k ≡ state_good
  unfolding until_size_next
  counting_more k h = ground arith

  counting_stop :
      (el : ℕ) → next_state (counting good_at_last 0) el ≡ some (counting not_good (2 ^ 64 - 1))
  unfolding next_state until_size_next
  counting_stop el = refl

  count_loop :
      (fuel : ℕ) (el : ℕ) (chars rest : List ℕ) (acc acc' : S) (s : EStream)
      → length (el ∷ chars) < 2 ^ 64
      → length (el ∷ chars) < fuel
      → accumulate_all accumulate acc (el ∷ chars) ≡ some acc'
      → Holds s (el ∷ (chars ++ rest))
      → (s' : EStream) × (collect_loop accumulate fuel
            (counting state_good (length (el ∷ chars)))
            el
            acc
            s
          ≡ got acc' s')
        × Holds s' rest
  unfolding until_size_next
  count_loop zero el chars rest acc acc' s small enough e h = absurd (omega arith)
  count_loop (suc fuel) el [] [] acc acc' s small enough e h =
      let (acc1, took, last) = accumulate_first acc acc' el [] e in
      let (s1, run, h1) =
        round_last accumulate fuel (counting state_good 1) (counting good_at_last 0) el acc acc1 s
          (counting_next state_good 1 el (omega arith) (omega arith)) refl took refl h in
      (s1, run ∙ ap (λ a. got a s1) (some_inj acc1 acc' last), h1)
  count_loop (suc fuel) el [] (x ∷ rest) acc acc' s small enough e h =
      let (acc1, took, last) = accumulate_first acc acc' el [] e in
      let (s1, run, h1) =
        round_more accumulate fuel (counting state_good 1) (counting good_at_last 0) el acc acc1 s
          (counting_next state_good 1 el (omega arith) (omega arith)) refl took x rest h in
      (
        s1,
        run
            ∙ stop_at fuel (counting good_at_last 0) (counting not_good (2 ^ 64 - 1)) x acc1 s1
                (omega arith) (counting_stop x) refl
            ∙ ap (λ a. got a s1) (some_inj acc1 acc' last),
        h1,
      )
  count_loop (suc fuel) el (x ∷ chars) rest acc acc' s small enough e h =
      let k = length (x ∷ chars) in
      let (acc1, took, last) = accumulate_first acc acc' el (x ∷ chars) e in
      let (s1, run, h1) =
        round_more accumulate fuel (counting state_good (suc k)) (counting state_good k) el acc acc1
          s
          (counting_next state_good (suc k) el (omega arith) (omega arith)
            ∙ ap₂ (λ st n. some (counting st n)) (counting_more (suc k) (omega arith))
                (omega arith))
          refl took x (chars ++ rest) h in
      let (s2, run2, h2) =
        count_loop fuel x chars rest acc1 acc' s1 (omega arith) (omega arith) last h1 in
      (s2, run ∙ run2, h2)

  -- Of a stream over memory that begins with `n` elements which the collector takes, where `n` is
  -- from 1 to below 2^64: `streamCollect` until a number of `n` elements gives what the collector
  -- makes of just these, and leaves the rest in the stream. It is not needed that there is a rest.
  pub stream_collect-count :
      (fuel n : ℕ) (chars rest : List ℕ) (initial acc : S) (s : EStream)
      → length chars ≡ n
      → 0 < n
      → n < 2 ^ 64
      → n < fuel
      → accumulate_all accumulate initial chars ≡ some acc
      → Holds s (chars ++ rest)
      → (s' : EStream) × (stream_collect accumulate fuel
            (loop_criteria loop_criteria_until_num_elements true n [])
            initial
            s
          ≡ got acc s')
        × Holds s' rest
  stream_collect-count fuel n [] rest initial acc s el pos small enough e h = absurd (omega arith)
  stream_collect-count fuel n (x ∷ chars) rest initial acc s el pos small enough e h =
      let (s', run, h') =
        count_loop fuel x chars rest initial acc s (omega arith) (omega arith) e h in
      (
        s',
        start fuel _ initial s x (chars ++ rest) h
            ∙ ap (λ k. collect_loop accumulate fuel (counting state_good k) x initial s) (sym el)
            ∙ run,
        h',
      )
