-- ===== src/EStream/Collect/Matches.antt =====
-- Whole reads with `streamCollect` of lib/estream/estream.h over a buffer in memory, up to a match
-- by the criteria of estream_types.h and byteestream.cpp.
use c_cpp_sandbox.Common.{
  get_elem?, All-map, ◌≢◌, zero, true, false, ℕ, suc, ◌+◌, ◌^◌, ◌<◌, Bool, Option, some, List, [],
  ◌∷◌, ◌++◌, not, ◌≡◌, refl, sym, ap, ◌∙◌, arith, length, All, subst, drop,
}
use c_cpp_sandbox.EStream.{EStream, got}
use c_cpp_sandbox.EStream.Memory.{Holds}
use c_cpp_sandbox.EStream.Criteria.{
  LoopCriteria, not_good, state_good, is_good, next_state, loop_criteria_until_match, loop_criteria,
  until_contains, until_match_next, char_class_next, arbitrary_spatial_until_limit, digit_class,
  char_class_criteria,
}
use c_cpp_sandbox.EStream.Collect.{collect_loop, stream_collect}
use c_cpp_sandbox.EStream.Collect.Rounds.{accumulate_all, round_more}
use c_cpp_sandbox.StringUtils.{is_digit}
use c_cpp_sandbox.EStream.Collect.Reads.{start, accumulate_first, some_inj, stop_at}

until_contains-some :
    (until : List ℕ) (i el : ℕ) → get_elem? until i ≡ some el → until_contains until el ≡ true
until_contains-some [] i el e = absurd (cc e)
until_contains-some (x ∷ until) zero el e = ground (arith, e)
until_contains-some (x ∷ until) (suc i) el e = ground (arith, until_contains-some until i el e)

until_contains_no :
    (until : List ℕ) (el : ℕ) → All (λ u. u ≢ el) until → until_contains until el ≡ false
until_contains_no [] el h = refl
until_contains_no (x ∷ until) el (ne, h) = ground (arith, ne, until_contains_no until el h)

module _ {S : Type 0} (accumulate : S → ℕ → Option S) where
  -- Criteria that take the elements with a property, up to the first without it.
  record Takes (limit : ℕ) (pass : ℕ → Bool) (crit : ℕ → LoopCriteria) : Type 0 where
    good_state : (n : ℕ) → (crit n).state ≡ state_good
    passes : (n el : ℕ) → n < limit → pass el ≡ true → next_state (crit n) el ≡ some (crit (suc n))
    stops :
        (n el : ℕ)
        → n < limit
        → pass el ≡ false
        → (c' : LoopCriteria) × (next_state (crit n) el ≡ some c') × (c'.state ≡ not_good)

  module _ (limit : ℕ) (pass : ℕ → Bool) (crit : ℕ → LoopCriteria) (t : Takes limit pass crit)
      (stop : ℕ) (stop_out : pass stop ≡ false) (rest : List ℕ) where
    first_of : (chars : List ℕ) → (y : ℕ) × (l : List ℕ) × (chars ++ (stop ∷ rest) ≡ y ∷ l)
    first_of [] = (stop, rest, refl)
    first_of (x ∷ chars) = (x, chars ++ (stop ∷ rest), refl)

    abbrev Passes : List ℕ → Type 0
    Passes = All (λ c. pass c ≡ true)

    -- `el` is the first of `chars ++ (stop ∷ rest)`.
    pass_loop :
        (fuel n : ℕ) (chars : List ℕ) (el : ℕ) (l : List ℕ) (acc acc' : S) (s : EStream)
        → chars ++ (stop ∷ rest) ≡ el ∷ l
        → n + length chars < limit
        → length chars < fuel
        → Passes chars
        → accumulate_all accumulate acc chars ≡ some acc'
        → Holds s (el ∷ l)
        → (s' : EStream) × (collect_loop accumulate fuel (crit n) el acc s ≡ got acc' s')
          × Holds s' (stop ∷ rest)
    pass_loop zero n chars el l acc acc' s split small enough p e h = absurd (omega arith)
    pass_loop (suc fuel) n [] el l acc acc' s split small enough p e h =
        let same : stop ≡ el = cc in
        let (c', next, bad) = t.stops n el (omega arith) (ap pass (sym same) ∙ stop_out) in
        (
          s,
          stop_at accumulate (suc fuel) (crit n) c' el acc s (omega arith) next (ap is_good bad)
              ∙ ap (λ a. got a s) (some_inj accumulate acc acc' e),
          subst (Holds s) (sym split) h,
        )
    pass_loop (suc fuel) n (x ∷ chars) el l acc acc' s split small enough (px, p) e h =
        let same : x ≡ el = cc in
        let tail : chars ++ (stop ∷ rest) ≡ l = ap (drop 1) split in
        let (y, l', first) = first_of chars in
        let (acc1, took, last) = accumulate_first accumulate acc acc' x chars e in
        let (s1, run, h1) =
          round_more accumulate fuel (crit n) (crit (suc n)) el acc acc1 s
            (t.passes n el (omega arith) (ap pass (sym same) ∙ px))
            (ap is_good (t.good_state (suc n))) (ap (accumulate acc) (sym same) ∙ took) y l'
            (subst (λ k. Holds s (el ∷ k)) (sym tail ∙ first) h) in
        let (s2, run2, h2) =
          pass_loop fuel (suc n) chars y l' acc1 acc' s1 first (omega arith) (omega arith) p last
            h1 in
        (s2, run ∙ run2, h2)

    pass_all :
        (fuel : ℕ) (chars : List ℕ) (acc acc' : S) (s : EStream)
        → length chars < limit
        → length chars < fuel
        → Passes chars
        → accumulate_all accumulate acc chars ≡ some acc'
        → Holds s (chars ++ (stop ∷ rest))
        → (s' : EStream) × (stream_collect accumulate fuel (crit 0) acc s ≡ got acc' s')
          × Holds s' (stop ∷ rest)
    pass_all fuel chars acc acc' s small enough p e h =
        let (y, l, first) = first_of chars in
        let hs = subst (Holds s) first h in
        let (s', run, h') =
          pass_loop fuel 0 chars y l acc acc' s first (omega arith) (omega arith) p e hs in
        (s', start accumulate fuel (crit 0) acc s y l hs ∙ run, h')

  abbrev matching : List ℕ → ℕ → LoopCriteria
  matching until n = loop_criteria loop_criteria_until_match false n until

  matching-Takes :
      (until : List ℕ)
      → Takes arbitrary_spatial_until_limit (λ c. not (until_contains until c)) (matching until)
  unfolding next_state until_match_next
  matching-Takes until = record {
    good_state = λ n. refl;
    passes = λ n el h e. ground (
      arith,
      h,
      e,
      ap (λ k. record (matching until n) { until_size = k }) {x = n + 1} {y = suc n} (omega arith),
    );
    stops = λ n el h e.
        (record (matching until (n + 1)) { state = not_good }, ground (arith, h, e), refl);
  }

  abbrev digits : ℕ → LoopCriteria
  digits n = record (char_class_criteria digit_class) { until_size = n }

  digits-Takes : Takes arbitrary_spatial_until_limit is_digit digits
  unfolding next_state char_class_next
  digits-Takes = record {
    good_state = λ n. refl;
    passes = λ n el h e. ground (arith, h, e);
    stops = λ n el h e. (record (digits (n + 1)) { state = not_good }, ground (arith, h, e), refl);
  }

  -- Of a stream over memory that begins with elements that differ from all of `until`, fewer than
  -- 2^16 of them and such as the collector takes, and then one that stands in `until`, at `i`:
  -- `streamCollect` until a match, not inclusive, gives what the collector makes of the elements
  -- before the match, and leaves the stream at the match.
  pub stream_collect-until :
      (until : List ℕ) (i stop : ℕ) (rest : List ℕ)
      → get_elem? until i ≡ some stop
      → (fuel : ℕ) (chars : List ℕ) (initial acc : S) (s : EStream) → length chars < 2 ^ 16
      → length chars < fuel
      → All (λ c. All (λ u. u ≢ c) until) chars
      → accumulate_all accumulate initial chars ≡ some acc
      → Holds s (chars ++ (stop ∷ rest))
      → (s' : EStream) × (stream_collect accumulate fuel
            (loop_criteria loop_criteria_until_match false 0 until)
            initial
            s
          ≡ got acc s')
        × Holds s' (stop ∷ rest)
  stream_collect-until until i stop rest e fuel chars initial acc s small enough others took h =
      pass_all arbitrary_spatial_until_limit (λ c. not (until_contains until c)) (matching until)
        (matching-Takes until) stop (ap not (until_contains-some until i stop e)) rest fuel chars
        initial acc s small enough
        (All-map (λ c differs. ap not (until_contains_no until c differs)) chars others) took h

  -- Likewise for the class of digits and a first element that is not one.
  pub stream_collect-digits :
      (stop : ℕ) (rest : List ℕ)
      → is_digit stop ≡ false
      → (fuel : ℕ) (chars : List ℕ) (initial acc : S) (s : EStream) → length chars < 2 ^ 16
      → length chars < fuel
      → All (λ c. is_digit c ≡ true) chars
      → accumulate_all accumulate initial chars ≡ some acc
      → Holds s (chars ++ (stop ∷ rest))
      → (s' : EStream) × (stream_collect accumulate fuel (char_class_criteria digit_class) initial s
          ≡ got acc s')
        × Holds s' (stop ∷ rest)
  stream_collect-digits stop rest e =
      pass_all arbitrary_spatial_until_limit is_digit digits digits-Takes stop e rest
