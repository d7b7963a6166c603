-- ===== src/Arrays/Edit/Shift.antt =====
-- The loop of `insert` in lib/datastructures/array.h, round after round.
use c_cpp_sandbox.Common.{
  ℕ, zero, suc, ◌+◌, ◌≤◌, Option, some, List, [], ◌++◌, ◌≡◌, refl, sym, ap, ap₂, ◌∙◌, arith, take,
  drop, length, length-set_elem, written, take-append-drop, append-nil, subst,
}
use c_cpp_sandbox.Arrays.Edit.{Shifting, source, shift_loop}
use c_cpp_sandbox.Arrays.Edit.Gap.{length-source}
use c_cpp_sandbox.Arrays.Edit.Ring.{Phase, filling, waiting, rotating, draining}
use c_cpp_sandbox.Arrays.Edit.Rounds.{round-Writes}

module _ {ℓ} {A : Type ℓ} (old : Option (List A)) (pos : ℕ) (els : List A) (num size : ℕ)
    (start : pos ≤ size) (el : length els ≡ num) where
  -- Where the loop ends, what was left to write is written.
  pub record Shifted (rounds i : ℕ) (s : Shifting A) (rest : List A) (s' : Shifting A)
      : Type ℓ where
    pub loop : shift_loop rounds old pos els num size i s ≡ some s'
    pub buffer : s'.new_buf ≡ take i s.new_buf ++ rest ++ drop (size + num) s.new_buf

  Phase-last :
      (s : Shifting A) (rest : List A) → Phase old pos els num size (size + num) s rest → rest ≡ []
  Phase-last s rest (filling _ h1 h2 h3 h4 e) = absurd (omega arith)
  Phase-last s rest (waiting _ h1 h2 h3 e) = absurd (omega arith)
  Phase-last s rest (rotating _ h1 h2 h3 h4 e) = absurd (omega arith)
  Phase-last s rest (draining _ h1 h2 h3 e) =
      e
      ∙ ap (λ n. take n (drop s.bucket_pop s.bucket ++ take s.bucket_pop s.bucket)) {y = zero}
          (omega arith)

  pub shift_loop-Shifted :
      (rounds i : ℕ) (s : Shifting A) (rest : List A)
      → i + rounds ≡ size + num
      → pos ≤ i
      → length s.bucket ≡ num
      → size + num ≤ length s.new_buf
      → size ≤ length (source old s.new_buf)
      → Phase old pos els num size i s rest
      → (s' : Shifting A) × Shifted rounds i s rest s'
  unfolding shift_loop
  shift_loop-Shifted zero i s rest e from eb room old_size p =
      let end : i ≡ size + num = omega arith in
      let none_left = Phase-last s rest (subst (λ n. Phase old pos els num size n s rest) end p) in
      (
        s,
        record {
          loop = refl;
          buffer =
              sym (take-append-drop i s.new_buf)
              ∙ ap₂ (λ t n. t ++ drop n s.new_buf) (sym (append-nil (take i s.new_buf))) end
              ∙ ap (λ r. take i s.new_buf ++ r ++ drop (size + num) s.new_buf) (sym none_left);
        },
      )
  shift_loop-Shifted (suc rounds) i s rest e from eb room old_size p =
      let w =
        round-Writes old pos els num size i s start from el eb room old_size rest (omega arith) p in
      let lb : length w.s'.new_buf ≡ length s.new_buf =
        ap length w.writes ∙ length-set_elem s.new_buf i w.x in
      let ls : length (source old w.s'.new_buf) ≡ length (source old s.new_buf) =
        ap (λ b. length (source old b)) w.writes ∙ length-source old s.new_buf i w.x in
      let (s', d) =
        shift_loop-Shifted rounds (suc i) w.s' w.rest' (omega arith) (omega arith)
          (w.same_bucket ∙ eb) (omega (arith, lb)) (omega (arith, ls)) w.phase in
      (
        s',
        record {
          loop = rw (shift_loop, w.runs) d.loop;
          buffer =
              d.buffer
              ∙ ap (λ b. take (suc i) b ++ w.rest' ++ drop (size + num) b) w.writes
              ∙ written s.new_buf i (size + num) w.x w.rest' (omega arith) (omega arith)
              ∙ ap (λ r. take i s.new_buf ++ r ++ drop (size + num) s.new_buf) (sym w.first);
        },
      )
