-- ===== src/Arrays/Merge/Rest.antt =====
-- The second loop of `nlognsortMerge`, and the whole merge.
use native.Mathlib.Nat.{add-zero, sub-zero}
use c_cpp_sandbox.Common.{
  ℕ, zero, suc, ◌+◌, ◌-◌, ◌≤◌, ◌<◌, Bool, some, List, [], ◌∷◌, ◌++◌, put_ok, ◌≡◌, refl, sym, ap,
  ap₂, ◌∙◌, inl, inr, arith, take, drop, length, set_elem, length-set_elem, take-set_elem,
  drop-set_elem, append_assoc, append-nil, take-append-drop, drop-drop, ltb_no, lt→ltb, le-cases,
}
use c_cpp_sandbox.Arrays.{ArraySort}
use c_cpp_sandbox.Arrays.Merge.{Merging, left_loop, rest_round, rest_loop, nlognsort_merge}
use c_cpp_sandbox.Arrays.Merge.Runs.{
  queue, left_of, left_of-all, queue_first, queue_none, merged, merged_right, merged_left,
  b_wins-Answer, right_goes, left_goes,
}
use c_cpp_sandbox.Arrays.Merge.Swap.{outcome}
use c_cpp_sandbox.Arrays.Merge.LeftLoop.{left_loop-LeftDone}

module _ {ℓ} {A : Type ℓ} (equal greater : A → A → Bool) (order : ArraySort) (a b size_b : ℕ) where
  -- What waits in the queue fits in front of the rest of the right run.
  record Waiting (m : Merging A) : Type ℓ where
    in_buffer : b + size_b ≤ length m.e_buf
    push_in : m.swap_space_push ≤ length m.swap_space
    pop_le : m.swap_space_pop ≤ m.swap_space_push
    behind : a + m.i + (m.swap_space_push - m.swap_space_pop) ≡ b + m.j
    j_le : m.j ≤ size_b

  abbrev rest_outcome : Merging A → List A
  rest_outcome m =
      take (a + m.i) m.e_buf
      ++ merged equal greater order (queue m.swap_space m.swap_space_pop m.swap_space_push)
          (left_of m.e_buf b size_b m.j)
      ++ drop (b + size_b) m.e_buf

  abbrev left_to_do : Merging A → ℕ
  left_to_do m = m.swap_space_push - m.swap_space_pop + (size_b - m.j)

  record Moves (m m' : Merging A) : Type ℓ where
    runs : rest_round equal greater order a b size_b m ≡ some m'
    waiting : Waiting m'
    fewer : left_to_do m' < left_to_do m
    same_space : length m'.swap_space ≡ length m.swap_space
    keeps : rest_outcome m' ≡ rest_outcome m

  module _ (m : Merging A) (h : Waiting m) (more : m.swap_space_pop < m.swap_space_push) where
    abbrev written : A → ℕ → ℕ → Merging A
    written value pop j = record m {
      e_buf = set_elem m.e_buf (a + m.i) value;
      swap_space_pop = pop;
      i = suc m.i;
      j = j;
    }

    written-outcome :
        (value : A) (pop j : ℕ)
        → m.j ≤ j
        → rest_outcome (written value pop j)
          ≡ take (a + m.i) m.e_buf
            ++ (value
                ∷ merged equal greater order
                    (queue m.swap_space pop m.swap_space_push)
                    (left_of m.e_buf b size_b j))
            ++ drop (b + size_b) m.e_buf
    written-outcome value pop j le =
        ap₂
          (λ x y.
            x
            ++ merged equal greater order (queue m.swap_space pop m.swap_space_push) y
            ++ drop (b + size_b) (set_elem m.e_buf (a + m.i) value))
          (ap (λ n. take n (set_elem m.e_buf (a + m.i) value)) {x = a + suc m.i} {y = suc (a + m.i)}
              (omega arith)
            ∙ take-set_elem m.e_buf (a + m.i) value (omega (arith, h.in_buffer, h.behind, h.j_le)))
          (ap (take (size_b - j))
            (drop-set_elem m.e_buf (b + j) (a + m.i) value (omega (arith, h.behind))))
        ∙ ap₂ ◌++◌ (append_assoc (take (a + m.i) m.e_buf) (value ∷ []) _)
            (drop-set_elem m.e_buf (b + size_b) (a + m.i) value (omega (arith, h.behind, h.j_le)))

    written-Waiting :
        (value : A) (pop j : ℕ)
        → pop ≤ m.swap_space_push
        → a + suc m.i + (m.swap_space_push - pop) ≡ b + j
        → j ≤ size_b
        → Waiting (written value pop j)
    written-Waiting value pop j h1 h2 h3 = record {
      in_buffer = omega (arith, h.in_buffer, length-set_elem m.e_buf (a + m.i) value);
      push_in = h.push_in;
      pop_le = h1;
      behind = h2;
      j_le = h3;
    }

    rest_round-Moves : (m' : Merging A) × Moves m m'
    unfolding rest_round
    rest_round-Moves =
        let (x, got, head) =
          queue_first m.swap_space m.swap_space_pop m.swap_space_push more h.push_in in
        let inside : a + m.i < length m.e_buf = omega (arith, h.in_buffer, h.behind, h.j_le) in
        let q = queue m.swap_space (suc m.swap_space_pop) m.swap_space_push in
        elim (b_wins-Answer equal greater order m.e_buf b size_b m.j x h.in_buffer) [
          | right_goes y lt answer rights first ↦ (
            written y m.swap_space_pop (suc m.j),
            record {
              runs = ground (arith, got, answer, put_ok m.e_buf (a + m.i) y inside);
              waiting = written-Waiting y _ _ h.pop_le (omega (arith, h.behind)) lt;
              fewer = omega (arith, lt);
              same_space = refl;
              keeps =
                  written-outcome y m.swap_space_pop (suc m.j) (omega arith)
                  ∙ ap (λ l. take (a + m.i) m.e_buf ++ l ++ drop (b + size_b) m.e_buf)
                      (ap
                          (λ l.
                            y ∷ merged equal greater order l (left_of m.e_buf b size_b (suc m.j)))
                          head
                        ∙ sym (merged_right equal greater order x y q _ first)
                        ∙ ap₂ (merged equal greater order) (sym head) (sym rights));
            },
          )
          | left_goes answer stays ↦ (
            written x (suc m.swap_space_pop) m.j,
            record {
              runs = ground (arith, got, answer, put_ok m.e_buf (a + m.i) x inside);
              waiting =
                  written-Waiting x _ _ (omega (arith, more)) (omega (arith, h.behind, more))
                    h.j_le;
              fewer = omega (arith, more);
              same_space = refl;
              keeps =
                  written-outcome x (suc m.swap_space_pop) m.j (omega arith)
                  ∙ ap (λ l. take (a + m.i) m.e_buf ++ l ++ drop (b + size_b) m.e_buf)
                      (sym (merged_left equal greater order x q _ stays)
                        ∙ ap (λ l. merged equal greater order l (left_of m.e_buf b size_b m.j))
                            (sym head));
            },
          )
        ]

  record RestDone (fuel : ℕ) (m m' : Merging A) : Type ℓ where
    loop : rest_loop equal greater order fuel a b size_b m ≡ some m'
    same_space : length m'.swap_space ≡ length m.swap_space
    buffer : m'.e_buf ≡ rest_outcome m

  -- With an empty queue the rest of the right run stands where it belongs.
  rest_outcome_empty :
      (m : Merging A) → Waiting m → m.swap_space_push ≤ m.swap_space_pop → m.e_buf ≡ rest_outcome m
  unfolding merged
  rest_outcome_empty m h le =
      sym (take-append-drop (a + m.i) m.e_buf)
      ∙ ap (λ l. take (a + m.i) m.e_buf ++ l)
          (ap (λ n. drop n m.e_buf) {y = b + m.j} (omega (arith, h.behind))
            ∙ sym (take-append-drop (size_b - m.j) (drop (b + m.j) m.e_buf))
            ∙ ap (λ l. left_of m.e_buf b size_b m.j ++ l)
                (drop-drop (size_b - m.j) (b + m.j) m.e_buf
                  ∙ ap (λ n. drop n m.e_buf) {y = b + size_b} (omega (arith, h.j_le))))
      ∙ sym (append_assoc (take (a + m.i) m.e_buf) (left_of m.e_buf b size_b m.j) _)
      ∙ ap
          (λ q.
            take (a + m.i) m.e_buf
            ++ merged equal greater order q (left_of m.e_buf b size_b m.j)
            ++ drop (b + size_b) m.e_buf)
          (sym (queue_none m.swap_space m.swap_space_pop m.swap_space_push le))

  rest_loop-RestDone :
      (fuel : ℕ) (m : Merging A)
      → left_to_do m < fuel
      → Waiting m
      → (m' : Merging A) × RestDone fuel m m'
  unfolding rest_loop
  rest_loop-RestDone zero m lt h = absurd (omega arith)
  rest_loop-RestDone (suc fuel) m lt h = elim (le-cases m.swap_space_push m.swap_space_pop) [
    | inl le ↦ (
      m,
      record {
        loop = rw (rest_loop, ltb_no 0 (m.swap_space_push - m.swap_space_pop) (omega arith)) refl;
        same_space = refl;
        buffer = rest_outcome_empty m h le;
      },
    )
    | inr more ↦
        let (m1, k) = rest_round-Moves m h more in
        let (m2, d) = rest_loop-RestDone fuel m1 (omega (arith, k.fewer)) k.waiting in
        (
          m2,
          record {
            loop =
                rw
                  (rest_loop, lt→ltb 0 (m.swap_space_push - m.swap_space_pop) (omega arith), k.runs)
                  d.loop;
            same_space = d.same_space ∙ k.same_space;
            buffer = d.buffer ∙ k.keeps;
          },
        )
  ]

module _ {ℓ} {A : Type ℓ} (equal greater : A → A → Bool) (order : ArraySort) where
  runs :
      (buf : List A) (a size_a b size_b : ℕ) (swap_space : List A) (m1 m2 : Merging A)
      → left_loop equal greater order size_a a b size_b (record {
        e_buf = buf;
        swap_space = swap_space;
        swap_space_push = 0;
        swap_space_pop = 0;
        i = 0;
        j = 0;
      })
        ≡ some m1
      → rest_loop equal greater order (suc (size_a + size_b)) a b size_b m1 ≡ some m2
      → nlognsort_merge equal greater order buf a size_a b size_b swap_space
        ≡ some (m2.e_buf, m2.swap_space)
  unfolding nlognsort_merge
  runs buf a size_a b size_b swap_space m1 m2 e1 e2 = rw (nlognsort_merge, e1, e2) refl

  -- For two adjacent runs inside the buffer and a swap space of at least as many slots as the left
  -- run has: `nlognsortMerge` ends, reads and writes nothing outside the buffer and the swap space,
  -- and puts the merge of the two runs in their place, with everything around them left alone.
  pub nlognsort_merge-merged :
      (buf : List A) (a size_a size_b : ℕ) (swap_space : List A)
      → a + size_a + size_b ≤ length buf
      → size_a ≤ length swap_space
      → (space : List A) × (nlognsort_merge equal greater order buf a size_a
            (a + size_a)
            size_b
            swap_space
          ≡ some (
            take a buf
                ++ merged equal greater order
                    (take size_a (drop a buf))
                    (take size_b (drop (a + size_a) buf))
                ++ drop (a + size_a + size_b) buf,
            space,
          ))
        × (length space ≡ length swap_space)
  nlognsort_merge-merged buf a size_a size_b swap_space fits room =
      let start : Merging A = record {
        e_buf = buf;
        swap_space = swap_space;
        swap_space_push = 0;
        swap_space_pop = 0;
        i = 0;
        j = 0;
      } in
      let (m1, d) =
        left_loop-LeftDone equal greater order a size_a size_b start (omega arith) (record {
          in_buffer = fits;
          in_space = room;
          pop_le = omega arith;
          push_le = omega arith;
          taken = refl;
          j_le = omega arith;
        }) in
      let h = d.bounds in
      let (m2, r) =
        rest_loop-RestDone equal greater order a (a + size_a) size_b (suc (size_a + size_b)) m1
          (omega (arith, h.taken, h.j_le, h.push_le, d.all))
          (record {
            in_buffer = h.in_buffer;
            push_in = omega (arith, h.in_space, h.push_le, d.all);
            pop_le = h.pop_le;
            behind = omega (arith, h.taken, d.all);
            j_le = h.j_le;
          }) in
      let q = queue m1.swap_space m1.swap_space_pop m1.swap_space_push in
      let done : m2.e_buf ≡ outcome equal greater order a size_a size_b start =
        r.buffer
        ∙ ap
            (λ l.
              take (a + m1.i) m1.e_buf
              ++ merged equal greater order l (left_of m1.e_buf (a + size_a) size_b m1.j)
              ++ drop (a + size_a + size_b) m1.e_buf)
            (sym (append-nil q)
              ∙ ap (λ l. q ++ l) (sym (left_of-all m1.e_buf a size_a m1.i (omega (arith, d.all)))))
        ∙ d.keeps in
      let same : outcome equal greater order a size_a size_b start
          ≡ take a buf
            ++ merged equal greater order (take size_a (drop a buf))
                (take size_b (drop (a + size_a) buf))
            ++ drop (a + size_a + size_b) buf =
        simp (add-zero, sub-zero) in
      (
        m2.swap_space,
        runs buf a size_a (a + size_a) size_b swap_space m1 m2
              (ap (λ n. left_loop equal greater order n a (a + size_a) size_b start)
                  {y = size_a - 0} (omega arith)
                ∙ d.loop)
              r.loop
            ∙ ap (λ l. some (l, m2.swap_space)) (done ∙ same),
        r.same_space ∙ d.same_space,
      )
