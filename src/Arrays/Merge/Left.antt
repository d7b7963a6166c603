-- ===== src/Arrays/Merge/Left.antt =====
-- A round of the first loop of `nlognsortMerge`.
use c_cpp_sandbox.Common.{
  ℕ, suc, ◌+◌, ◌-◌, ◌≤◌, ◌<◌, Bool, true, false, none, some, List, [], ◌∷◌, ◌++◌, ◌≡◌, refl, sym,
  ap, ap₂, ◌∙◌, inl, inr, arith, take, drop, length, length-set_elem, append_assoc, take-suc,
  le-cases,
}
use c_cpp_sandbox.Arrays.{ArraySort, goes_first}
use c_cpp_sandbox.Arrays.Merge.{Merging, b_wins, left_compare, left_round}
use c_cpp_sandbox.Arrays.Merge.Runs.{
  queue, left_of, left_of-suc, queue_first, queue_none, merged, first_wins, merged_right,
  merged_left, b_wins-Answer, right_goes, left_goes,
}
use c_cpp_sandbox.Arrays.Merge.Swap.{
  InBounds, swap_in_lem, outcome, right, swapped, swapped-outcome,
}

module _ {ℓ} {A : Type ℓ} (equal greater : A → A → Bool) (order : ArraySort)
    (a size_a size_b : ℕ) where
  abbrev out : Merging A → List A
  out = outcome equal greater order a size_a size_b

  -- A round that reaches `m'` keeps the bounds and the outcome.
  pub record Keeps (m m' : Merging A) : Type ℓ where
    pub runs : left_round equal greater order a (a + size_a) size_b m ≡ some m'
    pub bounds : InBounds a size_a size_b m'
    pub next : m'.i ≡ suc m.i
    pub same_space : length m'.swap_space ≡ length m.swap_space
    pub keeps : out m' ≡ out m

  module _ (m : Merging A) (h : InBounds a size_a size_b m) (more : m.i < size_a) where
    -- the element of the left run that `left_compare` holds
    record Compared : Type ℓ where
      x : A
      l : List A
      left_head :
          queue m.swap_space m.swap_space_pop m.swap_space_push ++ left_of m.e_buf a size_a m.i
          ≡ x ∷ l
      reads : left_compare equal greater order m a ≡ some x

    left_compare-Compared : Compared
    unfolding left_compare
    left_compare-Compared = elim (le-cases m.swap_space_push m.swap_space_pop) [
      | inl e ↦
          let (x, got, head) = left_of-suc m.e_buf a size_a m.i more (omega (arith, h.in_buffer)) in
          record {
            x = x;
            l = left_of m.e_buf a size_a (suc m.i);
            left_head =
                ap (λ q. q ++ left_of m.e_buf a size_a m.i)
                  (queue_none m.swap_space m.swap_space_pop m.swap_space_push e)
                ∙ head;
            reads = ground (arith, got);
          }
      | inr lt ↦
          let (x, got, head) =
            queue_first m.swap_space m.swap_space_pop m.swap_space_push lt
              (omega (arith, h.push_le, h.in_space)) in
          record {
            x = x;
            l =
                queue m.swap_space (suc m.swap_space_pop) m.swap_space_push
                ++ left_of m.e_buf a size_a m.i;
            left_head = ap (λ q. q ++ left_of m.e_buf a size_a m.i) head;
            reads = ground (arith, got);
          }
    ]

    swapped-InBounds :
        (value swap : A) (pop j : ℕ)
        → pop ≤ suc m.swap_space_push
        → suc m.swap_space_push - pop ≡ j
        → j ≤ size_b
        → InBounds a size_a size_b
            (swapped equal greater order a size_a size_b m h more value swap pop j)
    swapped-InBounds value swap pop j h1 h2 h3 = record {
      in_buffer = omega (arith, h.in_buffer, length-set_elem m.e_buf (a + m.i) value);
      in_space = omega (arith, h.in_space, length-set_elem m.swap_space m.swap_space_push swap);
      pop_le = h1;
      push_le = omega (arith, h.push_le);
      taken = h2;
      j_le = h3;
    }

    round_right :
        (c : Compared) (y : A)
        → m.j < size_b
        → b_wins equal greater order m.e_buf (a + size_a) size_b m.j c.x ≡ some (some y)
        → right equal greater order a size_a size_b m h more m.j
          ≡ y ∷ right equal greater order a size_a size_b m h more (suc m.j)
        → goes_first equal greater order c.x y ≡ true
        → (m' : Merging A) × Keeps m m'
    unfolding left_round
    round_right c y lt answer rights first =
        let (s, got, lefts) = left_of-suc m.e_buf a size_a m.i more (omega (arith, h.in_buffer)) in
        let swapping =
          swap_in_lem equal greater order m a y s (omega (arith, h.in_buffer))
            (omega (arith, h.push_le, h.in_space)) got in
        let q = queue m.swap_space m.swap_space_pop m.swap_space_push in
        let l' = left_of m.e_buf a size_a (suc m.i) in
        (
          swapped equal greater order a size_a size_b m h more y s m.swap_space_pop (suc m.j),
          record {
            runs = ground (arith, c.reads, answer, swapping);
            bounds =
                swapped-InBounds y s _ _ (omega (arith, h.pop_le))
                  (omega (arith, h.taken, h.pop_le)) lt;
            next = refl;
            same_space = length-set_elem m.swap_space m.swap_space_push s;
            keeps =
                swapped-outcome equal greater order a size_a size_b m h more y s m.swap_space_pop
                  (suc m.j) h.pop_le
                ∙ ap (λ l. l ++ drop (a + size_a + size_b) m.e_buf)
                    (append_assoc (take (a + m.i) m.e_buf) (y ∷ []) _
                      ∙ ap (λ l. take (a + m.i) m.e_buf ++ l)
                          (ap
                              (λ l.
                                y
                                ∷ merged equal greater order l
                                    (right equal greater order a size_a size_b m h more (suc m.j)))
                              (append_assoc q (s ∷ []) l'
                                ∙ ap (λ l. q ++ l) (sym lefts)
                                ∙ c.left_head)
                            ∙ sym (
                                merged_right equal greater order c.x y c.l
                                  (right equal greater order a size_a size_b m h more (suc m.j))
                                  first)
                            ∙ ap₂ (merged equal greater order) (sym c.left_head) (sym rights)));
          },
        )

    round_queue :
        (c : Compared)
        → m.swap_space_pop < m.swap_space_push
        → b_wins equal greater order m.e_buf (a + size_a) size_b m.j c.x ≡ some none
        → first_wins equal greater order c.x
            (right equal greater order a size_a size_b m h more m.j)
          ≡ false
        → (m' : Merging A) × Keeps m m'
    unfolding left_round
    round_queue c lt answer stays =
        let (s, got, lefts) = left_of-suc m.e_buf a size_a m.i more (omega (arith, h.in_buffer)) in
        let (x, _, q_head) =
          queue_first m.swap_space m.swap_space_pop m.swap_space_push lt
            (omega (arith, h.push_le, h.in_space)) in
        let q = queue m.swap_space (suc m.swap_space_pop) m.swap_space_push in
        let l' = left_of m.e_buf a size_a (suc m.i) in
        let swapping =
          swap_in_lem equal greater order m a c.x s (omega (arith, h.in_buffer))
            (omega (arith, h.push_le, h.in_space)) got in
        let rest : c.l ≡ q ++ left_of m.e_buf a size_a m.i =
          ap (drop 1) (sym c.left_head)
          ∙ ap (λ l. drop 1 (l ++ left_of m.e_buf a size_a m.i)) q_head in
        (
          swapped equal greater order a size_a size_b m h more c.x s (suc m.swap_space_pop) m.j,
          record {
            runs = ground (arith, c.reads, answer, swapping);
            bounds =
                swapped-InBounds c.x s _ _ (omega arith) (omega (arith, h.taken, h.pop_le)) h.j_le;
            next = refl;
            same_space = length-set_elem m.swap_space m.swap_space_push s;
            keeps =
                swapped-outcome equal greater order a size_a size_b m h more c.x s
                  (suc m.swap_space_pop) m.j lt
                ∙ ap (λ l. l ++ drop (a + size_a + size_b) m.e_buf)
                    (append_assoc (take (a + m.i) m.e_buf) (c.x ∷ []) _
                      ∙ ap (λ l. take (a + m.i) m.e_buf ++ l)
                          (ap
                              (λ l.
                                c.x
                                ∷ merged equal greater order l
                                    (right equal greater order a size_a size_b m h more m.j))
                              (append_assoc q (s ∷ []) l' ∙ ap (λ l. q ++ l) (sym lefts) ∙ sym rest)
                            ∙ sym (
                                merged_left equal greater order c.x c.l
                                  (right equal greater order a size_a size_b m h more m.j) stays)
                            ∙ ap
                                (λ l.
                                  merged equal greater order l
                                    (right equal greater order a size_a size_b m h more m.j))
                                (sym c.left_head)));
          },
        )

    round_stays :
        (c : Compared)
        → m.swap_space_push ≤ m.swap_space_pop
        → b_wins equal greater order m.e_buf (a + size_a) size_b m.j c.x ≡ some none
        → first_wins equal greater order c.x
            (right equal greater order a size_a size_b m h more m.j)
          ≡ false
        → (m' : Merging A) × Keeps m m'
    unfolding left_round
    round_stays c le answer stays =
        let empty = queue_none m.swap_space m.swap_space_pop m.swap_space_push le in
        let (x, got, lefts) = left_of-suc m.e_buf a size_a m.i more (omega (arith, h.in_buffer)) in
        let l' = left_of m.e_buf a size_a (suc m.i) in
        let head : x ∷ l' ≡ c.x ∷ c.l =
          sym lefts ∙ ap (λ q. q ++ left_of m.e_buf a size_a m.i) (sym empty) ∙ c.left_head in
        let same : x ≡ c.x = cc in
        (
          record m { i = suc m.i },
          record {
            runs = ground (arith, c.reads, answer);
            bounds = record {
              in_buffer = h.in_buffer;
              in_space = h.in_space;
              pop_le = h.pop_le;
              push_le = omega (arith, h.push_le);
              taken = h.taken;
              j_le = h.j_le;
            };
            next = refl;
            same_space = refl;
            keeps =
                ap (λ l. l ++ drop (a + size_a + size_b) m.e_buf)
                  (ap₂
                      (λ t q.
                        t
                        ++ merged equal greater order (q ++ l')
                            (right equal greater order a size_a size_b m h more m.j))
                      (ap (λ n. take n m.e_buf) {x = a + suc m.i} {y = suc (a + m.i)} (omega arith)
                        ∙ take-suc m.e_buf (a + m.i) x got)
                      empty
                    ∙ append_assoc (take (a + m.i) m.e_buf) (x ∷ []) _
                    ∙ ap (λ l. take (a + m.i) m.e_buf ++ l)
                        (sym (
                            merged_left equal greater order x l'
                              (right equal greater order a size_a size_b m h more m.j)
                              (ap
                                  (λ z.
                                    first_wins equal greater order z
                                      (right equal greater order a size_a size_b m h more m.j))
                                  same
                                ∙ stays))
                          ∙ ap
                              (λ l.
                                merged equal greater order l
                                  (right equal greater order a size_a size_b m h more m.j))
                              (head ∙ sym c.left_head)));
          },
        )

    pub left_round-Keeps : (m' : Merging A) × Keeps m m'
    left_round-Keeps =
        let c = left_compare-Compared in
        elim (b_wins-Answer equal greater order m.e_buf (a + size_a) size_b m.j c.x h.in_buffer) [
          | right_goes y lt answer rights first ↦ round_right c y lt answer rights first
          | left_goes answer stays ↦ elim (le-cases m.swap_space_push m.swap_space_pop) [
            | inl le ↦ round_stays c le answer stays
            | inr lt ↦ round_queue c lt answer stays
          ]
        ]
