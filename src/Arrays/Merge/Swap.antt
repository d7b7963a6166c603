-- ===== src/Arrays/Merge/Swap.antt =====
-- What a round of the first loop of `nlognsortMerge` writes.
use c_cpp_sandbox.Common.{
  ℕ, suc, ◌+◌, ◌-◌, ◌≤◌, ◌<◌, Bool, some, List, [], ◌∷◌, ◌++◌, get_elem?, put_ok, ◌≡◌, ap, ap₂, ◌∙◌,
  arith, take, drop, length, set_elem, take-set_elem, drop-set_elem,
}
use c_cpp_sandbox.Arrays.{ArraySort}
use c_cpp_sandbox.Arrays.Merge.{Merging, swap_in}
use c_cpp_sandbox.Arrays.Merge.Runs.{queue, left_of, queue_push, merged}

module _ {ℓ} {A : Type ℓ} where
  -- The indices stay within their bounds: the queue has as many elements as were taken from `B`.
  pub record InBounds (a size_a size_b : ℕ) (m : Merging A) : Type ℓ where
    pub in_buffer : a + size_a + size_b ≤ length m.e_buf
    pub in_space : size_a ≤ length m.swap_space
    pub pop_le : m.swap_space_pop ≤ m.swap_space_push
    pub push_le : m.swap_space_push ≤ m.i
    pub taken : m.swap_space_push - m.swap_space_pop ≡ m.j
    pub j_le : m.j ≤ size_b

  -- `swap_in` writes both buffers.
  pub swap_in_lem :
      (equal greater : A → A → Bool) (order : ArraySort) (m : Merging A) (a : ℕ) (value swap : A)
      → a + m.i < length m.e_buf
      → m.swap_space_push < length m.swap_space
      → get_elem? m.e_buf (a + m.i) ≡ some swap
      → swap_in equal greater order m a value
        ≡ some (record m {
          e_buf = set_elem m.e_buf (a + m.i) value;
          swap_space = set_elem m.swap_space m.swap_space_push swap;
          swap_space_push = suc m.swap_space_push;
        })
  unfolding swap_in
  swap_in_lem equal greater order m a value swap h1 h2 e =
      ground
        (arith, e, put_ok m.e_buf (a + m.i) value h1, put_ok m.swap_space m.swap_space_push swap h2)

module _ {ℓ} {A : Type ℓ} (equal greater : A → A → Bool) (order : ArraySort)
    (a size_a size_b : ℕ) where
  -- What the buffer is going to be: what is merged, the merge of the rest, what lies behind.
  abbrev pub outcome : Merging A → List A
  outcome m =
      take (a + m.i) m.e_buf
      ++ merged equal greater order
          (queue m.swap_space m.swap_space_pop m.swap_space_push ++ left_of m.e_buf a size_a m.i)
          (left_of m.e_buf (a + size_a) size_b m.j)
      ++ drop (a + size_a + size_b) m.e_buf

  module _ (m : Merging A) (h : InBounds a size_a size_b m) (more : m.i < size_a) where
    abbrev pub right : ℕ → List A
    right j = left_of m.e_buf (a + size_a) size_b j

    abbrev pub swapped : A → A → ℕ → ℕ → Merging A
    swapped value swap pop j = record {
      e_buf = set_elem m.e_buf (a + m.i) value;
      swap_space = set_elem m.swap_space m.swap_space_push swap;
      swap_space_push = suc m.swap_space_push;
      swap_space_pop = pop;
      i = suc m.i;
      j = j;
    }

    -- What becomes of the outcome when `value` is written and `swap`, the element it replaces, joins
    -- the queue.
    pub swapped-outcome :
        (value swap : A) (pop j : ℕ)
        → pop ≤ m.swap_space_push
        → outcome (swapped value swap pop j)
          ≡ take (a + m.i) m.e_buf
            ++ (value ∷ [])
            ++ merged equal greater order
                (queue m.swap_space pop m.swap_space_push
                  ++ (swap ∷ [])
                  ++ left_of m.e_buf a size_a (suc m.i))
                (right j)
            ++ drop (a + size_a + size_b) m.e_buf
    swapped-outcome value swap pop j le =
        ap₂ (λ x y. x ++ y ++ drop (a + size_a + size_b) (set_elem m.e_buf (a + m.i) value))
          (ap (λ n. take n (set_elem m.e_buf (a + m.i) value)) {x = a + suc m.i} {y = suc (a + m.i)}
              (omega arith)
            ∙ take-set_elem m.e_buf (a + m.i) value (omega (arith, h.in_buffer)))
          (ap₂ (merged equal greater order)
            (ap₂ ◌++◌
              (queue_push m.swap_space pop m.swap_space_push swap le
                (omega (arith, h.in_space, h.push_le)))
              (ap (take (size_a - suc m.i))
                (drop-set_elem m.e_buf (a + suc m.i) (a + m.i) value (omega arith))))
            (ap (take (size_b - j))
              (drop-set_elem m.e_buf (a + size_a + j) (a + m.i) value (omega arith))))
        ∙ ap
            (λ l.
              take (a + m.i) m.e_buf
              ++ (value ∷ [])
              ++ merged equal greater order
                  (queue m.swap_space pop m.swap_space_push
                    ++ (swap ∷ [])
                    ++ left_of m.e_buf a size_a (suc m.i))
                  (right j)
              ++ l)
            (drop-set_elem m.e_buf (a + size_a + size_b) (a + m.i) value (omega arith))
