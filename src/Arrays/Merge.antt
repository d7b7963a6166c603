-- ===== src/Arrays/Merge.antt =====
-- `nlognsortMerge` of lib/datastructures/array.h: the merge of two adjacent sorted runs in place,
-- with a swap space for the elements of the left run that had to make room.
pub mod Runs
pub mod Left
pub mod Swap
pub mod LeftLoop
pub mod Rest
use c_cpp_sandbox.Common.{
  ℕ, zero, suc, ◌+◌, ◌-◌, Bool, true, false, Option, none, some, List, ltb, get_elem?, put,
  if◌then◌else◌,
}
use c_cpp_sandbox.Arrays.{ArraySort, goes_first}

-- The local variables, and the buffer that `A` and `B` point into.
pub record Merging {ℓ} (A : Type ℓ) : Type ℓ where
  pub e_buf : List A
  pub swap_space : List A
  pub swap_space_push : ℕ
  pub swap_space_pop : ℕ
  pub i : ℕ
  pub j : ℕ

module _ {ℓ} {A : Type ℓ} (equal greater : A → A → Bool) (order : ArraySort) where
  -- `j < size_b && nlognsortCompare(e_sorted, left_compare, B[j]) > 0`, and `B[j]` when it holds
  unfoldable pub b_wins : List A → ℕ → ℕ → ℕ → A → Option (Option A)
  b_wins buf b size_b j left_compare =
      if ltb j size_b
      then elim (get_elem? buf (b + j)) [
        | none ↦ none
        | some y ↦ some (if goes_first equal greater order left_compare y then some y else none)
      ]
      else some none

  -- `left_compare`
  unfoldable pub left_compare : Merging A → ℕ → Option A
  left_compare m a =
      if ltb 0 (m.swap_space_push - m.swap_space_pop)
      then get_elem? m.swap_space m.swap_space_pop
      else get_elem? m.e_buf (a + m.i)

  -- `swap = A[i]; A[i] = value; swap_space[swap_space_push++] = swap`
  unfoldable pub swap_in : Merging A → ℕ → A → Option (Merging A)
  swap_in m a value = elim (get_elem? m.e_buf (a + m.i)) [
    | none ↦ none
    | some swap ↦ elim (put m.e_buf (a + m.i) value) [
      | none ↦ none
      | some buf ↦ elim (put m.swap_space m.swap_space_push swap) [
        | none ↦ none
        | some space ↦
            some (record m {
              e_buf = buf;
              swap_space = space;
              swap_space_push = suc m.swap_space_push;
            })
      ]
    ]
  ]

  -- One round of the first loop. `A[i]` is read first, whatever happens with it.
  unfoldable pub left_round : ℕ → ℕ → ℕ → Merging A → Option (Merging A)
  unfolding b_wins left_compare swap_in
  left_round a b size_b m = elim (left_compare m a) [
    | none ↦ none
    | some x ↦ elim (b_wins m.e_buf b size_b m.j x) [
      | none ↦ none
      | some (some y) ↦ elim (swap_in m a y) [
        | none ↦ none
        | some m' ↦ some (record m' { j = suc m'.j; i = suc m'.i })
      ]
      | some none ↦
          if ltb 0 (m.swap_space_push - m.swap_space_pop)
          then elim (swap_in m a x) [
            | none ↦ none
            | some m' ↦ some (record m' { swap_space_pop = suc m'.swap_space_pop; i = suc m'.i })
          ]
          else some (record m { i = suc m.i })
    ]
  ]

  -- `while (i < size_a)`, with `rounds` = size_a - i rounds to go
  unfoldable pub left_loop : ℕ → ℕ → ℕ → ℕ → Merging A → Option (Merging A)
  unfolding left_round
  left_loop zero a b size_b m = some m
  left_loop (suc rounds) a b size_b m = elim (left_round a b size_b m) [
    | none ↦ none
    | some m' ↦ left_loop rounds a b size_b m'
  ]

  -- One round of the second loop.
  unfoldable pub rest_round : ℕ → ℕ → ℕ → Merging A → Option (Merging A)
  unfolding b_wins
  rest_round a b size_b m = elim (get_elem? m.swap_space m.swap_space_pop) [
    | none ↦ none
    | some x ↦ elim (b_wins m.e_buf b size_b m.j x) [
      | none ↦ none
      | some (some y) ↦ elim (put m.e_buf (a + m.i) y) [
        | none ↦ none
        | some buf ↦ some (record m { e_buf = buf; j = suc m.j; i = suc m.i })
      ]
      | some none ↦ elim (put m.e_buf (a + m.i) x) [
        | none ↦ none
        | some buf ↦
            some (record m { e_buf = buf; swap_space_pop = suc m.swap_space_pop; i = suc m.i })
      ]
    ]
  ]

  -- `while (swap_space_push - swap_space_pop > 0)`; `none` also when the fuel runs out
  unfoldable pub rest_loop : ℕ → ℕ → ℕ → ℕ → Merging A → Option (Merging A)
  unfolding rest_round
  rest_loop zero a b size_b m = none
  rest_loop (suc fuel) a b size_b m = elim (ltb 0 (m.swap_space_push - m.swap_space_pop)) [
    | false ↦ some m
    | true ↦ elim (rest_round a b size_b m) [ none ↦ none | some m' ↦ rest_loop fuel a b size_b m' ]
  ]

  -- `a` and `b` are where the runs begin in the buffer. The buffer and the swap space it leaves.
  unfoldable pub nlognsort_merge : List A → ℕ → ℕ → ℕ → ℕ → List A → Option (List A × List A)
  unfolding left_loop rest_loop
  nlognsort_merge buf a size_a b size_b swap_space =
      let start : Merging A = record {
        e_buf = buf;
        swap_space = swap_space;
        swap_space_push = 0;
        swap_space_pop = 0;
        i = 0;
        j = 0;
      } in
      elim (left_loop size_a a b size_b start) [
        | none ↦ none
        | some m ↦ elim (rest_loop (suc (size_a + size_b)) a b size_b m) [
          | none ↦ none
          | some m' ↦ some (m'.e_buf, m'.swap_space)
        ]
      ]
