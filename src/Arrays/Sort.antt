-- ===== src/Arrays/Sort.antt =====
-- `nlognSort` and `Array::sort` of lib/datastructures/array.h. `new_c_array n` is what `new T[n]`
-- gives: `n` slots with something in them, or `none` for std::bad_alloc.
pub mod Blocks
pub mod Pass
pub mod Spans
pub mod Sorted
use c_cpp_sandbox.Common.{
  ℕ, zero, suc, ◌+◌, ◌-◌, ◌*◌, ◌/◌, Bool, true, false, Option, none, some, List, ltb, leb, ◌&&◌,
  if◌then◌else◌,
}
use c_cpp_sandbox.Arrays.{
  Array, ArraySort, array_sort_unsorted, array_sort_ascending, array_sort_descending, Outcome,
  returned, thrown, undefined,
}
use c_cpp_sandbox.Arrays.Merge.{nlognsort_merge}

module _ {ℓ} {A : Type ℓ} (equal greater : A → A → Bool) (order : ArraySort) where
  -- `right_size`
  abbrev pub right_size : ℕ → ℕ → ℕ → ℕ
  right_size i span size = if ltb size (i + span + span) then size - (i + span) else span

  -- One round of the inner loop: the run at `i` is merged with the one behind it, if there is one.
  unfoldable pub merge_at : ℕ → ℕ → ℕ → List A → List A → Option (List A × List A)
  merge_at i span size buf swap_space =
      if ltb (i + span) size
      then nlognsort_merge equal greater order buf i span (i + span) (right_size i span size)
          swap_space
      else some (buf, swap_space)

  -- `while (i < size)`; `none` also when the fuel runs out
  unfoldable pub sort_pass : ℕ → ℕ → ℕ → ℕ → List A → List A → Option (List A × List A)
  unfolding merge_at
  sort_pass zero i span size buf swap_space = none
  sort_pass (suc fuel) i span size buf swap_space = elim (ltb i size) [
    | false ↦ some (buf, swap_space)
    | true ↦ elim (merge_at i span size buf swap_space) [
      | none ↦ none
      | some (buf', space) ↦ sort_pass fuel (i + 2 * span) span size buf' space
    ]
  ]

  -- `while (span < size)`, with the same fuel for the inner loop
  unfoldable pub sort_spans : ℕ → ℕ → ℕ → List A → List A → Option (List A)
  unfolding sort_pass
  sort_spans zero span size buf swap_space = none
  sort_spans (suc fuel) span size buf swap_space = elim (ltb span size) [
    | false ↦ some buf
    | true ↦ elim (sort_pass (suc size) 0 span size buf swap_space) [
      | none ↦ none
      | some (buf', space) ↦ sort_spans fuel (span * 2) size buf' space
    ]
  ]

  unfoldable pub nlogn_sort : (ℕ → Option (List A)) → List A → ℕ → Outcome (List A)
  unfolding sort_spans
  nlogn_sort new_c_array buf size =
      if leb size 1 then returned buf else elim (new_c_array (size / 2)) [
        | none ↦ thrown buf
        | some swap_space ↦ elim (sort_spans (suc size) 1 size buf swap_space) [
          | none ↦ undefined
          | some buf' ↦ returned buf'
        ]
      ]

-- `a != b` of two `ArraySort`s
abbrev pub differs : ArraySort → ArraySort → Bool
differs array_sort_unsorted array_sort_unsorted = false
differs array_sort_ascending array_sort_ascending = false
differs array_sort_descending array_sort_descending = false
differs a b = true

module _ {ℓ} {A : Type ℓ} (equal greater : A → A → Bool) where
  -- `Array::sort`
  unfoldable pub sort : (ℕ → Option (List A)) → Array A → ArraySort → Outcome (Array A)
  unfolding nlogn_sort
  sort new_c_array arr order =
      if differs order array_sort_unsorted && differs arr.e_sorted order
      then elim (nlogn_sort equal greater order new_c_array arr.e_buf arr.e_size) [
        | returned buf ↦ returned (record arr { e_buf = buf; e_sorted = order })
        | thrown buf ↦ thrown (record arr { e_buf = buf; e_sorted = array_sort_unsorted })
        | undefined ↦ undefined
      ]
      else returned arr
