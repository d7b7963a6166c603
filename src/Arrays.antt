-- ===== src/Arrays.antt =====
-- lib/datastructures/array.h and array.cpp: `Array<T>`, a growable array, and the shared handle to
-- one. A buffer is the list of its slots, as many as were allocated. `undefined` as an outcome is
-- a read or a write outside a buffer, `thrown` a C++ exception with the array it leaves behind.
pub mod Merge
pub mod Order
pub mod Sort
pub mod Edit
pub mod Lookup
mod Tests
use c_cpp_sandbox.Common.{ℕ, ◌-◌, Bool, true, false, List, ltb_ℤ, ℤ, pos, negsuc, if◌then◌else◌}

pub data ArraySort : Type 0 where
  array_sort_unsorted : ArraySort
  array_sort_ascending : ArraySort
  array_sort_descending : ArraySort

pub record Array {ℓ} (A : Type ℓ) : Type ℓ where
  pub e_buf : List A
  pub e_cap : ℕ
  pub e_size : ℕ
  pub e_sorted : ArraySort

-- What a call leaves: a result, an exception with the state behind it, or undefined behaviour.
pub data Outcome {ℓ} (A : Type ℓ) : Type ℓ where
  returned : A → Outcome A
  thrown : A → Outcome A
  undefined : Outcome A

abbrev pub is_descending : ArraySort → Bool
is_descending array_sort_descending = true
is_descending _ = false

-- `equal` and `greater` are the element type's `==` and `>`.
module _ {ℓ} {A : Type ℓ} (equal greater : A → A → Bool) where
  unfoldable pub nlognsort_compare : ArraySort → A → A → ℤ
  nlognsort_compare order x y =
      if equal x y
      then pos 0
      else if greater x y
      then (if is_descending order then negsuc 0 else pos 1)
      else (if is_descending order then pos 1 else negsuc 0)

  -- `y` is to stand before `x`.
  unfoldable pub goes_first : ArraySort → A → A → Bool
  unfolding nlognsort_compare
  goes_first order x y = ltb_ℤ (pos 0) (nlognsort_compare order x y)
