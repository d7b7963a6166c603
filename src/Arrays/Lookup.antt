-- ===== src/Arrays/Lookup.antt =====
-- The operations of `Array` in lib/datastructures/array.h that search, read and compare, and those
-- that change the array by what they find. `equal` is the element type's `==`.
pub mod Reference
use c_cpp_sandbox.Common.{
  ℕ, zero, suc, ◌+◌, ◌-◌, Bool, true, false, Option, none, some, List, [], ◌∷◌, ltb, ◌==◌, not,
  if◌then◌else◌, get_elem?, ℤ, pos, negsuc,
}
use c_cpp_sandbox.Arrays.{Array, Outcome, returned, thrown, undefined}
use c_cpp_sandbox.Arrays.Edit.{append, remove}

module _ {ℓ} {A : Type ℓ} where
  -- `at`: `none` outside the buffer, an exception from the size on
  unfoldable pub at : Array A → ℕ → Option (Option A)
  at arr position =
      if ltb position arr.e_size
      then elim (get_elem? arr.e_buf position) [ none ↦ none | some x ↦ some (some x) ]
      else some none

  unfoldable pub front : Array A → Option (Option A)
  front arr =
      if arr.e_size == 0
      then some none
      else elim (get_elem? arr.e_buf 0) [ none ↦ none | some x ↦ some (some x) ]

  unfoldable pub back : Array A → Option (Option A)
  back arr =
      if arr.e_size == 0
      then some none
      else elim (get_elem? arr.e_buf (arr.e_size - 1)) [ none ↦ none | some x ↦ some (some x) ]

module _ {ℓ} {A : Type ℓ} (equal : A → A → Bool) where
  -- the loop of `arrayFind` from `i` on; -1 is `negsuc 0`
  unfoldable pub array_find : ℕ → ℕ → List A → A → Option ℤ
  array_find zero i e_buf el = some (negsuc 0)
  array_find (suc rounds) i e_buf el = elim (get_elem? e_buf i) [
    | none ↦ none
    | some x ↦ elim (equal x el) [
      | true ↦ some (pos i)
      | false ↦ array_find rounds (suc i) e_buf el
    ]
  ]

  unfoldable pub find : Array A → A → Option ℤ
  unfolding array_find
  find arr el = array_find arr.e_size 0 arr.e_buf el

  unfoldable pub contains : Array A → A → Option Bool
  unfolding find
  contains arr el = elim (find arr el) [
    | none ↦ none
    | some (pos i) ↦ some true
    | some (negsuc i) ↦ some (not (i == 0))
  ]

  -- the loop of `operator==` from `i` on
  unfoldable pub equal_from : ℕ → ℕ → Array A → Array A → Option Bool
  unfolding at
  equal_from zero i arr x = some true
  equal_from (suc rounds) i arr x = elim (at arr i) [
    | some (some a) ↦ elim (at x i) [
      | some (some b) ↦ elim (equal a b) [
        | false ↦ some false
        | true ↦ equal_from rounds (suc i) arr x
      ]
      | _ ↦ none
    ]
    | _ ↦ none
  ]

  unfoldable pub equals : Array A → Array A → Option Bool
  unfolding equal_from
  equals arr x = if arr.e_size == x.e_size then equal_from arr.e_size 0 arr x else some false

  module _ (new_c_array : ℕ → Option (List A)) where
    unfoldable pub unique_append : Array A → A → Outcome (Array A)
    unfolding contains append
    unique_append arr el = elim (contains arr el) [
      | none ↦ undefined
      | some true ↦ returned arr
      | some false ↦ append new_c_array arr (el ∷ []) 1
    ]

    unfoldable pub remove_el : Array A → A → Outcome (Array A)
    unfolding find remove
    remove_el arr el = elim (find arr el) [
      | none ↦ undefined
      | some (pos i) ↦ remove new_c_array arr i 1
      | some (negsuc i) ↦ returned arr
    ]
