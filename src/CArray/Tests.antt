-- ===== src/CArray/Tests.antt =====
-- lib/c/array.c with elements of two bytes: runs, and the theorems at them.
use c_cpp_sandbox.Common.{
  ℕ, zero, suc, ◌≡◌, refl, inr, Option, none, some, List, [], ◌∷◌, arith, ltb, if◌then◌else◌,
  length,
}
use c_cpp_sandbox.CArray.{
  operation_success, operation_error, Array, memcpy, resize_buf, array_append, array_insert,
  array_remove,
}
use c_cpp_sandbox.CArray.Valid.{IsValid, GivesLength}
use c_cpp_sandbox.CArray.Append.{Appended, append-Appended}
use c_cpp_sandbox.CArray.Insert.{Inserted, insert-Inserted}
use c_cpp_sandbox.CArray.Remove.{Removed, remove-Removed}

abbrev zeros : ℕ → List ℕ
zeros zero = []
zeros (suc n) = 0 ∷ zeros n

length-zeros : (n : ℕ) → length (zeros n) ≡ n
length-zeros zero = refl
length-zeros (suc n) = omega (arith, length-zeros n)

-- A `malloc` with 64 bytes to give, and one that has none.
abbrev small_malloc : ℕ → Option (List ℕ)
small_malloc n = if ltb n 64 then some (zeros n) else none

abbrev no_malloc : ℕ → Option (List ℕ)
no_malloc n = none

small_malloc-GivesLength : GivesLength small_malloc
small_malloc-GivesLength n b e = ground (arith, length-zeros n, e)

abbrev empty : Array
empty = record { buf = 0 ∷ 0 ∷ 0 ∷ 0 ∷ []; size = 0; cap = 2; size_of_el = 2 }

abbrev two : Array
two = record { buf = 1 ∷ 2 ∷ 3 ∷ 4 ∷ []; size = 2; cap = 2; size_of_el = 2 }

empty-IsValid : IsValid empty
empty-IsValid = record { buffer = refl; room = omega arith; narrow = omega arith }

two-IsValid : IsValid two
two-IsValid = record { buffer = refl; room = omega arith; narrow = omega arith }

append_run :
    array_append small_malloc two (5 ∷ 6 ∷ []) 1
    ≡ some (
      operation_success,
      record {
        buf = 1 ∷ 2 ∷ 3 ∷ 4 ∷ 5 ∷ 6 ∷ 0 ∷ 0 ∷ 0 ∷ 0 ∷ [];
        size = 3;
        cap = 5;
        size_of_el = 2;
      },
    )
unfolding array_append memcpy
append_run = refl

insert_run :
    array_insert small_malloc two 1 (5 ∷ 6 ∷ []) 1
    ≡ some (
      operation_success,
      record {
        buf = 1 ∷ 2 ∷ 5 ∷ 6 ∷ 3 ∷ 4 ∷ 0 ∷ 0 ∷ 0 ∷ 0 ∷ [];
        size = 2;
        cap = 5;
        size_of_el = 2;
      },
    )
unfolding array_insert memcpy
insert_run = refl

remove_run :
    array_remove small_malloc two 0 1
    ≡ some
        (operation_success, record { buf = 3 ∷ 4 ∷ 0 ∷ 0 ∷ []; size = 2; cap = 2; size_of_el = 2 })
unfolding array_remove memcpy
remove_run = refl

out_of_range : array_remove small_malloc two 3 1 ≡ some (operation_error, two)
unfolding array_remove
out_of_range = refl

append-Appended_example :
    (arr' : Array) × (array_append small_malloc two (5 ∷ 6 ∷ []) 1 ≡ some (operation_success, arr'))
    × Appended two (5 ∷ 6 ∷ []) 1 arr'
append-Appended_example =
    append-Appended small_malloc-GivesLength two (5 ∷ 6 ∷ []) 1 two-IsValid refl (omega arith)
      (inr (zeros 10, omega arith, refl))

insert-Inserted_example :
    (arr' : Array) × (array_insert small_malloc two 1 (5 ∷ 6 ∷ []) 1
      ≡ some (operation_success, arr'))
    × Inserted two 1 (5 ∷ 6 ∷ []) 1 arr'
unfolding resize_buf
insert-Inserted_example =
    insert-Inserted small_malloc-GivesLength two 1 (5 ∷ 6 ∷ []) 1 (zeros 10) two-IsValid
      (omega arith) refl (omega arith) (omega arith) refl

remove-Removed_example :
    (arr' : Array) × (array_remove small_malloc two 0 1 ≡ some (operation_success, arr'))
    × Removed two 0 1 arr'
remove-Removed_example =
    remove-Removed small_malloc-GivesLength two 0 1 (zeros 4) two-IsValid (omega arith)
      (omega arith) refl
