-- ===== src/CArray/Count.antt =====
-- `array_num_elements` of lib/c/array.c beside the element counts of the other operations.
use native.Mathlib.Nat.{mul-div-le}
use c_cpp_sandbox.Common.{ℕ, ◌+◌, ◌*◌, ◌^◌, ◌/◌, ◌<◌, ◌≡◌, Option, some, List, arith, length}
use c_cpp_sandbox.CArray.{operation_success, Array, array_num_elements, array_append}
use c_cpp_sandbox.CArray.Valid.{IsValid, GivesLength, mul_mono}
use c_cpp_sandbox.CArray.Append.{CanHold, append-Appended}

-- Under the conditions of a successful `array_append`, after elements of more than one byte have
-- been appended to an empty well-formed array, `array_num_elements` is less than their number.
pub num_elements-append :
    (malloc : ℕ → Option (List ℕ)) (arr : Array) (els : List ℕ) (num_els : ℕ)
    → GivesLength malloc
    → IsValid arr
    → length els ≡ num_els * arr.size_of_el
    → num_els + arr.size < 2 ^ 50
    → CanHold malloc arr num_els
    → arr.size ≡ 0
    → 0 < num_els
    → 1 < arr.size_of_el
    → (arr' : Array) × (array_append malloc arr els num_els ≡ some (operation_success, arr'))
      × (array_num_elements arr' < num_els)
unfolding array_num_elements
num_elements-append malloc arr els num_els gives v el wide holds empty more wider =
    let (arr', e, r) = append-Appended gives arr els num_els v el wide holds in
    (
      arr',
      e,
      omega (
        arith,
        mul-div-le arr'.size arr'.size_of_el,
        mul_mono 2 arr'.size_of_el (arr'.size / arr'.size_of_el) (omega (arith, r.same_el)),
        r.count,
      ),
    )
