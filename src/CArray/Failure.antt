-- ===== src/CArray/Failure.antt =====
-- `array_append` of lib/c/array.c when `malloc` fails.
use c_cpp_sandbox.Common.{
  ℕ, suc, ◌+◌, ◌*◌, ◌^◌, ◌≤◌, ◌<◌, ◌≡◌, Option, none, some, List, arith, length,
}
use c_cpp_sandbox.CArray.{
  memory_operation_error, Array, memcpy, grown, append_elements, alloc_new_buffer,
  alloc_new_buffer_for_array, array_append,
}
use c_cpp_sandbox.CArray.Valid.{IsValid, mul_mono, mul_add}
use c_cpp_sandbox.CArray.Append.{size_t_small, resize_no, resize_yes}

-- A failed `array_append`: the capacity is that of the buffer that `malloc` did not give.
abbrev pub overstated : Array → ℕ → Array
overstated arr num_els = record arr { cap = grown (num_els + arr.size) }

module _ (malloc : ℕ → Option (List ℕ)) where
  append_fails :
      (arr : Array) (els : List ℕ) (num_els : ℕ)
      → num_els + arr.size < 2 ^ 50
      → arr.cap < num_els + arr.size
      → grown (num_els + arr.size) * arr.size_of_el < 2 ^ 64
      → malloc (grown (num_els + arr.size) * arr.size_of_el) ≡ none
      → array_append malloc arr els num_els ≡ some (memory_operation_error, overstated arr num_els)
  unfolding array_append alloc_new_buffer_for_array alloc_new_buffer
  append_fails arr els num_els wide h narrow e = ground (
    arith,
    resize_yes arr num_els wide h,
    size_t_small (grown (num_els + arr.size) * arr.size_of_el) narrow,
    e,
  )

  append_past :
      (arr : Array) (els : List ℕ) (num_els : ℕ)
      → num_els + arr.size < 2 ^ 50
      → num_els + arr.size ≤ arr.cap
      → (num_els + arr.size) * arr.size_of_el < 2 ^ 64
      → length arr.buf < (num_els + arr.size) * arr.size_of_el
      → array_append malloc arr els num_els ≡ none
  unfolding array_append append_elements memcpy
  append_past arr els num_els wide h narrow past =
      ground (arith, resize_no arr num_els wide h, mul_add num_els arr.size arr.size_of_el)

  -- On a well-formed array of non-empty elements, with a number of elements below 2^50 for which
  -- the capacity is too small: after `malloc` has failed to give the larger buffer, of less than
  -- 2^64 bytes, in `array_append`, the same call repeated writes past the end of the buffer.
  pub append-append_past :
      (arr : Array) (els : List ℕ) (num_els : ℕ)
      → IsValid arr
      → 0 < arr.size_of_el
      → num_els + arr.size < 2 ^ 50
      → arr.cap < num_els + arr.size
      → grown (num_els + arr.size) * arr.size_of_el < 2 ^ 64
      → malloc (grown (num_els + arr.size) * arr.size_of_el) ≡ none
      → (array_append malloc arr els num_els
          ≡ some (memory_operation_error, overstated arr num_els))
        × (array_append malloc (overstated arr num_els) els num_els ≡ none)
  append-append_past arr els num_els v positive wide h narrow e =
      let inside =
        mul_mono (num_els + arr.size) (grown (num_els + arr.size)) arr.size_of_el (omega arith) in
      let past = mul_mono (suc arr.cap) (num_els + arr.size) arr.size_of_el (omega arith) in
      (
        append_fails arr els num_els wide h narrow e,
        append_past (overstated arr num_els) els num_els wide (omega arith) (omega (arith, inside))
            (omega (arith, past, mul_add 1 arr.cap arr.size_of_el, v.buffer)),
      )
