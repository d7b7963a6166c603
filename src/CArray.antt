-- ===== src/CArray.antt =====
-- lib/c/array.h and array.c: a growable array of elements of `size_of_el` bytes each. A buffer is the
-- list of its bytes. `none` as a result is undefined behaviour: a copy past the end of a buffer.
pub mod Copy
pub mod Valid
pub mod Append
pub mod Failure
pub mod Insert
pub mod Remove
pub mod Count
mod Tests
use c_cpp_sandbox.Common.{
  ℕ, ◌+◌, ◌-◌, ◌*◌, ◌/◌, ◌%◌, ◌^◌, Bool, true, false, ◌&&◌, Option, none, some, List, ◌++◌, ltb,
  leb, if◌then◌else◌, length, take, drop,
}

-- `operation_result` of lib/result.h
pub data OperationResult : Type 0 where
  operation_success : OperationResult
  operation_error : OperationResult
  memory_operation_error : OperationResult
  io_operation_error : OperationResult

-- `Array`; `size` and `cap` count elements, and all three numbers are `size_t`.
pub record Array : Type 0 where
  pub buf : List ℕ
  pub size : ℕ
  pub cap : ℕ
  pub size_of_el : ℕ

abbrev pub size_t : ℕ → ℕ
size_t n = n % 2 ^ 64

-- `dst` with `bytes` over what stood at `d`
abbrev pub overwrite : List ℕ → ℕ → List ℕ → List ℕ
overwrite dst d bytes = take d dst ++ bytes ++ drop (d + length bytes) dst

-- `memcpy(dst + d, src + s, n)`
unfoldable pub memcpy : List ℕ → ℕ → List ℕ → ℕ → ℕ → Option (List ℕ)
memcpy dst d src s n =
    if leb (d + n) (length dst) && leb (s + n) (length src)
    then some (overwrite dst d (take n (drop s src)))
    else none

unfoldable pub array_initialize : List ℕ → ℕ → ℕ → Array
array_initialize buf initial_cap size_of_el = record {
  buf = buf;
  size = 0;
  cap = initial_cap;
  size_of_el = size_of_el;
}

-- `(size_t)(n * 1.75)`; the product in `double` is exact for `n` below 2^50.
abbrev pub grown : ℕ → ℕ
grown n = size_t (n * 7 / 4)

-- Whether the capacity was raised, and the array with it. The buffer is left as it was.
unfoldable pub resize_buf : Array → ℕ → Bool × Array
resize_buf arr num_els =
    if ltb arr.cap (size_t (num_els + arr.size))
    then (true, record arr { cap = grown (size_t (num_els + arr.size)) })
    else (false, arr)

unfoldable pub array_num_elements : Array → ℕ
array_num_elements arr = arr.size / arr.size_of_el

-- The second copy of `array_append`, and the new size.
unfoldable pub append_elements : Array → List ℕ → ℕ → ℕ → Option (OperationResult × Array)
append_elements arr els num_els total_size =
    elim (memcpy arr.buf total_size els 0 (size_t (num_els * arr.size_of_el))) [
      | none ↦ none
      | some b ↦
          some (operation_success, record arr { buf = b; size = size_t (arr.size + num_els) })
    ]

-- The three copies of `array_insert` into the new buffer.
unfoldable pub insert_elements : Array → ℕ → List ℕ → ℕ → List ℕ → Option (OperationResult × Array)
insert_elements arr pos els num_els new_buf =
    let up_to_pos = size_t (pos * arr.size_of_el) in
    let new_els = size_t (num_els * arr.size_of_el) in
    let after_pos = size_t ((arr.size - pos) * arr.size_of_el) in
    elim (memcpy new_buf 0 arr.buf 0 up_to_pos) [
      | none ↦ none
      | some b1 ↦ elim (memcpy b1 up_to_pos els 0 new_els) [
        | none ↦ none
        | some b2 ↦ elim (memcpy b2 (up_to_pos + new_els) arr.buf up_to_pos after_pos) [
          | none ↦ none
          | some b3 ↦ some (operation_success, record arr { buf = b3 })
        ]
      ]
    ]

-- The two copies of `array_remove` into the new buffer.
unfoldable pub remove_elements : Array → ℕ → ℕ → List ℕ → Option (OperationResult × Array)
remove_elements arr pos num_els new_buf =
    let up_to_pos = size_t (pos * arr.size_of_el) in
    let to_remove = size_t (num_els * arr.size_of_el) in
    let count_after = size_t (arr.size - pos + 2 ^ 64 - num_els) in
    elim (memcpy new_buf 0 arr.buf 0 up_to_pos) [
      | none ↦ none
      | some b1 ↦
          elim (memcpy b1 up_to_pos arr.buf (up_to_pos + to_remove)
            (size_t (count_after * arr.size_of_el))) [
              | none ↦ none
              | some b2 ↦ some (operation_success, record arr { buf = b2 })
            ]
    ]

-- `malloc n` is NULL or a buffer with some bytes in it.
module _ (malloc : ℕ → Option (List ℕ)) where
  unfoldable pub alloc_new_buffer : ℕ → ℕ → Option (List ℕ)
  alloc_new_buffer initial_cap size_of_el = malloc (size_t (initial_cap * size_of_el))

  unfoldable pub alloc_new_buffer_for_array : Array → Option (List ℕ)
  unfolding alloc_new_buffer
  alloc_new_buffer_for_array arr = alloc_new_buffer arr.cap arr.size_of_el

  unfoldable pub array_append : Array → List ℕ → ℕ → Option (OperationResult × Array)
  unfolding append_elements alloc_new_buffer_for_array resize_buf
  array_append arr els num_els =
      let total_size = size_t (arr.size * arr.size_of_el) in
      let (resized, arr') = resize_buf arr num_els in
      if resized
      then elim (alloc_new_buffer_for_array arr') [
        | none ↦ some (memory_operation_error, arr')
        | some new_buf ↦ elim (memcpy new_buf 0 arr'.buf 0 total_size) [
          | none ↦ none
          | some b ↦ append_elements (record arr' { buf = b }) els num_els total_size
        ]
      ]
      else append_elements arr' els num_els total_size

  unfoldable pub array_insert : Array → ℕ → List ℕ → ℕ → Option (OperationResult × Array)
  unfolding insert_elements alloc_new_buffer_for_array resize_buf
  array_insert arr pos els num_els =
      if ltb arr.size pos
      then some (operation_error, arr)
      else let (resized, arr') = resize_buf arr num_els in
        elim (alloc_new_buffer_for_array arr') [
          | none ↦ some (memory_operation_error, arr')
          | some new_buf ↦ insert_elements arr' pos els num_els new_buf
        ]

  unfoldable pub array_remove : Array → ℕ → ℕ → Option (OperationResult × Array)
  unfolding remove_elements alloc_new_buffer_for_array
  array_remove arr pos num_els =
      if ltb arr.size pos
      then some (operation_error, arr)
      else elim (alloc_new_buffer_for_array arr) [
        | none ↦ some (memory_operation_error, arr)
        | some new_buf ↦ remove_elements arr pos num_els new_buf
      ]
