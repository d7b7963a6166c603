-- ===== src/CArray/Insert.antt =====
-- `array_insert` of lib/c/array.c.
use c_cpp_sandbox.Common.{
  take-append_exact, take-take, drop-take, ℕ, ◌+◌, ◌-◌, ◌*◌, ◌^◌, ◌≤◌, ◌<◌, ◌≡◌, refl, sym, ap, ap₂,
  ◌∙◌, inl, inr, Option, some, List, ◌++◌, arith, le-cases, length, take, drop, length-append,
  length-take, length-drop,
}
use c_cpp_sandbox.CArray.{
  operation_success, Array, overwrite, resize_buf, insert_elements, alloc_new_buffer,
  alloc_new_buffer_for_array, array_insert,
}
use c_cpp_sandbox.CArray.Copy.{
  memcpy_ok, memcpy_all, memcpy_start, length-overwrite, take-overwrite,
}
use c_cpp_sandbox.CArray.Valid.{IsValid, elements, GivesLength, mul_mono, mul_add, mul_sub}
use c_cpp_sandbox.CArray.Append.{size_t_small, resize_no, resize_yes}

-- The new buffer `b` after each copy, for `p` bytes before the place of the new ones and `a` behind it.
abbrev first : List ℕ → List ℕ → ℕ → List ℕ
first buf b p = take p buf ++ drop p b

abbrev second : List ℕ → List ℕ → ℕ → List ℕ → List ℕ
second buf b p els = overwrite (first buf b p) p els

abbrev third : List ℕ → List ℕ → ℕ → List ℕ → ℕ → List ℕ
third buf b p els a = overwrite (second buf b p els) (p + length els) (take a (drop p buf))

module _ (buf b : List ℕ) (p : ℕ) (els : List ℕ) (a : ℕ) (inside : p + a ≤ length buf)
    (fits : p + length els + a ≤ length b) where
  length-first : length (first buf b p) ≡ length b
  length-first =
      omega (arith, length-append (take p buf) (drop p b), length-take p buf, length-drop p b)

  length-second : length (second buf b p els) ≡ length b
  length-second =
      length-overwrite (first buf b p) p els (omega (arith, length-first)) ∙ length-first

  length-tail : length (take a (drop p buf)) ≡ a
  length-tail = omega (arith, length-take a (drop p buf), length-drop p buf)

  length-third : length (third buf b p els a) ≡ length b
  length-third =
      length-overwrite (second buf b p els) (p + length els) (take a (drop p buf))
        (omega (arith, length-second, length-tail))
      ∙ length-second

  take-third :
      take (p + length els + a) (third buf b p els a) ≡ take p buf ++ els ++ take a (drop p buf)
  take-third =
      take-overwrite (second buf b p els) (p + length els) (take a (drop p buf))
        (p + length els + a) (omega (arith, length-second, length-tail))
        (omega (arith, length-tail))
      ∙ ap (λ l. l ++ take a (drop p buf))
          (take-overwrite (first buf b p) p els (p + length els) (omega (arith, length-first)) refl
            ∙ ap (λ l. l ++ els)
                (take-append_exact (take p buf) (drop p b) p (omega (arith, length-take p buf))))

-- `arr'` has the elements of `arr` with `els` from the element `pos` on in its buffer, and the size of `arr`.
pub record Inserted (arr : Array) (pos : ℕ) (els : List ℕ) (num_els : ℕ) (arr' : Array)
    : Type 0 where
  pub valid : IsValid arr'
  pub same_size : arr'.size ≡ arr.size
  pub same_el : arr'.size_of_el ≡ arr.size_of_el
  pub bytes :
      take ((arr.size + num_els) * arr.size_of_el) arr'.buf
      ≡ take (pos * arr.size_of_el) (elements arr)
        ++ els
        ++ drop (pos * arr.size_of_el) (elements arr)

-- The capacity with which `array_insert` asks for a buffer.
abbrev pub insert_cap : Array → ℕ → ℕ
insert_cap arr num_els = (resize_buf arr num_els).1.cap

resize-same :
    (arr : Array) (n : ℕ)
    → IsValid arr
    → n + arr.size < 2 ^ 50
    → ((resize_buf arr n).1 ≡ record arr { cap = insert_cap arr n })
      × (n + arr.size ≤ insert_cap arr n)
resize-same arr n v wide = elim (le-cases (n + arr.size) arr.cap) [
  | inl h ↦ ground (arith, resize_no arr n wide h)
  | inr h ↦ ground (arith, resize_yes arr n wide h)
]

insert_elements_ok :
    (arr : Array) (pos : ℕ) (els : List ℕ) (num_els : ℕ) (b : List ℕ) (p a : ℕ)
    → p ≡ pos * arr.size_of_el
    → a ≡ (arr.size - pos) * arr.size_of_el
    → length els ≡ num_els * arr.size_of_el
    → p + a ≤ length arr.buf
    → p + length els + a ≤ length b
    → length b < 2 ^ 64
    → insert_elements arr pos els num_els b
      ≡ some (operation_success, record arr { buf = third arr.buf b p els a })
unfolding insert_elements
insert_elements_ok arr pos els num_els b p a ep ea el inside fits narrow =
    let c1 = memcpy_start b arr.buf p (omega arith) (omega arith) in
    let c2 =
      memcpy_all (first arr.buf b p) p els (length els) refl
        (omega (arith, length-first arr.buf b p els a inside fits)) in
    let c3 =
      memcpy_ok (second arr.buf b p els) (p + length els) arr.buf p a
        (omega (arith, length-second arr.buf b p els a inside fits)) (omega arith) in
    ground
      (arith, size_t_small p, size_t_small a, size_t_small (length els), c1, c2, c3, ep, ea, el)

-- The pieces of the elements around the place, read from the buffer.
pieces :
    (arr : Array) (pos : ℕ)
    → pos ≤ arr.size
    → (take (pos * arr.size_of_el) (elements arr) ≡ take (pos * arr.size_of_el) arr.buf)
      × (drop (pos * arr.size_of_el) (elements arr)
          ≡ take ((arr.size - pos) * arr.size_of_el) (drop (pos * arr.size_of_el) arr.buf))
pieces arr pos h = (
  take-take _ _ arr.buf (mul_mono pos arr.size arr.size_of_el h),
  drop-take _ _ arr.buf (mul_mono pos arr.size arr.size_of_el h)
      ∙ ap (λ n. take n (drop (pos * arr.size_of_el) arr.buf))
          (sym (mul_sub arr.size pos arr.size_of_el h)),
)

third-Inserted :
    (arr : Array) (pos : ℕ) (els : List ℕ) (num_els cap : ℕ) (b : List ℕ)
    → IsValid arr
    → pos ≤ arr.size
    → length els ≡ num_els * arr.size_of_el
    → num_els + arr.size ≤ cap
    → cap * arr.size_of_el < 2 ^ 64
    → length b ≡ cap * arr.size_of_el
    → let p = pos * arr.size_of_el in
      let a = (arr.size - pos) * arr.size_of_el in
      (p + a ≤ length arr.buf)
      × (p + length els + a ≤ length b)
      × Inserted arr pos els num_els (record arr { cap = cap; buf = third arr.buf b p els a })
third-Inserted arr pos els num_els cap b v h el room narrow eb =
    let sub = mul_sub arr.size pos arr.size_of_el h in
    let low = mul_mono pos arr.size arr.size_of_el h in
    let all = mul_add arr.size num_els arr.size_of_el in
    let most = mul_mono (arr.size + num_els) cap arr.size_of_el (omega arith) in
    let old = mul_mono arr.size arr.cap arr.size_of_el v.room in
    let inside : pos * arr.size_of_el + (arr.size - pos) * arr.size_of_el ≤ length arr.buf =
      omega (arith, sub, low, old, v.buffer) in
    let fits : pos * arr.size_of_el + length els + (arr.size - pos) * arr.size_of_el ≤ length b =
      omega (arith, sub, low, all, most, el, eb) in
    (
      inside,
      fits,
      record {
        valid = record {
          buffer = length-third arr.buf b _ els _ inside fits ∙ eb;
          room = omega (arith, room);
          narrow = narrow;
        };
        same_size = refl;
        same_el = refl;
        bytes =
            ap
              (λ n.
                take n
                  (third arr.buf b (pos * arr.size_of_el) els ((arr.size - pos) * arr.size_of_el)))
              (omega (arith, sub, low, all, el))
            ∙ take-third arr.buf b _ els _ inside fits
            ∙ ap₂ (λ x y. x ++ els ++ y) (sym (pieces arr pos h).0) (sym (pieces arr pos h).1);
      },
    )

module _ {malloc : ℕ → Option (List ℕ)} (gives : GivesLength malloc) where
  -- When buffers have the length that `malloc` was asked for, the array is well formed, the place
  -- is within its size, `els` has the bytes of `num_els` elements, their number with the old ones
  -- is below 2^50, the new buffer has less than 2^64 bytes and `malloc` gives it: `array_insert`
  -- succeeds without a copy out of bounds, the buffer has the old elements with the new ones at
  -- the place, the array is well formed again, and its size is what it was.
  pub insert-Inserted :
      (arr : Array) (pos : ℕ) (els : List ℕ) (num_els : ℕ) (b : List ℕ)
      → IsValid arr
      → pos ≤ arr.size
      → length els ≡ num_els * arr.size_of_el
      → num_els + arr.size < 2 ^ 50
      → insert_cap arr num_els * arr.size_of_el < 2 ^ 64
      → malloc (insert_cap arr num_els * arr.size_of_el) ≡ some b
      → (arr' : Array) × (array_insert malloc arr pos els num_els ≡ some (operation_success, arr'))
        × Inserted arr pos els num_els arr'
  unfolding array_insert alloc_new_buffer_for_array alloc_new_buffer
  insert-Inserted arr pos els num_els b v h el wide narrow e =
      let (same, room) = resize-same arr num_els v wide in
      let (inside, fits, r) =
        third-Inserted arr pos els num_els (insert_cap arr num_els) b v h el room narrow
          (gives _ b e) in
      let done =
        insert_elements_ok (record arr { cap = insert_cap arr num_els }) pos els num_els b _ _ refl
          refl el inside fits (omega (arith, gives _ b e, narrow)) in
      (_, ground (arith, same, size_t_small _ narrow, e, done), r)
