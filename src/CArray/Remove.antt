-- ===== src/CArray/Remove.antt =====
-- `array_remove` of lib/c/array.c.
use c_cpp_sandbox.Common.{
  take-append_exact, take-take, drop-take, ℕ, ◌+◌, ◌-◌, ◌*◌, ◌^◌, ◌≤◌, ◌<◌, ◌≡◌, refl, sym, ap, ap₂,
  ◌∙◌, Option, none, some, List, ◌++◌, arith, Option-cases, inl, inr, length, take, drop,
  length-append, length-take, length-drop,
}
use c_cpp_sandbox.CArray.{
  operation_success, Array, size_t, overwrite, memcpy, remove_elements, alloc_new_buffer,
  alloc_new_buffer_for_array, array_remove,
}
use c_cpp_sandbox.CArray.Copy.{
  memcpy_ok, memcpy_start, length-overwrite, memcpy_past, take-overwrite,
}
use c_cpp_sandbox.CArray.Valid.{IsValid, elements, GivesLength, mul_mono, mul_add, mul_sub, le-mul}
use c_cpp_sandbox.CArray.Append.{size_t_small}

-- The new buffer `b` after each copy: `p` bytes, and then `a` bytes from the byte `q` on.
abbrev first : List ℕ → List ℕ → ℕ → List ℕ
first buf b p = take p buf ++ drop p b

abbrev second : List ℕ → List ℕ → ℕ → ℕ → ℕ → List ℕ
second buf b p q a = overwrite (first buf b p) p (take a (drop q buf))

module _ (buf b : List ℕ) (p q a : ℕ) (order : p ≤ q) (inside : q + a ≤ length buf)
    (fits : p + a ≤ length b) where
  length-first : length (first buf b p) ≡ length b
  length-first =
      omega (arith, length-append (take p buf) (drop p b), length-take p buf, length-drop p b)

  length-tail : length (take a (drop q buf)) ≡ a
  length-tail = omega (arith, length-take a (drop q buf), length-drop q buf)

  length-second : length (second buf b p q a) ≡ length b
  length-second =
      length-overwrite (first buf b p) p (take a (drop q buf))
        (omega (arith, length-first, length-tail))
      ∙ length-first

  take-second : take (p + a) (second buf b p q a) ≡ take p buf ++ take a (drop q buf)
  take-second =
      take-overwrite (first buf b p) p (take a (drop q buf)) (p + a)
        (omega (arith, length-first, length-tail)) (omega (arith, length-tail))
      ∙ ap (λ l. l ++ take a (drop q buf))
          (take-append_exact (take p buf) (drop p b) p (omega (arith, length-take p buf)))

-- `arr'` has the elements of `arr` without `num_els` of them from `pos` on in its buffer, and the size of `arr`.
pub record Removed (arr : Array) (pos num_els : ℕ) (arr' : Array) : Type 0 where
  pub valid : IsValid arr'
  pub same_size : arr'.size ≡ arr.size
  pub same_el : arr'.size_of_el ≡ arr.size_of_el
  pub bytes :
      take ((arr.size - num_els) * arr.size_of_el) arr'.buf
      ≡ take (pos * arr.size_of_el) (elements arr)
        ++ drop ((pos + num_els) * arr.size_of_el) (elements arr)

remove_elements_ok :
    (arr : Array) (pos num_els : ℕ) (b : List ℕ) (p q a : ℕ)
    → p ≡ pos * arr.size_of_el
    → q ≡ p + num_els * arr.size_of_el
    → a ≡ (arr.size - pos - num_els) * arr.size_of_el
    → pos + num_els ≤ arr.size
    → arr.size < 2 ^ 64
    → q + a ≤ length arr.buf
    → p + a ≤ length b
    → length arr.buf < 2 ^ 64
    → remove_elements arr pos num_els b
      ≡ some (operation_success, record arr { buf = second arr.buf b p q a })
unfolding remove_elements
remove_elements_ok arr pos num_els b p q a ep eq ea h wide inside fits narrow =
    let count : size_t (arr.size - pos + 2 ^ 64 - num_els) ≡ arr.size - pos - num_els =
      omega arith in
    let c1 = memcpy_start b arr.buf p (omega arith) (omega arith) in
    let c2 =
      memcpy_ok (first arr.buf b p) p arr.buf q a
        (omega (arith, length-first arr.buf b p q a (omega arith) inside fits)) inside in
    ground (
      arith,
      size_t_small p,
      size_t_small a,
      size_t_small (num_els * arr.size_of_el),
      count,
      c1,
      c2,
      ep,
      ea,
      eq,
    )

second-Removed :
    (arr : Array) (pos num_els : ℕ) (b : List ℕ)
    → IsValid arr
    → pos + num_els ≤ arr.size
    → length b ≡ arr.cap * arr.size_of_el
    → let p = pos * arr.size_of_el in
      let q = p + num_els * arr.size_of_el in
      let a = (arr.size - pos - num_els) * arr.size_of_el in
      (q + a ≤ length arr.buf)
      × (p + a ≤ length b)
      × Removed arr pos num_els (record arr { buf = second arr.buf b p q a })
second-Removed arr pos num_els b v h eb =
    let p = pos * arr.size_of_el in
    let q = p + num_els * arr.size_of_el in
    let a = (arr.size - pos - num_els) * arr.size_of_el in
    let sub1 = mul_sub (arr.size - pos) num_els arr.size_of_el (omega arith) in
    let sub2 = mul_sub arr.size pos arr.size_of_el (omega arith) in
    let sub3 = mul_sub arr.size num_els arr.size_of_el (omega arith) in
    let all = mul_add pos num_els arr.size_of_el in
    let low = mul_mono (pos + num_els) arr.size arr.size_of_el h in
    let old = mul_mono arr.size arr.cap arr.size_of_el v.room in
    let inside : q + a ≤ length arr.buf = omega (arith, sub1, sub2, all, low, old, v.buffer) in
    let fits : p + a ≤ length b = omega (arith, sub1, sub2, all, low, old, eb) in
    (
      inside,
      fits,
      record {
        valid = record {
          buffer = length-second arr.buf b p q a (omega arith) inside fits ∙ eb;
          room = v.room;
          narrow = v.narrow;
        };
        same_size = refl;
        same_el = refl;
        bytes =
            ap (λ n. take n (second arr.buf b p q a)) (omega (arith, sub1, sub2, sub3, all, low))
            ∙ take-second arr.buf b p q a (omega arith) inside fits
            ∙ ap₂ (λ x y. x ++ y) (sym (take-take p _ arr.buf (omega (arith, all, low))))
                (sym (
                  drop-take ((pos + num_els) * arr.size_of_el) _ arr.buf low
                  ∙ ap₂ (λ n k. take n (drop k arr.buf)) (omega (arith, sub1, sub2, all)) all));
      },
    )

module _ {malloc : ℕ → Option (List ℕ)} (gives : GivesLength malloc) where
  -- When buffers have the length that `malloc` was asked for, the array is well formed with a
  -- size below 2^64, the range of elements is within it and `malloc` gives a buffer:
  -- `array_remove` succeeds without a copy out of bounds, the buffer has the elements without the
  -- range, the array is well formed again, and its size is what it was.
  pub remove-Removed :
      (arr : Array) (pos num_els : ℕ) (b : List ℕ)
      → IsValid arr
      → pos + num_els ≤ arr.size
      → arr.size < 2 ^ 64
      → malloc (arr.cap * arr.size_of_el) ≡ some b
      → (arr' : Array) × (array_remove malloc arr pos num_els ≡ some (operation_success, arr'))
        × Removed arr pos num_els arr'
  unfolding array_remove alloc_new_buffer_for_array alloc_new_buffer
  remove-Removed arr pos num_els b v h wide e =
      let (inside, fits, r) = second-Removed arr pos num_els b v h (gives _ b e) in
      let done =
        remove_elements_ok arr pos num_els b _ _ _ refl refl refl h wide inside fits
          (omega (arith, v.buffer, v.narrow)) in
      (_, ground (arith, size_t_small _ v.narrow, e, done), r)

wrap_sum : (x y c : ℕ) → x + y ≡ 2 ^ 64 * c → 0 < y → y < 2 ^ 64 → size_t x ≡ 2 ^ 64 - y
wrap_sum x y c e h1 h2 = omega arith

-- The bytes behind a range that ends `k` elements past the last one, as the source counts them.
wrapped :
    (n k c : ℕ) → n + k ≡ 2 ^ 64 → 0 < k * c → k * c < 2 ^ 64 → size_t (n * c) ≡ 2 ^ 64 - k * c
wrapped n k c e h1 h2 = wrap_sum (n * c) (k * c) c (sym (mul_add n k c) ∙ ap (λ x. x * c) e) h1 h2

remove_elements_past :
    (arr : Array) (pos num_els : ℕ) (b : List ℕ)
    → IsValid arr
    → 0 < arr.size_of_el
    → pos ≤ arr.size
    → arr.size < pos + num_els
    → (num_els + arr.cap) * arr.size_of_el < 2 ^ 64
    → remove_elements arr pos num_els b ≡ none
unfolding remove_elements
remove_elements_past arr pos num_els b v positive h1 h2 narrow =
    let k = pos + num_els - arr.size in
    let n = size_t (arr.size - pos + 2 ^ 64 - num_els) in
    let few = mul_mono k num_els arr.size_of_el (omega arith) in
    let some_k = mul_mono 1 k arr.size_of_el (omega arith) in
    let sum = mul_add num_els arr.cap arr.size_of_el in
    let many = le-mul num_els arr.size_of_el positive in
    let e : size_t (n * arr.size_of_el) ≡ 2 ^ 64 - k * arr.size_of_el =
      wrapped n k arr.size_of_el (omega (arith, many)) (omega arith) (omega arith) in
    let past : (b1 : List ℕ)
        → memcpy b1 (size_t (pos * arr.size_of_el)) arr.buf
            (size_t (pos * arr.size_of_el) + size_t (num_els * arr.size_of_el))
            (size_t (n * arr.size_of_el))
          ≡ none =
      λ b1.
        memcpy_past b1 (size_t (pos * arr.size_of_el)) arr.buf
          (size_t (pos * arr.size_of_el) + size_t (num_els * arr.size_of_el))
          (size_t (n * arr.size_of_el)) (omega (arith, e, few, sum, v.buffer)) in
    elim (Option-cases (memcpy b 0 arr.buf 0 (size_t (pos * arr.size_of_el)))) [
      | inl c ↦ ground (arith, c)
      | inr (b1, c) ↦ ground (arith, c, past b1)
    ]

module _ (malloc : ℕ → Option (List ℕ)) where
  -- On a well-formed array of non-empty elements, `array_remove` of a range that begins within
  -- the size and goes past the last element copies out of bounds when `malloc` gives a buffer, if
  -- the range and the capacity together have less than 2^64 bytes.
  pub remove_past_end :
      (arr : Array) (pos num_els : ℕ) (b : List ℕ)
      → IsValid arr
      → 0 < arr.size_of_el
      → pos ≤ arr.size
      → arr.size < pos + num_els
      → (num_els + arr.cap) * arr.size_of_el < 2 ^ 64
      → malloc (arr.cap * arr.size_of_el) ≡ some b
      → array_remove malloc arr pos num_els ≡ none
  unfolding array_remove alloc_new_buffer_for_array alloc_new_buffer
  remove_past_end arr pos num_els b v positive h1 h2 narrow e = ground (
    arith,
    size_t_small _ v.narrow,
    e,
    remove_elements_past arr pos num_els b v positive h1 h2 narrow,
  )
