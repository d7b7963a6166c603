-- ===== src/CArray/Append.antt =====
-- `array_append` of lib/c/array.c.
use c_cpp_sandbox.Common.{
  take-append_exact, ℕ, ◌+◌, ◌*◌, ◌^◌, ◌≤◌, ◌<◌, ◌≡◌, refl, sym, ap, ◌∙◌, ◌⊎◌, inl, inr, true,
  false, Option, some, List, ◌++◌, arith, le-cases, length, take, drop, length-append, length-take,
  length-drop,
}
use c_cpp_sandbox.CArray.{
  operation_success, Array, size_t, overwrite, memcpy, grown, resize_buf, append_elements,
  alloc_new_buffer, alloc_new_buffer_for_array, array_append,
}
use c_cpp_sandbox.CArray.Copy.{memcpy_all, memcpy_start, length-overwrite, take-overwrite}
use c_cpp_sandbox.CArray.Valid.{IsValid, elements, GivesLength, mul_mono, mul_add}

-- `arr'` has the elements of `arr` and then `num_els` elements with the bytes `els`.
pub record Appended (arr : Array) (els : List ℕ) (num_els : ℕ) (arr' : Array) : Type 0 where
  pub valid : IsValid arr'
  pub added : elements arr' ≡ elements arr ++ els
  pub count : arr'.size ≡ arr.size + num_els
  pub same_el : arr'.size_of_el ≡ arr.size_of_el

-- The array when the new elements have been copied behind the old ones.
abbrev appended : Array → List ℕ → ℕ → Array
appended arr els num_els = record arr {
  buf = overwrite arr.buf (arr.size * arr.size_of_el) els;
  size = arr.size + num_els;
}

pub size_t_small : (n : ℕ) → n < 2 ^ 64 → size_t n ≡ n
size_t_small n h = omega arith

append_elements_ok :
    (arr : Array) (els : List ℕ) (num_els total_size : ℕ)
    → total_size ≡ arr.size * arr.size_of_el
    → length els ≡ num_els * arr.size_of_el
    → (arr.size + num_els) * arr.size_of_el ≤ length arr.buf
    → length arr.buf < 2 ^ 64
    → arr.size + num_els < 2 ^ 64
    → append_elements arr els num_els total_size
      ≡ some (operation_success, appended arr els num_els)
unfolding append_elements
append_elements_ok arr els num_els total_size et el fits narrow wide =
    let copied =
      memcpy_all arr.buf total_size els (size_t (num_els * arr.size_of_el))
        (omega (arith, mul_add arr.size num_els arr.size_of_el))
        (omega (arith, mul_add arr.size num_els arr.size_of_el)) in
    ground (arith, copied, et, size_t_small (arr.size + num_els) wide)

appended-Appended :
    (arr : Array) (els : List ℕ) (num_els : ℕ)
    → IsValid arr
    → length els ≡ num_els * arr.size_of_el
    → num_els + arr.size ≤ arr.cap
    → Appended arr els num_els (appended arr els num_els)
appended-Appended arr els num_els v el h =
    let room = mul_mono (arr.size + num_els) arr.cap arr.size_of_el (omega arith) in
    let split = mul_add arr.size num_els arr.size_of_el in
    let start : arr.size * arr.size_of_el + length els ≤ length arr.buf =
      omega (arith, split, room, el, v.buffer) in
    record {
      valid = record {
        buffer = length-overwrite arr.buf (arr.size * arr.size_of_el) els start ∙ v.buffer;
        room = omega arith;
        narrow = v.narrow;
      };
      added =
          take-overwrite arr.buf (arr.size * arr.size_of_el) els
            ((arr.size + num_els) * arr.size_of_el) start (omega (arith, split));
      count = refl;
      same_el = refl;
    }

-- The array in the buffer `b` of `cap` elements, before anything is added.
abbrev pub moved : Array → ℕ → List ℕ → Array
moved arr cap b = record arr {
  buf = take (arr.size * arr.size_of_el) arr.buf ++ drop (arr.size * arr.size_of_el) b;
  cap = cap;
}

pub length-kept :
    {arr : Array} (v : IsValid arr)
    → length (take (arr.size * arr.size_of_el) arr.buf) ≡ arr.size * arr.size_of_el
length-kept {arr} v = omega (
  arith,
  length-take (arr.size * arr.size_of_el) arr.buf,
  mul_mono arr.size arr.cap arr.size_of_el v.room,
  v.buffer,
)

pub moved-IsValid :
    (arr : Array) (cap : ℕ) (b : List ℕ)
    → IsValid arr
    → arr.size ≤ cap
    → cap * arr.size_of_el < 2 ^ 64
    → length b ≡ cap * arr.size_of_el
    → IsValid (moved arr cap b)
moved-IsValid arr cap b v h narrow e = record {
  buffer = omega (
    arith,
    length-append (take (arr.size * arr.size_of_el) arr.buf) (drop (arr.size * arr.size_of_el) b),
    length-kept v,
    length-drop (arr.size * arr.size_of_el) b,
    mul_mono arr.size cap arr.size_of_el h,
    e,
  );
  room = h;
  narrow = narrow;
}

pub moved-elements :
    (arr : Array) (cap : ℕ) (b : List ℕ) → IsValid arr → elements (moved arr cap b) ≡ elements arr
moved-elements arr cap b v =
    take-append_exact (take (arr.size * arr.size_of_el) arr.buf) _ _ (sym (length-kept v))

-- There is room for the new elements, or `malloc` gives the larger buffer.
abbrev pub CanHold : (ℕ → Option (List ℕ)) → Array → ℕ → Type 0
CanHold malloc arr num_els =
    (num_els + arr.size ≤ arr.cap)
    ⊎ ((b : List ℕ) × (grown (num_els + arr.size) * arr.size_of_el < 2 ^ 64)
        × (malloc (grown (num_els + arr.size) * arr.size_of_el) ≡ some b))

pub append_ok :
    (arr : Array) (els : List ℕ) (num_els : ℕ)
    → IsValid arr
    → length els ≡ num_els * arr.size_of_el
    → num_els + arr.size < 2 ^ 50
    → num_els + arr.size ≤ arr.cap
    → append_elements arr els num_els (size_t (arr.size * arr.size_of_el))
      ≡ some (operation_success, appended arr els num_els)
append_ok arr els num_els v el wide h =
    append_elements_ok arr els num_els (size_t (arr.size * arr.size_of_el))
      (size_t_small _ (omega (arith, mul_mono arr.size arr.cap arr.size_of_el v.room, v.narrow))) el
      (omega (arith, mul_mono (arr.size + num_els) arr.cap arr.size_of_el (omega arith), v.buffer))
      (omega (arith, v.buffer, v.narrow)) (omega arith)

pub resize_no :
    (arr : Array) (n : ℕ)
    → n + arr.size < 2 ^ 50
    → n + arr.size ≤ arr.cap
    → resize_buf arr n ≡ (false, arr)
unfolding resize_buf
resize_no arr n wide h = ground arith

pub resize_yes :
    (arr : Array) (n : ℕ)
    → n + arr.size < 2 ^ 50
    → arr.cap < n + arr.size
    → resize_buf arr n ≡ (true, record arr { cap = grown (n + arr.size) })
unfolding resize_buf
resize_yes arr n wide h = ground (arith, size_t_small (n + arr.size))

module _ {malloc : ℕ → Option (List ℕ)} (gives : GivesLength malloc) where
  append_fits :
      (arr : Array) (els : List ℕ) (num_els : ℕ)
      → IsValid arr
      → length els ≡ num_els * arr.size_of_el
      → num_els + arr.size < 2 ^ 50
      → num_els + arr.size ≤ arr.cap
      → array_append malloc arr els num_els ≡ some (operation_success, appended arr els num_els)
  unfolding array_append
  append_fits arr els num_els v el wide h =
      ground (arith, resize_no arr num_els wide h, append_ok arr els num_els v el wide h)

  append_grows :
      (arr : Array) (els : List ℕ) (num_els : ℕ) (b : List ℕ)
      → IsValid arr
      → length els ≡ num_els * arr.size_of_el
      → num_els + arr.size < 2 ^ 50
      → arr.cap < num_els + arr.size
      → grown (num_els + arr.size) * arr.size_of_el < 2 ^ 64
      → malloc (grown (num_els + arr.size) * arr.size_of_el) ≡ some b
      → array_append malloc arr els num_els
        ≡ some (operation_success, appended (moved arr (grown (num_els + arr.size)) b) els num_els)
  unfolding array_append alloc_new_buffer_for_array alloc_new_buffer
  append_grows arr els num_els b v el wide h narrow e =
      let larger =
        moved-IsValid arr (grown (num_els + arr.size)) b v (omega arith) narrow (gives _ b e) in
      let fits = mul_mono arr.size (grown (num_els + arr.size)) arr.size_of_el (omega arith) in
      let total = size_t_small (arr.size * arr.size_of_el) (omega (arith, fits)) in
      let copied : memcpy b 0 arr.buf 0 (arr.size * arr.size_of_el)
          ≡ some (moved arr (grown (num_els + arr.size)) b).buf =
        memcpy_start b arr.buf (arr.size * arr.size_of_el)
          (omega (arith, mul_mono arr.size arr.cap arr.size_of_el v.room))
          (omega (arith, fits, gives _ b e)) in
      ground (
        arith,
        resize_yes arr num_els wide h,
        size_t_small (grown (num_els + arr.size) * arr.size_of_el) narrow,
        e,
        total,
        copied,
        append_ok (moved arr (grown (num_els + arr.size)) b) els num_els larger el wide
            (omega arith),
      )

  -- When buffers have the length that `malloc` was asked for, the array is well formed, `els` has
  -- the bytes of `num_els` elements, their number with the old ones is below 2^50, and there is
  -- room or `malloc` gives the larger buffer: `array_append` succeeds without a copy out of
  -- bounds, the array is well formed again, and its elements are the old ones followed by the new
  -- ones.
  pub append-Appended :
      (arr : Array) (els : List ℕ) (num_els : ℕ)
      → IsValid arr
      → length els ≡ num_els * arr.size_of_el
      → num_els + arr.size < 2 ^ 50
      → CanHold malloc arr num_els
      → (arr' : Array) × (array_append malloc arr els num_els ≡ some (operation_success, arr'))
        × Appended arr els num_els arr'
  append-Appended arr els num_els v el wide (inl h) =
      (_, append_fits arr els num_els v el wide h, appended-Appended arr els num_els v el h)
  append-Appended arr els num_els v el wide (inr (b, narrow, e)) =
      elim (le-cases (num_els + arr.size) arr.cap) [
        | inl h ↦
            (_, append_fits arr els num_els v el wide h, appended-Appended arr els num_els v el h)
        | inr h ↦
            let larger =
              moved-IsValid arr (grown (num_els + arr.size)) b v (omega arith) narrow
                (gives _ b e) in
            let r =
              appended-Appended (moved arr (grown (num_els + arr.size)) b) els num_els larger el
                (omega arith) in
            (
              _,
              append_grows arr els num_els b v el wide h narrow e,
              record {
                valid = r.valid;
                added =
                    r.added
                    ∙ ap (λ l. l ++ els) (moved-elements arr (grown (num_els + arr.size)) b v);
                count = r.count;
                same_el = r.same_el;
              },
            )
      ]
