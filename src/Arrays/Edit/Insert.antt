-- ===== src/Arrays/Edit/Insert.antt =====
-- `insert` of `Array` in lib/datastructures/array.h.
use c_cpp_sandbox.Common.{
  ℕ, ◌+◌, ◌-◌, ◌^◌, ◌≤◌, ◌<◌, Option, none, some, List, ◌++◌, ◌≡◌, refl, sym, ap, ap₂, ◌∙◌, inl,
  inr, arith, take, drop, length, ltb_no, le-cases, append-nil, append_assoc, length-append,
  length-take, length-drop, take-append_exact, take-take, drop-take, Option-cases, ◌⊎◌,
}
use c_cpp_sandbox.Arrays.{Array, array_sort_unsorted, returned, thrown}
use c_cpp_sandbox.Arrays.Edit.Valid.{IsValid, elements, GivesSlots}
use c_cpp_sandbox.Arrays.Edit.{
  size_t, upsized, Shifting, copy_from, source, shift_loop, insert_shifting, insert,
}
use c_cpp_sandbox.Arrays.Edit.Gap.{copy_from_lem}
use c_cpp_sandbox.Arrays.Edit.Ring.{behind}
use c_cpp_sandbox.Arrays.Edit.Rounds.{still_new}
use c_cpp_sandbox.Arrays.Edit.Shift.{shift_loop-Shifted}

-- What `insert` leaves when it returns.
pub record Inserted {ℓ} {A : Type ℓ} (arr : Array A) (pos : ℕ) (els : List A) (num_els : ℕ)
    (arr' : Array A) : Type ℓ where
  pub valid : IsValid arr'
  pub size : arr'.e_size ≡ arr.e_size + num_els
  pub unsorted : arr'.e_sorted ≡ array_sort_unsorted
  pub all : elements arr' ≡ take pos (elements arr) ++ els ++ drop pos (elements arr)

module _ {ℓ} {A : Type ℓ} (new_c_array : ℕ → Option (List A)) (gives : GivesSlots new_c_array)
    (arr : Array A) (pos : ℕ) (els : List A) (num_els : ℕ) (v : IsValid arr)
    (inside : pos ≤ arr.e_size) (el : length els ≡ num_els) (several : 0 < num_els) where
  shifting_runs :
      (old : Option (List A)) (buf bucket : List A) (slots : ℕ) (s' : Shifting A) (b : List A)
      → new_c_array num_els ≡ some bucket
      → shift_loop
          (arr.e_size + num_els - pos)
          old
          pos
          els
          num_els
          arr.e_size
          pos
          (record { new_buf = buf; bucket = bucket; bucket_push = 0; bucket_pop = 0 })
        ≡ some s'
      → s'.new_buf ≡ b
      → insert_shifting new_c_array (record arr { e_cap = slots }) old buf pos els num_els
        ≡ returned (record arr {
          e_cap = slots;
          e_buf = b;
          e_size = arr.e_size + num_els;
          e_sorted = array_sort_unsorted;
        })
  unfolding insert_shifting
  shifting_runs old buf bucket slots s' b e run eb = rw (insert_shifting, e, run, ← eb) refl

  shifted :
      (old : Option (List A)) (buf bucket : List A) (slots : ℕ)
      → source old buf ≡ arr.e_buf
      → take pos buf ≡ take pos arr.e_buf
      → length buf ≡ slots
      → arr.e_size + num_els ≤ slots
      → new_c_array num_els ≡ some bucket
      → (arr' : Array A) × (insert_shifting new_c_array
            (record arr { e_cap = slots })
            old
            buf
            pos
            els
            num_els
          ≡ returned arr')
        × Inserted arr pos els num_els arr'
  unfolding insert_shifting
  shifted old buf bucket slots same front eb room e =
      let start : Shifting A = record {
        new_buf = buf;
        bucket = bucket;
        bucket_push = 0;
        bucket_pop = 0;
      } in
      let tail = behind old pos els num_els arr.e_size pos start in
      let (s', d) =
        shift_loop-Shifted old pos els num_els arr.e_size inside el (arr.e_size + num_els - pos) pos
          start (els ++ tail) (omega arith) (omega arith) (gives num_els bucket e) (omega arith)
          (omega (arith, ap length same, v.buffer, v.fits))
          (still_new old pos els num_els arr.e_size pos start (els ++ tail) (omega arith) inside
            refl (omega arith)
            (ap (λ l. l ++ tail) (sym (append-nil els))
              ∙ ap (λ n. drop n els ++ take n bucket ++ tail) {x = 0} {y = pos - pos}
                  (omega arith))) in
      let e1 : length (take pos buf) ≡ pos = omega (arith, length-take pos buf, eb, room, inside) in
      let e2 : length tail ≡ arr.e_size - pos = omega (
        arith,
        length-take (arr.e_size - pos) (drop pos (source old buf)),
        length-drop pos (source old buf),
        ap length same,
        v.buffer,
        v.fits,
      ) in
      let front_length : length (take pos buf ++ (els ++ tail)) ≡ arr.e_size + num_els = omega (
        arith,
        length-append (take pos buf) (els ++ tail),
        length-append els tail,
        e1,
        e2,
        el,
        inside,
      ) in
      let b = take pos buf ++ (els ++ tail) ++ drop (arr.e_size + num_els) buf in
      let arr' : Array A = record arr {
        e_cap = slots;
        e_buf = b;
        e_size = arr.e_size + num_els;
        e_sorted = array_sort_unsorted;
      } in
      (
        arr',
        shifting_runs old buf bucket slots s' b e d.loop d.buffer,
        record {
          valid = record {
            buffer =
                length-append (take pos buf ++ (els ++ tail)) (drop (arr.e_size + num_els) buf)
                ∙ omega (arith, front_length, length-drop (arr.e_size + num_els) buf, eb, room);
            fits = room;
          };
          size = refl;
          unsorted = refl;
          all =
              take-append_exact (take pos buf ++ (els ++ tail)) (drop (arr.e_size + num_els) buf)
                (arr.e_size + num_els) (sym front_length)
              ∙ ap₂ (λ x y. x ++ (els ++ y))
                  (front ∙ sym (take-take pos arr.e_size arr.e_buf inside))
                  (ap (λ l. take (arr.e_size - pos) (drop pos l)) same
                    ∙ sym (drop-take pos arr.e_size arr.e_buf inside))
              ∙ sym (append_assoc (take pos (elements arr)) els (drop pos (elements arr)));
        },
      )

  -- One of the two requests of `insert` for memory is refused.
  abbrev Refused : Type ℓ
  Refused = (new_c_array (upsized (num_els + arr.e_size)) ≡ none) ⊎ (new_c_array num_els ≡ none)

  module _ (small : num_els + arr.e_size < 2 ^ 64) where
    bucket_refused :
        (old : Option (List A)) (arr1 : Array A) (buf : List A)
        → new_c_array num_els ≡ none
        → insert_shifting new_c_array arr1 old buf pos els num_els ≡ thrown arr1
    unfolding insert_shifting
    bucket_refused old arr1 buf e = rw (insert_shifting, e) refl

    in_place :
        num_els + arr.e_size ≤ arr.e_cap
        → insert new_c_array arr pos els num_els
          ≡ insert_shifting new_c_array arr none arr.e_buf pos els num_els
    unfolding insert
    in_place h =
        rw
          (
            insert,
            ltb_no arr.e_size pos inside,
            ltb_no arr.e_cap (size_t (num_els + arr.e_size)) (omega (arith, small)),
          )
          refl

    grow_refused :
        arr.e_cap < num_els + arr.e_size
        → new_c_array (upsized (num_els + arr.e_size)) ≡ none
        → insert new_c_array arr pos els num_els ≡ thrown arr
    unfolding insert
    grow_refused h e = ground (arith, inside, small, e)

    grow :
        (new_buf b : List A)
        → arr.e_cap < num_els + arr.e_size
        → new_c_array (upsized (num_els + arr.e_size)) ≡ some new_buf
        → copy_from pos 0 arr.e_buf new_buf ≡ some b
        → insert new_c_array arr pos els num_els
          ≡ insert_shifting new_c_array
              (record arr { e_cap = upsized (num_els + arr.e_size) })
              (some arr.e_buf)
              b
              pos
              els
              num_els
    unfolding insert
    grow new_buf b h e c = ground (arith, inside, small, e, c)

    copied :
        (new_buf : List A)
        → new_c_array (upsized (num_els + arr.e_size)) ≡ some new_buf
        → copy_from pos 0 arr.e_buf new_buf ≡ some (take pos arr.e_buf ++ drop (0 + pos) new_buf)
    copied new_buf e =
        copy_from_lem pos 0 arr.e_buf new_buf (omega (arith, inside, v.buffer, v.fits))
          (omega (arith, inside, gives _ new_buf e))

    -- For a well-formed array, a position up to its size, at least one new element, a sum of sizes
    -- below 2^64, and `new T[n]` that gives `n` slots or throws: either `new` refuses the larger
    -- buffer or the bucket and `insert` throws, or `insert` returns without a read or write out of
    -- bounds, and the array is well formed, is marked as unsorted, and has the new elements from the
    -- position on between its old ones, in their order.
    pub insert-Inserted_all :
        ((left : Array A) × Refused × (insert new_c_array arr pos els num_els ≡ thrown left))
        ⊎ ((arr' : Array A) × (insert new_c_array arr pos els num_els ≡ returned arr')
            × Inserted arr pos els num_els arr')
    insert-Inserted_all = elim (le-cases (num_els + arr.e_size) arr.e_cap) [
      | inl le ↦ elim (Option-cases (new_c_array num_els)) [
        | inl e ↦ inl (arr, inr e, in_place le ∙ bucket_refused none arr arr.e_buf e)
        | inr (bucket, e) ↦
            let (arr', run, r) =
              shifted none arr.e_buf bucket arr.e_cap refl refl v.buffer (omega arith) e in
            inr (arr', in_place le ∙ run, r)
      ]
      | inr lt ↦ elim (Option-cases (new_c_array (upsized (num_els + arr.e_size)))) [
        | inl e ↦ inl (arr, inl e, grow_refused lt e)
        | inr (new_buf, e) ↦
            let grown = grow new_buf _ lt e (copied new_buf e) in
            let b = take pos arr.e_buf ++ drop (0 + pos) new_buf in
            let et : length (take pos arr.e_buf) ≡ pos =
              omega (arith, length-take pos arr.e_buf, inside, v.buffer, v.fits) in
            elim (Option-cases (new_c_array num_els)) [
              | inl e2 ↦ inl (_, inr e2, grown ∙ bucket_refused (some arr.e_buf) _ b e2)
              | inr (bucket, e2) ↦
                  let (arr', run, r) =
                    shifted (some arr.e_buf) b bucket (upsized (num_els + arr.e_size)) refl
                      (take-append_exact (take pos arr.e_buf) (drop (0 + pos) new_buf) pos (sym et))
                      (length-append (take pos arr.e_buf) (drop (0 + pos) new_buf)
                        ∙ omega
                            (arith, et, length-drop (0 + pos) new_buf, gives _ new_buf e, inside))
                      (omega arith) e2 in
                  inr (arr', grown ∙ run, r)
            ]
      ]
    ]
