-- ===== src/Arrays/Edit/Gap.antt =====
-- `remove` of `Array` in lib/datastructures/array.h.
use c_cpp_sandbox.Common.{
  ℕ, zero, suc, ◌+◌, ◌-◌, ◌/◌, ◌^◌, ◌≤◌, ◌<◌, Option, none, some, List, [], ◌∷◌, ◌++◌, ◌≡◌, refl,
  sym, ap, ap₂, ◌∙◌, inl, inr, arith, take, drop, length, put_ok, set_elem, length-set_elem,
  drop-set_elem, element_at, slice_suc, written, ltb_no, lt→ltb, le-cases, take-append-drop,
  append-nil, length-append, length-take, length-drop, take-append_exact, take-take, drop-take,
  Option-cases, ◌⊎◌,
}
use c_cpp_sandbox.Arrays.{Array, returned, thrown}
use c_cpp_sandbox.Arrays.Edit.Valid.{IsValid, elements, GivesSlots}
use c_cpp_sandbox.Arrays.Edit.{
  size_t, upsized, copy_from, source, close_gap, remove_closing, remove,
}

module _ {ℓ} {A : Type ℓ} where
  nothing_left : (buf : List A) (i n : ℕ) → n ≡ i → buf ≡ take i buf ++ [] ++ drop n buf
  nothing_left buf i n e =
      sym (take-append-drop i buf)
      ∙ ap₂ (λ t m. t ++ drop m buf) (sym (append-nil (take i buf))) (sym e)

  pub copy_from_lem :
      (rounds i : ℕ) (e_buf new_buf : List A)
      → i + rounds ≤ length e_buf
      → i + rounds ≤ length new_buf
      → copy_from rounds i e_buf new_buf
        ≡ some (take i new_buf ++ take rounds (drop i e_buf) ++ drop (i + rounds) new_buf)
  unfolding copy_from
  copy_from_lem zero i e_buf new_buf h1 h2 = ap some (nothing_left new_buf i (i + 0) (omega arith))
  copy_from_lem (suc rounds) i e_buf new_buf h1 h2 =
      let (x, got, e) = element_at e_buf i (omega arith) in
      rw (copy_from, got, put_ok new_buf i x (omega arith))
        (copy_from_lem rounds (suc i) e_buf (set_elem new_buf i x) (omega arith)
            (omega (arith, length-set_elem new_buf i x))
          ∙ ap some (
              written new_buf i (suc i + rounds) x (take rounds (drop (suc i) e_buf)) (omega arith)
                (omega arith)
              ∙ ap₂ (λ l n. take i new_buf ++ l ++ drop n new_buf)
                  (sym (slice_suc e_buf i rounds x e)) (omega arith)))

  -- A write does not change what the source has behind it.
  pub source-drop :
      (old : Option (List A)) (buf : List A) (i m : ℕ) (x : A)
      → i < m
      → drop m (source old (set_elem buf i x)) ≡ drop m (source old buf)
  source-drop none buf i m x h = drop-set_elem buf m i x h
  source-drop (some e_buf) buf i m x h = refl

  pub length-source :
      (old : Option (List A)) (buf : List A) (i : ℕ) (x : A)
      → length (source old (set_elem buf i x)) ≡ length (source old buf)
  length-source none buf i x = length-set_elem buf i x
  length-source (some e_buf) buf i x = refl

  close_gap_end :
      (rounds : ℕ) (old : Option (List A)) (num_els size i : ℕ) (buf : List A)
      → size ≤ i + num_els
      → close_gap rounds old num_els size i buf ≡ some buf
  unfolding close_gap
  close_gap_end zero old num_els size i buf h = refl
  close_gap_end (suc rounds) old num_els size i buf h =
      rw (close_gap, ltb_no (i + num_els) size h)
        (close_gap_end rounds old num_els size (suc i) buf (omega arith))

  -- With `k` elements behind the gap, which move to its beginning.
  close_gap_lem :
      (rounds k : ℕ) (old : Option (List A)) (num_els size i : ℕ) (buf : List A)
      → size ≡ i + num_els + k
      → k ≤ rounds
      → size ≤ length (source old buf)
      → i + k ≤ length buf
      → close_gap rounds old num_els size i buf
        ≡ some (take i buf ++ take k (drop (i + num_els) (source old buf)) ++ drop (i + k) buf)
  unfolding close_gap
  close_gap_lem rounds zero old num_els size i buf e le h1 h2 =
      close_gap_end rounds old num_els size i buf (omega arith)
      ∙ ap some (nothing_left buf i (i + 0) (omega arith))
  close_gap_lem zero (suc k) old num_els size i buf e le h1 h2 = absurd (omega arith)
  close_gap_lem (suc rounds) (suc k) old num_els size i buf e le h1 h2 =
      let src = source old buf in
      let (x, got, at_x) = element_at src (i + num_els) (omega arith) in
      rw (close_gap, lt→ltb (i + num_els) size (omega arith), got, put_ok buf i x (omega arith))
        (close_gap_lem rounds k old num_els size (suc i) (set_elem buf i x) (omega arith)
            (omega arith) (omega (arith, length-source old buf i x))
            (omega (arith, length-set_elem buf i x))
          ∙ ap some (
              ap
                (λ l.
                  take (suc i) (set_elem buf i x)
                  ++ take k l
                  ++ drop (suc i + k) (set_elem buf i x))
                (source-drop old buf i (suc i + num_els) x (omega arith))
              ∙ written buf i (suc i + k) x (take k (drop (suc i + num_els) src)) (omega arith)
                  (omega arith)
              ∙ ap₂ (λ l n. take i buf ++ l ++ drop n buf)
                  (ap (λ n. x ∷ take k (drop n src)) {y = suc (i + num_els)} (omega arith)
                    ∙ sym (slice_suc src (i + num_els) k x at_x))
                  (omega arith)))

-- What `remove` leaves when it returns.
pub record Removed {ℓ} {A : Type ℓ} (arr : Array A) (pos num_els : ℕ) (arr' : Array A)
    : Type ℓ where
  pub valid : IsValid arr'
  pub size : arr'.e_size ≡ arr.e_size - num_els
  pub order : arr'.e_sorted ≡ arr.e_sorted
  pub rest : elements arr' ≡ take pos (elements arr) ++ drop (pos + num_els) (elements arr)

module _ {ℓ} {A : Type ℓ} (arr : Array A) (pos num_els : ℕ) (v : IsValid arr)
    (inside : pos + num_els ≤ arr.e_size) where
  closed :
      (old : Option (List A)) (buf : List A) (slots : ℕ)
      → source old buf ≡ arr.e_buf
      → take pos buf ≡ take pos arr.e_buf
      → length buf ≡ slots
      → arr.e_size - num_els ≤ slots
      → (arr' : Array A) × (remove_closing (record arr { e_cap = slots }) old buf pos num_els
          ≡ returned arr')
        × Removed arr pos num_els arr'
  unfolding remove_closing
  closed old buf slots same front el room =
      let k = arr.e_size - (pos + num_els) in
      let src = source old buf in
      let b = take pos buf ++ take k (drop (pos + num_els) src) ++ drop (pos + k) buf in
      let run =
        close_gap_lem (arr.e_size - pos) k old num_els arr.e_size pos buf (omega (arith, inside))
          (omega (arith, inside)) (omega (arith, ap length same, v.buffer, v.fits))
          (omega (arith, inside, el, room)) in
      let e1 = length-take k (drop (pos + num_els) src) in
      let e2 : length (take pos buf) ≡ pos = omega (arith, length-take pos buf, el, room, inside) in
      let e3 : length (take k (drop (pos + num_els) src)) ≡ k =
        omega (arith, e1, length-drop (pos + num_els) src, ap length same, v.buffer, v.fits) in
      (
        record arr { e_cap = slots; e_buf = b; e_size = arr.e_size - num_els },
        rw (remove_closing, run) refl,
        record {
          valid = record {
            buffer =
                length-append (take pos buf ++ take k (drop (pos + num_els) src))
                  (drop (pos + k) buf)
                ∙ omega (
                  arith,
                  length-append (take pos buf) (take k (drop (pos + num_els) src)),
                  e2,
                  e3,
                  length-drop (pos + k) buf,
                  el,
                  room,
                  inside,
                );
            fits = room;
          };
          size = refl;
          order = refl;
          rest =
              take-append_exact (take pos buf ++ take k (drop (pos + num_els) src))
                (drop (pos + k) buf) (arr.e_size - num_els)
                (omega (
                  arith,
                  length-append (take pos buf) (take k (drop (pos + num_els) src)),
                  e2,
                  e3,
                  inside,
                ))
              ∙ ap₂ ◌++◌ (front ∙ sym (take-take pos arr.e_size arr.e_buf (omega (arith, inside))))
                  (ap (λ l. take k (drop (pos + num_els) l)) same
                    ∙ sym (drop-take (pos + num_els) arr.e_size arr.e_buf inside));
        },
      )

  module _ (new_c_array : ℕ → Option (List A)) (gives : GivesSlots new_c_array)
      (small : arr.e_size < 2 ^ 64) where
    abbrev shrunk : ℕ
    shrunk = upsized (arr.e_size - num_els)

    keep_step :
        arr.e_cap / 2 ≤ shrunk
        → remove new_c_array arr pos num_els ≡ remove_closing arr none arr.e_buf pos num_els
    unfolding remove
    keep_step h =
        rw
          (
            remove,
            ltb_no arr.e_size (size_t (pos + num_els)) (omega (arith, inside, small)),
            ltb_no shrunk (arr.e_cap / 2) h,
          )
          refl

    throw_step :
        shrunk < arr.e_cap / 2
        → new_c_array shrunk ≡ none
        → remove new_c_array arr pos num_els ≡ thrown arr
    unfolding remove
    throw_step h e =
        rw
          (
            remove,
            ltb_no arr.e_size (size_t (pos + num_els)) (omega (arith, inside, small)),
            lt→ltb shrunk (arr.e_cap / 2) h,
            e,
          )
          refl

    shrink_step :
        (new_buf b : List A)
        → shrunk < arr.e_cap / 2
        → new_c_array shrunk ≡ some new_buf
        → copy_from pos 0 arr.e_buf new_buf ≡ some b
        → remove new_c_array arr pos num_els
          ≡ remove_closing (record arr { e_cap = shrunk }) (some arr.e_buf) b pos num_els
    unfolding remove
    shrink_step new_buf b h e c =
        rw
          (
            remove,
            ltb_no arr.e_size (size_t (pos + num_els)) (omega (arith, inside, small)),
            lt→ltb shrunk (arr.e_cap / 2) h,
            e,
            c,
          )
          refl

    -- For a well-formed array of less than 2^64 elements, a range within them, and `new T[n]` that
    -- gives `n` slots or throws: either `new` refuses the smaller buffer, and `remove` throws and
    -- leaves the array as it was, or `remove` returns without a read or write out of bounds, and the
    -- array is well formed, keeps its mark for the order, and has the elements before and behind
    -- the range, in their order.
    pub remove-Removed_all :
        ((new_c_array (upsized (arr.e_size - num_els)) ≡ none)
          × (remove new_c_array arr pos num_els ≡ thrown arr))
        ⊎ ((arr' : Array A) × (remove new_c_array arr pos num_els ≡ returned arr')
            × Removed arr pos num_els arr')
    remove-Removed_all = elim (le-cases (arr.e_cap / 2) shrunk) [
      | inl le ↦
          let (arr', run, r) =
            closed none arr.e_buf arr.e_cap refl refl v.buffer (omega (arith, v.fits)) in
          inr (arr', keep_step le ∙ run, r)
      | inr lt ↦ elim (Option-cases (new_c_array shrunk)) [
        | inl e ↦ inl (e, throw_step lt e)
        | inr (new_buf, e) ↦
            let copy =
              copy_from_lem pos 0 arr.e_buf new_buf (omega (arith, inside, v.buffer, v.fits))
                (omega (arith, inside, gives shrunk new_buf e)) in
            let b = take pos arr.e_buf ++ drop (0 + pos) new_buf in
            let et : length (take pos arr.e_buf) ≡ pos =
              omega (arith, length-take pos arr.e_buf, inside, v.buffer, v.fits) in
            let (arr', run, r) =
              closed (some arr.e_buf) b shrunk refl
                (take-append_exact (take pos arr.e_buf) (drop (0 + pos) new_buf) pos (sym et))
                (length-append (take pos arr.e_buf) (drop (0 + pos) new_buf)
                  ∙ omega
                      (arith, et, length-drop (0 + pos) new_buf, gives shrunk new_buf e, inside))
                (omega arith) in
            inr (arr', shrink_step new_buf b lt e copy ∙ run, r)
      ]
    ]
