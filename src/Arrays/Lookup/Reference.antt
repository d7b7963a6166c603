-- ===== src/Arrays/Lookup/Reference.antt =====
-- The loops of `arrayFind` and `operator==` in lib/datastructures/array.h against recursions on the
-- elements.
use c_cpp_sandbox.Common.{
  ℕ, zero, suc, ◌+◌, ◌≤◌, ◌<◌, Bool, true, false, some, List, [], ◌∷◌, ◌&&◌, if◌then◌else◌, ◌≡◌,
  refl, sym, ap, ◌∙◌, inl, inr, arith, take, drop, length, get_elem?, element_at, slice_suc, lt→ltb,
  Bool-cases, length-take, ℤ, pos, negsuc, ◌≢◌, ==_iff, ==_no, nat_cases,
}
use c_cpp_sandbox.Arrays.{Array}
use c_cpp_sandbox.Arrays.Edit.Valid.{IsValid, elements}
use c_cpp_sandbox.Arrays.Lookup.{at, array_find, find, equal_from, equals}

module _ {ℓ} {A : Type ℓ} (equal : A → A → Bool) where
  -- the first element equal to `el`, counted from `i`, or -1
  unfoldable pub index_from : ℕ → List A → A → ℤ
  index_from i [] el = negsuc 0
  index_from i (x ∷ l) el = if equal x el then pos i else index_from (suc i) l el

  -- the same number of elements, pairwise equal
  unfoldable pub same_elements : List A → List A → Bool
  same_elements [] [] = true
  same_elements (x ∷ l) (y ∷ r) = equal x y && same_elements l r
  same_elements l r = false

  array_find-index_from :
      (rounds i : ℕ) (buf : List A) (el : A)
      → i + rounds ≤ length buf
      → array_find equal rounds i buf el ≡ some (index_from i (take rounds (drop i buf)) el)
  unfolding array_find index_from
  array_find-index_from zero i buf el h = refl
  array_find-index_from (suc rounds) i buf el h =
      let (x, got, e) = element_at buf i (omega arith) in
      let ih = array_find-index_from rounds (suc i) buf el (omega arith) in
      elim (Bool-cases (equal x el)) [
        | inl t ↦ rw (array_find, got, t, slice_suc buf i rounds x e) (rw (index_from, t) refl)
        | inr f ↦ rw (array_find, got, f, slice_suc buf i rounds x e) (rw (index_from, f) ih)
      ]

  -- For a well-formed array: `find` reads nothing outside the buffer, and answers with the index of
  -- the first element that is equal to the one looked for, or with -1 when no element is.
  pub find-index_from :
      (arr : Array A) (el : A)
      → IsValid arr
      → find equal arr el ≡ some (index_from 0 (elements arr) el)
  unfolding find
  find-index_from arr el v =
      array_find-index_from arr.e_size 0 arr.e_buf el (omega (arith, v.buffer, v.fits))

  at-some :
      (arr : Array A) (i : ℕ) (x : A)
      → i < arr.e_size
      → get_elem? arr.e_buf i ≡ some x
      → at arr i ≡ some (some x)
  unfolding at
  at-some arr i x h e = rw (at, lt→ltb i arr.e_size h, e) refl

  equal_from-same_elements :
      (rounds i : ℕ) (arr other : Array A)
      → i + rounds ≡ arr.e_size
      → arr.e_size ≡ other.e_size
      → IsValid arr
      → IsValid other
      → equal_from equal rounds i arr other
        ≡ some (same_elements (take rounds (drop i arr.e_buf)) (take rounds (drop i other.e_buf)))
  unfolding equal_from same_elements
  equal_from-same_elements zero i arr other e s v w = refl
  equal_from-same_elements (suc rounds) i arr other e s v w =
      let (x, got, ex) = element_at arr.e_buf i (omega (arith, v.buffer, v.fits)) in
      let (y, got2, ey) = element_at other.e_buf i (omega (arith, w.buffer, w.fits)) in
      let a1 = at-some arr i x (omega arith) got in
      let a2 = at-some other i y (omega arith) got2 in
      let ih = equal_from-same_elements rounds (suc i) arr other (omega arith) s v w in
      elim (Bool-cases (equal x y)) [
        | inl t ↦
            rw
              (
                equal_from,
                a1,
                a2,
                t,
                slice_suc arr.e_buf i rounds x ex,
                slice_suc other.e_buf i rounds y ey,
              )
              (rw (same_elements, t) ih)
        | inr f ↦
            rw
              (
                equal_from,
                a1,
                a2,
                f,
                slice_suc arr.e_buf i rounds x ex,
                slice_suc other.e_buf i rounds y ey,
              )
              (rw (same_elements, f) refl)
      ]

  same_elements-lengths : (l r : List A) → length l ≢ length r → same_elements l r ≡ false
  unfolding same_elements
  same_elements-lengths [] [] h = absurd (h refl)
  same_elements-lengths [] (y ∷ r) h = refl
  same_elements-lengths (x ∷ l) [] h = refl
  same_elements-lengths (x ∷ l) (y ∷ r) h =
      let ih = same_elements-lengths l r (λ e. h (ap suc e)) in
      elim (Bool-cases (equal x y)) [
        | inl t ↦ rw (same_elements, t, ih) refl
        | inr f ↦ rw (same_elements, f) refl
      ]

  -- For two well-formed arrays: `operator==` reads nothing outside the buffers, throws nothing, and
  -- answers whether they have the same number of elements, pairwise equal.
  pub equals-same_elements :
      (arr other : Array A)
      → IsValid arr
      → IsValid other
      → equals equal arr other ≡ some (same_elements (elements arr) (elements other))
  unfolding equals
  equals-same_elements arr other v w = elim (nat_cases arr.e_size other.e_size) [
    | inl e ↦
        rw (equals, (==_iff arr.e_size other.e_size).1 e)
          (equal_from-same_elements arr.e_size 0 arr other (omega arith) e v w
            ∙ ap (λ n. some (same_elements (elements arr) (take n other.e_buf))) e)
    | inr ne ↦
        rw (equals, ==_no arr.e_size other.e_size ne)
          (ap some (
            sym (
              same_elements-lengths (elements arr) (elements other) λ e. ne (
                omega (
                  arith,
                  e,
                  length-take arr.e_size arr.e_buf,
                  length-take other.e_size other.e_buf,
                  v.buffer,
                  v.fits,
                  w.buffer,
                  w.fits,
                )))))
  ]
