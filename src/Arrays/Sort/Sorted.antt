-- ===== src/Arrays/Sort/Sorted.antt =====
-- What `Array::sort` of lib/datastructures/array.h makes of an array, its own swap space included.
use native.Mathlib.Nat.{pow-suc, mul_assoc}
use mathlib.Core.List.Perm
use c_cpp_sandbox.Common.{
  ℕ, zero, suc, ◌*◌, ◌/◌, ◌^◌, ◌≤◌, ◌<◌, Bool, true, Option, some, List, [], ◌∷◌, ◌≡◌, refl, ap,
  ◌∙◌, ◌⊎◌, inl, inr, arith, take, length, le-cases, length-take, le→leb, leb_no,
}
use c_cpp_sandbox.Arrays.{Array, ArraySort, array_sort_unsorted, returned}
use c_cpp_sandbox.Arrays.Order.{IsOrder, IsSorted}
use c_cpp_sandbox.Arrays.Sort.{sort_spans, nlogn_sort, sort, differs}
use c_cpp_sandbox.Arrays.Sort.Spans.{FrontSorted, spans_run}

-- `s`, doubled `k` times
abbrev doubled : ℕ → ℕ → ℕ
doubled s zero = s
doubled s (suc k) = doubled (s * 2) k

doubled_ge : (s k : ℕ) → s ≤ doubled s k
doubled_ge s zero = omega arith
doubled_ge s (suc k) = omega (arith, doubled_ge (s * 2) k)

two_pow : (k : ℕ) → 2 * 2 ^ k ≡ 2 ^ suc k
two_pow k = omega (arith, pow-suc 2 k)

doubled_pow : (s k : ℕ) → doubled s k ≡ s * 2 ^ k
doubled_pow s zero = omega arith
doubled_pow s (suc k) = doubled_pow (s * 2) k ∙ mul_assoc s 2 (2 ^ k) ∙ ap (λ n. s * n) (two_pow k)

-- A span is a power of two that divides the size, or at least as large.
abbrev Divides : ℕ → ℕ → Type 0
Divides size span = (size ≤ span) ⊎ ((k : ℕ) × (size ≡ doubled span k))

Divides-room : (size span : ℕ) → Divides size span → span < size → span ≤ size / 2
Divides-room size span (inl h) lt = absurd (omega arith)
Divides-room size span (inr (zero, e)) lt = absurd (omega arith)
Divides-room size span (inr (suc k, e)) lt = omega (arith, doubled_ge (span * 2) k)

Divides-double : (size span : ℕ) → Divides size span → Divides size (span * 2)
Divides-double size span (inl h) = inl (omega arith)
Divides-double size span (inr (zero, e)) = inl (omega arith)
Divides-double size span (inr (suc k, e)) = inr (k, e)

module _ {ℓ} {A : Type ℓ} (equal greater : A → A → Bool) where
  short-IsSorted : (order : ArraySort) (l : List A) → length l ≤ 1 → IsSorted equal greater order l
  short-IsSorted order [] h = tt
  short-IsSorted order (x ∷ []) h = (tt, tt)
  short-IsSorted order (x ∷ y ∷ l) h = absurd (omega arith)

  short_case :
      (new_c_array : ℕ → Option (List A)) (order : ArraySort) (buf : List A) (size : ℕ)
      → size ≤ 1
      → nlogn_sort equal greater order new_c_array buf size ≡ returned buf
  unfolding nlogn_sort
  short_case new_c_array order buf size h = rw (nlogn_sort, le→leb size 1 h) refl

  long_case :
      (new_c_array : ℕ → Option (List A)) (order : ArraySort) (buf buf' space : List A) (size : ℕ)
      → 1 < size
      → new_c_array (size / 2) ≡ some space
      → sort_spans equal greater order (suc size) 1 size buf space ≡ some buf'
      → nlogn_sort equal greater order new_c_array buf size ≡ returned buf'
  unfolding nlogn_sort
  long_case new_c_array order buf buf' space size h e run =
      rw (nlogn_sort, leb_no size 1 h, e, run) refl

module _ {ℓ} {A : Type ℓ} (equal greater : A → A → Bool) (o : IsOrder equal greater)
    (new_c_array : ℕ → Option (List A)) where
  -- The swap space of `nlognSort` is large enough when the size is a power of two.
  nlogn_sort-FrontSorted :
      (order : ArraySort) (buf : List A) (size k : ℕ) (space : List A)
      → size ≡ 2 ^ k
      → size ≤ length buf
      → new_c_array (size / 2) ≡ some space
      → length space ≡ size / 2
      → (buf' : List A) × (nlogn_sort equal greater order new_c_array buf size ≡ returned buf')
        × FrontSorted equal greater order size buf buf'
  nlogn_sort-FrontSorted order buf size k space power inside e el = elim (le-cases size 1) [
    | inl le ↦ (
      buf,
      short_case equal greater new_c_array order buf size le,
      record {
        same_length = refl;
        sorted =
            short-IsSorted equal greater order (take size buf)
              (omega (arith, length-take size buf));
        perm = Perm.rfl;
        behind = refl;
      },
    )
    | inr lt ↦
        let (buf', run, s) =
          spans_run equal greater order o size buf space inside (Divides size)
            (λ span d less. omega (arith, Divides-room size span d less, el)) (Divides-double size)
            (inr (k, power ∙ omega (arith, doubled_pow 1 k))) in
        (buf', long_case equal greater new_c_array order buf buf' space size lt e run, s)
  ]

  -- For a strict total order whose `==` is equality, an array whose size is a power of two and at
  -- most its buffer's length, an order to sort in other than the one the array is marked with, and
  -- a swap space of half the size, as `nlognSort` allocates it: `Array::sort` returns, the elements
  -- are rearranged into the order asked for, the array is marked with it, and its size, capacity
  -- and the slots behind its elements are what they were.
  pub sort-FrontSorted :
      (arr : Array A) (order : ArraySort) (k : ℕ) (space : List A)
      → arr.e_size ≡ 2 ^ k
      → arr.e_size ≤ length arr.e_buf
      → differs order array_sort_unsorted ≡ true
      → differs arr.e_sorted order ≡ true
      → new_c_array (arr.e_size / 2) ≡ some space
      → length space ≡ arr.e_size / 2
      → (buf' : List A) × (sort equal greater new_c_array arr order
          ≡ returned (record arr { e_buf = buf'; e_sorted = order }))
        × FrontSorted equal greater order arr.e_size arr.e_buf buf'
  unfolding sort
  sort-FrontSorted arr order k space power inside asked other e el =
      let (buf', run, s) =
        nlogn_sort-FrontSorted order arr.e_buf arr.e_size k space power inside e el in
      (buf', rw (sort, asked, other, run) refl, s)
