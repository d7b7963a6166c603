-- ===== src/Arrays/Order.antt =====
-- The order in which `nlognsortCompare` of lib/datastructures/array.h sorts, and sorted lists.
use mathlib.Core.List.{Perm, perm_middle}
use mathlib.Core.List.Perm
use c_cpp_sandbox.Common.{
  ◌+◌, Bool, true, false, List, [], ◌∷◌, ◌++◌, ◌≡◌, refl, sym, ap, ◌∙◌, inl, inr, arith, length,
  All, All-map, Bool-cases, append-nil, ◌↔◌, subst,
}
use c_cpp_sandbox.Arrays.{
  ArraySort, array_sort_unsorted, array_sort_ascending, array_sort_descending, nlognsort_compare,
  goes_first,
}
use c_cpp_sandbox.Arrays.Merge.Runs.{merged, merged_right, merged_left}

module _ {ℓ} {A : Type ℓ} (equal greater : A → A → Bool) where
  -- What the element type's `==` and `>` are to be: equality and a strict total order.
  pub record IsOrder : Type ℓ where
    pub same : (x y : A) → (equal x y ≡ true) ↔ (x ≡ y)
    pub asym : (x y : A) → greater x y ≡ true → greater y x ≡ false
    pub total : (x y : A) → equal x y ≡ false → greater x y ≡ false → greater y x ≡ true
    pub trans : (x y z : A) → greater x y ≡ true → greater y z ≡ true → greater x z ≡ true

  -- `x` may stand before `y`, by `>` alone: it is not the greater one in ascending order, and `y` is
  -- not in descending order. Arrays that are asked to be unsorted are not sorted; the merge takes
  -- this value like ascending order.
  abbrev pub InOrder : ArraySort → A → A → Type 0
  InOrder array_sort_unsorted x y = greater x y ≡ false
  InOrder array_sort_ascending x y = greater x y ≡ false
  InOrder array_sort_descending x y = greater y x ≡ false

  module _ (o : IsOrder) where
    open o use {same, asym, total, trans}

    greater_irrefl : (x : A) → greater x x ≡ false
    greater_irrefl x = elim (Bool-cases (greater x x)) [ inl e ↦ asym x x e | inr e ↦ e ]

    -- `nlognsortCompare` lets `y` go first when `x` is the greater one, or the smaller one.
    goes_first-ascending :
        (x y : A) → goes_first equal greater array_sort_ascending x y ≡ greater x y
    unfolding goes_first nlognsort_compare
    goes_first-ascending x y = elim (Bool-cases (equal x y)) [
      | inl e ↦ rw e (sym (ap (λ z. greater x z) (sym ((same x y).0 e)) ∙ greater_irrefl x))
      | inr e ↦ elim (Bool-cases (greater x y)) [ inl g ↦ rw (e, g) refl | inr g ↦ rw (e, g) refl ]
    ]

    goes_first-unsorted : (x y : A) → goes_first equal greater array_sort_unsorted x y ≡ greater x y
    unfolding goes_first nlognsort_compare
    goes_first-unsorted x y = elim (Bool-cases (equal x y)) [
      | inl e ↦ rw e (sym (ap (λ z. greater x z) (sym ((same x y).0 e)) ∙ greater_irrefl x))
      | inr e ↦ elim (Bool-cases (greater x y)) [ inl g ↦ rw (e, g) refl | inr g ↦ rw (e, g) refl ]
    ]

    goes_first-descending :
        (x y : A) → goes_first equal greater array_sort_descending x y ≡ greater y x
    unfolding goes_first nlognsort_compare
    goes_first-descending x y = elim (Bool-cases (equal x y)) [
      | inl e ↦ rw e (sym (ap (λ z. greater z x) (sym ((same x y).0 e)) ∙ greater_irrefl x))
      | inr e ↦ elim (Bool-cases (greater x y)) [
        | inl g ↦ rw (e, g) (sym (asym x y g))
        | inr g ↦ rw (e, g) (sym (total x y e g))
      ]
    ]

    goes_first_no-InOrder :
        (order : ArraySort) (x y : A)
        → goes_first equal greater order x y ≡ false
        → InOrder order x y
    goes_first_no-InOrder array_sort_unsorted x y h = sym (goes_first-unsorted x y) ∙ h
    goes_first_no-InOrder array_sort_ascending x y h = sym (goes_first-ascending x y) ∙ h
    goes_first_no-InOrder array_sort_descending x y h = sym (goes_first-descending x y) ∙ h

    goes_first-InOrder :
        (order : ArraySort) (x y : A)
        → goes_first equal greater order x y ≡ true
        → InOrder order y x
    goes_first-InOrder array_sort_unsorted x y h = asym x y (sym (goes_first-unsorted x y) ∙ h)
    goes_first-InOrder array_sort_ascending x y h = asym x y (sym (goes_first-ascending x y) ∙ h)
    goes_first-InOrder array_sort_descending x y h = asym y x (sym (goes_first-descending x y) ∙ h)

    not_greater_trans :
        (x y z : A) → greater x y ≡ false → greater y z ≡ false → greater x z ≡ false
    not_greater_trans x y z h1 h2 = elim (Bool-cases (greater x z)) [
      | inr e ↦ e
      | inl e ↦ elim (Bool-cases (equal x y)) [
        | inl s ↦ ap (λ w. greater w z) ((same x y).0 s) ∙ h2
        | inr n ↦ absurd (cc (trans y x z (total x y n h1) e, h2))
      ]
    ]

    InOrder-trans :
        (order : ArraySort) (x y z : A) → InOrder order x y → InOrder order y z → InOrder order x z
    InOrder-trans array_sort_unsorted x y z h1 h2 = not_greater_trans x y z h1 h2
    InOrder-trans array_sort_ascending x y z h1 h2 = not_greater_trans x y z h1 h2
    InOrder-trans array_sort_descending x y z h1 h2 = not_greater_trans z y x h2 h1

  module _ (order : ArraySort) where
    abbrev pub IsSorted : List A → Type ℓ
    IsSorted [] = Unit
    IsSorted (x ∷ l) = All (InOrder order x) l × IsSorted l

    module _ (o : IsOrder) where
      All-trans :
          (x y : A) (l : List A)
          → InOrder order x y
          → All (InOrder order y) l
          → All (InOrder order x) l
      All-trans x y l h = All-map (λ z. InOrder-trans o order x y z h) l

      All-merged :
          (P : A → Type 0) (l r : List A)
          → All P l
          → All P r
          → All P (merged equal greater order l r)
      unfolding merged
      All-merged P [] r hl hr = hr
      All-merged P (x ∷ l) [] hl hr = hl
      All-merged P (x ∷ l) (y ∷ r) (p, hl) (q, hr) =
          elim (Bool-cases (goes_first equal greater order x y)) [
            | inl e ↦
                subst (All P) (sym (merged_right equal greater order x y l r e))
                  (q, All-merged P (x ∷ l) r (p, hl) hr)
            | inr e ↦
                subst (All P) (sym (merged_left equal greater order x l (y ∷ r) e))
                  (p, All-merged P l (y ∷ r) hl (q, hr))
          ]

      pub merged-IsSorted :
          (l r : List A) → IsSorted l → IsSorted r → IsSorted (merged equal greater order l r)
      unfolding merged
      merged-IsSorted [] r hl hr = hr
      merged-IsSorted (x ∷ l) [] hl hr = hl
      merged-IsSorted (x ∷ l) (y ∷ r) (p, hl) (q, hr) =
          elim (Bool-cases (goes_first equal greater order x y)) [
            | inl e ↦
                let le = goes_first-InOrder o order x y e in
                subst IsSorted (sym (merged_right equal greater order x y l r e)) (
                  All-merged (InOrder order y) (x ∷ l) r (le, All-trans y x l le p) q,
                  merged-IsSorted (x ∷ l) r (p, hl) hr,
                )
            | inr e ↦ subst IsSorted (sym (merged_left equal greater order x l (y ∷ r) e)) (
              All-merged (InOrder order x) l (y ∷ r) p (
                goes_first_no-InOrder o order x y e,
                All-trans x y r (goes_first_no-InOrder o order x y e) q,
              ),
              merged-IsSorted l (y ∷ r) hl (q, hr),
            )
          ]

  pub merged-perm :
      (order : ArraySort) (l r : List A) → Perm (merged equal greater order l r) (l ++ r)
  unfolding merged
  merged-perm order [] r = Perm.rfl
  merged-perm order (x ∷ l) [] = subst (Perm (x ∷ l)) (sym (append-nil (x ∷ l))) Perm.rfl
  merged-perm order (x ∷ l) (y ∷ r) = elim (Bool-cases (goes_first equal greater order x y)) [
    | inl e ↦
        subst (λ m. Perm m (x ∷ l ++ (y ∷ r))) (sym (merged_right equal greater order x y l r e))
          (Perm.trans (Perm.cons y (merged-perm order (x ∷ l) r))
            (Perm.symm (perm_middle (x ∷ l) r)))
    | inr e ↦
        subst (λ m. Perm m (x ∷ l ++ (y ∷ r))) (sym (merged_left equal greater order x l (y ∷ r) e))
          (Perm.cons x (merged-perm order l (y ∷ r)))
  ]

  pub length-merged :
      (order : ArraySort) (l r : List A)
      → length (merged equal greater order l r) ≡ length l + length r
  unfolding merged
  length-merged order [] r = omega arith
  length-merged order (x ∷ l) [] = omega arith
  length-merged order (x ∷ l) (y ∷ r) = elim (Bool-cases (goes_first equal greater order x y)) [
    | inl e ↦
        ap length (merged_right equal greater order x y l r e)
        ∙ omega (arith, length-merged order (x ∷ l) r)
    | inr e ↦
        ap length (merged_left equal greater order x l (y ∷ r) e)
        ∙ omega (arith, length-merged order l (y ∷ r))
  ]
