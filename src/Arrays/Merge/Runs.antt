-- ===== src/Arrays/Merge/Runs.antt =====
-- The merge of two lists that `nlognsortMerge` is to make, and the slices of its buffers.
use c_cpp_sandbox.Common.{
  ℕ, zero, suc, ◌+◌, ◌-◌, ◌≤◌, ◌<◌, Bool, true, false, none, some, List, [], ◌∷◌, ◌++◌, get_elem?,
  ◌≡◌, refl, sym, ap, ◌∙◌, inl, inr, arith, take, drop, length, set_elem, element_at, take-set_elem,
  drop-take, drop-append_le, length-take, Bool-cases, slice_suc, le-cases,
}
use c_cpp_sandbox.Arrays.{ArraySort, goes_first}
use c_cpp_sandbox.Arrays.Merge.{b_wins}

module _ {ℓ} {A : Type ℓ} where
  -- the elements from `pop` up to `push`
  abbrev pub queue : List A → ℕ → ℕ → List A
  queue space pop push = take (push - pop) (drop pop space)

  -- `size - j` elements from `b + j` on
  abbrev pub left_of : List A → ℕ → ℕ → ℕ → List A
  left_of buf b size j = take (size - j) (drop (b + j) buf)

  pub left_of-suc :
      (buf : List A) (b size j : ℕ)
      → j < size
      → b + size ≤ length buf
      → (y : A) × (get_elem? buf (b + j) ≡ some y)
        × (left_of buf b size j ≡ y ∷ left_of buf b size (suc j))
  left_of-suc buf b size j h fits =
      let (y, got, e) = element_at buf (b + j) (omega arith) in
      (
        y,
        got,
        ap (λ n. take n (drop (b + j) buf)) {y = suc (size - suc j)} (omega arith)
            ∙ slice_suc buf (b + j) (size - suc j) y e
            ∙ ap (λ n. y ∷ take (size - suc j) (drop n buf)) {x = suc (b + j)} (omega arith),
      )

  pub left_of-all : (buf : List A) (b size j : ℕ) → size ≤ j → left_of buf b size j ≡ []
  left_of-all buf b size j h = ap (λ n. take n (drop (b + j) buf)) {y = zero} (omega arith)

  pub queue_first :
      (space : List A) (pop push : ℕ)
      → pop < push
      → push ≤ length space
      → (x : A) × (get_elem? space pop ≡ some x)
        × (queue space pop push ≡ x ∷ queue space (suc pop) push)
  queue_first space pop push h fits =
      let (x, got, e) = element_at space pop (omega arith) in
      (
        x,
        got,
        ap (λ n. take n (drop pop space)) {y = suc (push - suc pop)} (omega arith)
            ∙ slice_suc space pop (push - suc pop) x e,
      )

  pub queue_none : (space : List A) (pop push : ℕ) → push ≤ pop → queue space pop push ≡ []
  queue_none space pop push h = ap (λ n. take n (drop pop space)) {y = zero} (omega arith)

  pub queue_push :
      (space : List A) (pop push : ℕ) (x : A)
      → pop ≤ push
      → push < length space
      → queue (set_elem space push x) pop (suc push) ≡ queue space pop push ++ (x ∷ [])
  queue_push space pop push x h fits =
      sym (drop-take pop (suc push) (set_elem space push x) (omega arith))
      ∙ ap (drop pop) (take-set_elem space push x fits)
      ∙ drop-append_le (take push space) (x ∷ []) pop (omega (arith, length-take push space))
      ∙ ap (λ l. l ++ (x ∷ [])) (drop-take pop push space h)

module _ {ℓ} {A : Type ℓ} (equal greater : A → A → Bool) (order : ArraySort) where
  -- The reference: the first of the right run goes before the first of the left one only when the
  -- comparison says so.
  unfoldable pub merged : List A → List A → List A
  merged [] r = r
  merged (x ∷ l) [] = x ∷ l
  merged (x ∷ l) (y ∷ r) = elim (goes_first equal greater order x y) [
    | true ↦ y ∷ merged (x ∷ l) r
    | false ↦ x ∷ merged l (y ∷ r)
  ]

  -- The first of the right run goes before `x`.
  abbrev pub first_wins : A → List A → Bool
  first_wins x [] = false
  first_wins x (y ∷ r) = goes_first equal greater order x y

  pub merged_right :
      (x y : A) (l r : List A)
      → goes_first equal greater order x y ≡ true
      → merged (x ∷ l) (y ∷ r) ≡ y ∷ merged (x ∷ l) r
  unfolding merged
  merged_right x y l r h = ground (arith, h)

  pub merged_nil : (l : List A) → merged l [] ≡ l
  unfolding merged
  merged_nil [] = refl
  merged_nil (x ∷ l) = refl

  pub merged_left :
      (x : A) (l r : List A) → first_wins x r ≡ false → merged (x ∷ l) r ≡ x ∷ merged l r
  unfolding merged
  merged_left x l [] h = ap (λ r. x ∷ r) (sym (merged_nil l))
  merged_left x l (y ∷ r) h = ground (arith, h)

  -- What `b_wins` answers when it reads inside the buffer.
  pub data Answer (buf : List A) (b size_b j : ℕ) (x : A) : Type ℓ where
    right_goes :
        (y : A)
        → j < size_b
        → b_wins equal greater order buf b size_b j x ≡ some (some y)
        → left_of buf b size_b j ≡ y ∷ left_of buf b size_b (suc j)
        → goes_first equal greater order x y ≡ true
        → Answer buf b size_b j x
    left_goes :
        b_wins equal greater order buf b size_b j x ≡ some none
        → first_wins x (left_of buf b size_b j) ≡ false
        → Answer buf b size_b j x

  pub b_wins-Answer :
      (buf : List A) (b size_b j : ℕ) (x : A) → b + size_b ≤ length buf → Answer buf b size_b j x
  unfolding b_wins
  b_wins-Answer buf b size_b j x fits = elim (le-cases size_b j) [
    | inl h ↦ left_goes (ground arith) (ap (first_wins x) (left_of-all buf b size_b j h))
    | inr h ↦
        let (y, got, e) = left_of-suc buf b size_b j h fits in
        elim (Bool-cases (goes_first equal greater order x y)) [
          | inl t ↦ right_goes y h (ground (arith, got, t)) e t
          | inr f ↦ left_goes (ground (arith, got, f)) (ap (first_wins x) e ∙ f)
        ]
  ]
