-- ===== src/Common/Writes.antt =====
-- Reads and writes at an index of a list, and what a write leaves of the pieces around it.
use Prim.Native.Nat.{ℕ, zero, suc, ◌≤◌, ◌<◌}
use mathlib.Core.Path.{◌≡◌, refl, ap, ap₂, ◌∙◌}
use mathlib.Core.List.{List, [], ◌∷◌, ◌++◌, append_assoc}
use mathlib.Core.Option.{Option, none, some}
use native.Mathlib.Omega.{arith}
use c_cpp_sandbox.Common.Lists.{length, get_elem?, take, drop}
use c_cpp_sandbox.Common.Tests.{ltb, if◌then◌else◌}

module _ {ℓ} {A : Type ℓ} where
  abbrev pub set_elem : List A → ℕ → A → List A
  set_elem [] n v = []
  set_elem (x ∷ xs) zero v = v ∷ xs
  set_elem (x ∷ xs) (suc n) v = x ∷ set_elem xs n v

  -- A write within the bounds; `none` stands for one outside, which is undefined.
  unfoldable pub put : List A → ℕ → A → Option (List A)
  put xs n v = if ltb n (length xs) then some (set_elem xs n v) else none

  pub put_ok : (xs : List A) (n : ℕ) (v : A) → n < length xs → put xs n v ≡ some (set_elem xs n v)
  unfolding put
  put_ok xs n v h = ground arith

  pub length-set_elem : (xs : List A) (n : ℕ) (v : A) → length (set_elem xs n v) ≡ length xs
  length-set_elem [] n v = refl
  length-set_elem (x ∷ xs) zero v = refl
  length-set_elem (x ∷ xs) (suc n) v = ap suc (length-set_elem xs n v)

  pub take-set_elem :
      (xs : List A) (n : ℕ) (v : A)
      → n < length xs
      → take (suc n) (set_elem xs n v) ≡ take n xs ++ (v ∷ [])
  take-set_elem [] n v h = absurd (omega arith)
  take-set_elem (x ∷ xs) zero v h = refl
  take-set_elem (x ∷ xs) (suc n) v h = ap (λ l. x ∷ l) (take-set_elem xs n v (omega arith))

  pub take-set_elem_before :
      (xs : List A) (m n : ℕ) (v : A) → m ≤ n → take m (set_elem xs n v) ≡ take m xs
  take-set_elem_before xs zero n v h = refl
  take-set_elem_before [] (suc m) n v h = refl
  take-set_elem_before (x ∷ xs) (suc m) zero v h = absurd (omega arith)
  take-set_elem_before (x ∷ xs) (suc m) (suc n) v h =
      ap (λ l. x ∷ l) (take-set_elem_before xs m n v (omega arith))

  pub drop-set_elem : (xs : List A) (m n : ℕ) (v : A) → n < m → drop m (set_elem xs n v) ≡ drop m xs
  drop-set_elem xs zero n v h = absurd (omega arith)
  drop-set_elem [] (suc m) n v h = refl
  drop-set_elem (x ∷ xs) (suc m) zero v h = refl
  drop-set_elem (x ∷ xs) (suc m) (suc n) v h = drop-set_elem xs m n v (omega arith)

  -- An index in bounds has an element, which begins what lies from it on.
  pub element_at :
      (xs : List A) (n : ℕ)
      → n < length xs
      → (x : A) × (get_elem? xs n ≡ some x) × (drop n xs ≡ x ∷ drop (suc n) xs)
  element_at [] n h = absurd (omega arith)
  element_at (x ∷ xs) zero h = (x, refl, refl)
  element_at (x ∷ xs) (suc n) h = element_at xs n (omega arith)

  pub get_elem?-drop :
      (xs : List A) (n : ℕ) (y : A) (l : List A) → drop n xs ≡ y ∷ l → get_elem? xs n ≡ some y
  get_elem?-drop [] zero y l e = cc
  get_elem?-drop [] (suc n) y l e = cc
  get_elem?-drop (x ∷ xs) zero y l e = cc
  get_elem?-drop (x ∷ xs) (suc n) y l e = get_elem?-drop xs n y l e

  -- The slice `[n, n + k)` with one element split off in front.
  pub slice_suc :
      (xs : List A) (n k : ℕ) (x : A)
      → drop n xs ≡ x ∷ drop (suc n) xs
      → take (suc k) (drop n xs) ≡ x ∷ take k (drop (suc n) xs)
  slice_suc xs n k x e = ap (take (suc k)) e

  pub take-suc :
      (xs : List A) (n : ℕ) (x : A)
      → get_elem? xs n ≡ some x
      → take (suc n) xs ≡ take n xs ++ (x ∷ [])
  take-suc [] n x e = cc
  take-suc (y ∷ xs) zero x e = ground (arith, e)
  take-suc (y ∷ xs) (suc n) x e = ap (λ l. y ∷ l) (take-suc xs n x e)

  -- What is written at the end of `take i` comes to stand in front of what follows.
  pub written :
      (buf : List A) (i n : ℕ) (x : A) (rest : List A)
      → i < length buf
      → i < n
      → take (suc i) (set_elem buf i x) ++ rest ++ drop n (set_elem buf i x)
        ≡ take i buf ++ (x ∷ rest) ++ drop n buf
  written buf i n x rest h lt =
      ap₂ (λ t d. t ++ rest ++ d) (take-set_elem buf i x h) (drop-set_elem buf n i x lt)
      ∙ ap (λ l. l ++ drop n buf) (append_assoc (take i buf) (x ∷ []) rest)

  pub get_elem?-take : (xs : List A) (n i : ℕ) → i < n → get_elem? (take n xs) i ≡ get_elem? xs i
  get_elem?-take xs zero i h = absurd (omega arith)
  get_elem?-take [] (suc n) i h = refl
  get_elem?-take (x ∷ xs) (suc n) zero h = refl
  get_elem?-take (x ∷ xs) (suc n) (suc i) h = get_elem?-take xs n i (omega arith)
