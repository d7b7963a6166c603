-- ===== src/Arrays/Edit/Valid.antt =====
-- Well-formed arrays of lib/datastructures/array.h, and the elements that one has.
use c_cpp_sandbox.Common.{ℕ, ◌≤◌, ◌≡◌, Option, some, List, take, length}
use c_cpp_sandbox.Arrays.{Array}

module _ {ℓ} {A : Type ℓ} where
  -- The buffer has the slots that the capacity says, and the elements are within it.
  pub record IsValid (arr : Array A) : Type ℓ where
    pub buffer : length arr.e_buf ≡ arr.e_cap
    pub fits : arr.e_size ≤ arr.e_cap

  abbrev pub elements : Array A → List A
  elements arr = take arr.e_size arr.e_buf

  -- `new T[n]` gives `n` slots, when it gives any.
  abbrev pub GivesSlots : (ℕ → Option (List A)) → Type ℓ
  GivesSlots new_c_array = (n : ℕ) (b : List A) → new_c_array n ≡ some b → length b ≡ n
