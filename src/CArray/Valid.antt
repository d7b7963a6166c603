-- ===== src/CArray/Valid.antt =====
-- The well-formed arrays of lib/c/array.c, and the bytes of their elements.
use c_cpp_sandbox.Common.{
  ℕ, zero, suc, ◌+◌, ◌-◌, ◌*◌, ◌^◌, ◌≤◌, ◌<◌, ◌≡◌, ap, Option, some, List, arith, length, take,
  length-take,
}
use c_cpp_sandbox.CArray.{Array, array_initialize}

-- The buffer has room for `cap` elements, and the numbers of bytes fit in a `size_t`.
pub record IsValid (arr : Array) : Type 0 where
  pub buffer : length arr.buf ≡ arr.cap * arr.size_of_el
  pub room : arr.size ≤ arr.cap
  pub narrow : arr.cap * arr.size_of_el < 2 ^ 64

-- The bytes of the elements that the array says it has.
abbrev pub elements : Array → List ℕ
elements arr = take (arr.size * arr.size_of_el) arr.buf

-- What is relied on of `malloc`: a buffer has the length that was asked for.
abbrev pub GivesLength : (ℕ → Option (List ℕ)) → Type 0
GivesLength malloc = (n : ℕ) (b : List ℕ) → malloc n ≡ some b → length b ≡ n

pub mul_mono : (a b c : ℕ) → a ≤ b → a * c ≤ b * c
mul_mono a b c h = grind arith

pub mul_add : (a b c : ℕ) → (a + b) * c ≡ a * c + b * c
mul_add a b c = grind arith

sub_rejoin : (a b : ℕ) → b ≤ a → a - b + b ≡ a
sub_rejoin a b h = omega arith

pub mul_sub : (a b c : ℕ) → b ≤ a → (a - b) * c ≡ a * c - b * c
mul_sub a b c h = omega (arith, mul_add (a - b) b c, ap (λ x. x * c) (sub_rejoin a b h))

pub length-elements :
    {arr : Array} → IsValid arr → length (elements arr) ≡ arr.size * arr.size_of_el
length-elements {arr} v = omega (
  arith,
  length-take (arr.size * arr.size_of_el) arr.buf,
  mul_mono arr.size arr.cap arr.size_of_el v.room,
  v.buffer,
)

-- An array over a buffer of the right length is well formed and has no elements.
pub array_initialize-IsValid :
    (buf : List ℕ) (initial_cap size_of_el : ℕ)
    → length buf ≡ initial_cap * size_of_el
    → initial_cap * size_of_el < 2 ^ 64
    → IsValid (array_initialize buf initial_cap size_of_el)
unfolding array_initialize
array_initialize-IsValid buf initial_cap size_of_el e h = record {
  buffer = e;
  room = omega arith;
  narrow = h;
}

pub le-mul : (a c : ℕ) → 0 < c → a ≤ a * c
le-mul zero c h = omega arith
le-mul (suc a) c h = omega (arith, le-mul a c h, mul_add 1 a c, mul_add a 1 c)
