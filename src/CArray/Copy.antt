-- ===== src/CArray/Copy.antt =====
-- What `memcpy` of the model of lib/c/array.c leaves in the destination.
use c_cpp_sandbox.Common.{
  take_all, take-append_exact, ℕ, ◌+◌, ◌≤◌, ◌<◌, ◌≡◌, ap, ◌∙◌, none, some, List, ◌++◌, arith,
  length, take, drop, length-append, length-take, length-drop,
}
use c_cpp_sandbox.CArray.{overwrite, memcpy}

pub memcpy_ok :
    (dst : List ℕ) (d : ℕ) (src : List ℕ) (s n : ℕ)
    → d + n ≤ length dst
    → s + n ≤ length src
    → memcpy dst d src s n ≡ some (overwrite dst d (take n (drop s src)))
unfolding memcpy
memcpy_ok dst d src s n h1 h2 = ground arith

pub length-overwrite :
    (dst : List ℕ) (d : ℕ) (bytes : List ℕ)
    → d + length bytes ≤ length dst
    → length (overwrite dst d bytes) ≡ length dst
length-overwrite dst d bytes h = omega (
  arith,
  length-append (take d dst ++ bytes) (drop (d + length bytes) dst),
  length-append (take d dst) bytes,
  length-take d dst,
  length-drop (d + length bytes) dst,
)

-- The destination up to the end of what was copied.
pub take-overwrite :
    (dst : List ℕ) (d : ℕ) (bytes : List ℕ) (n : ℕ)
    → d + length bytes ≤ length dst
    → n ≡ d + length bytes
    → take n (overwrite dst d bytes) ≡ take d dst ++ bytes
take-overwrite dst d bytes n h e =
    take-append_exact (take d dst ++ bytes) _ n
      (omega (arith, length-append (take d dst) bytes, length-take d dst))

-- The whole source copied.
pub memcpy_all :
    (dst : List ℕ) (d : ℕ) (src : List ℕ) (n : ℕ)
    → n ≡ length src
    → d + n ≤ length dst
    → memcpy dst d src 0 n ≡ some (overwrite dst d src)
memcpy_all dst d src n e h =
    memcpy_ok dst d src 0 n h (omega (arith, e))
    ∙ ap (λ l. some (overwrite dst d l)) (take_all src n (omega (arith, e)))

-- The start of the source copied to the start of the destination.
pub memcpy_start :
    (dst src : List ℕ) (n : ℕ)
    → n ≤ length src
    → n ≤ length dst
    → memcpy dst 0 src 0 n ≡ some (take n src ++ drop n dst)
memcpy_start dst src n h1 h2 =
    memcpy_ok dst 0 src 0 n (omega (arith, h2)) (omega (arith, h1))
    ∙ ap (λ k. some (take n src ++ drop k dst)) (omega (arith, length-take n src))

pub memcpy_past :
    (dst : List ℕ) (d : ℕ) (src : List ℕ) (s n : ℕ)
    → length src < s + n
    → memcpy dst d src s n ≡ none
unfolding memcpy
memcpy_past dst d src s n h = ground arith
