-- ===== src/Memory/Alloc/History.antt =====
-- Programs that use the allocator: sequences of calls of `emalloc` and `efree`.
use c_cpp_sandbox.Common.{
  ℕ, ◌^◌, ◌<◌, ◌≡◌, refl, ◌⊎◌, inl, inr, Option, none, some, List, [], ◌∷◌, arith, All,
}
use c_cpp_sandbox.Memory.Heap.{memory_heap_push, memory_heap_pop}
use c_cpp_sandbox.Memory.Alloc.{Memory, at_start, initialize_data, emalloc, efree}
use c_cpp_sandbox.Memory.Alloc.Tiled.{IsTiled, initialize_data-IsTiled, initialize_data-eq}
use c_cpp_sandbox.Memory.Alloc.Emalloc.{emalloc-IsTiled}
use c_cpp_sandbox.Memory.Alloc.Efree.{efree-IsTiled}
use c_cpp_sandbox.Memory.Alloc.Limits.{default_size, IsStuck, emalloc-IsStuck, efree_stuck}

pub data Call : Type 0 where
  alloc : ℕ → Call
  free : Option ℕ → Call

abbrev pub HasWidth : Call → Type 0
HasWidth (alloc size) = size < 2 ^ 32
HasWidth (free ptr) = Unit {0}

-- The memory after the calls.
abbrev pub run : ℕ → Memory → List Call → Memory
run memory_size m [] = m
run memory_size m (alloc size ∷ calls) = run memory_size (emalloc memory_size size m).1 calls
run memory_size m (free ptr ∷ calls) = run memory_size (efree memory_size ptr m) calls

-- What the calls of `emalloc` return, in order.
abbrev pub pointers : ℕ → Memory → List Call → List (Option ℕ)
pointers memory_size m [] = []
pointers memory_size m (alloc size ∷ calls) =
    (emalloc memory_size size m).0 ∷ pointers memory_size (emalloc memory_size size m).1 calls
pointers memory_size m (free ptr ∷ calls) = pointers memory_size (efree memory_size ptr m) calls

module _ {memory_size : ℕ} (positive : 0 < memory_size) (small : memory_size < 2 ^ 16) where
  run-IsTiled :
      (calls : List Call) {m : Memory}
      → All HasWidth calls
      → IsTiled memory_size m
      → IsTiled memory_size (run memory_size m calls)
  run-IsTiled [] h t = t
  run-IsTiled (alloc size ∷ calls) h t =
      run-IsTiled calls h.1 (emalloc-IsTiled positive small t h.0)
  run-IsTiled (free ptr ∷ calls) h t = run-IsTiled calls h.1 (efree-IsTiled small t ptr)

  -- Before the first allocation `efree` does nothing, and the first one begins at a tiled memory.
  emalloc-at_start :
      (size : ℕ)
      → emalloc memory_size size at_start
        ≡ emalloc memory_size size (initialize_data memory_size at_start)
  unfolding emalloc memory_heap_push memory_heap_pop
  emalloc-at_start size =
      rw (initialize_data-eq positive small (initialize_data-IsTiled positive small))

  efree-at_start : (ptr : Option ℕ) → efree memory_size ptr at_start ≡ at_start
  unfolding efree memory_heap_pop
  efree-at_start none = refl
  efree-at_start (some offset) = ground arith

  -- For a memory of at least one and less than 2^16 bytes: from the start of the program, calls
  -- whose sizes are below 2^32 lead to the start or to a tiled memory, in which no address lies
  -- in two blocks and none outside the memory in any.
  pub history-IsTiled :
      (calls : List Call)
      → All HasWidth calls
      → (run memory_size at_start calls ≡ at_start)
        ⊎ IsTiled memory_size (run memory_size at_start calls)
  history-IsTiled [] h = inl refl
  history-IsTiled (alloc size ∷ calls) h = inr (
      run-IsTiled calls h.1 (
        rw (emalloc-at_start size)
          (emalloc-IsTiled positive small (initialize_data-IsTiled positive small) h.0)))
  history-IsTiled (free ptr ∷ calls) h = rw (efree-at_start ptr) (history-IsTiled calls h.1)

stuck_refuses :
    (calls : List Call) {m : Memory}
    → IsStuck m
    → All (λ p. p ≡ none) (pointers default_size m calls)
stuck_refuses [] s = tt
stuck_refuses (alloc size ∷ calls) {m} s =
    let (null, s') = emalloc-IsStuck size m s in (null, stuck_refuses calls s')
stuck_refuses (free ptr ∷ calls) {m} s = rw (efree_stuck ptr m s) (stuck_refuses calls s)

-- With the default size of the memory every call of `emalloc`, in every program, returns NULL.
pub default_refuses :
    (calls : List Call) → All (λ p. p ≡ none) (pointers default_size at_start calls)
default_refuses calls = stuck_refuses calls (inl refl)
