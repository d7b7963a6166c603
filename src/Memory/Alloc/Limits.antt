-- ===== src/Memory/Alloc/Limits.antt =====
-- Where the integer types of lib/memory/emalloc.c are too narrow: a size of 2^32 or more, and a
-- memory of 2^16 bytes, which is the default `DYNAMIC_MEMORY_SIZE`.
use c_cpp_sandbox.Common.{
  ℕ, ◌+◌, ◌^◌, ◌≤◌, ◌<◌, ◌≡◌, refl, ◌∙◌, ap, ◌⊎◌, inl, inr, Bool, false, ◌&&◌, not, leb, Option,
  none, some, List, [], ◌∷◌, arith, ltb, Bool-cases, Option-cases,
}
use c_cpp_sandbox.Memory.Heap.{
  MemoryHeapNode, u32, size_heap_pop_condition, memory_heap_push, memory_heap_pop,
}
use c_cpp_sandbox.Memory.Heap.Cover.{hit, cover, cover_found, cover-pop}
use c_cpp_sandbox.Memory.Heap.Pop.{Holds, Holds-All, not_found, found-Holds}
use c_cpp_sandbox.Memory.Alloc.{Memory, block, at_start, take_block, emalloc, efree}
use c_cpp_sandbox.Memory.Alloc.Tiled.{IsTiled, in_memory, pop_freed}
use c_cpp_sandbox.Memory.Alloc.Take.{emalloc-found}

-- The bytes of the free block `n` have left both lists.
pub record Lost (n : MemoryHeapNode) (m m' : Memory) : Type 0 where
  pub was_free : Holds n m.freed
  pub freed_less : (a : ℕ) → cover a m'.freed + hit a n ≡ cover a m.freed
  pub used_same : m'.used ≡ m.used

-- For a memory of at least one and less than 2^16 bytes, under the invariant: a call with a size
-- of 2^32 or more whose low 32 bits some free block can hold returns NULL and loses a whole free
-- block, whose bytes are in neither list afterwards.
pub emalloc-Lost :
    {memory_size : ℕ} {m : Memory}
    → 0 < memory_size
    → memory_size < 2 ^ 16
    → IsTiled memory_size m
    → (size : ℕ) → 2 ^ 32 ≤ size
    → (k : MemoryHeapNode) → Holds k m.freed
    → u32 size ≤ k.block_size
    → ((emalloc memory_size size m).0 ≡ none)
      × (n : MemoryHeapNode) × Lost n m (emalloc memory_size size m).1
unfolding take_block size_heap_pop_condition
emalloc-Lost {memory_size} {m} positive small t size wide k h fits =
    elim (Option-cases (memory_heap_pop c m.freed).0) [
      | inl e ↦
          absurd (
            ground
              (arith, Holds-All (λ y. c y ≡ false) {n = k} m.freed (not_found c m.freed e).0 h))
      | inr (n, e) ↦
          let w = pop_freed t c e in
          let refused : take_block memory_size size n (record m { freed = rest })
              ≡ (none, record m { freed = rest }) =
            ground (arith, in_memory w) in
          let same = emalloc-found positive small t size (omega arith) e ∙ refused in
          rw same (
            refl,
            n,
            record {
              was_free = found-Holds c m.freed e;
              freed_less = λ a. omega (arith, cover-pop a c m.freed, ap (cover_found a) e);
              used_same = refl;
            },
          )
    ]
  where
    c : MemoryHeapNode → Bool
    c = size_heap_pop_condition size

    rest : List MemoryHeapNode
    rest = (memory_heap_pop (size_heap_pop_condition size) m.freed).1

-- With the default size the one node says that its block is empty (65536 does not fit in 16 bits).
abbrev pub default_size : ℕ
default_size = 2 ^ 16

-- The two states that a program with the default size can be in.
abbrev pub IsStuck : Memory → Type 0
IsStuck m = (m ≡ at_start) ⊎ (m ≡ record { freed = block 0 default_size ∷ []; used = [] })

pub emalloc-IsStuck :
    (size : ℕ) (m : Memory)
    → IsStuck m
    → ((emalloc default_size size m).0 ≡ none) × IsStuck (emalloc default_size size m).1
unfolding emalloc memory_heap_push memory_heap_pop size_heap_pop_condition
emalloc-IsStuck size m s = elim (Bool-cases (leb (u32 size) 0 && not (ltb size 1))) [
  | inl popped ↦ elim s [
    | inl e ↦ rw e (ground arith, inl (ground arith))
    | inr e ↦ rw e (ground arith, inl (ground arith))
  ]
  | inr kept ↦ elim s [
    | inl e ↦ rw e (ground arith, inr (ground arith))
    | inr e ↦ rw e (ground arith, inr (ground arith))
  ]
]

pub efree_stuck : (ptr : Option ℕ) (m : Memory) → IsStuck m → efree default_size ptr m ≡ m
unfolding efree memory_heap_pop
efree_stuck none m s = refl
efree_stuck (some p) m (inl e) = rw e (ground arith)
efree_stuck (some p) m (inr e) = rw e (ground arith)
