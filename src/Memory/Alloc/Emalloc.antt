-- ===== src/Memory/Alloc/Emalloc.antt =====
-- What `emalloc` of lib/memory/emalloc.c does to a tiled memory.
use c_cpp_sandbox.Common.{
  ℕ, ◌+◌, ◌^◌, ◌≤◌, ◌<◌, ◌≡◌, sym, ap, subst, ◌⊎◌, inl, inr, Option, none, some, arith, ◌==◌,
  Bool-cases, Option-cases, All, All-map,
}
use c_cpp_sandbox.Memory.Heap.{MemoryHeapNode, u32, size_heap_pop_condition, memory_heap_pop}
use c_cpp_sandbox.Memory.Heap.Cover.{hit, cover, cover_found, cover-pop}
use c_cpp_sandbox.Memory.Heap.Pop.{Holds, found_meets, not_found, found-Holds}
use c_cpp_sandbox.Memory.Heap.Order.{best_fit}
use c_cpp_sandbox.Memory.Alloc.{Memory, emalloc}
use c_cpp_sandbox.Memory.Alloc.Tiled.{IsTiled, Without, in_memory, pop_freed}
use c_cpp_sandbox.Memory.Alloc.Take.{
  Taken, take_block-Taken, emalloc-zero, emalloc-found, emalloc-not_found,
}

-- The `size` bytes at `p` have gone from the free blocks to the used ones.
pub record Served (memory_size size : ℕ) (m : Memory) (p : ℕ) (m' : Memory) : Type 0 where
  pub tiled : IsTiled memory_size m'
  pub nonempty : 0 < size
  pub within : p + size ≤ memory_size
  pub held : Holds (record { index = p; block_size = size }) m'.used
  pub freed_less :
      (a : ℕ) → cover a m'.freed + hit a (record { index = p; block_size = size }) ≡ cover a m.freed
  pub used_more :
      (a : ℕ) → cover a m'.used ≡ cover a m.used + hit a (record { index = p; block_size = size })

-- `n` is a free block at `p` of at least `size` bytes, and the smallest such.
abbrev pub Fits : ℕ → Memory → ℕ → MemoryHeapNode → Type 0
Fits size m p n =
    Holds n m.freed
    × (n.index ≡ p)
    × (size ≤ n.block_size)
    × All (λ y. size ≤ y.block_size → n.block_size ≤ y.block_size) m.freed

abbrev pub BestFit : ℕ → Memory → ℕ → Type 0
BestFit size m p = (n : MemoryHeapNode) × Fits size m p n

-- What the branches of `emalloc` come to.
data Outcome (memory_size size : ℕ) (m : Memory) : Option ℕ × Memory → Type 0 where
  refused :
      (size ≡ 0) ⊎ All (λ y. y.block_size < size) m.freed → Outcome memory_size size m (none, m)
  served :
      {p : ℕ} {m' : Memory} (n : MemoryHeapNode)
      → Served memory_size size m p m'
      → Fits size m p n
      → Outcome memory_size size m (some p, m')

module _ {memory_size : ℕ} (positive : 0 < memory_size) (small : memory_size < 2 ^ 16) {m : Memory}
    (t : IsTiled memory_size m) {size : ℕ} (fits : size < 2 ^ 32) where
  module _ (n : MemoryHeapNode) (some_bytes : 0 < size)
      (e : (memory_heap_pop (size_heap_pop_condition size) m.freed).0 ≡ some n) where
    abbrev opened :
        Without memory_size n
          (record m { freed = (memory_heap_pop (size_heap_pop_condition size) m.freed).1 })
    opened = pop_freed t (size_heap_pop_condition size) e

    enough : size ≤ n.block_size
    unfolding size_heap_pop_condition
    enough = ground (arith, found_meets (size_heap_pop_condition size) m.freed {n = n} e)

    smallest : All (λ y. size ≤ y.block_size → n.block_size ≤ y.block_size) m.freed
    smallest =
        All-map {Q = λ y. size ≤ y.block_size → n.block_size ≤ y.block_size}
          (λ y (h : u32 size ≤ y.block_size → n.block_size ≤ y.block_size) le. h (omega arith))
          m.freed (best_fit size m.freed {n = n} t.freed_sorted e)

    Taken-Outcome :
        (r : Option ℕ × Memory)
        → Taken small opened size some_bytes r.0 r.1
        → Outcome memory_size size m r
    Taken-Outcome (none, m') taken = absurd (cc (taken.pointer))
    Taken-Outcome (some p, m') taken =
        let same : p ≡ n.index = cc (taken.pointer) in
        served n
          (record {
            tiled = taken.served;
            nonempty = some_bytes;
            within = omega (arith, same, enough, in_memory opened);
            held = rw same taken.held;
            freed_less = λ a. rw same (
                omega (
                  arith,
                  taken.freed_part a,
                  cover-pop a (size_heap_pop_condition size) m.freed,
                  ap (cover_found a) e,
                ));
            used_more = λ a. rw same (taken.used_part a);
          })
          (found-Holds (size_heap_pop_condition size) m.freed e, sym same, enough, smallest)

    found-Outcome : Outcome memory_size size m (emalloc memory_size size m)
    found-Outcome =
        rw (emalloc-found positive small t size some_bytes e)
          (Taken-Outcome _ (take_block-Taken small opened size some_bytes enough))

  emalloc-Outcome : Outcome memory_size size m (emalloc memory_size size m)
  unfolding size_heap_pop_condition
  emalloc-Outcome = elim (Bool-cases (size == 0)) [
    | inl zero_bytes ↦
        let e : size ≡ 0 = ground arith in
        rw (emalloc-zero positive small t size e) (refused (inl e))
    | inr bytes ↦
        let some_bytes : 0 < size = ground arith in
        elim (Option-cases (memory_heap_pop (size_heap_pop_condition size) m.freed).0) [
          | inl e ↦
              rw (emalloc-not_found positive small t size some_bytes e)
                (refused (inr (all_small e)))
          | inr (n, e) ↦ found-Outcome n some_bytes e
        ]
  ]
    where
      all_small :
          (memory_heap_pop (size_heap_pop_condition size) m.freed).0 ≡ none
          → All (λ y. y.block_size < size) m.freed
      all_small e =
          All-map (λ y h. ground arith) m.freed
            (not_found (size_heap_pop_condition size) m.freed e).0

  emalloc-IsTiled_of :
      (r : Option ℕ × Memory) → Outcome memory_size size m r → IsTiled memory_size r.1
  emalloc-IsTiled_of _ (refused _) = t
  emalloc-IsTiled_of _ (served n s _) = s.tiled

  granted_of :
      (r : Option ℕ × Memory) {p : ℕ}
      → Outcome memory_size size m r
      → r.0 ≡ some p
      → Served memory_size size m p r.1 × BestFit size m p
  granted_of _ (refused _) e = absurd (cc)
  granted_of _ {p} (served {p = q} {m' = m'} n s b) e =
      let same : q ≡ p = cc in
      (subst (λ x. Served memory_size size m x m') same s, (n, subst (λ x. Fits size m x n) same b))

  -- Under the invariant and for a size below 2^32, `emalloc` keeps the invariant, whether it
  -- returns a pointer or NULL.
  pub emalloc-IsTiled : IsTiled memory_size (emalloc memory_size size m).1
  emalloc-IsTiled = emalloc-IsTiled_of _ emalloc-Outcome

  -- For a memory of at least one and less than 2^16 bytes, under the invariant and for a size
  -- below 2^32: a call that returns a pointer has moved exactly the `size` bytes from it on, at
  -- least one and all inside the memory, from the free blocks to the used ones, and keeps the
  -- invariant.
  pub emalloc-Served :
      {p : ℕ}
      → (emalloc memory_size size m).0 ≡ some p
      → Served memory_size size m p (emalloc memory_size size m).1
  emalloc-Served e = (granted_of _ emalloc-Outcome e).0

  -- For a memory of at least one and less than 2^16 bytes, under the invariant and for a size
  -- below 2^32: the pointer is the start of a free block that is large enough, and no free block
  -- that is large enough is smaller.
  pub emalloc-BestFit : {p : ℕ} → (emalloc memory_size size m).0 ≡ some p → BestFit size m p
  emalloc-BestFit e = (granted_of _ emalloc-Outcome e).1
