-- ===== src/Memory/Alloc/Take.antt =====
-- The branches of `emalloc` in lib/memory/emalloc.c: the block that it pops, taken whole or cut.
use c_cpp_sandbox.Common.{
  ℕ, ◌+◌, ◌-◌, ◌^◌, ◌≤◌, ◌<◌, ◌≡◌, refl, ap, inl, inr, Option, none, some, arith, ◌==◌, Bool-cases,
}
use c_cpp_sandbox.Memory.Heap.{
  MemoryHeapNode, u32, size_heap_pop_condition, memory_heap_push, memory_heap_pop,
}
use c_cpp_sandbox.Memory.Heap.Cover.{hit, cover, cover-push, IsPositive, push-All}
use c_cpp_sandbox.Memory.Heap.Pop.{Holds, push-Holds}
use c_cpp_sandbox.Memory.Heap.Order.{push-IsSorted}
use c_cpp_sandbox.Memory.Alloc.{Memory, block, take_block, emalloc}
use c_cpp_sandbox.Memory.Alloc.Tiled.{
  IsTiled, Without, in_memory, push_used, hit-split, initialize_data-eq,
}

module _ {memory_size : ℕ} (small : memory_size < 2 ^ 16) where
  module _ {n : MemoryHeapNode} {m : Memory} (w : Without memory_size n m) (size : ℕ)
      (some_bytes : 0 < size) where
    pub split-IsTiled :
        size < n.block_size
        → IsTiled memory_size (record {
          freed = memory_heap_push (block (u32 (n.index + size)) (n.block_size - size)) m.freed;
          used = memory_heap_push (block n.index size) m.used;
        })
    split-IsTiled lt = record {
      covered = λ a. omega (
        arith,
        w.covered a,
        cover-push a (block (u32 (n.index + size)) (n.block_size - size)) m.freed,
        cover-push a (block n.index size) m.used,
        hit-split a n size (omega arith) (omega (arith, in_memory w)),
      );
      freed_positive =
          push-All IsPositive (block (u32 (n.index + size)) (n.block_size - size)) m.freed
            (omega (arith, in_memory w)) w.freed_positive;
      used_positive =
          push-All IsPositive (block n.index size) m.used (omega (arith, in_memory w))
            w.used_positive;
      freed_sorted = push-IsSorted _ m.freed w.freed_sorted;
      used_sorted = push-IsSorted _ m.used w.used_sorted;
    }

    -- What `emalloc` does with the block that it has popped, when the block is large enough.
    pub record Taken (p : Option ℕ) (m' : Memory) : Type 0 where
      pub pointer : p ≡ some n.index
      pub served : IsTiled memory_size m'
      pub held : Holds (record { index = n.index; block_size = size }) m'.used
      pub freed_part :
          (a : ℕ)
          → cover a m'.freed + hit a (record { index = n.index; block_size = size })
            ≡ hit a n + cover a m.freed
      pub used_part :
          (a : ℕ)
          → cover a m'.used ≡ cover a m.used + hit a (record { index = n.index; block_size = size })

    pub take_block-whole :
        n.block_size ≡ size
        → take_block memory_size size n m
          ≡ (some n.index, record m { used = memory_heap_push n m.used })
    unfolding take_block
    take_block-whole e = ground (arith, in_memory w)

    pub take_block-part :
        size < n.block_size
        → take_block memory_size size n m ≡ (
          some n.index,
          record {
            freed = memory_heap_push (block (u32 (n.index + size)) (n.block_size - size)) m.freed;
            used = memory_heap_push (block n.index size) m.used;
          },
        )
    unfolding take_block
    take_block-part lt = ground (arith, in_memory w)

    pub take_block-Taken :
        size ≤ n.block_size
        → Taken (take_block memory_size size n m).0 (take_block memory_size size n m).1
    take_block-Taken le = elim (Bool-cases (n.block_size == size)) [
      | inl whole ↦
          let e : n.block_size ≡ size = ground arith in
          rw (take_block-whole e) (record {
            pointer = refl;
            served = push_used w;
            held = push-Holds m.used (ap (λ b. record { index = n.index; block_size = b }) e);
            freed_part = λ a. ground arith;
            used_part = λ a. ground (arith, cover-push a n m.used);
          })
      | inr part ↦
          let lt : size < n.block_size = ground arith in
          rw (take_block-part lt) (record {
            pointer = refl;
            served = split-IsTiled lt;
            held = push-Holds m.used (ground (arith, in_memory w));
            freed_part = λ a. ground (
              arith,
              cover-push a (block (u32 (n.index + size)) (n.block_size - size)) m.freed,
              hit-split a n size le (omega (arith, in_memory w)),
              in_memory w,
            );
            used_part = λ a. ground (arith, cover-push a (block n.index size) m.used, in_memory w);
          })
    ]

module _ {memory_size : ℕ} (positive : 0 < memory_size) (small : memory_size < 2 ^ 16) {m : Memory}
    (t : IsTiled memory_size m) (size : ℕ) where
  pub emalloc-zero : size ≡ 0 → emalloc memory_size size m ≡ (none, m)
  unfolding emalloc
  emalloc-zero e = rw (initialize_data-eq positive small t) (ground arith)

  module _ (some_bytes : 0 < size) where
    pub emalloc-found :
        {n : MemoryHeapNode}
        → (memory_heap_pop (size_heap_pop_condition size) m.freed).0 ≡ some n
        → emalloc memory_size size m
          ≡ take_block memory_size size n
              (record m { freed = (memory_heap_pop (size_heap_pop_condition size) m.freed).1 })
    unfolding emalloc
    emalloc-found e = ground (arith, initialize_data-eq positive small t)

    pub emalloc-not_found :
        (memory_heap_pop (size_heap_pop_condition size) m.freed).0 ≡ none
        → emalloc memory_size size m ≡ (none, m)
    unfolding emalloc
    emalloc-not_found e = ground (arith, initialize_data-eq positive small t)
