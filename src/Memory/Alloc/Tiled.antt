-- ===== src/Memory/Alloc/Tiled.antt =====
-- The invariant of lib/memory/emalloc.c: the blocks of the two lists tile the memory.
use c_cpp_sandbox.Common.{
  ℕ, ◌+◌, ◌-◌, ◌^◌, ◌≤◌, ◌<◌, ◌≡◌, Bool, some, arith, ltb, All, if◌then◌else◌,
}
use c_cpp_sandbox.Memory.Heap.{MemoryHeapNode, u16, u32, memory_heap_push, memory_heap_pop}
use c_cpp_sandbox.Memory.Heap.Cover.{
  hit, cover, cover-push, cover-pop, IsPositive, push-All, pop-All, found-All,
}
use c_cpp_sandbox.Memory.Heap.Order.{IsSorted, push-IsSorted, pop-IsSorted}
use c_cpp_sandbox.Memory.Alloc.{Memory, block, at_start, initialize_data}

-- the addresses of the memory
abbrev pub inside : ℕ → ℕ → ℕ
inside memory_size a = if ltb a memory_size then 1 else 0

-- Every address of the memory lies in exactly one block, and no address outside lies in any.
pub record IsTiled (memory_size : ℕ) (m : Memory) : Type 0 where
  pub covered : (a : ℕ) → cover a m.freed + cover a m.used ≡ inside memory_size a
  pub freed_positive : All IsPositive m.freed
  pub used_positive : All IsPositive m.used
  pub freed_sorted : IsSorted m.freed
  pub used_sorted : IsSorted m.used

-- The same while the block `n` is in neither list.
pub record Without (memory_size : ℕ) (n : MemoryHeapNode) (m : Memory) : Type 0 where
  pub covered : (a : ℕ) → hit a n + (cover a m.freed + cover a m.used) ≡ inside memory_size a
  pub positive : IsPositive n
  pub freed_positive : All IsPositive m.freed
  pub used_positive : All IsPositive m.used
  pub freed_sorted : IsSorted m.freed
  pub used_sorted : IsSorted m.used

module _ {memory_size : ℕ} where
  -- A block ends inside the memory.
  pub in_memory :
      {n : MemoryHeapNode} {m : Memory}
      → Without memory_size n m
      → n.index + n.block_size ≤ memory_size
  in_memory {n} w = ground (arith, w.covered (n.index + n.block_size - 1), w.positive)

  module _ {m : Memory} (t : IsTiled memory_size m) (c : MemoryHeapNode → Bool) where
    pub pop_freed :
        {n : MemoryHeapNode}
        → (memory_heap_pop c m.freed).0 ≡ some n
        → Without memory_size n (record m { freed = (memory_heap_pop c m.freed).1 })
    pop_freed e = record {
      covered = λ a. ground (arith, t.covered a, cover-pop a c m.freed);
      positive = found-All IsPositive c m.freed t.freed_positive e;
      freed_positive = pop-All IsPositive c m.freed t.freed_positive;
      used_positive = t.used_positive;
      freed_sorted = pop-IsSorted c m.freed t.freed_sorted;
      used_sorted = t.used_sorted;
    }

    pub pop_used :
        {n : MemoryHeapNode}
        → (memory_heap_pop c m.used).0 ≡ some n
        → Without memory_size n (record m { used = (memory_heap_pop c m.used).1 })
    pop_used e = record {
      covered = λ a. ground (arith, t.covered a, cover-pop a c m.used);
      positive = found-All IsPositive c m.used t.used_positive e;
      freed_positive = t.freed_positive;
      used_positive = pop-All IsPositive c m.used t.used_positive;
      freed_sorted = t.freed_sorted;
      used_sorted = pop-IsSorted c m.used t.used_sorted;
    }

  module _ {n : MemoryHeapNode} {m : Memory} (w : Without memory_size n m) where
    pub push_freed : IsTiled memory_size (record m { freed = memory_heap_push n m.freed })
    push_freed = record {
      covered = λ a. omega (arith, w.covered a, cover-push a n m.freed);
      freed_positive = push-All IsPositive n m.freed w.positive w.freed_positive;
      used_positive = w.used_positive;
      freed_sorted = push-IsSorted n m.freed w.freed_sorted;
      used_sorted = w.used_sorted;
    }

    pub push_used : IsTiled memory_size (record m { used = memory_heap_push n m.used })
    push_used = record {
      covered = λ a. omega (arith, w.covered a, cover-push a n m.used);
      freed_positive = w.freed_positive;
      used_positive = push-All IsPositive n m.used w.positive w.used_positive;
      freed_sorted = w.freed_sorted;
      used_sorted = push-IsSorted n m.used w.used_sorted;
    }

-- The two parts of a block that is cut hold its addresses.
pub hit-split :
    (a : ℕ) (n : MemoryHeapNode) (size : ℕ)
    → size ≤ n.block_size
    → n.index + n.block_size < 2 ^ 16
    → hit a (block (u32 (n.index + size)) (n.block_size - size)) + hit a (block n.index size)
      ≡ hit a n
hit-split a n size le fits = ground arith

-- A block and the one that starts where it ends make one block.
pub hit-merge :
    (a : ℕ) (n k : MemoryHeapNode)
    → n.index + n.block_size ≡ k.index
    → k.index + k.block_size < 2 ^ 16
    → hit a (record n { block_size = u16 (n.block_size + k.block_size) }) ≡ hit a n + hit a k
hit-merge a n k e fits = ground arith

module _ {memory_size : ℕ} (positive : 0 < memory_size) (small : memory_size < 2 ^ 16) where
  -- The first call of `emalloc` makes the whole memory one free block.
  pub initialize_data-IsTiled : IsTiled memory_size (initialize_data memory_size at_start)
  unfolding initialize_data memory_heap_push
  initialize_data-IsTiled = record {
    covered = λ a. ground arith;
    freed_positive = (ground arith, tt);
    used_positive = tt;
    freed_sorted = (tt, tt);
    used_sorted = tt;
  }

  -- Later calls leave a tiled memory alone.
  pub initialize_data-eq : {m : Memory} → IsTiled memory_size m → initialize_data memory_size m ≡ m
  unfolding initialize_data
  initialize_data-eq {m} t = ground (arith, t.covered 0)
