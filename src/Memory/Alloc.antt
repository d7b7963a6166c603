-- ===== src/Memory/Alloc.antt =====
-- lib/memory/emalloc.h and emalloc.c: `emalloc` and `efree`. A pointer into `dynamic_memories` stands
-- for its offset, which is also the index of the block's node in `nodes`; NULL is `none`.
pub mod Tiled
pub mod Take
pub mod Emalloc
pub mod Efree
pub mod Limits
pub mod History
mod Tests
use c_cpp_sandbox.Common.{
  ℕ, ◌+◌, ◌-◌, Bool, ◌&&◌, ◌||◌, Option, none, some, List, [], ltb, leb, ◌==◌, if◌then◌else◌,
}
use c_cpp_sandbox.Memory.Heap.{
  MemoryHeapNode, u16, u32, size_heap_pop_condition, ptr_heap_pop_condition,
  merge_heap_pop_condition, memory_heap_push, memory_heap_pop,
}

-- The two lists that `freed_root_node` and `used_root_node` lead to.
pub record Memory : Type 0 where
  pub freed : List MemoryHeapNode
  pub used : List MemoryHeapNode

abbrev pub is_null : List MemoryHeapNode → Bool
is_null l = elim l [ [] ↦ Bool.true | _ ↦ Bool.false ]

-- The static variables at the start of the program.
abbrev pub at_start : Memory
at_start = record { freed = []; used = [] }

-- `node` with the fields as they are stored
abbrev pub block : ℕ → ℕ → MemoryHeapNode
block index size = record { index = u16 index; block_size = u16 size }

-- The block goes back behind the free block that ends where it starts, if there is one.
unfoldable pub give_back : ℕ → MemoryHeapNode → Memory → Memory
give_back index freed m =
    let (found_contigious, rest) = memory_heap_pop (merge_heap_pop_condition index) m.freed in
    elim found_contigious [
      | none ↦ record m { freed = memory_heap_push freed rest }
      | some n ↦ record m {
        freed =
            memory_heap_push (record n { block_size = u16 (n.block_size + freed.block_size) }) rest;
      }
    ]

module _ (memory_size : ℕ) where
  unfoldable pub initialize_data : Memory → Memory
  initialize_data m =
      if is_null m.freed && is_null m.used
      then record m { freed = memory_heap_push (block 0 memory_size) [] }
      else m

  -- What `emalloc` does with the node that it has unlinked; `m.freed` is the list without it.
  unfoldable pub take_block : ℕ → MemoryHeapNode → Memory → Option ℕ × Memory
  take_block size node m =
      if ltb node.block_size size || leb memory_size node.index
      then (none, m)
      else if node.block_size == size
      then (some node.index, record m { used = memory_heap_push node m.used })
      else let freed_index = u32 (node.index + size) in
        (
          some node.index,
          record {
            freed = memory_heap_push (block freed_index (node.block_size - size)) m.freed;
            used = memory_heap_push (block node.index size) m.used;
          },
        )

  unfoldable pub emalloc : ℕ → Memory → Option ℕ × Memory
  unfolding initialize_data take_block
  emalloc size m =
      let m' = initialize_data m in
      if ltb size 1
      then (none, m')
      else let (node, freed) = memory_heap_pop (size_heap_pop_condition size) m'.freed in
        elim node [ none ↦ (none, m') | some n ↦ take_block size n (record m' { freed = freed }) ]

  unfoldable pub efree : Option ℕ → Memory → Memory
  unfolding give_back
  efree none m = m
  efree (some offset) m =
      let index = u32 offset in
      if ltb index memory_size
      then (let (freed, used) = memory_heap_pop (ptr_heap_pop_condition index) m.used in
          elim freed [
            | none ↦ record m { used = used }
            | some n ↦ give_back index n (record m { used = used })
          ])
      else m
