-- ===== src/Memory/Heap.antt =====
-- lib/memory/heap.h and heap.c: singly linked lists of memory blocks ordered by size. A list stands
-- for the nodes that a root pointer reaches by `child`, in that order; `[]` is the null root.
pub mod Cover
pub mod Order
pub mod Pop
use c_cpp_sandbox.Common.{
  ℕ, ◌+◌, ◌%◌, ◌^◌, Bool, Option, none, some, List, [], ◌∷◌, ltb, leb, ◌==◌, if◌then◌else◌,
}

-- `index` and `block_size` are uint16_t; `child` is the place in the list.
pub record MemoryHeapNode : Type 0 where
  pub index : ℕ
  pub block_size : ℕ

abbrev pub u16 : ℕ → ℕ
u16 n = n % 2 ^ 16

abbrev pub u32 : ℕ → ℕ
u32 n = n % 2 ^ 32

-- The conditions read their argument through a `uint32_t *`.
unfoldable pub size_heap_pop_condition : ℕ → MemoryHeapNode → Bool
size_heap_pop_condition arg node = leb (u32 arg) node.block_size

unfoldable pub ptr_heap_pop_condition : ℕ → MemoryHeapNode → Bool
ptr_heap_pop_condition arg node = u32 arg == node.index

unfoldable pub merge_heap_pop_condition : ℕ → MemoryHeapNode → Bool
merge_heap_pop_condition arg node = (node.index + node.block_size) == u32 arg

-- The new node goes before the first one that is larger, or to the end.
unfoldable pub memory_heap_push : MemoryHeapNode → List MemoryHeapNode → List MemoryHeapNode
memory_heap_push new_node [] = new_node ∷ []
memory_heap_push new_node (node ∷ child) =
    if ltb new_node.block_size node.block_size
    then new_node ∷ node ∷ child
    else node ∷ memory_heap_push new_node child

-- The first node that meets the condition is unlinked and returned beside the list that is left.
unfoldable pub memory_heap_pop :
    (MemoryHeapNode → Bool) → List MemoryHeapNode → Option MemoryHeapNode × List MemoryHeapNode
memory_heap_pop condition [] = (none, [])
memory_heap_pop condition (node ∷ child) =
    let (found, rest) = memory_heap_pop condition child in
    if condition node then (some node, child) else (found, node ∷ rest)
