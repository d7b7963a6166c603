-- ===== src/Memory/Heap/Cover.antt =====
-- How many blocks of a list hold an address: the measure in which the allocator's safety is stated.
use c_cpp_sandbox.Common.{
  ℕ, ◌+◌, ◌<◌, ◌≡◌, refl, Bool, ◌&&◌, Option, none, some, List, [], ◌∷◌, arith, ltb, leb,
  if◌then◌else◌, All,
}
use c_cpp_sandbox.Memory.Heap.{MemoryHeapNode, memory_heap_push, memory_heap_pop}

-- 1 if the address lies in the block, else 0.
abbrev pub hit : ℕ → MemoryHeapNode → ℕ
hit a node = if leb node.index a && ltb a (node.index + node.block_size) then 1 else 0

abbrev pub cover : ℕ → List MemoryHeapNode → ℕ
cover a [] = 0
cover a (node ∷ child) = hit a node + cover a child

abbrev pub cover_found : ℕ → Option MemoryHeapNode → ℕ
cover_found a none = 0
cover_found a (some node) = hit a node

pub cover-push :
    (a : ℕ) (n : MemoryHeapNode) (l : List MemoryHeapNode)
    → cover a (memory_heap_push n l) ≡ hit a n + cover a l
unfolding memory_heap_push
cover-push a n [] = refl
cover-push a n (x ∷ l) = ground (arith, cover-push a n l)

pub cover-pop :
    (a : ℕ) (c : MemoryHeapNode → Bool) (l : List MemoryHeapNode)
    → cover_found a (memory_heap_pop c l).0 + cover a (memory_heap_pop c l).1 ≡ cover a l
unfolding memory_heap_pop
cover-pop a c [] = refl
cover-pop a c (x ∷ l) = ground (arith, cover-pop a c l)

abbrev pub IsPositive : MemoryHeapNode → Type 0
IsPositive n = 0 < n.block_size

pub push-All :
    (P : MemoryHeapNode → Type 0) (n : MemoryHeapNode) (l : List MemoryHeapNode)
    → P n
    → All P l
    → All P (memory_heap_push n l)
unfolding memory_heap_push
push-All P n [] p h = (p, tt)
push-All P n (x ∷ l) p h = ground (arith, push-All P n l p h.1)

pub pop-All :
    (P : MemoryHeapNode → Type 0) (c : MemoryHeapNode → Bool) (l : List MemoryHeapNode)
    → All P l
    → All P (memory_heap_pop c l).1
unfolding memory_heap_pop
pop-All P c [] h = tt
pop-All P c (x ∷ l) h = ground (arith, pop-All P c l h.1)

pub found-All :
    (P : MemoryHeapNode → Type 0) (c : MemoryHeapNode → Bool) (l : List MemoryHeapNode)
    {n : MemoryHeapNode}
    → All P l
    → (memory_heap_pop c l).0 ≡ some n
    → P n
unfolding memory_heap_pop
found-All P c [] h e = ground arith
found-All P c (x ∷ l) {n} h e = ground (arith, found-All P c l {n = n} h.1)
