-- ===== src/Memory/Heap/Order.antt =====
-- The lists stay ordered by block size, so that the first fit is the best fit.
use c_cpp_sandbox.Common.{
  ℕ, ◌≤◌, ◌≡◌, Bool, some, List, [], ◌∷◌, arith, leb, inl, inr, Bool-cases, All, All-map,
}
use c_cpp_sandbox.Memory.Heap.{
  MemoryHeapNode, u32, size_heap_pop_condition, memory_heap_push, memory_heap_pop,
}
use c_cpp_sandbox.Memory.Heap.Cover.{push-All, pop-All}

-- `m` is at most as large as every node of the list
abbrev pub LeAll : ℕ → List MemoryHeapNode → Type 0
LeAll m = All (λ node. m ≤ node.block_size)

abbrev pub IsSorted : List MemoryHeapNode → Type 0
IsSorted [] = Unit
IsSorted (node ∷ child) = LeAll node.block_size child × IsSorted child

LeAll-mono : {m k : ℕ} (l : List MemoryHeapNode) → m ≤ k → LeAll k l → LeAll m l
LeAll-mono [] h p = tt
LeAll-mono (x ∷ l) h p = ground (arith, LeAll-mono l h p.1)

-- `memoryHeapPush` keeps a list ordered.
pub push-IsSorted :
    (n : MemoryHeapNode) (l : List MemoryHeapNode) → IsSorted l → IsSorted (memory_heap_push n l)
unfolding memory_heap_push
push-IsSorted n [] s = (tt, tt)
push-IsSorted n (x ∷ l) s = ground (
  arith,
  push-IsSorted n l s.1,
  push-All (λ y. x.block_size ≤ y.block_size) n l,
  LeAll-mono {m = n.block_size} {k = x.block_size} l,
)

-- `memoryHeapPop` keeps a list ordered.
pub pop-IsSorted :
    (c : MemoryHeapNode → Bool) (l : List MemoryHeapNode)
    → IsSorted l
    → IsSorted (memory_heap_pop c l).1
unfolding memory_heap_pop
pop-IsSorted c [] s = tt
pop-IsSorted c (x ∷ l) s =
    ground (arith, pop-IsSorted c l s.1, pop-All (λ y. x.block_size ≤ y.block_size) c l s.0)

-- Every node that fits is at least as large as the one that is found.
pub best_fit :
    (size : ℕ) (l : List MemoryHeapNode) {n : MemoryHeapNode}
    → IsSorted l
    → (memory_heap_pop (size_heap_pop_condition size) l).0 ≡ some n
    → All (λ y. u32 size ≤ y.block_size → n.block_size ≤ y.block_size) l
unfolding memory_heap_pop size_heap_pop_condition
best_fit size [] s e = tt
best_fit size (x ∷ l) {n} s e = elim (Bool-cases (leb (u32 size) x.block_size)) [
  | inl fits ↦
      let le : n.block_size ≤ x.block_size = ground arith in
      (λ _. le, All-map (λ y below _. omega arith) l s.0)
  | inr small ↦ (λ fits. absurd (ground arith), best_fit size l {n = n} s.1 (ground arith))
]
