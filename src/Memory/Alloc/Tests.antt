-- ===== src/Memory/Alloc/Tests.antt =====
-- The allocator of lib/memory at a memory of 16 bytes: runs, and the theorems at them.
use c_cpp_sandbox.Common.{ℕ, ◌+◌, ◌^◌, ◌≡◌, refl, ◌⊎◌, inl, none, some, List, [], ◌∷◌, arith, All}
use c_cpp_sandbox.Memory.Heap.{
  MemoryHeapNode, memory_heap_push, memory_heap_pop, size_heap_pop_condition,
  ptr_heap_pop_condition, merge_heap_pop_condition,
}
use c_cpp_sandbox.Memory.Alloc.{Memory, at_start, emalloc, efree}
use c_cpp_sandbox.Memory.Alloc.Tiled.{IsTiled}
use c_cpp_sandbox.Memory.Alloc.Emalloc.{Served, BestFit, emalloc-Served, emalloc-BestFit}
use c_cpp_sandbox.Memory.Alloc.Efree.{Returned, SameBytes, efree-Returned, efree-emalloc}
use c_cpp_sandbox.Memory.Alloc.Limits.{Lost, default_size, emalloc-Lost}
use c_cpp_sandbox.Memory.Alloc.History.{
  Call, alloc, free, run, pointers, history-IsTiled, default_refuses,
}

abbrev node : ℕ → ℕ → MemoryHeapNode
node i s = record { index = i; block_size = s }

-- Three blocks taken from 16 bytes, the middle one given back.
abbrev m : Memory
m = record { freed = node 4 2 ∷ node 9 7 ∷ []; used = node 6 3 ∷ node 0 4 ∷ [] }

abbrev script : List Call
script = alloc 4 ∷ alloc 2 ∷ alloc 3 ∷ free (some 4) ∷ []

run-script : run 16 at_start script ≡ m
unfolding emalloc efree memory_heap_push memory_heap_pop size_heap_pop_condition
    ptr_heap_pop_condition merge_heap_pop_condition
run-script = refl

pointers-script : pointers 16 at_start script ≡ some 0 ∷ some 4 ∷ some 6 ∷ []
unfolding emalloc efree memory_heap_push memory_heap_pop size_heap_pop_condition
    ptr_heap_pop_condition merge_heap_pop_condition
pointers-script = refl

m-IsTiled : IsTiled 16 m
m-IsTiled = record {
  covered = λ a. ground arith;
  freed_positive = omega arith;
  used_positive = omega arith;
  freed_sorted = omega arith;
  used_sorted = omega arith;
}

emalloc-m : (emalloc 16 3 m).0 ≡ some 9
unfolding emalloc memory_heap_push memory_heap_pop size_heap_pop_condition
emalloc-m = refl

emalloc-Served_example : Served 16 3 m 9 (emalloc 16 3 m).1
emalloc-Served_example =
    emalloc-Served (omega arith) (omega arith) m-IsTiled (omega arith) emalloc-m

emalloc-BestFit_example : BestFit 3 m 9
emalloc-BestFit_example =
    emalloc-BestFit (omega arith) (omega arith) m-IsTiled (omega arith) emalloc-m

efree-Returned_example : Returned 16 (node 6 3) m (efree 16 (some 6) m)
efree-Returned_example = efree-Returned (omega arith) m-IsTiled (node 6 3) (inl refl) 6 refl

efree-emalloc_example : SameBytes 16 m (efree 16 (some 9) (emalloc 16 3 m).1)
efree-emalloc_example = efree-emalloc (omega arith) (omega arith) m-IsTiled (omega arith) emalloc-m

emalloc-Lost_example :
    ((emalloc 16 (2 ^ 32 + 1) m).0 ≡ none)
    × (n : MemoryHeapNode) × Lost n m (emalloc 16 (2 ^ 32 + 1) m).1
emalloc-Lost_example =
    emalloc-Lost (omega arith) (omega arith) m-IsTiled (2 ^ 32 + 1) (omega arith) (node 4 2)
      (inl refl) (omega arith)

history-IsTiled_example : (run 16 at_start script ≡ at_start) ⊎ IsTiled 16 (run 16 at_start script)
history-IsTiled_example = history-IsTiled (omega arith) (omega arith) script (omega arith)

default_refuses_example : All (λ p. p ≡ none) (pointers default_size at_start script)
default_refuses_example = default_refuses script
