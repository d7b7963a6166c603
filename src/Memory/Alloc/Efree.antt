-- ===== src/Memory/Alloc/Efree.antt =====
-- What `efree` of lib/memory/emalloc.c does to a tiled memory.
use c_cpp_sandbox.Common.{
  ℕ, ◌+◌, ◌^◌, ◌≤◌, ◌<◌, ◌≡◌, ◌≢◌, refl, sym, ◌∙◌, ap, inl, inr, false, Option, none, some, List,
  arith, ◌==◌, Option-cases, All, All-map,
}
use c_cpp_sandbox.Memory.Heap.{
  MemoryHeapNode, u16, u32, ptr_heap_pop_condition, merge_heap_pop_condition, memory_heap_push,
  memory_heap_pop,
}
use c_cpp_sandbox.Memory.Heap.Cover.{
  hit, cover, cover_found, cover-push, cover-pop, found-All, IsPositive, push-All, pop-All,
}
use c_cpp_sandbox.Memory.Heap.Pop.{
  Holds, Holds-All, Holds-unique, found_meets, not_found, none_of_All, found-Holds,
}
use c_cpp_sandbox.Memory.Heap.Order.{push-IsSorted, pop-IsSorted}
use c_cpp_sandbox.Memory.Alloc.{Memory, give_back, emalloc, efree}
use c_cpp_sandbox.Memory.Alloc.Emalloc.{emalloc-Served}
use c_cpp_sandbox.Memory.Alloc.Tiled.{IsTiled, Without, in_memory, pop_used, push_freed, hit-merge}

-- The bytes of `n` have gone to the free blocks, and the used blocks are those of `m`.
record Given (memory_size : ℕ) (n : MemoryHeapNode) (m m' : Memory) : Type 0 where
  tiled : IsTiled memory_size m'
  freed_more : (a : ℕ) → cover a m'.freed ≡ cover a m.freed + hit a n
  used_same : m'.used ≡ m.used

-- The index that `efree` looks for.
abbrev pub index_at : Option ℕ → Option ℕ
index_at none = none
index_at (some offset) = some (u32 offset)

-- The bytes of the used block `n` have gone to the free blocks.
pub record Returned (memory_size : ℕ) (n : MemoryHeapNode) (m m' : Memory) : Type 0 where
  pub tiled : IsTiled memory_size m'
  pub freed_more : (a : ℕ) → cover a m'.freed ≡ cover a m.freed + hit a n
  pub used_less : (a : ℕ) → cover a m'.used + hit a n ≡ cover a m.used

module _ {memory_size : ℕ} (small : memory_size < 2 ^ 16) where
  module _ {n : MemoryHeapNode} {m : Memory} (w : Without memory_size n m) where
    module _ (k : MemoryHeapNode)
        (e : (memory_heap_pop (merge_heap_pop_condition n.index) m.freed).0 ≡ some k) where
      -- The free block `k` ends where `n` starts.
      adjoins : k.index + k.block_size ≡ n.index
      unfolding merge_heap_pop_condition
      adjoins =
          ground
            (arith, found_meets (merge_heap_pop_condition n.index) m.freed {n = k} e, in_memory w)

      abbrev joined : MemoryHeapNode
      joined = record k { block_size = u16 (k.block_size + n.block_size) }

      abbrev rest : List MemoryHeapNode
      rest = (memory_heap_pop (merge_heap_pop_condition n.index) m.freed).1

      cover-joined : (a : ℕ) → cover a (memory_heap_push joined rest) ≡ cover a m.freed + hit a n
      cover-joined a = omega (
        arith,
        cover-push a joined rest,
        cover-pop a (merge_heap_pop_condition n.index) m.freed,
        ap (cover_found a) e,
        hit-merge a k n adjoins (omega (arith, in_memory w)),
      )

      merged : Given memory_size n m (record m { freed = memory_heap_push joined rest })
      merged = record {
        tiled = record {
          covered = λ a. omega (arith, w.covered a, cover-joined a);
          freed_positive =
              push-All IsPositive joined rest (omega (arith, adjoins, in_memory w, w.positive))
                (pop-All IsPositive (merge_heap_pop_condition n.index) m.freed w.freed_positive);
          used_positive = w.used_positive;
          freed_sorted =
              push-IsSorted joined rest
                (pop-IsSorted (merge_heap_pop_condition n.index) m.freed w.freed_sorted);
          used_sorted = w.used_sorted;
        };
        freed_more = cover-joined;
        used_same = refl;
      }

      give_back-joined : give_back n.index n m ≡ record m { freed = memory_heap_push joined rest }
      unfolding give_back
      give_back-joined = ground (arith, e)

    give_back-alone :
        (memory_heap_pop (merge_heap_pop_condition n.index) m.freed).0 ≡ none
        → give_back n.index n m ≡ record m { freed = memory_heap_push n m.freed }
    unfolding give_back
    give_back-alone e = ground (arith, not_found (merge_heap_pop_condition n.index) m.freed e)

    give_back-Given : Given memory_size n m (give_back n.index n m)
    give_back-Given =
        elim (Option-cases (memory_heap_pop (merge_heap_pop_condition n.index) m.freed).0) [
          | inl e ↦ rw (give_back-alone e) (record {
            tiled = push_freed w;
            freed_more = λ a. omega (arith, cover-push a n m.freed);
            used_same = refl;
          })
          | inr (k, e) ↦ rw (give_back-joined k e) (merged k e)
        ]

  module _ {m : Memory} (t : IsTiled memory_size m) where
    index_of :
        (n : MemoryHeapNode) (offset : ℕ)
        → (memory_heap_pop (ptr_heap_pop_condition (u32 offset)) m.used).0 ≡ some n
        → n.index ≡ u32 offset
    unfolding ptr_heap_pop_condition
    index_of n offset e =
        ground (arith, found_meets (ptr_heap_pop_condition (u32 offset)) m.used {n = n} e)

    -- What `efree` does with a pointer that is the start of a used block.
    efree-found :
        (n : MemoryHeapNode) (offset : ℕ)
        → (memory_heap_pop (ptr_heap_pop_condition (u32 offset)) m.used).0 ≡ some n
        → efree memory_size (some offset) m
          ≡ give_back n.index n
              (record m { used = (memory_heap_pop (ptr_heap_pop_condition (u32 offset)) m.used).1 })
    unfolding efree
    efree-found n offset e =
        let w = pop_used t (ptr_heap_pop_condition (u32 offset)) e in
        let same = index_of n offset e in rw same (ground (arith, in_memory w, w.positive, same))

    efree-not_found :
        (offset : ℕ)
        → (memory_heap_pop (ptr_heap_pop_condition (u32 offset)) m.used).0 ≡ none
        → efree memory_size (some offset) m ≡ m
    unfolding efree
    efree-not_found offset e =
        ground (arith, not_found (ptr_heap_pop_condition (u32 offset)) m.used e)

    module _ (n : MemoryHeapNode) (h : Holds n m.used) where
      hit_start : hit n.index n ≡ 1
      hit_start = let p = Holds-All IsPositive m.used t.used_positive h in ground arith

      -- `efree` finds the used block that starts at the pointer, and no other.
      found_block :
          (offset : ℕ)
          → u32 offset ≡ n.index
          → (memory_heap_pop (ptr_heap_pop_condition (u32 offset)) m.used).0 ≡ some n
      unfolding ptr_heap_pop_condition
      found_block offset e =
          let c = ptr_heap_pop_condition (u32 offset) in
          elim (Option-cases (memory_heap_pop c m.used).0) [
            | inl none_there ↦
                let differs =
                  Holds-All (λ k. c k ≡ false) {n = n} m.used (not_found c m.used none_there).0 h in
                absurd (ground (arith, differs, e))
            | inr (k, found) ↦
                let at : k.index ≡ u32 offset = index_of k offset found in
                let p : 0 < k.block_size = found-All IsPositive c m.used t.used_positive found in
                let once : cover n.index m.used ≤ 1 = ground (arith, t.covered n.index) in
                found
                ∙ ap some (
                    sym (
                      Holds-unique n.index n k m.used once hit_start (ground arith) h
                        (found-Holds c m.used found)))
          ]

      -- For a memory of less than 2^16 bytes and under the invariant, `efree` of the start of a
      -- used block moves exactly the bytes of that block from the used blocks to the free ones,
      -- and keeps the invariant.
      pub efree-Returned :
          (offset : ℕ)
          → u32 offset ≡ n.index
          → Returned memory_size n m (efree memory_size (some offset) m)
      efree-Returned offset e =
          let found = found_block offset e in
          let c = ptr_heap_pop_condition (u32 offset) in
          let given = give_back-Given (pop_used t c found) in
          rw (efree-found n offset found) (record {
            tiled = given.tiled;
            freed_more = given.freed_more;
            used_less = λ a. omega (
              arith,
              cover-pop a c m.used,
              ap (cover_found a) found,
              ap (cover a) given.used_same,
            );
          })

    -- For a memory of less than 2^16 bytes and under the invariant, `efree` of a pointer at which
    -- no used block starts changes nothing: one into the middle of a block, one that was freed
    -- before, or NULL.
    pub efree_ignored :
        (ptr : Option ℕ)
        → All (λ n. index_at ptr ≢ some n.index) m.used
        → efree memory_size ptr m ≡ m
    unfolding efree ptr_heap_pop_condition
    efree_ignored none h = refl
    efree_ignored (some offset) h = efree-not_found offset (
        none_of_All (ptr_heap_pop_condition (u32 offset)) m.used
          (All-map (λ y differs. other y differs) m.used h))
      where
        other :
            (y : MemoryHeapNode)
            → some (u32 offset) ≢ some y.index
            → (u32 (u32 offset) == y.index) ≡ false
        other y differs = ground (arith, differs)

    -- Under the invariant, `efree` keeps the invariant, whatever pointer it is given.
    pub efree-IsTiled : (ptr : Option ℕ) → IsTiled memory_size (efree memory_size ptr m)
    unfolding efree
    efree-IsTiled none = t
    efree-IsTiled (some offset) =
        elim (Option-cases (memory_heap_pop (ptr_heap_pop_condition (u32 offset)) m.used).0) [
          | inl e ↦ rw (efree-not_found offset e) t
          | inr (n, e) ↦
              rw (efree-found n offset e)
                (give_back-Given (pop_used t (ptr_heap_pop_condition (u32 offset)) e)).tiled
        ]

-- The memory before an allocation and after the block is freed again: the same bytes are free and
-- the same are used.
pub record SameBytes (memory_size : ℕ) (m m' : Memory) : Type 0 where
  pub tiled : IsTiled memory_size m'
  pub freed_same : (a : ℕ) → cover a m'.freed ≡ cover a m.freed
  pub used_same : (a : ℕ) → cover a m'.used ≡ cover a m.used

-- For a memory of at least one and less than 2^16 bytes, under the invariant and for a size below
-- 2^32: freeing the pointer that `emalloc` has returned gives back exactly its bytes, so the same
-- bytes are free and used as before the call.
pub efree-emalloc :
    {memory_size : ℕ} {m : Memory} {size p : ℕ}
    → 0 < memory_size
    → memory_size < 2 ^ 16
    → IsTiled memory_size m
    → size < 2 ^ 32
    → (emalloc memory_size size m).0 ≡ some p
    → SameBytes memory_size m (efree memory_size (some p) (emalloc memory_size size m).1)
efree-emalloc {size} {p} positive small t fits e =
    let s = emalloc-Served positive small t fits e in
    let r = efree-Returned small s.tiled _ s.held p (omega (arith, s.nonempty, s.within)) in
    record {
      tiled = r.tiled;
      freed_same = λ a. omega (arith, r.freed_more a, s.freed_less a);
      used_same = λ a. omega (arith, r.used_less a, s.used_more a);
    }
