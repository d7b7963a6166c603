-- ===== src/Memory/Heap/Pop.antt =====
-- What `memoryHeapPop` finds: the condition holds of it, and of no node when nothing is found.
use c_cpp_sandbox.Common.{
  ℕ, ◌≤◌, ◌≡◌, refl, sym, ap, subst, ◌∙◌, ltb, ◌⊎◌, inl, inr, Bool, Bool-cases, true, false, none,
  some, List, [], ◌∷◌, arith, All,
}
use c_cpp_sandbox.Memory.Heap.{MemoryHeapNode, memory_heap_push, memory_heap_pop}
use c_cpp_sandbox.Memory.Heap.Cover.{hit, cover}

-- `n` is one of the nodes of the list
abbrev pub Holds : MemoryHeapNode → List MemoryHeapNode → Type 0
Holds n [] = ⊥
Holds n (x ∷ l) = (x ≡ n) ⊎ Holds n l

pub push-Holds :
    {n k : MemoryHeapNode} (l : List MemoryHeapNode) → n ≡ k → Holds k (memory_heap_push n l)
unfolding memory_heap_push
push-Holds [] e = inl e
push-Holds {n} (x ∷ l) e = elim (Bool-cases (ltb n.block_size x.block_size)) [
  | inl smaller ↦ rw smaller (inl e)
  | inr larger ↦ rw larger (inr (push-Holds l e))
]

pub Holds-hit :
    (a : ℕ) (n : MemoryHeapNode) (l : List MemoryHeapNode) → Holds n l → hit a n ≤ cover a l
Holds-hit a n [] h = absurd h
Holds-hit a n (x ∷ l) (inl e) = rw e (omega arith)
Holds-hit a n (x ∷ l) (inr h) = omega (arith, Holds-hit a n l h)

pub Holds-All :
    (P : MemoryHeapNode → Type 0) {n : MemoryHeapNode} (l : List MemoryHeapNode)
    → All P l
    → Holds n l
    → P n
Holds-All P [] p h = absurd h
Holds-All P (x ∷ l) p (inl e) = subst P e p.0
Holds-All P (x ∷ l) p (inr h) = Holds-All P l p.1 h

-- Two nodes of a list that share an address which is held once are one node.
pub Holds-unique :
    (a : ℕ) (n k : MemoryHeapNode) (l : List MemoryHeapNode)
    → cover a l ≤ 1
    → hit a n ≡ 1
    → hit a k ≡ 1
    → Holds n l
    → Holds k l
    → n ≡ k
Holds-unique a n k [] once hn hk p q = absurd p
Holds-unique a n k (x ∷ l) once hn hk (inl e) (inl e') = sym e ∙ e'
Holds-unique a n k (x ∷ l) once hn hk (inl e) (inr q) =
    absurd (omega (arith, Holds-hit a k l q, ap (hit a) e))
Holds-unique a n k (x ∷ l) once hn hk (inr p) (inl e) =
    absurd (omega (arith, Holds-hit a n l p, ap (hit a) e))
Holds-unique a n k (x ∷ l) once hn hk (inr p) (inr q) = Holds-unique a n k l (omega arith) hn hk p q

module _ (c : MemoryHeapNode → Bool) where
  pub found_meets :
      (l : List MemoryHeapNode) {n : MemoryHeapNode} → (memory_heap_pop c l).0 ≡ some n → c n ≡ true
  unfolding memory_heap_pop
  found_meets [] e = ground arith
  found_meets (x ∷ l) {n} e = ground (arith, found_meets l {n = n})

  pub not_found :
      (l : List MemoryHeapNode)
      → (memory_heap_pop c l).0 ≡ none
      → All (λ x. c x ≡ false) l × ((memory_heap_pop c l).1 ≡ l)
  unfolding memory_heap_pop
  not_found [] e = (tt, refl)
  not_found (x ∷ l) e = ground (arith, not_found l)

  -- Where no node meets the condition nothing is found.
  pub none_of_All :
      (l : List MemoryHeapNode) → All (λ x. c x ≡ false) l → (memory_heap_pop c l).0 ≡ none
  unfolding memory_heap_pop
  none_of_All [] h = refl
  none_of_All (x ∷ l) h = ground (arith, none_of_All l h.1)

  pub found-Holds :
      (l : List MemoryHeapNode) {n : MemoryHeapNode} → (memory_heap_pop c l).0 ≡ some n → Holds n l
  unfolding memory_heap_pop
  found-Holds [] e = ground arith
  found-Holds (x ∷ l) {n} e = elim (Bool-cases (c x)) [
    | inl hit ↦ inl (ground arith)
    | inr miss ↦ inr (found-Holds l (ground arith))
  ]
