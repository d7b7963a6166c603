-- ===== src/Arrays/Merge/LeftLoop.antt =====
-- The first loop of `nlognsortMerge`.
use c_cpp_sandbox.Common.{
  ℕ, zero, suc, ◌+◌, ◌-◌, ◌≤◌, Bool, some, List, ◌≡◌, refl, ap, ◌∙◌, arith, length,
}
use c_cpp_sandbox.Arrays.{ArraySort}
use c_cpp_sandbox.Arrays.Merge.{Merging, left_loop}
use c_cpp_sandbox.Arrays.Merge.Swap.{InBounds, outcome}
use c_cpp_sandbox.Arrays.Merge.Left.{left_round-Keeps}

module _ {ℓ} {A : Type ℓ} (equal greater : A → A → Bool) (order : ArraySort)
    (a size_a size_b : ℕ) where
  abbrev out : Merging A → List A
  out = outcome equal greater order a size_a size_b

  -- Where the first loop ends.
  pub record LeftDone (m m' : Merging A) : Type ℓ where
    pub loop : left_loop equal greater order (size_a - m.i) a (a + size_a) size_b m ≡ some m'
    pub bounds : InBounds a size_a size_b m'
    pub all : m'.i ≡ size_a
    pub same_space : length m'.swap_space ≡ length m.swap_space
    pub keeps : out m' ≡ out m

  left_loop-go :
      (rounds : ℕ) (m : Merging A)
      → rounds + m.i ≡ size_a
      → InBounds a size_a size_b m
      → (m' : Merging A) × LeftDone m m'
  unfolding left_loop
  left_loop-go zero m e h = (
    m,
    record {
      loop =
          ap (λ n. left_loop equal greater order n a (a + size_a) size_b m) {y = zero}
            (omega arith);
      bounds = h;
      all = omega arith;
      same_space = refl;
      keeps = refl;
    },
  )
  left_loop-go (suc rounds) m e h =
      let (m1, k) = left_round-Keeps equal greater order a size_a size_b m h (omega arith) in
      let (m2, d) = left_loop-go rounds m1 (omega (arith, k.next)) k.bounds in
      (
        m2,
        record {
          loop =
              ap (λ n. left_loop equal greater order n a (a + size_a) size_b m)
                {y = suc (size_a - m1.i)} (omega (arith, k.next))
              ∙ ground (arith, k.runs, d.loop);
          bounds = d.bounds;
          all = d.all;
          same_space = d.same_space ∙ k.same_space;
          keeps = d.keeps ∙ k.keeps;
        },
      )

  pub left_loop-LeftDone :
      (m : Merging A) → m.i ≤ size_a → InBounds a size_a size_b m → (m' : Merging A) × LeftDone m m'
  left_loop-LeftDone m le h = left_loop-go (size_a - m.i) m (omega arith) h
