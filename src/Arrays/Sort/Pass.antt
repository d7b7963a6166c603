-- ===== src/Arrays/Sort/Pass.antt =====
-- One pass of `nlognSort` over runs of `span` elements.
use mathlib.Core.List.{Perm}
use mathlib.Core.List.Perm
use c_cpp_sandbox.Common.{
  ℕ, zero, suc, ◌+◌, ◌*◌, ◌≤◌, ◌<◌, Bool, some, List, [], ◌∷◌, ◌++◌, ◌≡◌, refl, sym, ap, ◌∙◌, subst,
  ◌⊎◌, inl, inr, arith, length, length-append, append_assoc, append-nil, ltb_no,
}
use c_cpp_sandbox.Arrays.{ArraySort}
use c_cpp_sandbox.Arrays.Merge.Runs.{merged}
use c_cpp_sandbox.Arrays.Order.{IsOrder, IsSorted, merged-IsSorted, merged-perm, length-merged}
use c_cpp_sandbox.Arrays.Sort.{merge_at}
use c_cpp_sandbox.Arrays.Sort.Blocks.{
  Blocks, no_block, block, Passed, pass_end, pass_step, merge_at-merged,
}

module _ {ℓ} {A : Type ℓ} (equal greater : A → A → Bool) (order : ArraySort) where
  empty_of : (l : List A) → length l ≡ 0 → l ≡ []
  empty_of [] e = refl
  empty_of (x ∷ l) e = absurd (omega arith)

  lengths_of :
      (run run2 rest pre m : List A)
      → length m ≡ length run + length run2
      → (length (run ++ (run2 ++ rest)) ≡ length run + length run2 + length rest)
        × (length (pre ++ m) ≡ length pre + length run + length run2)
  lengths_of run run2 rest pre m e = (
    omega (arith, length-append run (run2 ++ rest), length-append run2 rest),
    omega (arith, length-append pre m),
  )

  module _ (o : IsOrder equal greater) (span : ℕ) (some_span : 0 < span) (post : List A) where
    abbrev Continues : (fuel i size : ℕ) (pre l : List A) → ℕ → Type ℓ
    Continues fuel i size pre l slots =
        (space : List A)
        → length space ≡ slots
        → (l' : List A) × (space' : List A) × Passed equal greater order fuel span i size post pre l
            space l' space'

    -- A single run, with nothing behind it.
    pass_single :
        (fuel : ℕ) (pre run space : List A)
        → length run ≤ span
        → 0 < length run
        → 1 ≤ fuel
        → IsSorted equal greater order run
        → Passed equal greater order
            (suc fuel)
            span
            (length pre)
            (length pre + length run)
            post
            pre
            run
            space
            run
            space
    unfolding merge_at
    pass_single zero pre run space le pos more s = absurd (omega arith)
    pass_single (suc fuel) pre run space le pos more s = record {
      runs =
          pass_step equal greater order (suc fuel) span (length pre) _ (pre ++ run ++ post) space
            (pre ++ run ++ post) space (omega arith)
            (rw (merge_at, ltb_no (length pre + span) (length pre + length run) (omega arith)) refl)
          ∙ pass_end equal greater order fuel span (length pre + 2 * span) (length pre + length run)
              (pre ++ run ++ post) space (omega arith);
      same_space = refl;
      same_length = refl;
      doubled =
          block run run [] (sym (append-nil run)) pos (omega arith) (inr refl) s (no_block [] refl);
      perm = Perm.rfl;
    }

    -- Two runs, and a rest that passes by itself.
    pass_pair :
        (fuel : ℕ) (pre l1 l2 rest space : List A)
        → Continues fuel
            (length pre + 2 * span)
            (length pre + length (l1 ++ (l2 ++ rest)))
            (pre ++ merged equal greater order l1 l2)
            rest
            (length space)
        → length l1 ≡ span
        → 0 < length l2
        → length l2 ≤ span
        → (length l2 ≡ span) ⊎ (rest ≡ [])
        → IsSorted equal greater order l1
        → IsSorted equal greater order l2
        → span ≤ length space
        → (l' : List A) × (space' : List A) × Passed equal greater order
            (suc fuel)
            span
            (length pre)
            (length pre + length (l1 ++ (l2 ++ rest)))
            post
            pre
            (l1 ++ (l2 ++ rest))
            space
            l'
            space'
    pass_pair fuel pre l1 l2 rest space go_on e1 pos le full s1 s2 room =
        let m = merged equal greater order l1 l2 in
        let em = length-merged equal greater order l1 l2 in
        let size = length pre + length (l1 ++ (l2 ++ rest)) in
        let el : length (l1 ++ (l2 ++ rest)) ≡ length l1 + (length l2 + length rest) =
          omega (arith, length-append l1 (l2 ++ rest), length-append l2 rest) in
        let (space1, run1, same1) =
          merge_at-merged equal greater order span pre l1 l2 (rest ++ post) space size (length rest)
            e1 pos le (elim full [ inl e ↦ inl e | inr e ↦ inr (ap length e) ]) (omega (arith, el))
            room in
        let (rest', space2, d) = go_on space1 same1 in
        (
          m ++ rest',
          space2,
          record {
            runs =
                pass_step equal greater order fuel span (length pre) size
                  (pre ++ (l1 ++ (l2 ++ rest)) ++ post) space (pre ++ m ++ rest ++ post) space1
                  (omega (arith, el, pos))
                  (ap (λ l. merge_at equal greater order (length pre) span size l space)
                      (simp append_assoc)
                    ∙ run1
                    ∙ ap (λ l. some (l, space1)) (sym (append_assoc (pre ++ m) rest post)))
                ∙ d.runs
                ∙ ap (λ l. some (l ++ post, space2)) (append_assoc pre m rest');
            same_space = d.same_space ∙ same1;
            same_length = length-append m rest' ∙ omega (arith, d.same_length, em, el);
            doubled =
                block (m ++ rest') m rest' refl (omega (arith, em, pos)) (omega (arith, em, e1, le))
                  (elim full [
                    | inl e2 ↦ inl (omega (arith, em, e1, e2))
                    | inr e2 ↦ inr (empty_of rest' (omega (arith, d.same_length, ap length e2)))
                  ])
                  (merged-IsSorted equal greater order o l1 l2 s1 s2) d.doubled;
            perm =
                subst (Perm (m ++ rest')) (append_assoc l1 l2 rest)
                  (Perm.append (merged-perm equal greater order l1 l2) d.perm);
          },
        )

    -- The end of the array is reached.
    pass_nothing :
        (fuel i size : ℕ) (pre l space : List A)
        → l ≡ []
        → size ≤ i
        → 1 ≤ fuel
        → Passed equal greater order fuel span i size post pre l space l space
    pass_nothing zero i size pre l space e h more = absurd (omega arith)
    pass_nothing (suc fuel) i size pre l space e h more = record {
      runs = pass_end equal greater order fuel span i size (pre ++ l ++ post) space h;
      same_space = refl;
      same_length = refl;
      doubled = no_block l e;
      perm = Perm.rfl;
    }

    moved :
        (fuel i j m n : ℕ) (pre l space : List A)
        → i ≡ j
        → m ≡ n
        → (l' : List A) × (space' : List A) × Passed equal greater order fuel span i m post pre l
            space l' space'
        → (l' : List A) × (space' : List A) × Passed equal greater order fuel span j n post pre l
            space l' space'
    moved fuel i j m n pre l space e1 e2 h =
        subst
          (λ k.
            (l' : List A) × (s : List A) × Passed equal greater order fuel span k n post pre l space
              l' s)
          e1
          (subst
            (λ k.
              (l' : List A) × (s : List A) × Passed equal greater order fuel span i k post pre l
                space l' s)
            e2 h)

    pub pass-Passed :
        (fuel : ℕ) (pre l space : List A)
        → Blocks equal greater order span l
        → span ≤ length space
        → length l < fuel
        → (l' : List A) × (space' : List A) × Passed equal greater order fuel span
            (length pre)
            (length pre + length l)
            post
            pre
            l
            space
            l'
            space'
    pass-Passed fuel pre l space (no_block _ e) room enough =
        (l, space, pass_nothing fuel _ _ pre l space e (omega (arith, ap length e)) (omega arith))
    pass-Passed zero pre l space (block _ _ _ _ _ _ _ _ _) room enough = absurd (omega arith)
    pass-Passed (suc fuel) pre l space (block _ run rest e pos le full s (no_block _ e0)) room
          enough =
        let single : l ≡ run = e ∙ ap (λ r. run ++ r) e0 ∙ append-nil run in
        subst
          (λ w.
            (l' : List A) × (s : List A) × Passed equal greater order (suc fuel) span (length pre)
              (length pre + length w) post pre w space l' s)
          (sym single)
          (run, space, pass_single fuel pre run space le pos (omega (arith, ap length single)) s)
    pass-Passed (suc fuel) pre l space
          (block _ run rest e pos le full s (block _ run2 rest2 e2 pos2 le2 full2 s2 b)) room
          enough =
        let both : l ≡ run ++ (run2 ++ rest2) = e ∙ ap (λ r. run ++ r) e2 in
        let m = merged equal greater order run run2 in
        let lengths =
          lengths_of run run2 rest2 pre m (length-merged equal greater order run run2) in
        let whole : length run ≡ span = elim full [
          | inl x ↦ x
          | inr x ↦ absurd (omega (arith, ap length (sym e2 ∙ x), length-append run2 rest2))
        ] in
        subst
          (λ w.
            (l' : List A) × (s : List A) × Passed equal greater order (suc fuel) span (length pre)
              (length pre + length w) post pre w space l' s)
          (sym both)
          (pass_pair fuel pre run run2 rest2 space
            (λ space1 same1. elim full2 [
              | inl x ↦
                  moved fuel _ _ _ _ (pre ++ m) rest2 space1 (omega (arith, lengths, whole, x))
                    (omega (arith, lengths))
                    (pass-Passed fuel (pre ++ m) rest2 space1 b (omega (arith, same1))
                      (omega (arith, ap length both, lengths)))
              | inr x ↦ (
                rest2,
                space1,
                pass_nothing fuel _ _ (pre ++ m) rest2 space1 x
                    (omega (arith, lengths, whole, ap length x))
                    (omega (arith, ap length both, lengths, pos)),
              )
            ])
            whole pos2 le2 full2 s s2 room)
