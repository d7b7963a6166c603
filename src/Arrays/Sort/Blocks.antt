-- ===== src/Arrays/Sort/Blocks.antt =====
-- The passes of `nlognSort` over runs of `span` elements.
use mathlib.Core.List.{Perm}
use c_cpp_sandbox.Common.{
  ℕ, suc, ◌+◌, ◌*◌, ◌≤◌, ◌<◌, Bool, some, List, [], ◌++◌, ◌≡◌, refl, sym, ap, ap₂, ◌∙◌, ◌⊎◌, inl,
  inr, arith, take, drop, length, length-append, take-append_exact, drop-append_exact, ltb_no,
  lt→ltb, drop-drop,
}
use c_cpp_sandbox.Arrays.{ArraySort}
use c_cpp_sandbox.Arrays.Merge.{nlognsort_merge}
use c_cpp_sandbox.Arrays.Merge.Runs.{merged}
use c_cpp_sandbox.Arrays.Merge.Rest.{nlognsort_merge-merged}
use c_cpp_sandbox.Arrays.Order.{IsSorted}
use c_cpp_sandbox.Arrays.Sort.{right_size, merge_at, sort_pass}

module _ {ℓ} {A : Type ℓ} (equal greater : A → A → Bool) (order : ArraySort) where
  -- Sorted runs of `span` elements, the last of which may be shorter.
  pub data Blocks (span : ℕ) : List A → Type ℓ where
    no_block : (l : List A) → l ≡ [] → Blocks span l
    block :
        (l run rest : List A)
        → l ≡ run ++ rest
        → 0 < length run
        → length run ≤ span
        → (length run ≡ span) ⊎ (rest ≡ [])
        → IsSorted equal greater order run
        → Blocks span rest
        → Blocks span l

  right_size-last :
      (i span size n : ℕ)
      → n ≤ span
      → size ≡ i + span + n
      → right_size equal greater order i span size ≡ n
  right_size-last i span size n le e = ground arith

  -- A pass at index `i` that has `pre` behind it and `l` in front of it.
  pub record Passed (fuel span i size : ℕ) (post pre l space l' space' : List A) : Type ℓ where
    pub runs :
        sort_pass equal greater order fuel i span size (pre ++ l ++ post) space
        ≡ some (pre ++ l' ++ post, space')
    pub same_space : length space' ≡ length space
    pub same_length : length l' ≡ length l
    pub doubled : Blocks (span * 2) l'
    pub perm : Perm l' l

  module _ (fuel span : ℕ) where
    pub pass_end :
        (i size : ℕ) (buf space : List A)
        → size ≤ i
        → sort_pass equal greater order (suc fuel) i span size buf space ≡ some (buf, space)
    unfolding sort_pass
    pass_end i size buf space h = rw (sort_pass, ltb_no i size h) refl

    pub pass_step :
        (i size : ℕ) (buf space buf' space' : List A)
        → i < size
        → merge_at equal greater order i span size buf space ≡ some (buf', space')
        → sort_pass equal greater order (suc fuel) i span size buf space
          ≡ sort_pass equal greater order fuel (i + 2 * span) span size buf' space'
    unfolding sort_pass
    pass_step i size buf space buf' space' h e = rw (sort_pass, lt→ltb i size h, e) refl

  merge_at_runs :
      (i span size n : ℕ) (buf space : List A)
      → i + span < size
      → right_size equal greater order i span size ≡ n
      → merge_at equal greater order i span size buf space
        ≡ nlognsort_merge equal greater order buf i span (i + span) n space
  unfolding merge_at
  merge_at_runs i span size n buf space h e = rw (merge_at, lt→ltb (i + span) size h, e) refl

  -- The merge of the runs `l1` and `l2` that follow `pre`.
  pub merge_at-merged :
      (span : ℕ) (pre l1 l2 rest space : List A) (size n : ℕ)
      → length l1 ≡ span
      → 0 < length l2
      → length l2 ≤ span
      → (length l2 ≡ span) ⊎ (n ≡ 0)
      → size ≡ length pre + (length l1 + (length l2 + n))
      → span ≤ length space
      → (space' : List A) × (merge_at equal greater order
            (length pre)
            span
            size
            (pre ++ (l1 ++ (l2 ++ rest)))
            space
          ≡ some (pre ++ merged equal greater order l1 l2 ++ rest, space'))
        × (length space' ≡ length space)
  unfolding merge_at
  merge_at-merged span pre l1 l2 rest space size n e1 pos le full es room =
      let buf = pre ++ (l1 ++ (l2 ++ rest)) in
      let n2 : right_size equal greater order (length pre) span size ≡ length l2 = elim full [
        | inl e ↦ rw (ltb_no size (length pre + span + span) (omega arith)) (sym e)
        | inr e ↦ right_size-last (length pre) span size (length l2) le (omega (arith, e))
      ] in
      let d1 = drop-append_exact pre (l1 ++ (l2 ++ rest)) (length pre) refl in
      let d2 : drop (length pre + span) buf ≡ l2 ++ rest =
        sym (drop-drop span (length pre) buf)
        ∙ ap (drop span) d1
        ∙ drop-append_exact l1 (l2 ++ rest) span (sym e1) in
      let d3 : drop (length pre + span + length l2) buf ≡ rest =
        sym (drop-drop (length l2) (length pre + span) buf)
        ∙ ap (drop (length l2)) d2
        ∙ drop-append_exact l2 rest (length l2) refl in
      let (space', run, same) =
        nlognsort_merge-merged equal greater order buf (length pre) span (length l2) space
          (omega (
            arith,
            length-append pre (l1 ++ (l2 ++ rest)),
            length-append l1 (l2 ++ rest),
            length-append l2 rest,
          ))
          room in
      (
        space',
        merge_at_runs (length pre) span size (length l2) buf space (omega arith) n2
            ∙ run
            ∙ ap₂ (λ m t. some (m ++ t, space'))
                (ap₂ ◌++◌ (take-append_exact pre (l1 ++ (l2 ++ rest)) (length pre) refl) (
                  ap₂ (merged equal greater order)
                    (ap (take span) d1 ∙ take-append_exact l1 (l2 ++ rest) span (sym e1))
                    (ap (take (length l2)) d2 ∙ take-append_exact l2 rest (length l2) refl)))
                d3,
        same,
      )

  Blocks-double :
      (span : ℕ) (run rest : List A)
      → 0 < length run
      → length run ≤ span * 2
      → (length run ≡ span * 2) ⊎ (rest ≡ [])
      → IsSorted equal greater order run
      → Blocks (span * 2) rest
      → Blocks (span * 2) (run ++ rest)
  Blocks-double span run rest h1 h2 h3 s b = block (run ++ rest) run rest refl h1 h2 h3 s b
