-- ===== src/Arrays/Sort/Spans.antt =====
-- `nlognSort` and `Array::sort` of lib/datastructures/array.h: the passes, with a span that doubles.
use mathlib.Core.List.{Perm}
use mathlib.Core.List.Perm
use c_cpp_sandbox.Common.{
  ℕ, zero, suc, ◌+◌, ◌*◌, ◌≤◌, ◌<◌, Bool, some, List, [], ◌∷◌, ◌++◌, ◌≡◌, refl, sym, ap, ◌∙◌, subst,
  inl, inr, arith, take, drop, length, length-append, append-nil, ltb_no, lt→ltb, le-cases,
  length-take, take-append-drop, take-append_exact, drop-append_exact,
}
use c_cpp_sandbox.Arrays.{ArraySort}
use c_cpp_sandbox.Arrays.Order.{IsOrder, IsSorted}
use c_cpp_sandbox.Arrays.Sort.{sort_pass, sort_spans}
use c_cpp_sandbox.Arrays.Sort.Blocks.{Blocks, no_block, block}
use c_cpp_sandbox.Arrays.Sort.Pass.{pass-Passed}

module _ {ℓ} {A : Type ℓ} (equal greater : A → A → Bool) (order : ArraySort) where
  -- Every list is made of runs of one element.
  singles : (l : List A) → Blocks equal greater order 1 l
  singles [] = no_block [] refl
  singles (x ∷ l) =
      block (x ∷ l) (x ∷ []) l refl (omega arith) (omega arith) (inl refl) (tt, tt) (singles l)

  -- One run that takes up everything.
  Blocks-IsSorted :
      (span : ℕ) (l : List A)
      → Blocks equal greater order span l
      → length l ≤ span
      → IsSorted equal greater order l
  Blocks-IsSorted span l (no_block _ e) h = subst (IsSorted equal greater order) (sym e) tt
  Blocks-IsSorted span l (block _ run [] e pos le full s b) h =
      subst (IsSorted equal greater order) (sym (e ∙ append-nil run)) s
  Blocks-IsSorted span l (block _ run (x ∷ r) e pos le (inl full) s b) h =
      absurd (omega (arith, ap length e, length-append run (x ∷ r)))
  Blocks-IsSorted span l (block _ run (x ∷ r) e pos le (inr full) s b) h =
      absurd (omega (arith, ap length full))

  -- `l` was rearranged into order.
  pub record Sorted (l l' : List A) : Type ℓ where
    pub same_length : length l' ≡ length l
    pub sorted : IsSorted equal greater order l'
    pub perm : Perm l' l

  module _ (o : IsOrder equal greater) (post : List A) (size slots : ℕ) (Span : ℕ → Type 0)
      (room : (span : ℕ) → Span span → span < size → span ≤ slots)
      (doubles : (span : ℕ) → Span span → Span (span * 2)) where
    spans_step :
        (fuel span : ℕ) (buf space buf' space' : List A)
        → span < size
        → sort_pass equal greater order (suc size) 0 span size buf space ≡ some (buf', space')
        → sort_spans equal greater order (suc fuel) span size buf space
          ≡ sort_spans equal greater order fuel (span * 2) size buf' space'
    unfolding sort_spans
    spans_step fuel span buf space buf' space' h e = rw (sort_spans, lt→ltb span size h, e) refl

    pub sort_spans-Sorted :
        (fuel span : ℕ) (l space : List A)
        → Span span
        → 0 < span
        → 1 ≤ fuel
        → size < fuel + span
        → length l ≡ size
        → length space ≡ slots
        → Blocks equal greater order span l
        → (l' : List A) × (sort_spans equal greater order fuel span size (l ++ post) space
            ≡ some (l' ++ post))
          × Sorted l l'
    unfolding sort_spans
    sort_spans-Sorted zero span l space p pos more enough el e b = absurd (omega arith)
    sort_spans-Sorted (suc fuel) span l space p pos more enough el e b = elim (le-cases size span) [
      | inl le ↦ (
        l,
        rw (sort_spans, ltb_no span size le) refl,
        record {
          same_length = refl;
          sorted = Blocks-IsSorted span l b (omega arith);
          perm = Perm.rfl;
        },
      )
      | inr lt ↦
          let (l1, space1, d) =
            pass-Passed equal greater order o span pos post (suc size) [] l space b
              (omega (arith, room span p lt)) (omega (arith, el)) in
          let (l2, run, r) =
            sort_spans-Sorted fuel (span * 2) l1 space1 (doubles span p) (omega arith) (omega arith)
              (omega arith) (d.same_length ∙ el) (d.same_space ∙ e) d.doubled in
          let first : sort_pass equal greater order (suc size) 0 span size (l ++ post) space
              ≡ some (l1 ++ post, space1) =
            ap (λ n. sort_pass equal greater order (suc size) 0 span n (l ++ post) space) {x = size}
              {y = 0 + length l} (omega arith)
            ∙ d.runs in
          (
            l2,
            spans_step fuel span (l ++ post) space (l1 ++ post) space1 lt first ∙ run,
            record {
              same_length = r.same_length ∙ d.same_length;
              sorted = r.sorted;
              perm = Perm.trans r.perm d.perm;
            },
          )
    ]

  -- The front of a buffer was rearranged into order, and the rest of it left alone.
  pub record FrontSorted (size : ℕ) (buf buf' : List A) : Type ℓ where
    pub same_length : length buf' ≡ length buf
    pub sorted : IsSorted equal greater order (take size buf')
    pub perm : Perm (take size buf') (take size buf)
    pub behind : drop size buf' ≡ drop size buf

  Sorted-FrontSorted :
      (size : ℕ) (buf l' : List A)
      → size ≤ length buf
      → Sorted (take size buf) l'
      → FrontSorted size buf (l' ++ drop size buf)
  Sorted-FrontSorted size buf l' le s =
      let el : length l' ≡ size = omega (arith, s.same_length, length-take size buf) in
      let front = take-append_exact l' (drop size buf) size (sym el) in
      record {
        same_length =
            length-append l' (drop size buf)
            ∙ omega (
              arith,
              s.same_length,
              ap length (take-append-drop size buf),
              length-append (take size buf) (drop size buf),
            );
        sorted = subst (IsSorted equal greater order) (sym front) s.sorted;
        perm = subst (λ m. Perm m (take size buf)) (sym front) s.perm;
        behind = drop-append_exact l' (drop size buf) size (sym el);
      }

  module _ (o : IsOrder equal greater) (size : ℕ) (buf space : List A)
      (inside : size ≤ length buf) where
    pub spans_run :
        (Span : ℕ → Type 0)
        → ((span : ℕ) → Span span → span < size → span ≤ length space)
        → ((span : ℕ) → Span span → Span (span * 2))
        → Span 1
        → (buf' : List A) × (sort_spans equal greater order (suc size) 1 size buf space ≡ some buf')
          × FrontSorted size buf buf'
    spans_run Span room doubles first =
        let (l', run, s) =
          sort_spans-Sorted o (drop size buf) size (length space) Span room doubles (suc size) 1
            (take size buf) space first (omega arith) (omega arith) (omega arith)
            (omega (arith, length-take size buf)) refl (singles (take size buf)) in
        (
          l' ++ drop size buf,
          ap (λ b. sort_spans equal greater order (suc size) 1 size b space)
                (sym (take-append-drop size buf))
              ∙ run,
          Sorted-FrontSorted size buf l' inside s,
        )
