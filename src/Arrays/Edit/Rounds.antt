-- ===== src/Arrays/Edit/Rounds.antt =====
-- The rounds of the loop of `insert` of `Array` in lib/datastructures/array.h, one for each phase.
use c_cpp_sandbox.Common.{
  ℕ, suc, ◌+◌, ◌-◌, ◌≤◌, ◌<◌, Option, some, List, [], ◌∷◌, ◌++◌, ◌≡◌, refl, sym, ap, ap₂, ◌∙◌, inl,
  inr, arith, take, drop, length, get_elem?, set_elem, length-set_elem, take-set_elem,
  drop-set_elem, element_at, slice_suc, append_assoc, append-nil, le-cases, take_all,
  take-append_le, length-append, length-take, length-drop, take-suc,
}
use c_cpp_sandbox.Arrays.Edit.{Shifting, next_slot, source}
use c_cpp_sandbox.Arrays.Edit.Ring.{
  next_slot_in, next_slot_end, next_slot_lt, turned, drop_all, turned-next_slot, behind, Phase,
  filling, waiting, rotating, draining, behind_none, Writes, stepped, behind-stepped, round_runs,
  value_new, value_old, out_none, out_some,
}

module _ {ℓ} {A : Type ℓ} (old : Option (List A)) (pos : ℕ) (els : List A) (num size : ℕ) where
  shuffle : (d t : List A) (o : A) (l : List A) → d ++ t ++ (o ∷ l) ≡ d ++ (t ++ (o ∷ [])) ++ l
  shuffle d t o l = simp append_assoc

  length-turned : (b : List A) (n : ℕ) → n ≤ length b → length (turned n b) ≡ length b
  length-turned b n h =
      omega (arith, length-append (drop n b) (take n b), length-drop n b, length-take n b)

  -- The phase in which the next index finds itself while new elements are left.
  pub still_new :
      (i : ℕ) (s : Shifting A) (rest : List A)
      → i < pos + num
      → i ≤ size
      → s.bucket_pop ≡ 0
      → s.bucket_push ≡ i - pos
      → rest ≡ drop (i - pos) els ++ take (i - pos) s.bucket ++ behind old pos els num size i s
      → Phase old pos els num size i s rest
  still_new i s rest h1 h2 h3 h4 e = elim (le-cases size i) [
    | inl le ↦ waiting rest h1 le h3 (
        e
        ∙ ap₂ (λ n l. drop (i - pos) els ++ take n s.bucket ++ l) {y = size - pos} (omega arith)
            (behind_none old pos els num size i s le)
        ∙ append-nil _)
    | inr lt ↦ filling rest h1 lt h3 h4 e
  ]

  -- The phase in which it finds itself when the ring is full.
  still_old :
      (i : ℕ) (s : Shifting A) (rest : List A)
      → pos + num ≤ i
      → i ≤ size
      → s.bucket_push ≡ s.bucket_pop
      → s.bucket_pop < num
      → length s.bucket ≡ num
      → rest ≡ turned s.bucket_pop s.bucket ++ behind old pos els num size i s
      → Phase old pos els num size i s rest
  still_old i s rest h1 h2 h3 h4 eb e = elim (le-cases size i) [
    | inl le ↦ draining rest h1 le h4 (
        e
        ∙ ap (λ l. turned s.bucket_pop s.bucket ++ l) (behind_none old pos els num size i s le)
        ∙ append-nil _
        ∙ sym (
            take_all (turned s.bucket_pop s.bucket) (size + num - i)
              (omega (arith, length-turned s.bucket s.bucket_pop, eb))))
    | inr lt ↦ rotating rest h1 lt h3 h4 e
  ]

  module _ (i : ℕ) (s : Shifting A) (start : pos ≤ size) (from : pos ≤ i) (el : length els ≡ num)
      (eb : length s.bucket ≡ num) (room : size + num ≤ length s.new_buf)
      (old_size : size ≤ length (source old s.new_buf)) where
    -- What is behind `i` begins with the element at `i`.
    behind_first :
        i < size
        → (x : A) × (get_elem? (source old s.new_buf) i ≡ some x)
          × (behind old pos els num size i s
              ≡ x ∷ take (size - suc i) (drop (suc i) (source old s.new_buf)))
    behind_first h =
        let src = source old s.new_buf in
        let (x, got, e) = element_at src i (omega arith) in
        (
          x,
          got,
          ap (λ n. take n (drop i src)) {y = suc (size - suc i)} (omega arith)
              ∙ slice_suc src i (size - suc i) x e,
        )

    new_first :
        i < pos + num
        → (x : A) × (get_elem? els (i - pos) ≡ some x)
          × (drop (i - pos) els ≡ x ∷ drop (suc i - pos) els)
    new_first h =
        let (x, got, e) = element_at els (i - pos) (omega (arith, el)) in
        (x, got, e ∙ ap (λ n. x ∷ drop n els) {x = suc (i - pos)} (omega arith))

    abbrev st : A → List A → ℕ → ℕ → Shifting A
    st = stepped old pos els num size i s start from el eb room old_size

    round_waiting :
        (rest : List A)
        → i < pos + num
        → size ≤ i
        → s.bucket_pop ≡ 0
        → rest ≡ drop (i - pos) els ++ take (size - pos) s.bucket
        → Writes old pos els num size i s rest
    round_waiting rest h1 h2 h3 e =
        let (x, got, first) = new_first h1 in
        let s1 = st x s.bucket s.bucket_push s.bucket_pop in
        let rest1 = drop (suc i - pos) els ++ take (size - pos) s.bucket in
        record {
          s' = s1;
          x = x;
          rest' = rest1;
          runs =
              round_runs old pos els num size i s start from el eb room old_size x _ _ _
                (omega arith)
                (value_new old pos els num size i s start from el eb room old_size x h1 got)
                (out_none old pos els num size i s start from el eb room old_size h2);
          writes = refl;
          first = e ∙ ap (λ l. l ++ take (size - pos) s.bucket) first;
          same_bucket = refl;
          phase = elim (le-cases (pos + num) (suc i)) [
            | inl le ↦ draining rest1 le (omega arith) (omega arith) (
                ap₂ ◌++◌ (drop_all els (suc i - pos) (omega (arith, el))) (
                  ap₂ take {x = size - pos} {y = size + num - suc i} (omega arith)
                    (sym (append-nil s.bucket)))
                ∙ ap (λ n. take (size + num - suc i) (turned n s.bucket)) (sym h3))
            | inr lt ↦ waiting rest1 lt (omega arith) h3 refl
          ];
        }

    round_filling :
        (rest : List A)
        → i < pos + num
        → i < size
        → s.bucket_pop ≡ 0
        → s.bucket_push ≡ i - pos
        → rest ≡ drop (i - pos) els ++ take (i - pos) s.bucket ++ behind old pos els num size i s
        → Writes old pos els num size i s rest
    round_filling rest h1 h2 h3 h4 e =
        let (x, got, first) = new_first h1 in
        let (o, got_o, first_o) = behind_first h2 in
        let b = set_elem s.bucket s.bucket_push o in
        let s1 = st x b (next_slot num s.bucket_push) s.bucket_pop in
        let t = take (i - pos) s.bucket in
        let later = take (size - suc i) (drop (suc i) (source old s.new_buf)) in
        let rest1 = drop (suc i - pos) els ++ t ++ (o ∷ later) in
        let same : later ≡ behind old pos els num size (suc i) s1 = sym (
          behind-stepped old pos els num size i s start from el eb room old_size x b
            (next_slot num s.bucket_push) s.bucket_pop) in
        let taken : take (suc s.bucket_push) b ≡ t ++ (o ∷ []) =
          take-set_elem s.bucket s.bucket_push o (omega (arith, h4, eb))
          ∙ ap (λ n. take n s.bucket ++ (o ∷ [])) h4 in
        record {
          s' = s1;
          x = x;
          rest' = rest1;
          runs =
              round_runs old pos els num size i s start from el eb room old_size x _ _ _
                (omega arith)
                (value_new old pos els num size i s start from el eb room old_size x h1 got)
                (out_some old pos els num size i s start from el eb room old_size o h2
                  (omega (arith, h4)) got_o);
          writes = refl;
          first = e ∙ ap₂ (λ d l. d ++ t ++ l) first first_o;
          same_bucket = length-set_elem s.bucket s.bucket_push o;
          phase = elim (le-cases (pos + num) (suc i)) [
            | inl le ↦
                still_old (suc i) s1 rest1 le h2
                  (next_slot_end num s.bucket_push (omega (arith, h4)) ∙ sym h3) (omega (arith, h3))
                  (length-set_elem s.bucket s.bucket_push o ∙ eb)
                  (ap₂ (λ d l. d ++ t ++ (o ∷ l)) (drop_all els (suc i - pos) (omega (arith, el)))
                      same
                    ∙ sym (append_assoc t (o ∷ []) _)
                    ∙ ap (λ l. l ++ behind old pos els num size (suc i) s1)
                        (sym taken
                          ∙ take_all b (suc s.bucket_push)
                              (omega (arith, length-set_elem s.bucket s.bucket_push o, eb, h4))
                          ∙ sym (append-nil b)
                          ∙ ap (λ n. turned n b) (sym h3)))
            | inr lt ↦
                still_new (suc i) s1 rest1 lt h2 h3
                  (next_slot_in num s.bucket_push (omega (arith, h4)) ∙ omega (arith, h4))
                  (shuffle (drop (suc i - pos) els) t o later
                    ∙ ap₂ (λ m l. drop (suc i - pos) els ++ m ++ l)
                        (sym taken ∙ ap (λ n. take n b) {x = suc s.bucket_push} (omega (arith, h4)))
                        same)
          ];
        }

    round_rotating :
        (rest : List A)
        → pos + num ≤ i
        → i < size
        → s.bucket_push ≡ s.bucket_pop
        → s.bucket_pop < num
        → rest ≡ turned s.bucket_pop s.bucket ++ behind old pos els num size i s
        → Writes old pos els num size i s rest
    round_rotating rest h1 h2 h3 h4 e =
        let n = s.bucket_pop in
        let (x, got, first) = element_at s.bucket n (omega (arith, eb)) in
        let (o, got_o, first_o) = behind_first h2 in
        let b = set_elem s.bucket s.bucket_push o in
        let s1 = st x b (next_slot num s.bucket_push) (next_slot num n) in
        let later = take (size - suc i) (drop (suc i) (source old s.new_buf)) in
        let rest1 = drop (suc n) s.bucket ++ take n s.bucket ++ (o ∷ later) in
        let same : later ≡ behind old pos els num size (suc i) s1 = sym (
          behind-stepped old pos els num size i s start from el eb room old_size x b
            (next_slot num s.bucket_push) (next_slot num n)) in
        record {
          s' = s1;
          x = x;
          rest' = rest1;
          runs =
              round_runs old pos els num size i s start from el eb room old_size x _ _ _
                (omega arith)
                (value_old old pos els num size i s start from el eb room old_size x h1 got)
                (out_some old pos els num size i s start from el eb room old_size o h2
                  (omega (arith, h3)) got_o);
          writes = refl;
          first = e ∙ ap₂ (λ d l. d ++ take n s.bucket ++ l) first first_o;
          same_bucket = length-set_elem s.bucket s.bucket_push o;
          phase =
              still_old (suc i) s1 rest1 (omega arith) h2 (ap (next_slot num) h3)
                (next_slot_lt num n h4) (length-set_elem s.bucket s.bucket_push o ∙ eb)
                (shuffle (drop (suc n) s.bucket) (take n s.bucket) o later
                  ∙ ap₂ ◌++◌
                      (ap₂ ◌++◌
                          (sym (drop-set_elem s.bucket (suc n) s.bucket_push o (omega (arith, h3))))
                          (sym (
                            ap (λ m. take (suc n) (set_elem s.bucket m o)) h3
                            ∙ take-set_elem s.bucket n o (omega (arith, eb))))
                        ∙ sym (
                            turned-next_slot num n b (length-set_elem s.bucket s.bucket_push o ∙ eb)
                              h4))
                      same);
        }

    round_draining :
        (rest : List A)
        → pos + num ≤ i
        → size ≤ i
        → i < size + num
        → s.bucket_pop < num
        → rest ≡ take (size + num - i) (turned s.bucket_pop s.bucket)
        → Writes old pos els num size i s rest
    round_draining rest h1 h2 h3 h4 e =
        let n = s.bucket_pop in
        let (x, got, first) = element_at s.bucket n (omega (arith, eb)) in
        let s1 = st x s.bucket s.bucket_push (next_slot num n) in
        let q = size + num - suc i in
        let d = drop (suc n) s.bucket in
        let t = take n s.bucket in
        let short : q ≤ length (d ++ t) =
          omega
            (arith, length-append d t, length-drop (suc n) s.bucket, length-take n s.bucket, eb) in
        record {
          s' = s1;
          x = x;
          rest' = take q (turned (next_slot num n) s.bucket);
          runs =
              round_runs old pos els num size i s start from el eb room old_size x _ _ _ h3
                (value_old old pos els num size i s start from el eb room old_size x h1 got)
                (out_none old pos els num size i s start from el eb room old_size h2);
          writes = refl;
          first =
              e
              ∙ ap₂ (λ m l. take m (l ++ t)) {y = suc q} (omega arith) first
              ∙ ap (λ l. x ∷ l)
                  (sym (take-append_le (d ++ t) (x ∷ []) q short)
                    ∙ ap (take q) (
                        append_assoc d t (x ∷ [])
                        ∙ ap (λ l. d ++ l) (sym (take-suc s.bucket n x got))
                        ∙ sym (turned-next_slot num n s.bucket eb h4)));
          same_bucket = refl;
          phase =
              draining (take q (turned (next_slot num n) s.bucket)) (omega arith) (omega arith)
                (next_slot_lt num n h4) refl;
        }

    pub round-Writes :
        (rest : List A)
        → i < size + num
        → Phase old pos els num size i s rest
        → Writes old pos els num size i s rest
    round-Writes rest h (filling _ h1 h2 h3 h4 e) = round_filling rest h1 h2 h3 h4 e
    round-Writes rest h (waiting _ h1 h2 h3 e) = round_waiting rest h1 h2 h3 e
    round-Writes rest h (rotating _ h1 h2 h3 h4 e) = round_rotating rest h1 h2 h3 h4 e
    round-Writes rest h (draining _ h1 h2 h3 e) = round_draining rest h1 h2 h h3 e
