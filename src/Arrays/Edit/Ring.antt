-- ===== src/Arrays/Edit/Ring.antt =====
-- The bucket of `insert` of `Array` in lib/datastructures/array.h: a ring of the elements that had
-- to make room, and what stands where in it during the loop.
use c_cpp_sandbox.Common.{
  ℕ, zero, suc, ◌+◌, ◌-◌, ◌≤◌, ◌<◌, Option, some, List, [], ◌∷◌, ◌++◌, ◌≡◌, refl, sym, ap, ap₂, ◌∙◌,
  inl, inr, arith, take, drop, length, get_elem?, put_ok, set_elem, append-nil, le-cases, take_all,
  ltb_no, lt→ltb,
}
use c_cpp_sandbox.Arrays.Edit.{Shifting, next_slot, source, shift_value, shift_out, shift_round}
use c_cpp_sandbox.Arrays.Edit.Gap.{source-drop}

pub next_slot_in : (num n : ℕ) → suc n < num → next_slot num n ≡ suc n
next_slot_in num n h = ground arith

pub next_slot_end : (num n : ℕ) → suc n ≡ num → next_slot num n ≡ 0
next_slot_end num n h = ground arith

pub next_slot_lt : (num n : ℕ) → n < num → next_slot num n < num
next_slot_lt num n h = ground arith

module _ {ℓ} {A : Type ℓ} where
  -- the ring, from `pop` round to it
  abbrev pub turned : ℕ → List A → List A
  turned pop b = drop pop b ++ take pop b

  pub drop_all : (b : List A) (n : ℕ) → length b ≤ n → drop n b ≡ []
  drop_all [] zero h = refl
  drop_all [] (suc n) h = refl
  drop_all (x ∷ b) zero h = absurd (omega arith)
  drop_all (x ∷ b) (suc n) h = drop_all b n (omega arith)

  pub turned-next_slot :
      (num n : ℕ) (b : List A)
      → length b ≡ num
      → n < num
      → turned (next_slot num n) b ≡ drop (suc n) b ++ take (suc n) b
  turned-next_slot num n b e h = elim (le-cases num (suc n)) [
    | inl le ↦
        ap (λ k. turned k b) (next_slot_end num n (omega arith))
        ∙ append-nil b
        ∙ ap₂ ◌++◌ (sym (drop_all b (suc n) (omega arith))) (sym (take_all b (suc n) (omega arith)))
    | inr lt ↦ ap (λ k. turned k b) (next_slot_in num n lt)
  ]

  module _ (old : Option (List A)) (pos : ℕ) (els : List A) (num size : ℕ) where
    -- the elements from `i` on
    abbrev pub behind : ℕ → Shifting A → List A
    behind i s = take (size - i) (drop i (source old s.new_buf))

    -- Where the loop stands at index `i`, and what it has still to write.
    pub data Phase (i : ℕ) (s : Shifting A) : List A → Type ℓ where
      -- a new element is written and an old one taken up
      filling :
          (rest : List A)
          → i < pos + num
          → i < size
          → s.bucket_pop ≡ 0
          → s.bucket_push ≡ i - pos
          → rest ≡ drop (i - pos) els ++ take (i - pos) s.bucket ++ behind i s
          → Phase i s rest
      -- a new element is written behind the last of the old
      waiting :
          (rest : List A)
          → i < pos + num
          → size ≤ i
          → s.bucket_pop ≡ 0
          → rest ≡ drop (i - pos) els ++ take (size - pos) s.bucket
          → Phase i s rest
      -- an old element is written and another taken up in its slot
      rotating :
          (rest : List A)
          → pos + num ≤ i
          → i < size
          → s.bucket_push ≡ s.bucket_pop
          → s.bucket_pop < num
          → rest ≡ turned s.bucket_pop s.bucket ++ behind i s
          → Phase i s rest
      -- the last old elements are written
      draining :
          (rest : List A)
          → pos + num ≤ i
          → size ≤ i
          → s.bucket_pop < num
          → rest ≡ take (size + num - i) (turned s.bucket_pop s.bucket)
          → Phase i s rest

    pub behind_none : (i : ℕ) (s : Shifting A) → size ≤ i → behind i s ≡ []
    behind_none i s h = ap (λ n. take n (drop i (source old s.new_buf))) {y = zero} (omega arith)

    -- A round that writes `x`.
    pub record Writes (i : ℕ) (s : Shifting A) (rest : List A) : Type ℓ where
      pub s' : Shifting A
      pub x : A
      pub rest' : List A
      pub runs : shift_round old pos els num size i s ≡ some s'
      pub writes : s'.new_buf ≡ set_elem s.new_buf i x
      pub first : rest ≡ x ∷ rest'
      pub same_bucket : length s'.bucket ≡ length s.bucket
      pub phase : Phase (suc i) s' rest'

    module _ (i : ℕ) (s : Shifting A) (start : pos ≤ size) (from : pos ≤ i) (el : length els ≡ num)
        (eb : length s.bucket ≡ num) (room : size + num ≤ length s.new_buf)
        (old_size : size ≤ length (source old s.new_buf)) where
      abbrev pub stepped : A → List A → ℕ → ℕ → Shifting A
      stepped x bucket push pop = record {
        new_buf = set_elem s.new_buf i x;
        bucket = bucket;
        bucket_push = push;
        bucket_pop = pop;
      }

      -- what is behind the next index after the write
      pub behind-stepped :
          (x : A) (b : List A) (push pop : ℕ)
          → behind (suc i) (stepped x b push pop)
            ≡ take (size - suc i) (drop (suc i) (source old s.new_buf))
      behind-stepped x b push pop =
          ap (take (size - suc i)) (source-drop old s.new_buf i (suc i) x (omega arith))

      pub round_runs :
          (x : A) (b : List A) (push pop : ℕ)
          → i < size + num
          → shift_value pos els num i s ≡ some (x, pop)
          → shift_out old size num i s ≡ some (b, push)
          → shift_round old pos els num size i s ≡ some (stepped x b push pop)
      unfolding shift_round
      round_runs x b push pop h e1 e2 =
          rw (shift_round, e1, e2, put_ok s.new_buf i x (omega arith)) refl

      pub value_new :
          (x : A)
          → i < pos + num
          → get_elem? els (i - pos) ≡ some x
          → shift_value pos els num i s ≡ some (x, s.bucket_pop)
      unfolding shift_value
      value_new x h e = rw (shift_value, lt→ltb i (pos + num) h, e) refl

      pub value_old :
          (x : A)
          → pos + num ≤ i
          → get_elem? s.bucket s.bucket_pop ≡ some x
          → shift_value pos els num i s ≡ some (x, next_slot num s.bucket_pop)
      unfolding shift_value
      value_old x h e = rw (shift_value, ltb_no i (pos + num) h, e) refl

      pub out_none : size ≤ i → shift_out old size num i s ≡ some (s.bucket, s.bucket_push)
      unfolding shift_out
      out_none h = rw (shift_out, ltb_no i size h) refl

      pub out_some :
          (x : A)
          → i < size
          → s.bucket_push < num
          → get_elem? (source old s.new_buf) i ≡ some x
          → shift_out old size num i s
            ≡ some (set_elem s.bucket s.bucket_push x, next_slot num s.bucket_push)
      unfolding shift_out
      out_some x h lt e =
          rw (shift_out, lt→ltb i size h, e, put_ok s.bucket s.bucket_push x (omega (arith, eb)))
            refl
