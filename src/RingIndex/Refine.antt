-- ===== src/RingIndex/Refine.antt =====
-- The operations of lib/ringindex.h on valid indices behave as a bounded queue of slots.
use c_cpp_sandbox.Common.{
  ℕ, zero, suc, ◌+◌, ◌-◌, ◌≤◌, ◌<◌, ◌≡◌, refl, sym, ap, ap₂, ◌∙◌, [], ◌∷◌, ◌++◌, arith, length,
}
use c_cpp_sandbox.RingIndex.{SArray, next_index, s_array_add, s_array_remove, s_array_size}
use c_cpp_sandbox.RingIndex.Slots.{
  IsValid, slots, count, contents, length-slots, rest, slot_at, slots-suc, slot_at-eq,
}

contents-at : (r : SArray) (n : ℕ) → count r ≡ n → contents r ≡ slots r.cap r.pop n
contents-at r n e = ap (slots r.cap r.pop) e

cap-remove : (r : SArray) → (s_array_remove r).cap ≡ r.cap
unfolding s_array_remove
cap-remove r = ground arith

module _ {r : SArray} (v : IsValid r) where
  -- For valid indices `sArraySize` is the number of slots in use.
  pub size-length : s_array_size r ≡ length (contents r)
  unfolding s_array_size
  size-length = ground (arith, length-slots r.cap r.pop (count r), v.push_in, v.pop_in, v.small)

  count-le : count r ≤ r.cap
  count-le = ground (arith, v.push_in, v.pop_in)

  -- The slot that `push` names is the last one in use.
  push-slot_at : slot_at r.cap r.pop (count r) ≡ r.push
  push-slot_at = ground (arith, slot_at-eq r.cap r.pop (count r), v.push_in, v.pop_in, v.small)

  remove-IsValid : IsValid (s_array_remove r)
  unfolding s_array_remove
  remove-IsValid = ground (arith, v.push_in, v.pop_in, v.small)

  module _ (n : ℕ) (e : count r ≡ suc n) where
    count-remove : count (s_array_remove r) ≡ n
    unfolding s_array_remove
    count-remove = ground (arith, e, v.push_in, v.pop_in, v.small)

    remove-pop : (s_array_remove r).pop ≡ next_index r.cap r.pop
    unfolding s_array_remove
    remove-pop = ground (arith, e, v.push_in, v.pop_in, v.small)

  contents-remove : (n : ℕ) → count r ≡ n → contents (s_array_remove r) ≡ rest (contents r)
  unfolding s_array_remove
  contents-remove zero e =
      let same : s_array_remove r ≡ r = ground arith in
      ap contents same ∙ contents-at r zero e ∙ sym (ap rest (contents-at r zero e))
  contents-remove (suc n) e =
      contents-at (s_array_remove r) n (count-remove n e)
      ∙ ap₂ (λ c i. slots c i n) (cap-remove r) (remove-pop n e)
      ∙ sym (ap rest (contents-at r (suc n) e))

  -- For valid indices `sArrayRemove` drops the oldest slot, and does nothing to an empty ring.
  pub remove_refines :
      IsValid (s_array_remove r) × (contents (s_array_remove r) ≡ rest (contents r))
  remove_refines = (remove-IsValid, contents-remove (count r) refl)

  abbrev pushed : SArray
  pushed = record r { push = next_index r.cap r.push }

  module _ (lt : count r < r.cap) where
    add-pushed : s_array_add r ≡ (pushed, 0)
    unfolding s_array_add
    add-pushed = ground (arith, v.push_in, v.pop_in, v.small)

    pushed-IsValid : IsValid pushed
    pushed-IsValid = ground (arith, v.push_in, v.pop_in, v.small)

    count-pushed : count pushed ≡ suc (count r)
    count-pushed = ground (arith, v.push_in, v.pop_in, v.small)

    contents-pushed : contents pushed ≡ contents r ++ (pushed.push ∷ [])
    contents-pushed =
        contents-at pushed (suc (count r)) count-pushed
        ∙ slots-suc r.cap r.pop (count r)
        ∙ ap (λ i. contents r ++ (next_index r.cap i ∷ [])) push-slot_at

    -- For valid indices and a ring with fewer than `cap` slots in use, `sArrayAdd` returns 0 and
    -- puts one slot behind them, the new `push`.
    pub add_room :
        let (r', dropped) = s_array_add r in
        (dropped ≡ 0) × IsValid r' × (contents r' ≡ contents r ++ (r'.push ∷ []))
    add_room = rw add-pushed (refl, pushed-IsValid, contents-pushed)

  module _ (full : count r ≡ r.cap) (lt : r.pop < r.cap) where
    abbrev replaced : SArray
    replaced = record r { push = next_index r.cap r.push; pop = r.pop + 1 }

    add-replaced : s_array_add r ≡ (replaced, 1)
    unfolding s_array_add
    add-replaced = ground (arith, v.push_in, v.pop_in, v.small)

    replaced-IsValid : IsValid replaced
    replaced-IsValid = ground (arith, v.push_in, v.pop_in, v.small)

    count-replaced : count replaced ≡ suc (r.cap - 1)
    count-replaced = ground (arith, v.push_in, v.pop_in, v.small)

    last-replaced : next_index r.cap (slot_at r.cap (r.pop + 1) (r.cap - 1)) ≡ replaced.push
    last-replaced =
        ground (arith, slot_at-eq r.cap (r.pop + 1) (r.cap - 1), v.push_in, v.pop_in, v.small)

    contents-replaced : contents replaced ≡ rest (contents r) ++ (replaced.push ∷ [])
    contents-replaced =
        let first : next_index r.cap r.pop ≡ r.pop + 1 = ground (arith, v.small) in
        let some_slots : count r ≡ suc (r.cap - 1) = omega arith in
        contents-at replaced (suc (r.cap - 1)) count-replaced
        ∙ slots-suc r.cap (r.pop + 1) (r.cap - 1)
        ∙ ap₂ (λ i j. slots r.cap i (r.cap - 1) ++ (j ∷ [])) (sym first) last-replaced
        ∙ ap (λ l. rest l ++ (replaced.push ∷ []))
            (sym (contents-at r (suc (r.cap - 1)) some_slots))

    -- For valid indices and a ring with `cap` slots in use whose `pop` is not the last slot,
    -- `sArrayAdd` returns 1, drops the oldest slot and puts the new `push` behind the others.
    pub add_full :
        let (r', dropped) = s_array_add r in
        (dropped ≡ 1) × IsValid r' × (contents r' ≡ rest (contents r) ++ (r'.push ∷ []))
    add_full = rw add-replaced (refl, replaced-IsValid, contents-replaced)
