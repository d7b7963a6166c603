-- ===== src/RingIndex/Start.antt =====
-- Where the indices of lib/ringindex.h are not slots: before the first removal, and after an
-- element has been dropped while `pop` was the last slot.
use c_cpp_sandbox.Common.{ℕ, zero, suc, ◌+◌, ◌^◌, ◌≤◌, ◌<◌, ◌≡◌, ap, ◌∙◌, arith}
use c_cpp_sandbox.RingIndex.{
  SArray, size_max, s_array_init, s_array_add, s_array_remove, s_array_size,
}
use c_cpp_sandbox.RingIndex.Slots.{IsValid, count}

-- `n` calls of `sArrayAdd`.
abbrev pub add_times : ℕ → SArray → SArray
add_times zero r = r
add_times (suc n) r = add_times n (s_array_add r).0

module _ (cap : ℕ) (small : cap < 2 ^ 62) where
  abbrev unpopped : ℕ → SArray
  unpopped k = record { push = k; pop = size_max; cap = cap }

  add-init : (s_array_add (s_array_init cap)).0 ≡ unpopped 0
  unfolding s_array_add s_array_init
  add-init = ground arith

  add-unpopped : (k : ℕ) → k < cap → (s_array_add (unpopped k)).0 ≡ unpopped (k + 1)
  unfolding s_array_add
  add-unpopped k lt = ground arith

  add_times-unpopped : (n k : ℕ) → k + n ≤ cap → add_times n (unpopped k) ≡ unpopped (k + n)
  add_times-unpopped zero k le = ap unpopped (omega arith)
  add_times-unpopped (suc n) k le =
      ap (add_times n) (add-unpopped k (omega arith))
      ∙ add_times-unpopped n (k + 1) (omega arith)
      ∙ ap unpopped (omega arith)

  added : (n : ℕ) → n ≤ cap → add_times (suc n) (s_array_init cap) ≡ unpopped n
  added n le =
      ap (add_times n) add-init ∙ add_times-unpopped n 0 (omega arith) ∙ ap unpopped (omega arith)

  -- For a `cap` below 2^62, up to the first removal `sArraySize` is wrong: after `n + 1`
  -- additions to a new ring, `n` at most `cap`, it is `cap + 1` more than the number of elements.
  pub size_before_remove :
      (n : ℕ) → n ≤ cap → s_array_size (add_times (suc n) (s_array_init cap)) ≡ (n + 1) + (cap + 1)
  unfolding s_array_size
  size_before_remove n le = rw (added n le) (ground arith)

  -- For a `cap` below 2^62, after the first removal the indices are valid and the size is right:
  -- of `n + 1` elements that have been added to a new ring, `n` at most `cap`, `n` are left.
  pub size_after_remove :
      (n : ℕ)
      → n ≤ cap
      → let r = s_array_remove (add_times (suc n) (s_array_init cap)) in
        IsValid r × (s_array_size r ≡ n)
  unfolding s_array_size s_array_remove
  size_after_remove n le = rw (added n le) (ground arith)

module _ {r : SArray} (v : IsValid r) (some_cap : 0 < r.cap) (full : count r ≡ r.cap)
    (last : r.pop ≡ r.cap) where
  first_add : (s_array_add r).0 ≡ record r { push = r.cap; pop = r.cap + 1 }
  unfolding s_array_add
  first_add = ground (arith, v.push_in, v.pop_in, v.small)

  second_add :
      (s_array_add (record r { push = r.cap; pop = r.cap + 1 })).0
      ≡ record r { push = 0; pop = r.cap + 1 }
  unfolding s_array_add
  second_add = ground (arith, v.small)

  -- For valid indices, a positive `cap`, `cap` slots in use and `pop` at the last slot, the next
  -- two additions leave a ring of size 0 whose `pop` is past the last slot, though nothing has
  -- been removed.
  pub add_forgets : let r' = add_times 2 r in (s_array_size r' ≡ 0) × (r'.pop ≡ r.cap + 1)
  unfolding s_array_size
  add_forgets = rw (ap (λ x. (s_array_add x).0) first_add ∙ second_add) (ground (arith, v.small))
