-- ===== src/CReader/Chunk/Loses.antt =====
-- `read_chunk_non_blocking_fd` of lib/c/reader.c with two reads that give something.
use c_cpp_sandbox.Common.{
  ℕ, zero, suc, ◌+◌, ◌-◌, ◌≤◌, ◌<◌, ◌≡◌, refl, ap, ap₂, ◌∙◌, true, some, List, [], ◌++◌, arith,
  le-cases, inl, inr, length, take, drop, take-append_exact, drop-append_ge, drop-drop,
}
use c_cpp_sandbox.CReader.Chunk.{
  Progress, start, store_chunk, chunk_loop, read_chunk_non_blocking_fd, turn_after, turn_stops,
}

module _ (malloc : ℕ → List ℕ) (reads : ℕ → List ℕ) where
  store_nothing : (s : Progress) → store_chunk malloc [] s ≡ s
  unfolding store_chunk
  store_nothing s = refl

  -- Turns in which nothing more arrives.
  chunk_loop_idle :
      (fuel i : ℕ) (s : Progress)
      → s.read_something ≡ true
      → 100 - s.sleep_after_read < fuel
      → ((j : ℕ) → i ≤ j → reads j ≡ [])
      → chunk_loop malloc reads fuel i s ≡ some (s.bytes_read, s.block)
  chunk_loop_idle zero i s something h quiet = absurd (omega (arith, h))
  chunk_loop_idle (suc fuel) i s something h quiet =
      let same : store_chunk malloc (reads i) s ≡ s =
        ap (λ b. store_chunk malloc b s) (quiet i (omega arith)) ∙ store_nothing s in
      elim (le-cases 100 s.sleep_after_read) [
        | inl late ↦ turn_stops malloc reads fuel i s s same (rw something late)
        | inr early ↦
            turn_after malloc reads fuel i s s same something early
            ∙ chunk_loop_idle fuel (i + 1) (record s { sleep_after_read = s.sleep_after_read + 1 })
                something (omega (arith, h, early)) (λ j le. quiet j (omega (arith, le)))
      ]

  -- The state after a turn that has read something.
  abbrev stored : List ℕ → Progress → Progress
  stored buf s = record s {
    read_something = true;
    block =
        buf
        ++ drop (length buf)
            (take s.bytes_read s.block ++ drop s.bytes_read (malloc (s.bytes_read + length buf)));
    bytes_read = s.bytes_read + length buf;
  }

  store_something :
      (buf : List ℕ) (s : Progress) → 0 < length buf → store_chunk malloc buf s ≡ stored buf s
  unfolding store_chunk
  store_something buf s h = ground (arith, h)

  earlier_lost :
      (a b fresh behind : List ℕ)
      → length a ≤ length b
      → drop (length b) (take (length a) (a ++ behind) ++ drop (length a) fresh)
        ≡ drop (length b) fresh
  earlier_lost a b fresh behind h =
      ap (λ l. drop (length b) (l ++ drop (length a) fresh))
        (take-append_exact a behind (length a) refl)
      ∙ drop-append_ge a (drop (length a) fresh) (length b) h
      ∙ drop-drop (length b - length a) (length a) fresh
      ∙ ap (λ k. drop k fresh) (omega (arith, h))

  -- When the first two reads give something, the second at least as much, nothing comes after
  -- them, and the fuel is above 10100: `read_chunk_non_blocking_fd` returns the number of all the
  -- bytes, but the block has only those of the second read, and behind them what `malloc` left
  -- there.
  pub read_chunk_loses :
      (fuel : ℕ) (old : List ℕ)
      → 10100 < fuel
      → 0 < length (reads 0)
      → length (reads 0) ≤ length (reads 1)
      → ((j : ℕ) → 2 ≤ j → reads j ≡ [])
      → let n = length (reads 0) + length (reads 1) in
        read_chunk_non_blocking_fd malloc reads fuel old
        ≡ some (n, reads 1 ++ drop (length (reads 1)) (malloc n))
  unfolding read_chunk_non_blocking_fd
  read_chunk_loses zero old h some_bytes longer quiet = absurd (omega (arith, h))
  read_chunk_loses (suc zero) old h some_bytes longer quiet = absurd (omega (arith, h))
  read_chunk_loses (suc (suc fuel)) old h some_bytes longer quiet =
      let s1 = stored (reads 0) (start old) in
      let s1' : Progress = record s1 { sleep_after_read = 1 } in
      let s2 = stored (reads 1) s1' in
      turn_after malloc reads (suc fuel) 0 (start old) s1
        (store_something (reads 0) (start old) some_bytes) refl (omega arith)
      ∙ turn_after malloc reads fuel 1 s1' s2
          (store_something (reads 1) s1' (omega (arith, some_bytes, longer))) refl (omega arith)
      ∙ chunk_loop_idle fuel 2 (record s2 { sleep_after_read = 2 }) refl (omega (arith, h)) quiet
      ∙ ap₂ (λ n l. some (n, l)) (omega arith)
          (ap (λ l. reads 1 ++ l)
            (ap
                (λ k. drop (length (reads 1)) (
                  take k (reads 0 ++ drop (length (reads 0)) (malloc k))
                  ++ drop k (malloc (k + length (reads 1)))))
                {x = 0 + length (reads 0)} (omega arith)
              ∙ earlier_lost (reads 0) (reads 1) _ _ longer))
