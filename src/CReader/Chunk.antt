-- ===== src/CReader/Chunk.antt =====
-- `read_chunk_non_blocking_fd` of lib/c/reader.c. `reads i` has the bytes that the call of `read` in
-- turn `i` gives, none when there are none yet; `malloc n` has the bytes of a new block.
pub mod Loses
use c_cpp_sandbox.Common.{
  ℕ, zero, suc, ◌+◌, ◌-◌, ◌≤◌, ◌<◌, ◌≡◌, refl, sym, ap, ap₂, ◌∙◌, Bool, true, false, ◌||◌, not,
  Option, none, some, List, [], ◌∷◌, ◌++◌, append-nil, arith, ltb, leb, if◌then◌else◌, le-cases,
  Bool-cases, inl, inr, length, take, drop, length-append, length-take, length-drop,
  take-append_exact, drop-append_ge, drop-drop,
}

-- The local variables, and the block that `p` points to.
pub record Progress : Type 0 where
  pub block : List ℕ
  pub bytes_read : ℕ
  pub sleep_before_read : ℕ
  pub sleep_after_read : ℕ
  pub read_something : Bool

abbrev pub start : List ℕ → Progress
start block = record {
  block = block;
  bytes_read = 0;
  sleep_before_read = 0;
  sleep_after_read = 0;
  read_something = false;
}

module _ (malloc : ℕ → List ℕ) where
  -- What a turn does with the bytes that were read: both copies go to the start of the new block.
  unfoldable pub store_chunk : List ℕ → Progress → Progress
  store_chunk buf s =
      let new_p = malloc (s.bytes_read + length buf) in
      let earlier = take s.bytes_read s.block ++ drop s.bytes_read new_p in
      if ltb 0 (length buf)
      then record s {
        read_something = true;
        block = buf ++ drop (length buf) earlier;
        bytes_read = s.bytes_read + length buf;
      }
      else s

  module _ (reads : ℕ → List ℕ) where
    -- The loop from turn `i` on; `none` is the lack of fuel.
    unfoldable pub chunk_loop : ℕ → ℕ → Progress → Option (ℕ × List ℕ)
    unfolding store_chunk
    chunk_loop zero i s = none
    chunk_loop (suc fuel) i s =
        let s' = store_chunk (reads i) s in
        elim s'.read_something [
          | true ↦ elim (ltb s'.sleep_after_read 100) [
            | true ↦
                chunk_loop fuel (i + 1) (record s' { sleep_after_read = s'.sleep_after_read + 1 })
            | false ↦ some (s'.bytes_read, s'.block)
          ]
          | false ↦ elim (ltb s'.sleep_before_read 10000) [
            | true ↦
                chunk_loop fuel (i + 1) (record s' { sleep_before_read = s'.sleep_before_read + 1 })
            | false ↦ some (s'.bytes_read, s'.block)
          ]
        ]

    unfoldable pub read_chunk_non_blocking_fd : ℕ → List ℕ → Option (ℕ × List ℕ)
    unfolding chunk_loop
    read_chunk_non_blocking_fd fuel block = chunk_loop fuel 0 (start block)

-- The turns that the two time limits leave.
abbrev turns : Progress → ℕ
turns s = (10000 - s.sleep_before_read) + (100 - s.sleep_after_read)

module _ (malloc : ℕ → List ℕ) (reads : ℕ → List ℕ) where
  -- A turn by the state that it has after the read.
  pub turn_after :
      (fuel i : ℕ) (s s' : Progress)
      → store_chunk malloc (reads i) s ≡ s'
      → s'.read_something ≡ true
      → s'.sleep_after_read < 100
      → chunk_loop malloc reads (suc fuel) i s
        ≡ chunk_loop malloc reads fuel
            (i + 1)
            (record s' { sleep_after_read = s'.sleep_after_read + 1 })
  unfolding chunk_loop
  turn_after fuel i s s' e something h = ground (arith, e, something)

  turn_before :
      (fuel i : ℕ) (s s' : Progress)
      → store_chunk malloc (reads i) s ≡ s'
      → s'.read_something ≡ false
      → s'.sleep_before_read < 10000
      → chunk_loop malloc reads (suc fuel) i s
        ≡ chunk_loop malloc reads fuel
            (i + 1)
            (record s' { sleep_before_read = s'.sleep_before_read + 1 })
  unfolding chunk_loop
  turn_before fuel i s s' e nothing h = ground (arith, e, nothing)

  pub turn_stops :
      (fuel i : ℕ) (s s' : Progress)
      → store_chunk malloc (reads i) s ≡ s'
      → (if s'.read_something then 100 ≤ s'.sleep_after_read else 10000 ≤ s'.sleep_before_read)
      → chunk_loop malloc reads (suc fuel) i s ≡ some (s'.bytes_read, s'.block)
  unfolding chunk_loop
  turn_stops fuel i s s' e h = ground (arith, e)

  store_sleeps :
      (buf : List ℕ) (s : Progress)
      → ((store_chunk malloc buf s).sleep_after_read ≡ s.sleep_after_read)
        × ((store_chunk malloc buf s).sleep_before_read ≡ s.sleep_before_read)
  unfolding store_chunk
  store_sleeps buf s = ground arith

  chunk_loop_ends :
      (fuel i : ℕ) (s : Progress)
      → turns s < fuel
      → (n : ℕ) × (block : List ℕ) × (chunk_loop malloc reads fuel i s ≡ some (n, block))
  chunk_loop_ends zero i s h = absurd (omega (arith, h))
  chunk_loop_ends (suc fuel) i s h =
      let s' = store_chunk malloc (reads i) s in
      let (after, before) = store_sleeps (reads i) s in
      elim (Bool-cases s'.read_something) [
        | inl something ↦ elim (le-cases 100 s'.sleep_after_read) [
          | inl late ↦ (_, _, turn_stops fuel i s s' refl (rw something late))
          | inr early ↦
              let (n, block, e) =
                chunk_loop_ends fuel (i + 1)
                  (record s' { sleep_after_read = s'.sleep_after_read + 1 })
                  (omega (arith, h, after, before, early)) in
              (n, block, turn_after fuel i s s' refl something early ∙ e)
        ]
        | inr nothing ↦ elim (le-cases 10000 s'.sleep_before_read) [
          | inl late ↦ (_, _, turn_stops fuel i s s' refl (rw nothing late))
          | inr early ↦
              let (n, block, e) =
                chunk_loop_ends fuel (i + 1)
                  (record s' { sleep_before_read = s'.sleep_before_read + 1 })
                  (omega (arith, h, after, before, early)) in
              (n, block, turn_before fuel i s s' refl nothing early ∙ e)
        ]
      ]

  -- `read_chunk_non_blocking_fd` returns, whatever the descriptor gives: fuel for 10101 turns is
  -- enough.
  pub read_chunk_ends :
      (fuel : ℕ) (old : List ℕ)
      → 10100 < fuel
      → (n : ℕ) × (block : List ℕ) × (read_chunk_non_blocking_fd malloc reads fuel old
          ≡ some (n, block))
  unfolding read_chunk_non_blocking_fd
  read_chunk_ends fuel old h = chunk_loop_ends fuel 0 (start old) (omega arith)
