-- ===== src/EStream/Collect.antt =====
-- `streamCollect` of lib/estream/estream.h without a task, and the collectors and the reads of
-- lib/estream/byteestream.cpp that are made of it.
pub mod Rounds
pub mod Reads
pub mod Matches
use c_cpp_sandbox.Common.{
  ℕ, zero, suc, ◌+◌, ◌-◌, ◌*◌, ◌%◌, ◌^◌, Bool, true, false, Option, none, some, List, [], ◌∷◌, ◌++◌,
  ltb, ◌==◌, ◌&&◌, not, if◌then◌else◌,
}
use c_cpp_sandbox.EStream.{EStream, Reading, got, raised, undefined, good, peek, get}
use c_cpp_sandbox.EStream.Criteria.{
  LoopCriteria, loop_criteria_until_match, loop_criteria_until_num_elements, is_good, is_at_last,
  loop_criteria, char_class_criteria, digit_class, next_state,
}

-- `accumulate` of the collector, `none` for its exception.
module _ {ℓ} {S : Type ℓ} (accumulate : S → ℕ → Option S) where
  -- The loop, with `el` in hand. `undefined` also when the fuel runs out.
  unfoldable pub collect_loop : ℕ → LoopCriteria → ℕ → S → EStream → Reading S
  collect_loop zero c el acc s = undefined
  collect_loop (suc fuel) c el acc s = elim (next_state c el) [
    | none ↦ raised s
    | some c' ↦ elim (is_good c'.state) [
      | false ↦ got acc s
      | true ↦ elim (get s) [
        | undefined ↦ undefined
        | raised s1 ↦ raised s1
        | got _ s1 ↦ elim (accumulate acc el) [
          | none ↦ raised s1
          | some acc' ↦
              let (is_good_stream, s2) = good s1 in
              elim (not is_good_stream && is_at_last c'.state) [
                | true ↦ got acc' s2
                | false ↦ elim (peek s2) [
                  | undefined ↦ undefined
                  | raised s3 ↦ raised s3
                  | got el' s3 ↦ collect_loop fuel c' el' acc' s3
                ]
              ]
        ]
      ]
    ]
  ]

  -- `initial` is what `initialize` makes of the collector.
  unfoldable pub stream_collect : ℕ → LoopCriteria → S → EStream → Reading S
  unfolding collect_loop
  stream_collect fuel c initial s = elim (peek s) [
    | undefined ↦ undefined
    | raised s1 ↦ raised s1
    | got el s1 ↦ collect_loop fuel c el initial s1
  ]

-- `ByteStringCollector::accumulate`
unfoldable pub accumulate_string : List ℕ → ℕ → Option (List ℕ)
accumulate_string chars c = some (chars ++ (c ∷ []))

abbrev pub number_max_digits : ℕ
number_max_digits = 10

-- `NaturalCollector::accumulate` of the value and the count of digits. The subtraction of 0x30 is
-- written as an addition that wraps.
unfoldable pub accumulate_natural : ℕ × ℕ → ℕ → Option (ℕ × ℕ)
accumulate_natural (value, digit_count) c =
    if ltb number_max_digits (digit_count + 1)
    then none
    else some ((value * 10 + (c + 2 ^ 64 - 0x30)) % 2 ^ 64, digit_count + 1)

abbrev arbitrary_limit : ℕ
arbitrary_limit = 4294967296

module _ (fuel : ℕ) where
  -- `readString(size_t n)`
  unfoldable pub read_string_n : ℕ → EStream → Reading (List ℕ)
  unfolding stream_collect
  read_string_n n s =
      stream_collect accumulate_string fuel
        (loop_criteria loop_criteria_until_num_elements true n []) [] s

  -- `readString(std::string until)`
  unfoldable pub read_string : List ℕ → Bool → EStream → Reading (List ℕ)
  unfolding stream_collect
  read_string until inclusive s =
      stream_collect accumulate_string fuel
        (loop_criteria loop_criteria_until_match inclusive 0 until) [] s

  -- `readNatural()`
  unfoldable pub read_digits : EStream → Reading (ℕ × ℕ)
  unfolding stream_collect
  read_digits s = stream_collect accumulate_natural fuel (char_class_criteria digit_class) (0, 0) s

  -- `readNatural(std::string until, bool consume)`
  unfoldable pub read_natural_until : List ℕ → Bool → EStream → Reading (ℕ × ℕ)
  unfolding read_digits
  read_natural_until [] consume s = read_digits s
  read_natural_until (u ∷ until) consume s =
      elim (stream_collect accumulate_natural fuel
        (loop_criteria loop_criteria_until_match false 0 (u ∷ until)) (0, 0) s) [
          | undefined ↦ undefined
          | raised s1 ↦ raised s1
          | got t s1 ↦ elim consume [
            | false ↦ got t s1
            | true ↦ elim (get s1) [
              | undefined ↦ undefined
              | raised s2 ↦ raised s2
              | got _ s2 ↦ got t s2
            ]
          ]
        ]

  -- `readNatural(size_t n)`
  unfoldable pub read_natural_n : ℕ → EStream → Reading (ℕ × ℕ)
  unfolding read_digits
  read_natural_n n s =
      if ltb arbitrary_limit n
      then raised s
      else if n == 0
      then read_digits s
      else stream_collect accumulate_natural fuel
          (loop_criteria loop_criteria_until_num_elements true n []) (0, 0) s
