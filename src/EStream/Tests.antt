-- ===== src/EStream/Tests.antt =====
-- Runs of the reads of lib/estream/byteestream.cpp from a buffer in memory, and examples of the
-- theorems.
use c_cpp_sandbox.Common.{true, false, [], ◌∷◌, ◌≡◌, refl, arith}
use c_cpp_sandbox.EStream.{EStream, got, raised, memory_stream, peek, get}
use c_cpp_sandbox.StringUtils.{is_digit, is_upper_hex}
use c_cpp_sandbox.EStream.Criteria.{
  state_good, not_good, loop_criteria_until_match, loop_criteria_until_num_elements, loop_criteria,
  char_class_next, next_state,
}
use c_cpp_sandbox.EStream.Memory.{Holds, memory_stream-Holds}
use c_cpp_sandbox.EStream.Collect.{
  stream_collect, accumulate_string, accumulate_natural, read_natural_until, read_digits,
}
use c_cpp_sandbox.EStream.Collect.Reads.{stream_collect-count}
use c_cpp_sandbox.EStream.Collect.Matches.{stream_collect-until}

-- `12a;`
abbrev four : EStream
four = memory_stream (0x31 ∷ 0x32 ∷ 0x61 ∷ 0x3b ∷ []) 4

four-Holds : Holds four (0x31 ∷ 0x32 ∷ 0x61 ∷ 0x3b ∷ [])
four-Holds = memory_stream-Holds (0x31 ∷ 0x32 ∷ 0x61 ∷ 0x3b ∷ []) 4 (omega arith)

-- HEX_CLASS, which is 3, has the bit of UPPER_HEX_CLASS: a digit and a letter of lower case end the read.
hex_class_digit : char_class_next 3 state_good 0x31 ≡ not_good
unfolding char_class_next is_upper_hex
hex_class_digit = refl

hex_class_lower : char_class_next 3 state_good 0x61 ≡ not_good
unfolding char_class_next is_upper_hex
hex_class_lower = refl

-- The natural number before `;` takes the letter for a digit of value 49.
letter_in_number : (s : EStream) × (read_natural_until 9 (0x3b ∷ []) false four ≡ got (169, 3) s)
unfolding read_natural_until peek memory_stream next_state get accumulate_natural
letter_in_number = (_, refl)

-- Digits to the end of the buffer: there is an exception in place of the number.
digits_at_end : (s : EStream) × (read_digits 9 (memory_stream (0x31 ∷ 0x32 ∷ []) 2) ≡ raised s)
unfolding read_digits peek memory_stream next_state is_digit get accumulate_natural
digits_at_end = (_, refl)

stream_collect-count_example :
    (s' : EStream) × (stream_collect accumulate_natural 9
        (loop_criteria loop_criteria_until_num_elements true 2 [])
        (0, 0)
        four
      ≡ got (12, 2) s')
    × Holds s' (0x61 ∷ 0x3b ∷ [])
unfolding accumulate_natural
stream_collect-count_example =
    stream_collect-count accumulate_natural 9 2 (0x31 ∷ 0x32 ∷ []) (0x61 ∷ 0x3b ∷ []) (0, 0) (12, 2)
      four refl (omega arith) (omega arith) (omega arith) refl four-Holds

stream_collect-until_example :
    (s' : EStream) × (stream_collect accumulate_string 9
        (loop_criteria loop_criteria_until_match false 0 (0x3b ∷ []))
        []
        four
      ≡ got (0x31 ∷ 0x32 ∷ 0x61 ∷ []) s')
    × Holds s' (0x3b ∷ [])
unfolding accumulate_string
stream_collect-until_example =
    stream_collect-until accumulate_string (0x3b ∷ []) 0 0x3b [] refl 9 (0x31 ∷ 0x32 ∷ 0x61 ∷ []) []
      (0x31 ∷ 0x32 ∷ 0x61 ∷ []) four (omega arith) (omega arith)
      (
        ((λ e. omega (arith, e)), tt),
        (((λ e. omega (arith, e)), tt), (((λ e. omega (arith, e)), tt), tt)),
      )
      refl four-Holds
