-- ===== src/EStream/Criteria.antt =====
-- lib/estream/estream_types.h and byteestream.cpp: when a read from a stream ends.
use c_cpp_sandbox.Common.{
  ℕ, ◌+◌, ◌-◌, ◌%◌, ◌^◌, Bool, true, false, Option, none, some, List, [], ◌∷◌, ltb, ◌==◌, ◌||◌, not,
  if◌then◌else◌,
}
use c_cpp_sandbox.StringUtils.{is_alpha, is_digit, is_lower_hex, is_upper_hex, is_hex_digit}

pub data LoopCriteriaMode : Type 0 where
  loop_criteria_until_match : LoopCriteriaMode
  loop_criteria_until_num_elements : LoopCriteriaMode

-- The fourth value, "at last" alone, is never assigned.
pub data LoopCriteriaState : Type 0 where
  not_good : LoopCriteriaState
  state_good : LoopCriteriaState
  good_at_last : LoopCriteriaState

-- `char_class` is that of a `ByteIsCharClassCriteria`, and `none` for a `LoopCriteria`.
pub record LoopCriteria : Type 0 where
  pub state : LoopCriteriaState
  pub mode : LoopCriteriaMode
  pub inclusive : Bool
  pub until_size : ℕ
  pub until : List ℕ
  pub char_class : Option ℕ

-- `state & LOOP_CRITERIA_STATE_GOOD` and `state & LOOP_CRITERIA_STATE_AT_LAST`
abbrev pub is_good : LoopCriteriaState → Bool
is_good not_good = false
is_good _ = true

abbrev pub is_at_last : LoopCriteriaState → Bool
is_at_last good_at_last = true
is_at_last _ = false

-- `1 << 16`
abbrev pub arbitrary_spatial_until_limit : ℕ
arbitrary_spatial_until_limit = 65536

abbrev pub loop_criteria : LoopCriteriaMode → Bool → ℕ → List ℕ → LoopCriteria
loop_criteria mode inclusive until_size until = record {
  state = state_good;
  mode = mode;
  inclusive = inclusive;
  until_size = until_size;
  until = until;
  char_class = none;
}

abbrev pub char_class_criteria : ℕ → LoopCriteria
char_class_criteria char_class = record (loop_criteria loop_criteria_until_match true 0 []) {
  char_class = some char_class;
}

abbrev pub digit_class : ℕ
digit_class = 8

-- `until.contains(el)`
abbrev pub until_contains : List ℕ → ℕ → Bool
until_contains [] el = false
until_contains (x ∷ l) el = if x == el then true else until_contains l el

-- `LoopCriteria::untilMatchNext`, the state behind it
unfoldable pub until_match_next : LoopCriteriaState → Bool → Bool → LoopCriteriaState
until_match_next not_good inclusive until_match = if until_match then not_good else state_good
until_match_next state_good inclusive until_match =
    if until_match then (if inclusive then good_at_last else not_good) else state_good
until_match_next good_at_last inclusive until_match = not_good

-- `LoopCriteria::untilSizeNext`
unfoldable pub until_size_next : LoopCriteriaState → ℕ → LoopCriteriaState
until_size_next not_good until_size = if ltb 0 until_size then state_good else not_good
until_size_next state_good until_size =
    if until_size == 1 then good_at_last else if until_size == 0 then not_good else state_good
until_size_next good_at_last until_size = if until_size == 0 then not_good else good_at_last

-- Whether a bit of a class, which is 1, 2, 4 or 8, is set.
abbrev has_class : ℕ → ℕ → Bool
has_class char_class bit = not (char_class % (bit + bit) - char_class % bit == 0)

-- `ByteIsCharClassCriteria::untilMatchNext`. HEX_CLASS is 3, both bits of the branches before its
-- own, which is never reached.
unfoldable pub char_class_next : ℕ → LoopCriteriaState → ℕ → LoopCriteriaState
char_class_next char_class state c =
    if has_class char_class 8
    then (if is_digit c then state_good else not_good)
    else if has_class char_class 1
    then (if is_upper_hex c then state_good else not_good)
    else if has_class char_class 2
    then (if is_lower_hex c then state_good else not_good)
    else if has_class char_class 1 || has_class char_class 2
    then (if is_hex_digit c then state_good else not_good)
    else if has_class char_class 4
    then (if is_alpha c then state_good else not_good)
    else state

-- `nextState` of both classes; `none` for the exception at the limit.
unfoldable pub next_state : LoopCriteria → ℕ → Option LoopCriteria
unfolding until_match_next until_size_next char_class_next
next_state c el = elim c.mode [
  | loop_criteria_until_match ↦
      if ltb arbitrary_spatial_until_limit (c.until_size + 1) then none else elim c.char_class [
        | none ↦ some (record c {
          until_size = c.until_size + 1;
          state = until_match_next c.state c.inclusive (until_contains c.until el);
        })
        | some char_class ↦ some (record c {
          until_size = c.until_size + 1;
          state = char_class_next char_class c.state el;
        })
      ]
  | loop_criteria_until_num_elements ↦ some (record c {
    state = until_size_next c.state c.until_size;
    until_size = (c.until_size + 2 ^ 64 - 1) % 2 ^ 64;
  })
]
