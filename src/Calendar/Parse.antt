-- ===== src/Calendar/Parse.antt =====
-- The parsing of formatted times in lib/ecal.cpp. An exception is `raised`, and `undefined` stands
-- also for a product that does not fit into `int`. `fuel` bounds the length of each read.
use c_cpp_sandbox.Common.{
  ℕ, ◌+◌, ◌-◌, ◌*◌, ◌%◌, ◌^◌, Bool, true, false, Option, none, some, List, [], ◌∷◌, leb, ltb, ◌==◌,
  ◌&&◌, ◌||◌, not, if◌then◌else◌, ℤ, pos, negsuc, pos_part, neg_part, sub_ℕ, characters, length,
}
use c_cpp_sandbox.EStream.{EStream, Reading, got, raised, undefined, get, ◌>>=◌, memory_stream}
use c_cpp_sandbox.EStream.Collect.{read_string, read_digits, read_natural_until, read_natural_n}
use c_cpp_sandbox.Calendar.{
  seconds_per_hour, seconds_per_minute, seconds_per_day, seconds_per_non_leap_year,
  seconds_up_until_month, get_num_leap_years,
}
use c_cpp_sandbox.Calendar.Fields.{uint64}

abbrev pub uint8 : ℕ → ℕ
uint8 n = n % 256

-- Whether the check throws.
unfoldable pub is_valid_year : ℕ → ℕ → Bool
is_valid_year year digit_count = not (ltb year 1970 || ltb 9999 year || ltb 4 (uint8 digit_count))

unfoldable pub is_valid_month : ℕ → ℕ → Bool
is_valid_month month digit_count =
    not
      (ltb month 1 || ltb 12 month || (not (uint8 digit_count == 255) && ltb 2 (uint8 digit_count)))

unfoldable pub is_valid_day : ℕ → ℕ → Bool
is_valid_day day digit_count = not (ltb day 1 || ltb 31 day || ltb 2 (uint8 digit_count))

unfoldable pub is_valid_hr : ℕ → ℕ → Bool
is_valid_hr hr digit_count = not (ltb 23 hr || ltb 2 (uint8 digit_count))

unfoldable pub is_valid_min : ℕ → ℕ → Bool
is_valid_min min digit_count = not (ltb 59 min || ltb 2 (uint8 digit_count))

unfoldable pub is_valid_sec : ℕ → ℕ → Bool
is_valid_sec sec digit_count = not (ltb 59 sec || ltb 2 (uint8 digit_count))

-- The part of the time for a valid year: `(year - 1970) * SECONDS_PER_NON_LEAP_YEAR` is an `int`.
unfoldable pub year_seconds : ℕ → Option ℕ
year_seconds year =
    if leb (2 ^ 31) ((year - 1970) * seconds_per_non_leap_year)
    then none
    else elim (get_num_leap_years year) [
      | none ↦ none
      | some leaps ↦ some ((year - 1970) * seconds_per_non_leap_year + leaps * seconds_per_day)
    ]

-- A value with its count of digits, cut to a byte, that has to pass a check.
unfoldable pub checked : (ℕ → ℕ → Bool) → Reading (ℕ × ℕ) → Reading ℕ
checked valid reading =
    reading >>= λ t s. if valid (uint8 t.0) t.1 then got (uint8 t.0) s else raised s

-- A year, cut to 16 bits, that has to pass the check.
unfoldable pub checked_year : Reading (ℕ × ℕ) → Reading ℕ
checked_year reading =
    reading >>= λ t s. if is_valid_year (t.0 % 65536) t.1 then got (t.0 % 65536) s else raised s

-- The part of the time for a valid year.
unfoldable pub year_part : ℕ → EStream → Reading ℕ
unfolding year_seconds
year_part year s = elim (year_seconds year) [ none ↦ undefined | some seconds ↦ got seconds s ]

-- The part of the time for a valid month.
unfoldable pub month_seconds : ℕ → ℕ → EStream → Reading ℕ
month_seconds month year s = elim (seconds_up_until_month month year) [
  | none ↦ undefined
  | some seconds ↦ got seconds s
]

-- `if (s.get() != c)` throw
unfoldable pub expect : ℕ → EStream → Reading ℕ
expect c s = get s >>= λ el s1. if el == c then got el s1 else raised s1

-- `+` and `-` as the sign of an offset
unfoldable pub sign_of : ℕ → EStream → Reading Bool
sign_of c s = if c == 0x2b then got true s else if c == 0x2d then got false s else raised s

-- The conversion to `int8_t` of a byte.
abbrev pub int8 : ℕ → ℤ
int8 n = if ltb n 128 then pos n else negsuc (255 - n)

-- `sign_mul * (hour_offset * SECONDS_PER_HOUR + min_offset * SECONDS_PER_MINUTE)`
unfoldable pub offset_seconds : Bool → ℕ → ℕ → ℤ
offset_seconds positive hour_offset min_offset =
    let h = int8 hour_offset in
    let m = int8 min_offset in
    let up = pos_part h * seconds_per_hour + pos_part m * seconds_per_minute in
    let down = neg_part h * seconds_per_hour + neg_part m * seconds_per_minute in
    if positive then sub_ℕ up down else sub_ℕ down up

-- The conversion to `int16_t`.
unfoldable pub int16 : ℤ → ℤ
int16 (pos n) = if ltb (n % 65536) 32768 then pos (n % 65536) else negsuc (65535 - n % 65536)
int16 (negsuc n) = if ltb (n % 65536) 32768 then negsuc (n % 65536) else pos (65535 - n % 65536)

-- `epoch_seconds += offset`
unfoldable pub add_offset : ℕ → ℤ → ℕ
add_offset epoch_seconds (pos n) = uint64 (epoch_seconds + n)
add_offset epoch_seconds (negsuc n) = uint64 (epoch_seconds + 2 ^ 64 - (n + 1))

abbrev same_bytes : List ℕ → List ℕ → Bool
same_bytes [] [] = true
same_bytes (a ∷ l) (b ∷ r) = if a == b then same_bytes l r else false
same_bytes l r = false

-- `MONTH_NUM[name]`, which is 0 for a name that is not in the map
abbrev lookup_month : List (List ℕ × ℕ) → List ℕ → ℕ
lookup_month [] name = 0
lookup_month ((key, n) ∷ table) name = if same_bytes key name then n else lookup_month table name

unfoldable pub month_num : List ℕ → ℕ
month_num = lookup_month (
    (characters "Jan ", 1)
    ∷ (characters "Feb ", 2)
    ∷ (characters "Mar ", 3)
    ∷ (characters "Apr ", 4)
    ∷ (characters "May ", 5)
    ∷ (characters "June ", 6)
    ∷ (characters "July ", 7)
    ∷ (characters "Aug ", 8)
    ∷ (characters "Sep ", 9)
    ∷ (characters "Oct ", 10)
    ∷ (characters "Nov ", 11)
    ∷ (characters "Dec ", 12)
    ∷ [])

pub data DatetimeFormat : Type 0 where
  readable : DatetimeFormat
  iso8601 : DatetimeFormat
  iso8601_readable : DatetimeFormat

-- hour of one digit at most, or an exception
unfoldable pub short_enough : ℕ → Reading (ℕ × ℕ) → Reading ℕ
short_enough digits reading =
    reading >>= λ t s. if ltb digits t.1 then raised s else got (uint8 t.0) s

-- The time of day behind a date whose part of the time is `date_seconds`, with the reads of the
-- hour, the minute and the second, and then the offset.
unfoldable pub time_of_day :
    (EStream → Reading (ℕ × ℕ))
    → (EStream → Reading (ℕ × ℕ))
    → (EStream → Reading (ℕ × ℕ))
    → (EStream → Reading ℤ)
    → ℕ
    → EStream
    → Reading ℕ
unfolding checked
time_of_day read_hr read_min read_sec read_offset date_seconds s =
    checked is_valid_hr (read_hr s) >>= λ hr s1. checked is_valid_min (read_min s1) >>= λ min s2.
    checked is_valid_sec (read_sec s2) >>= λ sec s3. read_offset s3 >>= λ offset s4.
    got (add_offset (date_seconds + hr * seconds_per_hour + min * seconds_per_minute + sec) offset)
      s4

-- A year, a month and a day, by their reads: the part of the time that they make.
unfoldable pub date_of :
    (EStream → Reading (ℕ × ℕ))
    → (EStream → Reading (ℕ × ℕ))
    → (EStream → Reading (ℕ × ℕ))
    → EStream
    → Reading ℕ
unfolding checked checked_year year_part month_seconds
date_of read_year read_month read_day s = checked_year (read_year s) >>= λ year s1.
    year_part year s1 >>= λ seconds s2. checked is_valid_month (read_month s2) >>= λ month s3.
    month_seconds month year s3 >>= λ before s4. checked is_valid_day (read_day s4) >>= λ day s5.
    got (seconds + before + (day - 1) * seconds_per_day) s5

module _ (fuel : ℕ) where
  unfoldable pub parse_readable_offset : EStream → Reading ℤ
  unfolding short_enough expect sign_of
  parse_readable_offset s = get s >>= λ c s1.
      if c == 0x5a
      then got (pos 0) s1
      else sign_of c s1 >>= λ positive s2. short_enough 1 (read_digits fuel s2) >>= λ hour s3.
          expect 0x3a s3 >>= λ _ s4. short_enough 2 (read_natural_n fuel 2 s4) >>= λ minute s5.
          got (int16 (offset_seconds positive hour minute)) s5

  -- `{04u}-{02u}-{02u}T{02u}:{02u}:{02u}` and an offset
  unfoldable pub parse_iso8601_readable_date_time : EStream → Reading ℕ
  unfolding parse_readable_offset time_of_day date_of
  parse_iso8601_readable_date_time s =
      date_of (read_natural_until fuel (characters "-") true)
        (read_natural_until fuel (characters "-") true)
        (read_natural_until fuel (characters "T") true) s
      >>= time_of_day (read_natural_until fuel (characters ":") true)
          (read_natural_until fuel (characters ":") true)
          (read_natural_until fuel (characters "Z+-") false) parse_readable_offset

  -- The offset at the end of `parseISO8601DateTime`, which is not cut to 16 bits.
  unfoldable pub parse_iso8601_offset : EStream → Reading ℤ
  unfolding short_enough sign_of
  parse_iso8601_offset s = get s >>= λ c s1.
      if c == 0x5a
      then got (pos 0) s1
      else sign_of c s1 >>= λ positive s2. short_enough 1 (read_natural_n fuel 1 s2) >>= λ hour s3.
          short_enough 2 (read_natural_n fuel 2 s3) >>= λ minute s4.
          got (offset_seconds positive hour minute) s4

  -- `{04u}{02u}{02u}T{02u}{02u}{02u}` and an offset; any byte will do for the `T`.
  unfoldable pub parse_iso8601_date_time : EStream → Reading ℕ
  unfolding parse_iso8601_offset time_of_day date_of
  parse_iso8601_date_time s =
      date_of (read_natural_n fuel 4) (read_natural_n fuel 2) (read_natural_n fuel 2) s
      >>= λ date_seconds s1. get s1 >>= λ _ s2.
          time_of_day (read_natural_n fuel 2) (read_natural_n fuel 2) (read_natural_n fuel 2)
            parse_iso8601_offset date_seconds s2

  -- `readNatural()` and a byte that has to follow; the check of the value comes first.
  unfoldable pub checked_before : (ℕ → ℕ → Bool) → ℕ → EStream → Reading ℕ
  unfolding checked expect
  checked_before valid c s =
      checked valid (read_digits fuel s) >>= λ n s1. expect c s1 >>= λ _ s2. got n s2

  -- Hour, minute and second of a readable time, and the offset.
  unfoldable pub readable_time_of_day : ℕ → EStream → Reading ℕ
  unfolding checked_before parse_readable_offset
  readable_time_of_day date_seconds s = checked_before is_valid_hr 0x3a s >>= λ hr s1.
      checked_before is_valid_min 0x3a s1 >>= λ min s2.
      checked_before is_valid_sec 0x20 s2 >>= λ sec s3. parse_readable_offset s3 >>= λ offset s4.
      got
        (add_offset (date_seconds + hr * seconds_per_hour + min * seconds_per_minute + sec) offset)
        s4

  -- `{s} {u} {u}, {u}:{u}:{u} ` and an offset, by the number of the month
  unfoldable pub parse_readable_date_time : EStream → Reading ℕ
  unfolding parse_readable_offset checked_before checked_year year_part month_seconds month_num
      readable_time_of_day
  parse_readable_date_time s = read_string fuel (characters " ") true s >>= λ name s1.
      if not (is_valid_month (month_num name) 255)
      then raised s1
      else checked_before is_valid_day 0x20 s1 >>= λ day s2.
          checked_year (read_digits fuel s2) >>= λ year s3. expect 0x2c s3 >>= λ _ s4.
          expect 0x20 s4 >>= λ _ s5. year_part year s5 >>= λ seconds s6.
          month_seconds (month_num name) year s6 >>= λ before s7.
          readable_time_of_day (seconds + before + (day - 1) * seconds_per_day) s7

-- Every read takes at most what the text has, so that its length and two more is fuel enough.
unfoldable pub get_epoch_from_formatted_date_time : List ℕ → DatetimeFormat → Reading ℕ
unfolding parse_readable_date_time parse_iso8601_readable_date_time parse_iso8601_date_time
    memory_stream
get_epoch_from_formatted_date_time dt readable =
    parse_readable_date_time (length dt + 2) (memory_stream dt (length dt))
get_epoch_from_formatted_date_time dt iso8601_readable =
    parse_iso8601_readable_date_time (length dt + 2) (memory_stream dt (length dt))
get_epoch_from_formatted_date_time dt iso8601 =
    parse_iso8601_date_time (length dt + 2) (memory_stream dt (length dt))
