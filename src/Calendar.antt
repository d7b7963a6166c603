-- ===== src/Calendar.antt =====
-- lib/etime.h and etime.cpp: the calendar's tables, leap years, and the time of day in a zone.
mod Tests
pub mod Fields
pub mod Parse
pub mod Years
pub mod Months
pub mod Shows
pub mod RoundTrip
pub mod Parts
use c_cpp_sandbox.Common.{
  ℕ, zero, suc, ◌+◌, ◌-◌, ◌*◌, ◌%◌, ◌^◌, Bool, true, false, Option, none, some, List, [], ◌∷◌, ltb,
  ◌==◌, ◌&&◌, ◌||◌, not, if◌then◌else◌, get_elem?, ℤ, pos, negsuc,
}

abbrev pub seconds_per_hour : ℕ
seconds_per_hour = 3600

abbrev pub seconds_per_minute : ℕ
seconds_per_minute = 60

abbrev pub seconds_per_day : ℕ
seconds_per_day = 86400

abbrev pub seconds_per_non_leap_year : ℕ
seconds_per_non_leap_year = 31536000

unfoldable pub is_leap_year : ℕ → Bool
is_leap_year year =
    (year % 4 == 0) && (not (year % 100 == 0) || ((year % 100 == 0) && (year % 400 == 0)))

-- `RUNNING_SECONDS_UP_UNTIL_MONTH_NON_LEAP_YEAR`
abbrev pub running_seconds_non_leap_year : List ℕ
running_seconds_non_leap_year =
    0
    ∷ seconds_per_day * 31
    ∷ seconds_per_day * 59
    ∷ seconds_per_day * 90
    ∷ seconds_per_day * 120
    ∷ seconds_per_day * 151
    ∷ seconds_per_day * 181
    ∷ seconds_per_day * 212
    ∷ seconds_per_day * 243
    ∷ seconds_per_day * 273
    ∷ seconds_per_day * 304
    ∷ seconds_per_day * 334
    ∷ seconds_per_day * 365
    ∷ []

-- `RUNNING_SECONDS_UP_UNTIL_MONTH_LEAP_YEAR`
abbrev pub running_seconds_leap_year : List ℕ
running_seconds_leap_year =
    0
    ∷ seconds_per_day * 31
    ∷ seconds_per_day * 60
    ∷ seconds_per_day * 91
    ∷ seconds_per_day * 121
    ∷ seconds_per_day * 152
    ∷ seconds_per_day * 182
    ∷ seconds_per_day * 213
    ∷ seconds_per_day * 244
    ∷ seconds_per_day * 274
    ∷ seconds_per_day * 305
    ∷ seconds_per_day * 335
    ∷ seconds_per_day * 366
    ∷ []

abbrev pub running_seconds : ℕ → List ℕ
running_seconds year =
    if is_leap_year year then running_seconds_leap_year else running_seconds_non_leap_year

-- `month - 1` of a `uint8_t` 0 is -1: `none` is a read outside the table.
unfoldable pub seconds_up_until_month : ℕ → ℕ → Option ℕ
seconds_up_until_month zero year = none
seconds_up_until_month (suc month) year = get_elem? (running_seconds year) month

-- The loop of `getNumLeapYears`; `none` when the fuel runs out.
unfoldable pub leap_years_loop : ℕ → ℕ → ℕ → ℕ → Option ℕ
leap_years_loop zero year_cursor year num_leap_years = none
leap_years_loop (suc fuel) year_cursor year num_leap_years = elim (ltb year_cursor year) [
  | false ↦ some num_leap_years
  | true ↦
      leap_years_loop fuel ((year_cursor + 4) % 65536) year
        (if is_leap_year year_cursor then (num_leap_years + 1) % 65536 else num_leap_years)
]

-- A quarter of the rounds that 16-bit years leave room for is enough, when there is an end.
unfoldable pub get_num_leap_years : ℕ → Option ℕ
unfolding leap_years_loop
get_num_leap_years year = leap_years_loop 16384 1972 year 0

-- `OFFSETS`
abbrev pub offsets : List ℤ
offsets =
    negsuc 1199
    ∷ negsuc 1099
    ∷ negsuc 999
    ∷ negsuc 899
    ∷ negsuc 799
    ∷ negsuc 699
    ∷ negsuc 599
    ∷ negsuc 499
    ∷ negsuc 399
    ∷ negsuc 299
    ∷ negsuc 199
    ∷ negsuc 99
    ∷ pos 0
    ∷ pos 100
    ∷ pos 200
    ∷ pos 300
    ∷ pos 330
    ∷ pos 400
    ∷ pos 430
    ∷ pos 500
    ∷ pos 530
    ∷ pos 545
    ∷ pos 600
    ∷ pos 700
    ∷ pos 800
    ∷ pos 900
    ∷ pos 930
    ∷ pos 1000
    ∷ pos 1030
    ∷ pos 1100
    ∷ pos 1200
    ∷ pos 1245
    ∷ pos 1300
    ∷ pos 1345
    ∷ pos 1400
    ∷ []

abbrev pub same_int : ℤ → ℤ → Bool
same_int (pos a) (pos b) = a == b
same_int (negsuc a) (negsuc b) = a == b
same_int a b = false

abbrev pub offsets_contains : List ℤ → ℤ → Bool
offsets_contains [] offset = false
offsets_contains (x ∷ l) offset = if same_int x offset then true else offsets_contains l offset

-- `APPLICATION_TIME_OFFSET` behind the call, or `none` for the exception.
unfoldable pub set_application_time_offset : ℤ → Option ℤ
set_application_time_offset offset =
    if not (offsets_contains offsets offset) then none else some offset

-- `static_cast<uint64_t>(seconds + offset * SECONDS_PER_HOUR)`
abbrev pub shift_hours : ℕ → ℤ → ℕ
shift_hours seconds (pos n) = (seconds + n * seconds_per_hour) % 2 ^ 64
shift_hours seconds (negsuc n) = (seconds + 2 ^ 64 - suc n * seconds_per_hour) % 2 ^ 64

-- `getZonedEpochTime` off Windows, when the clock says `tv_sec`: the time, and `offset` behind it.
unfoldable pub get_zoned_epoch_time : ℤ → ℕ → ℤ → ℕ × ℤ
get_zoned_epoch_time application_time_offset tv_sec offset =
    let offset' =
      if not (offsets_contains offsets offset) then application_time_offset else offset in
    (shift_hours tv_sec offset', offset')

unfoldable pub get_utc_epoch_time : ℤ → ℕ → ℕ
unfolding get_zoned_epoch_time
get_utc_epoch_time application_time_offset tv_sec =
    (get_zoned_epoch_time application_time_offset tv_sec (pos 0)).0
