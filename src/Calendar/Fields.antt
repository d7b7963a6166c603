-- ===== src/Calendar/Fields.antt =====
-- `getFormattedDateTime` of lib/ecal.cpp up to the formatting: the fields of a time.
use c_cpp_sandbox.Common.{
  ℕ, zero, suc, ◌+◌, ◌-◌, ◌*◌, ◌/◌, ◌%◌, ◌^◌, true, false, Option, none, some, List, leb, ◌==◌,
  if◌then◌else◌, get_elem?, [], ◌∷◌,
}
use c_cpp_sandbox.Calendar.{
  seconds_per_hour, seconds_per_minute, seconds_per_day, seconds_per_non_leap_year, is_leap_year,
  running_seconds,
}

-- `day` counts from 0.
pub record Fields : Type 0 where
  pub year : ℕ
  pub month : ℕ
  pub day : ℕ
  pub hr : ℕ
  pub min : ℕ
  pub sec : ℕ

abbrev pub uint64 : ℕ → ℕ
uint64 n = n % 2 ^ 64

-- `gregorian_count` behind the year
unfoldable pub next_count : ℕ → ℕ → ℕ
next_count gregorian_count year = uint64 (
    gregorian_count
    + seconds_per_non_leap_year
    + (if is_leap_year year then seconds_per_day else 0))

-- The do-while loop: `gregorian_count` and `year` behind it; `none` when the fuel runs out.
unfoldable pub year_loop : ℕ → ℕ → ℕ → ℕ → Option (ℕ × ℕ)
unfolding next_count
year_loop zero epoch_seconds gregorian_count year = none
year_loop (suc fuel) epoch_seconds gregorian_count year =
    elim (leb (next_count gregorian_count year) epoch_seconds) [
      | true ↦ year_loop fuel epoch_seconds (next_count gregorian_count year) ((year + 1) % 65536)
      | false ↦ some (next_count gregorian_count year, (year + 1) % 65536)
    ]

-- `seconds_since_year_start` behind the loop. Where the year is a leap year the first subtraction
-- may wrap below zero, and the day that is added wraps it back.
abbrev pub since_year_start : ℕ → ℕ → ℕ → ℕ
since_year_start epoch_seconds gregorian_count year =
    let seconds =
      uint64
        (epoch_seconds + 2 ^ 64 - uint64 (gregorian_count + 2 ^ 64 - seconds_per_non_leap_year)) in
    if is_leap_year year then uint64 (seconds + seconds_per_day) else seconds

-- `seconds_since_year_start` and `year`
unfoldable pub year_and_rest : ℕ → Option (ℕ × ℕ)
unfolding year_loop
year_and_rest epoch_seconds =
    if leb seconds_per_non_leap_year epoch_seconds
    then elim (year_loop (suc (epoch_seconds / seconds_per_non_leap_year)) epoch_seconds 0 1970) [
      | none ↦ none
      | some (count, year) ↦
          let year' = (year + 65535) % 65536 in
          some (since_year_start epoch_seconds count year', year')
    ]
    else some (epoch_seconds, 1970)

-- `while (i < SIZE_MONTHS_ARRAY && ...) i++`, by the rest of the table from `i` on
unfoldable pub month_loop : List ℕ → ℕ → ℕ → ℕ
month_loop [] i seconds = i
month_loop (t ∷ table) i seconds = elim (leb t seconds) [
  | true ↦ month_loop table (suc i) seconds
  | false ↦ i
]

-- `seconds_since_day_start` and what is left of it behind the hours
abbrev pub since_day_start : ℕ → ℕ → ℕ
since_day_start since_month day = (since_month + 2 ^ 32 - day * seconds_per_day) % 2 ^ 32

abbrev pub since_hour : ℕ → ℕ → ℕ
since_hour since_day hr = (since_day + 2 ^ 32 - hr * seconds_per_hour) % 2 ^ 32

-- hour, minute and second
unfoldable pub fields_of_day : ℕ → ℕ → ℕ → ℕ → Fields
fields_of_day year month day since_day =
    let hr = since_day / seconds_per_hour % 256 in
    let min = since_hour since_day hr / seconds_per_minute % 256 in
    record {
      year = year;
      month = month;
      day = day;
      hr = hr;
      min = min;
      sec = (since_hour since_day hr + 2 ^ 32 - min * seconds_per_minute) % 2 ^ 32 % 256;
    }

-- `month`, `day` and the time of day, by `seconds_up_until_month`
unfoldable pub fields_of_rest : ℕ → ℕ → ℕ → ℕ → Fields
unfolding fields_of_day
fields_of_rest year month seconds up_until_month =
    let since_month = (seconds + 2 ^ 64 - up_until_month) % 2 ^ 32 in
    let day = since_month / seconds_per_day % 256 in
    fields_of_day year month day (since_day_start since_month day)

-- `running_seconds_up_until_month[i == 0 ? 0 : i - 1]` and the fields that follow from it
unfoldable pub fields_at : ℕ → ℕ → ℕ → Option Fields
unfolding fields_of_rest
fields_at year seconds i = elim (get_elem? (running_seconds year) (if i == 0 then 0 else i - 1)) [
  | none ↦ none
  | some up_until_month ↦ some (fields_of_rest year i seconds up_until_month)
]

-- The fields that `getFormattedDateTime` formats for the time `epoch_seconds`.
unfoldable pub fields_of_epoch : ℕ → Option Fields
unfolding year_and_rest month_loop fields_at
fields_of_epoch epoch_seconds = elim (year_and_rest epoch_seconds) [
  | none ↦ none
  | some (seconds, year) ↦ fields_at year seconds (month_loop (running_seconds year) 0 seconds)
]
