-- ===== src/Calendar/RoundTrip.antt =====
-- `getEpochFromFormattedDateTime` of lib/ecal.cpp on the texts of ISO 8601 without separators.
use c_cpp_sandbox.Common.{ℕ, ◌+◌, ◌*◌, ◌≤◌, ◌<◌, some, [], ◌≡◌, sym, ap, ◌∙◌, arith, subst, pos}
use c_cpp_sandbox.EStream.{EStream, got, get, ◌>>=◌, memory_stream}
use c_cpp_sandbox.EStream.Memory.{Holds, memory_stream-Holds, get-some}
use c_cpp_sandbox.EStream.Collect.{read_natural_n}
use c_cpp_sandbox.Calendar.{
  seconds_per_hour, seconds_per_minute, seconds_per_day, seconds_per_non_leap_year,
  seconds_up_until_month,
}
use c_cpp_sandbox.Calendar.Fields.{Fields, fields_of_epoch}
use c_cpp_sandbox.Calendar.Years.{seconds_of_years, years_ge}
use c_cpp_sandbox.Calendar.Shows.{fields_of_epoch-Shows}
use c_cpp_sandbox.Calendar.Parse.{
  add_offset, date_of, parse_iso8601_date_time, iso8601, get_epoch_from_formatted_date_time,
}
use c_cpp_sandbox.Calendar.Parts.{iso8601_text, then_got, read_date, read_time}

parse_iso8601-time :
    (fuel n month day hr min sec before : ℕ) (s : EStream)
    → 8 ≤ fuel
    → n ≤ 68
    → 1 ≤ month
    → month ≤ 12
    → day < 31
    → seconds_up_until_month month (1970 + n) ≡ some before
    → hr < 24
    → min < 60
    → sec < 60
    → Holds s (
        iso8601_text
          (record { year = 1970 + n; month = month; day = day; hr = hr; min = min; sec = sec }))
    → (s' : EStream) × (parse_iso8601_date_time fuel s
        ≡ got
            (add_offset
              (seconds_of_years n
                + before
                + day * seconds_per_day
                + hr * seconds_per_hour
                + min * seconds_per_minute
                + sec)
              (pos 0))
            s')
      × Holds s' []
unfolding parse_iso8601_date_time ◌>>=◌
parse_iso8601-time fuel n month day hr min sec before s enough h1 h2 h3 h4 e h5 h6 h7 hs =
    let (s1, run1, hs1) = read_date fuel enough n month day before _ s h1 h2 h3 h4 e hs in
    let (s2, run2, hs2) = get-some s1 0x54 _ hs1 in
    let (s3, run3, hs3) =
      read_time fuel enough (seconds_of_years n + before + day * seconds_per_day) hr min sec [] s2
        h5 h6 h7 hs2 in
    (
      s3,
      then_got (date_of (read_natural_n fuel 4) (read_natural_n fuel 2) (read_natural_n fuel 2) s)
            (seconds_of_years n + before + day * seconds_per_day) s1 _ run1
          ∙ then_got (get s1) 0x54 s2 _ run2
          ∙ run3,
      hs3,
    )

-- For every time before 15 December 2038 (69 years of 365 days from 1970): it has fields, and the
-- text of these by ISO 8601, without separators and for UTC, is parsed to the end without an
-- exception or undefined behaviour, and gives the time again.
pub get_epoch_from_formatted_date_time-fields_of_epoch :
    (epoch : ℕ)
    → epoch < 69 * seconds_per_non_leap_year
    → (f : Fields) × (s : EStream) × (fields_of_epoch epoch ≡ some f)
      × (get_epoch_from_formatted_date_time (iso8601_text f) iso8601 ≡ got epoch s)
      × Holds s []
unfolding get_epoch_from_formatted_date_time add_offset
get_epoch_from_formatted_date_time-fields_of_epoch epoch small =
    let (f, run, shows) = fields_of_epoch-Shows epoch (omega arith) in
    let c = shows.clock in
    let n = shows.n in
    let same : record f { year = 1970 + n } ≡ f =
      ap (λ y. record f { year = y }) (sym shows.year_is) in
    let text = iso8601_text f in
    let holds : Holds (memory_stream text 16) text = memory_stream-Holds text 16 (omega arith) in
    let (s', parsed, end) =
      parse_iso8601-time 18 n f.month f.day f.hr f.min f.sec shows.before (memory_stream text 16)
        (omega arith) (omega (arith, years_ge n, shows.in_year)) shows.month_in.0 shows.month_in.1
        c.day_in (ap (seconds_up_until_month f.month) (sym shows.year_is) ∙ shows.month_start)
        c.hr_in c.min_in c.sec_in
        (subst (λ g. Holds (memory_stream text 16) (iso8601_text g)) (sym same) holds) in
    (f, s', run, parsed ∙ ap (λ t. got t s') (omega (arith, c.sum, shows.in_year)), end)
