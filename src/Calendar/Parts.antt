-- ===== src/Calendar/Parts.antt =====
-- The parts of a text of ISO 8601 without separators, and what lib/ecal.cpp reads of each.
use c_cpp_sandbox.Common.{
  ℕ, ◌+◌, ◌-◌, ◌*◌, ◌/◌, ◌%◌, ◌^◌, ◌≤◌, ◌<◌, Bool, true, some, List, [], ◌∷◌, ◌++◌, if◌then◌else◌,
  ◌≡◌, refl, ap, ◌∙◌, arith, pos, ℤ, leb_no,
}
use c_cpp_sandbox.EStream.{EStream, Reading, got, raised, get, ◌>>=◌}
use c_cpp_sandbox.EStream.Memory.{Holds, get-some}
use c_cpp_sandbox.EStream.Collect.{accumulate_natural, read_natural_n}
use c_cpp_sandbox.EStream.Collect.Reads.{stream_collect-count}
use c_cpp_sandbox.Calendar.{
  seconds_per_hour, seconds_per_minute, seconds_per_day, seconds_per_non_leap_year,
  seconds_up_until_month,
}
use c_cpp_sandbox.Calendar.Fields.{Fields}
use c_cpp_sandbox.Calendar.Years.{
  seconds_of_years, seconds-leaps, get_num_leap_years-leaps_of_years,
}
use c_cpp_sandbox.Calendar.Parse.{
  is_valid_year, is_valid_month, is_valid_day, is_valid_hr, is_valid_min, is_valid_sec,
  year_seconds, checked, checked_year, year_part, month_seconds, add_offset, time_of_day, date_of,
  parse_iso8601_offset,
}

-- the digits of a number below 100, and of one below 10000
abbrev pub two_digits : ℕ → List ℕ
two_digits n = (0x30 + n / 10) ∷ (0x30 + n % 10) ∷ []

abbrev pub four_digits : ℕ → List ℕ
four_digits n = two_digits (n / 100) ++ two_digits (n % 100)

-- ISO 8601 without separators, for UTC: `YYYYMMDDThhmmssZ`
abbrev pub iso8601_text : Fields → List ℕ
iso8601_text f =
    four_digits f.year
    ++ (two_digits f.month
        ++ (two_digits (f.day + 1)
            ++ (0x54
                ∷ (two_digits f.hr ++ (two_digits f.min ++ (two_digits f.sec ++ (0x5a ∷ [])))))))

pub then_got {ℓ κ} :
    {A : Type ℓ} {B : Type κ} (r : Reading A) (a : A) (s : EStream) (f : A → EStream → Reading B)
    → r ≡ got a s
    → (r >>= f) ≡ f a s
unfolding ◌>>=◌
then_got r a s f e = ap (λ q. q >>= f) e

-- The checks of a date and of a time of day.
month_valid : (month : ℕ) → 1 ≤ month → month ≤ 12 → is_valid_month month 2 ≡ true
unfolding is_valid_month
month_valid month h1 h2 = ground arith

day_valid : (day : ℕ) → 1 ≤ day → day ≤ 31 → is_valid_day day 2 ≡ true
unfolding is_valid_day
day_valid day h1 h2 = ground arith

hr_valid : (hr : ℕ) → hr < 24 → is_valid_hr hr 2 ≡ true
unfolding is_valid_hr
hr_valid hr h = ground arith

min_valid : (min : ℕ) → min < 60 → is_valid_min min 2 ≡ true
unfolding is_valid_min
min_valid min h = ground arith

sec_valid : (sec : ℕ) → sec < 60 → is_valid_sec sec 2 ≡ true
unfolding is_valid_sec
sec_valid sec h = ground arith

year_valid : (year : ℕ) → 1970 ≤ year → year ≤ 9999 → is_valid_year year 4 ≡ true
unfolding is_valid_year
year_valid year h1 h2 = ground arith

-- The part of the time for a year whose product fits into `int`.
year_seconds-years : (n : ℕ) → n ≤ 68 → year_seconds (1970 + n) ≡ some (seconds_of_years n)
unfolding year_seconds
year_seconds-years n h =
    rw
      (
        year_seconds,
        leb_no (2 ^ 31) ((1970 + n - 1970) * seconds_per_non_leap_year) (omega arith),
        get_num_leap_years-leaps_of_years n (omega arith),
      )
      (ap some (omega (arith, seconds-leaps n)))

module _ (read_year read_month read_day : EStream → Reading (ℕ × ℕ)) where
  date_of_runs :
      (s s1 s2 s3 : EStream) (year seconds month before day : ℕ)
      → checked_year (read_year s) ≡ got year s1
      → year_part year s1 ≡ got seconds s1
      → checked is_valid_month (read_month s1) ≡ got month s2
      → month_seconds month year s2 ≡ got before s2
      → checked is_valid_day (read_day s2) ≡ got day s3
      → date_of read_year read_month read_day s
        ≡ got (seconds + before + (day - 1) * seconds_per_day) s3
  unfolding date_of ◌>>=◌
  date_of_runs s s1 s2 s3 year seconds month before day e1 e2 e3 e4 e5 =
      then_got (checked_year (read_year s)) year s1 _ e1
      ∙ then_got (year_part year s1) seconds s1 _ e2
      ∙ then_got (checked is_valid_month (read_month s1)) month s2 _ e3
      ∙ then_got (month_seconds month year s2) before s2 _ e4
      ∙ then_got (checked is_valid_day (read_day s2)) day s3 _ e5

module _ (read_hr read_min read_sec : EStream → Reading (ℕ × ℕ))
    (read_offset : EStream → Reading ℤ) where
  time_of_day_runs :
      (s s1 s2 s3 s4 : EStream) (date hr min sec : ℕ)
      → checked is_valid_hr (read_hr s) ≡ got hr s1
      → checked is_valid_min (read_min s1) ≡ got min s2
      → checked is_valid_sec (read_sec s2) ≡ got sec s3
      → read_offset s3 ≡ got (pos 0) s4
      → time_of_day read_hr read_min read_sec read_offset date s
        ≡ got
            (add_offset (date + hr * seconds_per_hour + min * seconds_per_minute + sec) (pos 0))
            s4
  unfolding time_of_day ◌>>=◌
  time_of_day_runs s s1 s2 s3 s4 date hr min sec e1 e2 e3 e4 =
      then_got (checked is_valid_hr (read_hr s)) hr s1 _ e1
      ∙ then_got (checked is_valid_min (read_min s1)) min s2 _ e2
      ∙ then_got (checked is_valid_sec (read_sec s2)) sec s3 _ e3
      ∙ then_got (read_offset s3) (pos 0) s4 _ e4

module _ (fuel : ℕ) (enough : 8 ≤ fuel) where
  read_two :
      (n : ℕ) (rest : List ℕ) (s : EStream)
      → n < 100
      → Holds s (two_digits n ++ rest)
      → (s' : EStream) × (read_natural_n fuel 2 s ≡ got (n, 2) s') × Holds s' rest
  unfolding read_natural_n accumulate_natural
  read_two n rest s h hs =
      stream_collect-count accumulate_natural fuel 2 (two_digits n) rest (0, 0) (n, 2) s refl
        (omega arith) (omega arith) (omega arith) (ap (λ v. some (v, 2)) (omega arith)) hs

  read_four :
      (n : ℕ) (rest : List ℕ) (s : EStream)
      → n < 10000
      → Holds s (four_digits n ++ rest)
      → (s' : EStream) × (read_natural_n fuel 4 s ≡ got (n, 4) s') × Holds s' rest
  unfolding read_natural_n accumulate_natural
  read_four n rest s h hs =
      stream_collect-count accumulate_natural fuel 4 (four_digits n) rest (0, 0) (n, 4) s refl
        (omega arith) (omega arith) (omega arith) (ap (λ v. some (v, 4)) (omega arith)) hs

  -- a number of two digits that passes its check
  checked_two :
      (valid : ℕ → ℕ → Bool) (n : ℕ) (rest : List ℕ) (s : EStream)
      → n < 100
      → valid n 2 ≡ true
      → Holds s (two_digits n ++ rest)
      → (s' : EStream) × (checked valid (read_natural_n fuel 2 s) ≡ got n s') × Holds s' rest
  unfolding checked
  checked_two valid n rest s h v hs =
      let (s', e, hs') = read_two n rest s h hs in
      (
        s',
        then_got (read_natural_n fuel 2 s) (n, 2) s' _ e
            ∙ ap (λ k. if valid k 2 then got k s' else raised s') {x = n % 256} {y = n}
                (omega arith)
            ∙ ap (λ b. if b then got n s' else raised s') v,
        hs',
      )

  pub read_date :
      (n month day before : ℕ) (rest : List ℕ) (s : EStream)
      → n ≤ 68
      → 1 ≤ month
      → month ≤ 12
      → day < 31
      → seconds_up_until_month month (1970 + n) ≡ some before
      → Holds s (four_digits (1970 + n) ++ (two_digits month ++ (two_digits (day + 1) ++ rest)))
      → (s' : EStream) × (date_of
            (read_natural_n fuel 4)
            (read_natural_n fuel 2)
            (read_natural_n fuel 2)
            s
          ≡ got (seconds_of_years n + before + day * seconds_per_day) s')
        × Holds s' rest
  unfolding checked_year year_part month_seconds
  read_date n month day before rest s h1 h2 h3 h4 e hs =
      let (s1, run1, hs1) = read_four (1970 + n) _ s (omega arith) hs in
      let (s2, run2, hs2) =
        checked_two is_valid_month month _ s1 (omega arith) (month_valid month h2 h3) hs1 in
      let (s3, run3, hs3) =
        checked_two is_valid_day (day + 1) rest s2 (omega arith)
          (day_valid (day + 1) (omega arith) (omega arith)) hs2 in
      let year_read : checked_year (read_natural_n fuel 4 s) ≡ got (1970 + n) s1 =
        then_got (read_natural_n fuel 4 s) (1970 + n, 4) s1 _ run1
        ∙ ap (λ y. if is_valid_year y 4 then got y s1 else raised s1) {x = (1970 + n) % 65536}
            {y = 1970 + n} (omega arith)
        ∙ ap (λ b. if b then got (1970 + n) s1 else raised s1)
            (year_valid (1970 + n) (omega arith) (omega arith)) in
      (
        s3,
        date_of_runs (read_natural_n fuel 4) (read_natural_n fuel 2) (read_natural_n fuel 2) s s1 s2
              s3 (1970 + n) (seconds_of_years n) month before (day + 1) year_read
              (ground (arith, year_seconds-years n h1)) run2 (ground (arith, e)) run3
            ∙ ap (λ d. got (seconds_of_years n + before + d * seconds_per_day) s3) {y = day}
                (omega arith),
        hs3,
      )

  pub read_time :
      (date hr min sec : ℕ) (rest : List ℕ) (s : EStream)
      → hr < 24
      → min < 60
      → sec < 60
      → Holds s (two_digits hr ++ (two_digits min ++ (two_digits sec ++ (0x5a ∷ rest))))
      → (s' : EStream) × (time_of_day
            (read_natural_n fuel 2)
            (read_natural_n fuel 2)
            (read_natural_n fuel 2)
            (parse_iso8601_offset fuel)
            date
            s
          ≡ got
              (add_offset (date + hr * seconds_per_hour + min * seconds_per_minute + sec) (pos 0))
              s')
        × Holds s' rest
  unfolding parse_iso8601_offset
  read_time date hr min sec rest s h1 h2 h3 hs =
      let (s1, run1, hs1) = checked_two is_valid_hr hr _ s (omega arith) (hr_valid hr h1) hs in
      let (s2, run2, hs2) =
        checked_two is_valid_min min _ s1 (omega arith) (min_valid min h2) hs1 in
      let (s3, run3, hs3) =
        checked_two is_valid_sec sec _ s2 (omega arith) (sec_valid sec h3) hs2 in
      let (s4, run4, hs4) = get-some s3 0x5a rest hs3 in
      (
        s4,
        time_of_day_runs (read_natural_n fuel 2) (read_natural_n fuel 2) (read_natural_n fuel 2)
            (parse_iso8601_offset fuel) s s1 s2 s3 s4 date hr min sec run1 run2 run3
            (then_got (get s3) 0x5a s4 _ run4),
        hs4,
      )
