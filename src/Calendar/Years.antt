-- ===== src/Calendar/Years.antt =====
-- The seconds before each year: the closed computation of lib/ecal.cpp and etime.cpp and the loop of
-- `getFormattedDateTime` against a sum over the years.
use c_cpp_sandbox.Common.{
  ℕ, zero, suc, ◌+◌, ◌*◌, ◌%◌, ◌≤◌, ◌<◌, Bool, true, false, some, ltb, ◌==◌, if◌then◌else◌, ◌≡◌,
  refl, sym, ap, ap₂, ◌∙◌, inl, inr, arith, le-cases, Bool-cases, ◌≢◌, lt→ltb, ltb_no, leb_no,
  le→leb,
}
use c_cpp_sandbox.Calendar.{
  seconds_per_day, seconds_per_non_leap_year, is_leap_year, leap_years_loop, get_num_leap_years,
}
use c_cpp_sandbox.Calendar.Fields.{next_count, year_loop}

-- The days that a year has more than 365, by the Gregorian rule.
unfoldable pub leap : ℕ → ℕ
leap year =
    if year % 400 == 0 then 1 else if year % 100 == 0 then 0 else if year % 4 == 0 then 1 else 0

leap-is_leap_year : (year : ℕ) → leap year ≡ (if is_leap_year year then 1 else 0)
unfolding leap is_leap_year
leap-is_leap_year year = ground arith

pub leap_yes : (year : ℕ) → is_leap_year year ≡ true → leap year ≡ 1
leap_yes year e = leap-is_leap_year year ∙ ap {B = ℕ} (λ b. if b then 1 else 0) e

pub leap_no : (year : ℕ) → is_leap_year year ≡ false → leap year ≡ 0
leap_no year e = leap-is_leap_year year ∙ ap {B = ℕ} (λ b. if b then 1 else 0) e

pub leap_le : (year : ℕ) → leap year ≤ 1
unfolding leap
leap_le year = ground arith

abbrev pub year_length : ℕ → ℕ
year_length year = seconds_per_non_leap_year + leap year * seconds_per_day

-- the seconds of `n` years from 1970 on
abbrev pub seconds_of_years : ℕ → ℕ
seconds_of_years zero = 0
seconds_of_years (suc n) = seconds_of_years n + year_length (1970 + n)

-- the leap years among `n` years from 1970 on
abbrev pub leaps_of_years : ℕ → ℕ
leaps_of_years zero = 0
leaps_of_years (suc n) = leaps_of_years n + leap (1970 + n)

pub seconds-leaps :
    (n : ℕ)
    → seconds_of_years n ≡ n * seconds_per_non_leap_year + leaps_of_years n * seconds_per_day
seconds-leaps zero = refl
seconds-leaps (suc n) = omega (arith, seconds-leaps n)

leaps_le : (n : ℕ) → leaps_of_years n ≤ n
leaps_le zero = omega arith
leaps_le (suc n) = omega (arith, leaps_le n, leap_le (1970 + n))

-- the leap years from `cursor` on, four years at a time, before `year`
abbrev by_four : ℕ → ℕ → ℕ → ℕ
by_four zero cursor year = 0
by_four (suc fuel) cursor year =
    if ltb cursor year then leap cursor + by_four fuel (cursor + 4) year else 0

by_four_yes :
    (fuel cursor year : ℕ)
    → cursor < year
    → by_four (suc fuel) cursor year ≡ leap cursor + by_four fuel (cursor + 4) year
by_four_yes fuel cursor year h =
    ap (λ b. if b then leap cursor + by_four fuel (cursor + 4) year else 0) (lt→ltb cursor year h)

by_four_no : (fuel cursor year : ℕ) → year ≤ cursor → by_four fuel cursor year ≡ 0
by_four_no zero cursor year h = refl
by_four_no (suc fuel) cursor year h =
    ap (λ b. if b then leap cursor + by_four fuel (cursor + 4) year else 0) (ltb_no cursor year h)

-- a leap year is a multiple of four
leap_zero : (year : ℕ) → year % 4 ≢ 0 → leap year ≡ 0
unfolding leap
leap_zero year h = ground arith

by_four-suc_late :
    (fuel cursor year : ℕ)
    → cursor % 4 ≡ 0
    → cursor < year + 4
    → year ≤ cursor
    → by_four (suc fuel) cursor (suc year) ≡ by_four (suc fuel) cursor year + leap year
by_four-suc_late fuel cursor year m h le = elim (le-cases cursor year) [
  | inl ge ↦
      by_four_yes fuel cursor (suc year) (omega arith)
      ∙ ap₂ ◌+◌ (ap leap {y = year} (omega arith))
          (by_four_no fuel (cursor + 4) (suc year) (omega arith))
      ∙ omega (arith, by_four_no (suc fuel) cursor year le)
  | inr gt ↦
      by_four_no (suc fuel) cursor (suc year) (omega arith)
      ∙ omega (arith, by_four_no (suc fuel) cursor year le, leap_zero year (λ e. omega (arith, e)))
]

by_four-suc :
    (fuel cursor year : ℕ)
    → cursor % 4 ≡ 0
    → cursor < year + 4
    → year < cursor + fuel * 4 + 4
    → by_four (suc fuel) cursor (suc year) ≡ by_four (suc fuel) cursor year + leap year
by_four-suc zero cursor year m h enough = elim (le-cases year cursor) [
  | inl le ↦ by_four-suc_late zero cursor year m h le
  | inr lt ↦
      by_four_yes zero cursor (suc year) (omega arith)
      ∙ omega (arith, by_four_yes zero cursor year lt, leap_zero year (λ e. omega (arith, e)))
]
by_four-suc (suc fuel) cursor year m h enough = elim (le-cases year cursor) [
  | inl le ↦ by_four-suc_late (suc fuel) cursor year m h le
  | inr lt ↦
      by_four_yes (suc fuel) cursor (suc year) (omega arith)
      ∙ omega (
        arith,
        by_four-suc fuel (cursor + 4) year (omega arith) (omega arith) (omega arith),
        by_four_yes (suc fuel) cursor year lt,
      )
]

by_four-leaps : (fuel n : ℕ) → n < fuel * 4 → by_four (suc fuel) 1972 (1970 + n) ≡ leaps_of_years n
by_four-leaps fuel zero h = by_four_no (suc fuel) 1972 1970 (omega arith)
by_four-leaps fuel (suc n) h =
    ap (by_four (suc fuel) 1972) {y = suc (1970 + n)} (omega arith)
    ∙ by_four-suc fuel 1972 (1970 + n) refl (omega arith) (omega arith)
    ∙ ap (λ k. k + leap (1970 + n)) (by_four-leaps fuel n (omega arith))

counted :
    (b : Bool) (count : ℕ)
    → count + 1 < 65536
    → (if b then (count + 1) % 65536 else count) ≡ count + (if b then 1 else 0)
counted true count h = omega arith
counted false count h = omega arith

by_four_le : (fuel cursor year : ℕ) → by_four fuel cursor year ≤ fuel
by_four_le zero cursor year = omega arith
by_four_le (suc fuel) cursor year =
    ground (arith, by_four_le fuel (cursor + 4) year, leap_le cursor)

ends :
    (fuel cursor year count : ℕ)
    → year ≤ cursor
    → leap_years_loop (suc fuel) cursor year count ≡ some count
unfolding leap_years_loop
ends fuel cursor year count h = rw (leap_years_loop, ltb_no cursor year h) refl

goes_on :
    (fuel cursor year count : ℕ)
    → cursor + 4 < 65536
    → cursor < year
    → count + 1 < 65536
    → leap_years_loop (suc fuel) cursor year count
      ≡ leap_years_loop fuel (cursor + 4) year (count + leap cursor)
unfolding leap_years_loop
goes_on fuel cursor year count h lt room =
    rw (leap_years_loop, lt→ltb cursor year lt)
      (ap₂ (λ c k. leap_years_loop fuel c year k) (omega arith)
        (counted (is_leap_year cursor) count room
          ∙ ap (λ k. count + k) (sym (leap-is_leap_year cursor))))

-- The 16-bit loop runs the same way while the year is not among the last three.
leap_years_loop-by_four :
    (fuel cursor year count : ℕ)
    → year ≤ 65532
    → cursor ≤ 65535
    → year ≤ cursor + fuel * 4
    → count + fuel < 65536
    → leap_years_loop (suc fuel) cursor year count ≡ some (count + by_four fuel cursor year)
unfolding leap_years_loop
leap_years_loop-by_four zero cursor year count small low enough room =
    ends zero cursor year count (omega arith) ∙ ap some (omega arith)
leap_years_loop-by_four (suc fuel) cursor year count small low enough room =
    elim (le-cases year cursor) [
      | inl le ↦
          ends (suc fuel) cursor year count le
          ∙ ap some (omega (arith, by_four_no (suc fuel) cursor year le))
      | inr lt ↦
          goes_on (suc fuel) cursor year count (omega arith) lt (omega arith)
          ∙ leap_years_loop-by_four fuel (cursor + 4) year (count + leap cursor) small (omega arith)
              (omega arith) (omega (arith, leap_le cursor))
          ∙ ap some (omega (arith, by_four_yes fuel cursor year lt))
    ]

-- `getNumLeapYears` ends for every year up to 65532, and counts the leap years by the Gregorian rule
-- from 1970 up to the year, which it does not count. The years before 1972 have none.
pub get_num_leap_years-leaps_of_years :
    (n : ℕ) → 1970 + n ≤ 65532 → get_num_leap_years (1970 + n) ≡ some (leaps_of_years n)
unfolding get_num_leap_years
get_num_leap_years-leaps_of_years n h =
    ap (λ f. leap_years_loop f 1972 (1970 + n) 0) {x = 16384} {y = suc 16383} (omega arith)
    ∙ leap_years_loop-by_four 16383 1972 (1970 + n) 0 h (omega arith) (omega arith) (omega arith)
    ∙ ap some (
        ap (λ f. 0 + by_four f 1972 (1970 + n)) {x = 16383} {y = suc 16382} (omega arith)
        ∙ omega (arith, by_four-leaps 16382 n (omega arith)))

-- `seconds_of_years` grows by a year's length, and by at least 365 days.
pub years_ge : (n : ℕ) → n * seconds_per_non_leap_year ≤ seconds_of_years n
years_ge n = omega (arith, seconds-leaps n)

pub years_le : (n : ℕ) → seconds_of_years n ≤ n * 31622400
years_le n = omega (arith, seconds-leaps n, leaps_le n)

-- What the loop of `getFormattedDateTime` counts.
next_count-years :
    (n : ℕ) → n < 65000 → next_count (seconds_of_years n) (1970 + n) ≡ seconds_of_years (suc n)
unfolding next_count
next_count-years n h = elim (Bool-cases (is_leap_year (1970 + n))) [
  | inl e ↦ ground (arith, e, leap_yes (1970 + n) e, years_le n)
  | inr e ↦ ground (arith, e, leap_no (1970 + n) e, years_le n)
]

next_year : (n : ℕ) → n < 60000 → (1970 + n + 1) % 65536 ≡ 1970 + suc n
next_year n h = omega arith

year_goes :
    (fuel n epoch : ℕ)
    → n < 60000
    → seconds_of_years (suc n) ≤ epoch
    → year_loop (suc fuel) epoch (seconds_of_years n) (1970 + n)
      ≡ year_loop fuel epoch (seconds_of_years (suc n)) (1970 + suc n)
unfolding year_loop
year_goes fuel n epoch small le =
    rw (year_loop, next_count-years n (omega arith), le→leb (seconds_of_years (suc n)) epoch le)
      (ap₂ (year_loop fuel epoch) (next_count-years n (omega arith)) (next_year n small))

year_ends :
    (fuel n epoch : ℕ)
    → n < 60000
    → epoch < seconds_of_years (suc n)
    → year_loop (suc fuel) epoch (seconds_of_years n) (1970 + n)
      ≡ some (seconds_of_years (suc n), 1971 + n)
unfolding year_loop
year_ends fuel n epoch small lt =
    rw (year_loop, next_count-years n (omega arith), leb_no (seconds_of_years (suc n)) epoch lt)
      (ap₂ (λ c y. some (c, y)) (next_count-years n (omega arith))
        (next_year n small ∙ omega arith))

-- From the beginning of a year that is not behind the time, the loop finds the year it lies in.
pub year_loop-found :
    (fuel n epoch : ℕ)
    → seconds_of_years n ≤ epoch
    → epoch < (n + fuel) * seconds_per_non_leap_year
    → n + fuel < 60000
    → (m : ℕ) × (m < 60000)
      × (seconds_of_years m ≤ epoch)
      × (epoch < seconds_of_years (suc m))
      × (year_loop fuel epoch (seconds_of_years n) (1970 + n)
          ≡ some (seconds_of_years (suc m), 1971 + m))
unfolding year_loop
year_loop-found zero n epoch h enough room = absurd (omega (arith, years_ge n))
year_loop-found (suc fuel) n epoch h enough room =
    elim (le-cases (seconds_of_years (suc n)) epoch) [
      | inl le ↦
          let (m, small, lo, hi, run) =
            year_loop-found fuel (suc n) epoch le (omega arith) (omega arith) in
          (m, small, lo, hi, year_goes fuel n epoch (omega arith) le ∙ run)
      | inr lt ↦ (n, omega arith, h, lt, year_ends fuel n epoch (omega arith) lt)
    ]
