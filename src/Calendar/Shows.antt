-- ===== src/Calendar/Shows.antt =====
-- The fields that `getFormattedDateTime` of lib/ecal.cpp formats, as a whole.
use c_cpp_sandbox.Common.{
  zero, ◌==◌, ◌||◌, Option, [], sym, subst, ℕ, suc, ◌+◌, ◌-◌, ◌*◌, ◌/◌, ◌%◌, ◌^◌, ◌≤◌, ◌<◌, some,
  List, ◌∷◌, if◌then◌else◌, ◌≡◌, refl, ap, ap₂, ◌∙◌, inl, inr, arith, le-cases, Bool-cases,
  get_elem?, length, le→leb, leb_no, drop,
}
use c_cpp_sandbox.Calendar.{
  seconds_per_day, seconds_per_non_leap_year, is_leap_year, running_seconds,
  running_seconds_leap_year, running_seconds_non_leap_year, seconds_up_until_month,
}
use c_cpp_sandbox.Calendar.Fields.{
  Fields, since_year_start, year_loop, year_and_rest, month_loop, fields_of_day, fields_of_rest,
  fields_at, fields_of_epoch,
}
use c_cpp_sandbox.Calendar.Years.{
  leap, leap_yes, leap_no, leap_le, year_length, seconds_of_years, years_le, year_loop-found,
}
use c_cpp_sandbox.Calendar.Months.{
  Found, month_loop-Found, month_loop_go, Clock, fields_of_rest-Clock,
}

-- The days of a month, from 1 for January.
abbrev pub month_days : ℕ → ℕ → ℕ
month_days month year =
    if month == 2
    then 28 + leap year
    else if (month == 4) || (month == 6) || (month == 9) || (month == 11)
    then 30
    else 31

-- the days of the first `months` months of a year
abbrev pub days_through : ℕ → ℕ → ℕ
days_through zero year = 0
days_through (suc months) year = days_through months year + month_days (suc months) year

-- What the fields say of the time, and where their month begins and ends.
pub record Shows (epoch_seconds : ℕ) (f : Fields) : Type 0 where
  pub n : ℕ
  pub year_is : f.year ≡ 1970 + n
  pub month_in : (1 ≤ f.month) × (f.month ≤ 12)
  pub before : ℕ
  pub month_start : seconds_up_until_month f.month f.year ≡ some before
  pub next_month : ℕ
  pub month_end : seconds_up_until_month (suc f.month) f.year ≡ some next_month
  pub before_is : before ≡ days_through (f.month - 1) f.year * seconds_per_day
  pub next_month_is : next_month ≡ days_through f.month f.year * seconds_per_day
  pub in_month : epoch_seconds < seconds_of_years n + next_month
  pub clock : Clock f (epoch_seconds - seconds_of_years n) before
  pub in_year : seconds_of_years n ≤ epoch_seconds

-- The two tables.
tables :
    (year seconds : ℕ)
    → seconds < year_length year
    → (table : List ℕ) × (running_seconds year ≡ 0 ∷ table)
      × (length table ≡ 12)
      × Found 0 table 0 seconds
tables year seconds lt = elim (Bool-cases (is_leap_year year)) [
  | inl e ↦
      let table = drop 1 running_seconds_leap_year in
      (
        table,
        ap (λ b. if b then running_seconds_leap_year else running_seconds_non_leap_year) e,
        refl,
        month_loop-Found 0 table 0 seconds (omega arith) (omega arith)
            (omega (arith, lt, leap_yes year e)),
      )
  | inr e ↦
      let table = drop 1 running_seconds_non_leap_year in
      (
        table,
        ap (λ b. if b then running_seconds_leap_year else running_seconds_non_leap_year) e,
        refl,
        month_loop-Found 0 table 0 seconds (omega arith) (omega arith)
            (omega (arith, lt, leap_no year e)),
      )
]

-- A table, from index `k` on, has the seconds of the months before.
abbrev Agrees : ℕ → ℕ → List ℕ → Type 0
Agrees year k [] = Unit
Agrees year k (t ∷ table) = (t ≡ days_through k year * seconds_per_day) × Agrees year (suc k) table

running_seconds-Agrees : (year : ℕ) → Agrees year 0 (running_seconds year)
running_seconds-Agrees year = elim (Bool-cases (is_leap_year year)) [
  | inl e ↦
      subst
        (λ b.
          Agrees year 0 (if b then running_seconds_leap_year else running_seconds_non_leap_year))
        (sym e) (omega (arith, leap_yes year e))
  | inr e ↦
      subst
        (λ b.
          Agrees year 0 (if b then running_seconds_leap_year else running_seconds_non_leap_year))
        (sym e) (omega (arith, leap_no year e))
]

entry-Agrees :
    (year k i : ℕ) (table : List ℕ) (u : ℕ)
    → Agrees year k table
    → get_elem? table i ≡ some u
    → u ≡ days_through (k + i) year * seconds_per_day
entry-Agrees year k i [] u h e = absurd (cc e)
entry-Agrees year k zero (t ∷ table) u (h, hs) e =
    some_inj u t (sym e)
    ∙ h
    ∙ ap (λ m. days_through m year * seconds_per_day) {y = k + 0} (omega arith)
  where
    some_inj : (a b : ℕ) → ◌≡◌ {A = Option ℕ} (some a) (some b) → a ≡ b
    some_inj a b e = cc
entry-Agrees year k (suc i) (t ∷ table) u (h, hs) e =
    entry-Agrees year (suc k) i table u hs e
    ∙ ap (λ m. days_through m year * seconds_per_day) {y = k + suc i} (omega arith)

since-years :
    (m epoch : ℕ)
    → m < 60000
    → seconds_of_years m ≤ epoch
    → epoch < 2 ^ 62
    → since_year_start epoch (seconds_of_years (suc m)) (1970 + m) ≡ epoch - seconds_of_years m
since-years m epoch small le low = elim (Bool-cases (is_leap_year (1970 + m))) [
  | inl e ↦ ground (arith, e, leap_yes (1970 + m) e, years_le m)
  | inr e ↦ ground (arith, e, leap_no (1970 + m) e, years_le m)
]

late :
    (epoch : ℕ)
    → seconds_per_non_leap_year ≤ epoch
    → (count year : ℕ)
    → year_loop (suc (epoch / seconds_per_non_leap_year)) epoch 0 1970 ≡ some (count, year)
    → year_and_rest epoch
      ≡ some (since_year_start epoch count ((year + 65535) % 65536), (year + 65535) % 65536)
unfolding year_and_rest
late epoch le count year run =
    rw (year_and_rest, le→leb seconds_per_non_leap_year epoch le, run) refl

-- The year that the time lies in.
year_and_rest-year :
    (epoch : ℕ)
    → epoch < 59000 * seconds_per_non_leap_year
    → (m : ℕ) × (m < 60000)
      × (seconds_of_years m ≤ epoch)
      × (epoch - seconds_of_years m < year_length (1970 + m))
      × (year_and_rest epoch ≡ some (epoch - seconds_of_years m, 1970 + m))
unfolding year_and_rest
year_and_rest-year epoch small = elim (le-cases seconds_per_non_leap_year epoch) [
  | inr lt ↦ (
    0,
    omega arith,
    omega arith,
    omega arith,
    rw (year_and_rest, leb_no seconds_per_non_leap_year epoch lt)
        (ap (λ e. some (e, 1970)) {y = epoch - 0} (omega arith)),
  )
  | inl le ↦
      let (m, less, lo, hi, run) =
        year_loop-found (suc (epoch / seconds_per_non_leap_year)) 0 epoch (omega arith)
          (omega arith) (omega arith) in
      let back : (1971 + m + 65535) % 65536 ≡ 1970 + m = omega (arith, less) in
      (
        m,
        less,
        lo,
        omega (arith, hi, lo),
        late epoch le (seconds_of_years (suc m)) (1971 + m) run
            ∙ ap (λ y. some (since_year_start epoch (seconds_of_years (suc m)) y, y)) back
            ∙ ap (λ e. some (e, 1970 + m)) (since-years m epoch less lo (omega arith)),
      )
]

before_suc : (k : ℕ) → suc k - 1 ≡ k
before_suc k = omega arith

entry_read :
    (year seconds k u : ℕ)
    → get_elem? (running_seconds year) (suc k - 1) ≡ some u
    → fields_at year seconds (suc k) ≡ some (fields_of_rest year (suc k) seconds u)
unfolding fields_at
entry_read year seconds k u e = ground (arith, e)

Found-fields :
    (epoch seconds year : ℕ) (table : List ℕ) (f : Found 0 table 0 seconds)
    → year_and_rest epoch ≡ some (seconds, year)
    → running_seconds year ≡ 0 ∷ table
    → fields_of_epoch epoch ≡ some (fields_of_rest year (suc f.k) seconds f.u)
unfolding fields_of_epoch
Found-fields epoch seconds year table f e1 e2 =
    let index : month_loop (running_seconds year) 0 seconds ≡ suc f.k =
      ap (λ l. month_loop l 0 seconds) e2
      ∙ month_loop_go 0 table 0 seconds (omega arith)
      ∙ f.runs
      ∙ omega arith in
    let entry : get_elem? (running_seconds year) (suc f.k - 1) ≡ some f.u =
      ap₂ get_elem? e2 (before_suc f.k) ∙ f.at_u in
    rw (fields_of_epoch, e1)
      (ap (fields_at year seconds) index ∙ entry_read year seconds f.k f.u entry)

-- For every time before the 59000th year of 365 days from 1970: the search for the year and the
-- month ends inside the tables, and the fields are the year, month and day that the time lies in,
-- by the lengths of the Gregorian calendar's years and months, and the hour, minute and second of
-- the day, all in their ranges.
pub fields_of_epoch-Shows :
    (epoch : ℕ)
    → epoch < 59000 * seconds_per_non_leap_year
    → (f : Fields) × (fields_of_epoch epoch ≡ some f) × Shows epoch f
unfolding seconds_up_until_month fields_of_rest fields_of_day
fields_of_epoch-Shows epoch small =
    let (m, less, lo, len, run) = year_and_rest-year epoch small in
    let (table, eq, twelve, f) = tables (1970 + m) (epoch - seconds_of_years m) len in
    (
      fields_of_rest (1970 + m) (suc f.k) (epoch - seconds_of_years m) f.u,
      Found-fields epoch (epoch - seconds_of_years m) (1970 + m) table f run eq,
      record {
        n = m;
        year_is = refl;
        month_in = (omega arith, omega (arith, f.within, twelve));
        before = f.u;
        month_start = ap (λ l. get_elem? l f.k) eq ∙ f.at_u;
        next_month = f.w;
        month_end = ap (λ l. get_elem? l (suc f.k)) eq ∙ f.at_w;
        before_is =
            entry-Agrees (1970 + m) 0 f.k (running_seconds (1970 + m)) f.u
              (running_seconds-Agrees (1970 + m)) (ap (λ l. get_elem? l f.k) eq ∙ f.at_u)
            ∙ ap (λ k. days_through k (1970 + m) * seconds_per_day) {y = suc f.k - 1} (omega arith);
        next_month_is =
            entry-Agrees (1970 + m) 0 (suc f.k) (running_seconds (1970 + m)) f.w
              (running_seconds-Agrees (1970 + m)) (ap (λ l. get_elem? l (suc f.k)) eq ∙ f.at_w)
            ∙ ap (λ k. days_through k (1970 + m) * seconds_per_day) {y = suc f.k} (omega arith);
        in_month = omega (arith, f.hi, lo);
        clock =
            fields_of_rest-Clock (1970 + m) (suc f.k) (epoch - seconds_of_years m) f.u f.lo f.near
              (omega (arith, f.lo, len, leap_le (1970 + m)));
        in_year = lo;
      },
    )
