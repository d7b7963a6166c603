-- ===== src/Calendar/Months.antt =====
-- The month and the time of day in `getFormattedDateTime` of lib/ecal.cpp.
use c_cpp_sandbox.Common.{
  ℕ, suc, ◌+◌, ◌-◌, ◌*◌, ◌/◌, ◌%◌, ◌^◌, ◌≤◌, ◌<◌, some, List, [], ◌∷◌, ◌≡◌, refl, sym, ap, ap₂, ◌∙◌,
  inl, inr, arith, le-cases, get_elem?, length, le→leb, leb_no, subst,
}
use c_cpp_sandbox.Calendar.{seconds_per_hour, seconds_per_minute, seconds_per_day}
use c_cpp_sandbox.Calendar.Fields.{
  Fields, month_loop, fields_of_day, fields_of_rest, since_hour, since_day_start,
}

-- the seconds of 31 days
abbrev pub longest_month : ℕ
longest_month = 2678400

-- Neighbours in a table lie at most the longest month apart.
abbrev pub Gaps : ℕ → List ℕ → Type 0
Gaps t [] = Unit
Gaps t (u ∷ table) = (u ≤ t + longest_month) × Gaps u table

abbrev pub last_of : ℕ → List ℕ → ℕ
last_of t [] = t
last_of t (u ∷ table) = last_of u table

-- What the search in `t ∷ table` from index `i` on finds.
pub record Found (t : ℕ) (table : List ℕ) (i seconds : ℕ) : Type 0 where
  pub k : ℕ
  pub u : ℕ
  pub w : ℕ
  pub runs : month_loop table (suc i) seconds ≡ suc (i + k)
  pub at_u : get_elem? (t ∷ table) k ≡ some u
  pub at_w : get_elem? table k ≡ some w
  pub lo : u ≤ seconds
  pub hi : seconds < w
  pub near : seconds < u + longest_month
  pub within : k < length table

pub month_loop_go :
    (u : ℕ) (table : List ℕ) (i seconds : ℕ)
    → u ≤ seconds
    → month_loop (u ∷ table) i seconds ≡ month_loop table (suc i) seconds
unfolding month_loop
month_loop_go u table i seconds h = rw (month_loop, le→leb u seconds h) refl

month_loop_stop :
    (u : ℕ) (table : List ℕ) (i seconds : ℕ) → seconds < u → month_loop (u ∷ table) i seconds ≡ i
unfolding month_loop
month_loop_stop u table i seconds h = rw (month_loop, leb_no u seconds h) refl

pub month_loop-Found :
    (t : ℕ) (table : List ℕ) (i seconds : ℕ)
    → t ≤ seconds
    → Gaps t table
    → seconds < last_of t table
    → Found t table i seconds
month_loop-Found t [] i seconds h g lt = absurd (omega arith)
month_loop-Found t (v ∷ table) i seconds h (g, gs) lt = elim (le-cases v seconds) [
  | inl le ↦
      let f = month_loop-Found v table (suc i) seconds le gs lt in
      record {
        k = suc f.k;
        u = f.u;
        w = f.w;
        runs = month_loop_go v table (suc i) seconds le ∙ f.runs ∙ omega arith;
        at_u = f.at_u;
        at_w = f.at_w;
        lo = f.lo;
        hi = f.hi;
        near = f.near;
        within = omega (arith, f.within);
      }
  | inr more ↦ record {
    k = 0;
    u = t;
    w = v;
    runs = month_loop_stop v table (suc i) seconds more ∙ omega arith;
    at_u = refl;
    at_w = refl;
    lo = h;
    hi = more;
    near = omega arith;
    within = omega arith;
  }
]

-- The time of day and the day of the month, from seconds that lie within 31 days of the month.
pub record Clock (f : Fields) (seconds up_until : ℕ) : Type 0 where
  pub day_in : f.day < 31
  pub hr_in : f.hr < 24
  pub min_in : f.min < 60
  pub sec_in : f.sec < 60
  pub sum :
      up_until
        + f.day * seconds_per_day
        + f.hr * seconds_per_hour
        + f.min * seconds_per_minute
        + f.sec
      ≡ seconds

-- The clock of a day that has `x` seconds gone.
fields_of_day-Clock :
    (year month day x : ℕ)
    → day < 31
    → x < seconds_per_day
    → Clock (fields_of_day year month day x) (day * seconds_per_day + x) 0
unfolding fields_of_day
fields_of_day-Clock year month day x h lt =
    let left : since_hour x (x / seconds_per_hour % 256) ≡ x % seconds_per_hour = omega arith in
    let last : (since_hour x (x / seconds_per_hour % 256)
            + 2 ^ 32
            - since_hour x (x / seconds_per_hour % 256)
              / seconds_per_minute
              % 256
              * seconds_per_minute)
          % 2 ^ 32
          % 256
        ≡ x % seconds_per_hour % seconds_per_minute =
      ap (λ y. (y + 2 ^ 32 - y / seconds_per_minute % 256 * seconds_per_minute) % 2 ^ 32 % 256) left
      ∙ sixtieth (x % seconds_per_hour) (omega arith) in
    let hours : x / seconds_per_hour % 256 ≡ x / seconds_per_hour = omega arith in
    record {
      day_in = h;
      hr_in = omega (arith, lt);
      min_in = omega (arith, left);
      sec_in = omega (arith, last);
      sum = omega (
        arith,
        last,
        ap (λ y. y / seconds_per_minute % 256) left ∙ sixty (x % seconds_per_hour) (omega arith),
        hours,
        lt,
      );
    }
  where
    sixty : (y : ℕ) → y < 3600 → y / seconds_per_minute % 256 ≡ y / seconds_per_minute
    sixty y h = omega arith

    sixtieth :
        (y : ℕ)
        → y < 3600
        → (y + 2 ^ 32 - y / seconds_per_minute % 256 * seconds_per_minute) % 2 ^ 32 % 256
          ≡ y % seconds_per_minute
    sixtieth y h = omega arith

pub fields_of_rest-Clock :
    (year month seconds up_until : ℕ)
    → up_until ≤ seconds
    → seconds < up_until + longest_month
    → up_until < 2 ^ 32
    → Clock (fields_of_rest year month seconds up_until) seconds up_until
unfolding fields_of_rest
fields_of_rest-Clock year month seconds up_until lo near small =
    let d = seconds - up_until in
    let since : (seconds + 2 ^ 64 - up_until) % 2 ^ 32 ≡ d = omega arith in
    let same : fields_of_rest year month seconds up_until
        ≡ fields_of_day year month (d / seconds_per_day) (d % seconds_per_day) =
      ap
        (λ y.
          fields_of_day year month (y / seconds_per_day % 256)
            (since_day_start y (y / seconds_per_day % 256)))
        since
      ∙ ap₂ (fields_of_day year month) (days d (omega arith)) (rest_of_day d (omega arith)) in
    let c =
      fields_of_day-Clock year month (d / seconds_per_day) (d % seconds_per_day) (omega arith)
        (omega arith) in
    subst (λ f. Clock f seconds up_until) (sym same)
      (record {
        day_in = c.day_in;
        hr_in = c.hr_in;
        min_in = c.min_in;
        sec_in = c.sec_in;
        sum = omega (arith, c.sum, lo);
      })
  where
    days : (y : ℕ) → y < longest_month → y / seconds_per_day % 256 ≡ y / seconds_per_day
    days y h = omega arith

    rest_of_day :
        (y : ℕ)
        → y < longest_month
        → since_day_start y (y / seconds_per_day % 256) ≡ y % seconds_per_day
    rest_of_day y h = omega arith
