-- ===== src/Templates/Calendar.antt =====
-- The dates of tinymachine-fork/src/template_registry.rs against the calendar's own count of days.
use tinymachine.Common.{
  ℕ, zero, suc, ◌+◌, ◌-◌, ◌*◌, ◌/◌, ◌≤◌, ◌<◌, ◌≡◌, refl, inl, inr, ◌||◌, ◌==◌, if◌then◌else◌,
  Bool-cases, ltb, ltb→lt, Option, none, some, List, [], ◌∷◌, sum, length, take, get_or, arith, ap,
  ◌∙◌,
}
use tinymachine.Templates.Dates.{
  is_leap, days_in_year, find_year, month_days, find_month, dated, days_to_date,
}

-- the leap years before `y`, by the rule of the calendar
abbrev leap_years_before : ℕ → ℕ
leap_years_before y = (y - 1) / 4 + (y - 1) / 400 - (y - 1) / 100

-- the days from 1970-01-01 to the first day of `y`
abbrev pub year_start : ℕ → ℕ
year_start y = 365 * (y - 1970) + (leap_years_before y - 477)

year_start-suc : (y : ℕ) → 1970 ≤ y → year_start (suc y) ≡ year_start y + days_in_year y
unfolding days_in_year is_leap
year_start-suc y le = ground arith

days_in_year-le : (y : ℕ) → 365 ≤ days_in_year y
unfolding days_in_year
days_in_year-le y = ground arith

-- A year with the days left over in it.
abbrev YearOf : ℕ → Option (ℕ × ℕ) → Type 0
YearOf total none = ⊥
YearOf total (some (y, d)) = (1970 ≤ y) × (d < days_in_year y) × (year_start y + d ≡ total)

find_year-YearOf :
    (fuel y d total : ℕ)
    → d < fuel
    → 1970 ≤ y
    → year_start y + d ≡ total
    → YearOf total (find_year fuel y d)
unfolding find_year
find_year-YearOf zero y d total lt le e = absurd (omega arith)
find_year-YearOf (suc fuel) y d total lt le e = elim (Bool-cases (ltb d (days_in_year y))) [
  | inl within ↦ rw (within, YearOf) (le, ltb→lt d (days_in_year y) within, e)
  | inr beyond ↦
      let most : 365 ≤ days_in_year y = days_in_year-le y in
      let enough : days_in_year y ≤ d = ground arith in
      rw (beyond, YearOf)
        (find_year-YearOf fuel (suc y) (d - days_in_year y) total (omega arith) (omega arith)
          (omega (arith, year_start-suc y le)))
]

-- A month from `m` on, counted in `l`, with the days left over in it.
abbrev MonthOf : List ℕ → ℕ → ℕ → ℕ × ℕ → Type 0
MonthOf l m total (m', d) =
    (k : ℕ) × (m' ≡ m + k) × (k < length l) × (d < get_or l k 0) × (sum (take k l) + d ≡ total)

find_month-MonthOf : (l : List ℕ) (m d : ℕ) → d < sum l → MonthOf l m d (find_month l m d)
unfolding find_month
find_month-MonthOf [] m d lt = absurd (omega arith)
find_month-MonthOf (md ∷ rest) m d lt = elim (Bool-cases (ltb d md)) [
  | inl within ↦ rw (within, MonthOf) (0, omega arith, omega arith, ltb→lt d md within, omega arith)
  | inr beyond ↦
      let (k, at, few, left, all) = find_month-MonthOf rest (m + 1) (d - md) (ground arith) in
      rw (beyond, MonthOf) (suc k, omega (arith, at), omega (arith, few), left, ground (arith, all))
]

-- Thirty days have April, June, September and November, February has twenty-eight and one more in a leap
-- year, and all the rest have thirty-one.
abbrev pub days_in_month : ℕ → ℕ → ℕ
days_in_month y m =
    if m == 2
    then 28 + (leap_years_before (suc y) - leap_years_before y)
    else if m == 4 || m == 6 || m == 9 || m == 11
    then 30
    else 31

-- the days of the first `k` months
abbrev pub first_months : ℕ → ℕ → ℕ
first_months y zero = 0
first_months y (suc k) = first_months y k + days_in_month y (suc k)

-- A date of the calendar.
abbrev pub IsDate : ℕ → ℕ → ℕ → Type 0
IsDate y m d = (1970 ≤ y) × (1 ≤ m) × (m ≤ 12) × (1 ≤ d) × (d ≤ days_in_month y m)

-- the days from 1970-01-01 to a date
abbrev pub day_number : ℕ → ℕ → ℕ → ℕ
day_number y m d = year_start y + first_months y (m - 1) + (d - 1)

february :
    (y : ℕ)
    → 1970 ≤ y
    → (if is_leap y then 29 else 28) ≡ 28 + (leap_years_before (suc y) - leap_years_before y)
unfolding is_leap
february y le = ground arith

-- The lengths of the list are those of the months from `m` on.
abbrev AreMonths : ℕ → ℕ → List ℕ → Type 0
AreMonths y m [] = Unit {0}
AreMonths y m (days ∷ rest) = (days ≡ days_in_month y m) × AreMonths y (suc m) rest

from_march : (y : ℕ) → AreMonths y 3 (31 ∷ 30 ∷ 31 ∷ 30 ∷ 31 ∷ 31 ∷ 30 ∷ 31 ∷ 30 ∷ 31 ∷ [])
from_march y = (refl, (refl, (refl, (refl, (refl, (refl, (refl, (refl, (refl, (refl, tt))))))))))

-- The table of the source is the calendar's.
month_days-AreMonths : (y : ℕ) → 1970 ≤ y → AreMonths y 1 (month_days y)
unfolding month_days
month_days-AreMonths y le = elim (Bool-cases (is_leap y)) [
  | inl leap ↦
      let feb : 29 ≡ days_in_month y 2 = ground (arith, february y le) in
      rw leap (refl, (feb, from_march y))
  | inr common ↦
      let feb : 28 ≡ days_in_month y 2 = ground (arith, february y le) in
      rw common (refl, (feb, from_march y))
]

AreMonths-get_or :
    (y m : ℕ) (l : List ℕ) (k : ℕ)
    → AreMonths y m l
    → k < length l
    → get_or l k 0 ≡ days_in_month y (k + m)
AreMonths-get_or y m [] k all lt = absurd (omega arith)
AreMonths-get_or y m (days ∷ rest) zero (here, later) lt =
    here ∙ ap (days_in_month y) {x = m} {y = 0 + m} (omega arith)
AreMonths-get_or y m (days ∷ rest) (suc k) (here, later) lt =
    AreMonths-get_or y (suc m) rest k later (omega arith)
    ∙ ap (days_in_month y) {x = k + suc m} {y = suc k + m} (omega arith)

sum-take-suc :
    (l : List ℕ) (k : ℕ) → k < length l → sum (take (suc k) l) ≡ sum (take k l) + get_or l k 0
sum-take-suc [] k lt = absurd (omega arith)
sum-take-suc (x ∷ l) zero lt = omega arith
sum-take-suc (x ∷ l) (suc k) lt = omega (arith, sum-take-suc l k (omega arith))

sum-month_days : (y : ℕ) → sum (month_days y) ≡ days_in_year y
unfolding month_days days_in_year
sum-month_days y = elim (Bool-cases (is_leap y)) [
  | inl leap ↦ rw leap refl
  | inr common ↦ rw common refl
]

length-month_days : (y : ℕ) → length (month_days y) ≡ 12
unfolding month_days
length-month_days y = elim (Bool-cases (is_leap y)) [
  | inl leap ↦ rw leap refl
  | inr common ↦ rw common refl
]

month_days_at : (y k : ℕ) → 1970 ≤ y → k < 12 → get_or (month_days y) k 0 ≡ days_in_month y (suc k)
month_days_at y k le lt =
    AreMonths-get_or y 1 (month_days y) k (month_days-AreMonths y le)
      (omega (arith, length-month_days y))
    ∙ ap (days_in_month y) {x = k + 1} {y = suc k} (omega arith)

sum-take-first_months :
    (y k : ℕ) → 1970 ≤ y → k ≤ 12 → sum (take k (month_days y)) ≡ first_months y k
sum-take-first_months y zero le le' = refl
sum-take-first_months y (suc k) le le' = omega (
  arith,
  sum-take-suc (month_days y) k (omega (arith, length-month_days y)),
  month_days_at y k le (omega arith),
  sum-take-first_months y k le (omega arith),
)

-- A date that lies `total` days after 1970-01-01.
abbrev DateOf : ℕ → Option (ℕ × ℕ × ℕ) → Type 0
DateOf total o = (y m d : ℕ) × (o ≡ some (y, m, d)) × IsDate y m d × (day_number y m d ≡ total)

dated-DateOf : (total : ℕ) (o : Option (ℕ × ℕ)) → YearOf total o → DateOf total (dated o)
dated-DateOf total none h = absurd h
dated-DateOf total (some (y, d)) (le, lt, e) =
    let month = find_month (month_days y) 0 d in
    let (k, at, few, left, all) =
      find_month-MonthOf (month_days y) 0 d (omega (arith, sum-month_days y)) in
    let below : k < 12 = omega (arith, length-month_days y) in
    let named : month.0 + 1 ≡ suc k = omega arith in
    let index : month.0 + 1 - 1 ≡ k = omega arith in
    let days : month.1 + 1 ≤ days_in_month y (month.0 + 1) =
      rw named (rw (← month_days_at y k le below) (omega arith)) in
    let counted : day_number y (month.0 + 1) (month.1 + 1) ≡ total =
      rw index (omega (arith, all, e, sum-take-first_months y k le (omega arith))) in
    (y, month.0 + 1, month.1 + 1, refl, (le, omega arith, omega arith, omega arith, days), counted)

-- For every number of days the loops end, and give a date that lies that many days after 1970-01-01, by a
-- calendar of its own: a leap day for every year divisible by 4, but not for those divisible by 100 and
-- not by 400, and months of 30 days (4, 6, 9, 11), 28 or 29 days (2) and 31 days (all others).
pub days_to_date-IsDate :
    (days : ℕ)
    → (y m d : ℕ) × (days_to_date days ≡ some (y, m, d)) × IsDate y m d × (day_number y m d ≡ days)
unfolding days_to_date
days_to_date-IsDate days =
    dated-DateOf days (find_year (suc days) 1970 days)
      (find_year-YearOf (suc days) 1970 days days (omega arith) (omega arith) (omega arith))
