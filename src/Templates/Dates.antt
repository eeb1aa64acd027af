-- ===== src/Templates/Dates.antt =====
-- `days_to_date` of tinymachine-fork/src/template_registry.rs. Days are counted from 1970-01-01; the casts
-- keep their values, since a month has 31 days at most. The loop over the years has fuel.
use tinymachine.Common.{
  ℕ, zero, suc, ◌+◌, ◌-◌, ◌%◌, Bool, ◌&&◌, ◌||◌, not, ◌==◌, ltb, if◌then◌else◌, Option, none, some,
  List, [], ◌∷◌,
}

unfoldable pub is_leap : ℕ → Bool
is_leap year = (year % 4 == 0 && not (year % 100 == 0)) || year % 400 == 0

unfoldable pub days_in_year : ℕ → ℕ
unfolding is_leap
days_in_year y = if is_leap y then 366 else 365

-- `loop { … if d < days_in_year { break; } d -= days_in_year; y += 1; }`
unfoldable pub find_year : ℕ → ℕ → ℕ → Option (ℕ × ℕ)
find_year zero y d = none
find_year (suc fuel) y d =
    let later = find_year fuel (suc y) (d - days_in_year y) in
    if ltb d (days_in_year y) then some (y, d) else later

unfoldable pub month_days : ℕ → List ℕ
month_days y =
    if is_leap y
    then 31 ∷ 29 ∷ 31 ∷ 30 ∷ 31 ∷ 30 ∷ 31 ∷ 31 ∷ 30 ∷ 31 ∷ 30 ∷ 31 ∷ []
    else 31 ∷ 28 ∷ 31 ∷ 30 ∷ 31 ∷ 30 ∷ 31 ∷ 31 ∷ 30 ∷ 31 ∷ 30 ∷ 31 ∷ []

-- `for &md in &month_days { if d < md { break; } d -= md; m += 1; }`
unfoldable pub find_month : List ℕ → ℕ → ℕ → ℕ × ℕ
find_month [] m d = (m, d)
find_month (md ∷ rest) m d =
    let later = find_month rest (m + 1) (d - md) in if ltb d md then (m, d) else later

abbrev pub dated : Option (ℕ × ℕ) → Option (ℕ × ℕ × ℕ)
dated none = none
dated (some (y, d)) = let (m, d') = find_month (month_days y) 0 d in some (y, m + 1, d' + 1)

unfoldable pub days_to_date : ℕ → Option (ℕ × ℕ × ℕ)
unfolding find_year find_month month_days
days_to_date days = dated (find_year (suc days) 1970 days)
