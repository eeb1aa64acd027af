-- ===== src/Templates/Tests.antt =====
-- The theorem about dates at work on the day 20000.
use tinymachine.Common.{ℕ, ◌≡◌, some}
use tinymachine.Templates.Dates.{days_to_date}
use tinymachine.Templates.Calendar.{IsDate, day_number, days_to_date-IsDate}

days_to_date-IsDate_example :
    (y m d : ℕ) × (days_to_date 20000 ≡ some (y, m, d)) × IsDate y m d × (day_number y m d ≡ 20000)
days_to_date-IsDate_example = days_to_date-IsDate 20000
