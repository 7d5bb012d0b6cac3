-- ===== src/Notifications/Calendar.antt =====
-- The calendar of the payment reminders: service/local_date.go and the end of
-- service/notification_scheduler.go. A date is a year, a month from 1 to 12 and a day; `Date` of Go's
-- library carries a day that is too large into the next month.
use sky_personal_ledger.Base.{
  ℕ, zero, suc, ◌+◌, ◌-◌, ◌%◌, not, ◌&&◌, ◌||◌, ltb, leb, ◌==◌, if◌then◌else◌, ℤ, pos, ◌-ℤ◌,
}

pub record Date : Type 0 where
  pub year : ℕ
  pub month : ℕ
  pub day : ℕ

abbrev pub leap_day : ℕ → ℕ
leap_day year = if year % 4 == 0 && (not (year % 100 == 0) || year % 400 == 0) then 1 else 0

-- The last day of a month, `time.Date(year, month+1, 0, …).Day()`.
abbrev pub last_day : ℕ → ℕ → ℕ
last_day leap month =
    if month == 2
    then 28 + leap
    else if month == 4 || (month == 6 || (month == 9 || month == 11))
    then 30
    else 31

-- The days before a year, and those before a month of it.
unfoldable pub days_before_year : ℕ → ℕ
days_before_year zero = 0
days_before_year (suc year) = days_before_year year + 365 + leap_day year

unfoldable pub days_before_month : ℕ → ℕ → ℕ
days_before_month leap zero = 0
days_before_month leap (suc zero) = 0
days_before_month leap (suc (suc month)) =
    days_before_month leap (suc month) + last_day leap (suc month)

unfoldable pub day_number : Date → ℕ
day_number d = days_before_year d.year + days_before_month (leap_day d.year) d.month + d.day

-- `calendarDayDifference`
unfoldable pub calendar_day_difference : Date → Date → ℤ
calendar_day_difference start end = pos (day_number end) -ℤ pos (day_number start)

abbrev pub next_month : Date → Date
next_month d =
    if d.month == 12
    then record { year = d.year + 1; month = 1; day = d.day }
    else record { year = d.year; month = d.month + 1; day = d.day }

-- A date whose day may be over the last of its month: what is over counts in the month after.
abbrev pub normalize : Date → Date
normalize d =
    let last = last_day (leap_day d.year) d.month in
    if leb d.day last then d else record (next_month d) { day = d.day - last }

-- `AddDate(0, 1, 0)`
unfoldable pub add_month : Date → Date
add_month d = normalize (next_month d)

-- `clampedMonthDay`
unfoldable pub clamped_month_day : ℕ → ℕ → ℕ → Date
clamped_month_day year month day = record {
  year = year;
  month = month;
  day = if ltb (last_day (leap_day year) month) day then last_day (leap_day year) month else day;
}

-- The due date of `daysUntilNextMonthDay`: this month's, or if that is past the next one's.
unfoldable pub due_date : Date → ℕ → Date
unfolding clamped_month_day add_month
due_date today payment_day =
    let due = clamped_month_day today.year today.month payment_day in
    if ltb due.day today.day
    then clamped_month_day (add_month today).year (add_month today).month payment_day
    else due

-- `daysUntilNextMonthDay`
unfoldable pub days_until_next_month_day : Date → ℕ → ℤ
unfolding due_date
days_until_next_month_day today payment_day =
    calendar_day_difference today (due_date today payment_day)
