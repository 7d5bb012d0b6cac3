-- ===== src/Notifications/DueDays.antt =====
-- The days until a payment is due.
use sky_personal_ledger.Base.{
  ℕ, zero, suc, ◌+◌, ◌-◌, ◌%◌, ◌≤◌, ◌<◌, ◌≡◌, refl, ap, ◌∙◌, ◌⊎◌, inl, inr, true, false, not, ◌&&◌,
  ◌||◌, arith, ltb, leb, ◌==◌, if◌then◌else◌, leb→le, ==_iff, Bool-cases, pos, ◌-ℤ◌, eq_of_parts,
  int_laws,
}
use sky_personal_ledger.Notifications.Calendar.{
  Date, leap_day, last_day, days_before_year, days_before_month, day_number,
  calendar_day_difference, next_month, add_month, clamped_month_day, due_date,
  days_until_next_month_day,
}

-- A month from 1 to 12.
abbrev pub IsMonth : ℕ → Type 0
IsMonth m = (1 ≤ m) × (m ≤ 12)

abbrev pub clamp : ℕ → ℕ → ℕ → ℕ
clamp year month day =
    if ltb (last_day (leap_day year) month) day then last_day (leap_day year) month else day

leap_cases : (year : ℕ) → (leap_day year ≡ 0) ⊎ (leap_day year ≡ 1)
leap_cases year = elim (Bool-cases (year % 4 == 0 && (not (year % 100 == 0) || year % 400 == 0))) [
  | inl e ↦ inr (rw e refl)
  | inr e ↦ inl (rw e refl)
]

whole_year : (leap : ℕ) → days_before_month leap 12 + 31 ≡ 365 + leap
unfolding days_before_month
whole_year leap = omega arith

month_step :
    (leap m : ℕ)
    → 1 ≤ m
    → days_before_month leap (m + 1) ≡ days_before_month leap m + last_day leap m
unfolding days_before_month
month_step leap zero h = absurd (omega (arith, h))
month_step leap (suc k) h =
    let e : suc k + 1 ≡ suc (suc k) = omega arith in ap (days_before_month leap) e

year_step : (y : ℕ) → days_before_year (y + 1) ≡ days_before_year y + 365 + leap_day y
unfolding days_before_year
year_step y = let e : y + 1 ≡ suc y = omega arith in ap days_before_year e

january : (leap : ℕ) → days_before_month leap 1 ≡ 0
unfolding days_before_month
january leap = refl

number_of : ℕ → ℕ → ℕ → ℕ
number_of y m d = days_before_year y + days_before_month (leap_day y) m + d

-- A day of the next month is as many days after the same one of this month as this month has.
next_number :
    (d : Date) (day : ℕ)
    → 1 ≤ d.month
    → day_number (record (next_month d) { day = day })
      ≡ day_number (record d { day = day }) + last_day (leap_day d.year) d.month
unfolding day_number
next_number d day some_month = elim (Bool-cases (d.month == 12)) [
  | inl e ↦
      let december : d.month ≡ 12 = (==_iff d.month 12).0 e in
      rw e (
        rw december (
          turn (days_before_year d.year) (leap_day d.year) _ _ day (year_step d.year)
            (january (leap_day (d.year + 1))) (whole_year (leap_day d.year))))
  | inr e ↦ rw e (
      rw (month_step (leap_day d.year) d.month some_month) (
        shift (days_before_year d.year) (days_before_month (leap_day d.year) d.month)
          (last_day (leap_day d.year) d.month) day))
]
  where
    turn :
        (y leap next jan day : ℕ)
        → next ≡ y + 365 + leap
        → jan ≡ 0
        → days_before_month leap 12 + 31 ≡ 365 + leap
        → next + jan + day ≡ y + days_before_month leap 12 + day + 31
    turn y leap next jan day e f g = omega (arith, e, f, g)

    shift : (y m l day : ℕ) → y + (m + l) + day ≡ y + m + day + l
    shift y m l day = omega arith

on_day :
    (d : Date) (day : ℕ)
    → day_number (record d { day = day }) ≡ day_number (record d { day = 0 }) + day
unfolding day_number
on_day d day = omega arith

apart : (a b c : ℕ) → a ≡ b + c → pos a -ℤ pos b ≡ pos c
apart a b c e = rw e (eq_of_parts _ _ (omega (int_laws)))

-- The due date of a month, as a day of it.
abbrev pub due_in : Date → ℕ → Date
due_in d payment_day = record d { day = clamp d.year d.month payment_day }

this_month :
    (today : Date) (payment_day : ℕ)
    → today.day ≤ clamp today.year today.month payment_day
    → days_until_next_month_day today payment_day
      ≡ pos (clamp today.year today.month payment_day - today.day)
unfolding days_until_next_month_day due_date clamped_month_day calendar_day_difference
this_month today payment_day h =
    let c = clamp today.year today.month payment_day in
    let kept : ltb c today.day ≡ false = ground (arith, h) in
    rw kept (apart _ _ (c - today.day) (on_day today c ∙ omega (arith, h, on_day today today.day)))

past_due :
    (today : Date) (payment_day : ℕ)
    → clamp today.year today.month payment_day < today.day
    → days_until_next_month_day today payment_day
      ≡ calendar_day_difference today (due_in (add_month today) payment_day)
unfolding days_until_next_month_day due_date clamped_month_day
past_due today payment_day h =
    let late : ltb (clamp today.year today.month payment_day) today.day ≡ true =
      ground (arith, h) in
    rw late refl

next_day : (d : Date) → (next_month d).day ≡ d.day
next_day d = elim (Bool-cases (d.month == 12)) [ inl e ↦ rw e refl | inr e ↦ rw e refl ]

next_some : (d : Date) → 1 ≤ (next_month d).month
next_some d = elim (Bool-cases (d.month == 12)) [
  | inl e ↦ rw e (omega arith)
  | inr e ↦ rw e (omega arith)
]

-- A payment is due this month if its day, or the last of the month, is not past; if it is, it is due
-- next month, on its day or the last, as long as the next month has today's day.
pub days_until_next_month_day_lem :
    (today : Date) (payment_day : ℕ)
    → IsMonth today.month
    → today.day ≤ last_day (leap_day today.year) today.month
    → today.day ≤ last_day (leap_day (next_month today).year) (next_month today).month
    → days_until_next_month_day today payment_day ≡ (
        if leb today.day (clamp today.year today.month payment_day)
        then pos (clamp today.year today.month payment_day - today.day)
        else pos (
            last_day (leap_day today.year) today.month
            - today.day
            + clamp (next_month today).year (next_month today).month payment_day))
unfolding calendar_day_difference add_month
days_until_next_month_day_lem today payment_day (some_month, _) valid has_day =
    elim (Bool-cases (leb today.day (clamp today.year today.month payment_day))) [
      | inl t ↦ rw t (this_month today payment_day (leb→le _ _ t))
      | inr t ↦
          let next = next_month today in
          let c = clamp next.year next.month payment_day in
          let same : leb next.day (last_day (leap_day next.year) next.month) ≡ true =
            fits next.day today.day _ (next_day today) has_day in
          let late : clamp today.year today.month payment_day < today.day = ground (arith, t) in
          let number : day_number (record next { day = c })
              ≡ day_number today + (last_day (leap_day today.year) today.month - today.day + c) =
            next_number today c some_month
            ∙ omega (arith, on_day today c, on_day today today.day, valid) in
          rw t (
            past_due today payment_day late
            ∙ rw same
                (apart _ _ (last_day (leap_day today.year) today.month - today.day + c) number))
    ]
  where
    fits : (a b l : ℕ) → a ≡ b → b ≤ l → leb a l ≡ true
    fits a b l e h = ground (arith, e, h)

-- On a day that the next month does not have, a payment whose day is past is taken to be due in the
-- month after the next: the whole next month is skipped.
pub days_until_next_month_day-skips :
    (today : Date) (payment_day : ℕ)
    → IsMonth today.month
    → today.day ≤ last_day (leap_day today.year) today.month
    → last_day (leap_day (next_month today).year) (next_month today).month < today.day
    → clamp today.year today.month payment_day < today.day
    → days_until_next_month_day today payment_day
      ≡ pos (
          last_day (leap_day today.year) today.month
          - today.day
          + (last_day (leap_day (next_month today).year) (next_month today).month
              + clamp
                  (next_month (next_month today)).year
                  (next_month (next_month today)).month
                  payment_day))
unfolding calendar_day_difference add_month
days_until_next_month_day-skips today payment_day (some_month, _) valid no_day late =
    let next = next_month today in
    let after = next_month next in
    let c = clamp after.year after.month payment_day in
    let over : leb next.day (last_day (leap_day next.year) next.month) ≡ false =
      too_late next.day today.day _ (next_day today) no_day in
    let number : day_number (record after { day = c })
        ≡ day_number today
          + (last_day (leap_day today.year) today.month
              - today.day
              + (last_day (leap_day next.year) next.month + c)) =
      next_number next c (next_some today)
      ∙ omega
          (arith, next_number today c some_month, on_day today c, on_day today today.day, valid) in
    past_due today payment_day late ∙ rw over (apart _ _ _ number)
  where
    too_late : (a b l : ℕ) → a ≡ b → l < b → leb a l ≡ false
    too_late a b l e h = ground (arith, e, h)
