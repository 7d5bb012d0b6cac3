-- ===== src/Notifications/Checks.antt =====
-- The checks of `CheckAndNotify`: payments, lendings, budgets and the annual report of each user, on a
-- given day. A table that cannot be read is `none`.
use sky_personal_ledger.Base.{
  ℕ, ◌+◌, ◌-◌, Bool, false, not, ◌&&◌, ◌||◌, Option, none, some, List, [], ◌∷◌, ◌++◌, ltb, ◌==◌,
  if◌then◌else◌, ℤ, pos, negsuc, pos_part, ◌-ℤ◌, ltb_ℤ, leb_ℤ, ◌==ℤ◌, length,
}
use sky_personal_ledger.Money.{Amount, lt_amount, le_amount, zero_amount}
use sky_personal_ledger.Budgets.{BudgetItem, BudgetList}
use sky_personal_ledger.Notifications.Defs.{
  NotificationSetting, enabled_channels, Outcome, Deliveries, failed_more, skipped_more, deliver,
  clamp_advance_days,
}
use sky_personal_ledger.Notifications.Calendar.{Date, day_number, days_until_next_month_day}

pub record PaymentReminder : Type 0 where
  pub id : ℕ
  pub is_enabled : Bool
  pub payment_day : ℕ
  pub advance_days : ℤ
  pub current_balance : Option Amount
  pub amount : Option Amount

-- A lending that is not settled, with the number of the day on which it is due.
pub record DueLending : Type 0 where
  pub id : ℕ
  pub due_date : Option ℕ
  pub current_balance : Amount

abbrev pub is_positive : Option Amount → Bool
is_positive none = false
is_positive (some a) = lt_amount zero_amount a

-- Whether `reminderNotificationAmount` is positive.
abbrev pub has_amount : PaymentReminder → Bool
has_amount r = is_positive r.current_balance || is_positive r.amount

-- What is printed in the dedupe keys.
pub record Keys : Type 0 where
  pub payment : ℕ → ℕ → ℤ → ℕ
  pub lending : ℕ → ℕ → ℤ → ℕ
  pub budget : ℕ → ℕ → ℕ → ℕ
  pub annual : ℕ → ℕ → ℕ

abbrev pub failed_read : Deliveries → Deliveries
failed_read d = record d { result = failed_more d.result }

abbrev pub total_first : Option BudgetItem → List BudgetItem → List BudgetItem
total_first none items = items
total_first (some b) items = b ∷ items

-- What a check finds of a user.
pub record UserChecks : Type 0 where
  pub user_id : ℕ
  pub setting : Option NotificationSetting
  pub reminders : Option (List PaymentReminder)
  pub lendings : Option (List DueLending)
  pub budgets : Option BudgetList

module _ (dedupe : ℕ → ℕ → ℕ) (at : ℕ → ℕ → Outcome) (keys : Keys) (today : Date) where
  abbrev pub advance_of : NotificationSetting → PaymentReminder → ℤ
  advance_of setting r =
      clamp_advance_days
        (if leb_ℤ r.advance_days (pos 0) then setting.advance_days else r.advance_days)

  unfoldable pub check_reminder :
      ℕ → NotificationSetting → PaymentReminder → Deliveries → Deliveries
  check_reminder user setting r d =
      let days = days_until_next_month_day today r.payment_day in
      if not r.is_enabled
        || (ltb r.payment_day 1
            || (ltb 31 r.payment_day
                || (not (has_amount r)
                    || (not (days ==ℤ pos 0) && not (days ==ℤ advance_of setting r)))))
      then d
      else deliver dedupe at user setting 1
          (keys.payment r.id (day_number today + pos_part days) days) d

  unfoldable pub check_each_reminder :
      ℕ → NotificationSetting → List PaymentReminder → Deliveries → Deliveries
  check_each_reminder user setting [] d = d
  check_each_reminder user setting (r ∷ reminders) d =
      check_each_reminder user setting reminders (check_reminder user setting r d)

  unfoldable pub reminders_found :
      ℕ → NotificationSetting → Option (List PaymentReminder) → Deliveries → Deliveries
  reminders_found user setting none d = failed_read d
  reminders_found user setting (some reminders) d = check_each_reminder user setting reminders d

  -- `checkPaymentReminders`
  unfoldable pub check_payment_reminders :
      UserChecks → NotificationSetting → Deliveries → Deliveries
  check_payment_reminders u setting d =
      if not setting.notify_payment_due then d else reminders_found u.user_id setting u.reminders d

  abbrev pub is_due : ℤ → ℤ → Bool
  is_due advance days = days ==ℤ advance || (days ==ℤ pos 0 || days ==ℤ negsuc 0)

  unfoldable pub check_due :
      ℕ → NotificationSetting → DueLending → Option ℕ → Deliveries → Deliveries
  check_due user setting l none d = d
  check_due user setting l (some due) d =
      let days = pos due -ℤ pos (day_number today) in
      if le_amount l.current_balance zero_amount
        || not (is_due (clamp_advance_days setting.advance_days) days)
      then d
      else deliver dedupe at user setting 2 (keys.lending l.id due days) d

  unfoldable pub check_each_lending :
      ℕ → NotificationSetting → List DueLending → Deliveries → Deliveries
  check_each_lending user setting [] d = d
  check_each_lending user setting (l ∷ lendings) d =
      check_each_lending user setting lendings (check_due user setting l l.due_date d)

  unfoldable pub lendings_found :
      ℕ → NotificationSetting → Option (List DueLending) → Deliveries → Deliveries
  lendings_found user setting none d = failed_read d
  lendings_found user setting (some lendings) d = check_each_lending user setting lendings d

  -- `checkLendings`
  unfoldable pub check_lendings : UserChecks → NotificationSetting → Deliveries → Deliveries
  check_lendings u setting d =
      if not setting.notify_lending_due then d else lendings_found u.user_id setting u.lendings d

  unfoldable pub check_item : ℕ → NotificationSetting → BudgetItem → Deliveries → Deliveries
  check_item user setting b d =
      if le_amount b.amount zero_amount || ltb_ℤ b.percentage b.alert_threshold
      then d
      else deliver dedupe at user setting 3 (keys.budget b.id today.year today.month) d

  unfoldable pub check_each_item :
      ℕ → NotificationSetting → List BudgetItem → Deliveries → Deliveries
  check_each_item user setting [] d = d
  check_each_item user setting (b ∷ items) d =
      check_each_item user setting items (check_item user setting b d)

  unfoldable pub budgets_found :
      ℕ → NotificationSetting → Option BudgetList → Deliveries → Deliveries
  budgets_found user setting none d = failed_read d
  budgets_found user setting (some list) d =
      check_each_item user setting
        (total_first list.total_budget (list.category_budgets ++ list.member_budgets)) d

  -- `checkBudgets`
  unfoldable pub check_budgets : UserChecks → NotificationSetting → Deliveries → Deliveries
  check_budgets u setting d =
      if not setting.notify_budget_alert then d else budgets_found u.user_id setting u.budgets d

  -- `checkAnnualReport`
  unfoldable pub check_annual_report : UserChecks → NotificationSetting → Deliveries → Deliveries
  check_annual_report u setting d =
      if not setting.notify_annual_report || (not (today.month == 1) || not (today.day == 1))
      then d
      else deliver dedupe at u.user_id setting 4 (keys.annual u.user_id (today.year - 1)) d

  abbrev pub counted_user : Deliveries → Deliveries
  counted_user d = record d { result = record d.result { users = d.result.users + 1 } }

  unfoldable pub check_user : UserChecks → NotificationSetting → Deliveries → Deliveries
  check_user u setting d =
      if not setting.enabled || length (enabled_channels setting) == 0
      then record d { result = skipped_more d.result }
      else check_annual_report u setting (
          check_budgets u setting
            (check_lendings u setting (check_payment_reminders u setting (counted_user d))))

  unfoldable pub check_setting : UserChecks → Option NotificationSetting → Deliveries → Deliveries
  check_setting u none d = record d { result = skipped_more d.result }
  check_setting u (some setting) d = check_user u setting d

  -- The loop of `CheckAndNotify` over the users.
  unfoldable pub check_and_notify : List UserChecks → Deliveries → Deliveries
  check_and_notify [] d = d
  check_and_notify (u ∷ users) d = check_and_notify users (check_setting u u.setting d)
