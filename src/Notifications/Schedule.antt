-- ===== src/Notifications/Schedule.antt =====
-- A whole check sends nothing twice.
use sky_personal_ledger.Base.{
  ℕ, ◌≡◌, Bool, true, false, not, Option, none, some, List, [], ◌∷◌, if◌then◌else◌,
}
use sky_personal_ledger.Budgets.{BudgetItem, BudgetList}
use sky_personal_ledger.Notifications.Defs.{NotificationSetting, Outcome, Deliveries, deliver}
use sky_personal_ledger.Notifications.Calendar.{Date}
use sky_personal_ledger.Notifications.Checks.{
  PaymentReminder, DueLending, Keys, UserChecks, check_reminder, check_each_reminder,
  reminders_found, check_payment_reminders, check_due, check_each_lending, lendings_found,
  check_lendings, check_item, check_each_item, budgets_found, check_budgets, check_annual_report,
  check_user, check_setting, check_and_notify,
}
use sky_personal_ledger.Notifications.Once.{AtMostOnce, deliver-AtMostOnce}

module _ (dedupe : ℕ → ℕ → ℕ) (at : ℕ → ℕ → Outcome)
    (recorded : (round channel : ℕ)
      → (at round channel).can_send ≡ true
      → (at round channel).can_record ≡ true)
    (keys : Keys) (today : Date) where
  -- A check that delivers or does not.
  either :
      (skip : Bool) (user type key : ℕ) (setting : NotificationSetting) (d : Deliveries)
      → AtMostOnce d
      → AtMostOnce (if skip then d else deliver dedupe at user setting type key d)
  either true user type key setting d once = once
  either false user type key setting d once =
      deliver-AtMostOnce dedupe at recorded user type key setting d once

  reminders-AtMostOnce :
      (user : ℕ) (setting : NotificationSetting) (reminders : List PaymentReminder) (d : Deliveries)
      → AtMostOnce d
      → AtMostOnce (check_each_reminder dedupe at keys today user setting reminders d)
  unfolding check_each_reminder check_reminder
  reminders-AtMostOnce user setting [] d once = once
  reminders-AtMostOnce user setting (r ∷ reminders) d once =
      reminders-AtMostOnce user setting reminders
        (check_reminder dedupe at keys today user setting r d) (either _ user 1 _ setting d once)

  due-AtMostOnce :
      (user : ℕ) (setting : NotificationSetting) (l : DueLending) (due : Option ℕ) (d : Deliveries)
      → AtMostOnce d
      → AtMostOnce (check_due dedupe at keys today user setting l due d)
  unfolding check_due
  due-AtMostOnce user setting l none d once = once
  due-AtMostOnce user setting l (some due) d once = either _ user 2 _ setting d once

  lendings-AtMostOnce :
      (user : ℕ) (setting : NotificationSetting) (lendings : List DueLending) (d : Deliveries)
      → AtMostOnce d
      → AtMostOnce (check_each_lending dedupe at keys today user setting lendings d)
  unfolding check_each_lending
  lendings-AtMostOnce user setting [] d once = once
  lendings-AtMostOnce user setting (l ∷ lendings) d once =
      lendings-AtMostOnce user setting lendings
        (check_due dedupe at keys today user setting l l.due_date d)
        (due-AtMostOnce user setting l l.due_date d once)

  items-AtMostOnce :
      (user : ℕ) (setting : NotificationSetting) (items : List BudgetItem) (d : Deliveries)
      → AtMostOnce d
      → AtMostOnce (check_each_item dedupe at keys today user setting items d)
  unfolding check_each_item check_item
  items-AtMostOnce user setting [] d once = once
  items-AtMostOnce user setting (b ∷ items) d once =
      items-AtMostOnce user setting items (check_item dedupe at keys today user setting b d)
        (either _ user 3 _ setting d once)

  -- A step that is skipped where the setting is off.
  only_if :
      (skip : Bool) (d e : Deliveries)
      → AtMostOnce d
      → AtMostOnce e
      → AtMostOnce (if skip then d else e)
  only_if true d e h k = h
  only_if false d e h k = k

  reminders_found-AtMostOnce :
      (user : ℕ) (setting : NotificationSetting) (found : Option (List PaymentReminder))
      (d : Deliveries)
      → AtMostOnce d
      → AtMostOnce (reminders_found dedupe at keys today user setting found d)
  unfolding reminders_found
  reminders_found-AtMostOnce user setting none d once = once
  reminders_found-AtMostOnce user setting (some reminders) d once =
      reminders-AtMostOnce user setting reminders d once

  lendings_found-AtMostOnce :
      (user : ℕ) (setting : NotificationSetting) (found : Option (List DueLending)) (d : Deliveries)
      → AtMostOnce d
      → AtMostOnce (lendings_found dedupe at keys today user setting found d)
  unfolding lendings_found
  lendings_found-AtMostOnce user setting none d once = once
  lendings_found-AtMostOnce user setting (some lendings) d once =
      lendings-AtMostOnce user setting lendings d once

  budgets_found-AtMostOnce :
      (user : ℕ) (setting : NotificationSetting) (found : Option BudgetList) (d : Deliveries)
      → AtMostOnce d
      → AtMostOnce (budgets_found dedupe at keys today user setting found d)
  unfolding budgets_found
  budgets_found-AtMostOnce user setting none d once = once
  budgets_found-AtMostOnce user setting (some list) d once = items-AtMostOnce user setting _ d once

  user-AtMostOnce :
      (u : UserChecks) (setting : NotificationSetting) (d : Deliveries)
      → AtMostOnce d
      → AtMostOnce (check_user dedupe at keys today u setting d)
  unfolding check_user check_annual_report check_budgets check_lendings check_payment_reminders
  user-AtMostOnce u setting d once =
      let paid =
        only_if (not setting.notify_payment_due) _ _ once
          (reminders_found-AtMostOnce u.user_id setting u.reminders _ once) in
      let lent =
        only_if (not setting.notify_lending_due) _ _ paid
          (lendings_found-AtMostOnce u.user_id setting u.lendings _ paid) in
      let planned =
        only_if (not setting.notify_budget_alert) _ _ lent
          (budgets_found-AtMostOnce u.user_id setting u.budgets _ lent) in
      only_if _ _ _ once (either _ u.user_id 4 _ setting _ planned)

  -- A check of all users, whatever it finds and whatever reads and sends fail in any of its rounds, a
  -- channel that fails once and works the next time included, sends no message that was sent before: the
  -- messages that went out stay those that the log says were sent, one at most for each user, type and
  -- channel with its key. Every record of a message that was sent is written to the log.
  pub check_and_notify-AtMostOnce :
      (users : List UserChecks) (d : Deliveries)
      → AtMostOnce d
      → AtMostOnce (check_and_notify dedupe at keys today users d)
  unfolding check_and_notify check_setting
  check_and_notify-AtMostOnce [] d once = once
  check_and_notify-AtMostOnce (u ∷ users) d once =
      check_and_notify-AtMostOnce users _ (setting_found u.setting)
    where
      setting_found :
          (found : Option NotificationSetting)
          → AtMostOnce (check_setting dedupe at keys today u found d)
      setting_found none = once
      setting_found (some setting) = user-AtMostOnce u setting d once
