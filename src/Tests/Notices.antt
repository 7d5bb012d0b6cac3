-- ===== src/Tests/Notices.antt =====
-- Notifications at concrete inputs: the channel of the log is ten times the key, plus the channel.
use sky_personal_ledger.Base.{
  ℕ, ◌+◌, ◌-◌, ◌*◌, ◌≡◌, refl, true, false, not, none, some, List, [], ◌∷◌, arith, leb, ltb, ◌&&◌,
  ◌==◌, if◌then◌else◌, pos, All, count_rows,
}
use sky_personal_ledger.Money.{exact}
use sky_personal_ledger.Notifications.{
  NotificationSetting, enabled_channels, Outcome, Deliveries, deliver_to, deliver_all, deliver,
  log_of, message_of, Date, day_number, days_until_next_month_day, Keys, PaymentReminder,
  UserChecks, check_and_notify,
}
use sky_personal_ledger.Notifications.Once.{message_is, AtMostOnce, deliver-sends}
use sky_personal_ledger.Notifications.Schedule.{check_and_notify-AtMostOnce}
use sky_personal_ledger.Notifications.DueDays.{
  clamp, days_until_next_month_day_lem, days_until_next_month_day-skips,
}

abbrev in_log : ℕ → ℕ → ℕ
in_log channel key = key * 10 + channel

abbrev setting : NotificationSetting
setting = record {
  enabled = true;
  wecom = (true, true);
  dingtalk = (true, false);
  email = true;
  webhook = (false, true);
  advance_days = pos 3;
  notify_payment_due = true;
  notify_lending_due = true;
  notify_budget_alert = true;
  notify_annual_report = false;
}

abbrev fine : ℕ → ℕ → Outcome
fine round channel = record { can_read = true; can_send = true; can_record = true }

-- The mail server is away in the first three rounds.
abbrev no_mail : ℕ → ℕ → Outcome
no_mail round channel = record {
  can_read = true;
  can_send = not (channel == 3 && ltb round 3);
  can_record = not (channel == 3 && ltb round 3);
}

-- One message went out before, on the first channel.
abbrev before : Deliveries
before = record {
  logs = log_of 7 2 51 true ∷ [];
  outbox = message_of 7 2 51 ∷ [];
  rounds = 0;
  result = record { users = 0; attempted = 0; sent = 0; skipped = 0; failed = 0 };
}

before-AtMostOnce : AtMostOnce before
unfolding count_rows
before-AtMostOnce user type channel = ground arith

after_failure :
    (deliver in_log no_mail 7 setting 2 5 before).result
    ≡ record { users = 0; attempted = 1; sent = 0; skipped = 1; failed = 1 }
unfolding deliver deliver_all deliver_to enabled_channels count_rows
after_failure = refl

-- The mail is sent by the second delivery, in its fourth round, and the message before is not sent again.
sent_later :
    (deliver in_log no_mail 7 setting 2 5 (deliver in_log no_mail 7 setting 2 5 before)).outbox
    ≡ message_of 7 2 53 ∷ message_of 7 2 51 ∷ []
unfolding deliver deliver_all deliver_to enabled_channels count_rows
sent_later = refl

-- On 31 January, 3 days before a payment on the 3rd: the card's payment day is past, the loan's is today.
abbrev today : Date
today = record { year = 2026; month = 1; day = 31 }

abbrev keys : Keys
keys = record {
  payment = λ id date days. id;
  lending = λ id date days. id + 20;
  budget = λ id year month. id + 40;
  annual = λ user year. 60;
}

abbrev reminder : ℕ → ℕ → PaymentReminder
reminder id payment_day = record {
  id = id;
  is_enabled = true;
  payment_day = payment_day;
  advance_days = pos 3;
  current_balance = some (exact (pos 500));
  amount = none;
}

abbrev found : List UserChecks
found =
    record {
      user_id = 7;
      setting = some setting;
      reminders = some (reminder 5 3 ∷ reminder 6 31 ∷ []);
      lendings = some (
          record {
            id = 1;
            due_date = some (day_number today + 3);
            current_balance = exact (pos 100);
          }
          ∷ []);
      budgets = none;
    }
    ∷ []

check_and_notify-AtMostOnce_example :
    AtMostOnce (check_and_notify in_log no_mail keys today found before)
check_and_notify-AtMostOnce_example =
    check_and_notify-AtMostOnce in_log no_mail (λ round channel h. h) keys today found before
      before-AtMostOnce

days_until_next_month_day_lem_example :
    days_until_next_month_day (record { year = 2024; month = 1; day = 29 }) 3 ≡ (
      if leb 29 (clamp 2024 1 3) then pos (clamp 2024 1 3 - 29) else pos (31 - 29 + clamp 2024 2 3))
days_until_next_month_day_lem_example =
    days_until_next_month_day_lem (record { year = 2024; month = 1; day = 29 }) 3
      (omega arith, omega arith) (omega arith) (omega arith)

days_until_next_month_day-skips_example :
    days_until_next_month_day today 3 ≡ pos (31 - 31 + (28 + clamp 2026 3 3))
days_until_next_month_day-skips_example =
    days_until_next_month_day-skips today 3 (omega arith, omega arith) (omega arith) (omega arith)
      (omega arith)

deliver-sends_example :
    All
      (λ (channel : ℕ).
        count_rows
          (message_is 7 2 (in_log channel 5))
          (deliver in_log fine 7 setting 2 5 before).outbox
        ≡ 1)
      (enabled_channels setting)
deliver-sends_example =
    deliver-sends in_log fine (λ round channel h. refl) (λ round channel. (refl, refl)) 7 2 5
      setting before before-AtMostOnce
