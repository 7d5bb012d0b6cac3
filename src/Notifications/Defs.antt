-- ===== src/Notifications/Defs.antt =====
-- The deliveries of scheduled notifications and the checks that call for them. A channel, a type and a
-- dedupe key are numbers; `dedupe` is `notificationLogDedupeChannel`, which hashes the key; titles and
-- contents are left out. What the outside does in a round of the deliveries is an argument that may differ
-- from round to round: whether the log can be read, whether the message is sent and whether the log
-- can be written.
use sky_personal_ledger.Base.{
  ℕ, ◌+◌, Bool, true, false, not, ◌&&◌, List, [], ◌∷◌, ◌++◌, ◌==◌, if◌then◌else◌, ℤ, pos, ltb_ℤ,
  count_rows,
}

-- The channels: wecom, dingtalk, email, webhook.
pub record NotificationSetting : Type 0 where
  pub enabled : Bool
  pub wecom : Bool × Bool
  pub dingtalk : Bool × Bool
  pub email : Bool
  pub webhook : Bool × Bool
  pub advance_days : ℤ
  pub notify_payment_due : Bool
  pub notify_lending_due : Bool
  pub notify_budget_alert : Bool
  pub notify_annual_report : Bool

abbrev pub both : Bool × Bool → Bool
both (enabled, address) = enabled && address

-- `enabledNotificationChannels`: a channel is enabled, and has an address where it needs one.
unfoldable pub enabled_channels : NotificationSetting → List ℕ
enabled_channels s =
    (if both s.wecom then 1 ∷ [] else [])
    ++ ((if both s.dingtalk then 2 ∷ [] else [])
        ++ ((if s.email then 3 ∷ [] else []) ++ (if both s.webhook then 4 ∷ [] else [])))

pub record NotificationLog : Type 0 where
  pub user_id : ℕ
  pub type : ℕ
  pub channel : ℕ
  pub sent : Bool

-- A message that went out.
pub record Message : Type 0 where
  pub user_id : ℕ
  pub type : ℕ
  pub channel : ℕ

pub record Outcome : Type 0 where
  pub can_read : Bool
  pub can_send : Bool
  pub can_record : Bool

pub record RunResult : Type 0 where
  pub users : ℕ
  pub attempted : ℕ
  pub sent : ℕ
  pub skipped : ℕ
  pub failed : ℕ

-- The log, what went out, the number of rounds so far and the counts of the run.
pub record Deliveries : Type 0 where
  pub logs : List NotificationLog
  pub outbox : List Message
  pub rounds : ℕ
  pub result : RunResult

-- The rows that `HasSent` counts.
abbrev pub sent_row : ℕ → ℕ → ℕ → NotificationLog → Bool
sent_row user type channel l =
    l.user_id == user && (l.type == type && (l.channel == channel && l.sent))

abbrev pub log_of : ℕ → ℕ → ℕ → Bool → NotificationLog
log_of user type channel sent = record {
  user_id = user;
  type = type;
  channel = channel;
  sent = sent;
}

abbrev pub message_of : ℕ → ℕ → ℕ → Message
message_of user type channel = record { user_id = user; type = type; channel = channel }

-- `Record`
abbrev pub record_log : Bool → NotificationLog → List NotificationLog → List NotificationLog
record_log can l logs = if can then l ∷ logs else logs

abbrev pub failed_more : RunResult → RunResult
failed_more r = record r { failed = r.failed + 1 }

abbrev pub skipped_more : RunResult → RunResult
skipped_more r = record r { skipped = r.skipped + 1 }

abbrev pub attempted_failed : RunResult → RunResult
attempted_failed r = record r { attempted = r.attempted + 1; failed = r.failed + 1 }

abbrev pub attempted_sent : RunResult → RunResult
attempted_sent r = record r { attempted = r.attempted + 1; sent = r.sent + 1 }

-- `clampNotificationAdvanceDays`
unfoldable pub clamp_advance_days : ℤ → ℤ
clamp_advance_days days =
    if ltb_ℤ days (pos 0) then pos 0 else if ltb_ℤ (pos 30) days then pos 30 else days

module _ (dedupe : ℕ → ℕ → ℕ) (at : ℕ → ℕ → Outcome) where
  -- One round of the loop of `deliver`, its outcome that of its number and channel; `key` is the channel of the log.
  unfoldable pub deliver_to : ℕ → ℕ → ℕ → ℕ → Deliveries → Deliveries
  deliver_to user type key channel d =
      if not (at d.rounds channel).can_read
      then record d { rounds = d.rounds + 1; result = failed_more d.result }
      else if not (count_rows (sent_row user type key) d.logs == 0)
      then record d { rounds = d.rounds + 1; result = skipped_more d.result }
      else if not (at d.rounds channel).can_send
      then record d {
        logs = record_log (at d.rounds channel).can_record (log_of user type key false) d.logs;
        rounds = d.rounds + 1;
        result = attempted_failed d.result;
      }
      else record d {
        logs = record_log (at d.rounds channel).can_record (log_of user type key true) d.logs;
        outbox = message_of user type key ∷ d.outbox;
        rounds = d.rounds + 1;
        result =
            if (at d.rounds channel).can_record
            then attempted_sent d.result
            else attempted_failed d.result;
      }

  unfoldable pub deliver_all : ℕ → ℕ → ℕ → List ℕ → Deliveries → Deliveries
  unfolding deliver_to
  deliver_all user type key [] d = d
  deliver_all user type key (channel ∷ channels) d =
      deliver_all user type key channels (deliver_to user type (dedupe channel key) channel d)

  -- `deliver`
  unfoldable pub deliver : ℕ → NotificationSetting → ℕ → ℕ → Deliveries → Deliveries
  unfolding deliver_all enabled_channels
  deliver user setting type key d = deliver_all user type key (enabled_channels setting) d
