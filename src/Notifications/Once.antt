-- ===== src/Notifications/Once.antt =====
-- No notification goes out twice.
use sky_personal_ledger.Base.{
  ℕ, suc, ◌≤◌, ◌≡◌, refl, sym, ap, inl, inr, Bool, true, false, ◌&&◌, List, [], ◌∷◌, arith, ◌==◌,
  ==_iff, Bool-cases, All, count_rows,
}
use sky_personal_ledger.Notifications.Defs.{
  NotificationSetting, enabled_channels, NotificationLog, Message, Outcome, Deliveries, sent_row,
  log_of, message_of, deliver_to, deliver_all, deliver,
}

abbrev pub message_is : ℕ → ℕ → ℕ → Message → Bool
message_is user type channel m = m.user_id == user && (m.type == type && m.channel == channel)

-- What was sent is what the log says was sent, and nothing twice.
abbrev pub AtMostOnce : Deliveries → Type 0
AtMostOnce d =
    (user type channel : ℕ)
    → (count_rows (message_is user type channel) d.outbox
        ≡ count_rows (sent_row user type channel) d.logs)
      × (count_rows (sent_row user type channel) d.logs ≤ 1)

failed_row :
    (user type key u t c : ℕ) (logs : List NotificationLog)
    → count_rows (sent_row u t c) (log_of user type key false ∷ logs)
      ≡ count_rows (sent_row u t c) logs
unfolding count_rows
failed_row user type key u t c logs = rw (never (user == u) (type == t) (key == c)) refl
  where
    never : (a b d : Bool) → (a && (b && (d && false))) ≡ false
    never a b d = ground arith

sent_once :
    (user type key u t c : ℕ) (d : Deliveries)
    → AtMostOnce d
    → count_rows (sent_row user type key) d.logs ≡ 0
    → (count_rows (message_is u t c) (message_of user type key ∷ d.outbox)
        ≡ count_rows (sent_row u t c) (log_of user type key true ∷ d.logs))
      × (count_rows (sent_row u t c) (log_of user type key true ∷ d.logs) ≤ 1)
unfolding count_rows
sent_once user type key u t c d once unsent =
    elim (Bool-cases (user == u && (type == t && key == c))) [
      | inl h ↦
          let here : count_rows (sent_row u t c) d.logs ≡ 0 = same h in
          rw (h, whole (user == u) (type == t) (key == c) h)
            (ap suc (once u t c).0, omega (arith, here))
      | inr h ↦ rw (h, part (user == u) (type == t) (key == c) h) (once u t c)
    ]
  where
    whole : (a b d : Bool) → (a && (b && d)) ≡ true → (a && (b && (d && true))) ≡ true
    whole a b d h = ground (arith, h)

    part : (a b d : Bool) → (a && (b && d)) ≡ false → (a && (b && (d && true))) ≡ false
    part a b d h = ground (arith, h)

    all_three : (a b d : Bool) → (a && (b && d)) ≡ true → (a ≡ true) × (b ≡ true) × (d ≡ true)
    all_three a b d h = (ground (arith, h), ground (arith, h), ground (arith, h))

    same : (user == u && (type == t && key == c)) ≡ true → count_rows (sent_row u t c) d.logs ≡ 0
    same h =
        let (e, f, g) = all_three (user == u) (type == t) (key == c) h in
        rw (sym ((==_iff user u).0 e), sym ((==_iff type t).0 f), sym ((==_iff key c).0 g)) unsent

counted :
    (p : NotificationLog → Bool) (l : NotificationLog) (logs : List NotificationLog)
    → 1 ≤ count_rows p logs
    → 1 ≤ count_rows p (l ∷ logs)
unfolding count_rows
counted p l logs h = ground (arith, h)

own_row :
    (user type key : ℕ) (logs : List NotificationLog)
    → 1 ≤ count_rows (sent_row user type key) (log_of user type key true ∷ logs)
unfolding count_rows
own_row user type key logs =
    let mine : (user == user && (type == type && (key == key && true))) ≡ true = ground arith in
    rw mine (omega arith)

module _ (dedupe : ℕ → ℕ → ℕ) (at : ℕ → ℕ → Outcome)
    (recorded : (round channel : ℕ)
      → (at round channel).can_send ≡ true
      → (at round channel).can_record ≡ true) where
  deliver_to-AtMostOnce :
      (user type key channel : ℕ) (d : Deliveries)
      → AtMostOnce d
      → AtMostOnce (deliver_to dedupe at user type key channel d)
  unfolding deliver_to
  deliver_to-AtMostOnce user type key channel d once u t c =
      elim (Bool-cases (at d.rounds channel).can_read) [
        | inr n ↦ rw n (once u t c)
        | inl r ↦ elim (Bool-cases (count_rows (sent_row user type key) d.logs == 0)) [
          | inr n ↦ rw (r, n) (once u t c)
          | inl z ↦ elim (Bool-cases (at d.rounds channel).can_send) [
            | inr n ↦ elim (Bool-cases (at d.rounds channel).can_record) [
              | inl w ↦ rw (r, z, n, w) (rw (failed_row user type key u t c d.logs) (once u t c))
              | inr w ↦ rw (r, z, n, w) (once u t c)
            ]
            | inl s ↦
                rw (r, z, s, recorded d.rounds channel s)
                  (sent_once user type key u t c d once ((==_iff _ 0).0 z))
          ]
        ]
      ]

  deliver_all-AtMostOnce :
      (user type key : ℕ) (channels : List ℕ) (d : Deliveries)
      → AtMostOnce d
      → AtMostOnce (deliver_all dedupe at user type key channels d)
  unfolding deliver_all
  deliver_all-AtMostOnce user type key [] d once = once
  deliver_all-AtMostOnce user type key (channel ∷ channels) d once =
      deliver_all-AtMostOnce user type key channels
        (deliver_to dedupe at user type (dedupe channel key) channel d)
        (deliver_to-AtMostOnce user type (dedupe channel key) channel d once)

  -- Whatever fails to be read or sent, a delivery sends no message that was sent before: the messages
  -- that went out stay those that the log says were sent, one at most for each user, type and channel
  -- with its key. Every record of a message that was sent is written to the log.
  pub deliver-AtMostOnce :
      (user type key : ℕ) (setting : NotificationSetting) (d : Deliveries)
      → AtMostOnce d
      → AtMostOnce (deliver dedupe at user setting type key d)
  unfolding deliver
  deliver-AtMostOnce user type key setting d once =
      deliver_all-AtMostOnce user type key (enabled_channels setting) d once

  module _
      (reached : (round channel : ℕ)
        → ((at round channel).can_read ≡ true) × ((at round channel).can_send ≡ true)) where
    deliver_to-grows :
        (user type key channel t c : ℕ) (d : Deliveries)
        → 1 ≤ count_rows (sent_row user t c) d.logs
        → 1 ≤ count_rows (sent_row user t c) (deliver_to dedupe at user type key channel d).logs
    unfolding deliver_to
    deliver_to-grows user type key channel t c d h =
        elim (Bool-cases (count_rows (sent_row user type key) d.logs == 0)) [
          | inr n ↦ rw ((reached d.rounds channel).0, n) h
          | inl z ↦
              rw
                (
                  (reached d.rounds channel).0,
                  z,
                  (reached d.rounds channel).1,
                  recorded d.rounds channel,
                )
                (counted (sent_row user t c) (log_of user type key true) d.logs h)
        ]

    deliver_to-sends :
        (user type key channel : ℕ) (d : Deliveries)
        → 1
          ≤ count_rows (sent_row user type key) (deliver_to dedupe at user type key channel d).logs
    unfolding deliver_to
    deliver_to-sends user type key channel d =
        elim (Bool-cases (count_rows (sent_row user type key) d.logs == 0)) [
          | inr n ↦
              rw ((reached d.rounds channel).0, n)
                (some_rows (count_rows (sent_row user type key) d.logs) n)
          | inl z ↦
              rw
                (
                  (reached d.rounds channel).0,
                  z,
                  (reached d.rounds channel).1,
                  recorded d.rounds channel,
                )
                (own_row user type key d.logs)
        ]
      where
        some_rows : (n : ℕ) → (n == 0) ≡ false → 1 ≤ n
        some_rows n h = ground (arith, h)

    deliver_all-grows :
        (user type key t c : ℕ) (channels : List ℕ) (d : Deliveries)
        → 1 ≤ count_rows (sent_row user t c) d.logs
        → 1 ≤ count_rows (sent_row user t c) (deliver_all dedupe at user type key channels d).logs
    unfolding deliver_all
    deliver_all-grows user type key t c [] d h = h
    deliver_all-grows user type key t c (channel ∷ channels) d h =
        deliver_all-grows user type key t c channels
          (deliver_to dedupe at user type (dedupe channel key) channel d)
          (deliver_to-grows user type (dedupe channel key) channel t c d h)

    deliver_all-sends :
        (user type key : ℕ) (channels : List ℕ) (d : Deliveries)
        → All
            (λ (channel : ℕ).
              1
              ≤ count_rows
                  (sent_row user type (dedupe channel key))
                  (deliver_all dedupe at user type key channels d).logs)
            channels
    unfolding deliver_all
    deliver_all-sends user type key [] d = tt
    deliver_all-sends user type key (channel ∷ channels) d =
        let next = deliver_to dedupe at user type (dedupe channel key) channel d in
        (
          deliver_all-grows user type key type (dedupe channel key) channels next
              (deliver_to-sends user type (dedupe channel key) channel d),
          deliver_all-sends user type key channels next,
        )

    once_each :
        (user type key : ℕ) (channels : List ℕ) (d : Deliveries)
        → AtMostOnce d
        → All
            (λ (channel : ℕ). 1 ≤ count_rows (sent_row user type (dedupe channel key)) d.logs)
            channels
        → All
            (λ (channel : ℕ). count_rows (message_is user type (dedupe channel key)) d.outbox ≡ 1)
            channels
    once_each user type key [] d once h = tt
    once_each user type key (channel ∷ channels) d once (h, hs) =
        let (same, most) = once user type (dedupe channel key) in
        (omega (arith, same, most, h), once_each user type key channels d once hs)

    -- Where nothing fails, a delivery leaves exactly one message sent on each enabled channel for its
    -- user, type and key, whether it was sent now or before.
    pub deliver-sends :
        (user type key : ℕ) (setting : NotificationSetting) (d : Deliveries)
        → AtMostOnce d
        → All
            (λ (channel : ℕ).
              count_rows
                (message_is user type (dedupe channel key))
                (deliver dedupe at user setting type key d).outbox
              ≡ 1)
            (enabled_channels setting)
    unfolding deliver
    deliver-sends user type key setting d once =
        once_each user type key (enabled_channels setting)
          (deliver_all dedupe at user type key (enabled_channels setting) d)
          (deliver_all-AtMostOnce user type key (enabled_channels setting) d once)
          (deliver_all-sends user type key (enabled_channels setting) d)
