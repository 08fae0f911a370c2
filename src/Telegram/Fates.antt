-- ===== src/Telegram/Fates.antt =====
-- What becomes of a job that src/notification.rs sends to Telegram.
use Prim.Native.String.{◌++◌ as append}
use beacon_alerts.Prelude.{
  ℕ, ◌+◌, String, ◌≡◌, refl, sym, ap, ◌∙◌, inl, inr, Bool, true, false, not, ◌&&◌, ◌||◌, Option,
  none, some, [], ◌∷◌, arith, find, eqb, leb, ltb, eq_iff, ◌==◌, Bool-cases, if◌then◌else◌,
}
use beacon_alerts.Fallible.{ok}
use beacon_alerts.Client.{is_success}
use beacon_alerts.Store.{Database, JobRow}
use beacon_alerts.Store.Clock.{Chrono, text_le, retry_time}
use beacon_alerts.Store.Jobs.{
  notification_from_row, is_due, update_where, has_id, is_in_flight, set_sent, set_failed,
  complete_notification, fail_notification, next_attempt,
}
use beacon_alerts.Store.Queue.Rows.{find-update_where}
use beacon_alerts.Store.Queue.Retry.{retried-is_due}
use beacon_alerts.Store.Dispatcher.{
  NotificationDispatcher, Outcome, SendError, failure_is_retryable, settle, deliver,
}
use beacon_alerts.Telegram.{
  TelegramChannel, TelegramLibrary, is_passing, transport_error, temporary_error, permanent_error,
  judge, as_channel, url,
}

-- Telegram accepted the message.
abbrev pub is_taken : Option ℕ → Bool
is_taken none = false
is_taken (some status) = leb 200 status && leb status 299

-- The request failed, or the answer was 429 or a server error.
abbrev pub is_retried : Option ℕ → Bool
is_retried none = true
is_retried (some status) = eqb status 429 || (leb 500 status && leb status 599)

taken-is_passing : (status : ℕ) → is_success status ≡ true → is_passing status ≡ false
taken-is_passing status h = ground (arith, h)

-- the dispatcher that `serve` makes
abbrev pub telegram_dispatcher :
    {W : Type 0}
    → TelegramLibrary
    → (String → String → String → W → Option ℕ × W)
    → TelegramChannel
    → ℕ
    → ℕ
    → NotificationDispatcher W
telegram_dispatcher lib post channel max_attempts retry_delay_seconds = record {
  channels = as_channel lib post channel ∷ [];
  max_attempts = max_attempts;
  retry_delay_seconds = retry_delay_seconds;
}

module _ {T W : Type 0} (ch : Chrono T) (d : NotificationDispatcher W) (now : T) where
  -- Every retry time can be given.
  abbrev pub CanRetry : Type 0
  CanRetry =
      (attempts : ℕ) → (at : String) × (retry_time ch now attempts d.retry_delay_seconds ≡ some at)

  -- The row that the delivery leaves under the identifier of the job, and when it is due again.
  pub record Fate (taken retried : Bool) (n : ℕ) (row : JobRow) (o : Outcome W) : Type 0 where
    pub left : JobRow
    pub found : find (has_id row.id) o.db.notifications ≡ some left
    pub sent : (left.status == "sent") ≡ taken
    pub counted : o.delivered ≡ ok (if taken then n + 1 else n)
    pub again :
        (max_attempts : ℕ) (later stale : String)
        → is_due max_attempts later stale left
          ≡ (ltb row.attempts max_attempts && (retried && text_le left.next_attempt_at later))

  next_attempt-some :
      CanRetry
      → (attempts : ℕ) (error : String) (retryable : Bool)
      → (at : String) × (next_attempt ch (record {
        attempts = attempts;
        error = error;
        max_attempts = d.max_attempts;
        retry_delay_seconds = d.retry_delay_seconds;
        retryable = retryable;
        now = now;
      })
          ≡ some at)
  unfolding next_attempt
  next_attempt-some can attempts error retryable =
      let (at, given) = can attempts in
      elim (Bool-cases (not retryable || leb d.max_attempts attempts)) [
        | inl last ↦ (ch.to_rfc3339 now, rw (last, next_attempt) refl)
        | inr more ↦ (at, rw (more, next_attempt) given)
      ]

  module _ (row : JobRow) (n : ℕ) (db : Database)
      (there : find (has_id row.id) db.notifications ≡ some row)
      (flying : row.status ≡ "in_flight") where
    -- the row that an update of the job in flight leaves
    found-update :
        (change : JobRow → JobRow)
        → ((r : JobRow) → (change r).id ≡ r.id)
        → find (has_id row.id) (update_where (is_in_flight row.id) change db.notifications)
          ≡ some (change row)
    found-update change keep =
        let flies : is_in_flight row.id row ≡ true =
          ground (arith, ap (λ (u : String). u == "in_flight") flying) in
        find-update_where (is_in_flight row.id) change row.id db.notifications keep
        ∙ rw (there, flies) refl

    failed-Fate :
        CanRetry
        → (error : SendError) (w : W)
        → Fate false
            (failure_is_retryable error)
            n
            row
            (settle ch d now (notification_from_row row) n db (some error, w))
    unfolding fail_notification
    failed-Fate can error w =
        let (at, given) =
          next_attempt-some can row.attempts error.message (failure_is_retryable error) in
        rw (given, fail_notification)
          (record {
            left = set_failed at error.message (failure_is_retryable error) row;
            found = found-update _ (λ r. refl);
            sent = refl;
            counted = refl;
            again = λ most later stale.
                retried-is_due at error.message later stale (failure_is_retryable error) most row;
          })

    sent-Fate :
        (w : W) → Fate true false n row (settle ch d now (notification_from_row row) n db (none, w))
    unfolding complete_notification is_due
    sent-Fate w = record {
      left = set_sent (ch.to_rfc3339 now) row;
      found = found-update _ (λ r. refl);
      sent = refl;
      counted = refl;
      again = λ most later stale. ground arith;
    }

    judged-Fate :
        CanRetry
        → (lib : TelegramLibrary) (status : Option ℕ) (w : W)
        → Fate
            (is_taken status)
            (is_retried status)
            n
            row
            (settle ch d now (notification_from_row row) n db (judge lib status, w))
    judged-Fate can lib none w = failed-Fate can transport_error w
    judged-Fate can lib (some status) w = elim (Bool-cases (is_success status)) [
      | inl taken ↦ rw (taken, taken-is_passing status taken) (sent-Fate w)
      | inr refused ↦ elim (Bool-cases (is_passing status)) [
        | inl passing ↦
            rw (refused, passing)
              (failed-Fate can
                (temporary_error (append "Telegram returned HTTP " (lib.print_status status))) w)
        | inr lasting ↦
            rw (refused, lasting)
              (failed-Fate can
                (permanent_error (append "Telegram returned HTTP " (lib.print_status status))) w)
      ]
    ]

-- A job in flight that the dispatcher sends to Telegram is marked as sent, and counted, exactly
-- when the answer is a success. Otherwise the row that is left is due again exactly when its
-- attempts are below the maximum, its next attempt time has come, and the request failed or the
-- answer was 429 or a server error; after every other answer it is never due again. Every retry
-- time can be given here.
pub deliver-Fate :
    {T W : Type 0} (ch : Chrono T) (lib : TelegramLibrary)
    (post : String → String → String → W → Option ℕ × W) (channel : TelegramChannel)
    (max_attempts retry_delay_seconds : ℕ) (now : T) (row : JobRow) (n : ℕ) (db : Database) (w : W)
    → CanRetry ch (telegram_dispatcher lib post channel max_attempts retry_delay_seconds) now
    → find (has_id row.id) db.notifications ≡ some row
    → row.status ≡ "in_flight"
    → row.channel ≡ "telegram"
    → Fate ch
        (telegram_dispatcher lib post channel max_attempts retry_delay_seconds)
        now
        (is_taken (post (url channel) channel.chat_id row.payload w).0)
        (is_retried (post (url channel) channel.chat_id row.payload w).0)
        n
        row
        (deliver ch
          (telegram_dispatcher lib post channel max_attempts retry_delay_seconds)
          now
          (notification_from_row row)
          n
          db
          w)
unfolding deliver
deliver-Fate ch lib post channel max_attempts retry_delay_seconds now row n db w can there flying
      named =
    let d = telegram_dispatcher lib post channel max_attempts retry_delay_seconds in
    let (status, w') = post (url channel) channel.chat_id row.payload w in
    rw ((eq_iff "telegram" row.channel).1 (sym named), deliver)
      (judged-Fate ch d now row n db there flying can lib status w')
