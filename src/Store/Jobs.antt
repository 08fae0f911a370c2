-- ===== src/Store/Jobs.antt =====
-- The notification queue of src/server.rs: claiming, completing, failing and listing jobs.
use beacon_alerts.Prelude.{
  ℕ, ◌+◌, String, Bool, false, not, ◌&&◌, ◌||◌, Option, none, some, List, [], ◌∷◌, map, ltb, leb,
  eqb, ◌==◌, if◌then◌else◌,
}
use beacon_alerts.Fallible.{Result, ok, ◌>>=◌, or_fail, panicked}
use beacon_alerts.Store.{Database, JobRow}
use beacon_alerts.Store.Clock.{Chrono, text_le, retry_time}

pub record NotificationJob : Type 0 where
  pub id : ℕ
  pub event_id : String
  pub fingerprint : String
  pub channel : String
  pub payload : String
  pub status : String
  pub attempts : ℕ
  pub next_attempt_at : String
  pub last_error : Option String
  pub retryable : Bool
  pub sent_at : Option String

pub record NotificationFailureUpdate (T : Type 0) : Type 0 where
  pub attempts : ℕ
  pub error : String
  pub max_attempts : ℕ
  pub retry_delay_seconds : ℕ
  pub retryable : Bool
  pub now : T

abbrev pub notification_from_row : JobRow → NotificationJob
notification_from_row row = record {
  id = row.id;
  event_id = row.event_id;
  fingerprint = row.fingerprint;
  channel = row.channel;
  payload = row.payload;
  status = row.status;
  attempts = row.attempts;
  next_attempt_at = row.next_attempt_at;
  last_error = row.last_error;
  retryable = not (eqb row.retryable 0);
  sent_at = row.sent_at;
}

-- a comparison with NULL does not hold
abbrev pub before_or_at : Option String → String → Bool
before_or_at none bound = false
before_or_at (some text) bound = text_le text bound

-- the WHERE clause of `claim_notification`
unfoldable pub is_due : ℕ → String → String → JobRow → Bool
is_due max_attempts now stale_before row =
    ltb row.attempts max_attempts
    && (row.status == "pending"
        || ((row.status == "failed" && (eqb row.retryable 1 && text_le row.next_attempt_at now))
            || (row.status == "in_flight" && before_or_at row.claimed_at stale_before)))

abbrev pub lower : JobRow → Option JobRow → Option JobRow
lower row none = some row
lower row (some other) = if leb row.id other.id then some row else some other

-- `WHERE … ORDER BY id LIMIT 1`
unfoldable pub first_due : (JobRow → Bool) → List JobRow → Option JobRow
first_due due [] = none
first_due due (row ∷ rows) =
    let rest = first_due due rows in if due row then lower row rest else rest

-- `UPDATE notifications SET … WHERE …`
unfoldable pub update_where : (JobRow → Bool) → (JobRow → JobRow) → List JobRow → List JobRow
update_where test change [] = []
update_where test change (row ∷ rows) =
    (if test row then change row else row) ∷ update_where test change rows

abbrev pub has_id : ℕ → JobRow → Bool
has_id id row = eqb row.id id

abbrev pub is_in_flight : ℕ → JobRow → Bool
is_in_flight id row = eqb row.id id && row.status == "in_flight"

abbrev pub set_claimed : String → JobRow → JobRow
set_claimed now row = record row {
  status = "in_flight";
  attempts = row.attempts + 1;
  claimed_at = some now;
}

abbrev pub set_sent : String → JobRow → JobRow
set_sent now row = record row {
  status = "sent";
  sent_at = some now;
  claimed_at = none;
  last_error = none;
}

abbrev pub set_failed : String → String → Bool → JobRow → JobRow
set_failed next_attempt_at error retryable row = record row {
  status = "failed";
  next_attempt_at = next_attempt_at;
  last_error = some error;
  retryable = if retryable then 1 else 0;
  claimed_at = none;
}

module _ {T : Type 0} (ch : Chrono T) where
  unfoldable pub claim_notification : T → ℕ → Database → Option NotificationJob × Database
  unfolding is_due first_due update_where
  claim_notification now max_attempts db =
      let now_string = ch.to_rfc3339 now in
      let stale_before = ch.to_rfc3339 (ch.minutes_before now 5) in
      elim (first_due (is_due max_attempts now_string stale_before) db.notifications) [
        | none ↦ (none, db)
        | some row ↦ (
          some (record (notification_from_row row) {
            attempts = row.attempts + 1;
            status = "in_flight";
          }),
          record db {
            notifications =
                update_where (has_id row.id) (set_claimed (ch.to_rfc3339 now)) db.notifications;
          },
        )
      ]

  unfoldable pub complete_notification : ℕ → T → Database → Database
  unfolding update_where
  complete_notification id now db = record db {
    notifications = update_where (is_in_flight id) (set_sent (ch.to_rfc3339 now)) db.notifications;
  }

  -- when the job is due again
  unfoldable pub next_attempt : NotificationFailureUpdate T → Option String
  next_attempt update =
      if not update.retryable || leb update.max_attempts update.attempts
      then some (ch.to_rfc3339 update.now)
      else retry_time ch update.now update.attempts update.retry_delay_seconds

  -- The panic of `retry_time` comes before the statement.
  unfoldable pub fail_notification : ℕ → NotificationFailureUpdate T → Database → Result Database
  unfolding next_attempt update_where
  fail_notification id update db = do
    next_attempt_at ← or_fail (next_attempt update) panicked
    ok (record db {
      notifications =
          update_where (is_in_flight id) (set_failed next_attempt_at update.error update.retryable)
            db.notifications;
    })

-- `list_notifications`, for a table in the order of its identifiers
unfoldable pub list_notifications : Database → List NotificationJob
list_notifications db = map notification_from_row db.notifications
