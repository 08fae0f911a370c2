-- ===== src/Store/Schema.antt =====
-- Opening a database file of some version: `initialize_database` of src/server.rs.
use beacon_alerts.Prelude.{
  ℕ, String, ◌≡◌, refl, ◌&&◌, ◌||◌, Option, none, some, List, [], map, ltb, ◌==◌,
}
use beacon_alerts.Store.{EventRow, AlertRow, JobRow, EnrollmentRow, Database, empty_database}
use beacon_alerts.Store.Clock.{text_le}
use beacon_alerts.Store.Jobs.{is_due, before_or_at}

-- A row of `notifications` before there was the column `retryable`.
pub record OldJobRow : Type 0 where
  pub id : ℕ
  pub event_id : String
  pub fingerprint : String
  pub channel : String
  pub payload : String
  pub status : String
  pub attempts : ℕ
  pub next_attempt_at : String
  pub last_error : Option String
  pub claimed_at : Option String
  pub sent_at : Option String

-- The table `notifications` of a file: `PRAGMA table_info` tells the last two apart.
pub data StoredJobs : Type 0 where
  missing : StoredJobs
  older : List OldJobRow → StoredJobs
  current : List JobRow → StoredJobs

-- A file with the tables that it has.
pub record StoredFile : Type 0 where
  pub events : Option (List EventRow)
  pub alerts : Option (List AlertRow)
  pub notifications : StoredJobs
  pub enrollments : Option (List EnrollmentRow)
  pub next_id : ℕ

-- `CREATE TABLE IF NOT EXISTS`
abbrev pub rows_of : {A : Type 0} → Option (List A) → List A
rows_of none = []
rows_of (some rows) = rows

-- `ALTER TABLE notifications ADD COLUMN retryable INTEGER NOT NULL DEFAULT 1`
abbrev pub with_retryable : OldJobRow → JobRow
with_retryable row = record {
  id = row.id;
  event_id = row.event_id;
  fingerprint = row.fingerprint;
  channel = row.channel;
  payload = row.payload;
  status = row.status;
  attempts = row.attempts;
  next_attempt_at = row.next_attempt_at;
  last_error = row.last_error;
  retryable = 1;
  claimed_at = row.claimed_at;
  sent_at = row.sent_at;
}

abbrev pub migrated : StoredJobs → List JobRow
migrated missing = []
migrated (older rows) = map with_retryable rows
migrated (current rows) = rows

unfoldable pub initialize_database : StoredFile → Database
initialize_database file = record {
  events = rows_of file.events;
  alerts = rows_of file.alerts;
  notifications = migrated file.notifications;
  enrollments = rows_of file.enrollments;
  next_id = file.next_id;
}

abbrev pub new_file : StoredFile
new_file = record {
  events = none;
  alerts = none;
  notifications = missing;
  enrollments = none;
  next_id = 1;
}

-- the file of a database
abbrev pub file_of : Database → StoredFile
file_of db = record {
  events = some db.events;
  alerts = some db.alerts;
  notifications = current db.notifications;
  enrollments = some db.enrollments;
  next_id = db.next_id;
}

-- A new file becomes the empty database.
initialize_new : initialize_database new_file ≡ empty_database
unfolding initialize_database
initialize_new = refl

-- Opening a database again changes nothing.
pub initialize_again : (db : Database) → initialize_database (file_of db) ≡ db
unfolding initialize_database
initialize_again db = refl

-- A job of an older version is due by its attempts, status and times alone.
with_retryable-due :
    (max_attempts : ℕ) (now stale_before : String) (row : OldJobRow)
    → is_due max_attempts now stale_before (with_retryable row) ≡ (
        ltb row.attempts max_attempts
        && (row.status == "pending"
            || ((row.status == "failed" && text_le row.next_attempt_at now)
                || (row.status == "in_flight" && before_or_at row.claimed_at stale_before))))
unfolding is_due
with_retryable-due max_attempts now stale_before row = refl
