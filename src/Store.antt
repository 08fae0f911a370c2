-- ===== src/Store.antt =====
-- The database of src/server.rs: its tables, as the lists of their rows in the order of insertion,
-- and the store that serves it.
pub mod Alerts
pub mod Lifecycle
pub mod Accept
pub mod Replies
pub mod Enqueue
pub mod History
pub mod Clock
pub mod Jobs
pub mod Queue
pub mod Dispatcher
pub mod Enrollment
pub mod Listing
pub mod Schema
use beacon_alerts.Prelude.{ℕ, String, Option, List, []}
use beacon_alerts.Policy.{PolicyCatalog}
use beacon_alerts.Template.{MessageTemplates}

pub record EventRow : Type 0 where
  pub event_id : String
  pub payload : String
  pub fingerprint : String
  pub received_at : String

-- Status and severity are stored as text.
pub record AlertRow : Type 0 where
  pub fingerprint : String
  pub status : String
  pub severity : String
  pub event_type : String
  pub source : String
  pub host_id : String
  pub opened_at : String
  pub last_seen : String
  pub resolved_at : Option String
  pub event_count : ℕ
  pub last_event_id : String

pub record JobRow : Type 0 where
  pub id : ℕ
  pub event_id : String
  pub fingerprint : String
  pub channel : String
  pub payload : String
  pub status : String
  pub attempts : ℕ
  pub next_attempt_at : String
  pub last_error : Option String
  pub retryable : ℕ
  pub claimed_at : Option String
  pub sent_at : Option String

pub record EnrollmentRow : Type 0 where
  pub code_hash : String
  pub name : String
  pub expires_at : String
  pub consumed_at : Option String

-- `next_id` is the identifier that AUTOINCREMENT gives next.
pub record Database : Type 0 where
  pub events : List EventRow
  pub alerts : List AlertRow
  pub notifications : List JobRow
  pub enrollments : List EnrollmentRow
  pub next_id : ℕ

-- what `initialize_database` creates in a new file
abbrev pub empty_database : Database
empty_database = record {
  events = [];
  alerts = [];
  notifications = [];
  enrollments = [];
  next_id = 1;
}

pub record ServerEventStore : Type 0 where
  pub policy : PolicyCatalog
  pub templates : MessageTemplates
