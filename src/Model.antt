-- ===== src/Model.antt =====
-- src/model.rs: events, alert records and their validation.
pub mod EventState
pub mod AlertStatus
pub mod Severity
pub mod Validate
use beacon_alerts.Prelude.{ℕ, String, Bool, Option, List}

-- `serde_json::Value`: a number carries the text that its `to_string` gives, an array and an
-- object the JSON text that stands for them.
pub data Value : Type 0 where
  null : Value
  bool : Bool → Value
  number text array object : String → Value

-- `facts` is the `BTreeMap`, as its entries in the order of their keys.
pub record Event : Type 0 where
  pub schema_version : ℕ
  pub event_id : String
  pub event_type : String
  pub source : String
  pub host_id : String
  pub state : EventState.EventState
  pub severity : Severity.Severity
  pub fingerprint : String
  pub occurred_at : String
  pub facts : List (String × Value)

pub record AlertRecord : Type 0 where
  pub fingerprint : String
  pub status : AlertStatus.AlertStatus
  pub severity : Severity.Severity
  pub event_type : String
  pub source : String
  pub host_id : String
  pub opened_at : String
  pub last_seen : String
  pub resolved_at : Option String
  pub event_count : ℕ
  pub last_event_id : String
