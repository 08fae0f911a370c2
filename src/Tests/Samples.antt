-- ===== src/Tests/Samples.antt =====
-- The inputs of the tests: an alert that fires, resolves and fires again, on one channel.
use Prim.Native.String.{len}
use beacon_alerts.Prelude.{
  String, Bool, true, false, not, none, some, List, [], ◌∷◌, eqb, is_empty, ◌≡◌, refl,
}
use beacon_alerts.Fallible.{Result, ok, err}
use beacon_alerts.Model.{Event, AlertRecord, Value, text, bool}
use beacon_alerts.Model.EventState.{EventState}
use beacon_alerts.Model.Severity.{Severity}
use beacon_alerts.Model.Validate.{Formats}
use beacon_alerts.Policy.{PolicyRule, PolicyCatalog}
use beacon_alerts.Template.{default_templates}
use beacon_alerts.Store.{Database, ServerEventStore, empty_database}
use beacon_alerts.Store.Accept.{EventResult, Times}
use beacon_alerts.Store.Clock.{Chrono}

abbrev pub formats : Formats
formats = record {
  is_uuid = λ s. eqb (len s) 36;
  is_rfc3339 = λ s. not (is_empty s);
  value_bytes = λ v. some 10;
  to_string = λ e. some e.event_id;
}

abbrev pub event : String → EventState → Event
event id state = record {
  schema_version = 1;
  event_id = id;
  event_type = "storage.mount_missing";
  source = "monitor";
  host_id = "backup";
  state = state;
  severity = Severity.critical;
  fingerprint = "backup/mnt";
  occurred_at = "2026-01-01T00:00:00Z";
  facts = ("mount", text "/mnt/data") ∷ ("token", text "secret") ∷ [];
}

abbrev pub firing : Event
firing = event "00000000-0000-4000-8000-000000000001" EventState.firing

abbrev pub resolved : Event
resolved = event "00000000-0000-4000-8000-000000000002" EventState.resolved

abbrev pub rule : List String → PolicyRule
rule channels = record {
  name = "storage";
  enabled = true;
  event_type = some "storage.mount_missing";
  source = none;
  host_id = none;
  state = none;
  severity = none;
  channels = channels;
}

abbrev pub catalog : PolicyCatalog
catalog = record { rules = rule ("telegram" ∷ []) ∷ rule ("pager" ∷ "telegram" ∷ []) ∷ [] }

abbrev pub store : ServerEventStore
store = record {
  policy = record { rules = rule ("telegram" ∷ []) ∷ [] };
  templates = default_templates;
}

abbrev pub times : Times
times = record { received_at = "2026-01-01T00:00:01Z"; queued_at = "2026-01-01T00:00:02Z" }

-- Instants are their texts.
abbrev pub clock : Chrono String
clock = record {
  to_rfc3339 = λ t. t;
  minutes_before = λ t n. "2025";
  add_seconds = λ t n. some "2027";
}

abbrev pub is_ok : Result (EventResult × Database) → Bool
is_ok (ok p) = true
is_ok (err e) = false

abbrev pub reply_of : Result (EventResult × Database) → EventResult
reply_of (ok p) = p.0
reply_of (err e) = record {
  duplicate = true;
  alert = record {
    fingerprint = "";
    status = beacon_alerts.Model.AlertStatus.AlertStatus.info;
    severity = Severity.info;
    event_type = "";
    source = "";
    host_id = "";
    opened_at = "";
    last_seen = "";
    resolved_at = none;
    event_count = 0;
    last_event_id = "";
  };
}

abbrev pub db_of : Result (EventResult × Database) → Database
db_of (ok p) = p.1
db_of (err e) = empty_database

pub accepted : (r : Result (EventResult × Database)) → is_ok r ≡ true → r ≡ ok (reply_of r, db_of r)
accepted (ok (reply, db)) h = refl
accepted (err e) h = cc
