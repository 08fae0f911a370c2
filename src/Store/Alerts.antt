-- ===== src/Store/Alerts.antt =====
-- The alerts table of src/server.rs: rows, loading, saving and the transition of an alert.
use beacon_alerts.Prelude.{
  ℕ, ◌+◌, ◌%◌, ◌≤◌, String, ◌≡◌, refl, sym, ap, ◌∙◌, inl, inr, Option, none, some, List, [], ◌∷◌,
  arith, leb, find, ◌==◌, eq_iff, Bool-cases, if◌then◌else◌,
}
use beacon_alerts.Fallible.{
  Result, ok, err, ◌>>=◌, ◌>>◌, >>=-eq-ok, ok-pair-injective, guard, invalid_query, out_of_range,
}
use beacon_alerts.Model.{Event, AlertRecord}
use beacon_alerts.Model.EventState.{EventState}
use beacon_alerts.Model.AlertStatus
use beacon_alerts.Model.AlertStatus.{AlertStatus}
use beacon_alerts.Model.Severity
use beacon_alerts.Store.{AlertRow}

-- the largest value of an INTEGER column
abbrev pub i64_max : ℕ
i64_max = 9223372036854775807

-- `u64` addition
abbrev pub add_u64 : ℕ → ℕ → ℕ
add_u64 a b = (a + b) % 18446744073709551616

-- `map_err(|_| InvalidQuery)`
abbrev or_invalid {ℓ} : {A : Type ℓ} → Result A → Result A
or_invalid (ok a) = ok a
or_invalid (err e) = err invalid_query

unfoldable pub alert_from_row : AlertRow → Result AlertRecord
alert_from_row row = do
  status ← or_invalid (AlertStatus.from_str row.status)
  severity ← or_invalid (Severity.from_str row.severity)
  ok (record {
    fingerprint = row.fingerprint;
    status = status;
    severity = severity;
    event_type = row.event_type;
    source = row.source;
    host_id = row.host_id;
    opened_at = row.opened_at;
    last_seen = row.last_seen;
    resolved_at = row.resolved_at;
    event_count = row.event_count;
    last_event_id = row.last_event_id;
  })

abbrev optional_alert : Option AlertRow → Result (Option AlertRecord)
optional_alert none = ok none
optional_alert (some row) = do alert ← alert_from_row row; ok (some alert)

-- `SELECT … WHERE fingerprint = ?1`
unfoldable pub load_alert : List AlertRow → String → Result (Option AlertRecord)
unfolding alert_from_row
load_alert rows fingerprint = optional_alert (find (λ row. row.fingerprint == fingerprint) rows)

-- the parameters of the statement in `save_alert`
abbrev pub row_of : AlertRecord → AlertRow
row_of alert = record {
  fingerprint = alert.fingerprint;
  status = AlertStatus.as_str alert.status;
  severity = Severity.as_str alert.severity;
  event_type = alert.event_type;
  source = alert.source;
  host_id = alert.host_id;
  opened_at = alert.opened_at;
  last_seen = alert.last_seen;
  resolved_at = alert.resolved_at;
  event_count = alert.event_count;
  last_event_id = alert.last_event_id;
}

-- `INSERT … ON CONFLICT(fingerprint) DO UPDATE`
unfoldable pub upsert : AlertRow → List AlertRow → List AlertRow
upsert row [] = row ∷ []
upsert row (r ∷ rows) = if r.fingerprint == row.fingerprint then row ∷ rows else r ∷ upsert row rows

-- An INTEGER column holds no count above `i64_max`.
unfoldable pub save_alert : List AlertRow → AlertRecord → Result (List AlertRow)
unfolding upsert
save_alert rows alert = do
  guard (leb alert.event_count i64_max) out_of_range
  ok (upsert (row_of alert) rows)

abbrev resolution : EventState → String → Option String
resolution EventState.resolved at = some at
resolution _ at = none

unfoldable pub new_alert : Event → AlertStatus → AlertRecord
new_alert event status = record {
  fingerprint = event.fingerprint;
  status = status;
  severity = event.severity;
  event_type = event.event_type;
  source = event.source;
  host_id = event.host_id;
  opened_at = event.occurred_at;
  last_seen = event.occurred_at;
  resolved_at = resolution event.state event.occurred_at;
  event_count = 1;
  last_event_id = event.event_id;
}

abbrev on_firing : Event → Option AlertRecord → AlertRecord
on_firing event none = new_alert event AlertStatus.firing
on_firing event (some alert) =
    if AlertStatus.eq alert.status AlertStatus.firing
    then record alert {
      severity = event.severity;
      event_type = event.event_type;
      source = event.source;
      host_id = event.host_id;
      last_seen = event.occurred_at;
      resolved_at = none;
      event_count = add_u64 alert.event_count 1;
      last_event_id = event.event_id;
    }
    else record alert {
      status = AlertStatus.firing;
      severity = event.severity;
      event_type = event.event_type;
      source = event.source;
      host_id = event.host_id;
      opened_at = event.occurred_at;
      last_seen = event.occurred_at;
      resolved_at = none;
      event_count = 1;
      last_event_id = event.event_id;
    }

abbrev on_resolved : Event → Option AlertRecord → AlertRecord
on_resolved event none = new_alert event AlertStatus.resolved
on_resolved event (some alert) = record alert {
  status = AlertStatus.resolved;
  severity = event.severity;
  last_seen = event.occurred_at;
  resolved_at = some event.occurred_at;
  event_count = add_u64 alert.event_count 1;
  last_event_id = event.event_id;
}

abbrev on_info : Event → Option AlertRecord → AlertRecord
on_info event none = new_alert event AlertStatus.info
on_info event (some alert) =
    if AlertStatus.eq alert.status AlertStatus.firing
    then record alert {
      last_seen = event.occurred_at;
      event_count = add_u64 alert.event_count 1;
      last_event_id = event.event_id;
    }
    else record alert {
      status = AlertStatus.info;
      severity = event.severity;
      event_type = event.event_type;
      source = event.source;
      host_id = event.host_id;
      last_seen = event.occurred_at;
      resolved_at = none;
      event_count = add_u64 alert.event_count 1;
      last_event_id = event.event_id;
    }

abbrev dispatch : EventState → Event → Option AlertRecord → AlertRecord
dispatch EventState.firing = on_firing
dispatch EventState.resolved = on_resolved
dispatch EventState.info = on_info

-- the `match` of `transition_alert`
unfoldable pub next_alert : Event → Option AlertRecord → AlertRecord
unfolding new_alert
next_alert event existing = dispatch event.state event existing

unfoldable pub transition_alert : List AlertRow → Event → Result (AlertRecord × List AlertRow)
transition_alert rows event = do
  existing ← load_alert rows event.fingerprint
  let alert = next_alert event existing
  saved ← save_alert rows alert
  ok (alert, saved)

pub alert_from_row-row_of : (a : AlertRecord) → alert_from_row (row_of a) ≡ ok a
unfolding alert_from_row
alert_from_row-row_of a = rw (AlertStatus.from_str-as_str, Severity.from_str-as_str) refl

pub find-upsert :
    (row : AlertRow) (rows : List AlertRow) (fp : String)
    → find (λ r. r.fingerprint == fp) (upsert row rows)
      ≡ (if row.fingerprint == fp then some row else find (λ r. r.fingerprint == fp) rows)
unfolding upsert
find-upsert row [] fp = refl
find-upsert row (r ∷ rows) fp = ground (
  arith,
  eq_iff r.fingerprint row.fingerprint,
  eq_iff r.fingerprint fp,
  eq_iff row.fingerprint fp,
  find-upsert row rows fp,
)

load_alert-upsert :
    (rows : List AlertRow) (a : AlertRecord) (fp : String)
    → load_alert (upsert (row_of a) rows) fp
      ≡ (if a.fingerprint == fp then ok (some a) else load_alert rows fp)
unfolding load_alert
load_alert-upsert rows a fp = elim (Bool-cases (a.fingerprint == fp)) [
  | inl e ↦ rw e (
      ap optional_alert (find-upsert (row_of a) rows fp) ∙ rw e (rw (alert_from_row-row_of a) refl))
  | inr e ↦ rw e (ap optional_alert (find-upsert (row_of a) rows fp) ∙ rw e refl)
]

-- A save that succeeds is an upsert, of a count that the column holds.
pub save_alert-eq-ok :
    (rows saved : List AlertRow) (a : AlertRecord)
    → save_alert rows a ≡ ok saved
    → (a.event_count ≤ i64_max) × (saved ≡ upsert (row_of a) rows)
unfolding save_alert
save_alert-eq-ok rows saved a h = (ground arith, ground arith)

-- What was saved is loaded under its fingerprint, and nothing else has changed.
pub load_alert-save_alert :
    (rows saved : List AlertRow) (a : AlertRecord) (fp : String)
    → save_alert rows a ≡ ok saved
    → load_alert saved fp ≡ (if a.fingerprint == fp then ok (some a) else load_alert rows fp)
load_alert-save_alert rows saved a fp h =
    rw (save_alert-eq-ok rows saved a h).1 (load_alert-upsert rows a fp)

-- A transition that succeeds has loaded, moved on and saved the alert of the event.
pub transition_alert-eq-ok :
    (rows saved : List AlertRow) (e : Event) (a : AlertRecord)
    → transition_alert rows e ≡ ok (a, saved)
    → (existing : Option AlertRecord) × (load_alert rows e.fingerprint ≡ ok existing)
      × (a ≡ next_alert e existing)
      × (save_alert rows a ≡ ok saved)
unfolding transition_alert
transition_alert-eq-ok rows saved e a h =
    let (existing, p, q) = >>=-eq-ok (load_alert rows e.fingerprint) _ h in
    let (saved', r, t) = >>=-eq-ok (save_alert rows (next_alert e existing)) _ q in
    let (same, kept) = ok-pair-injective (next_alert e existing) a saved' saved t in
    (existing, p, sym same, cc (r, same, kept))
