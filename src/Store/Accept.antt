-- ===== src/Store/Accept.antt =====
-- `ServerEventStore::accept` of src/server.rs, as a transaction: an error leaves the database as it
-- was, and a success gives the database that is committed.
use beacon_alerts.Prelude.{
  ℕ, String, Bool, true, false, not, ◌||◌, Option, none, some, List, [], ◌∷◌, ◌++◌, suc, any, find,
  eqb, ◌==◌, ◌&&◌, if◌then◌else◌,
}
use beacon_alerts.Fallible.{
  Result, ok, err, ◌>>=◌, ◌>>◌, or_fail, encode_failed, event_conflict, missing_alert_state,
  constraint_violation,
}
use beacon_alerts.Model.{Event, AlertRecord}
use beacon_alerts.Model.EventState
use beacon_alerts.Model.EventState.{EventState}
use beacon_alerts.Model.Validate.{Formats, validate}
use beacon_alerts.Policy.{channels_for}
use beacon_alerts.Template.{MessageTemplates}
use beacon_alerts.Message.{render_event}
use beacon_alerts.Store.{Database, EventRow, JobRow, ServerEventStore}
use beacon_alerts.Store.Alerts.{load_alert, transition_alert}

pub record EventResult : Type 0 where
  pub duplicate : Bool
  pub alert : AlertRecord

-- What `Utc::now().to_rfc3339()` gives where the event row and the jobs are written.
pub record Times : Type 0 where
  pub received_at : String
  pub queued_at : String

-- `SELECT … FROM events WHERE event_id = ?1`
abbrev pub find_event : List EventRow → String → Option EventRow
find_event rows id = find (λ row. row.event_id == id) rows

-- `INSERT INTO events`, under the primary key
unfoldable pub insert_event : List EventRow → EventRow → Result (List EventRow)
insert_event rows row =
    if any (λ r. r.event_id == row.event_id) rows
    then err constraint_violation
    else ok (rows ++ row ∷ [])

-- the unique key of the notifications
abbrev pub has_job : List JobRow → String → String → Bool
has_job jobs event_id channel = any (λ job. job.event_id == event_id && job.channel == channel) jobs

-- a job as it is inserted
abbrev pub new_job : String → Event → String → String → ℕ → JobRow
new_job payload event queued_at channel id = record {
  id = id;
  event_id = event.event_id;
  fingerprint = event.fingerprint;
  channel = channel;
  payload = payload;
  status = "pending";
  attempts = 0;
  next_attempt_at = queued_at;
  last_error = none;
  retryable = 1;
  claimed_at = none;
  sent_at = none;
}

-- `INSERT OR IGNORE INTO notifications`
unfoldable pub insert_job : String → Event → String → String → Database → Database
insert_job payload event queued_at channel db =
    if has_job db.notifications event.event_id channel then db else record db {
      notifications = db.notifications ++ new_job payload event queued_at channel db.next_id ∷ [];
      next_id = suc db.next_id;
    }

-- the loop over the channels
unfoldable pub insert_jobs : String → Event → String → List String → Database → Database
unfolding insert_job
insert_jobs payload event queued_at [] db = db
insert_jobs payload event queued_at (channel ∷ channels) db =
    insert_jobs payload event queued_at channels (insert_job payload event queued_at channel db)

unfoldable pub enqueue_notifications :
    Event → AlertRecord → List String → MessageTemplates → String → Database → Database
unfolding insert_jobs
enqueue_notifications event alert channels templates queued_at db =
    insert_jobs (render_event event alert templates) event queued_at channels db

-- the condition for notifications
abbrev pub notifies : Event → AlertRecord → Bool
notifies event alert = not (EventState.eq event.state EventState.firing) || eqb alert.event_count 1

module _ (x : Formats) (store : ServerEventStore) (times : Times) where
  -- the event's identifier is known
  unfoldable pub accept_again :
      Event → String → EventRow → Database → Result (EventResult × Database)
  accept_again event payload existing db =
      if existing.payload == payload
      then (do
        found ← load_alert db.alerts event.fingerprint
        alert ← or_fail found missing_alert_state
        ok (record { duplicate = true; alert = alert }, db))
      else err event_conflict

  -- the event is new
  unfoldable pub accept_new : Event → String → Database → Result (EventResult × Database)
  unfolding insert_event
  accept_new event payload db = do
    events ← insert_event db.events (record {
      event_id = event.event_id;
      payload = payload;
      fingerprint = event.fingerprint;
      received_at = times.received_at;
    })
    (alert, alerts) ← transition_alert db.alerts event
    let written = record db { events = events; alerts = alerts }
    let channels = channels_for store.policy event
    ok (
      record { duplicate = false; alert = alert },
      if notifies event alert
          then enqueue_notifications event alert channels store.templates times.queued_at written
          else written,
    )

  unfoldable pub accept : Event → Database → Result (EventResult × Database)
  unfolding accept_again accept_new
  accept event db = do
    validate x event
    payload ← or_fail (x.to_string event) encode_failed
    elim (find_event db.events event.event_id) [
      | some existing ↦ accept_again event payload existing db
      | none ↦ accept_new event payload db
    ]
