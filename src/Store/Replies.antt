-- ===== src/Store/Replies.antt =====
-- What an accepted or refused event tells of the database, on each branch of `accept`.
use beacon_alerts.Prelude.{
  String, ◌≡◌, ◌≢◌, ==_ne, eq_iff, refl, sym, ap, ◌∙◌, ◌⊎◌, inl, inr, true, false, Option, none,
  some, List, [], ◌∷◌, ◌++◌, arith, ◌==◌, Bool-cases, Option-cases, if◌then◌else◌,
}
use beacon_alerts.Fallible.{
  Error, Result, ok, err, >>=-eq-ok, ok-pair-injective, or_fail, or_fail-eq-ok, encode_failed,
  event_conflict, missing_alert_state,
}
use beacon_alerts.Model.{Event, AlertRecord}
use beacon_alerts.Model.Validate.{Formats, validate}
use beacon_alerts.Policy.{channels_for}
use beacon_alerts.Store.{Database, EventRow, AlertRow, ServerEventStore}
use beacon_alerts.Store.Alerts.{
  load_alert, save_alert, next_alert, transition_alert, transition_alert-eq-ok,
}
use beacon_alerts.Store.Accept.{
  EventResult, Times, find_event, insert_event, notifies, enqueue_notifications, accept_again,
  accept_new, accept,
}

insert_event-eq-ok :
    (rows rows' : List EventRow) (row : EventRow)
    → insert_event rows row ≡ ok rows'
    → rows' ≡ rows ++ row ∷ []
unfolding insert_event
insert_event-eq-ok rows rows' row h = ground (arith, h)

module _ (x : Formats) (store : ServerEventStore) (times : Times) where
  abbrev pub event_row : Event → String → EventRow
  event_row e payload = record {
    event_id = e.event_id;
    payload = payload;
    fingerprint = e.fingerprint;
    received_at = times.received_at;
  }

  abbrev fresh_reply : AlertRecord → EventResult
  fresh_reply a = record { duplicate = false; alert = a }

  -- the database after a new event, before its notifications
  abbrev pub written : Event → String → List AlertRow → Database → Database
  written e payload alerts db = record db {
    events = db.events ++ event_row e payload ∷ [];
    alerts = alerts;
  }

  -- the database that is committed
  abbrev pub committed : Event → String → AlertRecord → List AlertRow → Database → Database
  committed e payload a alerts db =
      if notifies e a
      then enqueue_notifications e a (channels_for store.policy e) store.templates times.queued_at
          (written e payload alerts db)
      else written e payload alerts db

  pub record Fresh (e : Event) (db : Database) (r : EventResult) (db' : Database) : Type 0 where
    pub payload : String
    pub existing : Option AlertRecord
    pub alerts : List AlertRow
    pub valid : validate x e ≡ ok tt
    pub encoded : x.to_string e ≡ some payload
    pub unknown : find_event db.events e.event_id ≡ none
    pub loaded : load_alert db.alerts e.fingerprint ≡ ok existing
    pub saved : save_alert db.alerts (next_alert e existing) ≡ ok alerts
    pub reply : r ≡ record { duplicate = false; alert = next_alert e existing }
    pub commit : db' ≡ committed e payload (next_alert e existing) alerts db

  pub record Repeated (e : Event) (db : Database) (r : EventResult) (db' : Database) : Type 0 where
    pub row : EventRow
    pub alert : AlertRecord
    pub valid : validate x e ≡ ok tt
    pub encoded : x.to_string e ≡ some row.payload
    pub known : find_event db.events e.event_id ≡ some row
    pub loaded : load_alert db.alerts e.fingerprint ≡ ok (some alert)
    pub reply : r ≡ record { duplicate = true; alert = alert }
    pub unchanged : db' ≡ db

  accept_again-Repeated :
      (e : Event) (payload : String) (row : EventRow) (db : Database) (r : EventResult)
      (db' : Database)
      → validate x e ≡ ok tt
      → x.to_string e ≡ some payload
      → find_event db.events e.event_id ≡ some row
      → accept_again x store times e payload row db ≡ ok (r, db')
      → Repeated e db r db'
  unfolding accept_again
  accept_again-Repeated e payload row db r db' valid enc known h =
      elim (Bool-cases (row.payload == payload)) [
        | inr differs ↦ absurd (ground (arith, differs, h))
        | inl same ↦
            let h' = rw same at h in
            let (found, loaded, rest) = >>=-eq-ok (load_alert db.alerts e.fingerprint) _ h' in
            let (alert, there, last) = >>=-eq-ok (or_fail found missing_alert_state) _ rest in
            let (reply, kept) = ok-pair-injective _ r db db' last in
            record {
              row = row;
              alert = alert;
              valid = valid;
              encoded = enc ∙ ap some (sym ((eq_iff row.payload payload).0 same));
              known = known;
              loaded = loaded ∙ ap ok (or_fail-eq-ok found alert missing_alert_state there);
              reply = sym reply;
              unchanged = sym kept;
            }
      ]

  abbrev finished : Event → List EventRow → Database → AlertRecord → List AlertRow → Database
  finished e events db a alerts =
      if notifies e a
      then enqueue_notifications e a (channels_for store.policy e) store.templates times.queued_at
          (record db { events = events; alerts = alerts })
      else record db { events = events; alerts = alerts }

  finish :
      (e : Event) (events : List EventRow) (db : Database) (a : AlertRecord)
      (alerts : List AlertRow) (r : EventResult) (db' : Database)
      → ◌≡◌ {A = Result (EventResult × Database)}
          (ok (fresh_reply a, finished e events db a alerts))
          (ok (r, db'))
      → (fresh_reply a ≡ r) × (finished e events db a alerts ≡ db')
  finish e events db a alerts r db' last =
      ok-pair-injective (fresh_reply a) r (finished e events db a alerts) db' last

  accept_new-Fresh :
      (e : Event) (payload : String) (db : Database) (r : EventResult) (db' : Database)
      → validate x e ≡ ok tt
      → x.to_string e ≡ some payload
      → find_event db.events e.event_id ≡ none
      → accept_new x store times e payload db ≡ ok (r, db')
      → Fresh e db r db'
  unfolding accept_new
  accept_new-Fresh e payload db r db' valid enc unknown h =
      let (events, inserted, rest) = >>=-eq-ok (insert_event db.events (event_row e payload)) _ h in
      let ((a, alerts), moved, last) = >>=-eq-ok (transition_alert db.alerts e) _ rest in
      let (existing, loaded, same, saved) = transition_alert-eq-ok db.alerts alerts e a moved in
      record {
        payload = payload;
        existing = existing;
        alerts = alerts;
        valid = valid;
        encoded = enc;
        unknown = unknown;
        loaded = loaded;
        saved = rw same at saved;
        reply =
            sym (finish e events db a alerts r db' last).0
            ∙ ap (λ (b : AlertRecord). fresh_reply b) same;
        commit =
            sym (finish e events db a alerts r db' last).1
            ∙ cc (insert_event-eq-ok db.events events (event_row e payload) inserted, same);
      }

  -- An accepted event was new, or was known with the same payload.
  pub accept-cases :
      (e : Event) (db : Database) (r : EventResult) (db' : Database)
      → accept x store times e db ≡ ok (r, db')
      → Fresh e db r db' ⊎ Repeated e db r db'
  unfolding accept
  accept-cases e db r db' h =
      let (_, valid, rest) = >>=-eq-ok (validate x e) _ h in
      let (payload, enc, last) = >>=-eq-ok (or_fail (x.to_string e) encode_failed) _ rest in
      let encoded : x.to_string e ≡ some payload =
        or_fail-eq-ok (x.to_string e) payload encode_failed enc in
      elim (Option-cases (find_event db.events e.event_id)) [
        | inl unknown ↦
            inl (accept_new-Fresh e payload db r db' valid encoded unknown (rw unknown at last))
        | inr (row, known) ↦
            inr
              (accept_again-Repeated e payload row db r db' valid encoded known (rw known at last))
      ]

  -- An event whose identifier is known with another payload is refused as a conflict.
  pub accept-conflict :
      (e : Event) (db : Database) (row : EventRow) (payload : String)
      → validate x e ≡ ok tt
      → x.to_string e ≡ some payload
      → find_event db.events e.event_id ≡ some row
      → row.payload ≢ payload
      → accept x store times e db ≡ err event_conflict
  unfolding accept
  accept-conflict e db row payload valid enc known differs =
      rw (valid, enc, known, accept_again, ==_ne row.payload payload differs) refl

  -- An event that fails validation is refused with the error of the validation.
  pub accept-invalid :
      (e : Event) (db : Database) (error : Error)
      → validate x e ≡ err error
      → accept x store times e db ≡ err error
  unfolding accept
  accept-invalid e db error h = rw h refl

  -- A valid event that does not encode is refused.
  pub accept-unencoded :
      (e : Event) (db : Database)
      → validate x e ≡ ok tt
      → x.to_string e ≡ none
      → accept x store times e db ≡ err encode_failed
  unfolding accept
  accept-unencoded e db valid bad = rw (valid, bad) refl
