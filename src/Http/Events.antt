-- ===== src/Http/Events.antt =====
-- The answers of `accept_event` of src/server.rs, against the history of the accepted events.
use beacon_alerts.Prelude.{
  ◌<◌, String, ◌≡◌, ◌≢◌, sym, ap, subst, ◌∙◌, inl, inr, true, false, Option, none, some, List, ◌∷◌,
  arith, find, text-cases, eq_iff, leb, leb→le, Bool-cases, Option-cases,
}
use beacon_alerts.Fallible.{
  Error, Result-cases, ok, err, same_some, encode_failed, event_conflict, out_of_range,
}
use beacon_alerts.Model.{Event, AlertRecord}
use beacon_alerts.Model.Validate.{Formats, validate}
use beacon_alerts.Store.{Database, ServerEventStore}
use beacon_alerts.Store.Alerts.{i64_max, next_alert}
use beacon_alerts.Store.Lifecycle.{replay}
use beacon_alerts.Store.Accept.{Times, find_event}
use beacon_alerts.Store.Clock.{Chrono}
use beacon_alerts.Store.History.{History, accepts}
use beacon_alerts.Store.History.Mirror.{Matched, has_event_id, History-Mirrors}
use beacon_alerts.Store.Replies.{accept-unencoded}
use beacon_alerts.Store.History.Resubmit.{
  Matched-row, accept_total, accept_full, accept_other, resubmit_alike,
}
use beacon_alerts.Http.{
  CredentialEntry, Response, accepted, failed, refused, authorized, accept_event,
}

-- Two events with one encoding have one fingerprint.
abbrev pub Encodes : Formats → Type 0
Encodes x =
    (e e' : Event) (s : String)
    → x.to_string e ≡ some s
    → x.to_string e' ≡ some s
    → e.fingerprint ≡ e'.fingerprint

module _ {T : Type 0} (x : Formats) (store : ServerEventStore) (ch : Chrono T) where
  -- What the server answers to an event, and the database after it, by the history before it.
  pub data Answers (header : Option String) (directory : Option (List CredentialEntry))
      (log : List Event) (e : Event) (db : Database) : Response → Database → Type 0 where
    denies : authorized header directory ≡ false → Answers header directory log e db refused db
    rejects :
        (error : Error)
        → authorized header directory ≡ true
        → validate x e ≡ err error
        → Answers header directory log e db (record { status = 400; body = failed error }) db
    breaks :
        authorized header directory ≡ true
        → x.to_string e ≡ none
        → Answers header directory log e db
            (record { status = 500; body = failed encode_failed })
            db
    repeats :
        (e' : Event) (a : AlertRecord)
        → authorized header directory ≡ true
        → find (has_event_id e.event_id) log ≡ some e'
        → x.to_string e ≡ x.to_string e'
        → replay e.fingerprint log ≡ some a
        → Answers header directory log e db
            (record { status = 202; body = accepted e.event_id true a })
            db
    conflicts :
        (e' : Event)
        → authorized header directory ≡ true
        → find (has_event_id e.event_id) log ≡ some e'
        → x.to_string e ≢ x.to_string e'
        → Answers header directory log e db
            (record { status = 409; body = failed event_conflict })
            db
    overflows :
        authorized header directory ≡ true
        → find (has_event_id e.event_id) log ≡ none
        → i64_max < (next_alert e (replay e.fingerprint log)).event_count
        → Answers header directory log e db (record { status = 500; body = failed out_of_range }) db
    stores :
        (db' : Database)
        → authorized header directory ≡ true
        → find (has_event_id e.event_id) log ≡ none
        → History x store ch (e ∷ log) db'
        → Answers header directory log e db
            (record {
              status = 202;
              body = accepted e.event_id false (next_alert e (replay e.fingerprint log));
            })
            db'

  module _ (times : Times) (header : Option String) (directory : Option (List CredentialEntry))
      (log : List Event) (e : Event) (db : Database) (h : History x store ch log db)
      (admitted : authorized header directory ≡ true) (valid : validate x e ≡ ok tt) where
    abbrev Answered : Type 0
    Answered =
        Answers header directory log e db (accept_event x store times header e directory db).0
          (accept_event x store times header e directory db).1

    new-Answers :
        (s : String) → x.to_string e ≡ some s → find (has_event_id e.event_id) log ≡ none → Answered
    unfolding accept_event
    new-Answers s enc new =
        let count = (next_alert e (replay e.fingerprint log)).event_count in
        elim (Bool-cases (leb count i64_max)) [
          | inl room ↦
              let (db', done) =
                accept_total x store ch times log db e s h valid enc new
                  (leb→le count i64_max room) in
              rw (admitted, valid, done, accept_event)
                (stores db' admitted new (accepts e times _ done h))
          | inr full ↦
              rw
                (
                  admitted,
                  valid,
                  accept_full x store ch times log db e s h valid enc new (ground (arith, full)),
                  accept_event,
                )
                (overflows admitted new (ground (arith, full)))
        ]

    known-Answers :
        (s : String) (e' : Event)
        → Encodes x
        → x.to_string e ≡ some s
        → find (has_event_id e.event_id) log ≡ some e'
        → (s' : String) → x.to_string e' ≡ some s'
        → Answered
    unfolding accept_event
    known-Answers s e' encodes enc known s' enc' = elim (text-cases s s') [
      | inl same ↦
          let alike = enc ∙ ap some same ∙ sym enc' in
          let (a, found, done) =
            resubmit_alike x store ch times log db e e' h valid known alike
              (encodes e' e s' enc' (enc ∙ ap some same)) in
          rw (admitted, valid, done, accept_event) (repeats e' a admitted known alike found)
      | inr other ↦
          let differs : x.to_string e ≢ x.to_string e' = λ same.
            ground (arith, other, (eq_iff s s').1 (same_some s s' (sym enc ∙ same ∙ enc'))) in
          rw
            (
              admitted,
              valid,
              accept_other x store ch times log db e e' s h valid enc known differs,
              accept_event,
            )
            (conflicts e' admitted known differs)
    ]

    encoded-Answers : Encodes x → (s : String) → x.to_string e ≡ some s → Answered
    encoded-Answers encodes s enc = elim (Option-cases (find (has_event_id e.event_id) log)) [
      | inl new ↦ new-Answers s enc new
      | inr (e', known) ↦
          let (row, _, enc', _) = Matched-row x (find_event db.events e.event_id) e' (
            subst (Matched x (find_event db.events e.event_id)) known
              ((History-Mirrors x store ch h).events e.event_id)) in
          known-Answers s e' encodes enc known row.payload enc'
    ]

    valid-Answers : Encodes x → Answered
    unfolding accept_event
    valid-Answers encodes = elim (Option-cases (x.to_string e)) [
      | inl bad ↦
          rw (admitted, valid, accept-unencoded x store times e db valid bad, accept_event)
            (breaks admitted bad)
      | inr (s, enc) ↦ encoded-Answers encodes s enc
    ]

  -- In every database that the server can reach, and if two events with one encoding have one
  -- fingerprint, the answer to an event is: 401 for a request that is not let through; 400 for an
  -- event that fails validation; 500 for one that does not encode; 202 as a duplicate for one
  -- that the history has with the same encoding; 409 for one that it has with another; 500 for a
  -- new one where the count of its alert is exhausted; and 202 for every other new one, with the
  -- alert that the history with it leaves. Only the last puts the event into the history; in the
  -- other cases the database stays as it is.
  pub accept_event-Answers :
      (times : Times) (header : Option String) (directory : Option (List CredentialEntry))
      (log : List Event) (e : Event) (db : Database)
      → Encodes x
      → History x store ch log db
      → Answers header directory log e db
          (accept_event x store times header e directory db).0
          (accept_event x store times header e directory db).1
  unfolding accept_event
  accept_event-Answers times header directory log e db encodes h =
      elim (Bool-cases (authorized header directory)) [
        | inr shut ↦ rw (shut, accept_event) (denies shut)
        | inl admitted ↦ elim (Result-cases (validate x e)) [
          | inl (_, valid) ↦ valid-Answers times header directory log e db h admitted valid encodes
          | inr (error, invalid) ↦
              rw (admitted, invalid, accept_event) (rejects error admitted invalid)
        ]
      ]
