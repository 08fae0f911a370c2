-- ===== src/Store/History/Resubmit.antt =====
-- What the server answers to an event, by the history.
use beacon_alerts.Prelude.{
  ◌≤◌, String, ◌≡◌, ◌≢◌, refl, ap, subst, ◌∙◌, inl, inr, Bool, true, false, Option, none, some,
  List, [], ◌∷◌, arith, find, any, ◌==◌, eq_refl, Bool-cases, le→leb, lt→leb, eq_iff, sym, ◌<◌,
}
use beacon_alerts.Fallible.{ok, err, out_of_range, event_conflict}
use beacon_alerts.Model.{Event, AlertRecord}
use beacon_alerts.Model.Validate.{Formats, validate}
use beacon_alerts.Store.{Database, EventRow, ServerEventStore}
use beacon_alerts.Store.Alerts.{
  load_alert, next_alert, i64_max, save_alert, transition_alert, upsert, row_of,
}
use beacon_alerts.Store.Lifecycle.{replay, Reported, replay-Reported}
use beacon_alerts.Store.Accept.{Times, find_event, insert_event, accept, accept_again, accept_new}
use beacon_alerts.Store.Replies.{committed, accept-conflict}
use beacon_alerts.Store.Clock.{Chrono}
use beacon_alerts.Store.History.{History}
use beacon_alerts.Store.History.Mirror.{Mirrors, Matched, has_event_id, History-Mirrors}

find_other {ℓ} :
    {A : Type ℓ} (p q : A → Bool) (as' : List A) (a : A)
    → find p as' ≡ some a
    → q a ≡ true
    → find q as' ≢ none
find_other p q [] a h t = cc
find_other p q (b ∷ bs) a h t = elim (Bool-cases (p b)) [
  | inl e ↦ λ n. ground (arith, e, h, t, n)
  | inr e ↦ λ n. find_other p q bs a (ground (arith, e, h)) t (ground (arith, n))
]

any_of_find {ℓ} : {A : Type ℓ} (p : A → Bool) (bs : List A) → find p bs ≡ none → any p bs ≡ false
any_of_find p [] h = refl
any_of_find p (b ∷ bs) h = ground (arith, h, any_of_find p bs)

-- a history with an event has a record of its fingerprint
has_record :
    (fp : String) (e : Option Event) (o : Option AlertRecord)
    → Reported fp e o
    → e ≢ none
    → (a : AlertRecord) × (o ≡ some a)
has_record fp none o r h = absurd (h refl)
has_record fp (some e) none r h = absurd r
has_record fp (some e) (some a) r h = (a, refl)

pub Matched-row :
    (x : Formats) (o : Option EventRow) (e : Event)
    → Matched x o (some e)
    → (row : EventRow) × (o ≡ some row)
      × (x.to_string e ≡ some row.payload)
      × (validate x e ≡ ok tt)
Matched-row x none e m = absurd m
Matched-row x (some row) e m = (row, refl, m.0, m.1)

Matched-none : (x : Formats) (o : Option EventRow) → Matched x o none → o ≡ none
Matched-none x none m = refl
Matched-none x (some row) m = absurd m

module _ {T : Type 0} (x : Formats) (store : ServerEventStore) (ch : Chrono T) where
  resubmit_again :
      (times : Times) (e : Event) (db : Database) (row : EventRow) (a : AlertRecord)
      → load_alert db.alerts e.fingerprint ≡ ok (some a)
      → accept_again x store times e row.payload row db
        ≡ ok (record { duplicate = true; alert = a }, db)
  unfolding accept_again
  resubmit_again times e db row a loaded = rw (eq_refl row.payload, loaded) refl

  -- The same for an event with the identifier, the encoding and the fingerprint of one in the
  -- history.
  pub resubmit_alike :
      (times : Times) (log : List Event) (db : Database) (e e' : Event)
      → History x store ch log db
      → validate x e ≡ ok tt
      → find (has_event_id e.event_id) log ≡ some e'
      → x.to_string e ≡ x.to_string e'
      → e'.fingerprint ≡ e.fingerprint
      → (a : AlertRecord) × (replay e.fingerprint log ≡ some a)
        × (accept x store times e db ≡ ok (record { duplicate = true; alert = a }, db))
  unfolding accept
  resubmit_alike times log db e e' h valid known same fp =
      let m = History-Mirrors x store ch h in
      let (row, there, enc, _) =
        Matched-row x (find_event db.events e.event_id) e'
          (subst (Matched x (find_event db.events e.event_id)) known (m.events e.event_id)) in
      let (a, found) =
        has_record e.fingerprint _ (replay e.fingerprint log) (replay-Reported e.fingerprint log) (
          find_other (has_event_id e.event_id) (λ o. o.fingerprint == e.fingerprint) log e' known
            ((eq_iff e'.fingerprint e.fingerprint).1 fp)) in
      (
        a,
        found,
        rw (valid, same ∙ enc, there)
            (resubmit_again times e db row a
              (m.alerts e.fingerprint ∙ ap (λ (o : Option AlertRecord). ok o) found)),
      )

  -- An event of the history is acknowledged again, at any time and as often as it is sent, with the
  -- alert that its fingerprint has now, and the database stays as it is.
  pub resubmit :
      (times : Times) (log : List Event) (db : Database) (e : Event)
      → History x store ch log db
      → find (has_event_id e.event_id) log ≡ some e
      → (a : AlertRecord) × (replay e.fingerprint log ≡ some a)
        × (accept x store times e db ≡ ok (record { duplicate = true; alert = a }, db))
  resubmit times log db e h known =
      let m = History-Mirrors x store ch h in
      let (_, _, _, valid) =
        Matched-row x (find_event db.events e.event_id) e
          (subst (Matched x (find_event db.events e.event_id)) known (m.events e.event_id)) in
      resubmit_alike times log db e e h valid known refl refl

  accept_new_total :
      (times : Times) (log : List Event) (db : Database) (e : Event) (payload : String)
      → Mirrors x log db
      → find_event db.events e.event_id ≡ none
      → (next_alert e (replay e.fingerprint log)).event_count ≤ i64_max
      → (db' : Database) × (accept_new x store times e payload db
          ≡ ok (record { duplicate = false; alert = next_alert e (replay e.fingerprint log) }, db'))
  unfolding accept_new insert_event transition_alert save_alert
  accept_new_total times log db e payload m unknown room = (
    committed x store times e payload (next_alert e (replay e.fingerprint log))
        (upsert (row_of (next_alert e (replay e.fingerprint log))) db.alerts) db,
    rw (any_of_find (λ (r : EventRow). r.event_id == e.event_id) db.events unknown)
        (rw (m.alerts e.fingerprint) (rw (le→leb _ _ room) refl)),
  )

  -- A valid event with a new identifier is accepted, unless the count of its alert is exhausted:
  -- the answer is the alert that the history with the event leaves.
  pub accept_total :
      (times : Times) (log : List Event) (db : Database) (e : Event) (payload : String)
      → History x store ch log db
      → validate x e ≡ ok tt
      → x.to_string e ≡ some payload
      → find (has_event_id e.event_id) log ≡ none
      → (next_alert e (replay e.fingerprint log)).event_count ≤ i64_max
      → (db' : Database) × (accept x store times e db
          ≡ ok (record { duplicate = false; alert = next_alert e (replay e.fingerprint log) }, db'))
  unfolding accept
  accept_total times log db e payload h valid enc new room =
      let m = History-Mirrors x store ch h in
      let unknown =
        Matched-none x (find_event db.events e.event_id)
          (subst (Matched x (find_event db.events e.event_id)) new (m.events e.event_id)) in
      let (db', done) = accept_new_total times log db e payload m unknown room in
      (db', rw (valid, enc, unknown) done)

  accept_new_full :
      (times : Times) (log : List Event) (db : Database) (e : Event) (payload : String)
      → Mirrors x log db
      → find_event db.events e.event_id ≡ none
      → i64_max < (next_alert e (replay e.fingerprint log)).event_count
      → accept_new x store times e payload db ≡ err out_of_range
  unfolding accept_new insert_event transition_alert save_alert
  accept_new_full times log db e payload m unknown full =
      rw (any_of_find (λ (r : EventRow). r.event_id == e.event_id) db.events unknown) (
        rw (m.alerts e.fingerprint)
          (rw (lt→leb i64_max (next_alert e (replay e.fingerprint log)).event_count full) refl))

  -- A valid event with a new identifier is refused where the count of its alert is exhausted.
  pub accept_full :
      (times : Times) (log : List Event) (db : Database) (e : Event) (payload : String)
      → History x store ch log db
      → validate x e ≡ ok tt
      → x.to_string e ≡ some payload
      → find (has_event_id e.event_id) log ≡ none
      → i64_max < (next_alert e (replay e.fingerprint log)).event_count
      → accept x store times e db ≡ err out_of_range
  unfolding accept
  accept_full times log db e payload h valid enc new full =
      let m = History-Mirrors x store ch h in
      let unknown =
        Matched-none x (find_event db.events e.event_id)
          (subst (Matched x (find_event db.events e.event_id)) new (m.events e.event_id)) in
      rw (valid, enc, unknown) (accept_new_full times log db e payload m unknown full)

  -- An event with a known identifier and another encoding is a conflict.
  pub accept_other :
      (times : Times) (log : List Event) (db : Database) (e e' : Event) (payload : String)
      → History x store ch log db
      → validate x e ≡ ok tt
      → x.to_string e ≡ some payload
      → find (has_event_id e.event_id) log ≡ some e'
      → x.to_string e ≢ x.to_string e'
      → accept x store times e db ≡ err event_conflict
  accept_other times log db e e' payload h valid enc known differs =
      let m = History-Mirrors x store ch h in
      let (row, there, enc', _) =
        Matched-row x (find_event db.events e.event_id) e'
          (subst (Matched x (find_event db.events e.event_id)) known (m.events e.event_id)) in
      accept-conflict x store times e db row payload valid enc there
        (λ same. differs (enc ∙ ap some (sym same) ∙ sym enc'))
