-- ===== src/Store/Queue/Outbox.antt =====
-- The jobs that an accepted event adds to the queue of src/server.rs.
use beacon_alerts.Prelude.{
  eqb, not, ◌||◌, Bool, ◌∙◌, ℕ, String, ◌≡◌, refl, sym, subst, ◌⊎◌, inl, inr, true, false, Option,
  none, List, [], ◌∷◌, ◌++◌, arith, any, find, All, Bool-cases, ◌==◌, eq_iff, if◌then◌else◌,
}
use mathlib.Core.List.{append-nil}
use beacon_alerts.Fallible.{ok}
use beacon_alerts.Model.{Event, AlertRecord}
use beacon_alerts.Model.EventState.{EventState, eq}
use beacon_alerts.Model.Validate.{Formats}
use beacon_alerts.Policy.{channels_for}
use beacon_alerts.Policy.Channels.{channels_for-IsDistinct}
use beacon_alerts.Message.{render_event}
use beacon_alerts.Store.{Database, JobRow, EventRow, AlertRow, ServerEventStore}
use beacon_alerts.Store.Accept.{
  EventResult, Times, accept, find_event, has_job, notifies, enqueue_notifications,
}
use beacon_alerts.Store.Alerts.{next_alert}
use beacon_alerts.Store.Replies.{Fresh, Repeated, written, committed, accept-cases}
use beacon_alerts.Store.Enqueue.{jobs_from, AreNew, insert_jobs-Enqueued}
use beacon_alerts.Store.Clock.{Chrono}
use beacon_alerts.Store.History.{History}
use beacon_alerts.Store.History.Mirror.{has_event_id, Matched, History-Mirrors}
use beacon_alerts.Store.History.Delivery.{IsOf, History-Delivers}

-- no event of the history has the identifier of a new event
no_event :
    (x : Formats) (id : String) (o : Option EventRow) (log : List Event)
    → o ≡ none
    → Matched x o (find (has_event_id id) log)
    → any (has_event_id id) log ≡ false
no_event x id o [] h m = refl
no_event x id o (e ∷ log) h m = elim (Bool-cases (has_event_id id e)) [
  | inl here ↦ absurd (rw (h, here) at m)
  | inr other ↦ rw other (no_event x id o log h (rw other at m))
]

no_job :
    (log : List Event) (id c : String) (rows : List JobRow)
    → any (has_event_id id) log ≡ false
    → All (IsOf log) rows
    → has_job rows id c ≡ false
no_job log id c [] h k = refl
no_job log id c (row ∷ rows) h k = elim (Bool-cases (row.event_id == id)) [
  | inr other ↦ rw other (no_job log id c rows h k.1)
  | inl same ↦ absurd (
      ground (
        arith,
        h,
        subst (λ s. any (has_event_id s) log ≡ true) ((eq_iff row.event_id id).0 same) k.0,
      ))
]

no_jobs :
    (log : List Event) (id : String) (rows : List JobRow) (cs : List String)
    → any (has_event_id id) log ≡ false
    → All (IsOf log) rows
    → AreNew rows id cs
no_jobs log id rows [] h k = tt
no_jobs log id rows (c ∷ cs) h k = (no_job log id c rows h k, no_jobs log id rows cs h k)

-- An event is announced, with its state and the count of its alert: a firing one only where it opens
-- the alert.
abbrev pub is_announced : EventState → ℕ → Bool
is_announced EventState.firing count = eqb count 1
is_announced EventState.resolved count = true
is_announced EventState.info count = true

announced_lem :
    (s : EventState) (count : ℕ)
    → (not (eq s EventState.firing) || eqb count 1) ≡ is_announced s count
announced_lem EventState.firing count = refl
announced_lem EventState.resolved count = refl
announced_lem EventState.info count = refl

pub notifies_lem : (e : Event) (a : AlertRecord) → notifies e a ≡ is_announced e.state a.event_count
notifies_lem e a = announced_lem e.state a.event_count

-- The jobs of a new event: one for each channel of the policy, or none.
abbrev pub jobs_of : ServerEventStore → Times → Event → AlertRecord → ℕ → List JobRow
jobs_of store times e a id =
    if is_announced e.state a.event_count
    then jobs_from (render_event e a store.templates) e times.queued_at id
        (channels_for store.policy e)
    else []

module _ (x : Formats) (store : ServerEventStore) (times : Times) where
  committed-jobs :
      (e : Event) (payload : String) (a : AlertRecord) (alerts : List AlertRow) (db : Database)
      → AreNew db.notifications e.event_id (channels_for store.policy e)
      → (committed x store times e payload a alerts db).notifications
        ≡ db.notifications ++ jobs_of store times e a db.next_id
  unfolding enqueue_notifications
  committed-jobs e payload a alerts db new = elim (Bool-cases (notifies e a)) [
    | inl n ↦
        rw (n, sym (notifies_lem e a) ∙ n)
          (insert_jobs-Enqueued (render_event e a store.templates) e times.queued_at
            (channels_for store.policy e) (written x store times e payload alerts db)
            (channels_for-IsDistinct store.policy e) new).notifications
    | inr n ↦ rw (n, sym (notifies_lem e a) ∙ n) (sym (append-nil db.notifications))
  ]

  outbox_cases :
      {T : Type 0} (ch : Chrono T) {log : List Event} {db : Database} (e : Event) (r : EventResult)
      (db' : Database)
      → History x store ch log db
      → Fresh x store times e db r db' ⊎ Repeated x store times e db r db'
      → db'.notifications
        ≡ db.notifications ++ (if r.duplicate then [] else jobs_of store times e r.alert db.next_id)
  outbox_cases ch {log} {db} e r db' h (inr p) =
      rw (p.reply, p.unchanged) (sym (append-nil db.notifications))
  outbox_cases ch {log} {db} e r db' h (inl f) =
      let none_known =
        no_event x e.event_id (find_event db.events e.event_id) log f.unknown
          ((History-Mirrors x store ch h).events e.event_id) in
      rw (f.reply, f.commit)
        (committed-jobs e f.payload (next_alert e f.existing) f.alerts db (
          no_jobs log e.event_id db.notifications (channels_for store.policy e) none_known
            (History-Delivers x store ch h).known))

  -- In every database that the server can reach, accepting an event adds at the end of the queue
  -- one pending job with the rendered message for each channel that the policy selects, if the
  -- event is new and either is not a firing one or leaves its alert with the count 1. In all other
  -- cases it adds none: a firing event that repeats an open alert has no job, although
  -- docs/protocol.md says that each accepted event has one for each channel.
  pub accept-jobs :
      {T : Type 0} (ch : Chrono T) {log : List Event} {db : Database} (e : Event) (r : EventResult)
      (db' : Database)
      → History x store ch log db
      → accept x store times e db ≡ ok (r, db')
      → db'.notifications
        ≡ db.notifications ++ (if r.duplicate then [] else jobs_of store times e r.alert db.next_id)
  accept-jobs ch e r db' h done =
      outbox_cases ch e r db' h (accept-cases x store times e _ r db' done)
