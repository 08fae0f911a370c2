-- ===== src/Agent/Follows.antt =====
-- The events that src/server.rs has stored, while it goes on with its work.
use beacon_alerts.Prelude.{
  ℕ, String, ◌≡◌, refl, inl, inr, Bool, true, Option, none, some, List, ◌∷◌, arith, find, eq_iff,
  eq_refl,
}
use beacon_alerts.Model.{Event}
use beacon_alerts.Model.Validate.{Formats}
use beacon_alerts.Store.{Database, ServerEventStore}
use beacon_alerts.Store.Clock.{Chrono}
use beacon_alerts.Store.Jobs.{NotificationFailureUpdate, fail_notification}
use beacon_alerts.Fallible.{Result-cases}
use beacon_alerts.Store.History.{History}
use beacon_alerts.Store.History.Mirror.{has_event_id}
use beacon_alerts.Http.{CredentialEntry, Response}
use beacon_alerts.Http.Events.{
  Encodes, Answers, denies, rejects, breaks, repeats, conflicts, overflows, stores,
  accept_event-Answers,
}
use beacon_alerts.Client.{is_success}
use beacon_alerts.Agent.Network.{Step, posts, claims, completes, fails, or_unchanged, run_step}

-- The history has an event with this identifier and this encoding.
abbrev pub IsStored : Formats → List Event → Event → Type 0
IsStored x log e =
    (e' : Event) × (find (has_event_id e.event_id) log ≡ some e') × (x.to_string e ≡ x.to_string e')

abbrev pub Grows : Formats → List Event → List Event → Type 0
Grows x log log' = (e : Event) → IsStored x log e → IsStored x log' e

Grows-cons :
    (x : Formats) (log : List Event) (e : Event)
    → find (has_event_id e.event_id) log ≡ none
    → Grows x log (e ∷ log)
Grows-cons x log e new f (g, found, same) = (
  g,
  ground (arith, new, found, eq_iff f.event_id e.event_id, eq_iff e.event_id f.event_id),
  same,
)

module _ {T : Type 0} (x : Formats) (store : ServerEventStore) (ch : Chrono T) where
  -- A history that the database has now, in which everything stored before still is.
  pub record Follows (log : List Event) (db : Database) : Type 0 where
    pub now : List Event
    pub reached : History x store ch now db
    pub grows : Grows x log now

  abbrev pub stays : {log : List Event} {db : Database} → History x store ch log db → Follows log db
  stays {log} h = record { now = log; reached = h; grows = λ e s. s }

  -- If the answer was a success, the event is stored.
  abbrev pub Outcome : List Event → Event → Bool → Database → Type 0
  Outcome log e sent db = (f : Follows log db) × (sent ≡ true → IsStored x f.now e)

  pub Answers-Outcome :
      {header : Option String} {directory : Option (List CredentialEntry)} {log : List Event}
      {e : Event} {db db' : Database} {r : Response}
      → Answers x store ch header directory log e db r db'
      → History x store ch log db
      → Outcome log e (is_success r.status) db'
  Answers-Outcome (denies shut) h = (stays h, λ s. cc)
  Answers-Outcome (rejects error o v) h = (stays h, λ s. cc)
  Answers-Outcome (breaks o v) h = (stays h, λ s. cc)
  Answers-Outcome (repeats e' a o known alike found) h = (stays h, λ s. (e', known, alike))
  Answers-Outcome (conflicts e' o known differs) h = (stays h, λ s. cc)
  Answers-Outcome (overflows o new full) h = (stays h, λ s. cc)
  Answers-Outcome {log = log} {e = e} (stores db' o new reached) h = (
    (record { now = e ∷ log; reached = reached; grows = Grows-cons x log e new }),
    λ s. (e, rw (eq_refl e.event_id) refl, refl),
  )

  -- one history after another
  abbrev pub on :
      {log : List Event} {db db' : Database} (f : Follows log db)
      → Follows f.now db'
      → Follows log db'
  on f g = record { now = g.now; reached = g.reached; grows = λ e s. g.grows e (f.grows e s) }

  fails-Follows :
      (id : ℕ) (update : NotificationFailureUpdate T) (log : List Event) (db : Database)
      → History x store ch log db
      → Follows log (or_unchanged db (fail_notification ch id update db))
  fails-Follows id update log db h = elim (Result-cases (fail_notification ch id update db)) [
    | inl (db', done) ↦ rw done (stays (History.fails id update done h))
    | inr (e, failed) ↦ rw failed (stays h)
  ]

  -- Whatever the server does, it stays in a reachable database and forgets nothing.
  pub run_step-Follows :
      Encodes x
      → (step : Step T) (log : List Event) (db : Database) → History x store ch log db
      → Follows log (run_step x store ch step db)
  run_step-Follows encodes (posts times header event directory) log db h =
      (Answers-Outcome
        (accept_event-Answers x store ch times header directory log event db encodes h) h).0
  run_step-Follows encodes (claims now max_attempts) log db h =
      stays (History.claims now max_attempts h)
  run_step-Follows encodes (completes id now) log db h = stays (History.completes id now h)
  run_step-Follows encodes (fails id update) log db h = fails-Follows id update log db h
