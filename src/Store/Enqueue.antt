-- ===== src/Store/Enqueue.antt =====
-- The jobs that `enqueue_notifications` of src/server.rs inserts for a new event.
use beacon_alerts.Prelude.{
  ℕ, suc, ◌+◌, String, ◌≡◌, refl, sym, ◌∙◌, false, ◌&&◌, ◌||◌, List, [], ◌∷◌, ◌++◌, arith, length,
  any-append, All, contains, IsDistinct, eq_iff, eq_refl, ◌==◌,
}
use mathlib.Core.List.{append_assoc, append-nil}
use beacon_alerts.Model.{Event}
use beacon_alerts.Store.{Database, JobRow}
use beacon_alerts.Store.Accept.{has_job, new_job, insert_jobs}

-- One pending job for each channel, with consecutive identifiers.
unfoldable pub jobs_from : String → Event → String → ℕ → List String → List JobRow
jobs_from payload event queued_at id [] = []
jobs_from payload event queued_at id (channel ∷ channels) =
    new_job payload event queued_at channel id ∷ jobs_from payload event queued_at (suc id) channels

-- No job of the event has one of the channels.
abbrev pub AreNew : List JobRow → String → List String → Type 0
AreNew jobs id channels = All (λ channel. has_job jobs id channel ≡ false) channels

has_job-append :
    (jobs : List JobRow) (p at : String) (e : Event) (c c' : String) (n : ℕ)
    → has_job (jobs ++ new_job p e at c n ∷ []) e.event_id c'
      ≡ (has_job jobs e.event_id c' || c == c')
has_job-append jobs p at e c c' n =
    any-append (λ job. job.event_id == e.event_id && job.channel == c') jobs
      (new_job p e at c n ∷ [])
    ∙ rw (eq_refl e.event_id) (ground arith)

AreNew-append :
    (jobs : List JobRow) (p at : String) (e : Event) (c : String) (n : ℕ) (cs : List String)
    → contains cs c ≡ false
    → AreNew jobs e.event_id cs
    → AreNew (jobs ++ new_job p e at c n ∷ []) e.event_id cs
AreNew-append jobs p at e c n [] h new = tt
AreNew-append jobs p at e c n (c' ∷ cs) h new = (
  ground (arith, has_job-append jobs p at e c c' n, new.0, h, eq_iff c c', eq_iff c' c),
  AreNew-append jobs p at e c n cs (ground (arith, h)) new.1,
)

-- What the loop has done when all channels were new.
pub record Enqueued (p : String) (e : Event) (at : String) (cs : List String) (db db' : Database)
    : Type 0 where
  pub notifications : db'.notifications ≡ db.notifications ++ jobs_from p e at db.next_id cs
  pub next_id : db'.next_id ≡ db.next_id + length cs
  pub events : db'.events ≡ db.events
  pub alerts : db'.alerts ≡ db.alerts
  pub enrollments : db'.enrollments ≡ db.enrollments

abbrev with_job : String → Event → String → String → Database → Database
with_job p e at c db = record db {
  notifications = db.notifications ++ new_job p e at c db.next_id ∷ [];
  next_id = suc db.next_id;
}

Enqueued-cons :
    (p : String) (e : Event) (at c : String) (cs : List String) (db : Database) {db' : Database}
    → Enqueued p e at cs (with_job p e at c db) db'
    → Enqueued p e at (c ∷ cs) db db'
unfolding jobs_from
Enqueued-cons p e at c cs db h = record {
  notifications = h.notifications ∙ append_assoc db.notifications _ _;
  next_id = omega (arith, h.next_id);
  events = h.events;
  alerts = h.alerts;
  enrollments = h.enrollments;
}

pub insert_jobs-Enqueued :
    (p : String) (e : Event) (at : String) (cs : List String) (db : Database)
    → IsDistinct cs
    → AreNew db.notifications e.event_id cs
    → Enqueued p e at cs db (insert_jobs p e at cs db)
unfolding insert_jobs jobs_from
insert_jobs-Enqueued p e at [] db d new = record {
  notifications = sym (append-nil db.notifications);
  next_id = omega arith;
  events = refl;
  alerts = refl;
  enrollments = refl;
}
insert_jobs-Enqueued p e at (c ∷ cs) db d new = rw new.0 (
    Enqueued-cons p e at c cs db (
      insert_jobs-Enqueued p e at cs (with_job p e at c db) d.1
        (AreNew-append db.notifications p at e c db.next_id cs d.0 new.1)))
