-- ===== src/Store/History.antt =====
-- The databases that src/server.rs can reach, with the history of the events they have accepted.
pub mod Mirror
pub mod Resubmit
pub mod Delivery
pub mod Table
use beacon_alerts.Prelude.{ℕ, String, ◌≡◌, Bool, List, [], ◌∷◌, if◌then◌else◌}
use beacon_alerts.Fallible.{ok}
use beacon_alerts.Model.{Event}
use beacon_alerts.Model.Validate.{Formats}
use beacon_alerts.Store.{Database, EnrollmentRow, ServerEventStore, empty_database}
use beacon_alerts.Store.Accept.{EventResult, Times, accept}
use beacon_alerts.Store.Clock.{Chrono}
use beacon_alerts.Store.Jobs.{
  NotificationFailureUpdate, claim_notification, complete_notification, fail_notification,
}

-- the history after an accepted event
abbrev pub logged : EventResult → Event → List Event → List Event
logged r e log = if r.duplicate then log else e ∷ log

-- Transactions run one after the other, in any order and with any arguments. Enrolling agents
-- writes the enrollments alone.
pub data History {T : Type 0} (x : Formats) (store : ServerEventStore) (ch : Chrono T)
    : List Event → Database → Type 0 where
  start : History x store ch [] empty_database
  accepts :
      {log : List Event} {db db' : Database} (e : Event) (times : Times) (r : EventResult)
      → accept x store times e db ≡ ok (r, db')
      → History x store ch log db
      → History x store ch (logged r e log) db'
  claims :
      {log : List Event} {db : Database} (now : T) (max_attempts : ℕ)
      → History x store ch log db
      → History x store ch log (claim_notification ch now max_attempts db).1
  completes :
      {log : List Event} {db : Database} (id : ℕ) (now : T)
      → History x store ch log db
      → History x store ch log (complete_notification ch id now db)
  fails :
      {log : List Event} {db db' : Database} (id : ℕ) (update : NotificationFailureUpdate T)
      → fail_notification ch id update db ≡ ok db'
      → History x store ch log db
      → History x store ch log db'
  enrolls :
      {log : List Event} {db : Database} (rows : List EnrollmentRow)
      → History x store ch log db
      → History x store ch log (record db { enrollments = rows })
