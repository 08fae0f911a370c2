-- ===== src/Agent/Network.antt =====
-- `submit_event` of src/agent.rs, over a network that loses requests and answers, to the server's
-- `accept_event`, while the server does other work.
use beacon_alerts.Prelude.{ℕ, String, Bool, false, Option, List, [], ◌∷◌}
use beacon_alerts.Client.{is_success}
use beacon_alerts.Model.{Event}
use beacon_alerts.Model.Validate.{Formats}
use beacon_alerts.Store.{Database, ServerEventStore}
use beacon_alerts.Fallible.{Result, ok, err}
use beacon_alerts.Store.Accept.{Times}
use beacon_alerts.Store.Clock.{Chrono}
use beacon_alerts.Store.Jobs.{
  NotificationFailureUpdate, claim_notification, complete_notification, fail_notification,
}
use beacon_alerts.Http.Enrolled.{bearer}
use beacon_alerts.Http.{CredentialEntry, Response, accept_event}

-- What else the server does: a request with an event of this or another agent, and the operations
-- of its worker.
pub data Step (T : Type 0) : Type 0 where
  posts : Times → Option String → Event → Option (List CredentialEntry) → Step T
  claims : T → ℕ → Step T
  completes : ℕ → T → Step T
  fails : ℕ → NotificationFailureUpdate T → Step T

-- What comes next: a step of the server; or what becomes of the next request: it is lost, or
-- refused before the handler; its answer is lost; or it is answered. The times are those of the
-- server's clock.
pub data Attempt (T : Type 0) : Type 0 where
  other : Step T → Attempt T
  request_lost : Attempt T
  answer_lost answered : Times → Attempt T

-- The server's database, and what comes next; further requests are lost.
pub record Network (T : Type 0) : Type 0 where
  pub db : Database
  pub attempts : List (Attempt T)

-- An error leaves the database as it was.
abbrev pub or_unchanged : Database → Result Database → Database
or_unchanged db (ok db') = db'
or_unchanged db (err e) = db

module _ (x : Formats) (store : ServerEventStore) (token : String)
    (directory : Option (List CredentialEntry)) where
  abbrev pub post : Times → Event → Database → Response × Database
  post times event db = accept_event x store times (bearer token) event directory db

module _ {T : Type 0} (x : Formats) (store : ServerEventStore) (ch : Chrono T) where
  abbrev pub run_step : Step T → Database → Database
  run_step (posts times header event directory) db =
      (accept_event x store times header event directory db).1
  run_step (claims now max_attempts) db = (claim_notification ch now max_attempts db).1
  run_step (completes id now) db = complete_notification ch id now db
  run_step (fails id update) db = or_unchanged db (fail_notification ch id update db)

  module _ (token : String) (directory : Option (List CredentialEntry)) where
    unfoldable pub submit_from : Event → Database → List (Attempt T) → Bool × Network T
    submit_from event db [] = (false, record { db = db; attempts = [] })
    submit_from event db (other step ∷ rest) = submit_from event (run_step step db) rest
    submit_from event db (request_lost ∷ rest) = (false, record { db = db; attempts = rest })
    submit_from event db (answer_lost times ∷ rest) =
        (false, record { db = (post x store token directory times event db).1; attempts = rest })
    submit_from event db (answered times ∷ rest) =
        let (response, db') = post x store token directory times event db in
        (is_success response.status, record { db = db'; attempts = rest })

    unfoldable pub submit_event : Event → Network T → Bool × Network T
    unfolding submit_from
    submit_event event w = submit_from event w.db w.attempts
