-- ===== src/Server/Works.antt =====
-- The worker of src/server.rs, over all its runs.
use beacon_alerts.Prelude.{
  ℕ, zero, suc, ◌≤◌, ◌≡◌, refl, true, false, ◌++◌, All, Option-cases, inl, inr, List, [], ◌∷◌,
  Bool-cases,
}
use beacon_alerts.Model.Validate.{Formats}
use beacon_alerts.Store.{Database, ServerEventStore}
use beacon_alerts.Store.Clock.{Chrono}
use beacon_alerts.Store.Queue.Settled.{Later, at_once, Later-on, Later-History}
use beacon_alerts.Store.Queue.Claim.{due_at}
use beacon_alerts.Store.Queue.Count.{count}
use beacon_alerts.Store.Jobs.{claim_notification}
use beacon_alerts.Store.History.{History}
use beacon_alerts.Model.{Event}
use beacon_alerts.Fallible.{ok}
use beacon_alerts.Store.Dispatcher.{NotificationDispatcher, rounds, deliver_due}
use beacon_alerts.Store.Dispatcher.Drains.{RetriesLater, claimed-Settles, deliver_due-IsDrained}
use beacon_alerts.Store.Dispatcher.Runs.{deliver_due-Ran}
use beacon_alerts.Server.{Worker, goes_on, run_worker}

-- The runs of a worker, also those that an error or a panic ends, only claim, complete and fail jobs.
pub run_worker-Later :
    {T W : Type 0} (x : Formats) (store : ServerEventStore) (ch : Chrono T) (worker : Worker W)
    (times : List T) (db : Database) (w : W)
    → Later x store ch db (run_worker ch worker times db w).0
unfolding run_worker
run_worker-Later x store ch worker [] db w = at_once
run_worker-Later x store ch worker (now ∷ times) db w =
    let outcome = deliver_due ch worker.dispatcher now db worker.limit w in
    let ran = deliver_due-Ran x store ch worker.dispatcher now db worker.limit w in
    elim (Bool-cases (goes_on outcome.delivered)) [
      | inl more ↦
          rw (more, run_worker)
            (Later-on x store ch ran.later
              (run_worker-Later x store ch worker times outcome.db outcome.world))
      | inr last ↦ rw (last, run_worker) ran.later
    ]

module _ {T W : Type 0} (ch : Chrono T) (d : NotificationDispatcher W) where
  -- A run of the dispatcher returns where every retry time can be given.
  rounds-ok :
      (now : T)
      → RetriesLater ch d now
      → (limit n : ℕ) (db : Database) (w : W)
      → (k : ℕ) × ((rounds ch d limit now n db w).delivered ≡ ok k)
  unfolding rounds
  rounds-ok now later zero n db w = (n, refl)
  rounds-ok now later (suc limit) n db w =
      elim (Option-cases (claim_notification ch now d.max_attempts db).0) [
        | inl none_due ↦ rw (none_due, rounds) (n, refl)
        | inr (job, taken) ↦
            let (_, s) = claimed-Settles ch d now later n db w job taken in
            rw (taken, s.done, rounds) (rounds-ok now later limit s.n _ _)
      ]

  -- such a run does not end the worker
  deliver_due-goes_on :
      (now : T)
      → RetriesLater ch d now
      → (limit : ℕ) (db : Database) (w : W)
      → goes_on (deliver_due ch d now db limit w).delivered ≡ true
  unfolding deliver_due
  deliver_due-goes_on now later limit db w =
      let (k, done) = rounds-ok now later limit 0 db w in rw done refl

-- For a worker that starts in a database that the server can reach, where at each of its runs every
-- retry time can be given and its text is after that of the time of the run: after the last run no
-- job is due at its time, if the limit is at least the number of the jobs that were due before it.
pub run_worker-rests :
    {T W : Type 0} (x : Formats) (store : ServerEventStore) (ch : Chrono T) (worker : Worker W)
    (times : List T) (now : T) {log : List Event} (db : Database) (w : W)
    → History x store ch log db
    → All (RetriesLater ch worker.dispatcher) times
    → RetriesLater ch worker.dispatcher now
    → count
        (due_at ch now worker.dispatcher.max_attempts)
        (run_worker ch worker times db w).0.notifications
      ≤ worker.limit
    → All
        (λ row. due_at ch now worker.dispatcher.max_attempts row ≡ false)
        (run_worker ch worker (times ++ now ∷ []) db w).0.notifications
unfolding run_worker
run_worker-rests x store ch worker [] now db w h before later enough =
    let drained =
      deliver_due-IsDrained x store ch worker.dispatcher now db worker.limit w h later enough in
    rw (deliver_due-goes_on ch worker.dispatcher now later worker.limit db w, run_worker) drained.2
run_worker-rests x store ch worker (t ∷ times) now db w h before later enough =
    let outcome = deliver_due ch worker.dispatcher t db worker.limit w in
    let more = deliver_due-goes_on ch worker.dispatcher t before.0 worker.limit db w in
    let ran = deliver_due-Ran x store ch worker.dispatcher t db worker.limit w in
    let (_, h') = Later-History x store ch h ran.later in
    rw (more, run_worker)
      (run_worker-rests x store ch worker times now outcome.db outcome.world h' before.1 later
        (rw (more, run_worker) at enough))
