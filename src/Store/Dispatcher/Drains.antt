-- ===== src/Store/Dispatcher/Drains.antt =====
-- What a run of the dispatcher of src/notification.rs leaves to do.
use beacon_alerts.Prelude.{
  ℕ, zero, suc, ◌+◌, ◌≤◌, String, ◌≡◌, refl, sym, ap, ◌∙◌, subst, inl, inr, Bool, true, false, ◌&&◌,
  Option, none, some, List, [], ◌∷◌, arith, find, eqb_iff, leb, All, ◌==◌, Bool-cases, Option-cases,
}
use beacon_alerts.Model.Validate.{Formats}
use beacon_alerts.Model.{Event}
use beacon_alerts.Fallible.{ok}
use beacon_alerts.Store.{Database, JobRow, ServerEventStore}
use beacon_alerts.Store.Clock.{Chrono, text_le, retry_time}
use beacon_alerts.Store.Jobs.{
  NotificationJob, notification_from_row, is_due, update_where, has_id, is_in_flight, set_claimed,
  set_sent, set_failed, claim_notification, complete_notification, fail_notification, next_attempt,
}
use beacon_alerts.Store.Queue.Rows.{IsAmong, IsLeastDue}
use beacon_alerts.Store.Queue.Count.{count, count-none, count-among, settled, count-settled}
use beacon_alerts.Store.Queue.Order.{InOrder, same_row, update_where-InOrder}
use beacon_alerts.Store.Queue.Claim.{due_at, Taken, Claimed, claim-Claimed}
use beacon_alerts.Store.History.{History}
use beacon_alerts.Store.History.Delivery.{History-Delivers}
use beacon_alerts.Store.Dispatcher.{
  NotificationChannel, NotificationDispatcher, SendError, Outcome, after_failure, settle, deliver,
  rounds, deliver_due,
}

module _ {T W : Type 0} (ch : Chrono T) (d : NotificationDispatcher W) (now : T) where
  -- Every retry time can be given, and its text is after that of `now`.
  abbrev pub RetriesLater : Type 0
  RetriesLater =
      (attempts : ℕ)
      → (at : String) × (retry_time ch now attempts d.retry_delay_seconds ≡ some at)
        × (text_le at (ch.to_rfc3339 now) ≡ false)

  -- the job of a claimed row
  abbrev pub job_of : JobRow → NotificationJob
  job_of row = record (notification_from_row row) {
    attempts = row.attempts + 1;
    status = "in_flight";
  }

  abbrev claimed : JobRow → JobRow
  claimed row = set_claimed (ch.to_rfc3339 now) row

  -- The delivery returned, and an update of the claimed row alone left it not due.
  pub record Settles (row : JobRow) (m : Database) (o : Outcome W) : Type 0 where
    pub n : ℕ
    pub change : JobRow → JobRow
    pub done : o.delivered ≡ ok n
    pub rest :
        o.db
        ≡ record m { notifications = update_where (is_in_flight row.id) change m.notifications }
    keeps : (r : JobRow) → (change r).id ≡ r.id
    gone : due_at ch now d.max_attempts (change (claimed row)) ≡ false

  next_attempt-gone :
      RetriesLater
      → (row : JobRow) (error : String) (retryable : Bool)
      → (at : String) × (next_attempt ch (record {
        attempts = row.attempts + 1;
        error = error;
        max_attempts = d.max_attempts;
        retry_delay_seconds = d.retry_delay_seconds;
        retryable = retryable;
        now = now;
      })
          ≡ some at)
        × (due_at ch now d.max_attempts (set_failed at error retryable (claimed row)) ≡ false)
  unfolding next_attempt is_due
  next_attempt-gone later row error false = (ch.to_rfc3339 now, refl, ground arith)
  next_attempt-gone later row error true =
      let (at, given, after) = later (row.attempts + 1) in
      elim (Bool-cases (leb d.max_attempts (row.attempts + 1))) [
        | inl full ↦ (ch.to_rfc3339 now, rw (full, next_attempt) refl, ground (arith, full))
        | inr room ↦ (at, rw (room, next_attempt) given, ground (arith, after))
      ]

  fail-Settles :
      RetriesLater
      → (row : JobRow) (error : String) (retryable : Bool) (n : ℕ) (m : Database) (w : W)
      → Settles row m (
          after_failure ch d n m w (
            fail_notification ch row.id
              (record {
                attempts = row.attempts + 1;
                error = error;
                max_attempts = d.max_attempts;
                retry_delay_seconds = d.retry_delay_seconds;
                retryable = retryable;
                now = now;
              })
              m))
  unfolding fail_notification
  fail-Settles later row error retryable n m w =
      let (at, given, gone) = next_attempt-gone later row error retryable in
      rw (given, fail_notification)
        (record {
          n = n;
          change = set_failed at error retryable;
          done = refl;
          rest = refl;
          keeps = λ r. refl;
          gone = gone;
        })

  settle-Settles :
      RetriesLater
      → (row : JobRow) (n : ℕ) (m : Database) (answer : Option SendError × W)
      → Settles row m (settle ch d now (job_of row) n m answer)
  unfolding complete_notification is_due
  settle-Settles later row n m (none, w) = record {
    n = n + 1;
    change = set_sent (ch.to_rfc3339 now);
    done = refl;
    rest = refl;
    keeps = λ r. refl;
    gone = ground arith;
  }
  settle-Settles later row n m (some error, w) = fail-Settles later row error.message _ n m w

  deliver-Settles :
      RetriesLater
      → (row : JobRow) (n : ℕ) (m : Database) (w : W)
      → Settles row m (deliver ch d now (job_of row) n m w)
  unfolding deliver
  deliver-Settles later row n m w =
      elim (Option-cases (find (λ (c : NotificationChannel W). c.name == row.channel) d.channels)) [
        | inl missing ↦ rw (missing, deliver) (fail-Settles later row _ false n m w)
        | inr (channel, found) ↦
            rw (found, deliver) (settle-Settles later row n m (channel.send (job_of row) w))
      ]

  abbrev due_now : JobRow → Bool
  due_now = due_at ch now d.max_attempts

  -- The run returned, and no job of the queue is due.
  abbrev pub IsDrained : Outcome W → Type 0
  IsDrained o =
      (delivered : ℕ) × (o.delivered ≡ ok delivered)
      × All (λ row. due_at ch now d.max_attempts row ≡ false) o.db.notifications

  -- The rows with the identifier of the claimed row are that row.
  settled-gone :
      (row : JobRow) (change : JobRow → JobRow) (rows all : List JobRow) (next : ℕ)
      → InOrder all next
      → IsAmong row all
      → ((r : JobRow) → IsAmong r rows → IsAmong r all)
      → due_now (change (claimed row)) ≡ false
      → All (λ r. r.id ≡ row.id → due_now (change (claimed r)) ≡ false) rows
  settled-gone row change [] all next o m sub gone = tt
  settled-gone row change (r ∷ rows) all next o m sub gone = (
    (λ same.
        subst (λ (s : JobRow). due_now (change (claimed s)) ≡ false)
          (same_row row r all next o m (sub r (inl refl)) (sym same)) gone),
    settled-gone row change rows all next o m (λ s among. sub s (inr among)) gone,
  )

  -- The claim and the delivery together leave one due job less.
  count-round :
      (row : JobRow) (change : JobRow → JobRow) (rows : List JobRow) (next limit : ℕ)
      → InOrder rows next
      → IsLeastDue due_now rows row
      → due_now (change (claimed row)) ≡ false
      → count due_now rows ≤ suc limit
      → count due_now (settled due_now row.id (ch.to_rfc3339 now) change rows) ≤ limit
  count-round row change rows next limit o first gone h =
      let both =
        count-settled due_now row.id (ch.to_rfc3339 now) change rows
          (settled-gone row change rows rows next o first.among (λ r m. m) gone) in
      let one =
        count-among (λ r. has_id row.id r && due_now r) row rows first.among
          (rw ((eqb_iff row.id row.id).1 refl) first.is_due) in
      omega (arith, both, one, h)

  -- A job that was claimed is settled by its delivery.
  pub claimed-Settles :
      RetriesLater
      → (n : ℕ) (db : Database) (w : W) (job : NotificationJob)
      → (claim_notification ch now d.max_attempts db).0 ≡ some job
      → (t : Taken ch now d.max_attempts db job (claim_notification ch now d.max_attempts db).1)
        × Settles t.row
            (claim_notification ch now d.max_attempts db).1
            (deliver ch d now job n (claim_notification ch now d.max_attempts db).1 w)
  claimed-Settles later n db w job taken =
      let db' = (claim_notification ch now d.max_attempts db).1 in
      let t : Taken ch now d.max_attempts db job db' =
        subst (λ (j : Option NotificationJob). Claimed ch now d.max_attempts db (j, db')) taken
          (claim-Claimed ch now d.max_attempts db) in
      (
        t,
        subst (λ (j : NotificationJob). Settles t.row db' (deliver ch d now j n db' w))
            (sym t.job_lem) (deliver-Settles later t.row n db' w),
      )

  rounds-IsDrained :
      RetriesLater
      → (limit n next : ℕ) (db : Database) (w : W) → InOrder db.notifications next
      → count due_now db.notifications ≤ limit
      → IsDrained (rounds ch d limit now n db w)
  unfolding rounds
  rounds-IsDrained later zero n next db w o h = (n, refl, count-none due_now db.notifications h)
  rounds-IsDrained later (suc limit) n next db w o h =
      let db' = (claim_notification ch now d.max_attempts db).1 in
      let c = claim-Claimed ch now d.max_attempts db in
      elim (Option-cases (claim_notification ch now d.max_attempts db).0) [
        | inl none_due ↦
            let (rest, same) =
              subst (λ (j : Option NotificationJob). Claimed ch now d.max_attempts db (j, db'))
                none_due c in
            rw (none_due, rounds) (n, refl, rw same rest)
        | inr (job, taken) ↦
            let outcome = deliver ch d now job n db' w in
            let (t, s) = claimed-Settles later n db w job taken in
            let rows : outcome.db.notifications
                ≡ settled due_now t.row.id (ch.to_rfc3339 now) s.change db.notifications =
              ap (λ (b : Database). b.notifications) s.rest
              ∙ ap (λ (b : Database). update_where (is_in_flight t.row.id) s.change b.notifications)
                  t.rest in
            rw (taken, s.done, rounds)
              (rounds-IsDrained later limit s.n next outcome.db outcome.world
                (rw rows (
                  update_where-InOrder (is_in_flight t.row.id) s.change s.keeps _ next (
                    update_where-InOrder (has_id t.row.id) claimed (λ r. refl) db.notifications next
                      o)))
                (rw rows
                  (count-round t.row s.change db.notifications next limit o t.first s.gone h)))
      ]

-- In a database that the server can reach, and where every retry time can be given with a text
-- after that of the time of the run: a run of the dispatcher with a limit of at least the number of
-- the jobs that are due returns, whatever the channels answer, and leaves no job that is due then.
pub deliver_due-IsDrained :
    {T W : Type 0} (x : Formats) (store : ServerEventStore) (ch : Chrono T)
    (d : NotificationDispatcher W) {log : List Event} (now : T) (db : Database) (limit : ℕ) (w : W)
    → History x store ch log db
    → RetriesLater ch d now
    → count (due_at ch now d.max_attempts) db.notifications ≤ limit
    → IsDrained ch d now (deliver_due ch d now db limit w)
unfolding deliver_due
deliver_due-IsDrained x store ch d now db limit w h later enough =
    rounds-IsDrained ch d now later limit 0 db.next_id db w (History-Delivers x store ch h).ordered
      enough
