-- ===== src/Store/Queue/Exclusive.antt =====
-- How long a claim of src/server.rs keeps a job from the other workers.
use beacon_alerts.Prelude.{
  ℕ, ◌≡◌, ◌≢◌, refl, sym, ap, subst, ◌∙◌, true, false, Option, some, List, arith, find, eqb,
  eqb_iff,
}
use beacon_alerts.Fallible.{ok, same_some}
use beacon_alerts.Model.{Event}
use beacon_alerts.Model.Validate.{Formats}
use beacon_alerts.Store.{Database, JobRow, EnrollmentRow, ServerEventStore}
use beacon_alerts.Store.Accept.{EventResult, Times, accept}
use beacon_alerts.Store.Replies.{accept-cases}
use beacon_alerts.Store.Clock.{Chrono, text_le}
use beacon_alerts.Store.Jobs.{
  NotificationJob, NotificationFailureUpdate, is_due, has_id, is_in_flight, set_claimed,
  claim_notification, complete_notification, fail_notification,
}
use beacon_alerts.Store.Queue.Rows.{find-update_where}
use beacon_alerts.Store.Queue.Order.{InOrder, find_of_IsAmong}
use beacon_alerts.Store.Queue.Claim.{due_at, Taken, Claimed, claim-Claimed}
use beacon_alerts.Store.Queue.Settled.{
  Later, at_once, accepting, claiming, completing, failing, enrolling, Later-History, HasRow,
  accept-HasRow, claim-HasRow, fail-HasRow, complete-HasRow,
}
use beacon_alerts.Store.History.{History, claims}
use beacon_alerts.Store.History.Delivery.{History-Delivers}

-- The databases after any number of further transactions that neither complete nor fail the job, and
-- whose claims are made while its claim is not stale.
pub data Meanwhile {T : Type 0} (x : Formats) (store : ServerEventStore) (ch : Chrono T) (id : ℕ)
    (claimed : T) (db : Database) : Database → Type 0 where
  nothing : Meanwhile x store ch id claimed db db
  accepts_one :
      {m n : Database} (e : Event) (times : Times) (r : EventResult)
      → accept x store times e m ≡ ok (r, n)
      → Meanwhile x store ch id claimed db m
      → Meanwhile x store ch id claimed db n
  claims_one :
      {m : Database} (now : T) (max_attempts : ℕ)
      → text_le (ch.to_rfc3339 claimed) (ch.to_rfc3339 (ch.minutes_before now 5)) ≡ false
      → Meanwhile x store ch id claimed db m
      → Meanwhile x store ch id claimed db (claim_notification ch now max_attempts m).1
  completes_other :
      {m : Database} (other : ℕ) (now : T)
      → eqb id other ≡ false
      → Meanwhile x store ch id claimed db m
      → Meanwhile x store ch id claimed db (complete_notification ch other now m)
  fails_other :
      {m n : Database} (other : ℕ) (update : NotificationFailureUpdate T)
      → eqb id other ≡ false
      → fail_notification ch other update m ≡ ok n
      → Meanwhile x store ch id claimed db m
      → Meanwhile x store ch id claimed db n
  enrolls_one :
      {m : Database} (rows : List EnrollmentRow)
      → Meanwhile x store ch id claimed db m
      → Meanwhile x store ch id claimed db (record m { enrollments = rows })

module _ {T : Type 0} (x : Formats) (store : ServerEventStore) (ch : Chrono T) where
  Meanwhile-Later :
      {id : ℕ} {claimed : T} {db db' : Database}
      → Meanwhile x store ch id claimed db db'
      → Later x store ch db db'
  Meanwhile-Later nothing = at_once
  Meanwhile-Later (accepts_one e times r done w) = accepting e times r done (Meanwhile-Later w)
  Meanwhile-Later (claims_one now max_attempts fresh w) =
      claiming now max_attempts (Meanwhile-Later w)
  Meanwhile-Later (completes_other other now f w) = completing other now (Meanwhile-Later w)
  Meanwhile-Later (fails_other other update f done w) =
      failing other update done (Meanwhile-Later w)
  Meanwhile-Later (enrolls_one rows w) = enrolling rows (Meanwhile-Later w)

  claimed-not_due :
      (now later : T) (max_attempts : ℕ) (row : JobRow)
      → text_le (ch.to_rfc3339 now) (ch.to_rfc3339 (ch.minutes_before later 5)) ≡ false
      → due_at ch later max_attempts (set_claimed (ch.to_rfc3339 now) row) ≡ false
  unfolding is_due
  claimed-not_due now later max_attempts row fresh = ground (arith, fresh)

  other-not_in_flight :
      (other : ℕ) (row : JobRow) → eqb row.id other ≡ false → is_in_flight other row ≡ false
  other-not_in_flight other row f = ground (arith, f)

  -- the claimed row stays as it is
  Meanwhile-HasRow :
      {log : List Event} {claimed : T} {db : Database} (row : JobRow) {db' : Database}
      → History x store ch log db
      → HasRow (set_claimed (ch.to_rfc3339 claimed) row) db
      → Meanwhile x store ch row.id claimed db db'
      → HasRow (set_claimed (ch.to_rfc3339 claimed) row) db'
  Meanwhile-HasRow row h there nothing = there
  Meanwhile-HasRow row h there (accepts_one e times r done w) =
      accept-HasRow x store times e _ _ _ r (accept-cases x store times e _ r _ done)
        (Meanwhile-HasRow row h there w)
  Meanwhile-HasRow {claimed = claimed} row h there (claims_one now max_attempts fresh w) =
      claim-HasRow ch (set_claimed (ch.to_rfc3339 claimed) row) _ now max_attempts _
        (claimed-not_due claimed now max_attempts row fresh)
        (History-Delivers x store ch (Later-History x store ch h (Meanwhile-Later w)).1)
        (Meanwhile-HasRow row h there w)
  Meanwhile-HasRow {claimed = claimed} row h there (completes_other other now f w) =
      complete-HasRow ch (set_claimed (ch.to_rfc3339 claimed) row) other now _
        (other-not_in_flight other (set_claimed (ch.to_rfc3339 claimed) row) f)
        (Meanwhile-HasRow row h there w)
  Meanwhile-HasRow {claimed = claimed} row h there (fails_other other update f done w) =
      fail-HasRow ch (set_claimed (ch.to_rfc3339 claimed) row) other update _ _
        (other-not_in_flight other (set_claimed (ch.to_rfc3339 claimed) row) f) done
        (Meanwhile-HasRow row h there w)
  Meanwhile-HasRow row h there (enrolls_one rows w) = Meanwhile-HasRow row h there w

-- A claim leaves the claimed row under its identifier.
Taken-HasRow :
    {T : Type 0} (ch : Chrono T) (now : T) (max_attempts next : ℕ) (db db' : Database)
    (job : NotificationJob)
    → InOrder db.notifications next
    → (t : Taken ch now max_attempts db job db')
    → HasRow (set_claimed (ch.to_rfc3339 now) t.row) db'
Taken-HasRow ch now max_attempts next db db' job o t =
    rw
      (
        t.rest,
        find-update_where (has_id t.row.id) (set_claimed (ch.to_rfc3339 now)) t.row.id
            db.notifications (λ _. refl),
        find_of_IsAmong t.row db.notifications next o t.first.among,
        (eqb_iff t.row.id t.row.id).1 refl,
      )
      refl

-- Two workers do not hold one job: in a database that the server can reach, and after a claim and
-- any number of further transactions that neither complete nor fail its job, a claim with any maximum
-- takes another job, as long as, for this claim and for those before it, the time of the first one is
-- not at or before the time of staleness (both as text).
pub claim-exclusive :
    {T : Type 0} (x : Formats) (store : ServerEventStore) (ch : Chrono T) {log : List Event}
    (now later : T) (max_attempts max_later : ℕ) (db db' m n : Database)
    (job job' : NotificationJob)
    → History x store ch log db
    → claim_notification ch now max_attempts db ≡ (some job, db')
    → Meanwhile x store ch job.id now db' m
    → text_le (ch.to_rfc3339 now) (ch.to_rfc3339 (ch.minutes_before later 5)) ≡ false
    → claim_notification ch later max_later m ≡ (some job', n)
    → job'.id ≢ job.id
claim-exclusive x store ch {log} now later max_attempts max_later db db' m n job job' history h w
      fresh h' same =
    let t : Taken ch now max_attempts db job db' =
      subst (Claimed ch now max_attempts db) h (claim-Claimed ch now max_attempts db) in
    let t' : Taken ch later max_later m job' n =
      subst (Claimed ch later max_later m) h' (claim-Claimed ch later max_later m) in
    let job_id = ap (λ (j : NotificationJob). j.id) t.job_lem in
    let same_id : t'.row.id ≡ t.row.id =
      sym (ap (λ (j : NotificationJob). j.id) t'.job_lem) ∙ same ∙ job_id in
    let reached : History x store ch log db' =
      subst (History x store ch log) (ap (λ (p : Option NotificationJob × Database). p.1) h)
        (claims now max_attempts history) in
    let held =
      Meanwhile-HasRow x store ch t.row reached
        (Taken-HasRow ch now max_attempts db.next_id db db' job
          (History-Delivers x store ch history).ordered t)
        (subst (λ (i : ℕ). Meanwhile x store ch i now db' m) job_id w) in
    let order =
      (History-Delivers x store ch
        (Later-History x store ch reached (Meanwhile-Later x store ch w)).1).ordered in
    let one = same_some t'.row (set_claimed (ch.to_rfc3339 now) t.row) (
      sym (find_of_IsAmong t'.row m.notifications m.next_id order t'.first.among)
      ∙ ap (λ (i : ℕ). find (has_id i) m.notifications) same_id
      ∙ held) in
    let due = subst (λ (r : JobRow). due_at ch later max_later r ≡ true) one t'.first.is_due in
    ground (arith, due, claimed-not_due x store ch now later max_later t.row fresh)
