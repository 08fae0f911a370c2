-- ===== src/Store/Queue/Exhausted.antt =====
-- The last claim of a job in src/server.rs.
use native.Mathlib.Nat.{le_refl, le_trans}
use beacon_alerts.Prelude.{
  ℕ, ◌+◌, ◌≤◌, String, ◌≡◌, ◌≢◌, refl, sym, ap, subst, ◌∙◌, ◌⊎◌, inl, inr, Bool, true, Option, none,
  some, List, [], ◌∷◌, ◌++◌, arith, find, eqb, eqb_iff, Bool-cases, Option-cases,
}
use beacon_alerts.Fallible.{ok, ok-injective, >>=-eq-ok, or_fail, panicked}
use beacon_alerts.Model.{Event}
use beacon_alerts.Model.Validate.{Formats}
use beacon_alerts.Policy.{channels_for}
use beacon_alerts.Store.{Database, JobRow, ServerEventStore}
use beacon_alerts.Store.Accept.{
  EventResult, Times, has_job, insert_job, insert_jobs, enqueue_notifications, notifies,
}
use beacon_alerts.Store.Alerts.{next_alert}
use beacon_alerts.Store.Replies.{Fresh, Repeated, written, accept-cases}
use beacon_alerts.Store.Clock.{Chrono}
use beacon_alerts.Store.Jobs.{
  NotificationJob, NotificationFailureUpdate, is_due, first_due, update_where, has_id, is_in_flight,
  set_claimed, set_sent, set_failed, next_attempt, claim_notification, complete_notification,
  fail_notification,
}
use beacon_alerts.Store.Queue.Rows.{find-update_where}
use beacon_alerts.Store.Queue.Order.{InOrder, find_of_IsAmong}
use beacon_alerts.Store.Queue.Claim.{Taken, Claimed, claim-Claimed}
use beacon_alerts.Store.Queue.Settled.{
  Later, at_once, accepting, claiming, completing, failing, enrolling, Later-History,
}
use beacon_alerts.Store.History.{History, claims}
use beacon_alerts.Store.History.Delivery.{History-Delivers}

-- The row under the identifier has at least so many attempts.
abbrev HasTried : ℕ → ℕ → Option JobRow → Type 0
HasTried id most none = ⊥
HasTried id most (some row) = most ≤ row.attempts

-- The job under the identifier has had at least so many attempts.
abbrev IsSpent : ℕ → ℕ → Database → Type 0
IsSpent id most db = HasTried id most (find (has_id id) db.notifications)

append-IsSpent :
    (id most : ℕ) (new : JobRow) (rows : List JobRow)
    → HasTried id most (find (has_id id) rows)
    → HasTried id most (find (has_id id) (rows ++ new ∷ []))
append-IsSpent id most new [] h = absurd h
append-IsSpent id most new (r ∷ rows) h = elim (Bool-cases (eqb r.id id)) [
  | inl e ↦ rw e (rw e at h)
  | inr e ↦ rw e (append-IsSpent id most new rows (rw e at h))
]

update-IsSpent :
    (test : JobRow → Bool) (change : JobRow → JobRow) (id most : ℕ) (rows : List JobRow)
    → ((r : JobRow) → (change r).id ≡ r.id)
    → ((r : JobRow) → r.attempts ≤ (change r).attempts)
    → HasTried id most (find (has_id id) rows)
    → HasTried id most (find (has_id id) (update_where test change rows))
unfolding update_where
update-IsSpent test change id most [] ids more h = h
update-IsSpent test change id most (r ∷ rows) ids more h = elim (Bool-cases (test r)) [
  | inl t ↦ elim (Bool-cases (eqb r.id id)) [
    | inl e ↦ rw (t, ids r, e) (le_trans (rw e at h) (more r))
    | inr e ↦ rw (t, ids r, e) (update-IsSpent test change id most rows ids more (rw e at h))
  ]
  | inr t ↦ elim (Bool-cases (eqb r.id id)) [
    | inl e ↦ rw (t, e) (rw e at h)
    | inr e ↦ rw (t, e) (update-IsSpent test change id most rows ids more (rw e at h))
  ]
]

insert_jobs-IsSpent :
    (p : String) (e : Event) (at : String) (cs : List String) (id most : ℕ) (db : Database)
    → IsSpent id most db
    → IsSpent id most (insert_jobs p e at cs db)
unfolding insert_jobs insert_job
insert_jobs-IsSpent p e at [] id most db h = h
insert_jobs-IsSpent p e at (c ∷ cs) id most db h =
    insert_jobs-IsSpent p e at cs id most (insert_job p e at c db)
      (elim (Bool-cases (has_job db.notifications e.event_id c)) [
        | inl old ↦ rw (old, insert_job) h
        | inr new ↦ rw (new, insert_job) (append-IsSpent id most _ db.notifications h)
      ])

accept-IsSpent :
    (x : Formats) (store : ServerEventStore) (times : Times) (e : Event) (id most : ℕ)
    (db db' : Database) (r : EventResult)
    → Fresh x store times e db r db' ⊎ Repeated x store times e db r db'
    → IsSpent id most db
    → IsSpent id most db'
unfolding enqueue_notifications
accept-IsSpent x store times e id most db db' r (inr p) h = rw p.unchanged h
accept-IsSpent x store times e id most db db' r (inl f) h =
    elim (Bool-cases (notifies e (next_alert e f.existing))) [
      | inl n ↦
          rw (f.commit, n)
            (insert_jobs-IsSpent _ e times.queued_at (channels_for store.policy e) id most
              (written x store times e f.payload f.alerts db) h)
      | inr n ↦ rw (f.commit, n) h
    ]

claim-IsSpent :
    {T : Type 0} (ch : Chrono T) (now : T) (max_attempts id most : ℕ) (db : Database)
    → IsSpent id most db
    → IsSpent id most (claim_notification ch now max_attempts db).1
unfolding claim_notification
claim-IsSpent ch now max_attempts id most db h =
    let text = ch.to_rfc3339 now in
    let due = is_due max_attempts text (ch.to_rfc3339 (ch.minutes_before now 5)) in
    elim (Option-cases (first_due due db.notifications)) [
      | inl none_due ↦ rw (none_due, claim_notification) h
      | inr (r, is_first) ↦
          rw (is_first, claim_notification)
            (update-IsSpent (has_id r.id) (set_claimed text) id most db.notifications (λ _. refl)
              (λ s. omega arith) h)
    ]

fail-IsSpent :
    {T : Type 0} (ch : Chrono T) (n : ℕ) (update : NotificationFailureUpdate T) (id most : ℕ)
    (db db' : Database)
    → fail_notification ch n update db ≡ ok db'
    → IsSpent id most db
    → IsSpent id most db'
unfolding fail_notification
fail-IsSpent ch n update id most db db' done h =
    let (at, _, e) = >>=-eq-ok (or_fail (next_attempt ch update) panicked) _ done in
    subst (IsSpent id most) (ok-injective _ db' e) (
      update-IsSpent (is_in_flight n) (set_failed at update.error update.retryable) id most
        db.notifications (λ _. refl) (λ s. le_refl s.attempts) h)

-- Attempts are never taken back.
Later-IsSpent :
    {T : Type 0} (x : Formats) (store : ServerEventStore) (ch : Chrono T) (id most : ℕ)
    {db db' : Database}
    → Later x store ch db db'
    → IsSpent id most db
    → IsSpent id most db'
unfolding complete_notification
Later-IsSpent x store ch id most at_once h = h
Later-IsSpent x store ch id most (accepting e times r done l) h =
    accept-IsSpent x store times e id most _ _ r (accept-cases x store times e _ r _ done)
      (Later-IsSpent x store ch id most l h)
Later-IsSpent x store ch id most (claiming now max_attempts l) h =
    claim-IsSpent ch now max_attempts id most _ (Later-IsSpent x store ch id most l h)
Later-IsSpent x store ch id most (completing n now l) h =
    update-IsSpent (is_in_flight n) (set_sent (ch.to_rfc3339 now)) id most _ (λ _. refl)
      (λ s. le_refl s.attempts) (Later-IsSpent x store ch id most l h)
Later-IsSpent x store ch id most (failing n update done l) h =
    fail-IsSpent ch n update id most _ _ done (Later-IsSpent x store ch id most l h)
Later-IsSpent x store ch id most (enrolling rows l) h = Later-IsSpent x store ch id most l h

-- A claim leaves its job with the attempts that it gives.
Taken-IsSpent :
    {T : Type 0} (ch : Chrono T) (now : T) (max_attempts next most : ℕ) (db db' : Database)
    (job : NotificationJob)
    → InOrder db.notifications next
    → (t : Taken ch now max_attempts db job db') → most ≤ t.row.attempts + 1
    → IsSpent t.row.id most db'
Taken-IsSpent ch now max_attempts next most db db' job o t h =
    rw
      (
        t.rest,
        find-update_where (has_id t.row.id) (set_claimed (ch.to_rfc3339 now)) t.row.id
            db.notifications (λ _. refl),
        find_of_IsAmong t.row db.notifications next o t.first.among,
        (eqb_iff t.row.id t.row.id).1 refl,
      )
      h

due-untried :
    (max_attempts : ℕ) (now stale : String) (row : JobRow)
    → is_due max_attempts now stale row ≡ true
    → max_attempts ≤ row.attempts
    → ⊥
unfolding is_due
due-untried max_attempts now stale row d h = ground (arith, d, h)

-- In a database that the server can reach, a claim that uses up the attempts of a job is the last
-- one: after any number of further transactions, claims with another maximum among them, a claim
-- with the same maximum, at whatever time, does not take the job again.
pub claim-last :
    {T : Type 0} (x : Formats) (store : ServerEventStore) (ch : Chrono T) {log : List Event}
    (now later : T) (max_attempts : ℕ) (db db' m n : Database) (job job' : NotificationJob)
    → History x store ch log db
    → claim_notification ch now max_attempts db ≡ (some job, db')
    → max_attempts ≤ job.attempts
    → Later x store ch db' m
    → claim_notification ch later max_attempts m ≡ (some job', n)
    → job'.id ≢ job.id
claim-last x store ch {log} now later max_attempts db db' m n job job' history h last l h' same =
    let t : Taken ch now max_attempts db job db' =
      subst (Claimed ch now max_attempts db) h (claim-Claimed ch now max_attempts db) in
    let t' : Taken ch later max_attempts m job' n =
      subst (Claimed ch later max_attempts m) h' (claim-Claimed ch later max_attempts m) in
    let same_id : t'.row.id ≡ t.row.id =
      sym (ap (λ (j : NotificationJob). j.id) t'.job_lem)
      ∙ same
      ∙ ap (λ (j : NotificationJob). j.id) t.job_lem in
    let full : max_attempts ≤ t.row.attempts + 1 =
      subst (λ (k : ℕ). max_attempts ≤ k) (ap (λ (j : NotificationJob). j.attempts) t.job_lem)
        last in
    let spent = Later-IsSpent x store ch t.row.id max_attempts l (
      Taken-IsSpent ch now max_attempts db.next_id max_attempts db db' job
        (History-Delivers x store ch history).ordered t full) in
    let reached : History x store ch log db' =
      subst (History x store ch log) (ap (λ (p : Option NotificationJob × Database). p.1) h)
        (claims now max_attempts history) in
    let order = (History-Delivers x store ch (Later-History x store ch reached l).1).ordered in
    let found = find_of_IsAmong t'.row m.notifications m.next_id order t'.first.among in
    let tried : max_attempts ≤ t'.row.attempts =
      subst (HasTried t.row.id max_attempts)
        (ap (λ (i : ℕ). find (has_id i) m.notifications) (sym same_id) ∙ found) spent in
    due-untried max_attempts _ _ t'.row t'.first.is_due tried
