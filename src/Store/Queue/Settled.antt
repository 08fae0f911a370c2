-- ===== src/Store/Queue/Settled.antt =====
-- What later transactions do to a job that was sent.
use beacon_alerts.Prelude.{
  ℕ, String, ◌≡◌, refl, sym, ap, subst, ◌∙◌, ◌⊎◌, inl, inr, Bool, true, false, some, List, [], ◌∷◌,
  ◌++◌, arith, eqb, eqb_iff, find, Bool-cases, Option-cases, ◌==◌,
}
use beacon_alerts.Fallible.{ok, ok-injective, >>=-eq-ok, or_fail, panicked}
use beacon_alerts.Model.{Event}
use beacon_alerts.Model.Validate.{Formats}
use beacon_alerts.Policy.{channels_for}
use beacon_alerts.Store.{Database, JobRow, EnrollmentRow, ServerEventStore}
use beacon_alerts.Store.Accept.{
  EventResult, Times, accept, has_job, insert_job, insert_jobs, enqueue_notifications, notifies,
}
use beacon_alerts.Store.Alerts.{next_alert}
use beacon_alerts.Store.Replies.{Fresh, Repeated, written, accept-cases}
use beacon_alerts.Store.Clock.{Chrono}
use beacon_alerts.Store.Jobs.{
  NotificationFailureUpdate, claim_notification, complete_notification, fail_notification,
  next_attempt, first_due, is_due, update_where, has_id, is_in_flight, set_claimed, set_sent,
  set_failed,
}
use beacon_alerts.Store.Queue.Rows.{IsAmong, IsLeastDue, first_due-Found, find-update_where}
use beacon_alerts.Store.Queue.Order.{same_row}
use beacon_alerts.Store.Queue.Keys.{is_due-not_sent}
use beacon_alerts.Store.Queue.Claim.{due_at}
use beacon_alerts.Store.History.{History, accepts, claims, completes, fails, enrolls, logged}
use beacon_alerts.Store.History.Delivery.{Delivers, History-Delivers}

-- The databases after any number of further transactions.
pub data Later {T : Type 0} (x : Formats) (store : ServerEventStore) (ch : Chrono T) (db : Database)
    : Database → Type 0 where
  at_once : Later x store ch db db
  accepting :
      {m n : Database} (e : Event) (times : Times) (r : EventResult)
      → accept x store times e m ≡ ok (r, n)
      → Later x store ch db m
      → Later x store ch db n
  claiming :
      {m : Database} (now : T) (max_attempts : ℕ)
      → Later x store ch db m
      → Later x store ch db (claim_notification ch now max_attempts m).1
  completing :
      {m : Database} (id : ℕ) (now : T)
      → Later x store ch db m
      → Later x store ch db (complete_notification ch id now m)
  failing :
      {m n : Database} (id : ℕ) (update : NotificationFailureUpdate T)
      → fail_notification ch id update m ≡ ok n
      → Later x store ch db m
      → Later x store ch db n
  enrolling :
      {m : Database} (rows : List EnrollmentRow)
      → Later x store ch db m
      → Later x store ch db (record m { enrollments = rows })

-- further transactions after further transactions
pub Later-on :
    {T : Type 0} (x : Formats) (store : ServerEventStore) (ch : Chrono T) {a b c : Database}
    → Later x store ch a b
    → Later x store ch b c
    → Later x store ch a c
Later-on x store ch l at_once = l
Later-on x store ch l (accepting e times r done m) =
    accepting e times r done (Later-on x store ch l m)
Later-on x store ch l (claiming now max_attempts m) =
    claiming now max_attempts (Later-on x store ch l m)
Later-on x store ch l (completing id now m) = completing id now (Later-on x store ch l m)
Later-on x store ch l (failing id update done m) = failing id update done (Later-on x store ch l m)
Later-on x store ch l (enrolling rows m) = enrolling rows (Later-on x store ch l m)

-- the row is in the table under its identifier
abbrev pub HasRow : JobRow → Database → Type 0
HasRow row db = find (has_id row.id) db.notifications ≡ some row

pub find-some-append :
    (id : ℕ) (row new : JobRow) (rows : List JobRow)
    → find (has_id id) rows ≡ some row
    → find (has_id id) (rows ++ new ∷ []) ≡ some row
find-some-append id row new [] h = cc
find-some-append id row new (r ∷ rows) h = ground (arith, h, find-some-append id row new rows)

insert_jobs-HasRow :
    (p : String) (e : Event) (at : String) (cs : List String) (row : JobRow) (db : Database)
    → HasRow row db
    → HasRow row (insert_jobs p e at cs db)
unfolding insert_jobs insert_job
insert_jobs-HasRow p e at [] row db h = h
insert_jobs-HasRow p e at (c ∷ cs) row db h =
    insert_jobs-HasRow p e at cs row (insert_job p e at c db)
      (elim (Bool-cases (has_job db.notifications e.event_id c)) [
        | inl old ↦ rw (old, insert_job) h
        | inr new ↦ rw (new, insert_job) (find-some-append row.id row _ db.notifications h)
      ])

pub find-IsAmong :
    (id : ℕ) (row : JobRow) (rows : List JobRow)
    → find (has_id id) rows ≡ some row
    → IsAmong row rows
find-IsAmong id row [] h = cc
find-IsAmong id row (r ∷ rows) h = elim (Bool-cases (eqb r.id id)) [
  | inl e ↦ inl (cc (rw e at h))
  | inr e ↦ inr (find-IsAmong id row rows (rw e at h))
]

-- An update whose condition fails at a row keeps it.
update-HasRow :
    (test : JobRow → Bool) (change : JobRow → JobRow) (row : JobRow) (db : Database)
    → ((r : JobRow) → (change r).id ≡ r.id)
    → test row ≡ false
    → HasRow row db
    → find (has_id row.id) (update_where test change db.notifications) ≡ some row
update-HasRow test change row db ids no_change h =
    find-update_where test change row.id db.notifications ids ∙ rw (h, no_change) refl

not_in_flight : (id : ℕ) (row : JobRow) → row.status ≡ "sent" → is_in_flight id row ≡ false
not_in_flight id row s = ground (arith, ap (λ (u : String). u == "in_flight") s)

-- a due row is not a row that is not due
other_row :
    (due : JobRow → Bool) (log : List Event) (db : Database) (row r : JobRow)
    → due row ≡ false
    → Delivers log db
    → HasRow row db
    → IsLeastDue due db.notifications r
    → has_id r.id row ≡ false
other_row due log db row r resting d h f = elim (Bool-cases (eqb row.id r.id)) [
  | inr other ↦ other
  | inl same ↦
      let one =
        same_row row r db.notifications db.next_id d.ordered
          (find-IsAmong row.id row db.notifications h) f.among ((eqb_iff row.id r.id).0 same) in
      let due_row = subst (λ (t : JobRow). due t ≡ true) (sym one) f.is_due in
      absurd (ground (arith, resting, due_row))
]

sent-not_due :
    (max_attempts : ℕ) (now stale : String) (row : JobRow)
    → row.status ≡ "sent"
    → is_due max_attempts now stale row ≡ false
sent-not_due max_attempts now stale row s = elim (Bool-cases (is_due max_attempts now stale row)) [
  | inr resting ↦ resting
  | inl due ↦ absurd (
      ground
        (arith, is_due-not_sent max_attempts now stale row due, ap (λ (u : String). u == "sent") s))
]

module _ {T : Type 0} (ch : Chrono T) (row : JobRow) where
  pub claim-HasRow :
      (log : List Event) (now : T) (max_attempts : ℕ) (db : Database)
      → due_at ch now max_attempts row ≡ false
      → Delivers log db
      → HasRow row db
      → HasRow row (claim_notification ch now max_attempts db).1
  unfolding claim_notification
  claim-HasRow log now max_attempts db resting d h =
      let text = ch.to_rfc3339 now in
      let stale = ch.to_rfc3339 (ch.minutes_before now 5) in
      let due = is_due max_attempts text stale in
      let found = first_due-Found due db.notifications in
      elim (Option-cases (first_due due db.notifications)) [
        | inl none_due ↦ rw (none_due, claim_notification) h
        | inr (r, is_first) ↦
            rw (is_first, claim_notification)
              (update-HasRow (has_id r.id) (set_claimed text) row db (λ _. refl)
                (other_row due log db row r resting d h (rw is_first at found)) h)
      ]

  pub fail-HasRow :
      (id : ℕ) (update : NotificationFailureUpdate T) (db db' : Database)
      → is_in_flight id row ≡ false
      → fail_notification ch id update db ≡ ok db'
      → HasRow row db
      → HasRow row db'
  unfolding fail_notification
  fail-HasRow id update db db' kept done h =
      let (at, _, e) = >>=-eq-ok (or_fail (next_attempt ch update) panicked) _ done in
      subst (HasRow row)
        (ok-injective
          (record db {
            notifications =
                update_where (is_in_flight id) (set_failed at update.error update.retryable)
                  db.notifications;
          })
          db' e)
        (update-HasRow (is_in_flight id) (set_failed at update.error update.retryable) row db
          (λ _. refl) kept h)

  pub complete-HasRow :
      (id : ℕ) (now : T) (db : Database)
      → is_in_flight id row ≡ false
      → HasRow row db
      → HasRow row (complete_notification ch id now db)
  unfolding complete_notification
  complete-HasRow id now db kept h =
      update-HasRow (is_in_flight id) (set_sent (ch.to_rfc3339 now)) row db (λ _. refl) kept h

pub accept-HasRow :
    (x : Formats) (store : ServerEventStore) (times : Times) (e : Event) (row : JobRow)
    (db db' : Database) (r : EventResult)
    → Fresh x store times e db r db' ⊎ Repeated x store times e db r db'
    → HasRow row db
    → HasRow row db'
unfolding enqueue_notifications
accept-HasRow x store times e row db db' r (inr p) h = rw p.unchanged h
accept-HasRow x store times e row db db' r (inl f) h =
    elim (Bool-cases (notifies e (next_alert e f.existing))) [
      | inl n ↦
          rw (f.commit, n)
            (insert_jobs-HasRow _ e times.queued_at (channels_for store.policy e) row
              (written x store times e f.payload f.alerts db) h)
      | inr n ↦ rw (f.commit, n) h
    ]

-- The history goes on with the further transactions.
pub Later-History :
    {T : Type 0} (x : Formats) (store : ServerEventStore) (ch : Chrono T) {log : List Event}
    {db db' : Database}
    → History x store ch log db
    → Later x store ch db db'
    → (log' : List Event) × History x store ch log' db'
Later-History x store ch {log} h at_once = (log, h)
Later-History x store ch h (accepting e times r done l) =
    let (log', h') = Later-History x store ch h l in (logged r e log', accepts e times r done h')
Later-History x store ch h (claiming now max_attempts l) =
    let (log', h') = Later-History x store ch h l in (log', claims now max_attempts h')
Later-History x store ch h (completing id now l) =
    let (log', h') = Later-History x store ch h l in (log', completes id now h')
Later-History x store ch h (failing id update done l) =
    let (log', h') = Later-History x store ch h l in (log', fails id update done h')
Later-History x store ch h (enrolling rows l) =
    let (log', h') = Later-History x store ch h l in (log', enrolls rows h')

-- A job that was sent is never touched again: in a database that the server can reach, the row that
-- is found under its identifier stays as it is through any number of further transactions.
pub sent-Later :
    {T : Type 0} (x : Formats) (store : ServerEventStore) (ch : Chrono T) {log : List Event}
    {db db' : Database} (row : JobRow)
    → History x store ch log db
    → find (has_id row.id) db.notifications ≡ some row
    → row.status ≡ "sent"
    → Later x store ch db db'
    → find (has_id row.id) db'.notifications ≡ some row
sent-Later x store ch row h there sent at_once = there
sent-Later x store ch row h there sent (accepting e times r done l) =
    accept-HasRow x store times e row _ _ r (accept-cases x store times e _ r _ done)
      (sent-Later x store ch row h there sent l)
sent-Later x store ch row h there sent (claiming now max_attempts l) =
    claim-HasRow ch row _ now max_attempts _ (sent-not_due max_attempts _ _ row sent)
      (History-Delivers x store ch (Later-History x store ch h l).1)
      (sent-Later x store ch row h there sent l)
sent-Later x store ch row h there sent (completing id now l) =
    complete-HasRow ch row id now _ (not_in_flight id row sent)
      (sent-Later x store ch row h there sent l)
sent-Later x store ch row h there sent (failing id update done l) =
    fail-HasRow ch row id update _ _ (not_in_flight id row sent) done
      (sent-Later x store ch row h there sent l)
sent-Later x store ch row h there sent (enrolling rows l) = sent-Later x store ch row h there sent l
