-- ===== src/Store/History/Delivery.antt =====
-- The notification queue in the databases that the server can reach.
use beacon_alerts.Prelude.{
  ℕ, String, ◌≡◌, refl, subst, ◌⊎◌, inl, inr, Bool, true, false, List, [], ◌∷◌, arith, any, All,
  ◌==◌, eq_refl, Bool-cases, Option-cases, eqb_iff,
}
use beacon_alerts.Fallible.{ok, ok-injective, >>=-eq-ok, or_fail, panicked}
use beacon_alerts.Model.{Event, AlertRecord}
use beacon_alerts.Model.Validate.{Formats}
use beacon_alerts.Policy.{channels_for}
use beacon_alerts.Store.{Database, JobRow, AlertRow, ServerEventStore}
use beacon_alerts.Store.Accept.{
  EventResult, Times, has_job, new_job, insert_job, insert_jobs, enqueue_notifications, notifies,
}
use beacon_alerts.Store.Replies.{Fresh, Repeated, written, committed, accept-cases}
use beacon_alerts.Store.Clock.{Chrono}
use beacon_alerts.Store.Jobs.{
  NotificationFailureUpdate, claim_notification, complete_notification, fail_notification,
  next_attempt, first_due, is_due, update_where, has_id, is_in_flight, set_claimed, set_sent,
  set_failed,
}
use beacon_alerts.Store.Queue.Rows.{IsAmong, IsLeastDue, first_due-Found, All-update_where}
use beacon_alerts.Store.Queue.Order.{
  InOrder, InOrder-append, All-append, All-update_among, update_where-InOrder, same_row,
}
use beacon_alerts.Store.Queue.Keys.{
  IsUnique, IsUnique-append, update_where-IsUnique, IsJob, set_sent-IsJob, set_failed-IsJob,
  set_claimed-IsJob, is_due-not_sent,
}
use beacon_alerts.Store.History.{History, start, accepts, claims, completes, fails, enrolls, logged}
use beacon_alerts.Store.History.Mirror.{has_event_id}

-- The history has the event of the job.
abbrev pub IsOf : List Event → JobRow → Type 0
IsOf log job = any (has_event_id job.event_id) log ≡ true

pub record Delivers (log : List Event) (db : Database) : Type 0 where
  pub ordered : InOrder db.notifications db.next_id
  pub unique : IsUnique db.notifications
  pub known : All (IsOf log) db.notifications
  pub valid : All IsJob db.notifications

new_job-IsJob : (p : String) (e : Event) (at c : String) (n : ℕ) → IsJob (new_job p e at c n)
new_job-IsJob p e at c n = record { phase = refl; claimed = refl; sent = refl; attempted = refl }

insert_job-Delivers :
    (p : String) (e : Event) (at c : String) (log : List Event) (db : Database)
    → any (has_event_id e.event_id) log ≡ true
    → Delivers log db
    → Delivers log (insert_job p e at c db)
unfolding insert_job
insert_job-Delivers p e at c log db there d =
    elim (Bool-cases (has_job db.notifications e.event_id c)) [
      | inl old ↦ rw old d
      | inr new ↦
          let row = new_job p e at c db.next_id in
          rw new (record {
            ordered = InOrder-append db.notifications row db.next_id d.ordered refl;
            unique = IsUnique-append db.notifications row d.unique new;
            known = All-append (IsOf log) db.notifications row d.known there;
            valid =
                All-append IsJob db.notifications row d.valid (new_job-IsJob p e at c db.next_id);
          })
    ]

insert_jobs-Delivers :
    (p : String) (e : Event) (at : String) (cs : List String) (log : List Event) (db : Database)
    → any (has_event_id e.event_id) log ≡ true
    → Delivers log db
    → Delivers log (insert_jobs p e at cs db)
unfolding insert_jobs
insert_jobs-Delivers p e at [] log db there d = d
insert_jobs-Delivers p e at (c ∷ cs) log db there d =
    insert_jobs-Delivers p e at cs log (insert_job p e at c db) there
      (insert_job-Delivers p e at c log db there d)

All-IsOf-cons :
    (e : Event) (log : List Event) (rows : List JobRow)
    → All (IsOf log) rows
    → All (IsOf (e ∷ log)) rows
All-IsOf-cons e log [] h = tt
All-IsOf-cons e log (row ∷ rows) h = (ground (arith, h.0), All-IsOf-cons e log rows h.1)

committed-Delivers :
    (x : Formats) (store : ServerEventStore) (times : Times) (e : Event) (payload : String)
    (a : AlertRecord) (alerts : List AlertRow) (log : List Event) (db : Database)
    → Delivers log db
    → Delivers (e ∷ log) (committed x store times e payload a alerts db)
unfolding enqueue_notifications
committed-Delivers x store times e payload a alerts log db d =
    let d' : Delivers (e ∷ log) (written x store times e payload alerts db) = record {
      ordered = d.ordered;
      unique = d.unique;
      known = All-IsOf-cons e log db.notifications d.known;
      valid = d.valid;
    } in
    elim (Bool-cases (notifies e a)) [
      | inl n ↦ rw n (
          insert_jobs-Delivers _ e times.queued_at (channels_for store.policy e) (e ∷ log)
            (written x store times e payload alerts db) (rw (eq_refl e.event_id) refl) d')
      | inr n ↦ rw n d'
    ]

-- the queue after an update of some rows
update-Delivers :
    (log : List Event) (db : Database) (test : JobRow → Bool) (change : JobRow → JobRow)
    → ((row : JobRow) → (change row).id ≡ row.id)
    → ((row : JobRow)
        → ((change row).event_id ≡ row.event_id) × ((change row).channel ≡ row.channel))
    → ((row : JobRow)
        → IsAmong row db.notifications
        → test row ≡ true
        → IsJob row
        → IsJob (change row))
    → Delivers log db
    → Delivers log (record db { notifications = update_where test change db.notifications })
update-Delivers log db test change ids keys jobs d = record {
  ordered = update_where-InOrder test change ids db.notifications db.next_id d.ordered;
  unique = update_where-IsUnique test change keys db.notifications d.unique;
  known =
      All-update_where test change (IsOf log) db.notifications (λ row _ h. rw (keys row).0 h)
        d.known;
  valid = All-update_among test change IsJob db.notifications jobs d.valid;
}

module _ {T : Type 0} (ch : Chrono T) (log : List Event) where
  complete-Delivers :
      (id : ℕ) (now : T) (db : Database)
      → Delivers log db
      → Delivers log (complete_notification ch id now db)
  unfolding complete_notification
  complete-Delivers id now db d =
      update-Delivers log db (is_in_flight id) (set_sent (ch.to_rfc3339 now)) (λ row. refl)
        (λ row. (refl, refl)) (λ row _ t j. set_sent-IsJob id (ch.to_rfc3339 now) row t j) d

  fail-Delivers :
      (id : ℕ) (update : NotificationFailureUpdate T) (db db' : Database)
      → fail_notification ch id update db ≡ ok db'
      → Delivers log db
      → Delivers log db'
  unfolding fail_notification
  fail-Delivers id update db db' h d =
      let (at, _, e) = >>=-eq-ok (or_fail (next_attempt ch update) panicked) _ h in
      subst (Delivers log)
        (ok-injective
          (record db {
            notifications =
                update_where (is_in_flight id) (set_failed at update.error update.retryable)
                  db.notifications;
          })
          db' e)
        (update-Delivers log db (is_in_flight id) (set_failed at update.error update.retryable)
          (λ row. refl) (λ row. (refl, refl))
          (λ row _ t j. set_failed-IsJob id at update.error update.retryable row t j) d)

  -- a row with the identifier of a due row is that row, which was not sent
  claimed-IsJob :
      (due : JobRow → Bool) (now : String) (db : Database) (row other : JobRow)
      → ((r : JobRow) → due r ≡ true → (r.status == "sent") ≡ false)
      → Delivers log db
      → IsLeastDue due db.notifications row
      → IsAmong other db.notifications
      → has_id row.id other ≡ true
      → IsJob other
      → IsJob (set_claimed now other)
  claimed-IsJob due now db row other unsent d f m t j =
      let same =
        same_row row other db.notifications db.next_id d.ordered f.among m
          (ground (arith, t, eqb_iff other.id row.id)) in
      set_claimed-IsJob now other
        (subst (λ (r : JobRow). (r.status == "sent") ≡ false) same (unsent row f.is_due)) j

  claim-Delivers :
      (now : T) (max_attempts : ℕ) (db : Database)
      → Delivers log db
      → Delivers log (claim_notification ch now max_attempts db).1
  unfolding claim_notification
  claim-Delivers now max_attempts db d =
      let text = ch.to_rfc3339 now in
      let due = is_due max_attempts text (ch.to_rfc3339 (ch.minutes_before now 5)) in
      let found = first_due-Found due db.notifications in
      elim (Option-cases (first_due due db.notifications)) [
        | inl none_due ↦ rw (none_due, claim_notification) d
        | inr (row, is_first) ↦
            rw (is_first, claim_notification)
              (update-Delivers log db (has_id row.id) (set_claimed text) (λ r. refl)
                (λ r. (refl, refl))
                (λ other.
                  claimed-IsJob due text db row other
                    (is_due-not_sent max_attempts text (ch.to_rfc3339 (ch.minutes_before now 5))) d
                    (rw is_first at found))
                d)
      ]

accepts-Delivers :
    (x : Formats) (store : ServerEventStore) (times : Times) (log : List Event) (e : Event)
    (db db' : Database) (r : EventResult)
    → Fresh x store times e db r db' ⊎ Repeated x store times e db r db'
    → Delivers log db
    → Delivers (logged r e log) db'
accepts-Delivers x store times log e db db' r (inl f) d =
    rw (f.reply, f.commit) (committed-Delivers x store times e f.payload _ f.alerts log db d)
accepts-Delivers x store times log e db db' r (inr p) d = rw (p.reply, p.unchanged) d

-- In every database that the server can reach, the jobs stand in the order of their identifiers,
-- no two are for one event and one channel, each is for an event of the history, and each is in
-- one of the four phases: it holds a claim exactly while it is in flight, a time of sending exactly
-- when it was sent, and it has had no attempt exactly while it is pending.
pub History-Delivers :
    {T : Type 0} (x : Formats) (store : ServerEventStore) (ch : Chrono T) {log : List Event}
    {db : Database}
    → History x store ch log db
    → Delivers log db
History-Delivers x store ch start = record { ordered = tt; unique = tt; known = tt; valid = tt }
History-Delivers x store ch (accepts e times r done h) =
    accepts-Delivers x store times _ e _ _ r (accept-cases x store times e _ r _ done)
      (History-Delivers x store ch h)
History-Delivers x store ch (claims now max_attempts h) =
    claim-Delivers ch _ now max_attempts _ (History-Delivers x store ch h)
History-Delivers x store ch (completes id now h) =
    complete-Delivers ch _ id now _ (History-Delivers x store ch h)
History-Delivers x store ch (fails id update done h) =
    fail-Delivers ch _ id update _ _ done (History-Delivers x store ch h)
History-Delivers x store ch (enrolls rows h) =
    let d = History-Delivers x store ch h in
    record { ordered = d.ordered; unique = d.unique; known = d.known; valid = d.valid }
