-- ===== src/Store/Queue/Claim.antt =====
-- What `claim_notification` of src/server.rs takes.
use beacon_alerts.Prelude.{
  ℕ, ◌+◌, ◌≤◌, String, ◌≡◌, refl, inl, inr, Bool, true, false, Option, none, some, arith, All,
  Option-cases,
}
use beacon_alerts.Store.{Database, JobRow}
use beacon_alerts.Store.Clock.{Chrono}
use beacon_alerts.Store.Jobs.{
  NotificationJob, notification_from_row, is_due, first_due, update_where, has_id, set_claimed,
  claim_notification,
}
use beacon_alerts.Store.Queue.Rows.{IsLeastDue, first_due-Found}

module _ {T : Type 0} (ch : Chrono T) where
  -- the job is due for a claim at `now`
  abbrev pub due_at : T → ℕ → JobRow → Bool
  due_at now max_attempts row =
      is_due max_attempts (ch.to_rfc3339 now) (ch.to_rfc3339 (ch.minutes_before now 5)) row

  pub record Taken (now : T) (max_attempts : ℕ) (db : Database) (job : NotificationJob)
      (db' : Database) : Type 0 where
    pub row : JobRow
    pub first : IsLeastDue (due_at now max_attempts) db.notifications row
    pub job_lem :
        job
        ≡ record (notification_from_row row) { attempts = row.attempts + 1; status = "in_flight" }
    pub room : job.attempts ≤ max_attempts
    pub rest : db' ≡ record db {
      notifications =
          update_where (has_id row.id) (set_claimed (ch.to_rfc3339 now)) db.notifications;
    }

  -- The answer of a claim and the database after it.
  abbrev pub Claimed : T → ℕ → Database → Option NotificationJob × Database → Type 0
  Claimed now max_attempts db (none, db') =
      All (λ row. due_at now max_attempts row ≡ false) db.notifications × (db' ≡ db)
  Claimed now max_attempts db (some job, db') = Taken now max_attempts db job db'

  is_due-room :
      (max_attempts : ℕ) (now stale : String) (row : JobRow)
      → is_due max_attempts now stale row ≡ true
      → row.attempts + 1 ≤ max_attempts
  unfolding is_due
  is_due-room max_attempts now stale row h = ground (arith, h)

  -- A claim takes the due job with the lowest identifier, marks it in flight with one more attempt
  -- and with the time of the claim, and changes nothing else in the database; the attempts do not
  -- pass the maximum. Only when no job is due does it take none, and it changes nothing then.
  pub claim-Claimed :
      (now : T) (max_attempts : ℕ) (db : Database)
      → Claimed now max_attempts db (claim_notification ch now max_attempts db)
  unfolding claim_notification
  claim-Claimed now max_attempts db =
      let due = due_at now max_attempts in
      let found = first_due-Found due db.notifications in
      elim (Option-cases (first_due due db.notifications)) [
        | inl none_due ↦ rw (none_due, claim_notification) (rw none_due at found, refl)
        | inr (row, is_first) ↦
            rw (is_first, claim_notification)
              (record {
                row = row;
                first = rw is_first at found;
                job_lem = refl;
                room = is_due-room max_attempts _ _ row (rw is_first at found).is_due;
                rest = refl;
              })
      ]
