-- ===== src/Store/Dispatcher/Runs.antt =====
-- What a run of the dispatcher of src/notification.rs does to the database.
use beacon_alerts.Prelude.{
  ℕ, zero, suc, ◌+◌, ◌≤◌, ◌≡◌, refl, subst, inl, inr, Option, none, some, arith, find, ◌==◌,
  Option-cases,
}
use native.Mathlib.Nat.{le_refl}
use beacon_alerts.Fallible.{Error, Result, Result-cases, ok, err, or_fail, ◌>>=◌, panicked}
use beacon_alerts.Model.Validate.{Formats}
use beacon_alerts.Store.{Database, ServerEventStore}
use beacon_alerts.Store.Clock.{Chrono}
use beacon_alerts.Store.Jobs.{
  NotificationJob, NotificationFailureUpdate, claim_notification, fail_notification, next_attempt,
}
use beacon_alerts.Store.Dispatcher.{
  NotificationChannel, NotificationDispatcher, SendError, Outcome, after_failure, settle, deliver,
  rounds, deliver_due,
}
use beacon_alerts.Store.Queue.Settled.{Later, at_once, claiming, completing, failing}

-- The outcome has at most `most` deliveries, or a panic stopped it.
abbrev pub IsWithin : ℕ → Result ℕ → Type 0
IsWithin most (ok n) = n ≤ most
IsWithin most (err e) = e ≡ panicked

IsWithin-weaken : (m n : ℕ) (r : Result ℕ) → m ≤ n → IsWithin m r → IsWithin n r
IsWithin-weaken m n (ok k) le h = omega arith
IsWithin-weaken m n (err e) le h = h

or_fail_panic {ℓ κ} :
    {A : Type ℓ} {B : Type κ} (o : Option A) (p e : Error) (f : A → B)
    → (or_fail o p >>= λ a. ok (f a)) ≡ err e
    → e ≡ p
or_fail_panic none p e f h = cc
or_fail_panic (some a) p e f h = cc

rounds_bound : (more n limit : ℕ) → more ≤ suc n → more + limit ≤ n + suc limit
rounds_bound more n limit h = omega arith

module _ {T W : Type 0} (x : Formats) (store : ServerEventStore) (ch : Chrono T)
    (d : NotificationDispatcher W) where
  pub record Ran (most : ℕ) (db : Database) (o : Outcome W) : Type 0 where
    pub later : Later x store ch db o.db
    pub within : IsWithin most o.delivered

  fail-panicked :
      (id : ℕ) (update : NotificationFailureUpdate T) (m : Database) (e : Error)
      → fail_notification ch id update m ≡ err e
      → e ≡ panicked
  unfolding fail_notification
  fail-panicked id update m e h = or_fail_panic (next_attempt ch update) panicked e _ h

  after_failure-Ran :
      (id : ℕ) (update : NotificationFailureUpdate T) (n : ℕ) (db m : Database) (w : W)
      (r : Result Database)
      → fail_notification ch id update m ≡ r
      → Later x store ch db m
      → Ran n db (after_failure ch d n m w r)
  after_failure-Ran id update n db m w (ok m') h l = record {
    later = failing id update h l;
    within = le_refl n;
  }
  after_failure-Ran id update n db m w (err e) h l = record {
    later = l;
    within = fail-panicked id update m e h;
  }

  -- more deliveries are allowed
  Ran-weaken : (m n : ℕ) (db : Database) (o : Outcome W) → m ≤ n → Ran m db o → Ran n db o
  Ran-weaken m n db o le r = record {
    later = r.later;
    within = IsWithin-weaken m n o.delivered le r.within;
  }

  settle-Ran :
      (now : T) (job : NotificationJob) (n : ℕ) (db m : Database) (answer : Option SendError × W)
      → Later x store ch db m
      → Ran (suc n) db (settle ch d now job n m answer)
  settle-Ran now job n db m (none, w) l = record {
    later = completing job.id now l;
    within = omega arith;
  }
  settle-Ran now job n db m (some error, w) l =
      Ran-weaken n (suc n) db _ (omega arith) (after_failure-Ran job.id _ n db m w _ refl l)

  pub deliver-Ran :
      (now : T) (job : NotificationJob) (n : ℕ) (db m : Database) (w : W)
      → Later x store ch db m
      → Ran (suc n) db (deliver ch d now job n m w)
  unfolding deliver
  deliver-Ran now job n db m w l =
      elim (Option-cases (find (λ (c : NotificationChannel W). c.name == job.channel) d.channels)) [
        | inl missing ↦
            rw (missing, deliver)
              (Ran-weaken n (suc n) db _ (omega arith)
                (after_failure-Ran job.id _ n db m w _ refl l))
        | inr (channel, found) ↦
            rw (found, deliver) (settle-Ran now job n db m (channel.send job w) l)
      ]

  pub rounds-Ran :
      (limit : ℕ) (now : T) (n : ℕ) (db m : Database) (w : W)
      → Later x store ch db m
      → Ran (n + limit) db (rounds ch d limit now n m w)
  unfolding rounds
  rounds-Ran zero now n db m w l = record { later = l; within = omega arith }
  rounds-Ran (suc limit) now n db m w l =
      let m' = (claim_notification ch now d.max_attempts m).1 in
      let l' : Later x store ch db m' = claiming now d.max_attempts l in
      elim (Option-cases (claim_notification ch now d.max_attempts m).0) [
        | inl none_due ↦ rw (none_due, rounds) (record { later = l'; within = omega arith })
        | inr (job, taken) ↦
            let ran = deliver-Ran now job n db m' w l' in
            elim (Result-cases (deliver ch d now job n m' w).delivered) [
              | inl (more, going) ↦
                  rw (taken, going, rounds)
                    (Ran-weaken (more + limit) (n + suc limit) db _
                      (rounds_bound more n limit (subst (IsWithin (suc n)) going ran.within))
                      (rounds-Ran limit now more db _ _ ran.later))
              | inr (e, stopped) ↦
                  rw (taken, stopped, rounds)
                    (Ran-weaken (suc n) (n + suc limit) db _ (omega arith) ran)
            ]
      ]

  -- A run of the dispatcher only claims jobs and completes or fails them: what it leaves of a
  -- database is reached by further transactions, and it counts at most `limit` deliveries, if a
  -- panic does not stop it.
  pub deliver_due-Ran :
      (now : T) (db : Database) (limit : ℕ) (w : W) → Ran limit db (deliver_due ch d now db limit w)
  unfolding deliver_due
  deliver_due-Ran now db limit w =
      Ran-weaken (0 + limit) limit db _ (omega arith) (rounds-Ran limit now 0 db db w at_once)
