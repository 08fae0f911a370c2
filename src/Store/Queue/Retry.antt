-- ===== src/Store/Queue/Retry.antt =====
-- The delay before the next attempt at a job, and the jobs that are never due again.
use beacon_alerts.Prelude.{
  ℕ, zero, suc, ◌*◌, ◌-◌, ◌^◌, ◌≤◌, String, ◌≡◌, refl, sym, ap, ◌∙◌, Bool, true, ◌&&◌, some, arith,
  min, ltb, find, ◌==◌,
}
use native.Mathlib.Nat.{pow-suc}
use beacon_alerts.Fallible.{ok, ok-injective, or_fail-eq-ok, >>=-eq-ok, or_fail, panicked}
use beacon_alerts.Store.{Database, JobRow}
use beacon_alerts.Store.Clock.{Chrono, u64_max, saturating_mul, retry_delay, text_le}
use beacon_alerts.Store.Jobs.{
  NotificationFailureUpdate, is_due, update_where, has_id, is_in_flight, set_failed,
  fail_notification, next_attempt,
}
use beacon_alerts.Store.Queue.Rows.{find-update_where}

-- a delay doubled `n` times, saturating at each step
unfoldable pub doubled : ℕ → ℕ → ℕ
doubled zero base = base
doubled (suc n) base = saturating_mul 2 (doubled n base)

twice : (n base : ℕ) → base * 2 ^ suc n ≡ 2 * (base * 2 ^ n)
twice n base = grind (arith, pow-suc 2 n)

doubled_lem : (n base : ℕ) → base ≤ u64_max → doubled n base ≡ min (base * 2 ^ n) u64_max
unfolding doubled
doubled_lem zero base h = omega arith
doubled_lem (suc n) base h = rw (doubled_lem n base h) (omega (arith, twice n base))

-- For a base that fits in 64 bits, the delay before the next attempt is the base doubled once for
-- each attempt after the first, ten times at most, where each doubling saturates at the largest
-- unsigned 64-bit number.
pub retry_delay-doubled :
    (attempts base : ℕ)
    → base ≤ u64_max
    → retry_delay attempts base ≡ doubled (min (attempts - 1) 10) base
unfolding retry_delay
retry_delay-doubled attempts base h = sym (doubled_lem (min (attempts - 1) 10) base h)

pub retried-is_due :
    (at error now stale : String) (retryable : Bool) (max_attempts : ℕ) (row : JobRow)
    → is_due max_attempts now stale (set_failed at error retryable row)
      ≡ (ltb row.attempts max_attempts && (retryable && text_le at now))
unfolding is_due
retried-is_due at error now stale retryable max_attempts row = ground arith

-- When the update of a job in flight as failed returns, the row has the next attempt time of the
-- update and its error, and the job is due again exactly when its attempts are below the maximum,
-- the failure is retryable and that time has come; a claim of any age does not count any more.
pub fail-retries :
    {T : Type 0} (ch : Chrono T) (update : NotificationFailureUpdate T) (row : JobRow)
    (db db' : Database) (max_attempts : ℕ) (now stale : String)
    → find (has_id row.id) db.notifications ≡ some row
    → row.status ≡ "in_flight"
    → fail_notification ch row.id update db ≡ ok db'
    → (at : String) × (next_attempt ch update ≡ some at)
      × (find (has_id row.id) db'.notifications
          ≡ some (set_failed at update.error update.retryable row))
      × (is_due max_attempts now stale (set_failed at update.error update.retryable row)
          ≡ (ltb row.attempts max_attempts && (update.retryable && text_le at now)))
unfolding fail_notification
fail-retries ch update row db db' max_attempts now stale there flying h =
    let (at, due, e) = >>=-eq-ok (or_fail (next_attempt ch update) panicked) _ h in
    let rows =
      ap (λ (d : Database). d.notifications)
        (sym (
          ok-injective
            (record db {
              notifications =
                  update_where (is_in_flight row.id) (set_failed at update.error update.retryable)
                    db.notifications;
            })
            db' e)) in
    let flies : is_in_flight row.id row ≡ true =
      ground (arith, ap (λ (u : String). u == "in_flight") flying) in
    (
      at,
      or_fail-eq-ok (next_attempt ch update) at panicked due,
      rw rows (
          find-update_where (is_in_flight row.id) (set_failed at update.error update.retryable)
            row.id db.notifications (λ _. refl)
          ∙ rw (there, flies) refl),
      retried-is_due at update.error now stale update.retryable max_attempts row,
    )
