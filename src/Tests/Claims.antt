-- ===== src/Tests/Claims.antt =====
-- Tests of the claims of one job.
use beacon_alerts.Prelude.{
  ◌≡◌, ◌≢◌, refl, Bool, true, false, Option, none, some, [], arith, is_blank, eqb,
}
use beacon_alerts.Fallible.{Result}
use beacon_alerts.Model.Validate.{validate, validate_fact, validate_facts, require_field}
use beacon_alerts.Policy.{channels_for, collect, push_new, matches}
use beacon_alerts.Template.{default_templates}
use beacon_alerts.Store.{Database, ServerEventStore, empty_database}
use beacon_alerts.Store.Alerts.{next_alert, load_alert, save_alert, transition_alert}
use beacon_alerts.Store.Accept.{
  EventResult, new_job, accept, accept_new, insert_event, enqueue_notifications, insert_jobs,
  insert_job,
}
use beacon_alerts.Store.Jobs.{
  NotificationJob, notification_from_row, claim_notification, complete_notification, is_due,
  first_due, update_where,
}
use beacon_alerts.Store.History.{History, start, accepts, logged}
use beacon_alerts.Store.Queue.Exhausted.{claim-last}
use beacon_alerts.Store.Queue.Exclusive.{nothing, completes_other, claim-exclusive}
use beacon_alerts.Store.Queue.Settled.{at_once, completing}
use beacon_alerts.Tests.Samples.{
  formats, firing, times, clock, catalog, is_ok, reply_of, db_of, accepted,
}

-- With one attempt allowed, two claims take the two jobs of an event.
abbrev two_channels : ServerEventStore
two_channels = record { policy = catalog; templates = default_templates }

abbrev two_run : Result (EventResult × Database)
two_run = accept formats two_channels times firing empty_database

two_run-is_ok : is_ok two_run ≡ true
unfolding accept accept_new insert_event transition_alert validate require_field is_blank
    validate_facts validate_fact load_alert save_alert next_alert enqueue_notifications insert_jobs
    insert_job channels_for collect push_new matches claim_notification complete_notification is_due
    first_due update_where
two_run-is_ok = refl

two_run-History :
    History formats two_channels clock (logged (reply_of two_run) firing []) (db_of two_run)
two_run-History = accepts firing times (reply_of two_run) (accepted two_run two_run-is_ok) start

abbrev no_job : NotificationJob
no_job = notification_from_row (new_job "" firing "" "" 0)

abbrev job_of : Option NotificationJob × Database → NotificationJob
job_of (none, db) = no_job
job_of (some j, db) = j

abbrev has_taken : Option NotificationJob × Database → Bool
has_taken (none, db) = false
has_taken (some j, db) = true

job_of_lem :
    (r : Option NotificationJob × Database) → has_taken r ≡ true → r ≡ (some (job_of r), r.1)
job_of_lem (none, db) h = cc
job_of_lem (some j, db) h = refl

abbrev only_claim : Option NotificationJob × Database
only_claim = claim_notification clock "2026-02" 1 (db_of two_run)

-- Another worker reports a job that is not in flight.
abbrev between : Database
between = complete_notification clock 99 "2027" only_claim.1

abbrev next_claim : Option NotificationJob × Database
next_claim = claim_notification clock "2030" 1 between

only_claim-has_taken : has_taken only_claim ≡ true
unfolding accept accept_new insert_event transition_alert validate require_field is_blank
    validate_facts validate_fact load_alert save_alert next_alert enqueue_notifications insert_jobs
    insert_job channels_for collect push_new matches claim_notification complete_notification is_due
    first_due update_where
only_claim-has_taken = refl

only_claim-attempts : (job_of only_claim).attempts ≡ 1
unfolding accept accept_new insert_event transition_alert validate require_field is_blank
    validate_facts validate_fact load_alert save_alert next_alert enqueue_notifications insert_jobs
    insert_job channels_for collect push_new matches claim_notification complete_notification is_due
    first_due update_where
only_claim-attempts = refl

next_claim-has_taken : has_taken next_claim ≡ true
unfolding accept accept_new insert_event transition_alert validate require_field is_blank
    validate_facts validate_fact load_alert save_alert next_alert enqueue_notifications insert_jobs
    insert_job channels_for collect push_new matches claim_notification complete_notification is_due
    first_due update_where
next_claim-has_taken = refl

claim-last_example : (job_of next_claim).id ≢ (job_of only_claim).id
claim-last_example =
    claim-last formats two_channels clock "2026-02" "2030" 1 (db_of two_run) only_claim.1 between
      next_claim.1 (job_of only_claim) (job_of next_claim) two_run-History
      (job_of_lem only_claim only_claim-has_taken) (omega (arith, only_claim-attempts))
      (completing 99 "2027" at_once) (job_of_lem next_claim next_claim-has_taken)

-- The second worker may use another maximum.
abbrev other_claim : Option NotificationJob × Database
other_claim = claim_notification clock "2026-03" 3 between

other_claim-has_taken : has_taken other_claim ≡ true
unfolding accept accept_new insert_event transition_alert validate require_field is_blank
    validate_facts validate_fact load_alert save_alert next_alert enqueue_notifications insert_jobs
    insert_job channels_for collect push_new matches claim_notification complete_notification is_due
    first_due update_where
other_claim-has_taken = refl

other_id : eqb (job_of only_claim).id 99 ≡ false
unfolding accept accept_new insert_event transition_alert validate require_field is_blank
    validate_facts validate_fact load_alert save_alert next_alert enqueue_notifications insert_jobs
    insert_job channels_for collect push_new matches claim_notification complete_notification is_due
    first_due update_where
other_id = refl

claim-exclusive_example : (job_of other_claim).id ≢ (job_of only_claim).id
claim-exclusive_example =
    claim-exclusive formats two_channels clock "2026-02" "2026-03" 1 3 (db_of two_run) only_claim.1
      between other_claim.1 (job_of only_claim) (job_of other_claim) two_run-History
      (job_of_lem only_claim only_claim-has_taken) (completes_other 99 "2027" other_id nothing) refl
      (job_of_lem other_claim other_claim-has_taken)
