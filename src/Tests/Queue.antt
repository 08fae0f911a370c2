-- ===== src/Tests/Queue.antt =====
-- Tests of the notification queue.
use beacon_alerts.Prelude.{
  ℕ, ◌-◌, String, ◌≡◌, refl, true, ◌&&◌, Option, none, some, List, [], ◌∷◌, ◌++◌, arith, min, find,
  ltb, is_blank, if◌then◌else◌,
}
use beacon_alerts.Fallible.{ok}
use beacon_alerts.Model.Validate.{validate, validate_fact, validate_facts, require_field}
use beacon_alerts.Policy.{channels_for, collect, push_new, matches}
use beacon_alerts.Message.{render_event}
use beacon_alerts.Template.{default_templates}
use beacon_alerts.Store.{Database, JobRow, empty_database}
use beacon_alerts.Store.Alerts.{next_alert, load_alert, save_alert, transition_alert}
use beacon_alerts.Store.Accept.{
  new_job, accept, accept_new, insert_event, enqueue_notifications, insert_jobs, insert_job,
}
use beacon_alerts.Store.Clock.{as_i64, negative, text_le, retry_delay, retry_time}
use beacon_alerts.Store.Jobs.{
  NotificationJob, NotificationFailureUpdate, claim_notification, complete_notification,
  fail_notification, next_attempt, is_due, notification_from_row, first_due, update_where, has_id,
  set_failed,
}
use beacon_alerts.Store.History.{History, start, claims, completes}
use beacon_alerts.Store.History.Delivery.{Delivers, History-Delivers}
use beacon_alerts.Store.Queue.Claim.{Claimed, claim-Claimed}
use beacon_alerts.Store.Queue.Settled.{at_once, claiming, sent-Later}
use beacon_alerts.Store.Queue.Outbox.{jobs_of, accept-jobs}
use beacon_alerts.Store.Queue.Retry.{doubled, retry_delay-doubled, fail-retries}
use beacon_alerts.Store.Dispatcher.{NotificationDispatcher, deliver_due}
use beacon_alerts.Tests.Samples.{formats, firing, store, times, clock, reply_of}
use beacon_alerts.Tests.Alerts.{first_run, opened_db, first_accepted, opened-History, log}

accept-jobs_example :
    opened_db.notifications
    ≡ empty_database.notifications
      ++ (if (reply_of first_run).duplicate
          then []
          else jobs_of store times firing (reply_of first_run).alert empty_database.next_id)
accept-jobs_example =
    accept-jobs formats store times clock firing (reply_of first_run) opened_db start first_accepted

History-Delivers_example : Delivers log opened_db
History-Delivers_example = History-Delivers formats store clock opened-History

claim-Claimed_example :
    Claimed clock "2026-02" 3 opened_db (claim_notification clock "2026-02" 3 opened_db)
claim-Claimed_example = claim-Claimed clock "2026-02" 3 opened_db

abbrev job : ℕ → String → Option String → Option String → JobRow
job id status claimed sent = record (new_job "text" firing "2026-01" "telegram" id) {
  status = status;
  attempts = 1;
  claimed_at = claimed;
  sent_at = sent;
}

abbrev pending : ℕ → JobRow
pending id = new_job "text" firing "2026-01" "telegram" id

abbrev queue : List JobRow → Database
queue rows = record empty_database { notifications = rows; next_id = 9 }

abbrev taken : JobRow → Option NotificationJob
taken row = some (record (notification_from_row row) { attempts = 1; status = "in_flight" })

first_claim :
    claim_notification clock "2026-02" 3 (queue (pending 1 ∷ pending 2 ∷ []))
    ≡ (taken (pending 1), queue (job 1 "in_flight" (some "2026-02") none ∷ pending 2 ∷ []))
unfolding claim_notification is_due first_due update_where
first_claim = refl

-- A claim of any age is not given back once the attempts have reached the maximum.
exhausted_test :
    claim_notification clock "2030" 1 (queue (job 1 "in_flight" (some "2020") none ∷ []))
    ≡ (none, queue (job 1 "in_flight" (some "2020") none ∷ []))
unfolding claim_notification is_due first_due update_where
exhausted_test = refl

abbrev update : NotificationFailureUpdate String
update = record {
  attempts = 1;
  error = "timeout";
  max_attempts = 3;
  retry_delay_seconds = 30;
  retryable = true;
  now = "2026-02";
}

abbrev flying : JobRow
flying = job 1 "in_flight" (some "2026-02") none

failed :
    fail_notification clock 1 update (queue (flying ∷ []))
    ≡ ok (queue (set_failed "2027" "timeout" true flying ∷ []))
unfolding fail_notification next_attempt retry_time retry_delay update_where
failed = refl

fail-retries_example :
    (at : String) × (next_attempt clock update ≡ some at)
    × (find (has_id 1) (set_failed "2027" "timeout" true flying ∷ [])
        ≡ some (set_failed at "timeout" true flying))
    × (is_due 3 "2028" "2025" (set_failed at "timeout" true flying)
        ≡ (ltb 1 3 && (true && text_le at "2028")))
fail-retries_example =
    fail-retries clock update flying (queue (flying ∷ [])) _ 3 "2028" "2025" refl refl failed

retry_delay-doubled_example : retry_delay 4 30 ≡ doubled (min (4 - 1) 10) 30
retry_delay-doubled_example = retry_delay-doubled 4 30 (omega arith)

-- The job of the first event is claimed and sent.
abbrev sent_db : Database
sent_db = complete_notification clock 1 "2026-02" (claim_notification clock "2026-02" 3 opened_db).1

sent-History : History formats store clock log sent_db
sent-History = completes 1 "2026-02" (claims "2026-02" 3 opened-History)

abbrev sent_row : JobRow
sent_row =
    record (new_job (render_event firing (next_alert firing none) default_templates) firing
      times.queued_at "telegram" 1) { status = "sent"; attempts = 1; sent_at = some "2026-02" }

sent_row-found : find (has_id 1) sent_db.notifications ≡ some sent_row
unfolding accept accept_new insert_event transition_alert validate require_field is_blank
    validate_facts validate_fact load_alert save_alert next_alert enqueue_notifications insert_jobs
    insert_job channels_for collect push_new matches claim_notification complete_notification is_due
    first_due update_where
sent_row-found = refl

sent-Later_example :
    find (has_id 1) (claim_notification clock "2030" 9 sent_db).1.notifications ≡ some sent_row
sent-Later_example =
    sent-Later formats store clock sent_row sent-History sent_row-found refl
      (claiming "2030" 9 at_once)

-- The world is the list of the texts that a channel has sent.
abbrev dispatcher : NotificationDispatcher (List String)
dispatcher = record {
  channels = record { name = "telegram"; send = λ j w. (none, w ++ j.payload ∷ []) } ∷ [];
  max_attempts = 3;
  retry_delay_seconds = 30;
}

-- Both jobs are sent, in the order of their identifiers.
deliver_test :
    deliver_due clock dispatcher "2026-02" (queue (pending 1 ∷ pending 2 ∷ [])) 5 [] ≡ record {
      delivered = ok 2;
      db = queue (job 1 "sent" none (some "2026-02") ∷ job 2 "sent" none (some "2026-02") ∷ []);
      world = "text" ∷ "text" ∷ [];
    }
unfolding deliver_due claim_notification complete_notification
deliver_test = refl

-- A delay of 2^64 - 2 seconds becomes one of -2 seconds.
wrapped_delay : as_i64 (retry_delay 2 9223372036854775807) ≡ negative 1
unfolding retry_delay
wrapped_delay = refl
