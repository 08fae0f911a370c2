-- ===== src/Tests/Alerts.antt =====
-- Tests of accepting events.
use beacon_alerts.Prelude.{
  ◌≡◌, refl, true, false, none, some, List, [], ◌∷◌, arith, find, is_blank, ◌==◌,
}
use beacon_alerts.Fallible.{Result, ok}
use beacon_alerts.Model.{Event, AlertRecord}
use beacon_alerts.Model.Validate.{validate, validate_fact, validate_facts, require_field}
use beacon_alerts.Store.{Database, empty_database}
use beacon_alerts.Store.Alerts.{
  next_alert, load_alert, save_alert, row_of, upsert, transition_alert,
}
use beacon_alerts.Store.Lifecycle.{
  replay, is_open, is_firing, signals, Reported, is_open-replay, replay-Reported,
}
use beacon_alerts.Store.Accept.{EventResult, accept, accept_new, insert_event}
use beacon_alerts.Store.History.{History, start, accepts, logged}
use beacon_alerts.Store.History.Mirror.{Mirrors, has_event_id, History-Mirrors}
use beacon_alerts.Store.History.Resubmit.{resubmit, accept_total}
use beacon_alerts.Tests.Samples.{
  formats, firing, resolved, store, times, clock, is_ok, reply_of, db_of, accepted,
}

abbrev pub first_run : Result (EventResult × Database)
first_run = accept formats store times firing empty_database

first_run-is_ok : is_ok first_run ≡ true
unfolding accept accept_new insert_event transition_alert validate require_field is_blank
    validate_facts validate_fact load_alert save_alert next_alert
first_run-is_ok = refl

abbrev pub opened_db : Database
opened_db = db_of first_run

pub first_accepted :
    accept formats store times firing empty_database ≡ ok (reply_of first_run, opened_db)
first_accepted = accepted first_run first_run-is_ok

pub first_reply : (reply_of first_run).duplicate ≡ false
unfolding accept accept_new insert_event transition_alert validate require_field is_blank
    validate_facts validate_fact load_alert save_alert next_alert
first_reply = refl

abbrev pub log : List Event
log = logged (reply_of first_run) firing []

pub opened-History : History formats store clock log opened_db
opened-History = accepts firing times (reply_of first_run) first_accepted start

History-Mirrors_example : Mirrors formats log opened_db
History-Mirrors_example = History-Mirrors formats store clock opened-History

firing-known : find (has_event_id firing.event_id) log ≡ some firing
unfolding accept accept_new insert_event transition_alert validate require_field is_blank
    validate_facts validate_fact load_alert save_alert next_alert
firing-known = refl

resubmit_example :
    (a : AlertRecord) × (replay firing.fingerprint log ≡ some a)
    × (accept formats store times firing opened_db
        ≡ ok (record { duplicate = true; alert = a }, opened_db))
resubmit_example =
    resubmit formats store clock times log opened_db firing opened-History firing-known

firing-valid : validate formats firing ≡ ok tt
unfolding validate require_field is_blank validate_facts validate_fact
firing-valid = refl

accept_total_example :
    (db : Database) × (accept formats store times firing empty_database
      ≡ ok (
        record { duplicate = false; alert = next_alert firing (replay firing.fingerprint []) },
        db,
      ))
unfolding next_alert replay
accept_total_example =
    accept_total formats store clock times [] empty_database firing firing.event_id start
      firing-valid refl refl (omega arith)

is_open-replay_example :
    is_open (replay "backup/mnt" (resolved ∷ firing ∷ []))
    ≡ is_firing (find (signals "backup/mnt") (resolved ∷ firing ∷ []))
is_open-replay_example = is_open-replay "backup/mnt" (resolved ∷ firing ∷ [])

replay-Reported_example :
    Reported "backup/mnt"
      (find (λ e. e.fingerprint == "backup/mnt") (resolved ∷ firing ∷ []))
      (replay "backup/mnt" (resolved ∷ firing ∷ []))
replay-Reported_example = replay-Reported "backup/mnt" (resolved ∷ firing ∷ [])

saved : save_alert [] (next_alert firing none) ≡ ok (row_of (next_alert firing none) ∷ [])
unfolding save_alert upsert next_alert
saved = refl
