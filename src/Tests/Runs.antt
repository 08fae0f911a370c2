-- ===== src/Tests/Runs.antt =====
-- Tests of the notification worker, of starting the server, and of the agent's commands.
use Prim.Native.Nat.{ℕ}
use beacon_alerts.Prelude.{
  none, String, ◌≡◌, refl, arith, true, false, Option, some, List, [], ◌∷◌, All, is_blank,
}
use beacon_alerts.Fallible.{ok}
use beacon_alerts.Model.EventState.{EventState}
use beacon_alerts.Model.Severity.{Severity}
use beacon_alerts.Model.Validate.{validate, validate_fact, validate_facts, require_field}
use beacon_alerts.Template.{default_templates}
use beacon_alerts.Template.Validate.{validate_template, is_allowed}
use beacon_alerts.Template.Scan.{split_at, size, has}
use beacon_alerts.Policy.Validate.{validate_channels}
use beacon_alerts.Store.{Database, JobRow, empty_database}
use beacon_alerts.Policy.{channels_for, collect, push_new, matches}
use beacon_alerts.Store.Alerts.{load_alert, save_alert, next_alert, transition_alert}
use beacon_alerts.Store.Accept.{
  new_job, accept, accept_new, insert_event, insert_job, enqueue_notifications,
}
use beacon_alerts.Store.Clock.{retry_time}
use beacon_alerts.Store.Jobs.{
  notification_from_row, set_claimed, is_due, claim_notification, fail_notification, next_attempt,
}
use beacon_alerts.Store.Dispatcher.{NotificationDispatcher, deliver, deliver_due, rounds}
use beacon_alerts.Store.Dispatcher.Drains.{IsDrained, RetriesLater, deliver_due-IsDrained}
use beacon_alerts.Store.Queue.Claim.{due_at}
use beacon_alerts.Store.Queue.Count.{count}
use beacon_alerts.Telegram.{
  TelegramChannel, TelegramLibrary, validate_config, load, from_config, has_whitespace,
}
use beacon_alerts.Telegram.Fates.{CanRetry, Fate, telegram_dispatcher, deliver-Fate}
use beacon_alerts.Agent.{Spool, QueueSteps, enqueue, insert_file, open_spool}
use beacon_alerts.Agent.Commands.{SendArgs, Json, new_event, send_event}
use beacon_alerts.Agent.Commands.Queued.{SentOrFailed, send_event-SentOrFailed}
use beacon_alerts.Tests.Samples.{formats, firing, store, clock}
use beacon_alerts.Tests.Alerts.{opened_db, opened-History}
use beacon_alerts.Tests.Agents.{root, file}
use beacon_alerts.Store.Schema.{new_file}
use beacon_alerts.Server.{
  DataDir, opened, ServerConfig, ServerLibrary, Serving, Worker, with_tls, serve, run_worker,
  open_with_policy_and_templates,
}
use beacon_alerts.Server.Works.{run_worker-rests}

-- The answer of Telegram is its status, and every text of a file is a token.
abbrev pub library : TelegramLibrary
library = record {
  read = λ path. some "123:abc";
  parse = λ text. some (record {
    token_file = "telegram.token";
    chat_id = "42";
    timeout_seconds = 10;
    templates = default_templates;
  });
  builds = true;
  print_status = λ status. "503 Service Unavailable";
}

abbrev pub channel : TelegramChannel
channel = record { token = "123:abc"; chat_id = "42"; endpoint = "https://api.telegram.org" }

-- the world is the texts that were sent, and each one is answered by a status
abbrev pub answer : ℕ → String → String → String → List String → Option ℕ × List String
answer status url chat text sent = (some status, text ∷ sent)

abbrev pub dispatcher : ℕ → NotificationDispatcher (List String)
dispatcher status = telegram_dispatcher library (answer status) channel 3 30

pub later : RetriesLater clock (dispatcher 503) "2026"
unfolding retry_time
later attempts = ("2027", refl, refl)

pub one_due : count (due_at clock "2026" 3) opened_db.notifications ≡ 1
unfolding accept accept_new insert_event transition_alert validate require_field is_blank
    validate_facts validate_fact load_alert save_alert next_alert enqueue_notifications insert_job
    channels_for collect push_new matches is_due
one_due = refl

deliver_due-IsDrained_example :
    IsDrained clock
      (dispatcher 503)
      "2026"
      (deliver_due clock (dispatcher 503) "2026" opened_db 1 [])
deliver_due-IsDrained_example =
    deliver_due-IsDrained formats store clock (dispatcher 503) "2026" opened_db 1 [] opened-History
      later (omega (arith, one_due))

abbrev worker : Worker (List String)
worker = record { dispatcher = dispatcher 503; interval_seconds = 30; limit = 1 }

none_due :
    count
      (due_at clock "2026" 3)
      (run_worker clock worker ("2026" ∷ []) opened_db []).0.notifications
    ≡ 0
unfolding accept accept_new insert_event transition_alert validate require_field is_blank
    validate_facts validate_fact load_alert save_alert next_alert enqueue_notifications insert_job
    channels_for collect push_new matches is_due run_worker deliver_due rounds deliver
    claim_notification fail_notification next_attempt retry_time
none_due = refl

run_worker-rests_example :
    All
      (λ row. due_at clock "2026" 3 row ≡ false)
      (run_worker clock worker ("2026" ∷ "2026" ∷ []) opened_db []).0.notifications
run_worker-rests_example =
    run_worker-rests formats store clock worker ("2026" ∷ []) "2026" opened_db [] opened-History
      (later, tt) later (omega (arith, none_due))

abbrev row : JobRow
row = set_claimed "2026" (new_job "text" firing "2026" "telegram" 1)

abbrev queue : Database
queue = record empty_database { notifications = row ∷ []; next_id = 2 }

can_retry : CanRetry clock (dispatcher 503) "2026"
unfolding retry_time
can_retry attempts = ("2027", refl)

deliver-Fate_example :
    Fate clock
      (dispatcher 503)
      "2026"
      false
      true
      0
      row
      (deliver clock (dispatcher 503) "2026" (notification_from_row row) 0 queue [])
deliver-Fate_example =
    deliver-Fate clock library (answer 503) channel 3 30 "2026" row 0 queue [] can_retry refl refl
      refl

abbrev arguments : ServerConfig
arguments = record {
  bind = "127.0.0.1:8787";
  data_dir = "/var/lib/beacon/events";
  credentials_dir = "/etc/beacon/agents.d";
  policy = store.policy;
  tls_cert = some "server.pem";
  tls_key = some "server.key";
  allow_http = false;
  telegram_config = some "telegram.json";
  notify_interval_seconds = 30;
  notify_limit = 100;
  notify_max_attempts = 3;
  notify_retry_delay_seconds = 30;
}

abbrev pub system : ServerLibrary
system = record {
  is_address = λ text. true;
  is_dir = λ path. true;
  data_root = λ path. record {
    created = true;
    lock_opened = true;
    lock_taken = true;
    database_opened = true;
    spoilt = none;
  };
  loads_tls = λ cert key. true;
  binds = λ bind. true;
  spawns = true;
}

abbrev serving : Serving (List String)
serving = record {
  state = record { credentials = "/etc/beacon/agents.d"; events = store };
  worker = some (record { dispatcher = dispatcher 503; interval_seconds = 30; limit = 100 });
  listener = with_tls "server.pem" "server.key";
}

abbrev new_dir : DataDir
new_dir = record { made = false; lock = false; file = new_file }

served : serve system library (answer 503) arguments new_dir ≡ (ok serving, opened new_dir)
unfolding serve load validate_config from_config has_whitespace is_blank
    open_with_policy_and_templates beacon_alerts.Template.Catalog.validate validate_template
    is_allowed split_at size has beacon_alerts.Policy.Validate.validate validate_channels
served = refl

abbrev sending : SendArgs
sending = record {
  event_type = "backup.stale";
  source = "monitor";
  host = "backup";
  state = EventState.firing;
  severity = Severity.warning;
  fingerprint = "backup/age";
  facts = "{}";
  spool = "/var/lib/beacon/spool";
  print_only = false;
}

abbrev pub json : Json
json = record { parse_facts = λ text. some []; to_string_pretty = λ e. some e.event_id }

abbrev empty_spool : Spool
empty_spool = record { pending = []; temporaries = [] }

abbrev pub steps : QueueSteps
steps = record { encoded = true; created = true; written = true; renamed = true }

send_event-SentOrFailed_example :
    SentOrFailed formats json sending firing.event_id "2026" root steps empty_spool
      (send_event formats json sending firing.event_id "2026" root steps empty_spool)
send_event-SentOrFailed_example =
    send_event-SentOrFailed formats json sending firing.event_id "2026" root steps empty_spool tt
      refl refl

sent_test : send_event formats json sending firing.event_id "2026" root steps empty_spool ≡ (
  ok tt,
  record { pending = file (new_event sending firing.event_id "2026" []) ∷ []; temporaries = [] },
)
unfolding send_event enqueue open_spool insert_file validate require_field is_blank validate_facts
sent_test = refl
