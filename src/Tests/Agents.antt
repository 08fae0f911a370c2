-- ===== src/Tests/Agents.antt =====
-- Tests of enrolling agents, of listing alerts and of the agent's spool.
use beacon_alerts.Prelude.{
  trim, String, ◌≡◌, ◌≢◌, refl, Bool, true, false, Option, none, some, List, [], ◌∷◌, length, take,
  All, is_blank,
}
use beacon_alerts.Fallible.{Result, ok, err, code_used, commit_failed, io_failed, send_failed}
use beacon_alerts.Model.{Event}
use beacon_alerts.Model.Validate.{validate, validate_fact, validate_facts, require_field}
use beacon_alerts.Store.{Database, EnrollmentRow, empty_database}
use beacon_alerts.Store.Clock.{text_le}
use beacon_alerts.Store.Enrollment.{
  temporary, credential, Secrets, Credentials, validate_agent_name, all_name_chars, set_consumed,
  hash_secret, consume_enrollment, check_enrollment, saved, Saving,
}
use beacon_alerts.Store.Enrollment.Codes.{consume_enrollment-once}
use beacon_alerts.Store.Enrollment.Endings.{Ending, consume_enrollment-Ending}
use beacon_alerts.SecretFile.{working, write_secret_file}
use beacon_alerts.Agent.{
  SpoolFile, Spool, file_name, list, remove, remove_file, deliver_with_retry, send_all, drain,
  AgentConfig, SpoolRoot, open_spool,
}
use beacon_alerts.Client.{ClientLibrary, build_client}
use beacon_alerts.Agent.Delivery.{IsTidy, CanRun, Leaves, drain-Leaves}
use beacon_alerts.Tests.Samples.{formats, firing, resolved, clock}

-- A text is its own hash, and an instant is its text.
abbrev pub secrets : Secrets String
secrets = record {
  digest = λ s. s;
  parse_from_rfc3339 = λ s. some s;
  at_or_after = λ now expiry. text_le expiry now;
}

abbrev code_row : Option String → EnrollmentRow
code_row used = record {
  code_hash = "code";
  name = "ops-1";
  expires_at = "2027";
  consumed_at = used;
}

abbrev pub codes : Option String → Database
codes used = record empty_database { enrollments = code_row used ∷ [] }

pub enrolled :
    consume_enrollment clock secrets "ops-1" "code" "2026" "token" (saved "2026") [] (codes none)
    ≡ (ok "token", (credential "ops-1" "token" ∷ [], codes (some "2026")))
unfolding consume_enrollment check_enrollment validate_agent_name all_name_chars set_consumed
    hash_secret is_blank write_secret_file
enrolled = refl

used_test :
    consume_enrollment clock secrets "ops-1" "code" "2026" "token"
      (saved "2026")
      []
      (codes (some "2026"))
    ≡ (err code_used, ([], codes (some "2026")))
unfolding consume_enrollment check_enrollment validate_agent_name all_name_chars set_consumed
    hash_secret is_blank write_secret_file
used_test = refl

-- The transaction cannot be committed.
abbrev uncommitted : Saving String
uncommitted = record { time = "2026"; path = working; committed = false }

-- The credential stays, though the code is unused, and the next attempt is refused.
abbrev failing : Result String × (Credentials × Database)
failing = consume_enrollment clock secrets "ops-1" "code" "2026" "token" uncommitted [] (codes none)

uncommitted_test : failing ≡ (err commit_failed, (credential "ops-1" "token" ∷ [], codes none))
unfolding consume_enrollment check_enrollment validate_agent_name all_name_chars set_consumed
    hash_secret is_blank write_secret_file
uncommitted_test = refl

-- Where the file cannot be linked, the temporary one stays with the token.
unlinked_test :
    consume_enrollment clock secrets "ops-1" "code" "2026" "token"
      (record { time = "2026"; path = record working { linked = false }; committed = true })
      []
      (codes none)
    ≡ (err io_failed, (temporary "token\n" ∷ [], codes none))
unfolding consume_enrollment check_enrollment validate_agent_name all_name_chars set_consumed
    hash_secret is_blank write_secret_file trim
unlinked_test = refl

consume_enrollment-Ending_example :
    Ending clock secrets "ops-1" "code" "2026" "token" uncommitted [] (codes none) failing (
      consume_enrollment clock secrets "ops-1" "code" "2026" "other"
        (saved "2026")
        failing.1.0
        failing.1.1)
consume_enrollment-Ending_example =
    consume_enrollment-Ending clock secrets "ops-1" "code" "2026" "2026" "token" "other" uncommitted
      (saved "2026") [] (codes none)

consume_enrollment-once_example :
    consume_enrollment clock secrets "ops-2" "code" "2026" "token"
      (saved "2026")
      []
      (codes (some "2026"))
    ≢ (ok "token", (credential "ops-2" "token" ∷ [], codes (some "2026")))
consume_enrollment-once_example =
    consume_enrollment-once clock secrets "ops-1" "ops-2" "code" "code" "2026" "2026" "token"
      "token" (saved "2026") (saved "2026") [] [] (codes none)
      ("token", (credential "ops-1" "token" ∷ [], codes (some "2026")))
      ("token", (credential "ops-2" "token" ∷ [], codes (some "2026"))) enrolled refl

pub valid_name : validate_agent_name "ops-1" ≡ ok tt
unfolding validate_agent_name all_name_chars
valid_name = refl

pub some_code : is_blank "code" ≡ false
unfolding is_blank
some_code = refl

abbrev pub file : Event → SpoolFile
file e = record { name = file_name e; event = some e }

abbrev pub spool : Spool
spool = record { pending = file firing ∷ file resolved ∷ []; temporaries = [] }

-- The server answers one time with success and then no more; the world is what it has stored.
abbrev submit_once : Event → List String → Bool × List String
submit_once e [] = (true, e.event_id ∷ [])
submit_once e (id ∷ ids) = (false, id ∷ ids)

firing-valid : validate formats firing ≡ ok tt
unfolding validate require_field is_blank validate_facts validate_fact
firing-valid = refl

resolved-valid : validate formats resolved ≡ ok tt
unfolding validate require_field is_blank validate_facts validate_fact
resolved-valid = refl

-- The first event is sent and removed; the second one stays.
abbrev pub library : ClientLibrary
library = record {
  scheme = λ url. some "https";
  read = λ path. none;
  is_certificate = λ text. false;
  builds = true;
}

abbrev pub config : AgentConfig
config = record {
  server = "https://beacon";
  spool = "/var/lib/beacon/spool";
  token = "token";
  ca_file = none;
  allow_http = false;
  limit = 10;
  max_attempts = 3;
  retry_delay_seconds = 2;
}

abbrev pub root : SpoolRoot
root = record {
  created = true;
  root_restricted = true;
  pending_restricted = true;
  lock_opened = true;
  lock_taken = true;
  read = true;
  removes = λ e. true;
}

drain_test : drain submit_once formats library config root spool [] ≡ record {
  delivered = err send_failed;
  spool = record { pending = file resolved ∷ []; temporaries = [] };
  world = firing.event_id ∷ [];
}
unfolding drain open_spool build_client list send_all deliver_with_retry remove remove_file validate
    require_field is_blank validate_facts validate_fact
drain_test = refl

spool-IsTidy : All (IsTidy formats) spool.pending
spool-IsTidy = ((firing, refl, firing-valid, refl), ((resolved, refl, resolved-valid, refl), tt))

pub some_token : is_blank "token" ≡ false
unfolding is_blank
some_token = refl

pub built : build_client library config.server config.ca_file config.allow_http ≡ ok tt
unfolding build_client
built = refl

pub config-CanRun : CanRun library config root
unfolding open_spool
config-CanRun = record {
  some_token = some_token;
  some_attempt = refl;
  opened = refl;
  read = refl;
  built = built;
}

drain-Leaves_example :
    (events : List Event) × (list formats spool.pending ≡ ok events)
    × (length events ≡ length spool.pending)
    × Leaves submit_once 3 root.removes
        (take 10 events)
        0
        spool
        []
        (drain submit_once formats library config root spool [])
drain-Leaves_example =
    drain-Leaves submit_once formats library config root spool [] config-CanRun spool-IsTidy
