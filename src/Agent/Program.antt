-- ===== src/Agent/Program.antt =====
-- The program src/bin/beacon-agent.rs: its arguments and its `main`.
pub mod Joins
use beacon_alerts.Prelude.{ℕ, String, Bool, Option, none, some, List, [], ◌∷◌, ◌==◌, if◌then◌else◌}
use beacon_alerts.Fallible.{Result, ok, err, ◌>>=◌, unknown_command}
use beacon_alerts.Arguments.{Matches, Clap, required, value_or, number_or}
use beacon_alerts.Model.{Event}
use beacon_alerts.Model.EventState
use beacon_alerts.Model.Severity
use beacon_alerts.Model.Validate.{Formats}
use beacon_alerts.SecretFile.{SecretPath}
use beacon_alerts.Client.{ClientLibrary}
use beacon_alerts.Store.Clock.{u64_max}
use beacon_alerts.Http.{EnrollmentRequest, Response}
use beacon_alerts.Agent.{AgentConfig, Drained, Spool, SpoolRoot, QueueSteps}
use beacon_alerts.Agent.Enroll.{EnrollmentConfig, Enrollment, enroll}
use beacon_alerts.Agent.Commands
use beacon_alerts.Agent.Commands.{SendArgs, Json, send_event, replay_events}

pub record EnrollArgs : Type 0 where
  pub server : String
  pub name : String
  pub code_file : String
  pub token_file : String
  pub allow_http : Bool
  pub ca_file : Option String

pub record RunArgs : Type 0 where
  pub server : String
  pub spool : String
  pub token_file : String
  pub ca_file : Option String
  pub allow_http : Bool
  pub limit : ℕ
  pub max_attempts : ℕ
  pub retry_delay_seconds : ℕ

pub record ReplayArgs : Type 0 where
  pub spool : String

pub data Command : Type 0 where
  enroll_host : EnrollArgs → Command
  run : RunArgs → Command
  send : SendArgs → Command
  replay : ReplayArgs → Command

-- The files and the spools of a host, by their paths, and the texts of the temporary files that were
-- left on it.
pub record Host : Type 0 where
  pub temporaries : List String
  pub files : String → Option String
  pub spools : String → Spool

abbrev pub with_file : String → Option String → Host → Host
with_file path text host = record host { files = λ p. if p == path then text else host.files p }

abbrev pub with_left_text : Option String → Host → Host
with_left_text none host = host
with_left_text (some text) host = record host { temporaries = text ∷ host.temporaries }

abbrev pub with_spool : String → Spool → Host → Host
with_spool path spool host = record host {
  spools = λ p. if p == path then spool else host.spools p;
}

-- How the steps on the file system go: writing a secret to a path, those on a spool, and queueing.
pub record HostLibrary : Type 0 where
  pub secret_path : String → SecretPath
  pub spool_root : String → SpoolRoot
  pub queue_steps : QueueSteps

-- What a command reports in the end: that the host is enrolled, the count of the deliveries, that
-- the event was created, and the pending events with their lines.
pub data Report : Type 0 where
  enrolled : Report
  delivered : ℕ → Report
  created : Report
  pending : ℕ → List String → Report

pub record Finished (W : Type 0) : Type 0 where
  pub answer : Result Report
  pub host : Host
  pub world : W

module _ (clap : Clap) where
  unfoldable pub enroll_args : Matches → Result EnrollArgs
  enroll_args m = do
    server ← required m "server"
    name ← required m "name"
    code_file ← required m "code-file"
    ok (record {
      server = server;
      name = name;
      code_file = code_file;
      token_file = value_or m "token-file" "/etc/beacon/agent.token";
      allow_http = m.flag "allow-http";
      ca_file = m.value "ca-file";
    })

  unfoldable pub run_args : Matches → Result RunArgs
  unfolding number_or
  run_args m = do
    limit ← number_or clap m "limit" 100 u64_max
    max_attempts ← number_or clap m "max-attempts" 3 u64_max
    delay ← number_or clap m "retry-delay-seconds" 2 u64_max
    ok (record {
      server = value_or m "server" "https://127.0.0.1:8787";
      spool = value_or m "spool" "/var/lib/beacon/spool";
      token_file = value_or m "token-file" "/etc/beacon/agent.token";
      ca_file = m.value "ca-file";
      allow_http = m.flag "allow-http";
      limit = limit;
      max_attempts = max_attempts;
      retry_delay_seconds = delay;
    })

  -- The state and the severity are read by their `from_str`.
  unfoldable pub send_args : Matches → Result SendArgs
  send_args m = do
    event_type ← required m "event-type"
    source ← required m "source"
    host ← required m "host"
    state_text ← required m "state"
    state ← EventState.from_str state_text
    severity_text ← required m "severity"
    severity ← Severity.from_str severity_text
    fingerprint ← required m "fingerprint"
    ok (record {
      event_type = event_type;
      source = source;
      host = host;
      state = state;
      severity = severity;
      fingerprint = fingerprint;
      facts = value_or m "facts" "{}";
      spool = value_or m "spool" "/var/lib/beacon/spool";
      print_only = m.flag "print-only";
    })

  abbrev pub replay_args : Matches → ReplayArgs
  replay_args m = record { spool = value_or m "spool" "/var/lib/beacon/spool" }

  abbrev command_of : List String → Matches → Result Command
  command_of (name ∷ []) m =
      if name == "enroll"
      then (do args ← enroll_args m; ok (enroll_host args))
      else if name == "run"
      then (do args ← run_args m; ok (run args))
      else if name == "send"
      then (do args ← send_args m; ok (send args))
      else if name == "replay"
      then ok (replay (replay_args m))
      else err unknown_command
  command_of names m = err unknown_command

  -- `Cli::parse`
  unfoldable pub parse : List String → Result Command
  unfolding enroll_args run_args send_args
  parse line = do found ← clap.matches line; command_of found.0 found.1

abbrev pub enrollment_config : EnrollArgs → EnrollmentConfig
enrollment_config args = record {
  server = args.server;
  name = args.name;
  code_file = args.code_file;
  token_file = args.token_file;
  ca_file = args.ca_file;
  allow_http = args.allow_http;
}

-- The token is that of its file, which is read before the run.
abbrev pub agent_config : RunArgs → AgentConfig
agent_config args = record {
  server = args.server;
  spool = args.spool;
  token = "";
  ca_file = args.ca_file;
  allow_http = args.allow_http;
  limit = args.limit;
  max_attempts = args.max_attempts;
  retry_delay_seconds = args.retry_delay_seconds;
}

-- `post` and `submit` speak to the server.
module _ {W : Type 0} (clap : Clap) (paths : HostLibrary) (x : Formats) (lib : ClientLibrary)
    (json : Json) (post : EnrollmentRequest → W → Option Response × W)
    (submit : String → Event → W → Bool × W) where
  abbrev pub reported : {A : Type 0} → (A → Report) → Result A → Result Report
  reported report (err e) = err e
  reported report (ok a) = ok (report a)

  abbrev pub after_enroll : EnrollArgs → Host → Enrollment W → Finished W
  after_enroll args host o = record {
    answer = reported (λ _. enrolled) o.answer;
    host = with_left_text o.temporary (with_file args.token_file o.file host);
    world = o.world;
  }

  abbrev pub after_run : RunArgs → Host → Drained W → Finished W
  after_run args host o = record {
    answer = reported delivered o.delivered;
    host = with_spool args.spool o.spool host;
    world = o.world;
  }

  abbrev after_send : SendArgs → Host → W → Result (Unit {0}) × Spool → Finished W
  after_send args host w (answer, spool) = record {
    answer = reported (λ _. created) answer;
    host = with_spool args.spool spool host;
    world = w;
  }

  -- one command: `event_id` and `now` are the identifier and the time of a new event
  unfoldable pub execute : Command → String → String → Host → W → Finished W
  unfolding enroll Commands.run send_event replay_events
  execute (enroll_host args) event_id now host w = after_enroll args host (
      enroll post lib (enrollment_config args) (paths.secret_path args.token_file)
        (host.files args.code_file) (host.files args.token_file) w)
  execute (run args) event_id now host w = after_run args host (
      Commands.run x submit lib (agent_config args) (host.files args.token_file)
        (paths.spool_root args.spool) (host.spools args.spool) w)
  execute (send args) event_id now host w = after_send args host w (
      send_event x json args event_id now (paths.spool_root args.spool) paths.queue_steps
        (host.spools args.spool))
  execute (replay args) event_id now host w = record {
    answer =
        reported (λ (p : ℕ × List String). pending p.0 p.1)
          (replay_events x (paths.spool_root args.spool) (host.spools args.spool));
    host = host;
    world = w;
  }

  unfoldable pub main : List String → String → String → Host → W → Finished W
  unfolding parse execute
  main line event_id now host w = elim (parse clap line) [
    | err e ↦ record { answer = err e; host = host; world = w }
    | ok command ↦ execute command event_id now host w
  ]
