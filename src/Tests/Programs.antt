-- ===== src/Tests/Programs.antt =====
-- Tests of the programs of src/bin/.
use Prim.Native.Nat.{ℕ}
use Prim.Native.String.{◌++◌ as append}
use beacon_alerts.Prelude.{
  String, ◌≡◌, refl, Bool, true, false, Option, none, some, List, [], ◌∷◌, any, trim, ◌==◌,
  if◌then◌else◌,
}
use beacon_alerts.Fallible.{Result, ok}
use beacon_alerts.Arguments.{Matches, Clap, number_or}
use beacon_alerts.SecretFile.{working, write_secret_file}
use beacon_alerts.Template.{default_templates}
use beacon_alerts.Template.Validate.{validate_template, is_allowed}
use beacon_alerts.Template.Scan.{split_at, size, has}
use beacon_alerts.Policy.Validate.{validate_channels}
use beacon_alerts.Model.{Event}
use beacon_alerts.Store.{Database}
use beacon_alerts.Store.Enrollment.{
  credential, Credentials, create_enrollment, hash_secret, insert_code, validate_agent_name,
  all_name_chars,
}
use beacon_alerts.Http.{authorized}
use beacon_alerts.Http.Enrolled.{bearer, credential_entries}
use beacon_alerts.Store.Schema.{new_file, initialize_database}
use beacon_alerts.Server.{Serving, with_tls, serve, read_policy, open_with_policy_and_templates}
use beacon_alerts.Server.Program as ServerProgram
use beacon_alerts.Server.Program.{CreateAgentArgs, agent, create, server_args, create_agent_args}
use beacon_alerts.Server.Program.Runs.{IsStartedBy, main-IsStartedBy}
use beacon_alerts.Agent.{drain}
use beacon_alerts.Agent.Program.{
  EnrollArgs, RunArgs, Host, HostLibrary, Finished, enrolled, enroll_host, run, agent_config,
  after_run, parse, enroll_args, run_args, main,
}
use beacon_alerts.Agent.Enroll.Grants.{exchange}
use beacon_alerts.Agent.Program.Joins.{main-joins}
use beacon_alerts.Tests.Samples.{formats, clock}
use beacon_alerts.Tests.Agents.{secrets, valid_name, some_code, some_token, root, built}
use beacon_alerts.Tests.Agents.{library as client}
use beacon_alerts.Tests.Runs.{library, answer, system, json, steps}

-- A command line is its commands, and then its options with two dashes, each flag with a text.
abbrev option_of : String → List String → Option String
option_of name [] = none
option_of name (a ∷ []) = none
option_of name (a ∷ (b ∷ rest)) =
    if a == append "--" name then some b else option_of name (b ∷ rest)

abbrev options : List String → Matches
options line = record {
  value = λ name. option_of name line;
  flag = λ name. any (λ text. text == append "--" name) line;
}

abbrev one_command : List String → Result (List String × Matches)
one_command [] = ok ([], options [])
one_command (a ∷ rest) = ok (a ∷ [], options rest)

abbrev two_commands : List String → Result (List String × Matches)
two_commands [] = ok ([], options [])
two_commands (a ∷ []) = ok (a ∷ [], options [])
two_commands (a ∷ (b ∷ rest)) = ok (a ∷ b ∷ [], options rest)

abbrev clap : Clap
clap = record { matches = one_command; number = λ text. if text == "60" then some 60 else none }

abbrev operator : Clap
operator = record clap { matches = two_commands }

abbrev paths : HostLibrary
paths = record { secret_path = λ path. working; spool_root = λ path. root; queue_steps = steps }

abbrev server_paths : ServerProgram.HostLibrary
server_paths = record {
  creates = λ path. true;
  secret_path = λ path. working;
  parse_policy = λ text. none;
}

abbrev issue : List String
issue =
    "agent" ∷ "create" ∷ "--name" ∷ "ops-1" ∷ "--code-file" ∷ "code" ∷ "--ttl-seconds" ∷ "60" ∷ []

abbrev join : List String
join = "enroll" ∷ "--server" ∷ "https://beacon" ∷ "--name" ∷ "ops-1" ∷ "--code-file" ∷ "code" ∷ []

abbrev start : List String
start = "run" ∷ "--limit" ∷ "60" ∷ []

abbrev issued : CreateAgentArgs
issued = record {
  name = "ops-1";
  data_dir = "/var/lib/beacon/events";
  credentials_dir = "/etc/beacon/agents.d";
  code_file = "code";
  ttl_seconds = 60;
}

abbrev joining : EnrollArgs
joining = record {
  server = "https://beacon";
  name = "ops-1";
  code_file = "code";
  token_file = "/etc/beacon/agent.token";
  allow_http = false;
  ca_file = none;
}

abbrev running : RunArgs
running = record {
  server = "https://127.0.0.1:8787";
  spool = "/var/lib/beacon/spool";
  token_file = "/etc/beacon/agent.token";
  ca_file = none;
  allow_http = false;
  limit = 60;
  max_attempts = 3;
  retry_delay_seconds = 2;
}

parsed_issue : ServerProgram.parse operator issue ≡ ok (agent (create issued))
unfolding ServerProgram.parse server_args create_agent_args number_or
parsed_issue = refl

parsed_join : parse clap join ≡ ok (enroll_host joining)
unfolding parse enroll_args
parsed_join = refl

parsed_start : parse clap start ≡ ok (run running)
unfolding parse run_args number_or
parsed_start = refl

abbrev server : ServerProgram.Host
server = record {
  files = λ path. none;
  temporaries = [];
  directories = λ path. record { made = false; lock = false; file = new_file };
}

-- The text of the code file is already there.
abbrev host : Host
host = record {
  files = λ path. if path == "code" then some "code\n" else none;
  temporaries = [];
  spools = λ path. record { pending = []; temporaries = [] };
}

abbrev submit : String → Event → Credentials × Database → Bool × (Credentials × Database)
submit token e w = (true, w)

abbrev post : String → String → String → List String → Option ℕ × List String
post = answer 503

copied :
    host.files "code"
    ≡ (ServerProgram.main operator server_paths system library post clock secrets issue "code"
          "2026" server).host.files
        "code"
unfolding ServerProgram.main ServerProgram.parse create_agent_args number_or
    ServerProgram.create_agent create_enrollment validate_agent_name all_name_chars insert_code
    hash_secret write_secret_file trim
copied = refl

abbrev offer : ServerProgram.Finished (List String)
offer =
    ServerProgram.main operator server_paths system library post clock secrets issue "code" "2026"
      server

abbrev joined : Finished (Credentials × Database)
joined =
    main clap paths formats client json (exchange clock secrets "2026-02" "token") submit join "id"
      "2026" host ([], initialize_database (offer.host.directories "/var/lib/beacon/events").file)

main-joins_example :
    (offer.answer ≡ ok none)
    × (joined.answer ≡ ok enrolled)
    × (joined.world.0 ≡ credential "ops-1" "token" ∷ [])
    × (authorized (bearer (trim "token")) (some (credential_entries joined.world.0)) ≡ true)
    × (main clap paths formats client json
          (exchange clock secrets "2026-02" "token")
          submit
          start
          "id"
          "2026"
          joined.host
          joined.world
        ≡ after_run clap paths formats client json
            (exchange clock secrets "2026-02" "token")
            submit
            running
            joined.host
            (drain
              (submit (trim "token"))
              formats
              client
              (record (agent_config running) { token = trim "token" })
              root
              (joined.host.spools "/var/lib/beacon/spool")
              joined.world))
unfolding initialize_database
main-joins_example =
    main-joins operator clap server_paths system library post paths formats client json clock
      secrets submit issue join start issued joining running "code" "token" "2026" "2026-02" "2027"
      "id" "2026" server host [] parsed_issue parsed_join parsed_start refl refl valid_name refl
      some_code some_token refl refl refl refl refl built refl refl refl refl refl copied

abbrev secure : List String
secure = "run" ∷ "--tls-cert" ∷ "server.pem" ∷ "--tls-key" ∷ "server.key" ∷ []

abbrev serving : Serving (List String)
serving = record {
  state = record {
    credentials = "/etc/beacon/agents.d";
    events = record { policy = record { rules = [] }; templates = default_templates };
  };
  worker = none;
  listener = with_tls "server.pem" "server.key";
}

served :
    (ServerProgram.main clap server_paths system library post clock secrets secure "code" "2026"
      server).answer
    ≡ ok (some serving)
unfolding ServerProgram.main ServerProgram.parse server_args number_or ServerProgram.start serve
    read_policy open_with_policy_and_templates beacon_alerts.Template.Catalog.validate
    validate_template is_allowed split_at size has beacon_alerts.Policy.Validate.validate
    validate_channels
served = refl

main-IsStartedBy_example :
    IsStartedBy clap server_paths secure server serving
      (ServerProgram.main clap server_paths system library post clock secrets secure "code" "2026"
        server).host
main-IsStartedBy_example =
    main-IsStartedBy clap server_paths system library post clock secrets secure "code" "2026" server
      serving served
