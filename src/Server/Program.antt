-- ===== src/Server/Program.antt =====
-- The program src/bin/beacon-server.rs: its arguments and its `main`.
pub mod Runs
use beacon_alerts.Prelude.{
  ℕ, String, true, false, Bool, Option, none, some, List, [], ◌∷◌, ◌==◌, if◌then◌else◌,
}
use beacon_alerts.Fallible.{
  Result, ok, err, ◌>>=◌, unknown_command, Error, panicked, constraint_violation,
}
use beacon_alerts.Arguments.{Matches, Clap, required, value_or, number_or, u32_max}
use beacon_alerts.Policy.{PolicyCatalog}
use beacon_alerts.SecretFile.{SecretPath}
use beacon_alerts.Store.{Database}
use beacon_alerts.Store.Schema.{initialize_database, file_of}
use beacon_alerts.Store.Clock.{Chrono, u64_max}
use beacon_alerts.Store.Enrollment.{Secrets, create_enrollment}
use beacon_alerts.Telegram.{TelegramLibrary}
use beacon_alerts.Server.{
  ServerConfig, ServerLibrary, Serving, DataDir, initialized, serve, read_policy,
}

pub record CreateAgentArgs : Type 0 where
  pub name : String
  pub data_dir : String
  pub credentials_dir : String
  pub code_file : String
  pub ttl_seconds : ℕ

pub record ServerArgs : Type 0 where
  pub bind : String
  pub data_dir : String
  pub credentials_dir : String
  pub policy_file : Option String
  pub tls_cert : Option String
  pub tls_key : Option String
  pub allow_http : Bool
  pub telegram_config : Option String
  pub notify_interval_seconds : ℕ
  pub notify_limit : ℕ
  pub notify_max_attempts : ℕ
  pub notify_retry_delay_seconds : ℕ

pub data AgentSubcommand : Type 0 where
  create : CreateAgentArgs → AgentSubcommand

pub data Command : Type 0 where
  run : ServerArgs → Command
  agent : AgentSubcommand → Command

-- The files and the data directories of a host, by their paths, and the texts of the temporary files
-- that were left on it.
pub record Host : Type 0 where
  pub files : String → Option String
  pub temporaries : List String
  pub directories : String → DataDir

abbrev pub with_file : String → Option String → Host → Host
with_file path text host = record host { files = λ p. if p == path then text else host.files p }

abbrev pub with_left_text : Option String → Host → Host
with_left_text none host = host
with_left_text (some text) host = record host { temporaries = text ∷ host.temporaries }

abbrev pub with_directory : String → DataDir → Host → Host
with_directory path dir host = record host {
  directories = λ p. if p == path then dir else host.directories p;
}

-- the directory with the database file
abbrev pub with_file_of : Database → DataDir → DataDir
with_file_of db dir = record dir { made = true; file = file_of db }

-- The errors that come after the database was initialized.
abbrev pub reached_database : Error → Bool
reached_database panicked = true
reached_database constraint_violation = true
reached_database e = false

-- Whether a directory can be made, how the writing of a secret to a path goes, and the policy that
-- a text is.
pub record HostLibrary : Type 0 where
  pub creates : String → Bool
  pub secret_path : String → SecretPath
  pub parse_policy : String → Option PolicyCatalog

-- The answer of the program, with the server that it then is, and the host that it leaves.
pub record Finished (W : Type 0) : Type 0 where
  pub answer : Result (Option (Serving W))
  pub host : Host

module _ (clap : Clap) where
  unfoldable pub server_args : Matches → Result ServerArgs
  unfolding number_or
  server_args m = do
    interval ← number_or clap m "notify-interval-seconds" 30 u64_max
    limit ← number_or clap m "notify-limit" 100 u64_max
    attempts ← number_or clap m "notify-max-attempts" 3 u32_max
    delay ← number_or clap m "notify-retry-delay-seconds" 30 u64_max
    ok (record {
      bind = value_or m "bind" "127.0.0.1:8787";
      data_dir = value_or m "data" "/var/lib/beacon/events";
      credentials_dir = value_or m "credentials-dir" "/etc/beacon/agents.d";
      policy_file = m.value "policy-file";
      tls_cert = m.value "tls-cert";
      tls_key = m.value "tls-key";
      allow_http = m.flag "allow-http";
      telegram_config = m.value "telegram-config";
      notify_interval_seconds = interval;
      notify_limit = limit;
      notify_max_attempts = attempts;
      notify_retry_delay_seconds = delay;
    })

  unfoldable pub create_agent_args : Matches → Result CreateAgentArgs
  unfolding number_or
  create_agent_args m = do
    name ← required m "name"
    code_file ← required m "code-file"
    ttl ← number_or clap m "ttl-seconds" 900 u64_max
    ok (record {
      name = name;
      data_dir = value_or m "data" "/var/lib/beacon/events";
      credentials_dir = value_or m "credentials-dir" "/etc/beacon/agents.d";
      code_file = code_file;
      ttl_seconds = ttl;
    })

  abbrev pub parse_agent : List String → Matches → Result Command
  parse_agent (name ∷ []) m =
      if name == "create"
      then (do args ← create_agent_args m; ok (agent (create args)))
      else err unknown_command
  parse_agent names m = err unknown_command

  abbrev pub command_of : List String → Matches → Result Command
  command_of [] m = err unknown_command
  command_of (name ∷ names) m =
      if name == "run"
      then (do args ← server_args m; ok (run args))
      else if name == "agent"
      then parse_agent names m
      else err unknown_command

  -- `Cli::parse`
  unfoldable pub parse : List String → Result Command
  unfolding server_args create_agent_args
  parse line = do found ← clap.matches line; command_of found.0 found.1

abbrev pub config_of : ServerArgs → PolicyCatalog → ServerConfig
config_of args policy = record {
  bind = args.bind;
  data_dir = args.data_dir;
  credentials_dir = args.credentials_dir;
  policy = policy;
  tls_cert = args.tls_cert;
  tls_key = args.tls_key;
  allow_http = args.allow_http;
  telegram_config = args.telegram_config;
  notify_interval_seconds = args.notify_interval_seconds;
  notify_limit = args.notify_limit;
  notify_max_attempts = args.notify_max_attempts;
  notify_retry_delay_seconds = args.notify_retry_delay_seconds;
}

module _ {T W : Type 0} (clap : Clap) (paths : HostLibrary) (lib : ServerLibrary)
    (telegram : TelegramLibrary) (post : String → String → String → W → Option ℕ × W)
    (ch : Chrono T) (x : Secrets T) where
  -- the command `run`
  unfoldable pub start : ServerArgs → Host → Result (Serving W) × DataDir
  unfolding serve read_policy
  start args host = elim (read_policy host.files paths.parse_policy args.policy_file) [
    | err e ↦ (err e, host.directories args.data_dir)
    | ok policy ↦ serve lib telegram post (config_of args policy) (host.directories args.data_dir)
  ]

  abbrev pub started : ServerArgs → Host → Result (Serving W) × DataDir → Finished W
  started args host (err e, dir) = record {
    answer = err e;
    host = with_directory args.data_dir dir host;
  }
  started args host (ok s, dir) = record {
    answer = ok (some s);
    host = with_directory args.data_dir dir host;
  }

  abbrev pub created :
      CreateAgentArgs → Host → Result Database × (Option String × Option String) → Finished W
  created args host (err e, (file, left)) =
      let wrote = with_left_text left (with_file args.code_file file host) in
      let dir = host.directories args.data_dir in
      record {
        answer = err e;
        host =
            if reached_database e
            then with_directory args.data_dir
                (record dir { made = true; file = initialized dir.file }) wrote
            else wrote;
      }
  created args host (ok db, (file, left)) = record {
    answer = ok none;
    host =
        with_directory args.data_dir (with_file_of db (host.directories args.data_dir))
          (with_left_text left (with_file args.code_file file host));
  }

  -- The command `agent create`: `code` is the new code.
  unfoldable pub create_agent : CreateAgentArgs → String → T → Host → Finished W
  unfolding create_enrollment initialize_database
  create_agent args code now host = created args host (
      create_enrollment ch x args.name code args.ttl_seconds now
        (paths.creates args.credentials_dir) (paths.secret_path args.code_file)
        (host.files args.code_file) (initialize_database (host.directories args.data_dir).file))

  unfoldable pub main : List String → String → T → Host → Finished W
  unfolding parse start create_agent
  main line code now host = elim (parse clap line) [
    | err e ↦ record { answer = err e; host = host }
    | ok (run args) ↦ started args host (start args host)
    | ok (agent (create args)) ↦ create_agent args code now host
  ]
