-- ===== src/Server.antt =====
-- Starting the server: `serve` of src/server.rs, and `read_policy` and the command `run` of
-- src/bin/beacon-server.rs.
pub mod Starts
pub mod Works
pub mod Program
pub mod Routes
use beacon_alerts.Prelude.{
  ℕ, String, Bool, true, false, not, if◌then◌else◌, Option, none, some, List, [], ◌∷◌, eqb,
}
use beacon_alerts.Fallible.{
  Result, ok, err, ◌>>=◌, ◌>>◌, guard, or_fail, io_failed, undecodable, invalid_bind, no_directory,
  data_locked, empty_interval, empty_limit, no_tls, half_tls, panicked,
}
use beacon_alerts.Policy.{PolicyCatalog}
use beacon_alerts.Policy.Validate
use beacon_alerts.Template.{MessageTemplates, default_templates}
use beacon_alerts.Template.Catalog
use beacon_alerts.Store.{Database, ServerEventStore}
use beacon_alerts.Store.Schema.{StoredFile, initialize_database, file_of}
use beacon_alerts.Store.Clock.{Chrono}
use beacon_alerts.Store.Dispatcher.{NotificationDispatcher, new, deliver_due}
use beacon_alerts.Telegram.{TelegramConfig, TelegramLibrary, load, from_config, as_channel}

pub record ServerConfig : Type 0 where
  pub bind : String
  pub data_dir : String
  pub credentials_dir : String
  pub policy : PolicyCatalog
  pub tls_cert : Option String
  pub tls_key : Option String
  pub allow_http : Bool
  pub telegram_config : Option String
  pub notify_interval_seconds : ℕ
  pub notify_limit : ℕ
  pub notify_max_attempts : ℕ
  pub notify_retry_delay_seconds : ℕ

-- Whether the steps of opening a data directory succeed: making it, opening its lock file, taking
-- the lock, which fails while another server holds it, and opening the database. Where initializing
-- the database fails, `spoilt` is the file that this leaves.
pub record DataRoot : Type 0 where
  pub created : Bool
  pub lock_opened : Bool
  pub lock_taken : Bool
  pub database_opened : Bool
  pub spoilt : Option StoredFile

-- A data directory: whether it and its lock file are there, and the tables of its database file.
pub record DataDir : Type 0 where
  pub made : Bool
  pub lock : Bool
  pub file : StoredFile

abbrev pub initialized : StoredFile → StoredFile
initialized file = file_of (initialize_database file)

-- the directory with its lock and its database
abbrev pub opened : DataDir → DataDir
opened dir = record { made = true; lock = true; file = initialized dir.file }

-- What the code asks of the system: whether a text is an address, whether a path is a directory,
-- the data directories, whether a certificate and a key load, whether an address can be bound, and
-- whether a thread starts.
pub record ServerLibrary : Type 0 where
  pub is_address : String → Bool
  pub is_dir : String → Bool
  pub data_root : String → DataRoot
  pub loads_tls : String → String → Bool
  pub binds : String → Bool
  pub spawns : Bool

-- opening the database, with the lock file there
abbrev open_database :
    DataRoot → PolicyCatalog → MessageTemplates → DataDir → Result ServerEventStore × DataDir
open_database root policy templates dir =
    elim (do guard root.lock_taken data_locked; guard root.database_opened io_failed) [
      | err e ↦ (err e, dir)
      | ok _ ↦ elim root.spoilt [
        | some file ↦ (err io_failed, record dir { file = file })
        | none ↦ (
          ok (record { policy = policy; templates = templates }),
          record dir { file = initialized dir.file },
        )
      ]
    ]

-- opening the lock file, with the directory there
abbrev open_lock :
    DataRoot → PolicyCatalog → MessageTemplates → DataDir → Result ServerEventStore × DataDir
open_lock root policy templates dir =
    if root.lock_opened
    then open_database root policy templates (record dir { lock = true })
    else (err io_failed, dir)

-- The second result is the data directory afterwards.
unfoldable pub open_with_policy_and_templates :
    DataRoot → PolicyCatalog → MessageTemplates → DataDir → Result ServerEventStore × DataDir
open_with_policy_and_templates root policy templates dir =
    elim (do Validate.validate policy; Catalog.validate templates; guard root.created io_failed) [
      | err e ↦ (err e, dir)
      | ok _ ↦ open_lock root policy templates (record dir { made = true })
    ]

pub record ServerState : Type 0 where
  pub credentials : String
  pub events : ServerEventStore

-- A worker in the background: it delivers the due jobs again and again.
pub record Worker (W : Type 0) : Type 0 where
  pub dispatcher : NotificationDispatcher W
  pub interval_seconds : ℕ
  pub limit : ℕ

pub data Listener : Type 0 where
  with_tls : String → String → Listener
  without_tls : Listener

-- What a server that has started runs.
pub record Serving (W : Type 0) : Type 0 where
  pub state : ServerState
  pub worker : Option (Worker W)
  pub listener : Listener

-- `unwrap_or_default` on the templates of the configuration
abbrev pub templates_of : Option TelegramConfig → MessageTemplates
templates_of none = default_templates
templates_of (some config) = config.templates

-- `CredentialStore::new`: the directory has to be there.
abbrev pub open_credentials : ServerLibrary → String → Result String
open_credentials lib directory = do guard (lib.is_dir directory) no_directory; ok directory

abbrev pub with_store : String → Result ServerEventStore × DataDir → Result ServerState × DataDir
with_store credentials (err e, dir) = (err e, dir)
with_store credentials (ok events, dir) =
    (ok (record { credentials = credentials; events = events }), dir)

abbrev pub server_state :
    ServerLibrary
    → String
    → String
    → PolicyCatalog
    → MessageTemplates
    → DataDir
    → Result ServerState × DataDir
server_state lib data_dir credentials_dir policy templates dir =
    elim (open_credentials lib credentials_dir) [
      | err e ↦ (err e, dir)
      | ok credentials ↦
          with_store credentials
            (open_with_policy_and_templates (lib.data_root data_dir) policy templates dir)
    ]

module _ {W : Type 0} (lib : ServerLibrary) (telegram : TelegramLibrary)
    (post : String → String → String → W → Option ℕ × W) where
  -- `as_deref().map(TelegramConfig::load).transpose()`
  abbrev pub load_telegram : Option String → Result (Option TelegramConfig)
  load_telegram none = ok none
  load_telegram (some path) = do config ← load telegram path; ok (some config)

  abbrev pub spawn_notification_worker : NotificationDispatcher W → ℕ → ℕ → Result (Worker W)
  spawn_notification_worker dispatcher interval_seconds limit = do
    guard (not (eqb interval_seconds 0)) empty_interval
    guard (not (eqb limit 0)) empty_limit
    guard lib.spawns io_failed
    ok (record { dispatcher = dispatcher; interval_seconds = interval_seconds; limit = limit })

  -- the worker, where Telegram is configured
  abbrev pub start_worker : ServerConfig → Option TelegramConfig → Result (Option (Worker W))
  start_worker args none = ok none
  start_worker args (some config) = do
    channel ← from_config telegram config
    dispatcher ←
        new (as_channel telegram post channel ∷ []) args.notify_max_attempts
          args.notify_retry_delay_seconds
    worker ← spawn_notification_worker dispatcher args.notify_interval_seconds args.notify_limit
    ok (some worker)

  -- the match on the certificate and the key
  abbrev pub listen : String → Bool → Option String → Option String → Result Listener
  listen bind allow_http (some cert) (some key) = do
    guard (lib.loads_tls cert key) io_failed
    guard (lib.binds bind) io_failed
    ok (with_tls cert key)
  listen bind allow_http none none = do
    guard allow_http no_tls
    guard (lib.binds bind) io_failed
    ok without_tls
  listen bind allow_http (some cert) none = err half_tls
  listen bind allow_http none (some key) = err half_tls

  -- the worker and the listener, with the state of the server
  abbrev pub serve_with :
      ServerConfig
      → Option TelegramConfig
      → Result ServerState × DataDir
      → Result (Serving W) × DataDir
  serve_with args config (err e, dir) = (err e, dir)
  serve_with args config (ok state, dir) = (
    do
      worker ← start_worker args config
      listener ← listen args.bind args.allow_http args.tls_cert args.tls_key
      ok (record { state = state; worker = worker; listener = listener }),
    dir,
  )

  -- `serve`, until it answers requests; the second result is the data directory then
  unfoldable pub serve : ServerConfig → DataDir → Result (Serving W) × DataDir
  unfolding open_with_policy_and_templates
  serve args dir =
      elim (do guard (lib.is_address args.bind) invalid_bind; load_telegram args.telegram_config) [
        | err e ↦ (err e, dir)
        | ok config ↦ serve_with args config (
            server_state lib args.data_dir args.credentials_dir args.policy (templates_of config)
              dir)
      ]

-- A panic ends the thread of the worker; an error is printed.
abbrev pub goes_on : Result ℕ → Bool
goes_on (ok delivered) = true
goes_on (err panicked) = false
goes_on (err e) = true

-- The loop of the worker, for the times at which it runs.
unfoldable pub run_worker :
    {T W : Type 0} → Chrono T → Worker W → List T → Database → W → Database × W
run_worker ch worker [] db w = (db, w)
run_worker ch worker (now ∷ times) db w =
    let outcome = deliver_due ch worker.dispatcher now db worker.limit w in
    elim (goes_on outcome.delivered) [
      | true ↦ run_worker ch worker times outcome.db outcome.world
      | false ↦ (outcome.db, outcome.world)
    ]

-- `read` is the text of a file, and `parse` the policy that a text is.
unfoldable pub read_policy :
    (String → Option String)
    → (String → Option PolicyCatalog)
    → Option String
    → Result PolicyCatalog
read_policy read parse none = ok (record { rules = [] })
read_policy read parse (some path) = do
  text ← or_fail (read path) io_failed
  policy ← or_fail (parse text) undecodable
  Validate.validate policy
  ok policy
