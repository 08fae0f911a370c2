-- ===== src/Lib.antt =====
-- Verification of beacon-alerts: the server's data model, rules, texts, store, notification queue,
-- HTTP routes and start, and the agent with its spool, its deliveries and its enrollment.
--
-- The program. Agents send events to a server (src/server.rs). The server checks an event (src/model.rs),
-- stores it, moves the alert of its fingerprint on and queues one notification for each channel
-- that the policy selects (src/policy.rs), all in one SQLite transaction. A worker claims the queued
-- jobs, sends them and marks them as sent or failed (src/notification.rs). The texts of the
-- notifications come from templates that the operator writes (src/notification.rs).
--
-- The files.
--   Prelude, Fallible: shared notation, tests on numbers, lists and texts; `Result` with the errors
--     of the program as one data type.
--   Model (src/model.rs): EventState, AlertStatus, Severity with `from_str` and `as_str`; Event,
--     AlertRecord; Validate has `Event::validate`.
--   Policy (src/policy.rs): rules, `matches`, `channels_for`; Validate and Channels.
--   Template (src/notification.rs): the configuration records; Scan has the text search that
--     `str::find` does, Render has `render_template`, Validate has `validate_template`, Catalog has
--     `MessageTemplates::validate`.
--   Message (src/notification.rs): `render_event` and `render_fields`.
--   Store (src/server.rs): the tables as lists of rows. Alerts has `load_alert`, `save_alert` and
--     `transition_alert`; Accept has `accept` and `enqueue_notifications`; Jobs has the queue
--     operations; Clock has `retry_time` of src/notification.rs. Lifecycle reads an alert off a history
--     of events. History has the databases that the transactions can reach, as a relation. Queue
--     has the laws of the queue. Dispatcher has `NotificationDispatcher` of src/notification.rs.
--     Enrollment has `create_enrollment` and `consume_enrollment`, Listing has `list_alerts` with the
--     order of its rows, and Schema has `initialize_database`.
--   SecretFile (src/server.rs): `write_secret_file`, with what a failing step leaves.
--   Http (src/server.rs): the credentials, `authorized`, and the handlers of the routes with their
--     statuses; Tokens, Events, Enrolled and Lists. Router has `build_router`, over the extractors.
--   Client (src/agent.rs): `build_client`.
--   Agent (src/spool.rs, src/agent.rs): the spool with `open`, `enqueue`, `list` and `remove`, and
--     `drain`. Network has `submit_event`, to the handler of Http, Follows and Stored
--     what the server then holds, Accepted and Delivers when it gets the whole batch.
--     Queueing has what a failed or successful `enqueue` leaves, Enroll `enroll`, `write_token` and
--     `read_token`, Commands the commands `send`, `replay` and `run` of src/bin/beacon-agent.rs, and
--     Program its arguments and its `main`, with the way in which a host joins.
--   Telegram (src/notification.rs): `TelegramConfig` and `TelegramChannel`; Fates, Told and Reached
--     follow a job, and an event, to its message.
--   Server (src/server.rs, src/bin/beacon-server.rs): `serve` until it listens, the
--     worker's loop, and `read_policy`; Program has the arguments and `main`, and Routes `router`.
--   Arguments (src/bin): options with their defaults and bounds.
--   Tests: runs at concrete inputs, and the theorems applied there.
--
-- State. A database is a record of tables in the order of insertion. A transaction is a function
-- that gives the database that is committed or an error, where an error leaves the database as it
-- was. SQLite runs writing transactions one after the other, so the histories are sequences. The
-- directory of the credentials is a list of its files, in which a failed step on the file system
-- leaves a temporary file. A start changes a data directory: it makes it with its lock file, and
-- initializes the database, from the tables that there are.
--
-- Numbers. `u64` addition is written with its wrap-around, `saturating_mul` and `as i64` as such;
-- INTEGER columns hold no count above 2^63 - 1. Lengths of texts are in bytes where the source
-- uses `len`, and in characters where it uses `chars`.
--
-- Loops over the text of a template run on fuel, one more than the size of the text. Each round
-- consumes at least a brace, so the fuel does not run out. The other loops go over lists, or over
-- the numbers of rounds and attempts that the program has itself.
--
-- Parameters. `Formats` stands for uuid, chrono's parser and serde_json, `Chrono` for the clock and
-- the printing of times, `Secrets` for SHA-256 and the parser of expiry times, `ClientLibrary`,
-- `TelegramLibrary`, `ServerLibrary` and `Json` for the crates and the files that the programs read,
-- `Clap` for finding the options on a command line, `SpoolRoot`, `QueueSteps`, `DataRoot`,
-- `SecretPath` and `Saving` for the steps on the file system, a channel's `send` and the
-- agent's `submit` for the network, on a state of the world outside, and an argument of
-- `list_alerts` for SQL's ordering of rows. An agent's request is lost, or it reaches the handler with
-- the event that was sent, whose answer is lost or not; between the requests the server takes the
-- events of others, and its workers claim, complete and fail jobs.
--
-- Not modelled: SQLite errors other than a failing commit of an enrollment or a failing
-- initialization, what axum's extractors
-- read, the pauses between runs and attempts, and what is printed.
pub mod Prelude
pub mod Fallible
pub mod Arguments
pub mod Model
pub mod Policy
pub mod Template
pub mod Message
pub mod Store
pub mod SecretFile
pub mod Http
pub mod Client
pub mod Telegram
pub mod Server
pub mod Agent
pub mod Tests
