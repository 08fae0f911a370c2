-- ===== src/Agent/Commands.antt =====
-- The commands of src/bin/beacon-agent.rs over the spool: `send`, `replay` and `run`.
pub mod Queued
use Prim.Native.String.{◌++◌ as append}
use beacon_alerts.Prelude.{ℕ, String, Bool, Option, List, map, length, if◌then◌else◌}
use beacon_alerts.Fallible.{Result, ok, err, ◌>>=◌, ◌>>◌, or_fail, bad_facts, encode_failed}
use beacon_alerts.Model.{Event, Value}
use beacon_alerts.Model.EventState
use beacon_alerts.Model.EventState.{EventState}
use beacon_alerts.Model.Severity
use beacon_alerts.Model.Severity.{Severity}
use beacon_alerts.Model.Validate.{Formats, validate}
use beacon_alerts.Client.{ClientLibrary}
use beacon_alerts.Agent.{
  AgentConfig, Drained, Spool, SpoolRoot, QueueSteps, open_spool, enqueue, list_pending, drain,
}
use beacon_alerts.Agent.Enroll.{read_token}

pub record SendArgs : Type 0 where
  pub event_type : String
  pub source : String
  pub host : String
  pub state : EventState
  pub severity : Severity
  pub fingerprint : String
  pub facts : String
  pub spool : String
  pub print_only : Bool

-- What the code asks of `serde_json`: the facts that a text is, and the printed event.
pub record Json : Type 0 where
  pub parse_facts : String → Option (List (String × Value))
  pub to_string_pretty : Event → Option String

-- the event of `send_event`, with a new identifier and the time
abbrev pub new_event : SendArgs → String → String → List (String × Value) → Event
new_event args event_id now facts = record {
  schema_version = 1;
  event_id = event_id;
  event_type = args.event_type;
  source = args.source;
  host_id = args.host;
  state = args.state;
  severity = args.severity;
  fingerprint = args.fingerprint;
  occurred_at = now;
  facts = facts;
}

module _ (x : Formats) where
  -- the event that is printed
  unfoldable pub printed_event : Json → SendArgs → String → String → Result Event
  printed_event json args event_id now = do
    facts ← or_fail (json.parse_facts args.facts) bad_facts
    validate x (new_event args event_id now facts)
    printed ← or_fail (json.to_string_pretty (new_event args event_id now facts)) encode_failed
    ok (new_event args event_id now facts)

  abbrev pub queue_in : SpoolRoot → QueueSteps → Spool → Event → Result (Unit {0}) × Spool
  queue_in root steps spool event = elim (open_spool root) [
    | err e ↦ (err e, spool)
    | ok _ ↦ enqueue x steps event spool
  ]

  -- The second result is the spool afterwards.
  unfoldable pub send_event :
      Json → SendArgs → String → String → SpoolRoot → QueueSteps → Spool → Result (Unit {0}) × Spool
  unfolding printed_event open_spool
  send_event json args event_id now root steps spool = elim (printed_event json args event_id now) [
    | err e ↦ (err e, spool)
    | ok event ↦ if args.print_only then (ok tt, spool) else queue_in root steps spool event
  ]

  abbrev pub describe : Event → String
  describe event = append event.event_id (
      append " " (
        append (EventState.as_str event.state)
          (append " " (append (Severity.as_str event.severity) (append " " event.event_type)))))

  -- the count and the lines that are printed
  unfoldable pub replay_events : SpoolRoot → Spool → Result (ℕ × List String)
  unfolding open_spool
  replay_events root spool = do
    open_spool root
    events ← list_pending x root spool
    ok (length events, map describe events)

  module _ {W : Type 0} (submit : String → Event → W → Bool × W) where
    abbrev run_with :
        ClientLibrary → AgentConfig → SpoolRoot → Spool → W → Result String → Drained W
    run_with lib config root spool w (err e) = record {
      delivered = err e;
      spool = spool;
      world = w;
    }
    run_with lib config root spool w (ok token) =
        drain (submit token) x lib (record config { token = token }) root spool w

    -- The command `run`: `file` is the text of the token file, whose token replaces that of
    -- `config`.
    unfoldable pub run :
        ClientLibrary → AgentConfig → Option String → SpoolRoot → Spool → W → Drained W
    run lib config file root spool w = run_with lib config root spool w (read_token file)
