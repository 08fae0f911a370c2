-- ===== src/Agent.antt =====
-- The agent: the spool of src/spool.rs, and `drain` of src/agent.rs, which sends its events.
pub mod Delivery
pub mod Queueing
pub mod Network
pub mod Follows
pub mod Stored
pub mod Accepted
pub mod Delivers
pub mod Enroll
pub mod Commands
pub mod Program
use Prim.Native.String.{◌++◌ as append}
use beacon_alerts.Prelude.{
  ℕ, zero, suc, ◌+◌, String, Bool, true, false, not, ◌&&◌, Option, none, some, List, [], ◌∷◌, any,
  contains, take, eqb, is_blank, ◌==◌, if◌then◌else◌,
}
use beacon_alerts.Fallible.{
  Result, ok, err, ◌>>=◌, ◌>>◌, guard, or_fail, already_queued, temporary_exists, undecodable,
  encode_failed, missing_file, empty_token, no_retries, send_failed, io_failed, spool_locked,
}
use beacon_alerts.Model.{Event}
use beacon_alerts.Model.Validate.{Formats, validate}
use beacon_alerts.Client.{ClientLibrary, build_client}
use beacon_alerts.Store.Clock.{text_le}

-- A file of the pending directory; the event is none where the file cannot be opened or does not
-- decode.
pub record SpoolFile : Type 0 where
  pub name : String
  pub event : Option Event

-- The files with the extension `json` in the order of their names, and the temporary files.
pub record Spool : Type 0 where
  pub pending : List SpoolFile
  pub temporaries : List String

-- Whether the steps on a spool succeed. Those of opening it: making its directories, restricting
-- both, opening the lock file, and taking the lock, which fails while another process holds it. Then
-- reading the pending directory, and removing the file of an event.
pub record SpoolRoot : Type 0 where
  pub created : Bool
  pub root_restricted : Bool
  pub pending_restricted : Bool
  pub lock_opened : Bool
  pub lock_taken : Bool
  pub read : Bool
  pub removes : Event → Bool

unfoldable pub open_spool : SpoolRoot → Result (Unit {0})
open_spool root = do
  guard root.created io_failed
  guard root.root_restricted io_failed
  guard root.pending_restricted io_failed
  guard root.lock_opened io_failed
  guard root.lock_taken spool_locked

abbrev pub file_name : Event → String
file_name event = append event.event_id ".json"

abbrev pub temporary_name : Event → String
temporary_name event = append "." (append event.event_id ".tmp")

-- a new file at its place in the order
unfoldable pub insert_file : SpoolFile → List SpoolFile → List SpoolFile
insert_file file [] = file ∷ []
insert_file file (f ∷ files) =
    if text_le file.name f.name then file ∷ f ∷ files else f ∷ insert_file file files

unfoldable pub remove_file : String → List SpoolFile → Result (List SpoolFile)
remove_file name [] = err missing_file
remove_file name (f ∷ files) = elim (f.name == name) [
  | true ↦ ok files
  | false ↦ do rest ← remove_file name files; ok (f ∷ rest)
]

-- Whether the steps of queueing an event succeed: encoding it, creating the temporary file, writing
-- it, which includes the line break and the synchronisation, and renaming it.
pub record QueueSteps : Type 0 where
  pub encoded : Bool
  pub created : Bool
  pub written : Bool
  pub renamed : Bool

abbrev pub event_file : Event → SpoolFile
event_file event = record { name = file_name event; event = some event }

-- the spool with the temporary file of an event
abbrev pub with_temporary : Event → Spool → Spool
with_temporary event spool = record spool { temporaries = temporary_name event ∷ spool.temporaries }

-- the spool with the file of an event
abbrev pub with_event : Event → Spool → Spool
with_event event spool = record spool { pending = insert_file (event_file event) spool.pending }

module _ (x : Formats) where
  -- The steps up to the temporary file leave the spool as it was when one of them fails.
  unfoldable pub prepare : QueueSteps → Event → Spool → Result (Unit {0})
  prepare steps event spool = do
    validate x event
    guard (not (any (λ f. f.name == file_name event) spool.pending)) already_queued
    guard steps.encoded encode_failed
    guard (not (contains spool.temporaries (temporary_name event))) temporary_exists
    guard steps.created io_failed

  -- The second result is the spool afterwards: a step that fails later leaves the temporary file,
  -- and the rename puts it into its place.
  unfoldable pub enqueue : QueueSteps → Event → Spool → Result (Unit {0}) × Spool
  unfolding insert_file prepare
  enqueue steps event spool = elim (prepare steps event spool) [
    | err e ↦ (err e, spool)
    | ok _ ↦
        if steps.written && steps.renamed
        then (ok tt, with_event event spool)
        else (err io_failed, with_temporary event spool)
  ]

  unfoldable pub list : List SpoolFile → Result (List Event)
  list [] = ok []
  list (f ∷ files) = do
    event ← or_fail f.event undecodable
    validate x event
    events ← list files
    ok (event ∷ events)

  -- `Spool::list`, with the reading of the directory
  abbrev pub list_pending : SpoolRoot → Spool → Result (List Event)
  list_pending root spool = do guard root.read io_failed; list spool.pending

unfoldable pub remove : (Event → Bool) → Event → Spool → Result Spool
unfolding remove_file
remove removes event spool = do
  guard (removes event) io_failed
  pending ← remove_file (file_name event) spool.pending
  ok (record spool { pending = pending })

pub record AgentConfig : Type 0 where
  pub server : String
  pub spool : String
  pub token : String
  pub ca_file : Option String
  pub allow_http : Bool
  pub limit : ℕ
  pub max_attempts : ℕ
  pub retry_delay_seconds : ℕ

-- The answer of `drain`, and the spool and the world that it leaves.
pub record Drained (W : Type 0) : Type 0 where
  pub delivered : Result ℕ
  pub spool : Spool
  pub world : W

-- `submit` is `submit_event`: whether the server answered with success, and the world after it.
module _ {W : Type 0} (submit : Event → W → Bool × W) where
  -- the attempts that are left; the pauses between them are not modelled
  unfoldable pub deliver_with_retry : ℕ → Event → W → Bool × W
  deliver_with_retry zero event w = (false, w)
  deliver_with_retry (suc attempts) event w =
      let (sent, w') = submit event w in
      elim sent [ true ↦ (true, w') | false ↦ deliver_with_retry attempts event w' ]

  -- the loop over the events
  unfoldable pub send_all : (Event → Bool) → ℕ → List Event → ℕ → Spool → W → Drained W
  unfolding deliver_with_retry remove
  send_all removes max_attempts [] delivered spool w = record {
    delivered = ok delivered;
    spool = spool;
    world = w;
  }
  send_all removes max_attempts (event ∷ events) delivered spool w =
      let (sent, w') = deliver_with_retry max_attempts event w in
      elim sent [
        | false ↦ record { delivered = err send_failed; spool = spool; world = w' }
        | true ↦ elim (remove removes event spool) [
          | err e ↦ record { delivered = err e; spool = spool; world = w' }
          | ok spool' ↦ send_all removes max_attempts events (delivered + 1) spool' w'
        ]
      ]

  abbrev begin : (Event → Bool) → ℕ → ℕ → Spool → W → Result (List Event) → Drained W
  begin removes max_attempts limit spool w (err e) = record {
    delivered = err e;
    spool = spool;
    world = w;
  }
  begin removes max_attempts limit spool w (ok events) =
      send_all removes max_attempts (take limit events) 0 spool w

  unfoldable pub drain : Formats → ClientLibrary → AgentConfig → SpoolRoot → Spool → W → Drained W
  unfolding send_all list open_spool
  drain x lib config root spool w = begin root.removes config.max_attempts config.limit spool w (do
    guard (not (is_blank config.token)) empty_token
    guard (not (eqb config.max_attempts 0)) no_retries
    open_spool root
    build_client lib config.server config.ca_file config.allow_http
    list_pending x root spool)
