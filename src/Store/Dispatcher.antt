-- ===== src/Store/Dispatcher.antt =====
-- `NotificationDispatcher` of src/notification.rs: sending the due jobs through the channels.
pub mod Runs
pub mod Drains
use beacon_alerts.Prelude.{
  ℕ, zero, suc, ◌+◌, ◌≤◌, String, ◌≡◌, refl, sym, ap, subst, ◌∙◌, inl, inr, Bool, true, false, not,
  ◌&&◌, Option, none, some, List, [], ◌∷◌, arith, eqb, leb, find, is_nil, ◌==◌, if◌then◌else◌,
  Bool-cases, Option-cases,
}
use beacon_alerts.Fallible.{Result, ok, err, ◌>>=◌, ◌>>◌, guard, no_channels, no_attempts}
use beacon_alerts.Model.Validate.{Formats}
use beacon_alerts.Store.{Database, ServerEventStore}
use beacon_alerts.Store.Clock.{Chrono}
use beacon_alerts.Store.Jobs.{
  NotificationJob, NotificationFailureUpdate, claim_notification, complete_notification,
  fail_notification,
}
use beacon_alerts.Store.Queue.Settled.{Later, at_once, claiming, completing, failing}

pub data NotificationFailure : Type 0 where
  temporary : String → NotificationFailure
  permanent : String → NotificationFailure

-- What the code asks of an `anyhow::Error`: its downcast and its text.
pub record SendError : Type 0 where
  pub failure : Option NotificationFailure
  pub message : String

-- `W` is the state of the world outside; the answer of `send` is none for `Ok(())`.
pub record NotificationChannel (W : Type 0) : Type 0 where
  pub name : String
  pub send : NotificationJob → W → Option SendError × W

pub record NotificationDispatcher (W : Type 0) : Type 0 where
  pub channels : List (NotificationChannel W)
  pub max_attempts : ℕ
  pub retry_delay_seconds : ℕ

abbrev pub is_temporary : Option NotificationFailure → Bool
is_temporary none = true
is_temporary (some (temporary text)) = true
is_temporary (some (permanent text)) = false

abbrev pub failure_is_retryable : SendError → Bool
failure_is_retryable error = is_temporary error.failure

-- The answer of a delivery, and the database and the world that it leaves. A panic is an error.
pub record Outcome (W : Type 0) : Type 0 where
  pub delivered : Result ℕ
  pub db : Database
  pub world : W

abbrev pub new :
    {W : Type 0} → List (NotificationChannel W) → ℕ → ℕ → Result (NotificationDispatcher W)
new channels max_attempts retry_delay_seconds = do
  guard (not (is_nil channels)) no_channels
  guard (not (eqb max_attempts 0)) no_attempts
  ok (record {
    channels = channels;
    max_attempts = max_attempts;
    retry_delay_seconds = retry_delay_seconds;
  })

module _ {T W : Type 0} (ch : Chrono T) (d : NotificationDispatcher W) where
  abbrev record_failure : T → NotificationJob → String → Bool → Database → Result Database
  record_failure now job error retryable db =
      fail_notification ch job.id
        (record {
          attempts = job.attempts;
          error = error;
          max_attempts = d.max_attempts;
          retry_delay_seconds = d.retry_delay_seconds;
          retryable = retryable;
          now = now;
        })
        db

  abbrev pub after_failure : ℕ → Database → W → Result Database → Outcome W
  after_failure delivered db w (ok db') = record { delivered = ok delivered; db = db'; world = w }
  after_failure delivered db w (err e) = record { delivered = err e; db = db; world = w }

  -- the answer of the channel
  abbrev pub settle : T → NotificationJob → ℕ → Database → Option SendError × W → Outcome W
  settle now job delivered db (none, w) = record {
    delivered = ok (delivered + 1);
    db = complete_notification ch job.id now db;
    world = w;
  }
  settle now job delivered db (some error, w) =
      after_failure delivered db w
        (record_failure now job error.message (failure_is_retryable error) db)

  -- one claimed job
  unfoldable pub deliver : T → NotificationJob → ℕ → Database → W → Outcome W
  deliver now job delivered db w =
      elim (find (λ (c : NotificationChannel W). c.name == job.channel) d.channels) [
        | none ↦
            after_failure delivered db w
              (record_failure now job "notification channel is not configured" false db)
        | some channel ↦ settle now job delivered db (channel.send job w)
      ]

  -- the loop, `limit` more rounds
  unfoldable pub rounds : ℕ → T → ℕ → Database → W → Outcome W
  unfolding deliver
  rounds zero now delivered db w = record { delivered = ok delivered; db = db; world = w }
  rounds (suc limit) now delivered db w =
      let (claimed, db') = claim_notification ch now d.max_attempts db in
      elim claimed [
        | none ↦ record { delivered = ok delivered; db = db'; world = w }
        | some job ↦
            let outcome = deliver now job delivered db' w in
            elim outcome.delivered [
              | err e ↦ outcome
              | ok more ↦ rounds limit now more outcome.db outcome.world
            ]
      ]

  unfoldable pub deliver_due : T → Database → ℕ → W → Outcome W
  unfolding rounds
  deliver_due now db limit w = rounds limit now 0 db w
