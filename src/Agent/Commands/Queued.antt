-- ===== src/Agent/Commands/Queued.antt =====
-- What `send` of src/bin/beacon-agent.rs leaves in the spool.
use beacon_alerts.Prelude.{
  suc, IsIn, String, ◌≡◌, refl, ◌⊎◌, inl, inr, false, some, List, map, length, All, sym, true,
  subst, Bool, if◌then◌else◌,
}
use beacon_alerts.Fallible.{
  Result, Error, ok, err, ok-injective, >>=-eq-ok, or_fail, or_fail-eq-ok, bad_facts, encode_failed,
  Result-cases,
}
use beacon_alerts.Model.{Event, Value}
use beacon_alerts.Model.Validate.{Formats, validate}
use beacon_alerts.Agent.{SpoolRoot, Spool, QueueSteps, open_spool}
use beacon_alerts.Agent.Delivery.{IsTidy}
use beacon_alerts.Agent.Queueing.{QueuedOrFailed, enqueue-QueuedOrFailed}
use beacon_alerts.Agent.Commands.{
  SendArgs, Json, queue_in, new_event, printed_event, send_event, describe, replay_events,
}

module _ (x : Formats) (json : Json) (args : SendArgs) (event_id now : String) (root : SpoolRoot)
    (steps : QueueSteps) (spool : Spool) where
  -- A valid event with the given fields is in the spool, and `replay` shows it.
  pub record Sent (after : Spool) : Type 0 where
    pub facts : List (String × Value)
    pub parsed : json.parse_facts args.facts ≡ some facts
    pub valid : validate x (new_event args event_id now facts) ≡ ok tt
    pub tidy : All (IsTidy x) after.pending
    pub events : List Event
    pub shown :
        replay_events x root after ≡ ok (suc (length spool.pending), map (describe x) events)
    pub among : IsIn (new_event args event_id now facts) events

  abbrev pub SentOrFailed : Result (Unit {0}) × Spool → Type 0
  SentOrFailed (answer, after) =
      ((answer ≡ ok tt) × Sent after)
      ⊎ ((error : Error) × (answer ≡ err error) × (after.pending ≡ spool.pending))

  printed_event-parsed :
      (e : Event)
      → printed_event x json args event_id now ≡ ok e
      → (facts : List (String × Value)) × (json.parse_facts args.facts ≡ some facts)
        × (e ≡ new_event args event_id now facts)
  unfolding printed_event
  printed_event-parsed e h =
      let (facts, parsed, h1) = >>=-eq-ok (or_fail (json.parse_facts args.facts) bad_facts) _ h in
      let (_, _, h2) = >>=-eq-ok (validate x (new_event args event_id now facts)) _ h1 in
      let (_, _, done) =
        >>=-eq-ok
          (or_fail (json.to_string_pretty (new_event args event_id now facts)) encode_failed) _
          h2 in
      (
        facts,
        or_fail-eq-ok (json.parse_facts args.facts) facts bad_facts parsed,
        sym (ok-injective _ e done),
      )

  queued-SentOrFailed :
      (facts : List (String × Value)) (r : Result (Unit {0}) × Spool)
      → json.parse_facts args.facts ≡ some facts
      → open_spool root ≡ ok tt
      → root.read ≡ true
      → QueuedOrFailed x (new_event args event_id now facts) spool r
      → SentOrFailed r
  unfolding replay_events
  queued-SentOrFailed facts (answer, after) parsed opened readable (inr failed) = inr failed
  queued-SentOrFailed facts (answer, after) parsed opened readable (inl (done, q)) = inl (
    done,
    record {
      facts = facts;
      parsed = parsed;
      valid = q.valid;
      tidy = q.tidy;
      events = q.events;
      shown = rw (opened, readable, q.listed, q.one_more, replay_events) refl;
      among = q.among;
    },
  )

  queue_in-SentOrFailed :
      (e : Event)
      → printed_event x json args event_id now ≡ ok e
      → All (IsTidy x) spool.pending
      → root.read ≡ true
      → SentOrFailed (queue_in x root steps spool e)
  queue_in-SentOrFailed e printed tidy readable = elim (Result-cases (open_spool root)) [
    | inr (error, failed) ↦ rw (failed, queue_in) (inr (error, refl, refl))
    | inl (_, opened) ↦
        let (facts, parsed, same) = printed_event-parsed e printed in
        rw (opened, queue_in)
          (queued-SentOrFailed facts _ parsed opened readable
            (rw (← same) (enqueue-QueuedOrFailed x steps e spool tidy)))
  ]

-- A `send` that does not only print, into a tidy spool whose directory can be read, whatever step
-- fails: either it succeeds, and has put a valid event with the given fields, the new identifier and
-- the parsed facts into the spool, which stays tidy, and `replay` then prints one line for each of
-- its events, one more than the spool had files, and one of them is for the new event; or it fails,
-- and the pending files are those from before.
pub send_event-SentOrFailed :
    (x : Formats) (json : Json) (args : SendArgs) (event_id now : String) (root : SpoolRoot)
    (steps : QueueSteps) (spool : Spool)
    → All (IsTidy x) spool.pending
    → args.print_only ≡ false
    → root.read ≡ true
    → SentOrFailed x json args event_id now root steps spool
        (send_event x json args event_id now root steps spool)
unfolding send_event
send_event-SentOrFailed x json args event_id now root steps spool tidy writes readable =
    elim (Result-cases (printed_event x json args event_id now)) [
      | inr (error, failed) ↦ rw (failed, send_event) (inr (error, refl, refl))
      | inl (e, printed) ↦
          rw (printed, send_event)
            (subst
              (λ (b : Bool).
                SentOrFailed x json args event_id now root steps spool
                  (if b then (ok tt, spool) else queue_in x root steps spool e))
              (sym writes)
              (queue_in-SentOrFailed x json args event_id now root steps spool e printed tidy
                readable))
    ]
