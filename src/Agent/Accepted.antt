-- ===== src/Agent/Accepted.antt =====
-- Which events the server of src/server.rs accepts from an agent whose requests are all answered.
use beacon_alerts.Prelude.{
  ℕ, suc, ◌+◌, ◌≤◌, ◌<◌, String, ◌≡◌, refl, sym, subst, ap, ◌∙◌, ◌⊎◌, inl, inr, true, Option, none,
  some, List, [], ◌∷◌, arith, map, find, length, All, ◌==◌, Bool-cases,
}
use native.Mathlib.Nat.{le_trans}
use beacon_alerts.Fallible.{ok, same_some}
use beacon_alerts.Model.{Event, AlertRecord}
use beacon_alerts.Model.Validate.{Formats, validate}
use beacon_alerts.Store.{Database, ServerEventStore}
use beacon_alerts.Store.Accept.{Times}
use beacon_alerts.Store.Alerts.{i64_max, next_alert}
use beacon_alerts.Store.Lifecycle.{replay, state-cases}
use beacon_alerts.Store.Clock.{Chrono}
use beacon_alerts.Store.History.{History}
use beacon_alerts.Store.History.Mirror.{has_event_id}
use beacon_alerts.Http.{CredentialEntry, Response, authorized}
use beacon_alerts.Http.Enrolled.{bearer}
use beacon_alerts.Http.Events.{
  Encodes, Answers, denies, rejects, breaks, repeats, conflicts, overflows, stores,
  accept_event-Answers,
}
use beacon_alerts.Client.{is_success}
use beacon_alerts.Agent.{deliver_with_retry}
use beacon_alerts.Agent.Delivery.{Sends}
use beacon_alerts.Agent.Network.{answered, Network, post, submit_from, submit_event}
use beacon_alerts.Agent.Follows.{IsStored}

-- Each event is new, or the history has it with its encoding; none stands twice in the batch.
abbrev pub Fits : Formats → List Event → List Event → Type 0
Fits x log [] = Unit
Fits x log (e ∷ es) =
    ((find (has_event_id e.event_id) log ≡ none) × Fits x (e ∷ log) es)
    ⊎ (IsStored x log e × Fits x log es)

-- No alert has counted more events than there are.
next_alert-count :
    (e : Event) (o : Option AlertRecord) (n : ℕ)
    → ((a : AlertRecord) → o ≡ some a → a.event_count ≤ n)
    → (next_alert e o).event_count ≤ suc n
unfolding next_alert
next_alert-count e none n h = elim (state-cases e.state) [
  | inl s ↦ ground arith
  | inr (inl s) ↦ ground arith
  | inr (inr s) ↦ ground arith
]
next_alert-count e (some a) n h = elim (state-cases e.state) [
  | inl s ↦ ground (arith, h a refl)
  | inr (inl s) ↦ ground (arith, h a refl)
  | inr (inr s) ↦ ground (arith, h a refl)
]

replay-count :
    (fp : String) (log : List Event) (a : AlertRecord)
    → replay fp log ≡ some a
    → a.event_count ≤ length log
unfolding replay
replay-count fp [] a h = cc
replay-count fp (e ∷ log) a h = elim (Bool-cases (e.fingerprint == fp)) [
  | inl here ↦
      let same = same_some (next_alert e (replay fp log)) a (rw here at h) in
      subst (λ (b : AlertRecord). b.event_count ≤ suc (length log)) same
        (next_alert-count e (replay fp log) (length log) (replay-count fp log))
  | inr other ↦ le_trans (replay-count fp log a (rw other at h)) (omega arith)
]

-- The event is valid and encodes.
abbrev pub CanSend : Formats → Event → Type 0
CanSend x e = (validate x e ≡ ok tt) × ((s : String) × (x.to_string e ≡ some s))

module _ {T : Type 0} (x : Formats) (store : ServerEventStore) (ch : Chrono T) where
  -- The answer was a success, and what follows of the batch fits what the history is now.
  abbrev Accepted : List Event → Event → List Event → Response → Database → Type 0
  Accepted log e es r db' =
      (is_success r.status ≡ true)
      × ((log' : List Event) × History x store ch log' db'
          × Fits x log' es
          × (length log' ≤ suc (length log)))

  Answers-Accepted :
      {header : Option String} {directory : Option (List CredentialEntry)} {log : List Event}
      {e : Event} {db db' : Database} {r : Response} (es : List Event)
      → authorized header directory ≡ true
      → validate x e ≡ ok tt
      → (s : String) → x.to_string e ≡ some s
      → length log < i64_max
      → Fits x log (e ∷ es)
      → History x store ch log db
      → Answers x store ch header directory log e db r db'
      → Accepted log e es r db'
  Answers-Accepted es admitted valid s enc room fits h (denies shut) = cc (admitted, shut)
  Answers-Accepted es admitted valid s enc room fits h (rejects error o v) = cc (valid, v)
  Answers-Accepted es admitted valid s enc room fits h (breaks o bad) = cc (enc, bad)
  Answers-Accepted {log = log} es admitted valid s enc room fits h
        (repeats e' a o known alike found) =
      elim fits [
        | inl (new, _) ↦ cc (new, known)
        | inr (_, rest) ↦ (refl, (log, h, rest, omega arith))
      ]
  Answers-Accepted es admitted valid s enc room fits h (conflicts e' o known differs) = elim fits [
    | inl (new, _) ↦ cc (new, known)
    | inr ((f, found, same), _) ↦
        absurd (differs (same ∙ ap x.to_string (same_some f e' (sym found ∙ known))))
  ]
  Answers-Accepted {log = log} {e = e} es admitted valid s enc room fits h (overflows o new full) =
      absurd (
        omega (
          arith,
          full,
          room,
          next_alert-count e (replay e.fingerprint log) (length log)
              (replay-count e.fingerprint log),
        ))
  Answers-Accepted {log = log} {e = e} es admitted valid s enc room fits h
        (stores db' o new reached) =
      elim fits [
        | inl (_, rest) ↦ (refl, (e ∷ log, reached, rest, omega arith))
        | inr ((f, found, _), _) ↦ cc (new, found)
      ]

  module _ (token : String) (directory : Option (List CredentialEntry)) (max_attempts : ℕ)
      (encodes : Encodes x) (admitted : authorized (bearer token) directory ≡ true) where
    answered-sent :
        (t : Times) (times : List Times) (e : Event) (db : Database)
        → is_success (post x store token directory t e db).0.status ≡ true
        → deliver_with_retry
            (submit_event x store ch token directory)
            (suc max_attempts)
            e
            (record { db = db; attempts = answered t ∷ map answered times })
          ≡ (
            true,
            record { db = (post x store token directory t e db).1; attempts = map answered times },
          )
    unfolding deliver_with_retry submit_event submit_from
    answered-sent t times e db taken =
        rw (taken, deliver_with_retry, submit_event, submit_from) refl

    -- Requests that are all answered send a batch of such events.
    pub answered-Sends :
        (events : List Event) (times : List Times) (log : List Event) (db : Database)
        → All (CanSend x) events
        → length events ≤ length times
        → length log + length events ≤ i64_max
        → Fits x log events
        → History x store ch log db
        → (w' : Network T) × Sends
            (submit_event x store ch token directory)
            (suc max_attempts)
            events
            (record { db = db; attempts = map answered times })
            w'
    answered-Sends [] times log db can enough room fits h = (_, refl)
    answered-Sends (e ∷ es) [] log db can enough room fits h = absurd (omega (arith, enough))
    answered-Sends (e ∷ es) (t ∷ times) log db ((valid, (s, enc)), can) enough room fits h =
        let (taken, (log', h', fits', grown)) =
          Answers-Accepted es admitted valid s enc (omega (arith, room)) fits h
            (accept_event-Answers x store ch t (bearer token) directory log e db encodes h) in
        let (w', rest) =
          answered-Sends es times log' (post x store token directory t e db).1 can
            (omega (arith, enough)) (omega (arith, room, grown)) fits' h' in
        (w', (_, answered-sent t times e db taken, rest))
