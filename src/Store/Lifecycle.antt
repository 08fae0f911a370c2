-- ===== src/Store/Lifecycle.antt =====
-- The life of an alert, read off the history of its events (the newest first).
use beacon_alerts.Prelude.{
  ◌≤◌, String, ◌≡◌, refl, ◌⊎◌, inl, inr, Bool, true, false, not, ◌&&◌, Option, none, some, List, [],
  ◌∷◌, arith, eqb, find, ◌==◌, eq_iff, Bool-cases, if◌then◌else◌,
}
use beacon_alerts.Model.{Event, AlertRecord}
use beacon_alerts.Model.EventState
use beacon_alerts.Model.EventState.{EventState}
use beacon_alerts.Model.AlertStatus
use beacon_alerts.Model.AlertStatus.{AlertStatus}
use beacon_alerts.Store.Alerts.{next_alert, i64_max}

-- The alert that a history of accepted events leaves under a fingerprint.
unfoldable pub replay : String → List Event → Option AlertRecord
replay fp [] = none
replay fp (event ∷ older) =
    if event.fingerprint == fp then some (next_alert event (replay fp older)) else replay fp older

abbrev pub is_open : Option AlertRecord → Bool
is_open none = false
is_open (some alert) = AlertStatus.eq alert.status AlertStatus.firing

-- The event fires or resolves the alert of the fingerprint.
abbrev pub signals : String → Event → Bool
signals fp event = event.fingerprint == fp && not (EventState.eq event.state EventState.info)

abbrev pub is_firing : Option Event → Bool
is_firing none = false
is_firing (some event) = EventState.eq event.state EventState.firing

next_alert-firing :
    (e : Event) (o : Option AlertRecord)
    → e.state ≡ EventState.firing
    → is_open (some (next_alert e o)) ≡ true
unfolding next_alert
next_alert-firing e none h = ground arith
next_alert-firing e (some a) h = ground arith

next_alert-resolved :
    (e : Event) (o : Option AlertRecord)
    → e.state ≡ EventState.resolved
    → is_open (some (next_alert e o)) ≡ false
unfolding next_alert
next_alert-resolved e none h = ground arith
next_alert-resolved e (some a) h = ground arith

next_alert-info :
    (e : Event) (o : Option AlertRecord)
    → e.state ≡ EventState.info
    → is_open (some (next_alert e o)) ≡ is_open o
unfolding next_alert
next_alert-info e none h = ground arith
next_alert-info e (some a) h = ground arith

pub state-cases :
    (s : EventState) → (s ≡ EventState.firing) ⊎ ((s ≡ EventState.resolved) ⊎ (s ≡ EventState.info))
state-cases EventState.firing = inl refl
state-cases EventState.resolved = inr (inl refl)
state-cases EventState.info = inr (inr refl)

-- An alert is open exactly when the newest event of its fingerprint that is not informational is
-- a firing one.
pub is_open-replay :
    (fp : String) (log : List Event) → is_open (replay fp log) ≡ is_firing (find (signals fp) log)
unfolding replay
is_open-replay fp [] = refl
is_open-replay fp (e ∷ log) = elim (Bool-cases (e.fingerprint == fp)) [
  | inr other ↦ rw other (is_open-replay fp log)
  | inl same ↦ elim (state-cases e.state) [
    | inl s ↦ ground (arith, same, s, next_alert-firing e (replay fp log) s)
    | inr (inl s) ↦ ground (arith, same, s, next_alert-resolved e (replay fp log) s)
    | inr (inr s) ↦
        ground (arith, same, s, next_alert-info e (replay fp log) s, is_open-replay fp log)
  ]
]

abbrev pub has_text : Option String → Bool
has_text none = false
has_text (some s) = true

-- What the record of a fingerprint says of the newest event `e` of the fingerprint.
pub record Reports (fp : String) (e : Event) (a : AlertRecord) : Type 0 where
  pub fingerprint : a.fingerprint ≡ fp
  pub last_event_id : a.last_event_id ≡ e.event_id
  pub last_seen : a.last_seen ≡ e.occurred_at
  pub resolved_at : has_text a.resolved_at ≡ AlertStatus.eq a.status AlertStatus.resolved

-- the resolution time of an alert stands for its status
abbrev pub IsTimed : Option AlertRecord → Type 0
IsTimed none = Unit {0}
IsTimed (some a) = has_text a.resolved_at ≡ AlertStatus.eq a.status AlertStatus.resolved

abbrev pub IsUnder : String → Option AlertRecord → Type 0
IsUnder fp none = Unit {0}
IsUnder fp (some a) = a.fingerprint ≡ fp

next_alert-Reports :
    (fp : String) (e : Event) (o : Option AlertRecord)
    → e.fingerprint ≡ fp
    → IsTimed o
    → IsUnder fp o
    → Reports fp e (next_alert e o)
unfolding next_alert
next_alert-Reports fp e none h t u = elim (state-cases e.state) [
  | inl s ↦ ground arith
  | inr (inl s) ↦ ground arith
  | inr (inr s) ↦ ground arith
]
next_alert-Reports fp e (some a) h t u = elim (state-cases e.state) [
  | inl s ↦ ground arith
  | inr (inl s) ↦ ground arith
  | inr (inr s) ↦ ground arith
]

-- The newest event of a fingerprint and its record, or neither.
abbrev pub Reported : String → Option Event → Option AlertRecord → Type 0
Reported fp none none = Unit {0}
Reported fp (some e) (some a) = Reports fp e a
Reported fp _ _ = ⊥

Reported-IsTimed :
    (fp : String) (e : Option Event) (o : Option AlertRecord) → Reported fp e o → IsTimed o
Reported-IsTimed fp none none r = tt
Reported-IsTimed fp (some e) (some a) r = r.resolved_at
Reported-IsTimed fp none (some a) r = absurd r
Reported-IsTimed fp (some e) none r = tt

Reported-IsUnder :
    (fp : String) (e : Option Event) (o : Option AlertRecord) → Reported fp e o → IsUnder fp o
Reported-IsUnder fp none none r = tt
Reported-IsUnder fp (some e) (some a) r = r.fingerprint
Reported-IsUnder fp none (some a) r = absurd r
Reported-IsUnder fp (some e) none r = tt

-- There is a record of a fingerprint exactly when the history has an event of it. The record then
-- carries the fingerprint, the identifier and the time of the newest such event, and it has a
-- resolution time exactly when its status is resolved.
pub replay-Reported :
    (fp : String) (log : List Event)
    → Reported fp (find (λ e. e.fingerprint == fp) log) (replay fp log)
unfolding replay
replay-Reported fp [] = tt
replay-Reported fp (e ∷ log) = elim (Bool-cases (e.fingerprint == fp)) [
  | inr other ↦ rw other (replay-Reported fp log)
  | inl same ↦
      let r = replay-Reported fp log in
      rw same (
        next_alert-Reports fp e (replay fp log) ((eq_iff e.fingerprint fp).0 same)
          (Reported-IsTimed fp _ (replay fp log) r) (Reported-IsUnder fp _ (replay fp log) r))
]

-- the count of a stored record
abbrev pub IsCounted : Option AlertRecord → Type 0
IsCounted none = Unit {0}
IsCounted (some a) = (1 ≤ a.event_count) × (a.event_count ≤ i64_max)

pub next_alert-positive :
    (e : Event) (o : Option AlertRecord) → IsCounted o → 1 ≤ (next_alert e o).event_count
unfolding next_alert
next_alert-positive e none h = elim (state-cases e.state) [
  | inl s ↦ ground arith
  | inr (inl s) ↦ ground arith
  | inr (inr s) ↦ ground arith
]
next_alert-positive e (some a) h = elim (state-cases e.state) [
  | inl s ↦ ground arith
  | inr (inl s) ↦ ground arith
  | inr (inr s) ↦ ground arith
]

-- A firing event leaves the count 1 exactly when the alert was not open before.
pub event_count-firing :
    (e : Event) (o : Option AlertRecord)
    → e.state ≡ EventState.firing
    → IsCounted o
    → eqb (next_alert e o).event_count 1 ≡ not (is_open o)
unfolding next_alert
event_count-firing e none s h = ground arith
event_count-firing e (some a) s h = ground arith

pub replay-IsUnder : (fp : String) (log : List Event) → IsUnder fp (replay fp log)
replay-IsUnder fp log = Reported-IsUnder fp _ (replay fp log) (replay-Reported fp log)

-- A transition keeps the fingerprint.
pub next_alert-fingerprint :
    (e : Event) (o : Option AlertRecord)
    → IsUnder e.fingerprint o
    → (next_alert e o).fingerprint ≡ e.fingerprint
unfolding next_alert
next_alert-fingerprint e none u = elim (state-cases e.state) [
  | inl s ↦ ground arith
  | inr (inl s) ↦ ground arith
  | inr (inr s) ↦ ground arith
]
next_alert-fingerprint e (some a) u = elim (state-cases e.state) [
  | inl s ↦ ground arith
  | inr (inl s) ↦ ground arith
  | inr (inr s) ↦ ground arith
]
