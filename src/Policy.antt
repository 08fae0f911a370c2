-- ===== src/Policy.antt =====
-- src/policy.rs: the catalog of routing rules and the channels that it gives an event.
pub mod Validate
pub mod Channels
use beacon_alerts.Prelude.{
  String, Bool, true, false, ◌&&◌, Option, none, some, List, [], ◌∷◌, ◌++◌, ◌==◌, contains,
  if◌then◌else◌,
}
use beacon_alerts.Model.{Event}
use beacon_alerts.Model.EventState
use beacon_alerts.Model.EventState.{EventState}
use beacon_alerts.Model.Severity
use beacon_alerts.Model.Severity.{Severity}

pub record PolicyRule : Type 0 where
  pub name : String
  pub enabled : Bool
  pub event_type : Option String
  pub source : Option String
  pub host_id : Option String
  pub state : Option EventState
  pub severity : Option Severity
  pub channels : List String

pub record PolicyCatalog : Type 0 where
  pub rules : List PolicyRule

-- `Option::is_none_or`
abbrev pub is_none_or {ℓ} : {A : Type ℓ} → Option A → (A → Bool) → Bool
is_none_or none p = true
is_none_or (some a) p = p a

unfoldable pub matches : PolicyRule → Event → Bool
matches rule event =
    is_none_or rule.event_type (λ value. value == event.event_type)
    && (is_none_or rule.source (λ value. value == event.source)
        && (is_none_or rule.host_id (λ value. value == event.host_id)
            && (is_none_or rule.state (λ value. EventState.eq value event.state)
                && is_none_or rule.severity (λ value. Severity.eq value event.severity))))

-- the inner loop: push what is not there yet
unfoldable pub push_new : List String → List String → List String
push_new channels [] = channels
push_new channels (channel ∷ more) =
    push_new (if contains channels channel then channels else channels ++ channel ∷ []) more

-- the outer loop, from the channels collected so far
unfoldable pub collect : Event → List String → List PolicyRule → List String
unfolding push_new
collect event channels [] = channels
collect event channels (rule ∷ rules) =
    collect event
      (if rule.enabled && matches rule event then push_new channels rule.channels else channels)
      rules

unfoldable pub channels_for : PolicyCatalog → Event → List String
unfolding collect
channels_for catalog event = collect event [] catalog.rules
