-- ===== src/Fallible.antt =====
-- Fallible code: `anyhow::Result`, one constructor for each error that the modelled code raises.
use beacon_alerts.Prelude.{
  ℕ, String, ◌≡◌, refl, ap, ◌⊎◌, inl, inr, Bool, true, false, Option, none, some,
}

pub data Error : Type 0 where
  -- model.rs
  unsupported_schema : ℕ → Error
  empty_field : String → Error
  field_too_long : String → ℕ → Error
  invalid_uuid invalid_timestamp too_many_facts encode_failed : Error
  fact_too_long : String → Error
  invalid_state invalid_status invalid_severity : String → Error
  -- policy.rs
  too_many_rules invalid_rule_name invalid_channel : Error
  invalid_channel_count : String → Error
  -- notification.rs
  invalid_template_length unmatched_brace : String → Error
  unclosed_placeholder too_many_event_types invalid_event_type : Error
  unsupported_placeholder : String → String → Error
  invalid_title content_too_long too_many_fields invalid_field : String → Error
  invalid_chat_id invalid_timeout no_channels no_attempts : Error
  -- server.rs
  invalid_agent_name empty_code no_lifetime credential_exists unknown_code other_agent : Error
  code_used invalid_expiry code_expired commit_failed : Error
  io_failed empty_interval empty_limit no_tls half_tls invalid_bind data_locked no_directory : Error
  invalid_token : Error
  -- agent.rs and spool.rs
  invalid_url insecure_url client_failed spool_locked empty_name no_parent token_exists : Error
  empty_token_file server_refused bad_facts : Error
  missing_argument invalid_argument : String → Error
  unknown_command : Error
  already_queued temporary_exists undecodable missing_file empty_token no_retries send_failed :
      Error
  event_conflict missing_alert_state invalid_query constraint_violation out_of_range panicked :
      Error

-- An answer of the program: the `Ok` of `anyhow::Result`, or the error that it reports.
pub data Result {ℓ} (A : Type ℓ) : Type ℓ where
  err : Error → Result A
  ok : A → Result A

-- `.context(error)?` on an `Option`
abbrev pub or_fail {ℓ} : {A : Type ℓ} → Option A → Error → Result A
or_fail (some value) error = ok value
or_fail none error = err error

-- `if !test { bail!(error) }`
abbrev pub guard : Bool → Error → Result (Unit {0})
guard false error = err error
guard true error = ok tt

-- `?` on a `Result`
infixl 5 ◌>>=◌
abbrev pub ◌>>=◌ {ℓ κ} : {A : Type ℓ} {B : Type κ} → Result A → (A → Result B) → Result B
err error >>= next = err error
ok value >>= next = next value

-- `?` on a check that has no value
infixl 5 ◌>>◌
abbrev pub ◌>>◌ {ℓ} : {B : Type ℓ} → Result (Unit {0}) → Result B → Result B
check >> next = check >>= λ _. next

-- A chain that succeeds has succeeded at each step.
pub >>=-eq-ok {ℓ κ} :
    {A : Type ℓ} {B : Type κ} (first : Result A) (next : A → Result B) {answer : B}
    → (first >>= next) ≡ ok answer
    → (value : A) × (first ≡ ok value) × (next value ≡ ok answer)
>>=-eq-ok (err error) next h = cc
>>=-eq-ok (ok value) next h = (value, refl, h)

first_of_ok {ℓ κ} : {A : Type ℓ} {B : Type κ} → A × B → Result (A × B) → A
first_of_ok p (ok q) = q.0
first_of_ok p (err e) = p.0

second_of_ok {ℓ κ} : {A : Type ℓ} {B : Type κ} → A × B → Result (A × B) → B
second_of_ok p (ok q) = q.1
second_of_ok p (err e) = p.1

pub ok-pair-injective {ℓ κ} :
    {A : Type ℓ} {B : Type κ} (a c : A) (b d : B)
    → ◌≡◌ {A = Result (A × B)} (ok (a, b)) (ok (c, d))
    → (a ≡ c) × (b ≡ d)
unfolding first_of_ok second_of_ok
ok-pair-injective a c b d h = (ap (first_of_ok (a, b)) h, ap (second_of_ok (a, b)) h)

pub ok-injective {ℓ} : {A : Type ℓ} (a b : A) → ◌≡◌ {A = Result A} (ok a) (ok b) → a ≡ b
ok-injective a b h = cc

pub or_fail-eq-ok {ℓ} :
    {A : Type ℓ} (o : Option A) (a : A) (e : Error) → or_fail o e ≡ ok a → o ≡ some a
or_fail-eq-ok none a e h = cc
or_fail-eq-ok (some b) a e h = ap some (ok-injective b a h)

pub same_some {ℓ} : {A : Type ℓ} (a b : A) → some a ≡ some b → a ≡ b
same_some a b h = cc

pub Result-cases {ℓ} :
    {A : Type ℓ} (r : Result A) → ((a : A) × (r ≡ ok a)) ⊎ ((e : Error) × (r ≡ err e))
Result-cases (ok a) = inl (a, refl)
Result-cases (err e) = inr (e, refl)

-- A chain that succeeds has passed its check.
pub guard_then {ℓ} :
    {A : Type ℓ} (b : Bool) (e : Error) (r : Result A) (a : A)
    → (guard b e >> r) ≡ ok a
    → (b ≡ true) × (r ≡ ok a)
guard_then false e r a h = cc
guard_then true e r a h = (refl, h)
