-- ===== src/Model/Validate.antt =====
-- `Event::validate` and `require_field` of src/model.rs, against a predicate on events.
use Prim.Native.String.{len}
use beacon_alerts.Prelude.{
  ℕ, ◌≤◌, String, ◌≡◌, refl, ◌↔◌, inl, inr, Bool, true, false, not, Option, some, List, [], ◌∷◌,
  arith, eqb, leb, Option-cases, length, All, is_blank,
}
use beacon_alerts.Fallible.{
  Result, ok, ◌>>=◌, ◌>>◌, >>=-eq-ok, guard, or_fail, unsupported_schema, empty_field,
  field_too_long, invalid_uuid, invalid_timestamp, too_many_facts, encode_failed, fact_too_long,
}
use beacon_alerts.Model.{Event, Value}

-- What the code asks of the crates `uuid`, `chrono` and `serde_json`: whether a text parses, and
-- the encodings (`none` for an error).
pub record Formats : Type 0 where
  pub is_uuid : String → Bool
  pub is_rfc3339 : String → Bool
  pub value_bytes : Value → Option ℕ
  pub to_string : Event → Option String

unfoldable pub require_field : String → String → ℕ → Result (Unit {0})
require_field name value max_bytes = do
  guard (not (is_blank value)) (empty_field name)
  guard (leb (len value) max_bytes) (field_too_long name max_bytes)

module _ (x : Formats) where
  -- the body of the loop over the facts
  unfoldable pub validate_fact : String → Value → Result (Unit {0})
  validate_fact key value = do
    require_field "fact key" key 64
    n ← or_fail (x.value_bytes value) encode_failed
    guard (leb n 4096) (fact_too_long key)

  unfoldable pub validate_facts : List (String × Value) → Result (Unit {0})
  validate_facts [] = ok tt
  validate_facts ((key, value) ∷ facts) = do validate_fact key value; validate_facts facts

  unfoldable pub validate : Event → Result (Unit {0})
  validate e = do
    guard (eqb e.schema_version 1) (unsupported_schema e.schema_version)
    require_field "event_id" e.event_id 128
    guard (x.is_uuid e.event_id) invalid_uuid
    require_field "event_type" e.event_type 128
    require_field "source" e.source 128
    require_field "host_id" e.host_id 128
    require_field "fingerprint" e.fingerprint 256
    require_field "occurred_at" e.occurred_at 64
    guard (x.is_rfc3339 e.occurred_at) invalid_timestamp
    guard (leb (length e.facts) 32) too_many_facts
    validate_facts e.facts

-- A field that is not blank and has at most `n` bytes.
abbrev pub IsField : String → ℕ → Type 0
IsField s n = (is_blank s ≡ false) × (len s ≤ n)

abbrev pub IsFact : Formats → String × Value → Type 0
IsFact x (key, value) = IsField key 64 × ((n : ℕ) × (x.value_bytes value ≡ some n) × (n ≤ 4096))

-- What the protocol asks of an event.
pub record IsValid (x : Formats) (e : Event) : Type 0 where
  pub version : e.schema_version ≡ 1
  pub id : IsField e.event_id 128
  pub uuid : x.is_uuid e.event_id ≡ true
  pub kind : IsField e.event_type 128
  pub origin : IsField e.source 128
  pub host : IsField e.host_id 128
  pub key : IsField e.fingerprint 256
  pub time : IsField e.occurred_at 64
  pub timestamp : x.is_rfc3339 e.occurred_at ≡ true
  pub few_facts : length e.facts ≤ 32
  pub each_fact : All (IsFact x) e.facts

require_field-IsField : (name s : String) (n : ℕ) → require_field name s n ≡ ok tt → IsField s n
unfolding require_field
require_field-IsField name s n h = ground arith

require_field_of_IsField : (name s : String) (n : ℕ) → IsField s n → require_field name s n ≡ ok tt
unfolding require_field
require_field_of_IsField name s n h = ground arith

module _ (x : Formats) where
  validate_fact-IsFact : (k : String) (v : Value) → validate_fact x k v ≡ ok tt → IsFact x (k, v)
  unfolding validate_fact
  validate_fact-IsFact k v h = elim (Option-cases (x.value_bytes v)) [
    | inl e ↦ absurd (ground (arith, e, h))
    | inr (n, e) ↦
        (ground (arith, e, h, require_field-IsField "fact key" k 64), (n, e, ground (arith, e, h)))
  ]

  validate_fact_of_IsFact : (k : String) (v : Value) → IsFact x (k, v) → validate_fact x k v ≡ ok tt
  unfolding validate_fact
  validate_fact_of_IsFact k v (f, (n, e, h)) =
      rw e (ground (arith, require_field_of_IsField "fact key" k 64 f))

  validate_facts-All :
      (fs : List (String × Value)) → validate_facts x fs ≡ ok tt → All (IsFact x) fs
  unfolding validate_facts
  validate_facts-All [] h = tt
  validate_facts-All ((k, v) ∷ fs) h =
      let (t, p, q) = >>=-eq-ok (validate_fact x k v) (λ _. validate_facts x fs) h in
      (validate_fact-IsFact k v p, validate_facts-All fs q)

  validate_facts_of_All :
      (fs : List (String × Value)) → All (IsFact x) fs → validate_facts x fs ≡ ok tt
  unfolding validate_facts
  validate_facts_of_All [] h = refl
  validate_facts_of_All ((k, v) ∷ fs) h =
      rw (validate_fact_of_IsFact k v h.0) (validate_facts_of_All fs h.1)

  validate-IsValid : (e : Event) → validate x e ≡ ok tt → IsValid x e
  unfolding validate
  validate-IsValid e h = grind (arith, require_field-IsField, validate_facts-All)

  validate_of_IsValid : (e : Event) → IsValid x e → validate x e ≡ ok tt
  unfolding validate
  validate_of_IsValid e v = ground (
    arith,
    require_field_of_IsField "event_id" e.event_id 128 v.id,
    require_field_of_IsField "event_type" e.event_type 128 v.kind,
    require_field_of_IsField "source" e.source 128 v.origin,
    require_field_of_IsField "host_id" e.host_id 128 v.host,
    require_field_of_IsField "fingerprint" e.fingerprint 256 v.key,
    require_field_of_IsField "occurred_at" e.occurred_at 64 v.time,
    validate_facts_of_All e.facts v.each_fact,
  )

  -- An event passes validation exactly when its schema version is 1, its identifier is a UUID, its
  -- time is an RFC 3339 time, its six text fields are not blank and have at most 128 bytes (the
  -- fingerprint 256, the time 64), and it has at most 32 facts, each with a key that is not blank
  -- and has at most 64 bytes and a value whose encoding has at most 4096 bytes.
  pub validate_iff : (e : Event) → (validate x e ≡ ok tt) ↔ IsValid x e
  validate_iff e = (validate-IsValid e, validate_of_IsValid e)
