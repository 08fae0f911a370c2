-- ===== src/Template/Catalog.antt =====
-- `MessageTemplates::validate` of src/notification.rs.
use Prim.Native.String.{len}
use beacon_alerts.Prelude.{
  ℕ, ◌≤◌, String, ◌≡◌, refl, ◌↔◌, false, not, ◌||◌, List, [], ◌∷◌, arith, ltb, length, All,
  is_blank,
}
use beacon_alerts.Fallible.{
  Result, ok, ◌>>◌, >>=-eq-ok, guard, too_many_event_types, invalid_event_type, invalid_title,
  content_too_long, too_many_fields, invalid_field,
}
use beacon_alerts.Template.{MessageTemplates, EventMessages, StateMessage, FieldTemplate}
use beacon_alerts.Template.Validate.{validate_template}

unfoldable pub validate_fields : String → List FieldTemplate → Result (Unit {0})
validate_fields event_type [] = ok tt
validate_fields event_type (field ∷ fields) = do
  guard
      (not (
        is_blank field.label
        || (ltb 128 (len field.label) || (is_blank field.fact || ltb 64 (len field.fact)))))
      (invalid_field event_type)
  validate_fields event_type fields

unfoldable pub validate_content : String → StateMessage → Result (Unit {0})
validate_content event_type state =
    guard (not (ltb 1024 (len state.detail) || ltb 512 (len state.action)))
      (content_too_long event_type)

-- the body of the loop over the event types
unfoldable pub validate_event : String → EventMessages → Result (Unit {0})
unfolding validate_content validate_fields
validate_event event_type message = do
  guard (not (is_blank event_type || ltb 128 (len event_type))) invalid_event_type
  guard (not (is_blank message.title || ltb 256 (len message.title))) (invalid_title event_type)
  validate_content event_type message.firing
  validate_content event_type message.resolved
  validate_content event_type message.info
  guard (not (ltb 16 (length message.fields))) (too_many_fields event_type)
  validate_fields event_type message.fields

unfoldable pub validate_events : List (String × EventMessages) → Result (Unit {0})
unfolding validate_event
validate_events [] = ok tt
validate_events ((event_type, message) ∷ events) = do
  validate_event event_type message
  validate_events events

unfoldable pub validate : MessageTemplates → Result (Unit {0})
unfolding validate_events
validate templates = do
  validate_template "firing" templates.formats.firing
  validate_template "resolved" templates.formats.resolved
  validate_template "info" templates.formats.info
  guard (not (ltb 256 (length templates.events))) too_many_event_types
  validate_events templates.events

abbrev pub IsText : String → ℕ → Type 0
IsText s n = (is_blank s ≡ false) × (len s ≤ n)

abbrev pub IsFieldTemplate : FieldTemplate → Type 0
IsFieldTemplate field = IsText field.label 128 × IsText field.fact 64

abbrev pub IsContent : StateMessage → Type 0
IsContent state = (len state.detail ≤ 1024) × (len state.action ≤ 512)

pub record IsMessage (entry : String × EventMessages) : Type 0 where
  pub event_type : IsText entry.0 128
  pub title : IsText entry.1.title 256
  pub firing : IsContent entry.1.firing
  pub resolved : IsContent entry.1.resolved
  pub info : IsContent entry.1.info
  pub few_fields : length entry.1.fields ≤ 16
  pub each_field : All IsFieldTemplate entry.1.fields

validate_fields-All :
    (t : String) (fs : List FieldTemplate) → validate_fields t fs ≡ ok tt → All IsFieldTemplate fs
unfolding validate_fields
validate_fields-All t [] h = tt
validate_fields-All t (f ∷ fs) h = (ground arith, validate_fields-All t fs (ground arith))

validate_fields_of_All :
    (t : String) (fs : List FieldTemplate) → All IsFieldTemplate fs → validate_fields t fs ≡ ok tt
unfolding validate_fields
validate_fields_of_All t [] h = refl
validate_fields_of_All t (f ∷ fs) h = ground (arith, validate_fields_of_All t fs h.1)

validate_event-IsMessage :
    (t : String) (m : EventMessages) → validate_event t m ≡ ok tt → IsMessage (t, m)
unfolding validate_event
validate_event-IsMessage t m h = record {
  event_type = ground arith;
  title = ground arith;
  firing = ground arith;
  resolved = ground arith;
  info = ground arith;
  few_fields = ground arith;
  each_field = validate_fields-All t m.fields (ground arith);
}

validate_event_of_IsMessage :
    (t : String) (m : EventMessages) → IsMessage (t, m) → validate_event t m ≡ ok tt
unfolding validate_event
validate_event_of_IsMessage t m h = ground (arith, validate_fields_of_All t m.fields h.each_field)

validate_events-All :
    (es : List (String × EventMessages)) → validate_events es ≡ ok tt → All IsMessage es
unfolding validate_events
validate_events-All [] h = tt
validate_events-All ((t, m) ∷ es) h =
    let (_, p, q) = >>=-eq-ok (validate_event t m) (λ _. validate_events es) h in
    (validate_event-IsMessage t m p, validate_events-All es q)

validate_events_of_All :
    (es : List (String × EventMessages)) → All IsMessage es → validate_events es ≡ ok tt
unfolding validate_events
validate_events_of_All [] h = refl
validate_events_of_All ((t, m) ∷ es) h =
    rw (validate_event_of_IsMessage t m h.0) (validate_events_of_All es h.1)

pub record IsTemplates (t : MessageTemplates) : Type 0 where
  pub firing : validate_template "firing" t.formats.firing ≡ ok tt
  pub resolved : validate_template "resolved" t.formats.resolved ≡ ok tt
  pub info : validate_template "info" t.formats.info ≡ ok tt
  pub few_events : length t.events ≤ 256
  pub each_event : All IsMessage t.events

-- Templates pass validation exactly when the three formats do, there are at most 256 event types,
-- and the texts and fields of each event type stay within their limits.
pub validate-IsTemplates_iff : (t : MessageTemplates) → (validate t ≡ ok tt) ↔ IsTemplates t
unfolding validate
validate-IsTemplates_iff t = (
  λ h. record {
    firing = ground arith;
    resolved = ground arith;
    info = ground arith;
    few_events = ground arith;
    each_event = validate_events-All t.events (ground arith);
  },
  λ v. ground (arith, validate_events_of_All t.events v.each_event),
)
