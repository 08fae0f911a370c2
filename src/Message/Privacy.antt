-- ===== src/Message/Privacy.antt =====
-- What a notification's text can depend on.
use beacon_alerts.Prelude.{◌≡◌, refl, Option, none, some, List, [], ◌∷◌, All}
use beacon_alerts.Model.{Event, AlertRecord}
use beacon_alerts.Template.{MessageTemplates, EventMessages, FieldTemplate}
use beacon_alerts.Template.Render.{get}
use beacon_alerts.Message.{human_host, render_event, fields_of}
use beacon_alerts.Message.Fields.{scalar_fact, render_field, field_lines, render_fields}

abbrev pub fields_for : Option EventMessages → List FieldTemplate
fields_for none = []
fields_for (some message) = message.fields

-- Both events give the fact of the field the same text, or none.
abbrev pub SameField : Event → Event → FieldTemplate → Type 0
SameField e e' field = scalar_fact (get e.facts field.fact) ≡ scalar_fact (get e'.facts field.fact)

-- Two events and alerts that may differ in all that a notification must not show.
pub record Alike (t : MessageTemplates) (e e' : Event) (a a' : AlertRecord) : Type 0 where
  pub status : a.status ≡ a'.status
  pub severity : a.severity ≡ a'.severity
  pub event_type : e.event_type ≡ e'.event_type
  pub host : human_host e.host_id ≡ human_host e'.host_id
  pub facts : All (SameField e e') (fields_for (get t.events e.event_type))

field_lines_lem :
    (e e' : Event) (fields : List FieldTemplate)
    → All (SameField e e') fields
    → field_lines e.facts fields ≡ field_lines e'.facts fields
unfolding field_lines render_field
field_lines_lem e e' [] h = refl
field_lines_lem e e' (f ∷ fs) h = cc (field_lines_lem e e' fs h.1, h.0)

fields_of_lem :
    (e e' : Event) (m : Option EventMessages)
    → All (SameField e e') (fields_for m)
    → fields_of e m ≡ fields_of e' m
unfolding render_fields
fields_of_lem e e' none h = refl
fields_of_lem e e' (some m) h = rw (field_lines_lem e e' m.fields h) refl

-- The text depends on the alert's status and severity, the event's type, the public name of its
-- host and the facts that the templates map to fields, and on nothing else: not on the
-- fingerprint, the identifiers, the source, the times or any other fact.
pub render_event-Alike :
    (t : MessageTemplates) (e e' : Event) (a a' : AlertRecord)
    → Alike t e e' a a'
    → render_event e a t ≡ render_event e' a' t
unfolding render_event
render_event-Alike t e e' a a' h = cc (
  h.status,
  h.severity,
  h.event_type,
  h.host,
  fields_of_lem e e' (get t.events e.event_type) h.facts,
)
