-- ===== src/Message/Expansion.antt =====
-- Rendering by templates that have passed validation.
use beacon_alerts.Prelude.{
  String, ◌≡◌, ◌≢◌, ap, ◌∙◌, true, none, List, [], ◌∷◌, map, arith, All, contains,
}
use beacon_alerts.Fallible.{ok}
use beacon_alerts.Model.{Event, AlertRecord}
use beacon_alerts.Model.AlertStatus.{AlertStatus}
use beacon_alerts.Template.{MessageTemplates}
use beacon_alerts.Template.Render.{
  Slots, IsLayout, get, print_layout, expand, render_template, render_template-expand,
}
use beacon_alerts.Template.Validate.{is_allowed, validate_template_iff, Layout}
use beacon_alerts.Template.Catalog.{validate, validate-IsTemplates_iff}
use beacon_alerts.Message.{values_for, render_event, format_of}

get_of_key {ℓ} :
    {V : Type ℓ} (entries : List (String × V)) (k : String)
    → contains (map (λ e. e.0) entries) k ≡ true
    → get entries k ≢ none
unfolding get
get_of_key [] k h e = cc
get_of_key ((j, v) ∷ entries) k h e = ground (arith, h, e, get_of_key entries k)

-- every allowed placeholder has a value
get-values_for :
    (e : Event) (a : AlertRecord) (t : MessageTemplates) (name : String)
    → is_allowed name ≡ true
    → get (values_for e a t) name ≢ none
unfolding values_for is_allowed
get-values_for e a t name h = get_of_key (values_for e a t) name h

All-values_for :
    (e : Event) (a : AlertRecord) (t : MessageTemplates) (slots : Slots)
    → All (λ slot. is_allowed slot.1 ≡ true) slots
    → All (λ slot. get (values_for e a t) slot.1 ≢ none) slots
All-values_for e a t [] h = tt
All-values_for e a t (slot ∷ slots) h =
    (get-values_for e a t slot.1 h.0, All-values_for e a t slots h.1)

format_of-Layout :
    (t : MessageTemplates) (status : AlertStatus)
    → validate t ≡ ok tt
    → Layout (format_of status t.formats)
format_of-Layout t AlertStatus.firing h =
    ((validate_template_iff "firing" t.formats.firing).0
      ((validate-IsTemplates_iff t).0 h).firing).2
format_of-Layout t AlertStatus.resolved h =
    ((validate_template_iff "resolved" t.formats.resolved).0
      ((validate-IsTemplates_iff t).0 h).resolved).2
format_of-Layout t AlertStatus.info h =
    ((validate_template_iff "info" t.formats.info).0 ((validate-IsTemplates_iff t).0 h).info).2

-- With templates that passed validation, the format of the alert's status is a sequence of texts
-- without an opening brace and of placeholders in braces, each of them allowed and with a value, and
-- a notification is that sequence with each placeholder replaced by its value.
pub render_event-expand :
    (e : Event) (a : AlertRecord) (t : MessageTemplates)
    → validate t ≡ ok tt
    → (slots : Slots) × (tail : String) × (format_of a.status t.formats ≡ print_layout slots tail)
      × IsLayout slots tail
      × All (λ slot. is_allowed slot.1 ≡ true) slots
      × All (λ slot. get (values_for e a t) slot.1 ≢ none) slots
      × (render_event e a t ≡ expand slots tail (values_for e a t))
unfolding render_event
render_event-expand e a t h =
    let (slots, tail, same, (layout, allowed, last)) = format_of-Layout t a.status h in
    (
      slots,
      tail,
      same,
      layout,
      allowed,
      All-values_for e a t slots allowed,
      ap (λ f. render_template f (values_for e a t)) same
          ∙ render_template-expand (values_for e a t) slots tail layout,
    )
