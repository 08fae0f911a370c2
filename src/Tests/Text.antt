-- ===== src/Tests/Text.antt =====
-- Tests of the rules, the templates and the messages.
use Prim.Native.String.{len}
use beacon_alerts.Prelude.{
  ◌≤◌, String, ◌≡◌, ◌≢◌, refl, ◌↔◌, true, false, none, [], ◌∷◌, any, contains, All, is_empty,
}
use beacon_alerts.Fallible.{ok, err, unmatched_brace}
use beacon_alerts.Model.{Event, AlertRecord}
use beacon_alerts.Model.EventState.{EventState}
use beacon_alerts.Model.Validate as EventRules
use beacon_alerts.Policy.{channels_for, matches, push_new, collect}
use beacon_alerts.Policy.Channels.{routes, contains-channels_for}
use beacon_alerts.Policy.Validate as PolicyRules
use beacon_alerts.Template.{default_templates, default_info_format}
use beacon_alerts.Template.Scan.{size, split_at, has}
use beacon_alerts.Template.Render.{
  Slots, IsLayout, print_layout, expand, get, render_loop, render_template, render_template-expand,
}
use beacon_alerts.Template.Validate.{
  validate_template, validate_loop, validate_template_iff, is_allowed, Layout,
}
use beacon_alerts.Template.Catalog as TemplateRules
use beacon_alerts.Message.{human_host, values_for, render_event, format_of}
use beacon_alerts.Message.Fields.{clean, clean_bounds, no_controls}
use beacon_alerts.Message.Privacy.{Alike, render_event-Alike}
use beacon_alerts.Message.Expansion.{render_event-expand}
use beacon_alerts.Store.Alerts.{next_alert}
use beacon_alerts.Tests.Samples.{formats, event, firing, catalog}

abbrev opened : AlertRecord
opened = next_alert firing none

-- the channels of both rules, each once
channels_test : channels_for catalog firing ≡ "telegram" ∷ "pager" ∷ []
unfolding channels_for collect push_new matches
channels_test = refl

-- an unmatched closing brace before a placeholder passes
brace_test : validate_template "firing" "} {icon}" ≡ ok tt
unfolding validate_template validate_loop is_allowed split_at size has
brace_test = refl

trailing_brace_test : validate_template "firing" "{icon} }" ≡ err (unmatched_brace "firing")
unfolding validate_template validate_loop is_allowed split_at size has
trailing_brace_test = refl

-- the default format of an alert that fires
render_test :
    render_event firing opened default_templates
    ≡ "🚨 ALERT FIRING\nBackup | Monitored condition\n\nA monitored condition requires attention.\n\nAction: Check the corresponding runbook.\nSeverity: critical"
unfolding render_event render_template render_loop next_alert values_for get split_at size
    human_host
render_test = refl

validate_iff_example :
    (EventRules.validate formats firing ≡ ok tt) ↔ EventRules.IsValid formats firing
validate_iff_example = EventRules.validate_iff formats firing

validate_rules_iff_example : (PolicyRules.validate catalog ≡ ok tt) ↔ PolicyRules.IsCatalog catalog
validate_rules_iff_example = PolicyRules.validate_rules_iff catalog

validate_template_iff_example : (validate_template "info" default_info_format ≡ ok tt) ↔ (
    (is_empty default_info_format ≡ false)
    × (len default_info_format ≤ 4096)
    × Layout default_info_format)
validate_template_iff_example = validate_template_iff "info" default_info_format

validate-IsTemplates_iff_example :
    (TemplateRules.validate default_templates ≡ ok tt) ↔ TemplateRules.IsTemplates default_templates
validate-IsTemplates_iff_example = TemplateRules.validate-IsTemplates_iff default_templates

contains-channels_for_example :
    contains (channels_for catalog firing) "pager" ≡ any (routes firing "pager") catalog.rules
contains-channels_for_example = contains-channels_for catalog firing "pager"

abbrev slots : Slots
slots = ("At ", "host") ∷ (": ", "nothing") ∷ []

slots-IsLayout : IsLayout slots " }"
unfolding has
slots-IsLayout = (((refl, refl), ((refl, refl), tt)), refl)

render_template-expand_example :
    render_template (print_layout slots " }") (("host", "Ops") ∷ [])
    ≡ expand slots " }" (("host", "Ops") ∷ [])
render_template-expand_example =
    render_template-expand (("host", "Ops") ∷ []) slots " }" slots-IsLayout

clean_bounds_example : (size (clean "a\nb") ≤ 256) × (no_controls (clean "a\nb") ≡ true)
clean_bounds_example = clean_bounds "a\nb"

-- a second event that differs in its facts, its identifier and its state
abbrev other : Event
other = record (event "00000000-0000-4000-8000-000000000003" EventState.info) {
  source = "elsewhere";
  facts = [];
}

other-Alike : Alike default_templates firing other opened opened
unfolding get
other-Alike = record { status = refl; severity = refl; event_type = refl; host = refl; facts = tt }

render_event-Alike_example :
    render_event firing opened default_templates ≡ render_event other opened default_templates
render_event-Alike_example =
    render_event-Alike default_templates firing other opened opened other-Alike

default-valid : TemplateRules.validate default_templates ≡ ok tt
unfolding TemplateRules.validate validate_template validate_loop is_allowed split_at size has
default-valid = refl

render_event-expand_example :
    (s : Slots) × (tail : String) × (format_of opened.status default_templates.formats
      ≡ print_layout s tail)
    × IsLayout s tail
    × All (λ slot. is_allowed slot.1 ≡ true) s
    × All (λ slot. get (values_for firing opened default_templates) slot.1 ≢ none) s
    × (render_event firing opened default_templates
        ≡ expand s tail (values_for firing opened default_templates))
render_event-expand_example = render_event-expand firing opened default_templates default-valid
