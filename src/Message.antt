-- ===== src/Message.antt =====
-- `render_event` of src/notification.rs and what it calls: the text of a notification.
pub mod Fields
pub mod Privacy
pub mod Expansion
use beacon_alerts.Prelude.{String, Option, none, some, List, [], ◌∷◌, ◌==◌, is_empty, if◌then◌else◌}
use beacon_alerts.Model.{Event, AlertRecord}
use beacon_alerts.Model.AlertStatus.{AlertStatus}
use beacon_alerts.Model.Severity.{Severity}
use beacon_alerts.Template.{
  MessageTemplates, EventMessages, StateMessage, MessageFormats, default_title,
}
use beacon_alerts.Template.Render.{get, render_template}
use Fields.{render_fields}

unfoldable pub human_host : String → String
human_host host =
    if host == "media"
    then "Media"
    else if host == "ops"
    then "Ops"
    else if host == "backup"
    then "Backup"
    else if host == "pve"
    then "PVE"
    else if host == "private-cloud"
    then "Private Cloud"
    else "Infrastructure"

abbrev pub human_severity : Severity → String
human_severity Severity.critical = "critical"
human_severity Severity.warning = "warning"
human_severity Severity.info = "info"

-- the tuple that `render_event` matches out of the alert's status
abbrev pub icon_of : AlertStatus → String
icon_of AlertStatus.firing = "🚨"
icon_of AlertStatus.resolved = "✅"
icon_of AlertStatus.info = "ℹ\u{fe0f}"

abbrev pub status_of : AlertStatus → String
status_of AlertStatus.firing = "ALERT FIRING"
status_of AlertStatus.resolved = "ALERT RESOLVED"
status_of AlertStatus.info = "INFORMATION"

abbrev pub fallback_detail : AlertStatus → String
fallback_detail AlertStatus.firing = "A monitored condition requires attention."
fallback_detail AlertStatus.resolved = "The monitored condition has recovered."
fallback_detail AlertStatus.info = "An operational event was recorded."

abbrev pub fallback_action : AlertStatus → String
fallback_action AlertStatus.firing = "Check the corresponding runbook."
fallback_action AlertStatus.resolved = "No immediate action required."
fallback_action AlertStatus.info = "No immediate action required."

abbrev pub format_of : AlertStatus → MessageFormats → String
format_of AlertStatus.firing formats = formats.firing
format_of AlertStatus.resolved formats = formats.resolved
format_of AlertStatus.info formats = formats.info

abbrev pub state_message : AlertStatus → EventMessages → StateMessage
state_message AlertStatus.firing message = message.firing
state_message AlertStatus.resolved message = message.resolved
state_message AlertStatus.info message = message.info

-- `filter(|text| !text.is_empty())`, and then `unwrap_or_else`
abbrev pub text_or : String → String → String
text_or fallback text = if is_empty text then fallback else text

abbrev pub title_of : Option EventMessages → String
title_of none = default_title
title_of (some message) = message.title

abbrev pub detail_of : AlertStatus → Option EventMessages → String
detail_of status none = fallback_detail status
detail_of status (some message) =
    text_or (fallback_detail status) (state_message status message).detail

abbrev pub action_of : AlertStatus → Option EventMessages → String
action_of status none = fallback_action status
action_of status (some message) =
    text_or (fallback_action status) (state_message status message).action

abbrev pub fields_of : Event → Option EventMessages → String
fields_of event none = ""
fields_of event (some message) = render_fields event message.fields

-- the map of placeholders to their values
unfoldable pub values_for : Event → AlertRecord → MessageTemplates → List (String × String)
values_for event alert templates =
    let message = get templates.events event.event_type in
    ("icon", icon_of alert.status)
    ∷ ("status", status_of alert.status)
    ∷ ("host", human_host event.host_id)
    ∷ ("title", title_of message)
    ∷ ("detail", detail_of alert.status message)
    ∷ ("action", action_of alert.status message)
    ∷ ("severity", human_severity alert.severity)
    ∷ ("fields", fields_of event message)
    ∷ []

unfoldable pub render_event : Event → AlertRecord → MessageTemplates → String
unfolding values_for
render_event event alert templates =
    render_template (format_of alert.status templates.formats) (values_for event alert templates)
