-- ===== src/Template.antt =====
-- The message templates of src/notification.rs: the configuration and the text scanner.
pub mod Scan
pub mod Render
pub mod Validate
pub mod Catalog
use beacon_alerts.Prelude.{String, List, []}

pub record MessageFormats : Type 0 where
  pub firing : String
  pub resolved : String
  pub info : String

pub record FieldTemplate : Type 0 where
  pub label : String
  pub fact : String

pub record StateMessage : Type 0 where
  pub detail : String
  pub action : String

pub record EventMessages : Type 0 where
  pub title : String
  pub firing : StateMessage
  pub resolved : StateMessage
  pub info : StateMessage
  pub fields : List FieldTemplate

pub record MessageTemplates : Type 0 where
  pub formats : MessageFormats
  pub events : List (String × EventMessages)

abbrev pub default_firing_format : String
default_firing_format =
    "{icon} {status}\n{host} | {title}\n\n{detail}\n\nAction: {action}\nSeverity: {severity}"

abbrev pub default_resolved_format : String
default_resolved_format = "{icon} {status}\n{host} | {title}\n\n{detail}\n\nAction: {action}"

abbrev pub default_info_format : String
default_info_format = "{icon} {status}\n{host} | {title}\n\n{detail}"

abbrev pub default_title : String
default_title = "Monitored condition"

abbrev pub default_formats : MessageFormats
default_formats = record {
  firing = default_firing_format;
  resolved = default_resolved_format;
  info = default_info_format;
}

-- `MessageTemplates::default()`
abbrev pub default_templates : MessageTemplates
default_templates = record { formats = default_formats; events = [] }
