-- ===== src/Telegram.antt =====
-- The Telegram channel of src/notification.rs: its configuration and its `send`.
pub mod Fates
pub mod Told
pub mod Reached
use Prim.Native.Char.{code}
use Prim.Native.String.{[], ◌∷◌, ◌++◌ as append, len}
use beacon_alerts.Prelude.{
  ℕ, String, Bool, true, false, not, ◌&&◌, ◌||◌, Option, none, some, eqb, ltb, leb, is_blank,
  is_empty, is_whitespace, trim, if◌then◌else◌,
}
use beacon_alerts.Fallible.{
  Result, ok, ◌>>=◌, ◌>>◌, guard, or_fail, io_failed, undecodable, invalid_chat_id, invalid_timeout,
  invalid_token, client_failed,
}
use beacon_alerts.Client.{is_success}
use beacon_alerts.Template.{MessageTemplates}
use beacon_alerts.Template.Catalog
use beacon_alerts.Store.Jobs.{NotificationJob}
use beacon_alerts.Store.Dispatcher.{
  NotificationChannel, NotificationFailure, SendError, temporary, permanent,
}

pub record TelegramConfig : Type 0 where
  pub token_file : String
  pub chat_id : String
  pub timeout_seconds : ℕ
  pub templates : MessageTemplates

abbrev pub default_timeout_seconds : ℕ
default_timeout_seconds = 10

-- What the code asks of the file system, of `serde_json` and of `reqwest`: the text of a file, the
-- configuration that a text is, whether a client can be built, and the text of a status.
pub record TelegramLibrary : Type 0 where
  pub read : String → Option String
  pub parse : String → Option TelegramConfig
  pub builds : Bool
  pub print_status : ℕ → String

-- `TelegramConfig::validate`
unfoldable pub validate_config : TelegramConfig → Result (Unit {0})
validate_config config = do
  guard (not (is_blank config.chat_id || ltb 128 (len config.chat_id))) invalid_chat_id
  guard (not (eqb config.timeout_seconds 0 || ltb 120 config.timeout_seconds)) invalid_timeout
  Catalog.validate config.templates

-- `token.contains(char::is_whitespace)`
unfoldable pub has_whitespace : String → Bool
unfolding is_whitespace
has_whitespace [] = false
has_whitespace (c ∷ s) = is_whitespace (code c) || has_whitespace s

pub record TelegramChannel : Type 0 where
  pub token : String
  pub chat_id : String
  pub endpoint : String

abbrev pub checked_token : String → Result String
checked_token token = do
  guard (not (is_empty token || (ltb 512 (len token) || has_whitespace token))) invalid_token
  ok token

-- the error of `reqwest` with its context
abbrev pub transport_error : SendError
transport_error = record { failure = none; message = "send Telegram notification" }

abbrev pub temporary_error : String → SendError
temporary_error text = record {
  failure = some (temporary text);
  message = append "temporary notification failure: " text;
}

abbrev pub permanent_error : String → SendError
permanent_error text = record {
  failure = some (permanent text);
  message = append "permanent notification failure: " text;
}

-- 429 or a server error
abbrev pub is_passing : ℕ → Bool
is_passing status = eqb status 429 || (leb 500 status && leb status 599)

module _ (lib : TelegramLibrary) where
  -- `TelegramConfig::load`
  unfoldable pub load : String → Result TelegramConfig
  unfolding validate_config
  load path = do
    text ← or_fail (lib.read path) io_failed
    config ← or_fail (lib.parse text) undecodable
    validate_config config
    ok config

  unfoldable pub from_config : TelegramConfig → Result TelegramChannel
  unfolding has_whitespace validate_config
  from_config config = do
    validate_config config
    text ← or_fail (lib.read config.token_file) io_failed
    token ← checked_token (trim text)
    guard lib.builds client_failed
    ok (record { token = token; chat_id = config.chat_id; endpoint = "https://api.telegram.org" })

  abbrev pub refusal : ℕ → SendError
  refusal status =
      let message = append "Telegram returned HTTP " (lib.print_status status) in
      if is_passing status then temporary_error message else permanent_error message

  -- The status of the answer is none where the request failed.
  abbrev pub judge : Option ℕ → Option SendError
  judge none = some transport_error
  judge (some status) = if is_success status then none else some (refusal status)

-- `TelegramChannel::endpoint`
abbrev pub url : TelegramChannel → String
url channel = append channel.endpoint (append "/bot" (append channel.token "/sendMessage"))

-- `post` sends a text to a chat at a URL.
module _ {W : Type 0} (lib : TelegramLibrary)
    (post : String → String → String → W → Option ℕ × W) where
  abbrev pub send : TelegramChannel → NotificationJob → W → Option SendError × W
  send channel job w =
      let (status, w') = post (url channel) channel.chat_id job.payload w in (judge lib status, w')

  abbrev pub as_channel : TelegramChannel → NotificationChannel W
  as_channel channel = record { name = "telegram"; send = send channel }
