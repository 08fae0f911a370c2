-- ===== src/Agent/Enroll.antt =====
-- Enrolling an agent of src/agent.rs: `enroll` and `write_token`, and `read_token` of
-- src/bin/beacon-agent.rs.
pub mod Grants
use beacon_alerts.Prelude.{
  String, Bool, true, false, not, Option, none, some, is_blank, is_empty, trim, if◌then◌else◌,
}
use beacon_alerts.Fallible.{
  Result, ok, err, ◌>>=◌, ◌>>◌, guard, or_fail, io_failed, empty_code, empty_name, empty_token,
  empty_token_file, no_parent, token_exists, send_failed, server_refused, undecodable,
}
use beacon_alerts.SecretFile.{SecretPath, Writing, install, unless_removed, beginning, secret_line}
use beacon_alerts.Client.{ClientLibrary, is_success, build_client}
use beacon_alerts.Http.{Body, Response, EnrollmentRequest, enrolled}

pub record EnrollmentConfig : Type 0 where
  pub server : String
  pub name : String
  pub code_file : String
  pub token_file : String
  pub ca_file : Option String
  pub allow_http : Bool

-- `path.exists()`, when the temporary file has the line
abbrev install_new : SecretPath → String → Option String → Writing
install_new path line none = install path line none
install_new path line (some text) =
    (err token_exists, (some text, unless_removed path.removed line))

-- `file` is the text of the token file before.
unfoldable pub write_token : SecretPath → String → Option String → Writing
write_token path token file =
    elim (do guard path.has_parent no_parent; guard path.created io_failed) [
      | err e ↦ (err e, (file, none))
      | ok _ ↦ elim path.cut [
        | some n ↦ (err io_failed, (file, some (beginning n (secret_line token))))
        | none ↦ install_new path (secret_line token) file
      ]
    ]

unfoldable pub read_token : Option String → Result String
read_token file = do
  text ← or_fail file io_failed
  guard (not (is_empty (trim text))) empty_token_file
  ok (trim text)

-- `response.json()`
abbrev token_of : Body → Result String
token_of (enrolled token) = ok token
token_of _ = err undecodable

abbrev pub enrolled_token : Response → Result String
enrolled_token response = do
  guard (is_success response.status) server_refused
  token ← token_of response.body
  guard (not (is_blank token)) empty_token
  ok token

-- What the run leaves: its answer, the token file, the temporary file, and the world.
pub record Enrollment (W : Type 0) : Type 0 where
  pub answer : Result (Unit {0})
  pub file : Option String
  pub temporary : Option String
  pub world : W

-- `post` sends the request; it gives no response where that fails.
module _ {W : Type 0} (post : EnrollmentRequest → W → Option Response × W) where
  abbrev written : Writing → W → Enrollment W
  written (answer, (file, left)) w = record {
    answer = answer;
    file = file;
    temporary = left;
    world = w;
  }

  abbrev receive : SecretPath → Option String → Option Response × W → Enrollment W
  receive path file (response, w) = elim (or_fail response send_failed >>= enrolled_token) [
    | err e ↦ record { answer = err e; file = file; temporary = none; world = w }
    | ok token ↦ written (write_token path token file) w
  ]

  -- `code` is the text of the code file.
  unfoldable pub enroll :
      ClientLibrary
      → EnrollmentConfig
      → SecretPath
      → Option String
      → Option String
      → W
      → Enrollment W
  unfolding write_token
  enroll lib config path code file w =
      elim (do
        guard (not (is_blank config.name)) empty_name
        text ← or_fail code io_failed
        guard (not (is_empty (trim text))) empty_code
        build_client lib config.server config.ca_file config.allow_http
        ok (trim text)) [
          | err e ↦ record { answer = err e; file = file; temporary = none; world = w }
          | ok secret ↦ receive path file (post (record { name = config.name; code = secret }) w)
        ]
