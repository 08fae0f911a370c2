-- ===== src/Http.antt =====
-- The HTTP layer of src/server.rs: credentials, the handlers of the routes, and their answers.
pub mod Tokens
pub mod Events
pub mod Enrolled
pub mod Lists
pub mod Router
use Prim.Native.Char.{code}
use Prim.Native.String.{[], ◌∷◌}
use mathlib.Core.List
use beacon_alerts.Prelude.{
  ℕ, String, Bool, true, false, not, ◌&&◌, ◌||◌, Option, none, some, List, eqb, trim, is_empty,
  ◌==◌, if◌then◌else◌,
}
use beacon_alerts.Fallible.{
  Error, Result, ok, err, ◌>>=◌, or_fail, io_failed, event_conflict, panicked,
}
use beacon_alerts.Model.{Event, AlertRecord}
use beacon_alerts.Model.AlertStatus
use beacon_alerts.Model.AlertStatus.{AlertStatus}
use beacon_alerts.Model.Validate.{Formats, validate}
use beacon_alerts.Store.{Database, AlertRow, ServerEventStore}
use beacon_alerts.Store.Accept.{EventResult, Times, accept}
use beacon_alerts.Store.Clock.{Chrono}
use beacon_alerts.Store.Enrollment.{Secrets, Credentials, Saving, consume_enrollment}
use beacon_alerts.Store.Listing.{list_alerts}

-- An entry of the credential directory: whether it is a file, and its text; none for an error.
pub record CredentialEntry : Type 0 where
  pub is_file : Option Bool
  pub text : Option String

-- what the loop does with the text of a file; the comparison takes constant time
abbrev pub token_matches : String → String → Bool
token_matches presented text = not (is_empty (trim text)) && trim text == presented

-- what the loop finds in an entry, by whether it is a file and by its text
abbrev pub read_entry : String → Option Bool → Option String → Result Bool
read_entry presented none text = err io_failed
read_entry presented (some false) text = ok false
read_entry presented (some true) none = err io_failed
read_entry presented (some true) (some text) = ok (token_matches presented text)

-- the loop of `CredentialStore::authorized` over the rest of the directory
unfoldable pub authorized_from : String → Bool → List CredentialEntry → Result Bool
authorized_from presented matched List.[] = ok matched
authorized_from presented matched (List.◌∷◌ entry entries) = do
  found ← read_entry presented entry.is_file entry.text
  authorized_from presented (matched || found) entries

-- `CredentialStore::authorized`; the directory is none where it cannot be read.
unfoldable pub check_token : String → Option (List CredentialEntry) → Result Bool
unfolding authorized_from
check_token presented directory = do
  entries ← or_fail directory io_failed
  authorized_from presented false entries

unfoldable pub strip_prefix : String → String → Option String
strip_prefix [] s = some s
strip_prefix (c ∷ p) [] = none
strip_prefix (c ∷ p) (d ∷ s) =
    let rest = strip_prefix p s in if eqb (code c) (code d) then rest else none

-- `unwrap_or(false)`
abbrev pub unwrap : Result Bool → Bool
unwrap (ok b) = b
unwrap (err e) = false

abbrev pub accepted_token : Option (List CredentialEntry) → Option String → Bool
accepted_token directory none = false
accepted_token directory (some token) = unwrap (check_token token directory)

-- `authorized`: the header is none where it is missing or no text.
unfoldable pub authorized : Option String → Option (List CredentialEntry) → Bool
authorized none directory = false
authorized (some header) directory = accepted_token directory (strip_prefix "Bearer " header)

pub data Body : Type 0 where
  healthy : Body
  unauthorized : Body
  rejected : Body
  failed : Error → Body
  accepted : String → Bool → AlertRecord → Body
  listed : List AlertRecord → Body
  enrolled : String → Body

pub record Response : Type 0 where
  pub status : ℕ
  pub body : Body

pub record AlertQuery : Type 0 where
  pub status : Option String
  pub limit : ℕ

abbrev pub default_limit : ℕ
default_limit = 100

pub record EnrollmentRequest : Type 0 where
  pub name : String
  pub code : String

abbrev pub healthz : Response
healthz = record { status = 200; body = healthy }

abbrev pub refused : Response
refused = record { status = 401; body = unauthorized }

-- the status of an error that `accept` reports
abbrev pub status_of_error : Error → ℕ
status_of_error event_conflict = 409
status_of_error _ = 500

module _ (x : Formats) (store : ServerEventStore) where
  -- the match on the result of the store
  abbrev answer_accepted : String → Database → Result (EventResult × Database) → Response × Database
  answer_accepted event_id db (ok (result, db')) =
      (record { status = 202; body = accepted event_id result.duplicate result.alert }, db')
  answer_accepted event_id db (err e) = (record { status = status_of_error e; body = failed e }, db)

  abbrev answer_valid : Times → Event → Database → Result (Unit {0}) → Response × Database
  answer_valid times event db (err e) = (record { status = 400; body = failed e }, db)
  answer_valid times event db (ok _) =
      answer_accepted event.event_id db (accept x store times event db)

  -- `POST /v1/events`
  unfoldable pub accept_event :
      Times → Option String → Event → Option (List CredentialEntry) → Database → Response × Database
  accept_event times header event directory db =
      if authorized header directory
      then answer_valid times event db (validate x event)
      else (refused, db)

abbrev pub answer_listed : Result (List AlertRecord) → Response
answer_listed (ok alerts) = record { status = 200; body = listed alerts }
answer_listed (err e) = record { status = 500; body = failed e }

abbrev pub status_of_query : Option String → Result (Option AlertStatus)
status_of_query none = ok none
status_of_query (some value) = do status ← AlertStatus.from_str value; ok (some status)

module _ (order : List AlertRow → List AlertRow) where
  abbrev pub answer_query : ℕ → Database → Result (Option AlertStatus) → Response
  answer_query limit db (err e) = record { status = 400; body = failed e }
  answer_query limit db (ok status) = answer_listed (list_alerts order status limit db)

  -- `GET /v1/alerts`
  unfoldable pub get_alerts :
      Option String → AlertQuery → Option (List CredentialEntry) → Database → Response
  get_alerts header query directory db =
      if authorized header directory
      then answer_query query.limit db (status_of_query query.status)
      else refused

module _ {T : Type 0} (ch : Chrono T) (secrets : Secrets T) where
  abbrev status_of_enrollment : Error → ℕ
  status_of_enrollment panicked = 500
  status_of_enrollment _ = 401

  abbrev answer_enrolled : Result String → Response
  answer_enrolled (ok token) = record { status = 201; body = enrolled token }
  answer_enrolled (err e) = record { status = status_of_enrollment e; body = failed e }

  -- `POST /v1/enroll`
  unfoldable pub enroll_agent :
      EnrollmentRequest
      → T
      → String
      → Saving T
      → Credentials
      → Database
      → Response × (Credentials × Database)
  enroll_agent request now token saving files db =
      let (answer, kept) =
        consume_enrollment ch secrets request.name request.code now token saving files db in
      (answer_enrolled answer, kept)
