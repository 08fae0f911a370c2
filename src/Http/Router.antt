-- ===== src/Http/Router.antt =====
-- The router of src/server.rs: which handler answers a request, on the credentials and the database.
pub mod Logged
pub mod Steps
use beacon_alerts.Prelude.{
  ℕ, String, Bool, true, false, Option, none, some, List, [], ◌∷◌, leb, ◌==◌, if◌then◌else◌,
}
use beacon_alerts.Model.{Event}
use beacon_alerts.Model.Validate.{Formats}
use beacon_alerts.Store.{Database, AlertRow, ServerEventStore}
use beacon_alerts.Store.Accept.{Times}
use beacon_alerts.Store.Clock.{Chrono}
use beacon_alerts.Store.Enrollment.{Secrets, Credentials, Saving}
use beacon_alerts.Http.{
  Response, CredentialEntry, AlertQuery, EnrollmentRequest, rejected, healthz, accept_event,
  enroll_agent, get_alerts,
}
use beacon_alerts.Http.Enrolled.{credential_entries}

pub data Method : Type 0 where
  get head post other_method : Method

-- A request: `media` is its content type.
pub record Request : Type 0 where
  pub method : Method
  pub path : String
  pub query : String
  pub authorization : Option String
  pub media : Option String
  pub body : String

-- What an extractor of `axum` makes of a request: a value, or the status of its rejection.
pub data Extracted (A : Type 0) : Type 0 where
  rejection : ℕ → Extracted A
  extracted : A → Extracted A

-- The extractors: JSON bodies of at most so many bytes, and the query of the listing.
pub record Extractors : Type 0 where
  pub event : ℕ → Request → Extracted Event
  pub enrollment : ℕ → Request → Extracted EnrollmentRequest
  pub query : Request → Extracted AlertQuery

pub data Route : Type 0 where
  health events enrollments alerts : Route

abbrev pub route_of : String → Option Route
route_of path =
    if path == "/healthz"
    then some health
    else if path == "/v1/events"
    then some events
    else if path == "/v1/enroll"
    then some enrollments
    else if path == "/v1/alerts"
    then some alerts
    else none

-- `DefaultBodyLimit::max`
abbrev pub body_limit : ℕ
body_limit = 262144

abbrev pub is_get : Method → Bool
is_get get = true
is_get head = true
is_get _ = false

abbrev pub is_post : Method → Bool
is_post post = true
is_post _ = false

abbrev pub rejected_with : ℕ → Response
rejected_with status = record { status = status; body = rejected }

-- What the server keeps: the credential files and the database.
pub record World : Type 0 where
  pub files : Credentials
  pub db : Database

-- A request with what the server finds when it arrives: its times, the time and the token of an
-- enrollment, and how the writing of the credential and the commit go.
pub record Arrival (T : Type 0) : Type 0 where
  pub request : Request
  pub times : Times
  pub now : T
  pub token : String
  pub saving : Saving T

module _ {T : Type 0} (x : Formats) (store : ServerEventStore) (ch : Chrono T) (secrets : Secrets T)
    (order : List AlertRow → List AlertRow) (extract : Extractors) where
  -- the credential directory can be read
  abbrev pub directory_of : World → Option (List CredentialEntry)
  directory_of w = some (credential_entries w.files)

  abbrev pub on_event : Arrival T → World → Extracted Event → Response × World
  on_event a w (rejection status) = (rejected_with status, w)
  on_event a w (extracted event) =
      let (response, db) =
        accept_event x store a.times a.request.authorization event (directory_of w) w.db in
      (response, record w { db = db })

  abbrev pub on_enrollment : Arrival T → World → Extracted EnrollmentRequest → Response × World
  on_enrollment a w (rejection status) = (rejected_with status, w)
  on_enrollment a w (extracted request) =
      let (response, kept) = enroll_agent ch secrets request a.now a.token a.saving w.files w.db in
      (response, record { files = kept.0; db = kept.1 })

  abbrev pub on_query : Arrival T → World → Extracted AlertQuery → Response
  on_query a w (rejection status) = rejected_with status
  on_query a w (extracted query) =
      get_alerts order a.request.authorization query (directory_of w) w.db

  -- `build_router`
  unfoldable pub handle : Arrival T → World → Response × World
  unfolding accept_event enroll_agent get_alerts
  handle a w = elim (route_of a.request.path) [
    | none ↦ (rejected_with 404, w)
    | some health ↦ (if is_get a.request.method then healthz else rejected_with 405, w)
    | some events ↦
        if is_post a.request.method
        then on_event a w (extract.event body_limit a.request)
        else (rejected_with 405, w)
    | some enrollments ↦
        if is_post a.request.method
        then on_enrollment a w (extract.enrollment body_limit a.request)
        else (rejected_with 405, w)
    | some alerts ↦ (
      if is_get a.request.method then on_query a w (extract.query a.request) else rejected_with 405,
      w,
    )
  ]

  -- the requests one after the other
  unfoldable pub handle_all : List (Arrival T) → World → World
  unfolding handle
  handle_all [] w = w
  handle_all (a ∷ rest) w = handle_all rest (handle a w).1
