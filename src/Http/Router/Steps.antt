-- ===== src/Http/Router/Steps.antt =====
-- What one request to the router of src/server.rs changes.
use beacon_alerts.Prelude.{
  subst, sym, some, Option-cases, ℕ, String, ◌≡◌, refl, ◌⊎◌, inl, inr, Bool, true, false, List, [],
  ◌∷◌, All, All-map, IsIn, ◌==◌, eq_iff, Bool-cases, if◌then◌else◌,
}
use beacon_alerts.Fallible.{ok, Result-cases}
use beacon_alerts.Model.{Event}
use beacon_alerts.Model.Validate.{Formats, validate}
use beacon_alerts.Store.{Database, AlertRow, EnrollmentRow, ServerEventStore}
use beacon_alerts.Store.Accept.{EventResult, accept}
use beacon_alerts.Store.Clock.{Chrono}
use beacon_alerts.Store.Enrollment.{
  CredentialFile, Credentials, credential, temporary, with_left, Secrets,
}
use beacon_alerts.SecretFile.{left_over}
use beacon_alerts.Store.Enrollment.Endings.{Admitted, consume_enrollment-Ending}
use beacon_alerts.Store.History.{History, logged, accepts, enrolls}
use beacon_alerts.Http.{EnrollmentRequest, authorized, accept_event, enroll_agent}
use beacon_alerts.Http.Router.{
  Extracted, rejection, extracted, Extractors, body_limit, is_post, World, Arrival, directory_of,
  on_event, on_enrollment, handle,
}

Extracted-cases :
    {A : Type 0} (e : Extracted A)
    → ((status : ℕ) × (e ≡ rejection status)) ⊎ ((a : A) × (e ≡ extracted a))
Extracted-cases (rejection status) = inl (status, refl)
Extracted-cases (extracted a) = inr (a, refl)

-- Each element is in the list.
pub old : {A : Type 0} (Q : A → Type 0) (xs : List A) → All (λ a. IsIn a xs ⊎ Q a) xs
old Q [] = tt
old Q (x ∷ xs) =
    (inl (inl refl), All-map (λ a h. elim h [ inl m ↦ inl (inr m) | inr q ↦ inr q ]) xs (old Q xs))

module _ {T : Type 0} (x : Formats) (store : ServerEventStore) (ch : Chrono T) (secrets : Secrets T)
    (order : List AlertRow → List AlertRow) (extract : Extractors) where
  -- The request brings the valid event, and its token is let through.
  pub record IsLetIn (a : Arrival T) (w : World) (e : Event) : Type 0 where
    pub path : a.request.path ≡ "/v1/events"
    pub admitted :
        authorized a.request.authorization (directory_of x store ch secrets order extract w) ≡ true
    pub brought : extract.event body_limit a.request ≡ extracted e
    pub valid : validate x e ≡ ok tt

  -- The request brings a name with a code that passes the checks for it, and the file is the
  -- credential of the name with the token of the request, or what is left of its temporary file.
  pub record IsEnrolled (a : Arrival T) (w : World) (file : CredentialFile) : Type 0 where
    pub path : a.request.path ≡ "/v1/enroll"
    pub request : EnrollmentRequest
    pub brought : extract.enrollment body_limit a.request ≡ extracted request
    pub admitted : Admitted ch secrets request.name request.code a.now w.files w.db
    pub made :
        (file ≡ credential request.name a.token)
        ⊎ ((text : String) × (left_over a.saving.path a.token ≡ some text)
            × (file ≡ temporary text))

  -- What the server keeps after a request.
  pub record Step (log : List Event) (a : Arrival T) (w w' : World) : Type 0 where
    pub log' : List Event
    pub reached : History x store ch log' w'.db
    pub came : All (λ e. IsIn e log ⊎ IsLetIn a w e) log'
    pub files : All (λ file. IsIn file w.files ⊎ IsEnrolled a w file) w'.files

  module _ (log : List Event) (a : Arrival T) (w : World) (h : History x store ch log w.db) where
    stays : Step log a w w
    stays = record {
      log' = log;
      reached = h;
      came = old (IsLetIn a w) log;
      files = old (IsEnrolled a w) w.files;
    }

    logged-came :
        (b : Bool) (e : Event)
        → IsLetIn a w e
        → All (λ f. IsIn f log ⊎ IsLetIn a w f) (if b then log else e ∷ log)
    logged-came true e l = old (IsLetIn a w) log
    logged-came false e l = (inr l, old (IsLetIn a w) log)

    accepted-Step :
        (e : Event) (db' : Database) (reply : EventResult)
        → IsLetIn a w e
        → accept x store a.times e w.db ≡ ok (reply, db')
        → Step log a w (record w { db = db' })
    accepted-Step e db' reply l done = record {
      log' = logged reply e log;
      reached = accepts e a.times reply done h;
      came = logged-came reply.duplicate e l;
      files = old (IsEnrolled a w) w.files;
    }

    event-Step :
        (e : Event)
        → a.request.path ≡ "/v1/events"
        → extract.event body_limit a.request ≡ extracted e
        → Step log a w (on_event x store ch secrets order extract a w (extracted e)).1
    unfolding accept_event
    event-Step e path brought =
        let directory = directory_of x store ch secrets order extract w in
        elim (Bool-cases (authorized a.request.authorization directory)) [
          | inr shut ↦ rw (shut, accept_event) stays
          | inl admitted ↦ elim (Result-cases (validate x e)) [
            | inr (error, invalid) ↦ rw (admitted, invalid, accept_event) stays
            | inl (_, valid) ↦ elim (Result-cases (accept x store a.times e w.db)) [
              | inr (error, failed) ↦ rw (admitted, valid, failed, accept_event) stays
              | inl ((reply, db'), done) ↦
                  rw (admitted, valid, done, accept_event)
                    (accepted-Step e db' reply
                      (record {
                        path = path;
                        admitted = admitted;
                        brought = brought;
                        valid = valid;
                      })
                      done)
            ]
          ]
        ]

    on_event-Step :
        a.request.path ≡ "/v1/events"
        → Step log a w
            (on_event x store ch secrets order extract a w (extract.event body_limit a.request)).1
    on_event-Step path = elim (Extracted-cases (extract.event body_limit a.request)) [
      | inl (status, bad) ↦ rw bad stays
      | inr (e, brought) ↦ rw brought (event-Step e path brought)
    ]

    -- the files that were there and what is left of the temporary file
    left_files :
        (r : EnrollmentRequest)
        → a.request.path ≡ "/v1/enroll"
        → extract.enrollment body_limit a.request ≡ extracted r
        → Admitted ch secrets r.name r.code a.now w.files w.db
        → All
            (λ file. IsIn file w.files ⊎ IsEnrolled a w file)
            (with_left (left_over a.saving.path a.token) w.files)
    left_files r path brought admitted = elim (Option-cases (left_over a.saving.path a.token)) [
      | inl clean ↦ rw clean (old (IsEnrolled a w) w.files)
      | inr (text, left) ↦
          let made : IsEnrolled a w (temporary text) = record {
            path = path;
            request = r;
            brought = brought;
            admitted = admitted;
            made = inr (text, left, refl);
          } in
          subst (λ o. All (λ file. IsIn file w.files ⊎ IsEnrolled a w file) (with_left o w.files))
            (sym left) (inr made, old (IsEnrolled a w) w.files)
    ]

    enrolled-Step :
        (r : EnrollmentRequest) (rows : List EnrollmentRow) (more : Credentials)
        → a.request.path ≡ "/v1/enroll"
        → extract.enrollment body_limit a.request ≡ extracted r
        → Admitted ch secrets r.name r.code a.now w.files w.db
        → All (λ file. IsIn file w.files ⊎ IsEnrolled a w file) more
        → Step log a w (record {
          files = credential r.name a.token ∷ more;
          db = record w.db { enrollments = rows };
        })
    enrolled-Step r rows more path brought admitted each =
        let made : IsEnrolled a w (credential r.name a.token) = record {
          path = path;
          request = r;
          brought = brought;
          admitted = admitted;
          made = inl refl;
        } in
        record {
          log' = log;
          reached = enrolls rows h;
          came = old (IsLetIn a w) log;
          files = (inr made, each);
        }

    enrollment-Step :
        (r : EnrollmentRequest)
        → a.request.path ≡ "/v1/enroll"
        → extract.enrollment body_limit a.request ≡ extracted r
        → Step log a w (on_enrollment x store ch secrets order extract a w (extracted r)).1
    unfolding enroll_agent
    enrollment-Step r path brought =
        elim (consume_enrollment-Ending ch secrets r.name r.code a.now a.now a.token a.token
          a.saving a.saving w.files w.db) [
            | inl (_, (e, refused)) ↦ rw (refused, enroll_agent) stays
            | inr (admitted, inl (_, (e, unwritten))) ↦
                rw (unwritten, enroll_agent)
                  (record {
                    log' = log;
                    reached = h;
                    came = old (IsLetIn a w) log;
                    files = left_files r path brought admitted;
                  })
            | inr (admitted, inr (_, inl (_, (e, left), _))) ↦
                rw (left, enroll_agent)
                  (enrolled-Step r w.db.enrollments _ path brought admitted
                    (left_files r path brought admitted))
            | inr (admitted, inr (_, inr (_, done))) ↦
                rw (done, enroll_agent)
                  (enrolled-Step r _ w.files path brought admitted (old (IsEnrolled a w) w.files))
          ]

    on_enrollment-Step :
        a.request.path ≡ "/v1/enroll"
        → Step log a w
            (on_enrollment x store ch secrets order extract a w
              (extract.enrollment body_limit a.request)).1
    on_enrollment-Step path = elim (Extracted-cases (extract.enrollment body_limit a.request)) [
      | inl (status, bad) ↦ rw bad stays
      | inr (r, brought) ↦ rw brought (enrollment-Step r path brought)
    ]

    pub handle-Step : Step log a w (handle x store ch secrets order extract a w).1
    unfolding handle
    handle-Step = elim (Bool-cases (a.request.path == "/healthz")) [
      | inl e ↦ rw (e, handle) stays
      | inr f ↦ elim (Bool-cases (a.request.path == "/v1/events")) [
        | inl e ↦ elim (Bool-cases (is_post a.request.method)) [
          | inl p ↦ rw (f, e, p, handle) (on_event-Step ((eq_iff a.request.path "/v1/events").0 e))
          | inr p ↦ rw (f, e, p, handle) stays
        ]
        | inr g ↦ elim (Bool-cases (a.request.path == "/v1/enroll")) [
          | inl e ↦ elim (Bool-cases (is_post a.request.method)) [
            | inl p ↦
                rw (f, g, e, p, handle)
                  (on_enrollment-Step ((eq_iff a.request.path "/v1/enroll").0 e))
            | inr p ↦ rw (f, g, e, p, handle) stays
          ]
          | inr k ↦ elim (Bool-cases (a.request.path == "/v1/alerts")) [
            | inl e ↦ rw (f, g, k, e, handle) stays
            | inr e ↦ rw (f, g, k, e, handle) stays
          ]
        ]
      ]
    ]
