-- ===== src/Http/Router/Logged.antt =====
-- How the requests to the router of src/server.rs change what the server keeps.
use beacon_alerts.Prelude.{◌⊎◌, inl, inr, List, [], ◌∷◌, All, All-map, IsIn}
use beacon_alerts.Model.{Event}
use beacon_alerts.Model.Validate.{Formats}
use beacon_alerts.Store.{AlertRow, ServerEventStore}
use beacon_alerts.Store.Clock.{Chrono}
use beacon_alerts.Store.Enrollment.{CredentialFile, Secrets}
use beacon_alerts.Store.Listing.Newest.{All-IsIn}
use beacon_alerts.Store.History.{History}
use beacon_alerts.Http.Router.{Extractors, World, Arrival, handle, handle_all}
use beacon_alerts.Http.Router.Steps.{old, IsLetIn, IsEnrolled, handle-Step}

module _ {T : Type 0} (x : Formats) (store : ServerEventStore) (ch : Chrono T) (secrets : Secrets T)
    (order : List AlertRow → List AlertRow) (extract : Extractors) where
  -- One of the requests brought the event and was let through when it came.
  abbrev pub WasLetIn : List (Arrival T) → World → Event → Type 0
  WasLetIn [] w e = ⊥
  WasLetIn (a ∷ rest) w e =
      IsLetIn x store ch secrets order extract a w e
      ⊎ WasLetIn rest (handle x store ch secrets order extract a w).1 e

  -- The file was written for one of the requests, which brought a code that passed the checks.
  abbrev pub WasEnrolled : List (Arrival T) → World → CredentialFile → Type 0
  WasEnrolled [] w file = ⊥
  WasEnrolled (a ∷ rest) w file =
      IsEnrolled x store ch secrets order extract a w file
      ⊎ WasEnrolled rest (handle x store ch secrets order extract a w).1 file

  -- What the server keeps after the requests, and where that came from.
  pub record Kept (log : List Event) (requests : List (Arrival T)) (before after : World)
      : Type 0 where
    pub log' : List Event
    pub reached : History x store ch log' after.db
    pub came : All (λ e. IsIn e log ⊎ WasLetIn requests before e) log'
    pub files : All (λ file. IsIn file before.files ⊎ WasEnrolled requests before file) after.files

chained :
    {A : Type 0} (P Q : A → Type 0) (xs ys zs : List A)
    → All (λ a. IsIn a xs ⊎ P a) ys
    → All (λ a. IsIn a ys ⊎ Q a) zs
    → All (λ a. IsIn a xs ⊎ (P a ⊎ Q a)) zs
chained P Q xs ys zs h k =
    All-map
      (λ a c. elim c [
        | inr q ↦ inr (inr q)
        | inl m ↦ elim (All-IsIn (λ b. IsIn b xs ⊎ P b) a ys h m) [
          | inl old_one ↦ inl old_one
          | inr p ↦ inr (inl p)
        ]
      ])
      zs k

-- Whatever requests come, one after the other, to a server in a database that it can reach, the
-- database that they leave is one that it can reach, every event of its history was there before or
-- was brought, valid, by a request to the route of events whose token was let through when it came,
-- and every file in the directory of the credentials was there before or was written for a request
-- to the route of enrollments that came, before its expiry, with an unused code of its name: it is
-- the credential of the name with the token of the request, or what a failure has left of the
-- temporary file with this token.
pub handle_all-Kept :
    {T : Type 0} (x : Formats) (store : ServerEventStore) (ch : Chrono T) (secrets : Secrets T)
    (order : List AlertRow → List AlertRow) (extract : Extractors) (requests : List (Arrival T))
    (log : List Event) (w : World)
    → History x store ch log w.db
    → Kept x store ch secrets order extract log requests w
        (handle_all x store ch secrets order extract requests w)
unfolding handle_all
handle_all-Kept x store ch secrets order extract [] log w h = record {
  log' = log;
  reached = h;
  came = old (λ _. ⊥) log;
  files = old (λ _. ⊥) w.files;
}
handle_all-Kept x store ch secrets order extract (a ∷ rest) log w h =
    let s = handle-Step x store ch secrets order extract log a w h in
    let w' = (handle x store ch secrets order extract a w).1 in
    let k = handle_all-Kept x store ch secrets order extract rest s.log' w' s.reached in
    record {
      log' = k.log';
      reached = k.reached;
      came =
          chained (IsLetIn x store ch secrets order extract a w)
            (WasLetIn x store ch secrets order extract rest w') log s.log' k.log' s.came k.came;
      files =
          chained (IsEnrolled x store ch secrets order extract a w)
            (WasEnrolled x store ch secrets order extract rest w') w.files w'.files _ s.files
            k.files;
    }
