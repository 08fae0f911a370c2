-- ===== src/Http/Enrolled.antt =====
-- The credentials that enrolling writes, as src/server.rs reads them again.
use Prim.Native.String.{◌++◌ as append}
use beacon_alerts.Prelude.{
  String, ◌≡◌, refl, ap, true, ◌||◌, Option, some, List, [], ◌∷◌, map, All, trim, trim-line, not,
  ◌&&◌, is_empty, ◌==◌,
}
use beacon_alerts.Fallible.{ok}
use beacon_alerts.SecretFile.{secret_line}
use beacon_alerts.Store.{Database}
use beacon_alerts.Store.Clock.{Chrono}
use beacon_alerts.Store.Enrollment.{
  CredentialFile, temporary, credential, Secrets, Credentials, Saving, consume_enrollment,
}
use beacon_alerts.Store.Enrollment.Codes.{consume_enrollment-Consumed}
use beacon_alerts.Http.{CredentialEntry, authorized}
use beacon_alerts.Http.Tokens.{IsReadable, authorized-bearer}

-- the text of a file of the directory
abbrev pub text_of : CredentialFile → String
text_of (credential name token) = secret_line token
text_of (temporary text) = text

abbrev pub credential_entry : CredentialFile → CredentialEntry
credential_entry file = record { is_file = some true; text = some (text_of file) }

abbrev pub credential_entries : Credentials → List CredentialEntry
credential_entries files = map credential_entry files

-- `bearer_auth` of the client
abbrev pub bearer : String → Option String
bearer token = some (append "Bearer " token)

credential_entries-IsReadable : (files : Credentials) → All IsReadable (credential_entries files)
credential_entries-IsReadable [] = tt
credential_entries-IsReadable (file ∷ files) = (tt, credential_entries-IsReadable files)

-- After an enrollment, a bearer token is let through exactly when it is the new token without the
-- space around it, where that is not empty, or was let through before.
pub enrolled-authorized :
    {T : Type 0} (ch : Chrono T) (x : Secrets T) (name secret : String) (now : T) (token : String)
    (saving : Saving T) (files files' : Credentials) (db db' : Database) (presented : String)
    → consume_enrollment ch x name secret now token saving files db ≡ (ok token, (files', db'))
    → authorized (bearer presented) (some (credential_entries files')) ≡ (
        (not (is_empty (trim token)) && trim token == presented)
        || authorized (bearer presented) (some (credential_entries files)))
enrolled-authorized ch x name secret now token saving files files' db db' presented h =
    let c =
      consume_enrollment-Consumed ch x name secret now token saving files db (token, (files', db'))
        h in
    let grown : files' ≡ credential name token ∷ files =
      ap (λ (a : String × (Credentials × Database)). a.1.0) c.wrote in
    rw
      (
        grown,
        authorized-bearer presented (credential_entries files)
            (credential_entries-IsReadable files),
        authorized-bearer presented (credential_entries (credential name token ∷ files))
            (credential_entries-IsReadable (credential name token ∷ files)),
      )
      (rw (trim-line token) refl)
