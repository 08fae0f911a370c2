-- ===== src/Store/Enrollment.antt =====
-- Enrolling an agent by a code, of src/server.rs: `validate_agent_name`, the insertion of a code
-- and `consume_enrollment`.
pub mod Codes
pub mod Endings
pub mod Issue
use Prim.Native.Char.{code}
use Prim.Native.String.{String, ◌∷◌, [], len}
use mathlib.Core.List
use beacon_alerts.Prelude.{
  ℕ, Bool, true, false, not, ◌&&◌, ◌||◌, Option, none, some, any, find, ltb, leb, eqb, is_blank,
  is_empty, trim, ◌==◌, if◌then◌else◌,
}
use beacon_alerts.Fallible.{
  Result, ok, err, ◌>>=◌, ◌>>◌, guard, or_fail, invalid_agent_name, empty_code, no_lifetime,
  credential_exists, unknown_code, other_agent, code_used, invalid_expiry, code_expired,
  commit_failed, constraint_violation, panicked, io_failed,
}
use beacon_alerts.SecretFile.{SecretPath, Writing, working, write_secret_file}
use beacon_alerts.Store.{Database, EnrollmentRow}
use beacon_alerts.Store.Lifecycle.{has_text}
use beacon_alerts.Store.Clock.{Chrono, as_i64}

-- `is_ascii_alphanumeric`, a dot, an underscore or a dash. A character outside ASCII fails the test
-- as each of its bytes does.
abbrev pub is_name_char : ℕ → Bool
is_name_char c =
    (leb 48 c && leb c 57)
    || ((leb 65 c && leb c 90) || ((leb 97 c && leb c 122) || (eqb c 46 || (eqb c 95 || eqb c 45))))

unfoldable pub all_name_chars : String → Bool
all_name_chars [] = true
all_name_chars (c ∷ s) = is_name_char (code c) && all_name_chars s

unfoldable pub validate_agent_name : String → Result (Unit {0})
unfolding all_name_chars
validate_agent_name name = do
  guard (not (is_empty name || (ltb 64 (len name) || (name == "." || name == ".."))))
      invalid_agent_name
  guard (all_name_chars name) invalid_agent_name

-- What the code asks of SHA-256 in hexadecimal, and of `chrono` beyond `Chrono`.
pub record Secrets (T : Type 0) : Type 0 where
  pub digest : String → String
  pub parse_from_rfc3339 : String → Option T
  pub at_or_after : T → T → Bool

unfoldable pub hash_secret : {T : Type 0} → Secrets T → String → String
hash_secret x secret = x.digest (trim secret)

-- A file of the directory of the credentials: that of an agent, with its name and its token, or a
-- temporary file that was left there, with its text.
pub data CredentialFile : Type 0 where
  credential : String → String → CredentialFile
  temporary : String → CredentialFile

abbrev pub Credentials : Type 0
Credentials = List.List CredentialFile

abbrev pub is_of : String → CredentialFile → Bool
is_of name (credential agent token) = agent == name
is_of name (temporary text) = false

-- `credential_path.exists()`
abbrev pub has_credential : String → Credentials → Bool
has_credential name files = any (is_of name) files

abbrev pub has_hash : String → EnrollmentRow → Bool
has_hash hash row = row.code_hash == hash

-- `UPDATE enrollments SET consumed_at = ?1 WHERE code_hash = ?2 AND consumed_at IS NULL`
unfoldable pub set_consumed : String → String → List.List EnrollmentRow → List.List EnrollmentRow
set_consumed now hash List.[] = List.[]
set_consumed now hash (List.◌∷◌ row rows) =
    List.◌∷◌
      (if row.code_hash == hash && not (has_text row.consumed_at)
        then record row { consumed_at = some now }
        else row)
      (set_consumed now hash rows)

-- How the writing of the credential and the commit of the transaction go, and the time at which the
-- code is marked.
pub record Saving (T : Type 0) : Type 0 where
  pub time : T
  pub path : SecretPath
  pub committed : Bool

abbrev pub saved : {T : Type 0} → T → Saving T
saved time = record { time = time; path = working; committed = true }

-- the temporary file is left
abbrev pub with_left : Option String → Credentials → Credentials
with_left none files = files
with_left (some text) files = List.◌∷◌ (temporary text) files

-- The directory with the files that the writing has left.
abbrev pub with_files : String → String → Option String × Option String → Credentials → Credentials
with_files name token (none, left) files = with_left left files
with_files name token (some line, left) files =
    List.◌∷◌ (credential name token) (with_left left files)

-- The credential is written before the commit, and an error rolls the transaction
-- back; `used` is the database that is committed.
abbrev pub commit_written :
    String
    → String
    → Bool
    → Credentials
    → Database
    → Database
    → Writing
    → Result String × (Credentials × Database)
commit_written name token committed files db used (err e, left) =
    (err e, (with_files name token left files, db))
commit_written name token true files db used (ok _, left) =
    (ok token, (with_files name token left files, used))
commit_written name token false files db used (ok _, left) =
    (err commit_failed, (with_files name token left files, db))

module _ {T : Type 0} (ch : Chrono T) (x : Secrets T) where
  -- `INSERT INTO enrollments`, under the primary key
  unfoldable pub insert_code : String → String → ℕ → T → Database → Result Database
  insert_code name secret ttl_seconds now db = do
    expires ← or_fail (ch.add_seconds now (as_i64 ttl_seconds)) panicked
    guard (not (any (has_hash (hash_secret x secret)) db.enrollments)) constraint_violation
    ok (record db {
      enrollments = List.◌++◌ db.enrollments (
          List.◌∷◌
            (record {
              code_hash = hash_secret x secret;
              name = name;
              expires_at = ch.to_rfc3339 expires;
              consumed_at = none;
            })
            List.[]);
    })

  -- The code file is removed after an error, but not after a panic.
  abbrev remove_on_error :
      Option String × Option String
      → Result Database
      → Result Database × (Option String × Option String)
  remove_on_error left (ok db) = (ok db, left)
  remove_on_error left (err panicked) = (err panicked, left)
  remove_on_error left (err e) = (err e, (none, left.1))

  -- the code file is written
  abbrev insert_written :
      String
      → String
      → ℕ
      → T
      → Database
      → Writing
      → Result Database × (Option String × Option String)
  insert_written name secret ttl_seconds now db (err e, left) = (err e, left)
  insert_written name secret ttl_seconds now db (ok _, left) =
      remove_on_error left (insert_code name secret ttl_seconds now db)

  -- `directory` tells whether the directory of the credentials is made, and `file` is the text of
  -- the code file before; the second result is its text and that of the temporary file afterwards.
  unfoldable pub create_enrollment :
      String
      → String
      → ℕ
      → T
      → Bool
      → SecretPath
      → Option String
      → Database
      → Result Database × (Option String × Option String)
  unfolding validate_agent_name insert_code
  create_enrollment name secret ttl_seconds now directory path file db =
      elim (do
        guard directory io_failed
        validate_agent_name name
        guard (not (eqb ttl_seconds 0)) no_lifetime) [
          | err e ↦ (err e, (file, none))
          | ok _ ↦
              insert_written name secret ttl_seconds now db (write_secret_file path secret file)
        ]

  -- what `consume_enrollment` asks before it writes
  unfoldable pub check_enrollment : String → String → T → Credentials → Database → Result (Unit {0})
  unfolding validate_agent_name
  check_enrollment name secret now files db = do
    validate_agent_name name
    guard (not (is_blank secret)) empty_code
    guard (not (has_credential name files)) credential_exists
    row ← or_fail (find (has_hash (hash_secret x secret)) db.enrollments) unknown_code
    guard (row.name == name) other_agent
    guard (not (has_text row.consumed_at)) code_used
    expires_at ← or_fail (x.parse_from_rfc3339 row.expires_at) invalid_expiry
    guard (not (x.at_or_after now expires_at)) code_expired

  -- the database with the code marked as used
  abbrev pub with_used : String → T → Database → Database
  with_used secret now db = record db {
    enrollments = set_consumed (ch.to_rfc3339 now) (hash_secret x secret) db.enrollments;
  }

  unfoldable pub consume_enrollment :
      String
      → String
      → T
      → String
      → Saving T
      → Credentials
      → Database
      → Result String × (Credentials × Database)
  unfolding check_enrollment
  consume_enrollment name secret now token saving files db =
      elim (check_enrollment name secret now files db) [
        | err e ↦ (err e, (files, db))
        | ok _ ↦
            commit_written name token saving.committed files db (with_used secret saving.time db)
              (write_secret_file saving.path token none)
      ]
