-- ===== src/Store/Enrollment/Issue.antt =====
-- A code that was issued enrolls its agent.
use beacon_alerts.Prelude.{
  ℕ, String, ◌≡◌, refl, ap, true, false, none, some, List, [], ◌∷◌, ◌++◌, arith, find, any,
  is_blank, ◌==◌, eq_refl, eqb,
}
use beacon_alerts.Fallible.{ok}
use beacon_alerts.SecretFile.{working, secret_line, write_secret_file}
use beacon_alerts.Store.{Database, EnrollmentRow}
use beacon_alerts.Store.Clock.{Chrono, as_i64}
use beacon_alerts.Store.Enrollment.{
  credential, Secrets, hash_secret, Credentials, has_credential, has_hash, set_consumed,
  validate_agent_name, insert_code, create_enrollment, check_enrollment, saved, consume_enrollment,
}

find-append_new :
    (hash : String) (rows : List EnrollmentRow) (row : EnrollmentRow)
    → any (has_hash hash) rows ≡ false
    → row.code_hash ≡ hash
    → find (has_hash hash) (rows ++ row ∷ []) ≡ some row
find-append_new hash [] row new same =
    ground (arith, same, eq_refl hash, ap (λ (h : String). h == hash) same)
find-append_new hash (r ∷ rows) row new same =
    ground (arith, new, find-append_new hash rows row (ground (arith, new)) same)

module _ {T : Type 0} (ch : Chrono T) (x : Secrets T) where
  -- the row of a new code
  abbrev pub issued : String → String → T → EnrollmentRow
  issued name secret expires = record {
    code_hash = hash_secret x secret;
    name = name;
    expires_at = ch.to_rfc3339 expires;
    consumed_at = none;
  }

  -- A code that can be issued for a valid name, with a lifetime and a new hash, enrolls its agent
  -- once before its expiry, if it is not blank, the expiry is parsed back as it was printed, the
  -- agent has no credential and the files can be written. The token of the agent is then on file.
  pub create-consume :
      (name secret : String) (ttl : ℕ) (now later expires : T) (token : String)
      (files : Credentials) (db : Database)
      → validate_agent_name name ≡ ok tt
      → eqb ttl 0 ≡ false
      → is_blank secret ≡ false
      → ch.add_seconds now (as_i64 ttl) ≡ some expires
      → any (has_hash (hash_secret x secret)) db.enrollments ≡ false
      → x.parse_from_rfc3339 (ch.to_rfc3339 expires) ≡ some expires
      → x.at_or_after later expires ≡ false
      → has_credential name files ≡ false
      → (db' : Database) × (db'' : Database) × (create_enrollment ch x name secret ttl now true
            working none db
          ≡ (ok db', (some (secret_line secret), none)))
        × (consume_enrollment ch x name secret later token (saved later) files db'
            ≡ (ok token, (credential name token ∷ files, db'')))
  unfolding create_enrollment write_secret_file insert_code check_enrollment consume_enrollment
  create-consume name secret ttl now later expires token files db valid lives some_code due new back
        early no_file =
      let db' : Database = record db {
        enrollments = db.enrollments ++ issued name secret expires ∷ [];
      } in
      (
        db',
        record db' {
          enrollments = set_consumed (ch.to_rfc3339 later) (hash_secret x secret) db'.enrollments;
        },
        rw (create_enrollment, valid)
            (rw (lives, create_enrollment) (rw (write_secret_file, insert_code, due, new) refl)),
        rw
            (
              consume_enrollment,
              valid,
              some_code,
              no_file,
              find-append_new (hash_secret x secret) db.enrollments (issued name secret expires) new
                  refl,
              eq_refl name,
              back,
              early,
              check_enrollment,
            )
            refl,
      )
