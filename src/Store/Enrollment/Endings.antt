-- ===== src/Store/Enrollment/Endings.antt =====
-- How `consume_enrollment` of src/server.rs ends: its checks, the credential file and the commit.
use beacon_alerts.Prelude.{
  ◌&&◌, ◌⊎◌, none, eq_refl, String, ◌≡◌, refl, sym, subst, inl, inr, Bool, true, false, not, some,
  ◌∷◌, find, is_blank, ◌==◌, Bool-cases,
}
use beacon_alerts.SecretFile.{
  installs, Writing, left_over, installed_left_over, IsNew, write_secret_file,
  write_secret_file-IsNew,
}
use beacon_alerts.Fallible.{
  Result, err, Result-cases, Error, ok, guard, or_fail, or_fail-eq-ok, >>=-eq-ok, code_used,
  unknown_code, empty_code, credential_exists, other_agent, invalid_expiry, code_expired,
  commit_failed,
}
use beacon_alerts.Store.{Database, EnrollmentRow}
use beacon_alerts.Store.Lifecycle.{has_text}
use beacon_alerts.Store.Clock.{Chrono}
use beacon_alerts.Store.Enrollment.{
  credential, with_left, Secrets, hash_secret, Credentials, has_credential, has_hash,
  validate_agent_name, consume_enrollment, check_enrollment, with_used, Saving, commit_written,
}

guard-eq-ok : (b : Bool) (e : Error) {u : Unit {0}} → guard b e ≡ ok u → b ≡ true
guard-eq-ok true e h = refl
guard-eq-ok false e h = cc

guard-not : (b : Bool) (e : Error) {u : Unit {0}} → guard (not b) e ≡ ok u → b ≡ false
guard-not true e h = cc
guard-not false e h = refl

module _ {T : Type 0} (ch : Chrono T) (x : Secrets T) where
  -- What the checks of an enrollment have found.
  pub record Admitted (name secret : String) (now : T) (files : Credentials) (db : Database)
      : Type 0 where
    pub row : EnrollmentRow
    pub expires_at : T
    pub valid : validate_agent_name name ≡ ok tt
    pub some_code : is_blank secret ≡ false
    pub new : has_credential name files ≡ false
    pub found : find (has_hash (hash_secret x secret)) db.enrollments ≡ some row
    pub agent : (row.name == name) ≡ true
    pub unused : has_text row.consumed_at ≡ false
    pub expiry : x.parse_from_rfc3339 row.expires_at ≡ some expires_at
    pub fresh : x.at_or_after now expires_at ≡ false

  check_enrollment-Admitted :
      (name secret : String) (now : T) (files : Credentials) (db : Database)
      → check_enrollment ch x name secret now files db ≡ ok tt
      → Admitted name secret now files db
  unfolding check_enrollment
  check_enrollment-Admitted name secret now files db h =
      let (_, valid, h1) = >>=-eq-ok (validate_agent_name name) _ h in
      let (_, some_code, h2) = >>=-eq-ok (guard (not (is_blank secret)) empty_code) _ h1 in
      let (_, new, h3) =
        >>=-eq-ok (guard (not (has_credential name files)) credential_exists) _ h2 in
      let (row, found, h4) =
        >>=-eq-ok (or_fail (find (has_hash (hash_secret x secret)) db.enrollments) unknown_code) _
          h3 in
      let (_, agent, h5) = >>=-eq-ok (guard (row.name == name) other_agent) _ h4 in
      let (_, unused, h6) = >>=-eq-ok (guard (not (has_text row.consumed_at)) code_used) _ h5 in
      let (expires_at, expiry, fresh) =
        >>=-eq-ok (or_fail (x.parse_from_rfc3339 row.expires_at) invalid_expiry) _ h6 in
      record {
        row = row;
        expires_at = expires_at;
        valid = valid;
        some_code = guard-not (is_blank secret) empty_code some_code;
        new = guard-not (has_credential name files) credential_exists new;
        found = or_fail-eq-ok _ row unknown_code found;
        agent = guard-eq-ok (row.name == name) other_agent agent;
        unused = guard-not (has_text row.consumed_at) code_used unused;
        expiry = or_fail-eq-ok _ expires_at invalid_expiry expiry;
        fresh = guard-not (x.at_or_after now expires_at) code_expired fresh;
      }

  Admitted-check_enrollment :
      (name secret : String) (now : T) (files : Credentials) (db : Database)
      → Admitted name secret now files db
      → check_enrollment ch x name secret now files db ≡ ok tt
  unfolding check_enrollment
  Admitted-check_enrollment name secret now files db a =
      rw
        (
          check_enrollment, a.valid, a.some_code, a.new, a.found, a.agent, a.unused, a.expiry,
          a.fresh,
        )
        refl

  -- How an enrollment ends, where the later one is a repetition: it is refused by a check; or its
  -- credential is not written; or that is written, but the code stays unused, and the later one is
  -- refused as the agent has a credential; or it is done.
  abbrev pub Ending :
      String
      → String
      → T
      → String
      → Saving T
      → Credentials
      → Database
      → Result String × (Credentials × Database)
      → Result String × (Credentials × Database)
      → Type 0
  Ending name secret now token saving files db answer again =
      let left = with_left (left_over saving.path token) files in
      ((¬ Admitted name secret now files db) × ((e : Error) × (answer ≡ (err e, (files, db)))))
      ⊎ (Admitted name secret now files db
          × (((installs saving.path ≡ false) × ((e : Error) × (answer ≡ (err e, (left, db)))))
              ⊎ ((installs saving.path ≡ true)
                  × ((((saving.path.removed && saving.committed) ≡ false)
                        × ((e : Error) × (answer ≡ (err e, (credential name token ∷ left, db))))
                        × (again ≡ (err credential_exists, answer.1)))
                      ⊎ (((saving.path.removed && saving.committed) ≡ true)
                          × (answer ≡ (
                            ok token,
                            (credential name token ∷ files, with_used ch x secret saving.time db),
                          )))))))

  pub consume_refused :
      (name secret : String) (now : T) (token : String) (saving : Saving T) (files : Credentials)
      (db : Database) (e : Error)
      → check_enrollment ch x name secret now files db ≡ err e
      → consume_enrollment ch x name secret now token saving files db ≡ (err e, (files, db))
  unfolding consume_enrollment
  consume_refused name secret now token saving files db e h = rw (h, consume_enrollment) refl

  pub consume_admitted :
      (name secret : String) (now : T) (token : String) (saving : Saving T) (files : Credentials)
      (db : Database)
      → check_enrollment ch x name secret now files db ≡ ok tt
      → consume_enrollment ch x name secret now token saving files db
        ≡ commit_written name token saving.committed files db
            (with_used ch x secret saving.time db)
            (write_secret_file saving.path token none)
  unfolding consume_enrollment
  consume_admitted name secret now token saving files db h = rw (h, consume_enrollment) refl

  consume_again :
      (name secret : String) (now later : T) (token other : String) (saving : Saving T)
      (files more : Credentials) (db : Database)
      → Admitted name secret now files db
      → consume_enrollment ch x name secret later other saving (credential name token ∷ more) db
        ≡ (err credential_exists, (credential name token ∷ more, db))
  unfolding check_enrollment consume_enrollment
  consume_again name secret now later token other saving files more db a =
      rw (a.valid, consume_enrollment) (rw (a.some_code, eq_refl name, check_enrollment) refl)

  module _ (name secret : String) (now later : T) (token other : String) (saving saving' : Saving T)
      (files : Credentials) (db : Database) where
    -- how the enrollment ends with an answer, where it is repeated
    abbrev Ends : Result String × (Credentials × Database) → Type 0
    Ends answer =
        Ending name secret now token saving files db answer
          (consume_enrollment ch x name secret later other saving' answer.1.0 answer.1.1)

    -- what the commit leaves after the writing
    abbrev committed : Writing → Result String × (Credentials × Database)
    committed wrote =
        commit_written name token saving.committed files db (with_used ch x secret saving.time db)
          wrote

    blocked :
        (more : Credentials)
        → Admitted name secret now files db
        → consume_enrollment ch x name secret later other saving' (credential name token ∷ more) db
          ≡ (err credential_exists, (credential name token ∷ more, db))
    blocked more a = consume_again name secret now later token other saving' files more db a

    committed-Ending :
        (wrote : Writing)
        → Admitted name secret now files db
        → IsNew saving.path token wrote
        → Ends (committed wrote)
    committed-Ending wrote a (inl (unwritten, (e, h))) = rw h (inr (a, inl (unwritten, (e, refl))))
    committed-Ending wrote a (inr (installed, inl (left, (e, h)))) =
        rw (h, left) (inr (a, inr (installed, inl (refl, (e, refl), blocked _ a))))
    committed-Ending wrote a (inr (installed, inr (gone, h))) = elim (Bool-cases saving.committed) [
      | inl done ↦ rw (h, gone, done) (inr (a, inr (installed, inr (refl, refl))))
      | inr failed ↦
          let clean = installed_left_over saving.path token installed gone in
          rw (h, gone, failed, clean)
            (inr (a, inr (installed, inl (refl, (commit_failed, refl), blocked _ a))))
    ]

    -- An enrollment is refused, and changes nothing, exactly where a check fails. Where the checks
    -- pass and the credential is not installed, it fails, and it leaves what there is of the temporary
    -- file with the token in the directory of the credentials. Otherwise the credential is added; where
    -- the temporary file cannot be removed, and stays, or the transaction cannot be committed, it
    -- fails, the code stays unused, and enrolling again with it, at whatever time, fails as the agent
    -- has a credential; and where both succeed it is done and the code is marked as used.
    pub consume_enrollment-Ending :
        (let answer = consume_enrollment ch x name secret now token saving files db in
          Ending name secret now token saving files db answer
            (consume_enrollment ch x name secret later other saving' answer.1.0 answer.1.1))
    consume_enrollment-Ending =
        elim (Result-cases (check_enrollment ch x name secret now files db)) [
          | inr (e, h) ↦
              subst Ends (sym (consume_refused name secret now token saving files db e h)) (
                inl (
                  (λ a. let passed = Admitted-check_enrollment name secret now files db a in cc),
                  (e, refl),
                ))
          | inl (_, h) ↦
              subst Ends (sym (consume_admitted name secret now token saving files db h)) (
                committed-Ending (write_secret_file saving.path token none)
                  (check_enrollment-Admitted name secret now files db h)
                  (write_secret_file-IsNew saving.path token))
        ]
