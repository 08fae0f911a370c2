-- ===== src/Agent/Enroll/Grants.antt =====
-- The token that an agent of src/agent.rs gets for a code that src/server.rs has issued.
use Prim.Native.Char.{code}
use Prim.Native.String.{[], ◌∷◌}
use beacon_alerts.Prelude.{
  sym, inl, inr, ℕ, String, ◌≡◌, refl, ap, ◌∙◌, Bool, true, false, Option, none, some, ◌∷◌ as cons,
  arith, any, eqb, trim, trim-line, trim-trim, is_blank, is_blank_lem, is_whitespace, is_empty,
  eq_refl,
}
use beacon_alerts.Fallible.{Result-cases, Error, ok, guard, >>=-eq-ok, invalid_agent_name}
use beacon_alerts.SecretFile.{write_secret_file, working, secret_line}
use beacon_alerts.Client.{ClientLibrary, build_client}
use beacon_alerts.Store.{Database}
use beacon_alerts.Store.Clock.{Chrono, as_i64}
use beacon_alerts.Store.Enrollment.{
  credential, Secrets, hash_secret, Credentials, has_credential, has_hash, is_name_char,
  all_name_chars, validate_agent_name, create_enrollment, consume_enrollment, check_enrollment,
  Saving, saved, commit_written, set_consumed,
}
use beacon_alerts.Store.Enrollment.Endings.{consume_refused, consume_admitted}
use beacon_alerts.Store.Enrollment.Issue.{create-consume}
use beacon_alerts.Http.{Response, EnrollmentRequest, enrolled, authorized, enroll_agent}
use beacon_alerts.Http.Enrolled.{bearer, credential_entries, enrolled-authorized}
use beacon_alerts.Agent.Enroll.{EnrollmentConfig, write_token, read_token, receive, enroll}

module _ {T : Type 0} (ch : Chrono T) (x : Secrets T) where
  -- The request reaches the server, which can write its files, and the answer reaches the agent.
  unfoldable pub exchange :
      T
      → String
      → EnrollmentRequest
      → Credentials × Database
      → Option Response × (Credentials × Database)
  unfolding enroll_agent
  exchange now token request (files, db) =
      let (response, w) = enroll_agent ch x request now token (saved now) files db in
      (some response, w)

  exchange-lem :
      (request : EnrollmentRequest) (now : T) (token : String) (files files' : Credentials)
      (db db' : Database)
      → consume_enrollment ch x request.name request.code now token (saved now) files db
        ≡ (ok token, (files', db'))
      → exchange now token request (files, db)
        ≡ (some (record { status = 201; body = enrolled token }), (files', db'))
  unfolding exchange
  exchange-lem request now token files files' db db' h = rw (h, exchange) refl

name_char-solid : (n : ℕ) → is_name_char n ≡ true → is_whitespace n ≡ false
unfolding is_whitespace
name_char-solid n h = ground (arith, h)

guard_passed : (b : Bool) (e : Error) → guard b e ≡ ok tt → b ≡ true
guard_passed false e h = cc
guard_passed true e h = refl

valid_name-solid : (name : String) → validate_agent_name name ≡ ok tt → is_blank name ≡ false
unfolding validate_agent_name all_name_chars
valid_name-solid [] h = cc
valid_name-solid (c ∷ s) h =
    let (_, _, named) =
      >>=-eq-ok _ (λ (_ : Unit {0}). guard (all_name_chars (c ∷ s)) invalid_agent_name) h in
    let chars = guard_passed (all_name_chars (c ∷ s)) invalid_agent_name named in
    is_blank_lem (c ∷ s) ∙ rw (name_char-solid (code c) (ground (arith, chars))) refl

is_empty-trim : (s : String) → is_blank s ≡ false → is_empty (trim s) ≡ false
unfolding is_blank
is_empty-trim s h = h

read_token-line :
    (token : String)
    → is_blank token ≡ false
    → read_token (some (secret_line token)) ≡ ok (trim token)
unfolding read_token
read_token-line token h = rw (trim-line token, is_empty-trim token h) refl

receive-lem :
    {W : Type 0} (post : EnrollmentRequest → W → Option Response × W) (token : String) (w : W)
    → is_blank token ≡ false
    → receive post working none (some (record { status = 201; body = enrolled token }), w)
      ≡ record { answer = ok tt; file = some (secret_line token); temporary = none; world = w }
unfolding write_token
receive-lem post token w h = rw (h, receive) refl

is_blank-trim : (s : String) → is_blank (trim s) ≡ is_blank s
unfolding is_blank
is_blank-trim s = rw (trim-trim s) refl

hash_secret-trim :
    {T : Type 0} (x : Secrets T) (secret : String)
    → hash_secret x (trim secret) ≡ hash_secret x secret
unfolding hash_secret
hash_secret-trim x secret = ap x.digest (trim-trim secret)

-- The space around a code does not count.
check-trim :
    {T : Type 0} (ch : Chrono T) (x : Secrets T) (name secret : String) (now : T)
    (files : Credentials) (db : Database)
    → check_enrollment ch x name (trim secret) now files db
      ≡ check_enrollment ch x name secret now files db
unfolding check_enrollment
check-trim ch x name secret now files db = rw (is_blank-trim secret, hash_secret-trim x secret) refl

consume-trim :
    {T : Type 0} (ch : Chrono T) (x : Secrets T) (name secret : String) (now : T) (token : String)
    (saving : Saving T) (files : Credentials) (db : Database)
    → consume_enrollment ch x name (trim secret) now token saving files db
      ≡ consume_enrollment ch x name secret now token saving files db
consume-trim ch x name secret now token saving files db =
    let same = check-trim ch x name secret now files db in
    elim (Result-cases (check_enrollment ch x name secret now files db)) [
      | inr (e, h) ↦
          consume_refused ch x name (trim secret) now token saving files db e (same ∙ h)
          ∙ sym (consume_refused ch x name secret now token saving files db e h)
      | inl (_, h) ↦
          consume_admitted ch x name (trim secret) now token saving files db (same ∙ h)
          ∙ ap
              (λ (hash : String).
                commit_written name token saving.committed files db
                  (record db {
                    enrollments = set_consumed (ch.to_rfc3339 saving.time) hash db.enrollments;
                  })
                  (write_secret_file saving.path token none))
              (hash_secret-trim x secret)
          ∙ sym (consume_admitted ch x name secret now token saving files db h)
    ]

enroll-exchange :
    {T : Type 0} (ch : Chrono T) (x : Secrets T) (lib : ClientLibrary) (config : EnrollmentConfig)
    (secret : String) (later : T) (token : String) (files files' : Credentials) (db db' : Database)
    → is_blank config.name ≡ false
    → is_blank secret ≡ false
    → is_blank token ≡ false
    → build_client lib config.server config.ca_file config.allow_http ≡ ok tt
    → consume_enrollment ch x config.name secret later token (saved later) files db
      ≡ (ok token, (files', db'))
    → enroll
        (exchange ch x later token)
        lib
        config
        working
        (some (secret_line secret))
        none
        (files, db)
      ≡ record {
        answer = ok tt;
        file = some (secret_line token);
        temporary = none;
        world = (files', db');
      }
unfolding enroll
enroll-exchange ch x lib config secret later token files files' db db' named some_code some_token
      built consumed =
    rw (enroll, named, trim-line secret, is_empty-trim secret some_code, built)
      (rw
        (exchange-lem ch x (record { name = config.name; code = trim secret }) later token files
          files' db db'
          (consume-trim ch x config.name secret later token (saved later) files db ∙ consumed))
        (receive-lem (exchange ch x later token) token (files', db') some_token))

-- A code that the operator can issue for a name enrolls an agent of this name before its expiry, where the name has no credential yet, the agent has no token
-- file, its client can be built, and all files can be written: the agent that gets the text of the
-- code file is enrolled, it reads the token of the server, without the space around it, from its
-- token file, and the server lets the requests with this token through.
pub enroll-authorized :
    {T : Type 0} (ch : Chrono T) (x : Secrets T) (lib : ClientLibrary) (config : EnrollmentConfig)
    (secret : String) (ttl : ℕ) (now later expires : T) (token : String) (files : Credentials)
    (db : Database)
    → validate_agent_name config.name ≡ ok tt
    → eqb ttl 0 ≡ false
    → is_blank secret ≡ false
    → is_blank token ≡ false
    → ch.add_seconds now (as_i64 ttl) ≡ some expires
    → any (has_hash (hash_secret x secret)) db.enrollments ≡ false
    → x.parse_from_rfc3339 (ch.to_rfc3339 expires) ≡ some expires
    → x.at_or_after later expires ≡ false
    → has_credential config.name files ≡ false
    → build_client lib config.server config.ca_file config.allow_http ≡ ok tt
    → (db' : Database) × (db'' : Database) × (code : String) × (file : String) × (create_enrollment
          ch x config.name secret ttl now true working none db
        ≡ (ok db', (some code, none)))
      × (enroll (exchange ch x later token) lib config working (some code) none (files, db')
          ≡ record {
            answer = ok tt;
            file = some file;
            temporary = none;
            world = (cons (credential config.name token) files, db'');
          })
      × (read_token (some file) ≡ ok (trim token))
      × (authorized
            (bearer (trim token))
            (some (credential_entries (cons (credential config.name token) files)))
          ≡ true)
enroll-authorized ch x lib config secret ttl now later expires token files db valid lives some_code
      some_token due new back early no_file built =
    let (db', db'', issued, consumed) =
      create-consume ch x config.name secret ttl now later expires token files db valid lives
        some_code due new back early no_file in
    (
      db',
      db'',
      secret_line secret,
      secret_line token,
      issued,
      enroll-exchange ch x lib config secret later token files _ db' db''
          (valid_name-solid config.name valid) some_code some_token built consumed,
      read_token-line token some_token,
      enrolled-authorized ch x config.name secret later token (saved later) files _ db' db''
            (trim token) consumed
          ∙ rw (is_empty-trim token some_token, eq_refl (trim token)) refl,
    )
