-- ===== src/Agent/Program/Joins.antt =====
-- How a host joins: the codes of src/bin/beacon-server.rs and the tokens of src/bin/beacon-agent.rs.
use beacon_alerts.Prelude.{
  ℕ, String, Bool, ◌≡◌, refl, ap, ◌∙◌, true, false, Option, none, some, List, ◌∷◌, any, eqb, trim,
  is_blank, eq_refl,
}
use beacon_alerts.Fallible.{ok}
use beacon_alerts.Arguments.{Clap}
use beacon_alerts.Model.{Event}
use beacon_alerts.Model.Validate.{Formats}
use beacon_alerts.SecretFile.{working}
use beacon_alerts.Client.{ClientLibrary, build_client}
use beacon_alerts.Store.{Database}
use beacon_alerts.Store.Schema.{initialize_database, initialize_again}
use beacon_alerts.Store.Clock.{Chrono, as_i64}
use beacon_alerts.Store.Enrollment.{
  credential, Secrets, hash_secret, Credentials, has_credential, has_hash, validate_agent_name,
  create_enrollment,
}
use beacon_alerts.Http.{authorized}
use beacon_alerts.Http.Enrolled.{bearer, credential_entries}
use beacon_alerts.Telegram.{TelegramLibrary}
use beacon_alerts.Server.{ServerLibrary}
use beacon_alerts.Server.Program as ServerProgram
use beacon_alerts.Server.Program.{CreateAgentArgs, agent, create}
use beacon_alerts.Agent.Enroll.{read_token, enroll}
use beacon_alerts.Agent.Enroll.Grants.{exchange, enroll-authorized}
use beacon_alerts.Agent.{drain}
use beacon_alerts.Agent.Commands
use beacon_alerts.Agent.Commands.{Json}
use beacon_alerts.Agent.Program.{
  EnrollArgs, RunArgs, Host, HostLibrary, with_file, enrolled, run, enroll_host, agent_config,
  enrollment_config, after_run, execute, parse, main,
}

module _ {T W : Type 0} (clap : Clap) (paths : ServerProgram.HostLibrary) (lib : ServerLibrary)
    (telegram : TelegramLibrary) (post : String → String → String → W → Option ℕ × W)
    (ch : Chrono T) (x : Secrets T) where
  -- The answer to `agent create` that has issued its code, and the host that it leaves.
  issued_lem :
      (line : List String) (args : CreateAgentArgs) (secret : String) (now : T)
      (host : ServerProgram.Host) (db : Database) (text : String)
      → ServerProgram.parse clap line ≡ ok (agent (create args))
      → paths.creates args.credentials_dir ≡ true
      → paths.secret_path args.code_file ≡ working
      → host.files args.code_file ≡ none
      → create_enrollment ch x args.name secret args.ttl_seconds now true working none
          (initialize_database (host.directories args.data_dir).file)
        ≡ (ok db, (some text, none))
      → ServerProgram.main clap paths lib telegram post ch x line secret now host ≡ record {
        answer = ok none;
        host =
            ServerProgram.with_directory args.data_dir
              (ServerProgram.with_file_of db (host.directories args.data_dir))
              (ServerProgram.with_file args.code_file (some text) host);
      }
  unfolding ServerProgram.main ServerProgram.create_agent
  issued_lem line args secret now host db text parsed makes writes new issued =
      rw (parsed, ServerProgram.main) (rw (makes, writes, new, issued) refl)

module _ {T : Type 0} (clap : Clap) (paths : HostLibrary) (formats : Formats) (lib : ClientLibrary)
    (json : Json) (ch : Chrono T) (x : Secrets T) (later : T) (token : String)
    (submit : String → Event → Credentials × Database → Bool × (Credentials × Database)) where
  joined_lem :
      (line : List String) (args : EnrollArgs) (event_id now : String) (host : Host)
      (text file : String) (w w' : Credentials × Database)
      → parse clap line ≡ ok (enroll_host args)
      → paths.secret_path args.token_file ≡ working
      → host.files args.token_file ≡ none
      → host.files args.code_file ≡ some text
      → enroll (exchange ch x later token) lib (enrollment_config args) working (some text) none w
        ≡ record { answer = ok tt; file = some file; temporary = none; world = w' }
      → main clap paths formats lib json (exchange ch x later token) submit line event_id now host w
        ≡ record {
          answer = ok enrolled;
          host = with_file args.token_file (some file) host;
          world = w';
        }
  unfolding main execute
  joined_lem line args event_id now host text file w w' parsed writes new copied joined =
      rw (parsed, main) (rw (writes, new, copied, joined) refl)

  -- a command `run` whose token file has the token
  run_lem :
      (line : List String) (args : RunArgs) (event_id now text : String) (host : Host)
      (w : Credentials × Database) (read : String)
      → parse clap line ≡ ok (run args)
      → host.files args.token_file ≡ some text
      → read_token (some text) ≡ ok read
      → main clap paths formats lib json (exchange ch x later token) submit line event_id now host w
        ≡ after_run clap paths formats lib json (exchange ch x later token) submit args host (
            drain
              (submit read)
              formats
              lib
              (record (agent_config args) { token = read })
              (paths.spool_root args.spool)
              (host.spools args.spool)
              w)
  unfolding main execute Commands.run
  run_lem line args event_id now text host w read parsed there is_token =
      rw (parsed, main) (rw (there, is_token) refl)

-- The operator's `agent create` for a name, and the agent's `enroll` under this name before the code
-- expires, on a host where the text of the code file was copied to: where the code is new, the name
-- has no credential yet, there is no code file and no token file before, the agent's client can be
-- built and the files can be written, both commands succeed, the server then has the token under the
-- name as its only new credential, and it lets the requests with the token through, without the
-- space around it. A later `run` of the host with the token file sends its events with this token.
pub main-joins :
    {T W : Type 0} (operator clap : Clap) (server_paths : ServerProgram.HostLibrary)
    (server_lib : ServerLibrary) (telegram : TelegramLibrary)
    (post : String → String → String → W → Option ℕ × W) (paths : HostLibrary) (formats : Formats)
    (lib : ClientLibrary) (json : Json) (ch : Chrono T) (x : Secrets T)
    (submit : String → Event → Credentials × Database → Bool × (Credentials × Database))
    (issue join start : List String) (issued : CreateAgentArgs) (args : EnrollArgs) (runs : RunArgs)
    (secret token : String) (now later expires : T) (event_id time : String)
    (server : ServerProgram.Host) (host : Host) (files : Credentials)
    → ServerProgram.parse operator issue ≡ ok (agent (create issued))
    → parse clap join ≡ ok (enroll_host args)
    → parse clap start ≡ ok (run runs)
    → issued.name ≡ args.name
    → runs.token_file ≡ args.token_file
    → validate_agent_name args.name ≡ ok tt
    → eqb issued.ttl_seconds 0 ≡ false
    → is_blank secret ≡ false
    → is_blank token ≡ false
    → ch.add_seconds now (as_i64 issued.ttl_seconds) ≡ some expires
    → any
        (has_hash (hash_secret x secret))
        (initialize_database (server.directories issued.data_dir).file).enrollments
      ≡ false
    → x.parse_from_rfc3339 (ch.to_rfc3339 expires) ≡ some expires
    → x.at_or_after later expires ≡ false
    → has_credential args.name files ≡ false
    → build_client lib args.server args.ca_file args.allow_http ≡ ok tt
    → server_paths.creates issued.credentials_dir ≡ true
    → server_paths.secret_path issued.code_file ≡ working
    → paths.secret_path args.token_file ≡ working
    → server.files issued.code_file ≡ none
    → host.files args.token_file ≡ none
    → (let offer =
          ServerProgram.main operator server_paths server_lib telegram post ch x issue secret now
            server in
        host.files args.code_file ≡ offer.host.files issued.code_file)
    → let offer =
        ServerProgram.main operator server_paths server_lib telegram post ch x issue secret now
          server in
      let joined =
        main clap paths formats lib json
          (exchange ch x later token)
          submit
          join
          event_id
          time
          host
          (files, initialize_database (offer.host.directories issued.data_dir).file) in
      (offer.answer ≡ ok none)
      × (joined.answer ≡ ok enrolled)
      × (joined.world.0 ≡ credential args.name token ∷ files)
      × (authorized (bearer (trim token)) (some (credential_entries joined.world.0)) ≡ true)
      × (main clap paths formats lib json
            (exchange ch x later token)
            submit
            start
            event_id
            time
            joined.host
            joined.world
          ≡ after_run clap paths formats lib json
              (exchange ch x later token)
              submit
              runs
              joined.host
              (drain
                (submit (trim token))
                formats
                lib
                (record (agent_config runs) { token = trim token })
                (paths.spool_root runs.spool)
                (joined.host.spools runs.spool)
                joined.world))
main-joins {W = W} operator clap server_paths server_lib telegram post paths formats lib json ch x
      submit issue join start issued args runs secret token now later expires event_id time server
      host files parsed_issue parsed_join parsed_run same_name same_file valid lives some_code
      some_token due new back early no_credential built makes writes_code writes_token no_code
      no_token copied =
    let (db', db'', code, file, offered, enrolls, reads, admitted) =
      enroll-authorized ch x lib (enrollment_config args) secret issued.ttl_seconds now later
        expires token files (initialize_database (server.directories issued.data_dir).file) valid
        lives some_code some_token due new back early no_credential built in
    let offer =
      issued_lem operator server_paths server_lib telegram post ch x issue issued secret now server
        db' code parsed_issue makes writes_code no_code (rw same_name offered) in
    let there : host.files args.code_file ≡ some code =
      copied
      ∙ ap (λ (o : ServerProgram.Finished W). o.host.files issued.code_file) offer
      ∙ rw (eq_refl issued.code_file) refl in
    let joined =
      joined_lem clap paths formats lib json ch x later token submit join args event_id time host
        code file (files, db') (credential args.name token ∷ files, db'') parsed_join writes_token
        no_token there enrolls in
    rw (offer, eq_refl issued.data_dir, initialize_again db')
      (rw joined (
        refl,
        refl,
        refl,
        admitted,
        run_lem clap paths formats lib json ch x later token submit start runs event_id time file
            (with_file args.token_file (some file) host) (credential args.name token ∷ files, db'')
            (trim token) parsed_run (rw (same_file, eq_refl args.token_file) refl) reads,
      ))
