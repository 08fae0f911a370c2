-- ===== src/Server/Program/Runs.antt =====
-- The server of src/bin/beacon-server.rs that a command line starts.
use beacon_alerts.Prelude.{
  ap, ℕ, ◌≤◌, String, ◌≡◌, ◌≢◌, refl, subst, sym, ◌∙◌, inl, inr, true, Option, none, some, List, [],
  ◌∷◌, Bool-cases, ◌==◌,
}
use beacon_alerts.Fallible.{Result, ok, err, ok-injective, >>=-eq-ok, Result-cases}
use beacon_alerts.Arguments.{Matches, Clap, value_or, number_or, u32_max}
use beacon_alerts.Policy.{PolicyCatalog}
use beacon_alerts.Policy.Validate.{IsCatalog}
use beacon_alerts.Template.Catalog
use beacon_alerts.Store.{Database}
use beacon_alerts.Store.Clock.{Chrono, u64_max}
use beacon_alerts.Store.Enrollment.{Secrets}
use beacon_alerts.Telegram.{TelegramLibrary}
use beacon_alerts.Server.{
  DataDir, opened, ServerLibrary, Serving, Worker, Listener, with_tls, without_tls, read_policy,
}
use beacon_alerts.Server.Starts.{IsGuarded, IsStaffed, serve-IsStarted}
use beacon_alerts.Server.Program.{
  with_directory, ServerArgs, CreateAgentArgs, parse_agent, created, started, run, agent, create,
  Host, HostLibrary, server_args, create_agent_args, command_of, parse, config_of, start,
  create_agent, main,
}

-- The listener has the certificate and the key of the options, or there is neither and the flag that
-- allows that.
abbrev pub IsSecure : Matches → Listener → Type 0
IsSecure m (with_tls cert key) = (m.value "tls-cert" ≡ some cert) × (m.value "tls-key" ≡ some key)
IsSecure m without_tls =
    (m.value "tls-cert" ≡ none) × (m.value "tls-key" ≡ none) × (m.flag "allow-http" ≡ true)

-- The worker is there exactly where the option for Telegram is.
abbrev pub IsNotifying : {W : Type 0} → Matches → Option (Worker W) → Type 0
IsNotifying m none = m.value "telegram-config" ≡ none
IsNotifying m (some worker) =
    ((path : String) × (m.value "telegram-config" ≡ some path))
    × (1 ≤ worker.interval_seconds)
    × (1 ≤ worker.limit)
    × (1 ≤ worker.dispatcher.max_attempts)

-- The arguments are the options.
record IsRead (m : Matches) (args : ServerArgs) : Type 0 where
  cert : args.tls_cert ≡ m.value "tls-cert"
  key : args.tls_key ≡ m.value "tls-key"
  allow : args.allow_http ≡ m.flag "allow-http"
  policy : args.policy_file ≡ m.value "policy-file"
  telegram : args.telegram_config ≡ m.value "telegram-config"
  data_dir : args.data_dir ≡ value_or m "data" "/var/lib/beacon/events"

module _ (clap : Clap) where
  server_args-IsRead :
      (m : Matches) (args : ServerArgs) → server_args clap m ≡ ok args → IsRead m args
  unfolding server_args
  server_args-IsRead m args h =
      let (interval, _, h1) =
        >>=-eq-ok (number_or clap m "notify-interval-seconds" 30 u64_max) _ h in
      let (limit, _, h2) = >>=-eq-ok (number_or clap m "notify-limit" 100 u64_max) _ h1 in
      let (attempts, _, h3) = >>=-eq-ok (number_or clap m "notify-max-attempts" 3 u32_max) _ h2 in
      let (delay, _, done) =
        >>=-eq-ok (number_or clap m "notify-retry-delay-seconds" 30 u64_max) _ h3 in
      subst (IsRead m) (ok-injective _ args done) (record {
        cert = refl;
        key = refl;
        allow = refl;
        policy = refl;
        telegram = refl;
        data_dir = refl;
      })

  parse_agent-not_run :
      (names : List String) (m : Matches) (args : ServerArgs)
      → parse_agent clap names m ≡ ok (run args)
      → ⊥
  parse_agent-not_run [] m args h = cc
  parse_agent-not_run (name ∷ []) m args h = elim (Bool-cases (name == "create")) [
    | inl e ↦
        let (a, _, done) =
          >>=-eq-ok (create_agent_args clap m) (λ a. ok (agent (create a))) (rw e at h) in
        cc
    | inr e ↦ let h' = rw e at h in cc
  ]
  parse_agent-not_run (name ∷ (n ∷ names)) m args h = cc

  command_of-run :
      (names : List String) (m : Matches) (args : ServerArgs)
      → command_of clap names m ≡ ok (run args)
      → server_args clap m ≡ ok args
  command_of-run [] m args h = cc
  command_of-run (name ∷ names) m args h = elim (Bool-cases (name == "run")) [
    | inl e ↦
        let (a, given, done) = >>=-eq-ok (server_args clap m) (λ a. ok (run a)) (rw e at h) in cc
    | inr e ↦ elim (Bool-cases (name == "agent")) [
      | inl f ↦ absurd (parse_agent-not_run names m args (rw (e, f) at h))
      | inr f ↦ let h' = rw (e, f) at h in cc
    ]
  ]

  parse-run :
      (line : List String) (args : ServerArgs)
      → parse clap line ≡ ok (run args)
      → (names : List String) × (m : Matches) × (clap.matches line ≡ ok (names, m)) × IsRead m args
  unfolding parse
  parse-run line args h =
      let (found, given, done) = >>=-eq-ok (clap.matches line) _ h in
      (
        found.0,
        found.1,
        given,
        server_args-IsRead found.1 args (command_of-run found.0 found.1 args done),
      )

-- What a command line that starts a server means for it and for what it leaves of the host.
pub record IsStartedBy {W : Type 0} (clap : Clap) (paths : HostLibrary) (line : List String)
    (host : Host) (s : Serving W) (left : Host) : Type 0 where
  pub options : Matches
  pub names : List String
  pub found : clap.matches line ≡ ok (names, options)
  pub secure : IsSecure options s.listener
  pub notifying : IsNotifying options s.worker
  pub policy :
      read_policy host.files paths.parse_policy (options.value "policy-file")
      ≡ ok s.state.events.policy
  pub routes : IsCatalog s.state.events.policy
  pub texts : Catalog.validate s.state.events.templates ≡ ok tt
  pub leaves : left ≡ (
      let path = value_or options "data" "/var/lib/beacon/events" in
      with_directory path (opened (host.directories path)) host)

IsGuarded-IsSecure :
    {m : Matches} {args : ServerArgs} (policy : PolicyCatalog) (l : Listener)
    → IsRead m args
    → IsGuarded (config_of args policy) l
    → IsSecure m l
IsGuarded-IsSecure policy (with_tls cert key) r g = (sym r.cert ∙ g.0, sym r.key ∙ g.1)
IsGuarded-IsSecure policy without_tls r g = (sym r.cert ∙ g.0, sym r.key ∙ g.1, sym r.allow ∙ g.2)

IsStaffed-IsNotifying :
    {W : Type 0} {m : Matches} {args : ServerArgs} (policy : PolicyCatalog) (w : Option (Worker W))
    → IsRead m args
    → IsStaffed (config_of args policy) w
    → IsNotifying m w
IsStaffed-IsNotifying policy none r h = sym r.telegram ∙ h
IsStaffed-IsNotifying policy (some worker) r h = ((h.0.0, sym r.telegram ∙ h.0.1), h.1, h.2, h.3)

module _ {T W : Type 0} (clap : Clap) (paths : HostLibrary) (lib : ServerLibrary)
    (telegram : TelegramLibrary) (post : String → String → String → W → Option ℕ × W)
    (ch : Chrono T) (x : Secrets T) where
  start-IsStartedBy :
      (line : List String) (args : ServerArgs) (host : Host) (s : Serving W)
      → parse clap line ≡ ok (run args)
      → (start clap paths lib telegram post ch x args host).0 ≡ ok s
      → IsStartedBy clap paths line host s
          (with_directory args.data_dir (start clap paths lib telegram post ch x args host).1 host)
  unfolding start
  start-IsStartedBy line args host s parsed h =
      let (names, m, found, r) = parse-run clap line args parsed in
      elim (Result-cases (read_policy host.files paths.parse_policy args.policy_file)) [
        | inr (e, f) ↦ cc (rw (start, f) at h)
        | inl (policy, given) ↦
            let (started, left) =
              serve-IsStarted lib telegram post (config_of args policy)
                (host.directories args.data_dir) s (rw (start, given) at h) in
            record {
              options = m;
              names = names;
              found = found;
              secure = IsGuarded-IsSecure policy s.listener r started.guarded;
              notifying = IsStaffed-IsNotifying policy s.worker r started.staffed;
              policy = rw (← r.policy, started.policy) given;
              routes = started.routes;
              texts = started.texts;
              leaves =
                  ap (λ d. with_directory args.data_dir d host) (rw (start, given) left)
                  ∙ ap (λ path. with_directory path (opened (host.directories path)) host)
                      r.data_dir;
            }
      ]

  -- `agent create` starts no server.
  created-no_server :
      (args : CreateAgentArgs) (host : Host) (s : Serving W)
      (r : Result Database × (Option String × Option String))
      → (created clap paths lib telegram post ch x args host r).answer ≢ ok (some s)
  created-no_server args host s (err e, left) h = cc
  created-no_server args host s (ok db, left) h = cc

  started-server :
      (args : ServerArgs) (host : Host) (s : Serving W) (r : Result (Serving W) × DataDir)
      → (started clap paths lib telegram post ch x args host r).answer ≡ ok (some s)
      → (r.0 ≡ ok s)
        × ((started clap paths lib telegram post ch x args host r).host
            ≡ with_directory args.data_dir r.1 host)
  started-server args host s (err e, dir) h = cc
  started-server args host s (ok t, dir) h = (cc, refl)

-- A program that is then a server was started by `run`. The server listens with the certificate and
-- the key of the options, or there is neither and the flag to allow HTTP is there. It has a worker
-- exactly where the option for Telegram is, whose interval, limit and maximum of attempts are not
-- zero. Its policy is that of the file of the option, or no rules where there is no such option, and
-- its policy and its templates have passed their checks. The host has the data directory of the
-- option then, or of its default, with the lock file and with the database that `initialize_database`
-- makes of its tables, and it is as before otherwise.
pub main-IsStartedBy :
    {T W : Type 0} (clap : Clap) (paths : HostLibrary) (lib : ServerLibrary)
    (telegram : TelegramLibrary) (post : String → String → String → W → Option ℕ × W)
    (ch : Chrono T) (x : Secrets T) (line : List String) (code : String) (now : T) (host : Host)
    (s : Serving W)
    → (main clap paths lib telegram post ch x line code now host).answer ≡ ok (some s)
    → IsStartedBy clap paths line host s
        (main clap paths lib telegram post ch x line code now host).host
unfolding main create_agent
main-IsStartedBy clap paths lib telegram post ch x line code now host s h =
    elim (Result-cases (parse clap line)) [
      | inr (e, failed) ↦ let h' = rw (failed, main) at h in cc
      | inl (agent (create args), parsed) ↦ absurd (
          created-no_server clap paths lib telegram post ch x args host s _
            (rw (parsed, main) at h))
      | inl (run args, parsed) ↦
          let (begun, same) =
            started-server clap paths lib telegram post ch x args host s
              (start clap paths lib telegram post ch x args host) (rw (parsed, main) at h) in
          subst (IsStartedBy clap paths line host s) (sym (rw (parsed, main) same))
            (start-IsStartedBy clap paths lib telegram post ch x line args host s parsed begun)
    ]
