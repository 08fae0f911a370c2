-- ===== src/Server/Starts.antt =====
-- What runs in a server of src/server.rs that has started.
use beacon_alerts.Prelude.{
  ap, ◌∙◌, inl, inr, Bool-cases, Option-cases, ℕ, ◌≤◌, String, ◌≡◌, refl, subst, true, not, Option,
  none, some, [], ◌∷◌, arith, eqb, length,
}
use beacon_alerts.Fallible.{
  Result, err, Result-cases, ok, ok-injective, >>=-eq-ok, guard_then, io_failed, no_tls,
  no_attempts, empty_interval, empty_limit,
}
use beacon_alerts.Policy.Validate
use beacon_alerts.Policy.Validate.{IsCatalog, validate_rules_iff}
use beacon_alerts.Template.{MessageTemplates}
use beacon_alerts.Template.Catalog
use beacon_alerts.Store.{ServerEventStore}
use beacon_alerts.Store.Dispatcher.{NotificationChannel, NotificationDispatcher, new}
use beacon_alerts.Telegram.{TelegramConfig, TelegramLibrary, load, from_config, as_channel}
use beacon_alerts.Server.{
  ServerConfig, DataRoot, DataDir, opened, with_store, serve_with, ServerLibrary, ServerState,
  Worker, Listener, with_tls, without_tls, Serving, server_state, load_telegram,
  spawn_notification_worker, start_worker, listen, serve, templates_of,
  open_with_policy_and_templates,
}

-- The server listens with a certificate and its key, or it was allowed to do without them.
abbrev pub IsGuarded : ServerConfig → Listener → Type 0
IsGuarded args (with_tls cert key) = (args.tls_cert ≡ some cert) × (args.tls_key ≡ some key)
IsGuarded args without_tls =
    (args.tls_cert ≡ none) × (args.tls_key ≡ none) × (args.allow_http ≡ true)

module _ {W : Type 0} where
  -- The worker is there exactly where Telegram is configured, and it can make progress.
  abbrev pub IsStaffed : ServerConfig → Option (Worker W) → Type 0
  IsStaffed args none = args.telegram_config ≡ none
  IsStaffed args (some worker) =
      ((path : String) × (args.telegram_config ≡ some path))
      × (1 ≤ worker.interval_seconds)
      × (1 ≤ worker.limit)
      × (1 ≤ worker.dispatcher.max_attempts)
      × (length worker.dispatcher.channels ≡ 1)

  pub record IsStarted (args : ServerConfig) (s : Serving W) : Type 0 where
    pub guarded : IsGuarded args s.listener
    pub staffed : IsStaffed args s.worker
    pub policy : s.state.events.policy ≡ args.policy
    pub routes : IsCatalog s.state.events.policy
    pub texts : Catalog.validate s.state.events.templates ≡ ok tt

module _ {W : Type 0} (lib : ServerLibrary) (telegram : TelegramLibrary)
    (post : String → String → String → W → Option ℕ × W) (args : ServerConfig) where
  listen-IsGuarded :
      (cert key : Option String) (l : Listener)
      → args.tls_cert ≡ cert
      → args.tls_key ≡ key
      → listen lib telegram post args.bind args.allow_http cert key ≡ ok l
      → IsGuarded args l
  listen-IsGuarded (some cert) (some key) l c k h =
      let (_, bound) = guard_then (lib.loads_tls cert key) io_failed _ l h in
      let (_, done) = guard_then (lib.binds args.bind) io_failed _ l bound in
      subst (IsGuarded args) (ok-injective (with_tls cert key) l done) (c, k)
  listen-IsGuarded none none l c k h =
      let (allowed, bound) = guard_then args.allow_http no_tls _ l h in
      let (_, done) = guard_then (lib.binds args.bind) io_failed _ l bound in
      subst (IsGuarded args) (ok-injective without_tls l done) (c, k, allowed)
  listen-IsGuarded (some cert) none l c k h = cc
  listen-IsGuarded none (some key) l c k h = cc

  positive : (n : ℕ) → not (eqb n 0) ≡ true → 1 ≤ n
  positive n h = ground (arith, h)

  new-IsStaffed :
      (channel : NotificationChannel W) (d : NotificationDispatcher W)
      → new (channel ∷ []) args.notify_max_attempts args.notify_retry_delay_seconds ≡ ok d
      → (1 ≤ d.max_attempts) × (length d.channels ≡ 1)
  new-IsStaffed channel d h =
      let (some_attempt, done) =
        guard_then (not (eqb args.notify_max_attempts 0)) no_attempts _ d h in
      subst (λ (e : NotificationDispatcher W). (1 ≤ e.max_attempts) × (length e.channels ≡ 1))
        (ok-injective _ d done) (positive args.notify_max_attempts some_attempt, refl)

  spawn-IsStaffed :
      (path : String) (d : NotificationDispatcher W) (worker : Worker W)
      → args.telegram_config ≡ some path
      → (1 ≤ d.max_attempts) × (length d.channels ≡ 1)
      → spawn_notification_worker lib telegram post d args.notify_interval_seconds args.notify_limit
        ≡ ok worker
      → IsStaffed args (some worker)
  spawn-IsStaffed path d worker given able h =
      let (some_time, h1) =
        guard_then (not (eqb args.notify_interval_seconds 0)) empty_interval _ worker h in
      let (some_limit, h2) = guard_then (not (eqb args.notify_limit 0)) empty_limit _ worker h1 in
      let (_, done) = guard_then lib.spawns io_failed _ worker h2 in
      subst (λ (v : Worker W). IsStaffed args (some v)) (ok-injective _ worker done)
        (
          (path, given),
          positive args.notify_interval_seconds some_time,
          positive args.notify_limit some_limit,
          able.0,
          able.1,
        )

  load_telegram-none : (o : Option String) → load_telegram lib telegram post o ≡ ok none → o ≡ none
  load_telegram-none none h = refl
  load_telegram-none (some path) h =
      let (config, _, done) = >>=-eq-ok (load telegram path) (λ c. ok (some c)) h in cc

  load_telegram-some :
      (o : Option String) (c : TelegramConfig)
      → load_telegram lib telegram post o ≡ ok (some c)
      → (path : String) × (o ≡ some path)
  load_telegram-some none c h = cc
  load_telegram-some (some path) c h = (path, refl)

  start_worker-IsStaffed :
      (config : Option TelegramConfig) (w : Option (Worker W))
      → load_telegram lib telegram post args.telegram_config ≡ ok config
      → start_worker lib telegram post args config ≡ ok w
      → IsStaffed args w
  start_worker-IsStaffed none w loaded h =
      subst (IsStaffed args) (ok-injective none w h)
        (load_telegram-none args.telegram_config loaded)
  start_worker-IsStaffed (some c) w loaded h =
      let (path, given) = load_telegram-some args.telegram_config c loaded in
      let (channel, _, h1) = >>=-eq-ok (from_config telegram c) _ h in
      let (d, made, h2) =
        >>=-eq-ok
          (new (as_channel telegram post channel ∷ []) args.notify_max_attempts
            args.notify_retry_delay_seconds)
          _ h1 in
      let (worker, spawned, h3) =
        >>=-eq-ok
          (spawn_notification_worker lib telegram post d args.notify_interval_seconds
            args.notify_limit)
          _ h2 in
      subst (IsStaffed args) (ok-injective (some worker) w h3) (
        spawn-IsStaffed path d worker given
          (new-IsStaffed (as_channel telegram post channel) d made) spawned)

  -- The store has the policy of the command line, and it and the templates passed their checks.
  abbrev pub IsChecked : ServerEventStore → Type 0
  IsChecked store =
      (store.policy ≡ args.policy)
      × IsCatalog store.policy
      × (Catalog.validate store.templates ≡ ok tt)

  open-IsChecked :
      (root : DataRoot) (t : MessageTemplates) (dir : DataDir) (store : ServerEventStore)
      → (open_with_policy_and_templates root args.policy t dir).0 ≡ ok store
      → IsChecked store × ((open_with_policy_and_templates root args.policy t dir).1 ≡ opened dir)
  unfolding open_with_policy_and_templates
  open-IsChecked root t dir store h = elim (Result-cases (Validate.validate args.policy)) [
    | inr (e, f) ↦ cc (rw (open_with_policy_and_templates, f) at h)
    | inl (_, routed) ↦ elim (Result-cases (Catalog.validate t)) [
      | inr (e, f) ↦ cc (rw (open_with_policy_and_templates, routed, f) at h)
      | inl (_, written) ↦ elim (Bool-cases root.created) [
        | inr f ↦ cc (rw (open_with_policy_and_templates, routed, written, f) at h)
        | inl c ↦ elim (Bool-cases root.lock_opened) [
          | inr f ↦ cc (rw (open_with_policy_and_templates, routed, written, c, f) at h)
          | inl o ↦ elim (Bool-cases root.lock_taken) [
            | inr f ↦ cc (rw (open_with_policy_and_templates, routed, written, c, o, f) at h)
            | inl l ↦ elim (Bool-cases root.database_opened) [
              | inr f ↦ cc (rw (open_with_policy_and_templates, routed, written, c, o, l, f) at h)
              | inl d ↦ elim (Option-cases root.spoilt) [
                | inr (file, f) ↦
                    cc (rw (open_with_policy_and_templates, routed, written, c, o, l, d, f) at h)
                | inl whole ↦
                    let h' =
                      rw (open_with_policy_and_templates, routed, written, c, o, l, d, whole) at
                        h in
                    (
                      subst IsChecked (ok-injective _ store h')
                          (refl, (validate_rules_iff args.policy).0 routed, written),
                      rw (open_with_policy_and_templates, routed, written, c, o, l, d, whole) refl,
                    )
              ]
            ]
          ]
        ]
      ]
    ]
  ]

  with_store-eq-ok :
      (credentials : String) (r : Result ServerEventStore × DataDir) (state : ServerState)
      → (with_store credentials r).0 ≡ ok state
      → (r.0 ≡ ok state.events) × ((with_store credentials r).1 ≡ r.1)
  with_store-eq-ok credentials (err e, dir) state h = cc
  with_store-eq-ok credentials (ok events, dir) state h =
      (ap (λ (s : ServerState). ok s.events) (ok-injective _ state h), refl)

  server_state-IsChecked :
      (t : MessageTemplates) (dir : DataDir) (state : ServerState)
      → (server_state lib args.data_dir args.credentials_dir args.policy t dir).0 ≡ ok state
      → IsChecked state.events
        × ((server_state lib args.data_dir args.credentials_dir args.policy t dir).1 ≡ opened dir)
  server_state-IsChecked t dir state h = elim (Bool-cases (lib.is_dir args.credentials_dir)) [
    | inr f ↦ cc (rw (server_state, f) at h)
    | inl there ↦
        let store =
          open_with_policy_and_templates (lib.data_root args.data_dir) args.policy t dir in
        let (given, same) =
          with_store-eq-ok args.credentials_dir store state (rw (server_state, there) at h) in
        let (checked, left) =
          open-IsChecked (lib.data_root args.data_dir) t dir state.events given in
        (checked, rw (server_state, there) (same ∙ left))
  ]

  -- a server that has started goes on with its state
  serve_with-IsStarted :
      (config : Option TelegramConfig) (r : Result ServerState × DataDir) (s : Serving W)
      → load_telegram lib telegram post args.telegram_config ≡ ok config
      → ((state : ServerState) → r.0 ≡ ok state → IsChecked state.events)
      → (serve_with lib telegram post args config r).0 ≡ ok s
      → IsStarted args s
        × ((state : ServerState) × (r.0 ≡ ok state))
        × ((serve_with lib telegram post args config r).1 ≡ r.1)
  serve_with-IsStarted config (err e, dir) s loaded each h = cc
  serve_with-IsStarted config (ok state, dir) s loaded each h =
      let (worker, staffed, h1) = >>=-eq-ok (start_worker lib telegram post args config) _ h in
      let (listener, listened, done) =
        >>=-eq-ok (listen lib telegram post args.bind args.allow_http args.tls_cert args.tls_key) _
          h1 in
      let (same, routes, texts) = each state refl in
      (
        subst (λ (t : Serving W). IsStarted args t) (ok-injective _ s done)
            (record {
              guarded = listen-IsGuarded args.tls_cert args.tls_key listener refl refl listened;
              staffed = start_worker-IsStaffed config worker loaded staffed;
              policy = same;
              routes = routes;
              texts = texts;
            }),
        (state, refl),
        refl,
      )

-- A server that has started listens with TLS, with the certificate and the key that it was given,
-- or it was given neither and was allowed to do without. It has a worker exactly where Telegram is
-- configured, with one channel and with an interval, a limit and a maximum of attempts that are not
-- zero. Its policy is the one it was given, and its policy and its templates have passed their
-- checks. Its data directory is there with its lock file, and its database is initialized.
pub serve-IsStarted :
    {W : Type 0} (lib : ServerLibrary) (telegram : TelegramLibrary)
    (post : String → String → String → W → Option ℕ × W) (args : ServerConfig) (dir : DataDir)
    (s : Serving W)
    → (serve lib telegram post args dir).0 ≡ ok s
    → IsStarted args s × ((serve lib telegram post args dir).1 ≡ opened dir)
unfolding serve
serve-IsStarted lib telegram post args dir s h = elim (Bool-cases (lib.is_address args.bind)) [
  | inr f ↦ cc (rw (serve, f) at h)
  | inl address ↦ elim (Result-cases (load_telegram lib telegram post args.telegram_config)) [
    | inr (e, f) ↦ cc (rw (serve, address, f) at h)
    | inl (config, loaded) ↦
        let r =
          server_state lib args.data_dir args.credentials_dir args.policy (templates_of config)
            dir in
        let (started, (state, given), same) =
          serve_with-IsStarted lib telegram post args config r s loaded
            (λ state given.
              (server_state-IsChecked lib telegram post args (templates_of config) dir state
                given).0)
            (rw (serve, address, loaded) at h) in
        let left =
          (server_state-IsChecked lib telegram post args (templates_of config) dir state given).1 in
        (started, rw (serve, address, loaded) (same ∙ left))
  ]
]
