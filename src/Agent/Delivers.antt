-- ===== src/Agent/Delivers.antt =====
-- When a run of the agent of src/agent.rs delivers its whole batch.
use beacon_alerts.Prelude.{
  ℕ, zero, suc, ◌+◌, ◌≤◌, String, ◌≡◌, refl, sym, subst, ap, ◌∙◌, Bool, true, false, Option, some,
  List, [], ◌∷◌, arith, map, take, length, All, eq_iff, eqb,
}
use beacon_alerts.Fallible.{ok, ok-injective, >>=-eq-ok, or_fail, undecodable}
use beacon_alerts.Model.{Event}
use beacon_alerts.Model.Validate.{Formats, validate}
use beacon_alerts.Store.{Database, ServerEventStore}
use beacon_alerts.Store.Accept.{Times}
use beacon_alerts.Store.Alerts.{i64_max}
use beacon_alerts.Store.Clock.{Chrono}
use beacon_alerts.Store.Listing.{take-All}
use beacon_alerts.Store.History.{History}
use beacon_alerts.Http.{CredentialEntry, authorized}
use beacon_alerts.Http.Enrolled.{bearer}
use beacon_alerts.Http.Events.{Encodes}
use beacon_alerts.Client.{ClientLibrary}
use beacon_alerts.Agent.{Spool, SpoolFile, SpoolRoot, AgentConfig, file_name, list, send_all, drain}
use beacon_alerts.Agent.Delivery.{IsTidy, CanRun, Named, Named-take, list-Named, Sends, drop}
use beacon_alerts.Agent.Network.{answered, Network, submit_event}
use beacon_alerts.Agent.Accepted.{Fits, CanSend, answered-Sends}

module _ {W : Type 0} (submit : Event → W → Bool × W) (removes : Event → Bool)
    (all_removed : (e : Event) → removes e ≡ true) (max_attempts : ℕ) where
  -- a batch that is sent event by event
  send_all-Sends :
      (events : List Event) (n : ℕ) (files : List SpoolFile) (temporaries : List String) (w w' : W)
      → Named files events
      → Sends submit max_attempts events w w'
      → send_all submit removes max_attempts events n
          (record { pending = files; temporaries = temporaries })
          w
        ≡ record {
          delivered = ok (n + length events);
          spool = record { pending = drop (length events) files; temporaries = temporaries };
          world = w';
        }
  unfolding send_all
  send_all-Sends [] n files temporaries w w' h same =
      let none_more : n ≡ n + 0 = omega arith in cc (none_more, same)
  send_all-Sends (e ∷ es) n [] temporaries w w' h s = absurd h
  send_all-Sends (e ∷ es) n (f ∷ files) temporaries w w' h (m, sent, rest) =
      rw (sent, all_removed e, (eq_iff f.name (file_name e)).1 h.0, send_all)
        (rw (ap (λ (p : Bool × W). p.1) sent) (
          send_all-Sends es (n + 1) files temporaries m w' h.1 rest
          ∙ ap
              (λ (k : ℕ). record {
                delivered = ok k;
                spool = record { pending = drop (length es) files; temporaries = temporaries };
                world = w';
              })
              (omega arith)))

abbrev pub HasEncoding : Formats → Event → Type 0
HasEncoding x e = (s : String) × (x.to_string e ≡ some s)

list-CanSend :
    (x : Formats) (files : List SpoolFile) (events : List Event)
    → list x files ≡ ok events
    → All (HasEncoding x) events
    → All (CanSend x) events
unfolding list
list-CanSend x [] events h enc = subst (All (CanSend x)) (ok-injective [] events h) tt
list-CanSend x (f ∷ files) events h enc =
    let (e, _, h1) = >>=-eq-ok (or_fail f.event undecodable) _ h in
    let (_, valid, h2) = >>=-eq-ok (validate x e) _ h1 in
    let (rest, listed, done) = >>=-eq-ok (list x files) _ h2 in
    let same : e ∷ rest ≡ events = ok-injective (e ∷ rest) events done in
    let enc' : All (HasEncoding x) (e ∷ rest) = subst (All (HasEncoding x)) (sym same) enc in
    subst (All (CanSend x)) same ((valid, enc'.0), list-CanSend x files rest listed enc'.1)

suc_of : (n : ℕ) → eqb n 0 ≡ false → (m : ℕ) × (suc m ≡ n)
suc_of zero h = cc
suc_of (suc m) h = (m, refl)

-- An agent that can run and remove the files, and that drains a spool of tidy files, over a network that answers every
-- request, against a server that does nothing else, in a database that it can reach and that lets
-- its token through: if its events encode, and each one of the batch up to the limit is new to the
-- server and to the batch or is there with its encoding, and the server has room to count them,
-- then the run delivers the whole batch, and exactly the files of the batch are gone.
pub drain_delivers :
    {T : Type 0} (x : Formats) (store : ServerEventStore) (ch : Chrono T) (lib : ClientLibrary)
    (config : AgentConfig) (root : SpoolRoot) (directory : Option (List CredentialEntry))
    (spool : Spool) (log : List Event) (db : Database) (times : List Times) (events : List Event)
    → Encodes x
    → CanRun lib config root
    → ((e : Event) → root.removes e ≡ true)
    → All (IsTidy x) spool.pending
    → list x spool.pending ≡ ok events
    → All (HasEncoding x) events
    → authorized (bearer config.token) directory ≡ true
    → length (take config.limit events) ≤ length times
    → length log + length (take config.limit events) ≤ i64_max
    → Fits x log (take config.limit events)
    → History x store ch log db
    → (w' : Network T) × (drain
          (submit_event x store ch config.token directory)
          x
          lib
          config
          root
          spool
          (record { db = db; attempts = map answered times })
        ≡ record {
          delivered = ok (length (take config.limit events));
          spool = record spool { pending = drop (length (take config.limit events)) spool.pending };
          world = w';
        })
unfolding drain
drain_delivers x store ch lib config root directory spool log db times events encodes can
      all_removed tidy listed enc admitted enough room fits h =
    let batch = take config.limit events in
    let (m, more) = suc_of config.max_attempts can.some_attempt in
    let (listed_events, listed', named, _) = list-Named x spool.pending tidy in
    let same : listed_events ≡ events = ok-injective listed_events events (sym listed' ∙ listed) in
    let (w', sends) =
      answered-Sends x store ch config.token directory m encodes admitted batch times log db
        (take-All (CanSend x) config.limit events (list-CanSend x spool.pending events listed enc))
        enough room fits h in
    (
      w',
      rw (drain, can.some_token, can.some_attempt, can.opened, can.built, can.read, listed)
          (send_all-Sends (submit_event x store ch config.token directory) root.removes all_removed
              config.max_attempts batch 0 spool.pending spool.temporaries _ w'
              (Named-take spool.pending events config.limit
                (subst (Named spool.pending) same named))
              (subst
                (λ (k : ℕ).
                  Sends (submit_event x store ch config.token directory) k batch
                    (record { db = db; attempts = map answered times }) w')
                more sends)
            ∙ ap
                (λ (k : ℕ). record {
                  delivered = ok k;
                  spool = record spool { pending = drop (length batch) spool.pending };
                  world = w';
                })
                (omega arith)),
    )
