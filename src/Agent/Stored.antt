-- ===== src/Agent/Stored.antt =====
-- What the server holds of the events whose files an agent has removed.
use beacon_alerts.Prelude.{
  All-map, ℕ, zero, suc, String, ◌≡◌, refl, sym, subst, inl, inr, Bool, true, false, Option, List,
  [], ◌∷◌, take, All, Bool-cases,
}
use beacon_alerts.Fallible.{ok}
use beacon_alerts.Model.{Event}
use beacon_alerts.Model.Validate.{Formats}
use beacon_alerts.Store.{Database, ServerEventStore}
use beacon_alerts.Store.Accept.{Times}
use beacon_alerts.Store.Clock.{Chrono}
use beacon_alerts.Store.History.{History}
use beacon_alerts.Http.Enrolled.{bearer}
use beacon_alerts.Http.{CredentialEntry}
use beacon_alerts.Http.Events.{Encodes, accept_event-Answers}
use beacon_alerts.Client.{ClientLibrary, is_success}
use beacon_alerts.Agent.{Spool, SpoolRoot, AgentConfig, Drained, list, deliver_with_retry, drain}
use beacon_alerts.Agent.Delivery.{IsTidy, CanRun, Sends, Leaves, drop, drain-Leaves}
use beacon_alerts.Agent.Network.{
  Attempt, other, request_lost, answer_lost, answered, Network, run_step, post, submit_from,
  submit_event,
}
use beacon_alerts.Agent.Follows.{
  IsStored, Follows, Outcome, stays, on, Answers-Outcome, run_step-Follows,
}

module _ {T : Type 0} (x : Formats) (store : ServerEventStore) (ch : Chrono T) where
  module _ (token : String) (directory : Option (List CredentialEntry)) (encodes : Encodes x) where
    abbrev post-Outcome :
        (times : Times) (e : Event) (log : List Event) (db : Database)
        → History x store ch log db
        → Outcome x store ch log e
            (is_success (post x store token directory times e db).0.status)
            (post x store token directory times e db).1
    post-Outcome times e log db h =
        Answers-Outcome x store ch
          (accept_event-Answers x store ch times (bearer token) directory log e db encodes h) h

    submit_from-Outcome :
        (e : Event) (log : List Event) (db : Database) (attempts : List (Attempt T))
        → History x store ch log db
        → Outcome x store ch log e
            (submit_from x store ch token directory e db attempts).0
            (submit_from x store ch token directory e db attempts).1.db
    unfolding submit_from
    submit_from-Outcome e log db [] h = (stays x store ch h, λ s. cc)
    submit_from-Outcome e log db (other step ∷ rest) h =
        let f = run_step-Follows x store ch encodes step log db h in
        let (g, stored) =
          submit_from-Outcome e f.now (run_step x store ch step db) rest f.reached in
        (on x store ch f g, stored)
    submit_from-Outcome e log db (request_lost ∷ rest) h = (stays x store ch h, λ s. cc)
    submit_from-Outcome e log db (answer_lost times ∷ rest) h =
        ((post-Outcome times e log db h).0, λ s. cc)
    submit_from-Outcome e log db (answered times ∷ rest) h = post-Outcome times e log db h

    submit-Outcome :
        (e : Event) (log : List Event) (db : Database) (attempts : List (Attempt T))
        → History x store ch log db
        → Outcome x store ch log e
            (submit_event x store ch token directory e (record { db = db; attempts = attempts })).0
            (submit_event x store ch token directory e
              (record { db = db; attempts = attempts })).1.db
    unfolding submit_event
    submit-Outcome e log db attempts h = submit_from-Outcome e log db attempts h

    deliver-Outcome :
        (n : ℕ) (e : Event) (log : List Event) (w : Network T)
        → History x store ch log w.db
        → Outcome x store ch log e
            (deliver_with_retry (submit_event x store ch token directory) n e w).0
            (deliver_with_retry (submit_event x store ch token directory) n e w).1.db
    unfolding deliver_with_retry
    deliver-Outcome zero e log w h = (stays x store ch h, λ s. cc)
    deliver-Outcome (suc n) e log w h =
        let (f, stored) = submit-Outcome e log w.db w.attempts h in
        let w' = (submit_event x store ch token directory e w).1 in
        elim (Bool-cases (submit_event x store ch token directory e w).0) [
          | inl sent ↦ rw (sent, deliver_with_retry) (f, λ s. stored sent)
          | inr lost ↦
              let (g, later) = deliver-Outcome n e f.now w' f.reached in
              rw (lost, deliver_with_retry) (on x store ch f g, later)
        ]

    delivered-Outcome :
        (n : ℕ) (e : Event) (log : List Event) (w m : Network T) (sent : Bool)
        → deliver_with_retry (submit_event x store ch token directory) n e w ≡ (sent, m)
        → History x store ch log w.db
        → Outcome x store ch log e sent m.db
    delivered-Outcome n e log w m sent done h =
        subst (λ (p : Bool × Network T). Outcome x store ch log e p.0 p.1.db) done
          (deliver-Outcome n e log w h)

    Sends-Stored :
        (n : ℕ) (es : List Event) (log : List Event) (w w' : Network T)
        → Sends (submit_event x store ch token directory) n es w w'
        → History x store ch log w.db
        → (f : Follows x store ch log w'.db) × All (IsStored x f.now) es
    Sends-Stored n [] log w w' same h =
        (subst (λ (v : Network T). Follows x store ch log v.db) same (stays x store ch h), tt)
    Sends-Stored n (e ∷ es) log w w' (m, sent, rest) h =
        let (f, stored) = delivered-Outcome n e log w m true sent h in
        let (g, all) = Sends-Stored n es f.now m w' rest f.reached in
        (on x store ch f g, (g.grows e (stored refl), all))

    Leaves-Stored :
        (n : ℕ) (removes : Event → Bool) (es : List Event) (log : List Event) (spool : Spool)
        (w : Network T) (o : Drained (Network T))
        → (l : Leaves (submit_event x store ch token directory) n removes es 0 spool w o)
        → History x store ch log w.db
        → (f : Follows x store ch log o.world.db) × All (IsStored x f.now) (take l.count es)
    Leaves-Stored n removes es log spool w o l h =
        let (f, all) = Sends-Stored n (take l.count es) log w l.at l.sends h in
        elim l.ended [
          | inl (_, _, same) ↦
              subst
                (λ (v : Network T).
                  (g : Follows x store ch log v.db) × All (IsStored x g.now) (take l.count es))
                (sym same) (f, all)
          | inr (e, _, inl (_, failed)) ↦
              let (g, _) = delivered-Outcome n e f.now l.at o.world false failed f.reached in
              (on x store ch f g, All-map (λ e s. g.grows e s) (take l.count es) all)
          | inr (e, _, inr (_, _, sent)) ↦
              let (g, _) = delivered-Outcome n e f.now l.at o.world true sent f.reached in
              (on x store ch f g, All-map (λ e s. g.grows e s) (take l.count es) all)
        ]

-- An agent that can run and drains its spool of tidy files against a server in a database that it
-- can reach, over a network that loses requests or answers, while the server takes other events and
-- its workers claim, complete and fail jobs: whatever is lost, the first files, for some number of
-- them, are gone, and the server has stored each of their events, under its identifier and with its
-- encoding; what the server had stored before, it still has. Two events with one encoding have one
-- fingerprint here.
pub drain-Stored :
    {T : Type 0} (x : Formats) (store : ServerEventStore) (ch : Chrono T) (lib : ClientLibrary)
    (config : AgentConfig) (root : SpoolRoot) (directory : Option (List CredentialEntry))
    (spool : Spool) (log : List Event) (w : Network T)
    → Encodes x
    → CanRun lib config root
    → All (IsTidy x) spool.pending
    → History x store ch log w.db
    → (events : List Event) × (list x spool.pending ≡ ok events)
      × ((count : ℕ) × (f : Follows x store ch log
            (drain
              (submit_event x store ch config.token directory)
              x
              lib
              config
              root
              spool
              w).world.db)
          × ((drain
                (submit_event x store ch config.token directory)
                x
                lib
                config
                root
                spool
                w).spool.pending
              ≡ drop count spool.pending)
          × All (IsStored x f.now) (take count (take config.limit events)))
drain-Stored {T = T} x store ch lib config root directory spool log w encodes can tidy h =
    let submit : Event → Network T → Bool × Network T =
      submit_event x store ch config.token directory in
    let (events, listed, _, l) = drain-Leaves submit x lib config root spool w can tidy in
    let (f, all) =
      Leaves-Stored x store ch config.token directory encodes config.max_attempts root.removes
        (take config.limit events) log spool w _ l h in
    (events, listed, (l.count, f, l.pending, all))
