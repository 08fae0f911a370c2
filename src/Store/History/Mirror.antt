-- ===== src/Store/History/Mirror.antt =====
-- The tables of events and alerts hold what the history says.
use beacon_alerts.Prelude.{
  ℕ, String, ◌≡◌, refl, sym, ap, subst, ◌∙◌, ◌⊎◌, inl, inr, Bool, false, Option, none, some, List,
  [], ◌∷◌, ◌++◌, arith, find, ◌==◌, eq_iff, Bool-cases, text-cases, if◌then◌else◌,
}
use beacon_alerts.Fallible.{ok, ok-injective, >>=-eq-ok, or_fail, panicked}
use beacon_alerts.Model.{Event, AlertRecord}
use beacon_alerts.Model.Validate.{Formats, validate}
use beacon_alerts.Policy.{channels_for}
use beacon_alerts.Store.{Database, EventRow, AlertRow, ServerEventStore}
use beacon_alerts.Store.Alerts.{
  load_alert, save_alert, save_alert-eq-ok, load_alert-save_alert, next_alert,
}
use beacon_alerts.Store.Lifecycle.{
  replay, IsCounted, replay-IsUnder, next_alert-fingerprint, next_alert-positive,
}
use beacon_alerts.Store.Accept.{
  EventResult, Times, find_event, insert_job, insert_jobs, enqueue_notifications, notifies,
}
use beacon_alerts.Store.Replies.{Fresh, Repeated, written, committed, event_row, accept-cases}
use beacon_alerts.Store.Clock.{Chrono}
use beacon_alerts.Store.Jobs.{
  claim_notification, complete_notification, fail_notification, next_attempt,
  NotificationFailureUpdate,
}
use beacon_alerts.Store.History.{History, start, accepts, claims, completes, fails, enrolls, logged}

abbrev pub has_event_id : String → Event → Bool
has_event_id id e = e.event_id == id

-- The row of an event and the event, or neither.
abbrev pub Matched : Formats → Option EventRow → Option Event → Type 0
Matched x none none = Unit {0}
Matched x (some row) (some e) = (x.to_string e ≡ some row.payload) × (validate x e ≡ ok tt)
Matched x _ _ = ⊥

pub record Mirrors (x : Formats) (log : List Event) (db : Database) : Type 0 where
  pub alerts : (fp : String) → load_alert db.alerts fp ≡ ok (replay fp log)
  pub counted : (fp : String) → IsCounted (replay fp log)
  pub events : (id : String) → Matched x (find_event db.events id) (find (has_event_id id) log)

-- the queue operations leave both tables alone
pub record SameTables (db db' : Database) : Type 0 where
  pub events : db'.events ≡ db.events
  pub alerts : db'.alerts ≡ db.alerts

SameTables-Mirrors :
    (x : Formats) (log : List Event) (db db' : Database)
    → SameTables db db'
    → Mirrors x log db
    → Mirrors x log db'
SameTables-Mirrors x log db db' s m = record {
  alerts = λ fp. rw s.alerts (m.alerts fp);
  counted = m.counted;
  events = λ id. rw s.events (m.events id);
}

insert_jobs-SameTables :
    (p : String) (e : Event) (at : String) (cs : List String) (db : Database)
    → SameTables db (insert_jobs p e at cs db)
unfolding insert_jobs
insert_jobs-SameTables p e at [] db = record { events = refl; alerts = refl }
insert_jobs-SameTables p e at (c ∷ cs) db =
    let rest = insert_jobs-SameTables p e at cs (insert_job p e at c db) in
    record {
      events = rest.events ∙ unfold insert_job in ground arith;
      alerts = rest.alerts ∙ unfold insert_job in ground arith;
    }

module _ (x : Formats) (store : ServerEventStore) (times : Times) where
  pub committed-SameTables :
      (e : Event) (payload : String) (a : AlertRecord) (alerts : List AlertRow) (db : Database)
      → SameTables
          (written x store times e payload alerts db)
          (committed x store times e payload a alerts db)
  unfolding enqueue_notifications
  committed-SameTables e payload a alerts db = elim (Bool-cases (notifies e a)) [
    | inl n ↦ rw n (
        insert_jobs-SameTables _ e times.queued_at (channels_for store.policy e)
          (written x store times e payload alerts db))
    | inr n ↦ rw n (record { events = refl; alerts = refl })
  ]

abbrev or_last {ℓ} : {A : Type ℓ} → (A → Bool) → A → Option A → Option A
or_last p a none = if p a then some a else none
or_last p a (some b) = some b

find-append {ℓ} :
    {A : Type ℓ} (p : A → Bool) (bs : List A) (a : A)
    → find p (bs ++ a ∷ []) ≡ or_last p a (find p bs)
find-append p [] a = refl
find-append p (b ∷ bs) a = elim (Bool-cases (p b)) [
  | inl e ↦ rw e refl
  | inr e ↦ rw e (find-append p bs a)
]

or_last_skip {ℓ} :
    {A : Type ℓ} (p : A → Bool) (a : A) (o : Option A) → p a ≡ false → or_last p a o ≡ o
or_last_skip p a none h = rw h refl
or_last_skip p a (some b) h = refl

Matched-last :
    (x : Formats) (id : String) (row : EventRow) (e : Event) (o : Option EventRow)
    (f : Option Event)
    → row.event_id ≡ e.event_id
    → x.to_string e ≡ some row.payload
    → validate x e ≡ ok tt
    → ((id ≡ e.event_id) → o ≡ none)
    → Matched x o f
    → Matched x
        (or_last (λ (r : EventRow). r.event_id == id) row o)
        (if e.event_id == id then some e else f)
Matched-last x id row e o f same enc valid new m = elim (text-cases e.event_id id) [
  | inl here ↦ rw (new (sym here)) (
      rw ((eq_iff row.event_id id).1 (same ∙ here))
        (rw ((eq_iff e.event_id id).1 here) (enc, valid)))
  | inr other ↦
      rw (other, or_last_skip (λ (r : EventRow). r.event_id == id) row o (rw same other)) m
]

module _ (x : Formats) (store : ServerEventStore) (times : Times) where
  module _ (log : List Event) (e : Event) (db db' : Database) (r : EventResult)
      (m : Mirrors x log db) (f : Fresh x store times e db r db') where
    before : Option AlertRecord
    before = replay e.fingerprint log

    existing_lem : f.existing ≡ before
    unfolding before
    existing_lem =
        ok-injective f.existing (replay e.fingerprint log) (sym f.loaded ∙ m.alerts e.fingerprint)

    saved_lem : save_alert db.alerts (next_alert e before) ≡ ok f.alerts
    saved_lem = rw (← existing_lem) f.saved

    fingerprint_lem : (next_alert e before).fingerprint ≡ e.fingerprint
    unfolding before
    fingerprint_lem = next_alert-fingerprint e before (replay-IsUnder e.fingerprint log)

    Fresh-alerts : (fp : String) → load_alert f.alerts fp ≡ ok (replay fp (e ∷ log))
    unfolding replay before
    Fresh-alerts fp =
        load_alert-save_alert db.alerts f.alerts (next_alert e before) fp saved_lem
        ∙ elim (text-cases e.fingerprint fp) [
          | inl here ↦ rw (ap (λ s. s == fp) fingerprint_lem ∙ (eq_iff e.fingerprint fp).1 here) (
              rw ((eq_iff e.fingerprint fp).1 here)
                (ap (λ (s : String). ok (some (next_alert e (replay s log)))) here))
          | inr other ↦ rw (ap (λ s. s == fp) fingerprint_lem ∙ other) (rw other (m.alerts fp))
        ]

    Fresh-IsCounted : (fp : String) → IsCounted (replay fp (e ∷ log))
    unfolding replay before
    Fresh-IsCounted fp = elim (text-cases e.fingerprint fp) [
      | inl here ↦ rw ((eq_iff e.fingerprint fp).1 here) (
          subst (λ s. IsCounted (some (next_alert e (replay s log)))) here
            (
              next_alert-positive e before (m.counted e.fingerprint),
              (save_alert-eq-ok db.alerts f.alerts (next_alert e before) saved_lem).0,
            ))
      | inr other ↦ rw other (m.counted fp)
    ]

    pub Fresh-Mirrors : Mirrors x (e ∷ log) db'
    Fresh-Mirrors =
        let same =
          committed-SameTables x store times e f.payload (next_alert e f.existing) f.alerts db in
        record {
          alerts = λ fp. rw (f.commit, same.alerts) (Fresh-alerts fp);
          counted = Fresh-IsCounted;
          events = λ id.
              rw (f.commit, same.events)
                (rw
                  (find-append (λ (row : EventRow). row.event_id == id) db.events
                    (event_row x store times e f.payload))
                  (Matched-last x id (event_row x store times e f.payload) e
                    (find_event db.events id) (find (has_event_id id) log) refl f.encoded f.valid
                    (λ here. ap (find_event db.events) here ∙ f.unknown) (m.events id)));
        }

pub claim-SameTables :
    {T : Type 0} (ch : Chrono T) (now : T) (max_attempts : ℕ) (db : Database)
    → SameTables db (claim_notification ch now max_attempts db).1
unfolding claim_notification
claim-SameTables ch now max_attempts db = record { events = ground arith; alerts = ground arith }

pub complete-SameTables :
    {T : Type 0} (ch : Chrono T) (id : ℕ) (now : T) (db : Database)
    → SameTables db (complete_notification ch id now db)
unfolding complete_notification
complete-SameTables ch id now db = record { events = refl; alerts = refl }

pub fail-SameTables :
    {T : Type 0} (ch : Chrono T) (id : ℕ) (update : NotificationFailureUpdate T) (db db' : Database)
    → fail_notification ch id update db ≡ ok db'
    → SameTables db db'
unfolding fail_notification
fail-SameTables ch id update db db' h =
    let (at, _, e) = >>=-eq-ok (or_fail (next_attempt ch update) panicked) _ h in
    record { events = ground arith; alerts = ground arith }

accepts-Mirrors :
    (x : Formats) (store : ServerEventStore) (times : Times) (log : List Event) (e : Event)
    (db db' : Database) (r : EventResult)
    → Fresh x store times e db r db' ⊎ Repeated x store times e db r db'
    → Mirrors x log db
    → Mirrors x (logged r e log) db'
accepts-Mirrors x store times log e db db' r (inl f) m =
    rw f.reply (Fresh-Mirrors x store times log e db db' r m f)
accepts-Mirrors x store times log e db db' r (inr p) m = rw (p.reply, p.unchanged) m

-- In every database that the server can reach, the alert under each fingerprint is the one that
-- the history of accepted events leaves there, its count being between 1 and the largest that the
-- column holds, and the stored events are those of the history, each under its identifier.
pub History-Mirrors :
    {T : Type 0} (x : Formats) (store : ServerEventStore) (ch : Chrono T) {log : List Event}
    {db : Database}
    → History x store ch log db
    → Mirrors x log db
History-Mirrors x store ch start =
    unfold load_alert replay in
    record { alerts = λ fp. refl; counted = λ fp. tt; events = λ id. tt }
History-Mirrors x store ch (accepts e times r done h) =
    accepts-Mirrors x store times _ e _ _ r (accept-cases x store times e _ r _ done)
      (History-Mirrors x store ch h)
History-Mirrors x store ch (claims now max_attempts h) =
    SameTables-Mirrors x _ _ _ (claim-SameTables ch now max_attempts _)
      (History-Mirrors x store ch h)
History-Mirrors x store ch (completes id now h) =
    SameTables-Mirrors x _ _ _ (complete-SameTables ch id now _) (History-Mirrors x store ch h)
History-Mirrors x store ch (fails id update done h) =
    SameTables-Mirrors x _ _ _ (fail-SameTables ch id update _ _ done)
      (History-Mirrors x store ch h)
History-Mirrors x store ch (enrolls rows h) =
    SameTables-Mirrors x _ _ _ (record { events = refl; alerts = refl })
      (History-Mirrors x store ch h)
