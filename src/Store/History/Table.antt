-- ===== src/Store/History/Table.antt =====
-- The rows of the alerts table, against the alerts that a history leaves.
use beacon_alerts.Prelude.{
  String, ◌≡◌, refl, sym, ap, subst, ◌∙◌, ◌⊎◌, inl, inr, Bool, none, some, List, [], ◌∷◌, arith,
  find, All, All-map, ◌==◌, eq_iff, Bool-cases,
}
use beacon_alerts.Fallible.{ok, ok-injective}
use beacon_alerts.Model.{Event, AlertRecord}
use beacon_alerts.Model.Validate.{Formats}
use beacon_alerts.Store.{Database, AlertRow, ServerEventStore}
use beacon_alerts.Store.Alerts.{
  load_alert, save_alert-eq-ok, upsert, find-upsert, next_alert, row_of, alert_from_row-row_of,
}
use beacon_alerts.Store.Lifecycle.{replay}
use beacon_alerts.Store.Accept.{EventResult, Times}
use beacon_alerts.Store.Replies.{Fresh, Repeated, accept-cases}
use beacon_alerts.Store.Clock.{Chrono}
use beacon_alerts.Store.Listing.{IsSaved}
use beacon_alerts.Store.History.{History, start, accepts, claims, completes, fails, enrolls}
use beacon_alerts.Store.History.Mirror.{
  SameTables, committed-SameTables, claim-SameTables, complete-SameTables, fail-SameTables,
  History-Mirrors,
}

abbrev has_fingerprint : String → AlertRow → Bool
has_fingerprint fp row = row.fingerprint == fp

-- Every row was saved from a record, and no fingerprint occurs twice.
abbrev pub IsTable : List AlertRow → Type 0
IsTable [] = Unit
IsTable (row ∷ rows) =
    IsSaved row × (find (has_fingerprint row.fingerprint) rows ≡ none) × IsTable rows

upsert-IsTable :
    (row : AlertRow) (rows : List AlertRow) → IsSaved row → IsTable rows → IsTable (upsert row rows)
unfolding upsert
upsert-IsTable row [] s t = (s, refl, tt)
upsert-IsTable row (r ∷ rows) s t = elim (Bool-cases (r.fingerprint == row.fingerprint)) [
  | inl same ↦ rw same (
    s,
    subst (λ (fp : String). find (has_fingerprint fp) rows ≡ none)
        ((eq_iff r.fingerprint row.fingerprint).0 same) t.1,
    t.2,
  )
  | inr other ↦ rw other (
    t.0,
    ground (
      arith,
      find-upsert row rows r.fingerprint,
      other,
      t.1,
      eq_iff r.fingerprint row.fingerprint,
      eq_iff row.fingerprint r.fingerprint,
    ),
    upsert-IsTable row rows s t.2,
  )
]

-- The row is the one that is found under its fingerprint, and its record is loaded there.
abbrev Loads : List AlertRow → AlertRow → Type 0
Loads rows row = find (has_fingerprint row.fingerprint) rows ≡ some row

Loads-cons :
    (r row : AlertRow) (rows : List AlertRow)
    → find (has_fingerprint r.fingerprint) rows ≡ none
    → Loads rows row
    → Loads (r ∷ rows) row
Loads-cons r row rows new h = elim (Bool-cases (r.fingerprint == row.fingerprint)) [
  | inr other ↦ rw other h
  | inl same ↦ cc ((eq_iff r.fingerprint row.fingerprint).0 same, new, h)
]

IsTable-Loads :
    (rows : List AlertRow) → IsTable rows → All (λ row. IsSaved row × Loads rows row) rows
IsTable-Loads [] t = tt
IsTable-Loads (row ∷ rows) t = (
  (t.0, rw ((eq_iff row.fingerprint row.fingerprint).1 refl) refl),
  All-map (λ r h. (h.0, Loads-cons row r rows t.1 h.1)) rows (IsTable-Loads rows t.2),
)

SameTables-IsTable :
    (db db' : Database) → SameTables db db' → IsTable db.alerts → IsTable db'.alerts
SameTables-IsTable db db' s t = rw s.alerts t

accepts-IsTable :
    (x : Formats) (store : ServerEventStore) (times : Times) (e : Event) (db db' : Database)
    (r : EventResult)
    → Fresh x store times e db r db' ⊎ Repeated x store times e db r db'
    → IsTable db.alerts
    → IsTable db'.alerts
accepts-IsTable x store times e db db' r (inl f) t =
    let same =
      committed-SameTables x store times e f.payload (next_alert e f.existing) f.alerts db in
    rw
      (
        f.commit,
        same.alerts,
        (save_alert-eq-ok db.alerts f.alerts (next_alert e f.existing) f.saved).1,
      )
      (upsert-IsTable (row_of (next_alert e f.existing)) db.alerts (next_alert e f.existing, refl)
        t)
accepts-IsTable x store times e db db' r (inr p) t = rw p.unchanged t

History-IsTable :
    {T : Type 0} (x : Formats) (store : ServerEventStore) (ch : Chrono T) {log : List Event}
    {db : Database}
    → History x store ch log db
    → IsTable db.alerts
History-IsTable x store ch start = tt
History-IsTable x store ch (accepts e times r done h) =
    accepts-IsTable x store times e _ _ r (accept-cases x store times e _ r _ done)
      (History-IsTable x store ch h)
History-IsTable x store ch (claims now max_attempts h) =
    SameTables-IsTable _ _ (claim-SameTables ch now max_attempts _) (History-IsTable x store ch h)
History-IsTable x store ch (completes id now h) =
    SameTables-IsTable _ _ (complete-SameTables ch id now _) (History-IsTable x store ch h)
History-IsTable x store ch (fails id update done h) =
    SameTables-IsTable _ _ (fail-SameTables ch id update _ _ done) (History-IsTable x store ch h)
History-IsTable x store ch (enrolls rows h) = History-IsTable x store ch h

-- The row is that of the alert that the history leaves under its fingerprint.
abbrev pub IsCurrent : List Event → AlertRow → Type 0
IsCurrent log row = (a : AlertRecord) × (row ≡ row_of a) × (replay a.fingerprint log ≡ some a)

Loads-IsCurrent :
    (log : List Event) (rows : List AlertRow) (row : AlertRow)
    → ((fp : String) → load_alert rows fp ≡ ok (replay fp log))
    → IsSaved row
    → Loads rows row
    → IsCurrent log row
unfolding load_alert
Loads-IsCurrent log rows row loads (a, saved) found = (
  a,
  saved,
  ok-injective (replay a.fingerprint log) (some a) (
      sym (loads a.fingerprint)
      ∙ rw
          (ap (λ (r : AlertRow). find (has_fingerprint r.fingerprint) rows) (sym saved)
            ∙ found
            ∙ ap some saved)
          (rw (alert_from_row-row_of a) refl)),
)

-- In a reachable database, each row of the table holds the alert that the history leaves.
pub History-IsCurrent :
    {T : Type 0} (x : Formats) (store : ServerEventStore) (ch : Chrono T) {log : List Event}
    {db : Database}
    → History x store ch log db
    → All (IsCurrent log) db.alerts
History-IsCurrent x store ch {log = log} {db = db} h =
    All-map
      (λ row k. Loads-IsCurrent log db.alerts row (History-Mirrors x store ch h).alerts k.0 k.1)
      db.alerts (IsTable-Loads db.alerts (History-IsTable x store ch h))
