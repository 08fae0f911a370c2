-- ===== src/Http/Lists.antt =====
-- The answers of the handler that lists the alerts of src/server.rs, against the history.
use beacon_alerts.Prelude.{
  String, ◌≡◌, refl, ap, ◌∙◌, inl, inr, Bool, true, false, Option, none, some, List, [], ◌∷◌, min,
  length, find, All, IsIn, ◌==◌, eq_refl, Bool-cases, Option-cases,
}
use beacon_alerts.Fallible.{Error, Result-cases, ok, err, ok-injective, same_some}
use beacon_alerts.Model.{Event, AlertRecord}
use beacon_alerts.Model.AlertStatus
use beacon_alerts.Model.AlertStatus.{AlertStatus}
use beacon_alerts.Model.Validate.{Formats}
use beacon_alerts.Store.{Database, AlertRow, ServerEventStore}
use beacon_alerts.Store.Alerts.{load_alert, row_of, alert_from_row-row_of}
use beacon_alerts.Store.Clock.{Chrono}
use beacon_alerts.Store.Lifecycle.{replay}
use beacon_alerts.Store.Listing.{HasStatus, clamp, is_listed, select_rows}
use beacon_alerts.Store.Listing.Newest.{IsNewest, IsInOrOld, Sorts, All-IsIn, list_alerts-Lists}
use beacon_alerts.Store.History.{History}
use beacon_alerts.Store.History.Mirror.{History-Mirrors}
use beacon_alerts.Store.History.Table.{IsCurrent, History-IsCurrent}
use beacon_alerts.Http.{
  CredentialEntry, AlertQuery, Response, failed, listed, refused, authorized, get_alerts,
  status_of_query,
}

IsIn-find :
    (test : AlertRow → Bool) (row : AlertRow) (rows : List AlertRow)
    → find test rows ≡ some row
    → IsIn row rows
IsIn-find test row [] h = cc
IsIn-find test row (r ∷ rows) h = elim (Bool-cases (test r)) [
  | inl here ↦ inl (same_some r row (rw here at h))
  | inr further ↦ inr (IsIn-find test row rows (rw further at h))
]

-- The row that is loaded under a fingerprint is that of its alert.
loaded_row :
    (log : List Event) (a : AlertRecord) (rows : List AlertRow)
    → All (IsCurrent log) rows
    → load_alert rows a.fingerprint ≡ ok (some a)
    → IsIn (row_of a) rows
unfolding load_alert
loaded_row log a rows current h =
    let test : AlertRow → Bool = λ row. row.fingerprint == a.fingerprint in
    elim (Option-cases (find test rows)) [
      | inl missing ↦ let h' = rw missing at h in cc
      | inr (row, found) ↦
          let m = IsIn-find test row rows found in
          let (b, saved, _) = All-IsIn (IsCurrent log) row rows current m in
          let h' = rw (found, saved, alert_from_row-row_of b) at h in
          let same : b ≡ a = same_some b a (ok-injective (some b) (some a) h') in
          rw (← same, ← saved) m
    ]

listed_of_HasStatus :
    (status : Option AlertStatus) (a : AlertRecord)
    → HasStatus status a
    → is_listed status (row_of a) ≡ true
listed_of_HasStatus none a h = refl
listed_of_HasStatus (some status) a h = rw h (eq_refl (AlertStatus.as_str status))

-- The alert is the one that the history leaves under its fingerprint, with the status asked for.
abbrev pub IsWanted : List Event → Option AlertStatus → AlertRecord → Type 0
IsWanted log status a = HasStatus status a × (replay a.fingerprint log ≡ some a)

-- What the server answers to a query, by the history of its database.
pub data Shows (header : Option String) (query : AlertQuery)
    (directory : Option (List CredentialEntry)) (log : List Event) (db : Database)
    : Response → Type 0 where
  denies : authorized header directory ≡ false → Shows header query directory log db refused
  misreads :
      (error : Error)
      → authorized header directory ≡ true
      → status_of_query query.status ≡ err error
      → Shows header query directory log db (record { status = 400; body = failed error })
  shows :
      (status : Option AlertStatus) (alerts : List AlertRecord)
      → authorized header directory ≡ true
      → status_of_query query.status ≡ ok status
      → All (IsWanted log status) alerts
      → length alerts ≡ min (clamp query.limit) (length (select_rows (is_listed status) db.alerts))
      → IsNewest (λ (a : AlertRecord). a.last_seen) alerts
      → ((a : AlertRecord)
          → IsWanted log status a
          → IsInOrOld (λ (b : AlertRecord). b.last_seen) (clamp query.limit) a alerts)
      → Shows header query directory log db (record { status = 200; body = listed alerts })

-- The order of alerts is here that of their times `last_seen` as text, which is the order in time
-- only where these have one offset. In every database that the server can reach, and where ordering
-- the rows permutes them with the greatest text first, the answer to a query for alerts is: 401 for a request that is not let through; 400
-- for a status that does not parse; and otherwise 200 with as many alerts as there are rows of the
-- status, up to the limit between 1 and 500, each of them with this status and as the history leaves
-- it under its fingerprint, the greatest text first. Every alert that the history leaves with this status
-- is among them, or their number is the limit and none of them has a text before its own. No query
-- fails with 500.
pub get_alerts-Shows :
    {T : Type 0} (x : Formats) (store : ServerEventStore) (ch : Chrono T)
    (order : List AlertRow → List AlertRow) (header : Option String) (query : AlertQuery)
    (directory : Option (List CredentialEntry)) (log : List Event) (db : Database)
    → Sorts order
    → History x store ch log db
    → Shows header query directory log db (get_alerts order header query directory db)
unfolding get_alerts
get_alerts-Shows x store ch order header query directory log db sorts h =
    let current = History-IsCurrent x store ch h in
    elim (Bool-cases (authorized header directory)) [
      | inr shut ↦ rw (shut, get_alerts) (denies shut)
      | inl admitted ↦ elim (Result-cases (status_of_query query.status)) [
        | inr (error, bad) ↦ rw (admitted, bad, get_alerts) (misreads error admitted bad)
        | inl (status, good) ↦
            let (alerts, done, l) =
              list_alerts-Lists (λ a. replay a.fingerprint log ≡ some a) order status query.limit db
                sorts current in
            rw (admitted, good, done, get_alerts)
              (shows status alerts admitted good l.each l.many l.newest (λ a wanted.
                l.complete a
                  (loaded_row log a db.alerts current
                    ((History-Mirrors x store ch h).alerts a.fingerprint ∙ ap ok wanted.1))
                  (listed_of_HasStatus status a wanted.0)))
      ]
    ]
