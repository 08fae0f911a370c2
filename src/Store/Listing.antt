-- ===== src/Store/Listing.antt =====
-- `ServerEventStore::list_alerts` of src/server.rs.
pub mod Newest
use beacon_alerts.Prelude.{
  ℕ, zero, suc, ◌≤◌, ◌≡◌, refl, sym, ap, ◌∙◌, inl, inr, Bool, true, Option, none, some, List, [],
  ◌∷◌, arith, min, length, length-take, eq_iff, take, All, All-map, ◌==◌, if◌then◌else◌, Bool-cases,
}
use Prim.Native.Nat.{max}
use beacon_alerts.Fallible.{Result, ok, ◌>>=◌, ok-injective}
use beacon_alerts.Model.{AlertRecord}
use beacon_alerts.Model.AlertStatus
use beacon_alerts.Model.AlertStatus.{AlertStatus}
use beacon_alerts.Store.{Database, AlertRow}
use beacon_alerts.Store.Alerts.{alert_from_row, row_of, alert_from_row-row_of}

-- `limit.clamp(1, 500)`
abbrev pub clamp : ℕ → ℕ
clamp limit = min (max limit 1) 500

-- the loop over the rows
unfoldable pub read_rows : List AlertRow → Result (List AlertRecord)
unfolding alert_from_row
read_rows [] = ok []
read_rows (row ∷ rows) = do alert ← alert_from_row row; alerts ← read_rows rows; ok (alert ∷ alerts)

-- the `WHERE` clause
abbrev pub is_listed : Option AlertStatus → AlertRow → Bool
is_listed none row = true
is_listed (some status) row = row.status == AlertStatus.as_str status

unfoldable pub select_rows : (AlertRow → Bool) → List AlertRow → List AlertRow
select_rows test [] = []
select_rows test (row ∷ rows) =
    let rest = select_rows test rows in if test row then row ∷ rest else rest

-- `order` is what `ORDER BY last_seen DESC` does to the selected rows.
unfoldable pub list_alerts :
    (List AlertRow → List AlertRow) → Option AlertStatus → ℕ → Database → Result (List AlertRecord)
unfolding read_rows select_rows
list_alerts order status limit db =
    read_rows (take (clamp limit) (order (select_rows (is_listed status) db.alerts)))

-- The alert has the status that was asked for.
abbrev pub HasStatus : Option AlertStatus → AlertRecord → Type 0
HasStatus none alert = Unit {0}
HasStatus (some status) alert = alert.status ≡ status

pub take-All {κ} :
    {A : Type 0} (P : A → Type κ) (n : ℕ) (rows : List A) → All P rows → All P (take n rows)
take-All P zero rows h = tt
take-All P (suc n) [] h = tt
take-All P (suc n) (row ∷ rows) h = (h.0, take-All P n rows h.1)

-- The row was saved from a record.
abbrev pub IsSaved : AlertRow → Type 0
IsSaved row = (alert : AlertRecord) × (row ≡ row_of alert)

as_str-injective :
    (s t : AlertStatus) → (AlertStatus.as_str s == AlertStatus.as_str t) ≡ true → s ≡ t
as_str-injective s t h = ok-injective s t (
    sym (AlertStatus.from_str-as_str s)
    ∙ ap AlertStatus.from_str ((eq_iff (AlertStatus.as_str s) (AlertStatus.as_str t)).0 h)
    ∙ AlertStatus.from_str-as_str t)

row_of-HasStatus :
    (status : Option AlertStatus) (a : AlertRecord)
    → is_listed status (row_of a) ≡ true
    → HasStatus status a
row_of-HasStatus none a h = tt
row_of-HasStatus (some status) a h = as_str-injective a.status status h

-- The row was saved from a record with the property.
abbrev pub SavedWith : (AlertRecord → Type 0) → AlertRow → Type 0
SavedWith P row = (alert : AlertRecord) × (row ≡ row_of alert) × P alert

module _ (P : AlertRecord → Type 0) where
  read_rows-All :
      (status : Option AlertStatus) (rows : List AlertRow)
      → All (λ row. (is_listed status row ≡ true) × SavedWith P row) rows
      → (alerts : List AlertRecord) × (read_rows rows ≡ ok alerts)
        × All (λ a. HasStatus status a × P a) alerts
        × (length alerts ≡ length rows)
  unfolding read_rows
  read_rows-All status [] h = ([], refl, tt, refl)
  read_rows-All status (row ∷ rows) ((listed, (a, saved, p)), h) =
      let (alerts, done, each, same) = read_rows-All status rows h in
      (
        a ∷ alerts,
        rw (saved, alert_from_row-row_of a, done) refl,
        ((row_of-HasStatus status a (rw saved at listed), p), each),
        omega (arith, same),
      )

  pub select_rows-SavedWith :
      (test : AlertRow → Bool) (rows : List AlertRow)
      → All (SavedWith P) rows
      → All (λ row. (test row ≡ true) × SavedWith P row) (select_rows test rows)
  unfolding select_rows
  select_rows-SavedWith test [] h = tt
  select_rows-SavedWith test (row ∷ rows) h = elim (Bool-cases (test row)) [
    | inl e ↦ rw e ((e, h.0), select_rows-SavedWith test rows h.1)
    | inr e ↦ rw e (select_rows-SavedWith test rows h.1)
  ]

  -- Listing gives records with the property that all saved records have.
  pub list_alerts-All :
      (order : List AlertRow → List AlertRow) (status : Option AlertStatus) (limit : ℕ)
      (db : Database)
      → ((Q : AlertRow → Type 0) (rows : List AlertRow) → All Q rows → All Q (order rows))
      → All (SavedWith P) db.alerts
      → (alerts : List AlertRecord) × (list_alerts order status limit db ≡ ok alerts)
        × All (λ a. HasStatus status a × P a) alerts
        × (length alerts
            ≡ min (clamp limit) (length (order (select_rows (is_listed status) db.alerts))))
  unfolding list_alerts
  list_alerts-All order status limit db keeps saved =
      let rows = order (select_rows (is_listed status) db.alerts) in
      let listed =
        keeps (λ row. (is_listed status row ≡ true) × SavedWith P row) _
          (select_rows-SavedWith (is_listed status) db.alerts saved) in
      let (alerts, done, each, same) =
        read_rows-All status (take (clamp limit) rows) (take-All _ (clamp limit) rows listed) in
      (alerts, done, each, same ∙ length-take (clamp limit) rows)

-- Where every row was saved from a record, and ordering the rows makes no new ones, listing
-- succeeds: it gives at most 500 alerts, and all have the status that was asked for, if one was.
pub list_alerts-HasStatus :
    (order : List AlertRow → List AlertRow) (status : Option AlertStatus) (limit : ℕ)
    (db : Database)
    → ((P : AlertRow → Type 0) (rows : List AlertRow) → All P rows → All P (order rows))
    → All IsSaved db.alerts
    → (alerts : List AlertRecord) × (list_alerts order status limit db ≡ ok alerts)
      × All (HasStatus status) alerts
      × (length alerts ≤ 500)
list_alerts-HasStatus order status limit db keeps saved =
    let (alerts, done, each, same) =
      list_alerts-All (λ _. Unit {0}) order status limit db keeps
        (All-map (λ row s. (s.0, s.1, tt)) db.alerts saved) in
    (alerts, done, All-map (λ a h. h.0) alerts each, omega (arith, same))
