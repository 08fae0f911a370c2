-- ===== src/Tests/Listing.antt =====
-- Tests of listing alerts: a sort of the rows, as `ORDER BY last_seen DESC` asks for.
use mathlib.Core.List.{Permᴰ}
use mathlib.Core.List.Permᴰ as Permutation
use beacon_alerts.Prelude.{
  ◌≡◌, refl, inl, inr, true, some, List, [], ◌∷◌, All, All-map, Bool-cases, if◌then◌else◌,
}
use beacon_alerts.Prelude.Order.{le_total, le_trans}
use beacon_alerts.Store.{AlertRow}
use beacon_alerts.Store.Clock.{text_le}
use beacon_alerts.Store.Listing.Newest.{IsNewest, Sorts}
use beacon_alerts.Http.{AlertQuery, get_alerts}
use beacon_alerts.Http.Lists.{Shows, get_alerts-Shows}
use beacon_alerts.Tests.Samples.{formats, store, clock}
use beacon_alerts.Tests.Alerts.{log, opened_db, opened-History}
use beacon_alerts.Tests.Http.{directory}

abbrev insert_row : AlertRow → List AlertRow → List AlertRow
insert_row row [] = row ∷ []
insert_row row (r ∷ rows) =
    let rest = insert_row row rows in
    if text_le r.last_seen row.last_seen then row ∷ r ∷ rows else r ∷ rest

abbrev newest_first : List AlertRow → List AlertRow
newest_first [] = []
newest_first (row ∷ rows) = insert_row row (newest_first rows)

insert_row-Perm : (row : AlertRow) (rows : List AlertRow) → Permᴰ (row ∷ rows) (insert_row row rows)
insert_row-Perm row [] = Permᴰ.cons refl Permᴰ.nil
insert_row-Perm row (r ∷ rows) = elim (Bool-cases (text_le r.last_seen row.last_seen)) [
  | inl e ↦ rw e (Permutation.refl (row ∷ r ∷ rows))
  | inr e ↦ rw e (Permᴰ.trans (Permᴰ.swap refl refl) (Permᴰ.cons refl (insert_row-Perm row rows)))
]

newest_first-Perm : (rows : List AlertRow) → Permᴰ rows (newest_first rows)
newest_first-Perm [] = Permᴰ.nil
newest_first-Perm (row ∷ rows) =
    Permᴰ.trans (Permᴰ.cons refl (newest_first-Perm rows)) (insert_row-Perm row (newest_first rows))

insert_row-All :
    (P : AlertRow → Type 0) (row : AlertRow) (rows : List AlertRow)
    → P row
    → All P rows
    → All P (insert_row row rows)
insert_row-All P row [] p h = (p, tt)
insert_row-All P row (r ∷ rows) p h = elim (Bool-cases (text_le r.last_seen row.last_seen)) [
  | inl e ↦ rw e (p, h)
  | inr e ↦ rw e (h.0, insert_row-All P row rows p h.1)
]

insert_row-IsNewest :
    (row : AlertRow) (rows : List AlertRow)
    → IsNewest (λ (r : AlertRow). r.last_seen) rows
    → IsNewest (λ (r : AlertRow). r.last_seen) (insert_row row rows)
insert_row-IsNewest row [] s = (tt, tt)
insert_row-IsNewest row (r ∷ rows) s = elim (Bool-cases (text_le r.last_seen row.last_seen)) [
  | inl e ↦
      rw e ((e, All-map (λ b h. le_trans b.last_seen r.last_seen row.last_seen h e) rows s.0), s)
  | inr e ↦ rw e (
    insert_row-All (λ b. text_le b.last_seen r.last_seen ≡ true) row rows
        (le_total r.last_seen row.last_seen e) s.0,
    insert_row-IsNewest row rows s.1,
  )
]

newest_first-IsNewest :
    (rows : List AlertRow) → IsNewest (λ (r : AlertRow). r.last_seen) (newest_first rows)
newest_first-IsNewest [] = tt
newest_first-IsNewest (row ∷ rows) =
    insert_row-IsNewest row (newest_first rows) (newest_first-IsNewest rows)

newest_first-Sorts : Sorts newest_first
newest_first-Sorts = record { perm = newest_first-Perm; newest = newest_first-IsNewest }

abbrev query : AlertQuery
query = record { status = some "firing"; limit = 100 }

get_alerts-Shows_example :
    Shows
      (some "Bearer token")
      query
      directory
      log
      opened_db
      (get_alerts newest_first (some "Bearer token") query directory opened_db)
get_alerts-Shows_example =
    get_alerts-Shows formats store clock newest_first (some "Bearer token") query directory log
      opened_db newest_first-Sorts opened-History
