-- ===== src/Store/Listing/Newest.antt =====
-- The order in which `list_alerts` of src/server.rs gives its rows, and what its limit leaves out.
use mathlib.Core.List.{Permᴰ}
use beacon_alerts.Prelude.{
  ℕ, zero, suc, String, ◌≡◌, refl, sym, ap, subst, ◌∙◌, ◌⊎◌, inl, inr, Bool, true, List, [], ◌∷◌,
  length, take, All, IsIn, map, Bool-cases, All-map, min, Option,
}
use beacon_alerts.Fallible.{ok, ok-injective}
use beacon_alerts.Model.{AlertRecord}
use beacon_alerts.Model.AlertStatus.{AlertStatus}
use beacon_alerts.Store.{Database, AlertRow}
use beacon_alerts.Store.Alerts.{alert_from_row, row_of, alert_from_row-row_of}
use beacon_alerts.Store.Listing.{
  IsSaved, SavedWith, HasStatus, clamp, is_listed, take-All, read_rows, select_rows,
  select_rows-SavedWith, list_alerts, list_alerts-All,
}
use beacon_alerts.Store.Clock.{text_le}

module _ {A : Type 0} where
  pub Perm-All : (P : A → Type 0) {xs ys : List A} → Permᴰ xs ys → All P xs → All P ys
  Perm-All P Permᴰ.nil h = tt
  Perm-All P (Permᴰ.cons e p) h = (subst P e h.0, Perm-All P p h.1)
  Perm-All P (Permᴰ.swap e f) h = (subst P f h.1.0, (subst P e h.0, h.1.1))
  Perm-All P (Permᴰ.trans p q) h = Perm-All P q (Perm-All P p h)

  pub Perm-length : {xs ys : List A} → Permᴰ xs ys → length ys ≡ length xs
  Perm-length Permᴰ.nil = refl
  Perm-length (Permᴰ.cons e p) = ap suc (Perm-length p)
  Perm-length (Permᴰ.swap e f) = refl
  Perm-length (Permᴰ.trans p q) = Perm-length q ∙ Perm-length p

  pub Perm-IsIn : (a : A) {xs ys : List A} → Permᴰ xs ys → IsIn a xs → IsIn a ys
  Perm-IsIn a Permᴰ.nil m = m
  Perm-IsIn a (Permᴰ.cons e p) (inl same) = inl (sym e ∙ same)
  Perm-IsIn a (Permᴰ.cons e p) (inr m) = inr (Perm-IsIn a p m)
  Perm-IsIn a (Permᴰ.swap e f) (inl same) = inr (inl (sym e ∙ same))
  Perm-IsIn a (Permᴰ.swap e f) (inr (inl same)) = inl (sym f ∙ same)
  Perm-IsIn a (Permᴰ.swap e f) (inr (inr m)) = inr (inr m)
  Perm-IsIn a (Permᴰ.trans p q) m = Perm-IsIn a q (Perm-IsIn a p m)

pub All-IsIn : {A : Type 0} (P : A → Type 0) (a : A) (xs : List A) → All P xs → IsIn a xs → P a
All-IsIn P a [] h m = absurd m
All-IsIn P a (x ∷ xs) h (inl e) = subst P e h.0
All-IsIn P a (x ∷ xs) h (inr m) = All-IsIn P a xs h.1 m

-- Each element was seen no later than those before it.
abbrev pub IsNewest : {A : Type 0} → (A → String) → List A → Type 0
IsNewest seen [] = Unit
IsNewest seen (a ∷ rest) = All (λ b. text_le (seen b) (seen a) ≡ true) rest × IsNewest seen rest

-- What `ORDER BY last_seen DESC` does: it permutes the rows, and the newest come first.
pub record Sorts (order : List AlertRow → List AlertRow) : Type 0 where
  pub perm : (rows : List AlertRow) → Permᴰ rows (order rows)
  pub newest : (rows : List AlertRow) → IsNewest (λ (row : AlertRow). row.last_seen) (order rows)

-- The element is in the list, or the list is full with elements that were seen no earlier.
abbrev pub IsInOrOld : {A : Type 0} → (A → String) → ℕ → A → List A → Type 0
IsInOrOld seen n a xs =
    IsIn a xs ⊎ (All (λ b. text_le (seen a) (seen b) ≡ true) xs × (length xs ≡ n))

module _ {A : Type 0} (seen : A → String) where
  pub take-IsInOrOld :
      (n : ℕ) (a : A) (xs : List A) → IsNewest seen xs → IsIn a xs → IsInOrOld seen n a (take n xs)
  take-IsInOrOld zero a xs s m = inr (tt, refl)
  take-IsInOrOld (suc n) a [] s m = absurd m
  take-IsInOrOld (suc n) a (x ∷ xs) s (inl e) = inl (inl e)
  take-IsInOrOld (suc n) a (x ∷ xs) s (inr m) = elim (take-IsInOrOld n a xs s.1 m) [
    | inl shown ↦ inl (inr shown)
    | inr (older, full) ↦
        inr ((All-IsIn (λ b. text_le (seen b) (seen x) ≡ true) a xs s.0 m, older), ap suc full)
  ]

  pub take-IsNewest : (n : ℕ) (xs : List A) → IsNewest seen xs → IsNewest seen (take n xs)
  take-IsNewest zero xs s = tt
  take-IsNewest (suc n) [] s = tt
  take-IsNewest (suc n) (x ∷ xs) s =
      (take-All (λ b. text_le (seen b) (seen x) ≡ true) n xs s.0, take-IsNewest n xs s.1)

pub select_rows-IsIn :
    (test : AlertRow → Bool) (row : AlertRow) (rows : List AlertRow)
    → test row ≡ true
    → IsIn row rows
    → IsIn row (select_rows test rows)
unfolding select_rows
select_rows-IsIn test row [] h m = absurd m
select_rows-IsIn test row (r ∷ rows) h (inl e) = rw (ap test e ∙ h) (inl e)
select_rows-IsIn test row (r ∷ rows) h (inr m) = elim (Bool-cases (test r)) [
  | inl e ↦ rw e (inr (select_rows-IsIn test row rows h m))
  | inr e ↦ rw e (select_rows-IsIn test row rows h m)
]

pub row_of-injective : (a b : AlertRecord) → row_of a ≡ row_of b → a ≡ b
row_of-injective a b h =
    ok-injective a b (sym (alert_from_row-row_of a) ∙ ap alert_from_row h ∙ alert_from_row-row_of b)

All-unmap :
    (P : AlertRow → Type 0) (alerts : List AlertRecord)
    → All P (map row_of alerts)
    → All (λ a. P (row_of a)) alerts
All-unmap P [] h = tt
All-unmap P (a ∷ alerts) h = (h.0, All-unmap P alerts h.1)

map-IsIn :
    (a : AlertRecord) (alerts : List AlertRecord)
    → IsIn (row_of a) (map row_of alerts)
    → IsIn a alerts
map-IsIn a [] m = m
map-IsIn a (b ∷ alerts) (inl e) = inl (row_of-injective b a e)
map-IsIn a (b ∷ alerts) (inr m) = inr (map-IsIn a alerts m)

length-map : (alerts : List AlertRecord) → length (map row_of alerts) ≡ length alerts
length-map [] = refl
length-map (a ∷ alerts) = ap suc (length-map alerts)

map-IsNewest :
    (alerts : List AlertRecord)
    → IsNewest (λ (row : AlertRow). row.last_seen) (map row_of alerts)
    → IsNewest (λ (a : AlertRecord). a.last_seen) alerts
map-IsNewest [] s = tt
map-IsNewest (a ∷ alerts) s =
    (All-unmap (λ r. text_le r.last_seen a.last_seen ≡ true) alerts s.0, map-IsNewest alerts s.1)

map-IsInOrOld :
    (n : ℕ) (a : AlertRecord) (alerts : List AlertRecord)
    → IsInOrOld (λ (row : AlertRow). row.last_seen) n (row_of a) (map row_of alerts)
    → IsInOrOld (λ (b : AlertRecord). b.last_seen) n a alerts
map-IsInOrOld n a alerts (inl m) = inl (map-IsIn a alerts m)
map-IsInOrOld n a alerts (inr (older, full)) = inr (
  All-unmap (λ r. text_le a.last_seen r.last_seen ≡ true) alerts older,
  sym (length-map alerts) ∙ full,
)

-- Rows that were saved from records are read back.
pub read_rows-map :
    (rows : List AlertRow)
    → All IsSaved rows
    → (alerts : List AlertRecord) × (rows ≡ map row_of alerts) × (read_rows rows ≡ ok alerts)
unfolding read_rows
read_rows-map [] h = ([], refl, refl)
read_rows-map (row ∷ rows) ((a, saved), h) =
    let (alerts, same, done) = read_rows-map rows h in
    (a ∷ alerts, cc (saved, same), rw (saved, alert_from_row-row_of a, done) refl)

-- What listing gives: every alert has the status that was asked for, the newest come first, and an
-- alert of the table with the status is there, or the answer is full with newer ones.
pub record Lists (P : AlertRecord → Type 0) (status : Option AlertStatus) (limit : ℕ)
    (db : Database) (alerts : List AlertRecord) : Type 0 where
  pub each : All (λ a. HasStatus status a × P a) alerts
  pub many : length alerts ≡ min (clamp limit) (length (select_rows (is_listed status) db.alerts))
  pub newest : IsNewest (λ (a : AlertRecord). a.last_seen) alerts
  pub complete :
      (a : AlertRecord)
      → IsIn (row_of a) db.alerts
      → is_listed status (row_of a) ≡ true
      → IsInOrOld (λ (b : AlertRecord). b.last_seen) (clamp limit) a alerts

pub list_alerts-Lists :
    (P : AlertRecord → Type 0) (order : List AlertRow → List AlertRow) (status : Option AlertStatus)
    (limit : ℕ) (db : Database)
    → Sorts order
    → All (SavedWith P) db.alerts
    → (alerts : List AlertRecord) × (list_alerts order status limit db ≡ ok alerts)
      × Lists P status limit db alerts
unfolding list_alerts
list_alerts-Lists P order status limit db sorts saved =
    let selected = select_rows (is_listed status) db.alerts in
    let rows = order selected in
    let seen : AlertRow → String = λ row. row.last_seen in
    let (alerts, done, each, many) =
      list_alerts-All P order status limit db (λ Q r h. Perm-All Q (sorts.perm r) h) saved in
    let (read, same, again) = read_rows-map (take (clamp limit) rows) (
      take-All IsSaved (clamp limit) rows (
        Perm-All IsSaved (sorts.perm selected) (
          All-map (λ r h. (h.1.0, h.1.1)) selected
            (select_rows-SavedWith P (is_listed status) db.alerts saved)))) in
    let equal : read ≡ alerts = ok-injective read alerts (sym again ∙ unfold list_alerts in done) in
    let shown : take (clamp limit) rows ≡ map row_of alerts = same ∙ ap (map row_of) equal in
    (
      alerts,
      done,
      record {
        each = each;
        many = many ∙ ap (min (clamp limit)) (Perm-length (sorts.perm selected));
        newest = map-IsNewest alerts (
            subst (IsNewest seen) shown
              (take-IsNewest seen (clamp limit) rows (sorts.newest selected)));
        complete = λ a there listed. map-IsInOrOld (clamp limit) a alerts (
            subst (IsInOrOld seen (clamp limit) (row_of a)) shown (
              take-IsInOrOld seen (clamp limit) (row_of a) rows (sorts.newest selected) (
                Perm-IsIn (row_of a) (sorts.perm selected)
                  (select_rows-IsIn (is_listed status) (row_of a) db.alerts listed there))));
      },
    )
