-- ===== src/Store/Queue/Order.antt =====
-- The notifications table in the order of its identifiers, all of them below the next one.
use beacon_alerts.Prelude.{
  ℕ, suc, ◌≤◌, ◌<◌, ◌≡◌, refl, true, sym, ◌∙◌, ap, subst, inl, inr, Bool, some, List, [], ◌∷◌, ◌++◌,
  arith, find, All, Bool-cases,
}
use beacon_alerts.Fallible.{same_some}
use beacon_alerts.Store.{JobRow}
use beacon_alerts.Store.Jobs.{update_where, has_id}
use beacon_alerts.Store.Queue.Rows.{IsAmong, updated, All-update_where}

abbrev pub InOrder : List JobRow → ℕ → Type 0
InOrder [] next = Unit
InOrder (row ∷ rows) next =
    (row.id < next) × All (λ other. row.id < other.id) rows × InOrder rows next

pub All-IsAmong {κ} :
    (P : JobRow → Type κ) (row : JobRow) (rows : List JobRow)
    → All P rows
    → IsAmong row rows
    → P row
All-IsAmong P row [] h m = absurd m
All-IsAmong P row (r ∷ rows) h (inl e) = subst P e h.0
All-IsAmong P row (r ∷ rows) h (inr m) = All-IsAmong P row rows h.1 m

-- A row is found by its identifier.
pub find_of_IsAmong :
    (row : JobRow) (rows : List JobRow) (next : ℕ)
    → InOrder rows next
    → IsAmong row rows
    → find (has_id row.id) rows ≡ some row
find_of_IsAmong row [] next o m = absurd m
find_of_IsAmong row (r ∷ rows) next o (inl e) = ground (arith, e, ap (λ (s : JobRow). s.id) e)
find_of_IsAmong row (r ∷ rows) next o (inr m) =
    let above : r.id < row.id = All-IsAmong (λ s. r.id < s.id) row rows o.1 m in
    ground (arith, above, find_of_IsAmong row rows next o.2 m)

module _ (test : JobRow → Bool) (change : JobRow → JobRow)
    (keep : (row : JobRow) → (change row).id ≡ row.id) where
  updated-id : (row : JobRow) → (updated test change row).id ≡ row.id
  updated-id row = elim (Bool-cases (test row)) [ inl e ↦ rw e (keep row) | inr e ↦ rw e refl ]

  pub update_where-InOrder :
      (rows : List JobRow) (next : ℕ)
      → InOrder rows next
      → InOrder (update_where test change rows) next
  unfolding update_where
  update_where-InOrder [] next o = tt
  update_where-InOrder (row ∷ rows) next o = (
    rw (updated-id row) o.0,
    rw (updated-id row) (
        All-update_where test change (λ other. row.id < other.id) rows
          (λ other _ h. rw (keep other) h) o.1),
    update_where-InOrder rows next o.2,
  )

InOrder-weaken : (rows : List JobRow) (m n : ℕ) → m ≤ n → InOrder rows m → InOrder rows n
InOrder-weaken [] m n h o = tt
InOrder-weaken (row ∷ rows) m n h o = (omega arith, o.1, InOrder-weaken rows m n h o.2)

pub All-append {κ} :
    (P : JobRow → Type κ) (rows : List JobRow) (row : JobRow)
    → All P rows
    → P row
    → All P (rows ++ row ∷ [])
All-append P [] row h p = (p, tt)
All-append P (r ∷ rows) row h p = (h.0, All-append P rows row h.1 p)

-- A new row at the end takes the next identifier.
pub InOrder-append :
    (rows : List JobRow) (row : JobRow) (next : ℕ)
    → InOrder rows next
    → row.id ≡ next
    → InOrder (rows ++ row ∷ []) (suc next)
InOrder-append [] row next o e = (omega arith, tt, tt)
InOrder-append (r ∷ rows) row next o e = (
  omega arith,
  All-append (λ other. r.id < other.id) rows row o.1 (omega arith),
  InOrder-append rows row next o.2 e,
)

-- An update keeps a property of all rows if it does so at each row of the table that it changes.
pub All-update_among {κ} :
    (test : JobRow → Bool) (change : JobRow → JobRow) (P : JobRow → Type κ) (rows : List JobRow)
    → ((row : JobRow) → IsAmong row rows → test row ≡ true → P row → P (change row))
    → All P rows
    → All P (update_where test change rows)
unfolding update_where
All-update_among test change P [] keep h = tt
All-update_among test change P (row ∷ rows) keep h = elim (Bool-cases (test row)) [
  | inl e ↦
      rw e
        (keep row (inl refl) e h.0, All-update_among test change P rows (λ r m. keep r (inr m)) h.1)
  | inr e ↦ rw e (h.0, All-update_among test change P rows (λ r m. keep r (inr m)) h.1)
]

-- Rows of the table with one identifier are one row.
pub same_row :
    (r s : JobRow) (rows : List JobRow) (next : ℕ)
    → InOrder rows next
    → IsAmong r rows
    → IsAmong s rows
    → r.id ≡ s.id
    → r ≡ s
same_row r s rows next o m n e = same_some r s (
    sym (find_of_IsAmong r rows next o m)
    ∙ ap (λ (i : ℕ). find (has_id i) rows) e
    ∙ find_of_IsAmong s rows next o n)
