-- ===== src/Store/Queue/Rows.antt =====
-- Updating and searching the rows of the notifications table.
use mathlib.Core.Option
use native.Mathlib.Nat.{le_refl, le_trans}
use beacon_alerts.Prelude.{
  ℕ, ◌≤◌, ◌≡◌, refl, ◌⊎◌, inl, inr, Bool, true, false, Option, none, some, List, [], ◌∷◌, arith,
  leb, leb→le, find, All, Bool-cases, if◌then◌else◌,
}
use beacon_alerts.Store.{JobRow}
use beacon_alerts.Store.Jobs.{first_due, lower, update_where, has_id}

module _ (test : JobRow → Bool) (change : JobRow → JobRow) where
  abbrev pub updated : JobRow → JobRow
  updated row = if test row then change row else row

  pub find-update_where :
      (id : ℕ) (rows : List JobRow)
      → ((row : JobRow) → (change row).id ≡ row.id)
      → find (has_id id) (update_where test change rows)
        ≡ Option.map updated (find (has_id id) rows)
  unfolding update_where
  find-update_where id [] keep = refl
  find-update_where id (row ∷ rows) keep = ground (arith, keep row, find-update_where id rows keep)

  pub All-update_where {κ} :
      (P : JobRow → Type κ) (rows : List JobRow)
      → ((row : JobRow) → test row ≡ true → P row → P (change row))
      → All P rows
      → All P (update_where test change rows)
  unfolding update_where
  All-update_where P [] keep h = tt
  All-update_where P (row ∷ rows) keep h = elim (Bool-cases (test row)) [
    | inl e ↦ rw e (keep row e h.0, All-update_where P rows keep h.1)
    | inr e ↦ rw e (h.0, All-update_where P rows keep h.1)
  ]

abbrev pub IsAmong : JobRow → List JobRow → Type 0
IsAmong row [] = ⊥
IsAmong row (r ∷ rows) = (r ≡ row) ⊎ IsAmong row rows

-- The row is due and in the table, and no due row has a lower identifier.
pub record IsLeastDue (due : JobRow → Bool) (rows : List JobRow) (row : JobRow) : Type 0 where
  pub is_due : due row ≡ true
  pub among : IsAmong row rows
  pub least : All (λ other. due other ≡ true → row.id ≤ other.id) rows

-- What a search for the next job has found.
abbrev pub Found : (JobRow → Bool) → List JobRow → Option JobRow → Type 0
Found due rows none = All (λ row. due row ≡ false) rows
Found due rows (some row) = IsLeastDue due rows row

least_above :
    (due : JobRow → Bool) (m n : ℕ) (rows : List JobRow)
    → m ≤ n
    → All (λ other. due other ≡ true → n ≤ other.id) rows
    → All (λ other. due other ≡ true → m ≤ other.id) rows
least_above due m n [] h l = tt
least_above due m n (row ∷ rows) h l = ((λ d. le_trans h (l.0 d)), least_above due m n rows h l.1)

least_of_none :
    (due : JobRow → Bool) (m : ℕ) (rows : List JobRow)
    → All (λ row. due row ≡ false) rows
    → All (λ other. due other ≡ true → m ≤ other.id) rows
least_of_none due m [] h = tt
least_of_none due m (row ∷ rows) h =
    ((λ d. absurd (ground (arith, d, h.0))), least_of_none due m rows h.1)

Found-lower :
    (due : JobRow → Bool) (row : JobRow) (rows : List JobRow) (o : Option JobRow)
    → due row ≡ true
    → Found due rows o
    → Found due (row ∷ rows) (lower row o)
Found-lower due row rows none d h = record {
  is_due = d;
  among = inl refl;
  least = ((λ _. le_refl row.id), least_of_none due row.id rows h);
}
Found-lower due row rows (some other) d h = elim (Bool-cases (leb row.id other.id)) [
  | inl e ↦ rw e (record {
    is_due = d;
    among = inl refl;
    least = (
      (λ _. le_refl row.id),
      least_above due row.id other.id rows (leb→le row.id other.id e) h.least,
    );
  })
  | inr e ↦ rw e (record {
    is_due = h.is_due;
    among = inr h.among;
    least = ((λ _. ground (arith, e)), h.least);
  })
]

Found-skip :
    (due : JobRow → Bool) (row : JobRow) (rows : List JobRow) (o : Option JobRow)
    → due row ≡ false
    → Found due rows o
    → Found due (row ∷ rows) o
Found-skip due row rows none d h = (d, h)
Found-skip due row rows (some other) d h = record {
  is_due = h.is_due;
  among = inr h.among;
  least = ((λ t. absurd (ground (arith, d, t))), h.least);
}

-- `first_due` finds the due row with the lowest identifier, or there is no due row.
pub first_due-Found :
    (due : JobRow → Bool) (rows : List JobRow) → Found due rows (first_due due rows)
unfolding first_due
first_due-Found due [] = tt
first_due-Found due (row ∷ rows) = elim (Bool-cases (due row)) [
  | inl e ↦ rw e (Found-lower due row rows (first_due due rows) e (first_due-Found due rows))
  | inr e ↦ rw e (Found-skip due row rows (first_due due rows) e (first_due-Found due rows))
]
