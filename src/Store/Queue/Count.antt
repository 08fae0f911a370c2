-- ===== src/Store/Queue/Count.antt =====
-- Counting rows of the notifications table.
use beacon_alerts.Prelude.{
  ℕ, ◌+◌, ◌≤◌, String, ◌≡◌, refl, ap, inl, inr, Bool, true, false, ◌&&◌, List, [], ◌∷◌, arith, eqb,
  eqb_iff, All, Bool-cases, if◌then◌else◌,
}
use beacon_alerts.Store.{JobRow}
use beacon_alerts.Store.Jobs.{update_where, has_id, is_in_flight, set_claimed}
use beacon_alerts.Store.Queue.Rows.{IsAmong}

abbrev pub count : (JobRow → Bool) → List JobRow → ℕ
count test [] = 0
count test (row ∷ rows) = (if test row then 1 else 0) + count test rows

pub count-none :
    (test : JobRow → Bool) (rows : List JobRow)
    → count test rows ≤ 0
    → All (λ r. test r ≡ false) rows
count-none test [] h = tt
count-none test (row ∷ rows) h = elim (Bool-cases (test row)) [
  | inl e ↦ absurd (ground (arith, h, e))
  | inr e ↦ (e, count-none test rows (ground (arith, h, e)))
]

pub count-among :
    (test : JobRow → Bool) (row : JobRow) (rows : List JobRow)
    → IsAmong row rows
    → test row ≡ true
    → 1 ≤ count test rows
count-among test row [] m h = absurd m
count-among test row (r ∷ rows) (inl e) h = ground (arith, ap test e, h)
count-among test row (r ∷ rows) (inr m) h = ground (arith, count-among test row rows m h)

module _ (due : JobRow → Bool) (id : ℕ) (now : String) (change : JobRow → JobRow) where
  -- the rows after a claim of the job and the update that settles it
  abbrev pub settled : List JobRow → List JobRow
  settled rows =
      update_where (is_in_flight id) change (update_where (has_id id) (set_claimed now) rows)

  -- Only rows with the identifier change, and these are not due any more.
  pub count-settled :
      (rows : List JobRow)
      → All (λ r. r.id ≡ id → due (change (set_claimed now r)) ≡ false) rows
      → count due (settled rows) + count (λ r. has_id id r && due r) rows ≡ count due rows
  unfolding update_where
  count-settled [] h = refl
  count-settled (row ∷ rows) h = elim (Bool-cases (eqb row.id id)) [
    | inl e ↦ rw e (ground (arith, e, h.0 ((eqb_iff row.id id).0 e), count-settled rows h.1))
    | inr e ↦ rw e (ground (arith, e, count-settled rows h.1))
  ]
