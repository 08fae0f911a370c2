-- ===== src/Store/Queue/Keys.antt =====
-- The unique key of the notifications table of src/server.rs, and the phases of a job.
use beacon_alerts.Prelude.{
  ℕ, String, ◌≡◌, refl, ap, ◌∙◌, inl, inr, Bool, true, false, ◌&&◌, ◌||◌, List, [], ◌∷◌, ◌++◌,
  arith, eqb, any-append, Bool-cases, eq_iff, ◌==◌,
}
use beacon_alerts.Store.{JobRow}
use beacon_alerts.Store.Lifecycle.{has_text}
use beacon_alerts.Store.Accept.{has_job}
use beacon_alerts.Store.Jobs.{update_where, set_claimed, set_sent, set_failed, is_in_flight, is_due}

-- No two jobs have the same event and channel.
abbrev pub IsUnique : List JobRow → Type 0
IsUnique [] = Unit
IsUnique (row ∷ rows) = (has_job rows row.event_id row.channel ≡ false) × IsUnique rows

pub IsUnique-append :
    (rows : List JobRow) (row : JobRow)
    → IsUnique rows
    → has_job rows row.event_id row.channel ≡ false
    → IsUnique (rows ++ row ∷ [])
IsUnique-append [] row u new = (refl, tt)
IsUnique-append (r ∷ rows) row u new = (
  any-append (λ job. job.event_id == r.event_id && job.channel == r.channel) rows (row ∷ [])
      ∙ ground (
        arith,
        u.0,
        new,
        eq_iff row.event_id r.event_id,
        eq_iff r.event_id row.event_id,
        eq_iff row.channel r.channel,
        eq_iff r.channel row.channel,
      ),
  IsUnique-append rows row u.1 (ground (arith, new)),
)

module _ (test : JobRow → Bool) (change : JobRow → JobRow)
    (keep : (row : JobRow)
      → ((change row).event_id ≡ row.event_id) × ((change row).channel ≡ row.channel)) where
  has_job-update_where :
      (rows : List JobRow) (id c : String)
      → has_job (update_where test change rows) id c ≡ has_job rows id c
  unfolding update_where
  has_job-update_where [] id c = refl
  has_job-update_where (row ∷ rows) id c = ground (arith, keep row, has_job-update_where rows id c)

  pub update_where-IsUnique :
      (rows : List JobRow) → IsUnique rows → IsUnique (update_where test change rows)
  unfolding update_where
  update_where-IsUnique [] u = tt
  update_where-IsUnique (row ∷ rows) u = elim (Bool-cases (test row)) [
    | inl e ↦ rw e (
      rw ((keep row).0, (keep row).1) (has_job-update_where rows row.event_id row.channel ∙ u.0),
      update_where-IsUnique rows u.1,
    )
    | inr e ↦
        rw e
          (has_job-update_where rows row.event_id row.channel ∙ u.0, update_where-IsUnique rows u.1)
  ]

-- A job is in one of the four phases; it has a claim exactly while it is in flight, a time of
-- sending exactly when it was sent, and no attempt exactly while it is pending.
pub record IsJob (row : JobRow) : Type 0 where
  pub phase :
      (row.status == "pending"
        || (row.status == "in_flight" || (row.status == "failed" || row.status == "sent")))
      ≡ true
  pub claimed : has_text row.claimed_at ≡ (row.status == "in_flight")
  pub sent : has_text row.sent_at ≡ (row.status == "sent")
  pub attempted : eqb row.attempts 0 ≡ (row.status == "pending")

in_flight-status : (id : ℕ) (row : JobRow) → is_in_flight id row ≡ true → row.status ≡ "in_flight"
in_flight-status id row h = ground (arith, h, eq_iff row.status "in_flight")

pub set_sent-IsJob :
    (id : ℕ) (now : String) (row : JobRow)
    → is_in_flight id row ≡ true
    → IsJob row
    → IsJob (set_sent now row)
set_sent-IsJob id now row t j =
    let s = in_flight-status id row t in
    record {
      phase = refl;
      claimed = refl;
      sent = refl;
      attempted = j.attempted ∙ ap (λ (u : String). u == "pending") s;
    }

pub set_failed-IsJob :
    (id : ℕ) (at error : String) (retryable : Bool) (row : JobRow)
    → is_in_flight id row ≡ true
    → IsJob row
    → IsJob (set_failed at error retryable row)
set_failed-IsJob id at error retryable row t j =
    let s = in_flight-status id row t in
    record {
      phase = refl;
      claimed = refl;
      sent = j.sent ∙ ap (λ (u : String). u == "sent") s;
      attempted = j.attempted ∙ ap (λ (u : String). u == "pending") s;
    }

-- A due job was not sent.
pub is_due-not_sent :
    (max_attempts : ℕ) (now stale : String) (row : JobRow)
    → is_due max_attempts now stale row ≡ true
    → (row.status == "sent") ≡ false
unfolding is_due
is_due-not_sent max_attempts now stale row d = elim (Bool-cases (row.status == "sent")) [
  | inr other ↦ other
  | inl sent ↦ absurd (
      ground (
        arith,
        d,
        (eq_iff row.status "sent").0 sent,
        ap (λ (u : String). u == "pending") ((eq_iff row.status "sent").0 sent),
        ap (λ (u : String). u == "failed") ((eq_iff row.status "sent").0 sent),
        ap (λ (u : String). u == "in_flight") ((eq_iff row.status "sent").0 sent),
      ))
]

pub set_claimed-IsJob :
    (now : String) (row : JobRow)
    → (row.status == "sent") ≡ false
    → IsJob row
    → IsJob (set_claimed now row)
set_claimed-IsJob now row n j = record {
  phase = refl;
  claimed = refl;
  sent = j.sent ∙ n;
  attempted = ground arith;
}
