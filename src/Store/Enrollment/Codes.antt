-- ===== src/Store/Enrollment/Codes.antt =====
-- An enrollment code works once, for its agent and before its expiry.
use beacon_alerts.Prelude.{
  ◌∙◌, String, ◌≡◌, ◌≢◌, sym, ap, subst, inl, inr, true, some, List, [], ◌∷◌, arith, find, ◌==◌,
  Bool-cases,
}
use beacon_alerts.Fallible.{Result, ok, ok-injective}
use beacon_alerts.Store.{Database, EnrollmentRow}
use beacon_alerts.Store.Lifecycle.{has_text}
use beacon_alerts.Store.Clock.{Chrono}
use beacon_alerts.Store.Enrollment.{
  credential, Secrets, hash_secret, Credentials, has_hash, set_consumed, consume_enrollment,
  with_used, Saving,
}
use beacon_alerts.Store.Enrollment.Endings.{Admitted, consume_enrollment-Ending}

-- Every row under the hash has been used.
find-set_consumed :
    (now hash : String) (rows : List EnrollmentRow) (row : EnrollmentRow)
    → find (has_hash hash) (set_consumed now hash rows) ≡ some row
    → has_text row.consumed_at ≡ true
unfolding set_consumed
find-set_consumed now hash [] row h = cc
find-set_consumed now hash (r ∷ rows) row h = elim (Bool-cases (r.code_hash == hash)) [
  | inr other ↦ find-set_consumed now hash rows row (ground (arith, other, h))
  | inl same ↦ elim (Bool-cases (has_text r.consumed_at)) [
    | inl used ↦ ground (arith, same, used, h)
    | inr unused ↦ ground (arith, same, unused, h)
  ]
]

module _ {T : Type 0} (ch : Chrono T) (x : Secrets T) where
  -- What a successful enrollment has checked, and what it has written.
  pub record Consumed (name secret : String) (now time : T) (token : String) (files : Credentials)
      (db : Database) (answer : String × (Credentials × Database)) : Type 0 where
    pub admitted : Admitted ch x name secret now files db
    pub wrote : answer ≡ (token, (credential name token ∷ files, with_used ch x secret time db))

  -- A successful enrollment was for a valid name without a credential, by a code that is known, was
  -- issued for this name, is unused and has not expired; it adds one credential and marks the code.
  pub consume_enrollment-Consumed :
      (name secret : String) (now : T) (token : String) (saving : Saving T) (files : Credentials)
      (db : Database) (answer : String × (Credentials × Database))
      → consume_enrollment ch x name secret now token saving files db ≡ (ok answer.0, answer.1)
      → Consumed name secret now saving.time token files db answer
  consume_enrollment-Consumed name secret now token saving files db answer h =
      elim (consume_enrollment-Ending ch x name secret now now token token saving saving files db) [
        | inl (_, (e, refused)) ↦ cc
        | inr (_, inl (_, (e, left))) ↦ cc
        | inr (_, inr (_, inl (_, (e, left), _))) ↦ cc
        | inr (a, inr (_, inr (_, done))) ↦
            (let same = sym h ∙ done in
              let named =
                ok-injective answer.0 token
                  (ap (λ (p : Result String × (Credentials × Database)). p.0) same) in
              let kept = ap (λ (p : Result String × (Credentials × Database)). p.1) same in
              record { admitted = a; wrote = λ i. (named i, kept i) })
      ]

  -- An enrollment code works once: after an enrollment with it, no enrollment with a code of the
  -- same hash succeeds in the database that this leaves, under any name, at any time and whatever
  -- has become of the credential files.
  pub consume_enrollment-once :
      (name name' secret secret' : String) (now now' : T) (token token' : String)
      (saving saving' : Saving T) (files files' : Credentials) (db : Database)
      (answer answer' : String × (Credentials × Database))
      → consume_enrollment ch x name secret now token saving files db ≡ (ok answer.0, answer.1)
      → hash_secret x secret' ≡ hash_secret x secret
      → consume_enrollment ch x name' secret' now' token' saving' files' answer.1.1
        ≢ (ok answer'.0, answer'.1)
  consume_enrollment-once name name' secret secret' now now' token token' saving saving' files
        files' db answer answer' h same again =
      let c = consume_enrollment-Consumed name secret now token saving files db answer h in
      let c' =
        consume_enrollment-Consumed name' secret' now' token' saving' files' answer.1.1 answer'
          again in
      let rows = ap (λ (a : String × (Credentials × Database)). a.1.1.enrollments) c.wrote in
      let used =
        find-set_consumed (ch.to_rfc3339 saving.time) (hash_secret x secret) db.enrollments
          c'.admitted.row
          (subst
            (λ (r : List EnrollmentRow).
              find (has_hash (hash_secret x secret)) r ≡ some c'.admitted.row)
            rows
            (subst (λ (k : String). find (has_hash k) answer.1.1.enrollments ≡ some c'.admitted.row)
              same c'.admitted.found)) in
      ground (arith, used, c'.admitted.unused)
