-- ===== src/Agent/Queueing.antt =====
-- What queueing an event leaves in the spool of src/spool.rs.
use beacon_alerts.Prelude.{
  suc, IsIn, ◌≡◌, refl, sym, ap, ◌∙◌, subst, ◌⊎◌, inl, inr, ◌&&◌, some, List, [], ◌∷◌, length, All,
  Bool-cases,
}
use beacon_alerts.Fallible.{
  Result, Error, ok, err, io_failed, ok-injective, >>=-eq-ok, or_fail, or_fail-eq-ok, undecodable,
  same_some, Result-cases,
}
use beacon_alerts.Model.{Event}
use beacon_alerts.Model.Validate.{Formats, validate}
use beacon_alerts.Store.Clock.{text_le}
use beacon_alerts.Agent.{
  SpoolFile, Spool, QueueSteps, event_file, with_event, insert_file, prepare, enqueue, list,
}
use beacon_alerts.Agent.Delivery.{IsTidy, list-Named}

insert_file-IsTidy :
    (x : Formats) (f : SpoolFile) (files : List SpoolFile)
    → IsTidy x f
    → All (IsTidy x) files
    → All (IsTidy x) (insert_file f files)
unfolding insert_file
insert_file-IsTidy x f [] t h = (t, tt)
insert_file-IsTidy x f (g ∷ files) t h = elim (Bool-cases (text_le f.name g.name)) [
  | inl e ↦ rw e (t, h)
  | inr e ↦ rw e (h.0, insert_file-IsTidy x f files t h.1)
]

length-insert_file :
    (f : SpoolFile) (files : List SpoolFile) → length (insert_file f files) ≡ suc (length files)
unfolding insert_file
length-insert_file f [] = refl
length-insert_file f (g ∷ files) = elim (Bool-cases (text_le f.name g.name)) [
  | inl e ↦ rw e refl
  | inr e ↦ rw e (ap suc (length-insert_file f files))
]

insert_file-IsIn : (f : SpoolFile) (files : List SpoolFile) → IsIn f (insert_file f files)
unfolding insert_file
insert_file-IsIn f [] = inl refl
insert_file-IsIn f (g ∷ files) = elim (Bool-cases (text_le f.name g.name)) [
  | inl e ↦ rw e (inl refl)
  | inr e ↦ rw e (inr (insert_file-IsIn f files))
]

list-IsIn :
    (x : Formats) (e : Event) (f : SpoolFile) (files : List SpoolFile) (events : List Event)
    → f.event ≡ some e
    → IsIn f files
    → list x files ≡ ok events
    → IsIn e events
unfolding list
list-IsIn x e f [] events holds m h = absurd m
list-IsIn x e f (g ∷ files) events holds m h =
    let (e', there, h1) = >>=-eq-ok (or_fail g.event undecodable) _ h in
    let (_, _, h2) = >>=-eq-ok (validate x e') _ h1 in
    let (rest, listed, done) = >>=-eq-ok (list x files) _ h2 in
    subst (IsIn e) (ok-injective (e' ∷ rest) events done) (elim m [
      | inl same ↦ inl (
          same_some e' e (
            sym (or_fail-eq-ok g.event e' undecodable there)
            ∙ ap (λ (k : SpoolFile). k.event) same
            ∙ holds))
      | inr among ↦ inr (list-IsIn x e f files rest holds among listed)
    ])

-- The spool that queueing leaves: it has the file of the event and stays tidy and readable, or the
-- queueing failed and the files are those from before.
pub record Queued (x : Formats) (e : Event) (before after : Spool) : Type 0 where
  pub valid : validate x e ≡ ok tt
  pub tidy : All (IsTidy x) after.pending
  pub events : List Event
  pub listed : list x after.pending ≡ ok events
  pub one_more : length events ≡ suc (length before.pending)
  pub among : IsIn e events

abbrev pub QueuedOrFailed : Formats → Event → Spool → Result (Unit {0}) × Spool → Type 0
QueuedOrFailed x e spool (answer, after) =
    ((answer ≡ ok tt) × Queued x e spool after)
    ⊎ ((error : Error) × (answer ≡ err error) × (after.pending ≡ spool.pending))

with_event-Queued :
    (x : Formats) (e : Event) (spool : Spool)
    → validate x e ≡ ok tt
    → All (IsTidy x) spool.pending
    → Queued x e spool (with_event e spool)
with_event-Queued x e spool valid h =
    let f = event_file e in
    let tidy = insert_file-IsTidy x f spool.pending (e, refl, valid, refl) h in
    let (events, listed, _, full) = list-Named x (insert_file f spool.pending) tidy in
    record {
      valid = valid;
      tidy = tidy;
      events = events;
      listed = listed;
      one_more = full ∙ length-insert_file f spool.pending;
      among =
          list-IsIn x e f (insert_file f spool.pending) events refl
            (insert_file-IsIn f spool.pending) listed;
    }

prepare-valid :
    (x : Formats) (steps : QueueSteps) (e : Event) (spool : Spool)
    → prepare x steps e spool ≡ ok tt
    → validate x e ≡ ok tt
unfolding prepare
prepare-valid x steps e spool h = let (_, valid, _) = >>=-eq-ok (validate x e) _ h in valid

-- Queueing an event in a tidy spool is all or nothing, whatever step fails: the spool has one more
-- event, which it lists with the others, or its files are those from before.
pub enqueue-QueuedOrFailed :
    (x : Formats) (steps : QueueSteps) (e : Event) (spool : Spool)
    → All (IsTidy x) spool.pending
    → QueuedOrFailed x e spool (enqueue x steps e spool)
unfolding enqueue
enqueue-QueuedOrFailed x steps e spool tidy = elim (Result-cases (prepare x steps e spool)) [
  | inr (error, failed) ↦ rw (failed, enqueue) (inr (error, refl, refl))
  | inl (_, prepared) ↦ elim (Bool-cases (steps.written && steps.renamed)) [
    | inl committed ↦
        rw (prepared, committed, enqueue)
          (inl (refl, with_event-Queued x e spool (prepare-valid x steps e spool prepared) tidy))
    | inr lost ↦ rw (prepared, lost, enqueue) (inr (io_failed, refl, refl))
  ]
]
