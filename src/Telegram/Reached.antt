-- ===== src/Telegram/Reached.antt =====
-- The message of an event of src/server.rs reaches the chat of src/notification.rs.
use beacon_alerts.Prelude.{
  ℕ, suc, ◌≤◌, String, ◌≡◌, refl, sym, ◌∙◌, ap, inl, inr, true, false, Option, List, [], ◌∷◌, ◌++◌,
  arith, contains, eq_iff, ◌==◌, Bool-cases,
}
use beacon_alerts.Fallible.{ok}
use beacon_alerts.Model.{Event}
use beacon_alerts.Model.Validate.{Formats}
use beacon_alerts.Policy.{channels_for}
use beacon_alerts.Message.{render_event}
use beacon_alerts.Store.{Database, JobRow, ServerEventStore}
use beacon_alerts.Store.Accept.{EventResult, Times, accept, new_job, notifies}
use beacon_alerts.Store.Enqueue.{jobs_from}
use beacon_alerts.Store.Clock.{Chrono}
use beacon_alerts.Store.Jobs.{is_due}
use beacon_alerts.Store.Queue.Rows.{IsAmong}
use beacon_alerts.Store.Queue.Count.{count}
use beacon_alerts.Store.Queue.Claim.{due_at}
use beacon_alerts.Store.Queue.Outbox.{accept-jobs, notifies_lem}
use beacon_alerts.Store.History.{History, accepts}
use beacon_alerts.Store.Dispatcher.{deliver_due}
use beacon_alerts.Store.Dispatcher.Drains.{RetriesLater}
use beacon_alerts.Telegram.{TelegramLibrary, TelegramChannel}
use beacon_alerts.Telegram.Fates.{telegram_dispatcher}
use beacon_alerts.Telegram.Told.{IsHeard, Told, deliver_due-Told}

IsAmong-append :
    (row : JobRow) (rows more : List JobRow) → IsAmong row more → IsAmong row (rows ++ more)
IsAmong-append row [] more m = m
IsAmong-append row (r ∷ rows) more m = inr (IsAmong-append row rows more m)

jobs_from-IsAmong :
    (p : String) (e : Event) (at c : String) (n : ℕ) (cs : List String)
    → contains cs c ≡ true
    → (id : ℕ) × IsAmong (new_job p e at c id) (jobs_from p e at n cs)
unfolding jobs_from
jobs_from-IsAmong p e at c n [] h = cc
jobs_from-IsAmong p e at c n (d ∷ cs) h = elim (Bool-cases (d == c)) [
  | inl same ↦ (n, inl (ap (λ (s : String). new_job p e at s n) ((eq_iff d c).0 same)))
  | inr other ↦ let (id, m) = jobs_from-IsAmong p e at c (suc n) cs (rw other at h) in (id, inr m)
]

new_job-due :
    {T : Type 0} (ch : Chrono T) (now : T) (max_attempts : ℕ) (p : String) (e : Event)
    (at c : String) (id : ℕ)
    → 1 ≤ max_attempts
    → due_at ch now max_attempts (new_job p e at c id) ≡ true
unfolding is_due
new_job-due ch now max_attempts p e at c id h = ground arith

-- Where Telegram takes every message, the retry times can be given with texts after that of the time
-- of the run, and there is at least one attempt: when the server accepts a new event that notifies,
-- in a database that it can reach, and its policy routes the event to Telegram, then the next run of
-- the dispatcher with a limit of at least the number of the jobs that are due marks a job of the
-- event for Telegram as sent, and the chat has the message that the event and its alert render to.
pub accept-Told :
    {T W : Type 0} (ch : Chrono T) (lib : TelegramLibrary)
    (post : String → String → String → W → Option ℕ × W) (channel : TelegramChannel)
    (max_attempts delay : ℕ) (now : T) (heard : String → W → Type 0) (x : Formats)
    (store : ServerEventStore) (times : Times) {log : List Event} {db : Database} (e : Event)
    (r : EventResult) (db' : Database) (limit : ℕ) (w : W)
    → IsHeard ch lib post channel max_attempts delay now heard
    → RetriesLater ch (telegram_dispatcher lib post channel max_attempts delay) now
    → 1 ≤ max_attempts
    → History x store ch log db
    → accept x store times e db ≡ ok (r, db')
    → r.duplicate ≡ false
    → notifies e r.alert ≡ true
    → contains (channels_for store.policy e) "telegram" ≡ true
    → count (due_at ch now max_attempts) db'.notifications ≤ limit
    → (id : ℕ) × Told ch lib post channel max_attempts delay now heard
        (new_job (render_event e r.alert store.templates) e times.queued_at "telegram" id)
        (deliver_due ch (telegram_dispatcher lib post channel max_attempts delay) now db' limit w)
accept-Told ch lib post channel max_attempts delay now heard x store times {db} e r db' limit w
      hears later some_attempt h done new notified routed enough =
    let message = render_event e r.alert store.templates in
    let (id, queued) =
      jobs_from-IsAmong message e times.queued_at "telegram" db.next_id
        (channels_for store.policy e) routed in
    let row = new_job message e times.queued_at "telegram" id in
    let among : IsAmong row db'.notifications =
      rw (accept-jobs x store times ch e r db' h done, new, sym (notifies_lem e r.alert) ∙ notified)
        (IsAmong-append row db.notifications _ queued) in
    (
      id,
      deliver_due-Told ch lib post channel max_attempts delay now heard x store db' limit w row
          hears later (accepts e times r done h) enough among
          (new_job-due ch now max_attempts message e times.queued_at "telegram" id some_attempt)
          refl,
    )
