-- ===== src/Telegram/Told.antt =====
-- From an event of src/server.rs to the message that src/notification.rs sends to Telegram.
use beacon_alerts.Prelude.{
  ℕ, zero, suc, ◌≤◌, String, ◌≡◌, refl, sym, ap, subst, ◌∙◌, ◌⊎◌, inl, inr, Bool, true, false,
  Option, none, some, List, [], ◌∷◌, arith, find, eqb, eqb_iff, eq_iff, ◌==◌, Bool-cases,
  Option-cases,
}
use beacon_alerts.Fallible.{Result, ok, err, Result-cases, same_some}
use beacon_alerts.Model.{Event}
use beacon_alerts.Model.Validate.{Formats}
use beacon_alerts.Store.{Database, JobRow, ServerEventStore}
use beacon_alerts.Store.Clock.{Chrono}
use beacon_alerts.Store.Jobs.{
  NotificationJob, update_where, has_id, is_in_flight, set_claimed, set_sent, claim_notification,
  complete_notification,
}
use beacon_alerts.Store.Queue.Rows.{IsAmong, find-update_where}
use beacon_alerts.Store.Queue.Count.{count}
use beacon_alerts.Store.Queue.Order.{All-IsAmong, find_of_IsAmong, same_row}
use beacon_alerts.Store.Queue.Claim.{due_at, Taken, Claimed, claim-Claimed}
use beacon_alerts.Store.Queue.Settled.{at_once, claiming, Later-History, sent-Later}
use beacon_alerts.Store.History.{History}
use beacon_alerts.Store.History.Delivery.{History-Delivers}
use beacon_alerts.Store.Dispatcher.{
  NotificationDispatcher, Outcome, SendError, after_failure, settle, deliver, rounds, deliver_due,
}
use beacon_alerts.Store.Dispatcher.Runs.{deliver-Ran, rounds-Ran}
use beacon_alerts.Store.Dispatcher.Drains.{
  RetriesLater, job_of, claimed-Settles, deliver_due-IsDrained,
}
use beacon_alerts.Telegram.{TelegramLibrary, TelegramChannel, judge, url}
use beacon_alerts.Telegram.Fates.{is_taken, telegram_dispatcher}

IsAmong-update_where :
    (test : JobRow → Bool) (change : JobRow → JobRow) (row : JobRow) (rows : List JobRow)
    → test row ≡ false
    → IsAmong row rows
    → IsAmong row (update_where test change rows)
unfolding update_where
IsAmong-update_where test change row [] h m = absurd m
IsAmong-update_where test change row (r ∷ rows) h (inl e) = inl (rw (ap test e ∙ h) e)
IsAmong-update_where test change row (r ∷ rows) h (inr m) =
    inr (IsAmong-update_where test change row rows h m)

IsAmong-find :
    (id : ℕ) (row : JobRow) (rows : List JobRow)
    → find (has_id id) rows ≡ some row
    → IsAmong row rows
IsAmong-find id row [] h = cc
IsAmong-find id row (r ∷ rows) h = elim (Bool-cases (has_id id r)) [
  | inl here ↦ inl (same_some r row (rw here at h))
  | inr further ↦ inr (IsAmong-find id row rows (rw further at h))
]

module _ {T W : Type 0} (ch : Chrono T) (lib : TelegramLibrary)
    (post : String → String → String → W → Option ℕ × W) (channel : TelegramChannel)
    (max_attempts delay : ℕ) (now : T) (heard : String → W → Type 0) where
  -- Telegram takes every message, and the chat has it then and later.
  pub record IsHeard : Type 0 where
    pub takes :
        (text : String) (w : W) → is_taken (post (url channel) channel.chat_id text w).0 ≡ true
    pub tells : (text : String) (w : W) → heard text (post (url channel) channel.chat_id text w).1
    pub keeps :
        (text other : String) (w : W)
        → heard text w
        → heard text (post (url channel) channel.chat_id other w).1

  abbrev d : NotificationDispatcher W
  d = telegram_dispatcher lib post channel max_attempts delay

  -- the row that a successful delivery leaves
  abbrev pub sent_row : JobRow → JobRow
  sent_row row = set_sent (ch.to_rfc3339 now) (set_claimed (ch.to_rfc3339 now) row)

  -- The job of the row was sent, and the chat has its text.
  abbrev pub Told : JobRow → Outcome W → Type 0
  Told row o =
      (find (has_id row.id) o.db.notifications ≡ some (sent_row row)) × heard row.payload o.world

  judge-taken : (status : Option ℕ) → is_taken status ≡ true → judge lib status ≡ none
  judge-taken none h = cc
  judge-taken (some status) h = rw h refl

  deliver-Told :
      IsHeard
      → (row : JobRow) (n : ℕ) (db : Database) (w : W)
      → find (has_id row.id) db.notifications ≡ some row
      → row.channel ≡ "telegram"
      → let m = record db {
        notifications =
            update_where (has_id row.id) (set_claimed (ch.to_rfc3339 now)) db.notifications;
      } in
        Told row (deliver ch d now (job_of ch d now row) n m w)
  unfolding deliver complete_notification
  deliver-Told hears row n db w there named =
      let at = ch.to_rfc3339 now in
      let rows = update_where (has_id row.id) (set_claimed at) db.notifications in
      let claimed : find (has_id row.id) rows ≡ some (set_claimed at row) =
        find-update_where (has_id row.id) (set_claimed at) row.id db.notifications (λ r. refl)
        ∙ rw (there, (eqb_iff row.id row.id).1 refl) refl in
      let sent : find (has_id row.id) (update_where (is_in_flight row.id) (set_sent at) rows)
          ≡ some (sent_row row) =
        find-update_where (is_in_flight row.id) (set_sent at) row.id rows (λ r. refl)
        ∙ rw (claimed, (eqb_iff row.id row.id).1 refl) refl in
      rw ((eq_iff "telegram" row.channel).1 (sym named), deliver)
        (rw (judge-taken _ (hears.takes row.payload w)) (sent, hears.tells row.payload w))

  after_failure-world :
      (n : ℕ) (db : Database) (w : W) (r : Result Database)
      → (after_failure ch d n db w r).world ≡ w
  after_failure-world n db w (ok db') = refl
  after_failure-world n db w (err e) = refl

  settle-keeps :
      (text : String) (job : NotificationJob) (n : ℕ) (db : Database) (answer : Option SendError)
      (w : W)
      → heard text w
      → heard text (settle ch d now job n db (answer, w)).world
  settle-keeps text job n db none w h = h
  settle-keeps text job n db (some error) w h = rw (after_failure-world n db w _) h

  deliver-keeps :
      IsHeard
      → (text : String) (job : NotificationJob) (n : ℕ) (db : Database) (w : W) → heard text w
      → heard text (deliver ch d now job n db w).world
  unfolding deliver
  deliver-keeps hears text job n db w h = elim (Bool-cases ("telegram" == job.channel)) [
    | inl named ↦
        rw (named, deliver) (settle-keeps text job n db _ _ (hears.keeps text job.payload w h))
    | inr other ↦ rw (other, deliver) (rw (after_failure-world n db w _) h)
  ]

  rounds-keeps :
      IsHeard
      → (text : String) (limit n : ℕ) (db : Database) (w : W) → heard text w
      → heard text (rounds ch d limit now n db w).world
  unfolding rounds
  rounds-keeps hears text zero n db w h = h
  rounds-keeps hears text (suc limit) n db w h =
      elim (Option-cases (claim_notification ch now max_attempts db).0) [
        | inl none_due ↦ rw (none_due, rounds) h
        | inr (job, taken) ↦
            let m = (claim_notification ch now max_attempts db).1 in
            let h' = deliver-keeps hears text job n m w h in
            elim (Result-cases (deliver ch d now job n m w).delivered) [
              | inl (more, going) ↦
                  rw (taken, going, rounds) (rounds-keeps hears text limit more _ _ h')
              | inr (e, stopped) ↦ rw (taken, stopped, rounds) h'
            ]
      ]

  module _ (x : Formats) (store : ServerEventStore) (hears : IsHeard)
      (later : RetriesLater ch d now) where
    -- What was told stays so for the rest of the run.
    rounds-Told_on :
        (limit n : ℕ) {log : List Event} (db : Database) (w : W) (row : JobRow)
        → History x store ch log db
        → (find (has_id row.id) db.notifications ≡ some (sent_row row)) × heard row.payload w
        → Told row (rounds ch d limit now n db w)
    rounds-Told_on limit n db w row h (there, said) = (
      sent-Later x store ch (sent_row row) h there refl
          (rounds-Ran x store ch d limit now n db db w at_once).later,
      rounds-keeps hears row.payload limit n db w said,
    )

    claimed-Told :
        (n : ℕ) (db m : Database) (w : W) (row : JobRow) (job : NotificationJob)
        (t : Taken ch now max_attempts db job m)
        → t.row ≡ row
        → find (has_id row.id) db.notifications ≡ some row
        → row.channel ≡ "telegram"
        → Told row (deliver ch d now job n m w)
    claimed-Told n db m w row job t same there named =
        rw (t.job_lem, t.rest, same) (deliver-Told hears row n db w there named)

    -- A run leaves a job for Telegram as it was, or tells it.
    rounds-Told :
        (limit n : ℕ) {log : List Event} (db : Database) (w : W) (row : JobRow)
        → History x store ch log db
        → IsAmong row db.notifications
        → row.channel ≡ "telegram"
        → (find (has_id row.id) (rounds ch d limit now n db w).db.notifications ≡ some row)
          ⊎ Told row (rounds ch d limit now n db w)
    unfolding rounds
    rounds-Told zero n db w row h m named =
        inl (
          find_of_IsAmong row db.notifications db.next_id (History-Delivers x store ch h).ordered m)
    rounds-Told (suc limit) n db w row h m named =
        let next = (claim_notification ch now max_attempts db).1 in
        let ordered = (History-Delivers x store ch h).ordered in
        let there = find_of_IsAmong row db.notifications db.next_id ordered m in
        elim (Option-cases (claim_notification ch now max_attempts db).0) [
          | inl none_due ↦
              let (_, same) =
                subst (λ (j : Option NotificationJob). Claimed ch now max_attempts db (j, next))
                  none_due (claim-Claimed ch now max_attempts db) in
              rw (none_due, rounds) (inl (rw same there))
          | inr (job, taken) ↦
              let outcome = deliver ch d now job n next w in
              let (t, s) = claimed-Settles ch d now later n db w job taken in
              let (_, h') =
                Later-History x store ch h
                  (deliver-Ran x store ch d now job n db next w
                    (claiming now max_attempts at_once)).later in
              elim (Bool-cases (eqb row.id t.row.id)) [
                | inl mine ↦
                    let same : t.row ≡ row = sym (
                      same_row row t.row db.notifications db.next_id ordered m t.first.among
                        ((eqb_iff row.id t.row.id).0 mine)) in
                    rw (taken, s.done, rounds)
                      (inr (
                        rounds-Told_on limit s.n outcome.db outcome.world row h'
                          (claimed-Told n db next w row job t same there named)))
                | inr other ↦
                    let among : IsAmong row outcome.db.notifications =
                      rw (s.rest, t.rest)
                        (IsAmong-update_where (is_in_flight t.row.id) s.change row _ (rw other refl)
                          (IsAmong-update_where (has_id t.row.id) _ row db.notifications other
                            m)) in
                    rw (taken, s.done, rounds)
                      (rounds-Told limit s.n outcome.db outcome.world row h' among named)
              ]
        ]

-- Where Telegram takes every message, and every retry time can be given with a text after that of
-- the time of the run: a run of the dispatcher in a database that the server can reach, with a limit
-- of at least the number of the jobs that are due, sends every due job for Telegram and marks it as
-- sent.
pub deliver_due-Told :
    {T W : Type 0} (ch : Chrono T) (lib : TelegramLibrary)
    (post : String → String → String → W → Option ℕ × W) (channel : TelegramChannel)
    (max_attempts delay : ℕ) (now : T) (heard : String → W → Type 0) (x : Formats)
    (store : ServerEventStore) {log : List Event} (db : Database) (limit : ℕ) (w : W) (row : JobRow)
    → IsHeard ch lib post channel max_attempts delay now heard
    → RetriesLater ch (telegram_dispatcher lib post channel max_attempts delay) now
    → History x store ch log db
    → count (due_at ch now max_attempts) db.notifications ≤ limit
    → IsAmong row db.notifications
    → due_at ch now max_attempts row ≡ true
    → row.channel ≡ "telegram"
    → Told ch lib post channel max_attempts delay now heard row
        (deliver_due ch (telegram_dispatcher lib post channel max_attempts delay) now db limit w)
unfolding deliver_due
deliver_due-Told ch lib post channel max_attempts delay now heard x store db limit w row hears later
      h enough among due named =
    let d = telegram_dispatcher lib post channel max_attempts delay in
    let (_, _, rest) = deliver_due-IsDrained x store ch d now db limit w h later enough in
    elim (rounds-Told ch lib post channel max_attempts delay now heard x store hears later limit 0
      db w row h among named) [
        | inr told ↦ told
        | inl left ↦
            let idle =
              All-IsAmong (λ r. due_at ch now max_attempts r ≡ false) row _
                (unfold deliver_due in rest) (IsAmong-find row.id row _ left) in
            absurd (ground (arith, due, idle))
      ]
