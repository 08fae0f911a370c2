-- ===== src/Tests/Notified.antt =====
-- Tests of an event whose message reaches Telegram.
use beacon_alerts.Prelude.{
  ℕ, String, ◌≡◌, refl, true, contains, inl, inr, List, [], arith, is_blank, IsIn,
}
use beacon_alerts.Message.{render_event}
use beacon_alerts.Model.Validate.{validate, validate_fact, validate_facts, require_field}
use beacon_alerts.Store.Alerts.{load_alert, save_alert, next_alert, transition_alert}
use beacon_alerts.Store.Accept.{accept, accept_new, insert_event, new_job, notifies}
use beacon_alerts.Store.Clock.{retry_time}
use beacon_alerts.Store.Dispatcher.{deliver_due}
use beacon_alerts.Store.Dispatcher.Drains.{RetriesLater}
use beacon_alerts.Store.History.{start}
use beacon_alerts.Policy.{channels_for, collect, push_new, matches}
use beacon_alerts.Telegram.Fates.{telegram_dispatcher}
use beacon_alerts.Telegram.Told.{IsHeard, Told}
use beacon_alerts.Telegram.Reached.{accept-Told}
use beacon_alerts.Tests.Samples.{formats, firing, store, times, clock, reply_of}
use beacon_alerts.Tests.Alerts.{first_run, opened_db, first_accepted, first_reply}
use beacon_alerts.Tests.Runs.{library, answer, channel, one_due}

-- The chat has the texts of the world.
abbrev Heard : String → List String → Type 0
Heard text texts = IsIn text texts

hears : IsHeard clock library (answer 200) channel 3 30 "2026" Heard
hears = record {
  takes = λ text w. refl;
  tells = λ text w. inl refl;
  keeps = λ text other w h. inr h;
}

later : RetriesLater clock (telegram_dispatcher library (answer 200) channel 3 30) "2026"
unfolding retry_time
later attempts = ("2027", refl, refl)

notified : notifies firing (reply_of first_run).alert ≡ true
unfolding accept accept_new insert_event transition_alert validate require_field is_blank
    validate_facts validate_fact load_alert save_alert next_alert
notified = refl

routed : contains (channels_for store.policy firing) "telegram" ≡ true
unfolding channels_for collect push_new matches
routed = refl

accept-Told_example :
    (id : ℕ) × Told clock library
      (answer 200)
      channel
      3
      30
      "2026"
      Heard
      (new_job
        (render_event firing (reply_of first_run).alert store.templates)
        firing
        times.queued_at
        "telegram"
        id)
      (deliver_due clock
        (telegram_dispatcher library (answer 200) channel 3 30)
        "2026"
        opened_db
        1
        [])
accept-Told_example =
    accept-Told clock library (answer 200) channel 3 30 "2026" Heard formats store times firing
      (reply_of first_run) opened_db 1 [] hears later (omega arith) start first_accepted first_reply
      notified routed (omega (arith, one_due))
