-- ===== src/Tests/Batches.antt =====
-- Tests of a whole batch of the agent, and of listing alerts over HTTP.
use beacon_alerts.Prelude.{
  String, false, none, ◌≡◌, refl, arith, inl, some, [], ◌∷◌, true, trim, is_blank,
}
use beacon_alerts.Fallible.{ok}
use beacon_alerts.Model.AlertStatus
use beacon_alerts.Model.Severity
use beacon_alerts.Model.Validate.{validate, validate_fact, validate_facts, require_field}
use beacon_alerts.Client.{build_client}
use beacon_alerts.Policy.{channels_for, collect, push_new, matches}
use beacon_alerts.Store.{empty_database}
use beacon_alerts.Store.Alerts.{load_alert, save_alert, next_alert, transition_alert}
use beacon_alerts.Store.Accept.{
  accept, accept_new, accept_again, insert_event, insert_job, enqueue_notifications,
}
use beacon_alerts.Store.History.{start}
use beacon_alerts.Http.{authorized, accept_event, authorized_from, check_token, strip_prefix}
use beacon_alerts.Http.Enrolled.{bearer}
use beacon_alerts.Agent.{list, drain, open_spool, send_all, deliver_with_retry, remove, remove_file}
use beacon_alerts.Agent.Network.{
  Network, answered, request_lost, answer_lost, submit_event, submit_from,
}
use beacon_alerts.Agent.Delivers.{drain_delivers}
use beacon_alerts.Tests.Samples.{firing, resolved, store, times, clock}
use beacon_alerts.Tests.Agents.{file, spool, library, config, root, config-CanRun}
use beacon_alerts.Tests.Http.{wire, wire-Encodes, wire-IsTidy, directory}

listed_files : list wire spool.pending ≡ ok (firing ∷ resolved ∷ [])
unfolding list validate require_field is_blank validate_facts validate_fact
listed_files = refl

admitted : authorized (bearer "token") directory ≡ true
unfolding authorized check_token authorized_from strip_prefix trim
admitted = refl

drain_delivers_example :
    (w' : Network String) × (drain
        (submit_event wire store clock "token" directory)
        wire
        library
        config
        root
        spool
        (record { db = empty_database; attempts = answered times ∷ answered times ∷ [] })
      ≡ record { delivered = ok 2; spool = record { pending = []; temporaries = [] }; world = w' })
drain_delivers_example =
    drain_delivers wire store clock library config root directory spool [] empty_database
      (times ∷ times ∷ []) (firing ∷ resolved ∷ []) wire-Encodes config-CanRun (λ e. refl)
      wire-IsTidy listed_files (("backup/mnt", refl), (("backup/mnt", refl), tt)) admitted
      (omega arith) (omega arith) (inl (refl, inl (refl, tt))) start

other_scheme : authorized (some "bearer token") directory ≡ false
unfolding authorized check_token authorized_from strip_prefix trim
other_scheme = refl

stranger_test : (accept_event wire store times none firing directory empty_database).0.status ≡ 401
unfolding accept_event authorized
stranger_test = refl

accepted_test :
    (accept_event wire store times (some "Bearer token") firing directory empty_database).0.status
    ≡ 202
unfolding accept_event authorized check_token authorized_from strip_prefix trim validate
    require_field is_blank validate_facts validate_fact accept accept_new accept_again insert_event
    transition_alert load_alert save_alert next_alert
accepted_test = refl

-- The first answer is lost, so that the event is sent again as a duplicate; no request is left for
-- the second event, whose file stays.
lossy_test :
    (drain
      (submit_event wire store clock "token" directory)
      wire
      library
      config
      root
      spool
      (record {
        db = empty_database;
        attempts = request_lost ∷ answer_lost times ∷ answered times ∷ [];
      })).spool.pending
    ≡ file resolved ∷ []
unfolding drain open_spool build_client list send_all deliver_with_retry remove remove_file
    submit_event submit_from enqueue_notifications insert_job channels_for collect push_new matches
    accept_event authorized check_token authorized_from strip_prefix trim validate require_field
    is_blank validate_facts validate_fact accept accept_new accept_again insert_event
    transition_alert load_alert save_alert next_alert AlertStatus.from_str Severity.from_str
lossy_test = refl
