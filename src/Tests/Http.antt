-- ===== src/Tests/Http.antt =====
-- Tests of the HTTP handlers, of enrolling over HTTP, and of an agent against the server.
use beacon_alerts.Prelude.{
  String, ◌≡◌, ◌↔◌, refl, sym, ◌∙◌, ◌&&◌, ◌||◌, not, true, Option, none, some, List, [], ◌∷◌, All,
  take, trim, is_empty, is_blank, ◌==◌,
}
use Prim.Native.Nat.{ℕ}
use beacon_alerts.Fallible.{same_some, ok}
use beacon_alerts.Model.{Event}
use beacon_alerts.Model.Validate.{Formats, validate, validate_fact, validate_facts, require_field}
use beacon_alerts.Store.{empty_database}
use beacon_alerts.Store.History.{start}
use beacon_alerts.Http.{
  check_token, strip_prefix, authorized_from, CredentialEntry, accept_event, authorized,
}
use beacon_alerts.Http.Tokens.{Admits, authorized_iff}
use beacon_alerts.Http.Events.{Encodes, Answers, accept_event-Answers}
use beacon_alerts.Store.Enrollment.{temporary, credential, saved}
use beacon_alerts.Http.Enrolled.{bearer, credential_entries, enrolled-authorized}
use beacon_alerts.Agent.{list, drain}
use beacon_alerts.Agent.Delivery.{IsTidy, drop}
use beacon_alerts.Agent.Network.{
  Network, other, claims, request_lost, answer_lost, answered, submit_event,
}
use beacon_alerts.Agent.Follows.{IsStored, Follows}
use beacon_alerts.Agent.Stored.{drain-Stored}
use beacon_alerts.Tests.Samples.{formats, firing, resolved, store, times, clock}
use beacon_alerts.Tests.Agents.{
  secrets, codes, enrolled, spool, library, config, root, config-CanRun,
}

-- An encoding that tells the fingerprints apart.
abbrev pub wire : Formats
wire = record formats { to_string = λ e. some e.fingerprint }

pub wire-Encodes : Encodes wire
wire-Encodes e e' s h h' = same_some e.fingerprint e'.fingerprint (h ∙ sym h')

abbrev pub directory : Option (List CredentialEntry)
directory = some (credential_entries (credential "ops-1" "token" ∷ []))

authorized_iff_example :
    (authorized (some "Bearer token") directory ≡ true) ↔ Admits (some "Bearer token") directory
authorized_iff_example = authorized_iff (some "Bearer token") directory

accept_event-Answers_example :
    Answers wire store clock
      (some "Bearer token")
      directory
      []
      firing
      empty_database
      (accept_event wire store times (some "Bearer token") firing directory empty_database).0
      (accept_event wire store times (some "Bearer token") firing directory empty_database).1
accept_event-Answers_example =
    accept_event-Answers wire store clock times (some "Bearer token") directory [] firing
      empty_database wire-Encodes start

-- A temporary file that was left there lets its token through.
left_test :
    authorized (bearer "token") (some (credential_entries (temporary "token\n" ∷ []))) ≡ true
unfolding authorized check_token strip_prefix authorized_from trim
left_test = refl

enrolled-authorized_example :
    authorized (bearer "token") (some (credential_entries (credential "ops-1" "token" ∷ []))) ≡ (
      (not (is_empty (trim "token")) && trim "token" == "token")
      || authorized (bearer "token") (some (credential_entries [])))
enrolled-authorized_example =
    enrolled-authorized clock secrets "ops-1" "code" "2026" "token" (saved "2026") [] _ (codes none)
      _ "token" enrolled

abbrev network : Network String
network = record {
  db = empty_database;
  attempts = request_lost ∷ other (claims "2026" 3) ∷ answer_lost times ∷ answered times ∷ [];
}

firing-valid : validate wire firing ≡ ok tt
unfolding validate require_field is_blank validate_facts validate_fact
firing-valid = refl

resolved-valid : validate wire resolved ≡ ok tt
unfolding validate require_field is_blank validate_facts validate_fact
resolved-valid = refl

pub wire-IsTidy : All (IsTidy wire) spool.pending
wire-IsTidy = ((firing, refl, firing-valid, refl), ((resolved, refl, resolved-valid, refl), tt))

drain-Stored_example :
    (events : List Event) × (list wire spool.pending ≡ ok events)
    × ((count : ℕ) × (f : Follows wire store clock []
          (drain
            (submit_event wire store clock "token" directory)
            wire
            library
            config
            root
            spool
            network).world.db)
        × ((drain
              (submit_event wire store clock "token" directory)
              wire
              library
              config
              root
              spool
              network).spool.pending
            ≡ drop count spool.pending)
        × All (IsStored wire f.now) (take count (take 10 events)))
drain-Stored_example =
    drain-Stored wire store clock library config root directory spool [] network wire-Encodes
      config-CanRun wire-IsTidy start
