-- ===== src/Server/Routes.antt =====
-- The entry points of src/server.rs for a library user: stores with default settings, and routers.
use beacon_alerts.Prelude.{String, List, []}
use beacon_alerts.Fallible.{Result, ok, err}
use beacon_alerts.Policy.{PolicyCatalog}
use beacon_alerts.Template.{default_templates}
use beacon_alerts.Model.Validate.{Formats}
use beacon_alerts.Store.{AlertRow, ServerEventStore}
use beacon_alerts.Store.Clock.{Chrono}
use beacon_alerts.Store.Enrollment.{Secrets}
use beacon_alerts.Http.{Response}
use beacon_alerts.Http.Router.{Extractors, Arrival, World, handle}
use beacon_alerts.Server.{
  DataRoot, DataDir, ServerState, ServerLibrary, open_with_policy_and_templates, server_state,
}

-- `PolicyCatalog::default`
abbrev pub default_policy : PolicyCatalog
default_policy = record { rules = [] }

abbrev pub open_with_policy : DataRoot → PolicyCatalog → DataDir → Result ServerEventStore × DataDir
open_with_policy root policy dir = open_with_policy_and_templates root policy default_templates dir

abbrev pub open_default : DataRoot → DataDir → Result ServerEventStore × DataDir
open_default root dir = open_with_policy_and_templates root default_policy default_templates dir

module _ {T : Type 0} (lib : ServerLibrary) (x : Formats) (ch : Chrono T) (secrets : Secrets T)
    (order : List AlertRow → List AlertRow) (extract : Extractors) where
  -- the routes of the state
  abbrev routed :
      Result ServerState × DataDir → Result (Arrival T → World → Response × World) × DataDir
  routed (err e, dir) = (err e, dir)
  routed (ok state, dir) = (ok (handle x state.events ch secrets order extract), dir)

  abbrev pub router_with_credentials :
      String
      → String
      → PolicyCatalog
      → DataDir
      → Result (Arrival T → World → Response × World) × DataDir
  router_with_credentials data_dir credentials_dir policy dir =
      routed (server_state lib data_dir credentials_dir policy default_templates dir)

  abbrev pub router :
      String → String → DataDir → Result (Arrival T → World → Response × World) × DataDir
  router data_dir credentials_dir dir =
      router_with_credentials data_dir credentials_dir default_policy dir
