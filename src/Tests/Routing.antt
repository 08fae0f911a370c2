-- ===== src/Tests/Routing.antt =====
-- Tests of the router: requests that bring an event and enroll an agent.
use Prim.Native.Nat.{ℕ}
use beacon_alerts.Prelude.{
  String, none, true, false, ◌≡◌, refl, some, List, [], ◌∷◌, ◌==◌, if◌then◌else◌,
}
use beacon_alerts.Store.{empty_database}
use beacon_alerts.Store.History.{start}
use beacon_alerts.Store.Enrollment.{credential, saved}
use beacon_alerts.Http.Router.{
  Method, Extractors, rejection, extracted, World, Arrival, handle, handle_all,
}
use beacon_alerts.Http.Router.Logged.{Kept, handle_all-Kept}
use beacon_alerts.Tests.Samples.{formats, firing, store, times, clock}
use beacon_alerts.Fallible.{Result, ok, err, ◌>>=◌, no_directory}
use beacon_alerts.Store.Schema.{new_file}
use beacon_alerts.Server.{DataDir, ServerLibrary, open_with_policy_and_templates}
use beacon_alerts.Template.Catalog
use beacon_alerts.Template.Validate.{validate_template, is_allowed}
use beacon_alerts.Template.Scan.{split_at, size, has}
use beacon_alerts.Policy.Validate
use beacon_alerts.Server.Routes.{router}
use beacon_alerts.Tests.Agents.{secrets}

-- Every body but the empty one is the firing event, and a request to enroll an agent.
abbrev extract : Extractors
extract = record {
  event = λ limit request. if request.body == "" then rejection 400 else extracted firing;
  enrollment = λ limit request. extracted (record { name = "ops-2"; code = request.body });
  query = λ request. rejection 400;
}

abbrev arrival : Method → String → String → Arrival String
arrival method path body = record {
  request = record {
    method = method;
    path = path;
    query = "";
    authorization = some "Bearer token";
    media = some "application/json";
    body = body;
  };
  times = times;
  now = "2026";
  token = "other";
  saving = saved "2026";
}

abbrev world : World
world = record { files = credential "ops-1" "token" ∷ []; db = empty_database }

abbrev requests : List (Arrival String)
requests =
    arrival Method.post "/v1/events" "{}"
    ∷ arrival Method.post "/v1/enroll" "code"
    ∷ arrival Method.get "/v1/events" ""
    ∷ []

handle_all-Kept_example :
    Kept formats store clock secrets
      (λ rows. rows)
      extract
      []
      requests
      world
      (handle_all formats store clock secrets (λ rows. rows) extract requests world)
handle_all-Kept_example =
    handle_all-Kept formats store clock secrets (λ rows. rows) extract requests [] world start

abbrev status : Method → String → ℕ
status method path =
    (handle formats store clock secrets (λ rows. rows) extract (arrival method path "")
      world).0.status

get_test : status Method.get "/v1/events" ≡ 405
unfolding handle
get_test = refl

empty_test : status Method.post "/v1/events" ≡ 400
unfolding handle
empty_test = refl

unknown_test : status Method.get "/metrics" ≡ 404
unfolding handle
unknown_test = refl

-- Every path is a directory, and every data directory can be opened.
abbrev host : ServerLibrary
host = record {
  is_address = λ text. true;
  is_dir = λ path. true;
  data_root = λ path. record {
    created = true;
    lock_opened = true;
    lock_taken = true;
    database_opened = true;
    spoilt = none;
  };
  loads_tls = λ cert key. false;
  binds = λ bind. false;
  spawns = false;
}

-- Nothing is there.
abbrev new_dir : DataDir
new_dir = record { made = false; lock = false; file = new_file }

abbrev first_answer : ServerLibrary → Result ℕ
first_answer lib = do
  route ← (router lib formats clock secrets (λ rows. rows) extract "/data" "/agents" new_dir).0
  ok (route (arrival Method.head "/healthz" "") world).0.status

router_test : first_answer host ≡ ok 200
unfolding handle open_with_policy_and_templates Catalog.validate validate_template is_allowed
    split_at size has Validate.validate
router_test = refl

missing_test : first_answer (record host { is_dir = λ path. false }) ≡ err no_directory
missing_test = refl
