-- ===== src/Flowruntime/PlanTests.antt =====
-- plan.go: the plan of a small topology.
use mime_crypt.Base.{String, true, false, none, [], ◌∷◌, ◌≡◌, refl}
use mime_crypt.Base.Effect.{ok, err}
use mime_crypt.Mailflow.Errors.{Result, failed}
use mime_crypt.Appconfig.Platform.{Platform}
use mime_crypt.Appconfig.Topology.{Topology, Source, Sink, Route, RouteTarget}
use mime_crypt.Appconfig.Config.{Config}
use mime_crypt.Providers.Webhook.Ingress.{WebhookLibrary}
use mime_crypt.Flowruntime.Select.{Selector, all_sources, select_route_sources}
use mime_crypt.Flowruntime.Selected.{Chosen, select_route_sources-Chosen}
use mime_crypt.Flowruntime.Resolve.{RoutePlan, resolve_route_plan}
use mime_crypt.Flowruntime.Runnable.{AllRunnable, resolve_route_plan-AllRunnable}

abbrev os : Platform
os = record {
  is_letter_or_digit = λ c. true;
  join = λ parts. "joined";
  base = λ path. path;
  is_abs = λ path. true;
}

abbrev library : WebhookLibrary
library = record {
  decode = λ raw. err (failed "");
  getenv = λ name. "";
  parse_media_type = λ s. ok s;
  parse_time = λ s. ok 0;
  format_time = λ t. "";
  to_upper = λ s. s;
  hmac = λ key text. "";
  sha256 = λ bytes. "";
  message_id = λ bytes. "";
}

abbrev source : String → Source
source name = record {
  name = name;
  driver = "IMAP";
  mode = "poll";
  credential_ref = "";
  folder = "INBOX";
  state_path = "";
  include_existing = false;
  poll_interval = 60;
  cycle_timeout = 120;
  driver_config = none;
}

abbrev sink : Sink
sink = record {
  name = "out";
  driver = "file";
  credential_ref = "";
  output_dir = "mail";
  folder = "";
  verify = false;
}

abbrev target : RouteTarget
target = record { name = ""; sink_ref = " out"; artifact = ""; required = true }

abbrev route : Route
route = record {
  name = "main";
  source_refs = "a" ∷ " b" ∷ "a" ∷ [];
  state_dir = "";
  targets = target ∷ [];
  delete_source = record { enabled = false; require_same_store = false; eligible_sinks = [] };
}

abbrev topology : Topology
topology = record {
  credentials = [];
  sources = ("a", source "a") ∷ ("b", source "b") ∷ [];
  sinks = ("out", sink) ∷ [];
  routes = ("main", route) ∷ [];
  default_credential = "";
  default_source = "";
  default_route = "";
}

abbrev config : Config
config = record {
  topology_path = "topology.json";
  auth = record {
    client_id = "";
    tenant = "";
    authority_base_url = "";
    graph_scopes = [];
    ews_scopes = [];
    imap_scopes = [];
    state_dir = "state";
    token_store = "";
    keyring_service = "";
  };
  mail = record {
    client = record { graph_base_url = ""; ews_base_url = ""; imap_addr = ""; imap_username = "" };
    pipeline = record {
      output_dir = "";
      work_dir = "";
      protect_subject = false;
      backup_dir = "";
      backup_key_id = "";
      audit_log_path = "";
      audit_stdout = true;
    };
    sync = record { state_dir = "state" };
  };
}

abbrev nothing : Selector
nothing = record { source_name = ""; route_name = "" }

abbrev read : String → Result Topology
read path = ok topology

both_sources : select_route_sources topology route "" all_sources ≡ ok ("a" ∷ "b" ∷ [])
unfolding select_route_sources
both_sources = refl

select_route_sources-Chosen_example : Chosen route ("a" ∷ "b" ∷ [])
select_route_sources-Chosen_example =
    select_route_sources-Chosen topology route "" all_sources ("a" ∷ "b" ∷ []) both_sources

found : (p : RoutePlan) × (resolve_route_plan os library read config nothing all_sources ≡ ok p)
unfolding resolve_route_plan
found = (_, refl)

resolve_route_plan-AllRunnable_example : AllRunnable os found.0.route found.0.runs
resolve_route_plan-AllRunnable_example =
    resolve_route_plan-AllRunnable os library read config nothing all_sources found.0 found.1
