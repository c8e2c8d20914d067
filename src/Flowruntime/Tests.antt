-- ===== src/Flowruntime/Tests.antt =====
-- build.go: the execution plans of two routes.
use mime_crypt.Base.{String, true, false, none, List, [], ◌∷◌, ◌≡◌, refl}
use mime_crypt.Base.Text.{is_blank}
use mime_crypt.Mailflow.Plan.{target_key}
use mime_crypt.Base.Assoc.{Assoc}
use mime_crypt.Base.Effect.{ok, err}
use mime_crypt.Mailflow.Errors.{failed}
use mime_crypt.Appconfig.Topology.{Source, Sink, Route, RouteTarget, RouteDeletePolicy}
use mime_crypt.Appconfig.Validate.{validate_route}
use mime_crypt.Appconfig.Routes.{validate_route_iff}
use mime_crypt.Flowruntime.Build.{build_mailflow_plan, planned}
use mime_crypt.Flowruntime.Valid.{build_mailflow_plan-valid}

abbrev source : Source
source = record {
  name = "inbox";
  driver = "imap";
  mode = "poll";
  credential_ref = "";
  folder = "";
  state_path = "";
  include_existing = false;
  poll_interval = 60;
  cycle_timeout = 120;
  driver_config = none;
}

abbrev sink : String → Sink
sink name = record {
  name = name;
  driver = "file";
  credential_ref = "";
  output_dir = "";
  folder = "";
  verify = false;
}

abbrev sources : Assoc Source
sources = ("inbox", source) ∷ []

abbrev sinks : Assoc Sink
sinks = ("a", sink "a") ∷ ("b", sink "b") ∷ []

abbrev target : String → String → RouteTarget
target name ref = record { name = name; sink_ref = ref; artifact = ""; required = true }

abbrev keep : RouteDeletePolicy
keep = record { enabled = false; require_same_store = false; eligible_sinks = [] }

abbrev route : List RouteTarget → Route
route ts = record {
  name = "main";
  source_refs = "inbox" ∷ [];
  state_dir = "";
  targets = ts;
  delete_source = keep;
}

abbrev plain : Route
plain = route (target "" "a" ∷ target "" "b" ∷ [])

route_accepted : validate_route sources sinks "main" plain ≡ ok tt
unfolding validate_route
route_accepted = refl

build_mailflow_plan-valid_example :
    build_mailflow_plan plain plain.targets ≡ ok (planned plain plain.targets)
unfolding is_blank
build_mailflow_plan-valid_example =
    build_mailflow_plan-valid sources sinks "main" plain
      ((validate_route_iff sources sinks "main" plain).0 route_accepted) (refl, (refl, tt))

-- Two targets with one name pass Route.Validate, which compares sinks and artifacts only, and are
-- refused when the plan is built.
abbrev alike : Route
alike = route (target "x" "a" ∷ target "x" "b" ∷ [])

alike_accepted : validate_route sources sinks "main" alike ≡ ok tt
unfolding validate_route
alike_accepted = refl

alike_refused : build_mailflow_plan alike alike.targets ≡ err (failed "重复的消费目标: x")
unfolding build_mailflow_plan target_key
alike_refused = refl
