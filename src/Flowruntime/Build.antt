-- ===== src/Flowruntime/Build.antt =====
-- build.go: the execution plan of a route.
use mime_crypt.Base.{String, Option, none, some, List, [], ◌∷◌, if◌then◌else◌, map, true}
use mime_crypt.Base.Text.{trim_space, is_blank}
use mime_crypt.Base.Lists.{is_nil}
use mime_crypt.Base.Effect.{ok, err}
use mime_crypt.Mailflow.Types.{DeliveryTarget, DeleteSourcePolicy, ExecutionPlan, no_policy}
use mime_crypt.Mailflow.Errors.{Result}
use mime_crypt.Mailflow.Plan.{validate_plan}
use mime_crypt.Appconfig.Topology.{Route, RouteTarget, RouteDeletePolicy}

-- One round of the loop of buildMailflowPlan.
unfoldable pub build_target : RouteTarget → DeliveryTarget
unfolding is_blank trim_space
build_target t = record {
  name = trim_space t.name;
  consumer = trim_space t.sink_ref;
  artifact = if is_blank t.artifact then "primary" else trim_space t.artifact;
  required = t.required;
}

-- append([]string(nil), xs...) is nil where xs is empty.
abbrev pub copied : List String → Option (List String)
copied [] = none
copied (x ∷ xs) = some (x ∷ xs)

abbrev pub build_policy : RouteDeletePolicy → DeleteSourcePolicy
build_policy p =
    if p.enabled
    then record {
      enabled = true;
      require_same_store = p.require_same_store;
      eligible_consumers = copied p.eligible_sinks;
    }
    else no_policy

abbrev pub planned : Route → List RouteTarget → ExecutionPlan
planned r ts = record {
  targets = map build_target ts;
  delete_source = build_policy r.delete_source;
}

-- buildMailflowPlan
unfoldable pub build_mailflow_plan : Route → List RouteTarget → Result ExecutionPlan
unfolding build_target validate_plan
build_mailflow_plan r ts = elim (validate_plan (planned r ts)) [
  | err e ↦ err e
  | ok _ ↦ ok (planned r ts)
]

-- effectiveRuntimeTargets, of the run's own targets and its route
abbrev pub effective_runtime_targets : List RouteTarget → Route → List RouteTarget
effective_runtime_targets ts r = if is_nil ts then r.targets else ts
