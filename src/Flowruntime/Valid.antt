-- ===== src/Flowruntime/Valid.antt =====
-- build.go: a route that Route.Validate accepts has an execution plan.
use mime_crypt.Base.{
  String, true, false, List, [], ◌∷◌, ◌≡◌, refl, sym, ◌∙◌, inl, inr, Bool-cases, if◌then◌else◌, map,
}
use mathlib.Core.Path.{subst, ap₂}
use mime_crypt.Base.Text.{◌+++◌, trim_space, is_blank, is_blank-trim_space, trim_space-trim_space}
use mime_crypt.Base.Assoc.{Assoc}
use mime_crypt.Base.Lists.{All, is_nil, any}
use mime_crypt.Base.Effect.{ok}
use mime_crypt.Mailflow.Types.{DeliveryTarget}
use mime_crypt.Mailflow.Plan.{target_key, validate_plan}
use mime_crypt.Mailflow.Plan.Valid.{Distinct, is_required, validate_plan_iff}
use mime_crypt.Appconfig.Topology.{Source, Sink, Route, RouteTarget, route_target_key}
use mime_crypt.Appconfig.Routes.{IsValidRoute, TargetExists, target_required}
use mime_crypt.Flowruntime.Build.{build_target, build_mailflow_plan, planned}

-- The target has no name of its own, so its key is that of its sink and its artifact.
abbrev pub Unnamed : RouteTarget → Type 0
Unnamed t = is_blank t.name ≡ true

label : String → String
label artifact = if is_blank artifact then "primary" else trim_space artifact

label-label : (a : String) → label (label a) ≡ label a
unfolding label
label-label a = elim (Bool-cases (is_blank a)) [
  | inl blank ↦ rw (blank, if◌then◌else◌) (unfold is_blank in refl)
  | inr full ↦
      rw (full, if◌then◌else◌, is_blank-trim_space a, full, if◌then◌else◌) (trim_space-trim_space a)
]

target_key-build_target :
    (t : RouteTarget) → Unnamed t → target_key (build_target t) ≡ route_target_key t
unfolding target_key build_target route_target_key
target_key-build_target t h =
    rw (is_blank-trim_space t.name, h, if◌then◌else◌)
      (ap₂ (λ a b. a +++ ":" +++ b) (trim_space-trim_space t.sink_ref)
        (unfold label in label-label t.artifact))

keys :
    (ts : List RouteTarget)
    → All Unnamed ts
    → map target_key (map build_target ts) ≡ map route_target_key ts
keys [] h = refl
keys (t ∷ ts) h = ap₂ ◌∷◌ (target_key-build_target t (h.0)) (keys ts (h.1))

named_consumers :
    (sinks : Assoc Sink) (ts : List RouteTarget)
    → All (TargetExists sinks) ts
    → All (λ (t : DeliveryTarget). is_blank t.consumer ≡ false) (map build_target ts)
unfolding build_target
named_consumers sinks [] h = tt
named_consumers sinks (t ∷ ts) h =
    (is_blank-trim_space t.sink_ref ∙ h.0.0, named_consumers sinks ts (h.1))

required_kept :
    (ts : List RouteTarget) → any is_required (map build_target ts) ≡ any target_required ts
unfolding any build_target
required_kept [] = refl
required_kept (t ∷ ts) = rw (required_kept ts) refl

nil_kept : (ts : List RouteTarget) → is_nil (map build_target ts) ≡ is_nil ts
nil_kept [] = refl
nil_kept (t ∷ ts) = refl

build_ok :
    (r : Route) (ts : List RouteTarget)
    → validate_plan (planned r ts) ≡ ok tt
    → build_mailflow_plan r ts ≡ ok (planned r ts)
unfolding build_mailflow_plan
build_ok r ts h = rw (h, build_mailflow_plan) refl

-- A route that Route.Validate accepts, and whose targets have no names of their own, has an
-- execution plan: buildMailflowPlan succeeds on its targets, and returns a plan with one target for
-- each of the route's.
pub build_mailflow_plan-valid :
    (sources : Assoc Source) (sinks : Assoc Sink) (key : String) (r : Route)
    → IsValidRoute sources sinks key r
    → All Unnamed r.targets
    → build_mailflow_plan r r.targets ≡ ok (planned r r.targets)
build_mailflow_plan-valid sources sinks key r v unnamed = build_ok r r.targets (
    (validate_plan_iff (planned r r.targets)).1 (record {
      some_target = nil_kept r.targets ∙ v.some_target;
      consumers_named = named_consumers sinks r.targets v.sinks_exist;
      keys_distinct = subst (Distinct []) (sym (keys r.targets unnamed)) v.keys_distinct;
      some_required = required_kept r.targets ∙ v.some_required;
    }))
