-- ===== src/Flowruntime/Runnable.antt =====
-- plan.go: what the runs of a compiled plan have.
use mime_crypt.Base.{
  String, Bool, true, false, List, [], ◌∷◌, ◌≡◌, refl, sym, ap, ◌||◌, ◌⊎◌, inl, inr, if_rule, map,
}
use mathlib.Core.Path.{subst}
use mime_crypt.Base.Text.{trim_space, is_blank, ◌+++◌, is_blank-trim_space}
use mime_crypt.Base.Assoc.{Assoc, has, has-insert_mono, has-insert_self}
use mime_crypt.Base.Lists.{All}
use mime_crypt.Base.Effect.{ok, err, ok_inj}
use mime_crypt.Mailflow.Errors.{Result}
use mime_crypt.Mailflow.Types.{DeliveryTarget, ExecutionPlan}
use mime_crypt.Mailflow.Plan.{validate_plan}
use mime_crypt.Mailflow.Plan.Valid.{IsValidPlan, validate_plan_iff}
use mime_crypt.Appconfig.Platform.{Platform}
use mime_crypt.Appconfig.Topology.{Source, Route, RouteTarget, Topology}
use mime_crypt.Appconfig.Config.{Config}
use mime_crypt.Flowruntime.Build.{build_target, build_mailflow_plan, planned}
use mime_crypt.Providers.Webhook.Ingress.{WebhookLibrary}
use mime_crypt.Appconfig.Lookup.{source_instance, route_instance}
use mime_crypt.Flowruntime.Select.{Selector, RoutePlanMode, select_route_name, select_route_sources}
use mime_crypt.Flowruntime.Resolve.{
  SinkPlan, SourceRun, on_ok, sink_plan, with_sink, sink_plans, run_with, build_source_run,
  config_for_source, build_runs, or_failed, RoutePlan, with_default_source, plan_route,
  resolve_route_plan, load_runtime_topology, source_with_runtime_state_path,
  runtime_route_for_source,
}

-- A step that is taken has succeeded, and so has the rest.
on_ok-inv :
    {A B : Type 0} (r : Result A) (f : A → Result B) (b : B)
    → on_ok r f ≡ ok b
    → (a : A) × (r ≡ ok a) × (f a ≡ ok b)
on_ok-inv (ok a) f b h = (a, refl, h)
on_ok-inv (err e) f b h = cc

or_cases : (a b : Bool) → (a || b) ≡ true → (a ≡ true) ⊎ (b ≡ true)
or_cases true b h = inl refl
or_cases false b h = inr h

-- The plans have an entry for the target's sink, if it names one.
abbrev Served : Assoc SinkPlan → RouteTarget → Type 0
Served plans t = (is_blank t.sink_ref ≡ true) ⊎ (has (trim_space t.sink_ref) plans ≡ true)

abbrev Grown : Assoc SinkPlan → Assoc SinkPlan → Type 0
Grown old new = (key : String) → has key old ≡ true → has key new ≡ true

module _ (os : Platform) (cfg : Config) (t : Topology) (name : String) (source : Source) where
  with_sink-Served :
      (target : RouteTarget) (old new : Assoc SinkPlan)
      → with_sink os cfg t name source target old ≡ ok new
      → Served new target × Grown old new
  unfolding with_sink
  with_sink-Served target old new =
      if_rule (λ (x : Result (Assoc SinkPlan)). x ≡ ok new → Served new target × Grown old new)
        (is_blank target.sink_ref || has (trim_space target.sink_ref) old)
        (λ there h.
          subst (λ (m : Assoc SinkPlan). Served m target × Grown old m) (ok_inj h)
            (
              or_cases (is_blank target.sink_ref) (has (trim_space target.sink_ref) old) there,
              λ key k. k,
            ))
        (λ _ h.
          let (p, _, e) =
            on_ok-inv (sink_plan os cfg t name source (trim_space target.sink_ref)) _ new h in
          subst (λ (m : Assoc SinkPlan). Served m target × Grown old m) (ok_inj e)
            (
              inr (has-insert_self (trim_space target.sink_ref) p old),
              λ key k. has-insert_mono (trim_space target.sink_ref) key p old k,
            ))

  sink_plans-Served :
      (targets : List RouteTarget) (old new : Assoc SinkPlan)
      → sink_plans os cfg t name source targets old ≡ ok new
      → All (Served new) targets × Grown old new
  unfolding sink_plans
  sink_plans-Served [] old new h =
      subst (λ (m : Assoc SinkPlan). Unit × Grown old m) (ok_inj h) (tt, λ key k. k)
  sink_plans-Served (target ∷ targets) old new h =
      let (next, step, rest) = on_ok-inv (with_sink os cfg t name source target old) _ new h in
      let (first, grown) = with_sink-Served target old next step in
      let (later, more) = sink_plans-Served targets next new rest in
      ((served next first more, later), λ key k. more key (grown key k))
    where
      served : (next : Assoc SinkPlan) → Served next target → Grown next new → Served new target
      served next (inl blank) more = inl blank
      served next (inr there) more = inr (more (trim_space target.sink_ref) there)

-- The plan that a run executes is valid and has a target for each target of the route, in their
-- order; the run has the route's targets; and each target of the plan is consumed by a sink that the
-- run has.
pub record IsRunnable (route : Route) (run : SourceRun) : Type 0 where
  pub plan_valid : IsValidPlan run.execution_plan
  pub runtime_targets : run.runtime_targets ≡ route.targets
  pub plan_targets : run.execution_plan.targets ≡ map build_target route.targets
  pub sinks_known :
      All (λ (t : DeliveryTarget). has t.consumer run.sinks ≡ true) run.execution_plan.targets

consumers_known :
    (plans : Assoc SinkPlan) (targets : List RouteTarget)
    → All (Served plans) targets
    → All (λ (t : DeliveryTarget). is_blank t.consumer ≡ false) (map build_target targets)
    → All (λ (t : DeliveryTarget). has t.consumer plans ≡ true) (map build_target targets)
unfolding build_target
consumers_known plans [] s n = tt
consumers_known plans (t ∷ targets) s n =
    (one (s.0) (n.0), consumers_known plans targets (s.1) (n.1))
  where
    one :
        Served plans t
        → is_blank (trim_space t.sink_ref) ≡ false
        → has (trim_space t.sink_ref) plans ≡ true
    one (inl blank) full = cc (is_blank-trim_space t.sink_ref)
    one (inr there) full = there

built :
    (r : Route) (targets : List RouteTarget) (plan : ExecutionPlan)
    → build_mailflow_plan r targets ≡ ok plan
    → (plan ≡ planned r targets) × IsValidPlan plan
unfolding build_mailflow_plan
built r targets plan h = go (validate_plan (planned r targets)) refl h
  where
    go :
        (v : Result (Unit {0}))
        → validate_plan (planned r targets) ≡ v
        → (elim v [ err e ↦ err e | ok _ ↦ ok (planned r targets) ]) ≡ ok plan
        → (plan ≡ planned r targets) × IsValidPlan plan
    go (err e) v h = cc
    go (ok u) v h =
        subst (λ (p : ExecutionPlan). (p ≡ planned r targets) × IsValidPlan p) (ok_inj h)
          (refl, (validate_plan_iff (planned r targets)).0 v)

module _ (os : Platform) where
  run_with-IsRunnable :
      (cfg source_cfg : Config) (t : Topology) (route : Route) (source : Source) (run : SourceRun)
      → run_with os cfg source_cfg t route source ≡ ok run
      → IsRunnable route run
  unfolding run_with runtime_route_for_source
  run_with-IsRunnable cfg source_cfg t route source run h =
      let r = runtime_route_for_source os source_cfg route source in
      let (plan, made, rest) = on_ok-inv (build_mailflow_plan r route.targets) _ run h in
      let (plans, all, last) =
        on_ok-inv (sink_plans os cfg t r.name source route.targets []) _ run rest in
      let (same, valid) = built r route.targets plan made in
      let served = (sink_plans-Served os cfg t r.name source route.targets [] plans all).0 in
      subst (IsRunnable route) (ok_inj last) (record {
        plan_valid = valid;
        runtime_targets = refl;
        plan_targets = ap (λ (p : ExecutionPlan). p.targets) same;
        sinks_known =
            subst (All (λ (t : DeliveryTarget). has t.consumer plans ≡ true))
              (sym (ap (λ (p : ExecutionPlan). p.targets) same))
              (consumers_known plans route.targets served (
                subst (All (λ (t : DeliveryTarget). is_blank t.consumer ≡ false))
                  (ap (λ (p : ExecutionPlan). p.targets) same) valid.consumers_named));
      })

  build_source_run-IsRunnable :
      (cfg : Config) (t : Topology) (route : Route) (source : Source) (run : SourceRun)
      → build_source_run os cfg t route source ≡ ok run
      → IsRunnable route run
  unfolding build_source_run
  build_source_run-IsRunnable cfg t route source run h =
      let (c, _, rest) = on_ok-inv (config_for_source os cfg t source) _ run h in
      let (s, _, last) = on_ok-inv (source_with_runtime_state_path os c source) _ run rest in
      run_with-IsRunnable cfg c t route s run last

  -- Each run can be executed, for this route.
  abbrev pub AllRunnable : Route → List SourceRun → Type 0
  AllRunnable route runs = All (IsRunnable route) runs

  build_runs-AllRunnable :
      (cfg : Config) (t : Topology) (route : Route) (names : List String) (runs : List SourceRun)
      → build_runs os cfg t route names ≡ ok runs
      → AllRunnable route runs
  unfolding build_runs
  build_runs-AllRunnable cfg t route [] runs h = subst (AllRunnable route) (ok_inj h) tt
  build_runs-AllRunnable cfg t route (name ∷ names) runs h =
      let (source, _, one) =
        on_ok-inv (or_failed ("topology source 不存在: " +++ name) (source_instance t name)) _ runs
          h in
      let (run, made, more) = on_ok-inv (build_source_run os cfg t route source) _ runs one in
      let (rest, later, last) = on_ok-inv (build_runs os cfg t route names) _ runs more in
      subst (AllRunnable route) (ok_inj last) (
        build_source_run-IsRunnable cfg t route source run made,
        build_runs-AllRunnable cfg t route names rest later,
      )

  module _ (lib : WebhookLibrary) (read : String → Result Topology) where
    plan_route-AllRunnable :
        (cfg : Config) (t : Topology) (route : Route) (source_name : String) (mode : RoutePlanMode)
        (plan : RoutePlan)
        → plan_route os lib read cfg t route source_name mode ≡ ok plan
        → AllRunnable plan.route plan.runs
    unfolding plan_route
    plan_route-AllRunnable cfg t route source_name mode plan h =
        let (names, _, rest) = on_ok-inv (select_route_sources t route source_name mode) _ plan h in
        let (runs, made, last) =
          on_ok-inv (build_runs os cfg (with_default_source os t names) route names) _ plan rest in
        subst (λ (p : RoutePlan). AllRunnable p.route p.runs) (ok_inj last)
          (build_runs-AllRunnable cfg (with_default_source os t names) route names runs made)

    -- Every run of a plan that ResolveRoutePlan returns can be executed: its execution plan is one
    -- that ExecutionPlan.Validate accepts, with one target for each target of the plan's route, in
    -- their order, and the run has a sink for the consumer that each of these targets names.
    pub resolve_route_plan-AllRunnable :
        (cfg : Config) (selector : Selector) (mode : RoutePlanMode) (plan : RoutePlan)
        → resolve_route_plan os lib read cfg selector mode ≡ ok plan
        → AllRunnable plan.route plan.runs
    unfolding resolve_route_plan
    resolve_route_plan-AllRunnable cfg selector mode plan h =
        let (t, _, a) = on_ok-inv (load_runtime_topology os lib read cfg) _ plan h in
        let (name, _, b) = on_ok-inv (select_route_name t selector.route_name) _ plan a in
        let (route, _, c) =
          on_ok-inv (or_failed ("topology route 不存在: " +++ name) (route_instance t name)) _ plan
            b in
        plan_route-AllRunnable cfg (record t { default_route = name }) route selector.source_name
          mode plan c
