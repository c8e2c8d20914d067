-- ===== src/Flowruntime/Resolve.antt =====
-- plan.go: the compiled plan of a route, with a run for each of its sources.
use mime_crypt.Base.{String, Option, none, some, List, [], ◌∷◌, if◌then◌else◌, ◌||◌, not}
use mime_crypt.Base.Text.{◌+++◌, trim_space, is_blank, is_empty}
use mime_crypt.Base.Assoc.{Assoc, lookup, has, insert}
use mime_crypt.Base.Effect.{ok, err}
use mime_crypt.Mailflow.Errors.{Result, failed}
use mime_crypt.Mailflow.Types.{ExecutionPlan, DeleteSemantics}
use mime_crypt.Provider.Capabilities.{mode_spec}
use mime_crypt.Providers.Webhook.Ingress.{WebhookLibrary}
use mime_crypt.Providers.Registry.{
  lookup_source_info, lookup_sink_info, validate_driver_source, validate_driver_sink,
}
use mime_crypt.Appconfig.Platform.{Platform}
use mime_crypt.Appconfig.Topology.{Source, Sink, Route, RouteTarget, Topology}
use mime_crypt.Appconfig.Lookup.{
  configured_source, configured_route, source_instance, route_instance, credential_config,
  resolve_credential_ref,
}
use mime_crypt.Appconfig.Validate.{after, check_all, validate_structure, normalize}
use mime_crypt.Appconfig.Names.{flow_producer_state_path_for, flow_state_dir_for, run_lock_path_for}
use mime_crypt.Appconfig.Config.{Config}
use mime_crypt.Appconfig.Overrides.{with_credential}
use mime_crypt.Flowruntime.Build.{build_mailflow_plan}
use mime_crypt.Flowruntime.Select.{
  Selector, RoutePlanMode, single_source, select_source_name, select_route_name,
  select_route_sources,
}

pub record SourcePlan : Type 0 where
  pub topology : Topology
  pub source : Source
  pub config : Config

pub record SinkPlan : Type 0 where
  pub sink : Sink
  pub config : Config
  pub mailbox : String

pub record SourceRun : Type 0 where
  pub source : Source
  pub route : Route
  pub runtime_targets : List RouteTarget
  pub execution_plan : ExecutionPlan
  pub config : Config
  pub sinks : Assoc SinkPlan
  pub source_delete_semantics : DeleteSemantics
  pub lock_path : String

pub record RoutePlan : Type 0 where
  pub topology : Topology
  pub route : Route
  pub runs : List SourceRun

-- `a, err := …; if err != nil { return …, err }`, and then the rest
abbrev pub on_ok : {A B : Type 0} → Result A → (A → Result B) → Result B
on_ok (ok a) f = f a
on_ok (err e) f = err e

-- An error whose own text is not shown
abbrev pub or_failed : {A : Type 0} → String → Result A → Result A
or_failed message (ok a) = ok a
or_failed message (err e) = err (failed message)

-- A driver or a mode that is looked up
abbrev pub known : {A : Type 0} → String → Option A → Result A
known message none = err (failed message)
known message (some a) = ok a

unfoldable pub source_delete_semantics : String → DeleteSemantics
unfolding lookup_source_info
source_delete_semantics driver = elim (lookup_source_info driver) [
  | none ↦ DeleteSemantics.unknown
  | some s ↦ s.delete_semantics
]

unfoldable pub sink_mailbox : Source → Sink → String
unfolding is_blank trim_space
sink_mailbox source sink =
    if is_blank sink.folder then trim_space source.folder else trim_space sink.folder

module _ (os : Platform) where
  abbrev pub with_resolved : Config → Topology → String → Result Config
  with_resolved cfg t ref =
      if is_empty ref
      then ok cfg
      else on_ok (credential_config t ref) λ k. ok (with_credential os k.name k cfg)

  unfoldable pub apply_topology_credential : Config → Topology → String → Result Config
  unfolding resolve_credential_ref credential_config with_credential is_empty
  apply_topology_credential cfg t ref = on_ok (resolve_credential_ref t ref) (with_resolved cfg t)

  unfoldable pub config_for_source : Config → Topology → Source → Result Config
  unfolding lookup_source_info apply_topology_credential
  config_for_source cfg t s =
      on_ok
        (known ("source " +++ s.name +++ " 不支持 driver: " +++ s.driver)
          (lookup_source_info s.driver))
        λ spec.
          if not spec.requires_credential
          then ok cfg
          else apply_topology_credential cfg t s.credential_ref

  unfoldable pub config_for_sink : Config → Topology → Sink → Result Config
  unfolding lookup_sink_info apply_topology_credential
  config_for_sink cfg t s =
      on_ok
        (known ("sink " +++ s.name +++ " 不支持 driver: " +++ s.driver) (lookup_sink_info s.driver))
        λ spec.
          if not spec.requires_credential
          then ok cfg
          else apply_topology_credential cfg t s.credential_ref

  -- Source.WithRuntimeStatePath
  abbrev pub with_runtime_state_path : Source → String → Source
  with_runtime_state_path s path = record s { state_path = trim_space path }

  unfoldable pub source_with_runtime_state_path : Config → Source → Result Source
  unfolding lookup_source_info mode_spec flow_producer_state_path_for trim_space
  source_with_runtime_state_path cfg s =
      on_ok
        (known ("source " +++ s.name +++ " 不支持 driver: " +++ s.driver)
          (lookup_source_info s.driver))
        λ spec.
          on_ok
            (known ("source " +++ s.name +++ " 的 driver " +++ s.driver +++ " 不支持 mode: " +++ s.mode)
              (mode_spec spec s.mode))
            λ mode.
              if not mode.requires_state_path
              then ok (configured_source s)
              else ok (
                  with_runtime_state_path (configured_source s) (
                    flow_producer_state_path_for os cfg.mail.sync.state_dir s.name s.driver
                      s.folder))

  unfoldable pub runtime_route_for_source : Config → Route → Source → Route
  unfolding flow_state_dir_for trim_space
  runtime_route_for_source cfg r s = record (configured_route r) {
    state_dir =
        trim_space (flow_state_dir_for os cfg.mail.sync.state_dir r.name s.name s.driver s.folder);
  }

  -- The plan of a sink
  unfoldable pub sink_plan : Config → Topology → String → Source → String → Result SinkPlan
  unfolding lookup config_for_sink sink_mailbox
  sink_plan cfg t route_name source ref =
      on_ok (known ("route " +++ route_name +++ " 引用了不存在的 sink: " +++ ref) (lookup ref t.sinks))
        λ sink.
          on_ok (config_for_sink cfg t sink)
            λ c. ok (record { sink = sink; config = c; mailbox = sink_mailbox source sink })

  unfoldable pub with_sink :
      Config → Topology → String → Source → RouteTarget → Assoc SinkPlan → Result (Assoc SinkPlan)
  unfolding sink_plan insert has is_blank trim_space
  with_sink cfg t route_name source target plans =
      if is_blank target.sink_ref || has (trim_space target.sink_ref) plans
      then ok plans
      else on_ok (sink_plan cfg t route_name source (trim_space target.sink_ref))
          λ p. ok (insert (trim_space target.sink_ref) p plans)

  unfoldable pub sink_plans :
      Config
      → Topology
      → String
      → Source
      → List RouteTarget
      → Assoc SinkPlan
      → Result (Assoc SinkPlan)
  unfolding with_sink
  sink_plans cfg t route_name source [] plans = ok plans
  sink_plans cfg t route_name source (target ∷ targets) plans =
      on_ok (with_sink cfg t route_name source target plans)
        (sink_plans cfg t route_name source targets)

  abbrev pub run_of : Config → Route → Source → ExecutionPlan → Assoc SinkPlan → SourceRun
  run_of cfg r s plan plans = record {
    source = s;
    route = r;
    runtime_targets = r.targets;
    execution_plan = plan;
    config = cfg;
    sinks = plans;
    source_delete_semantics = source_delete_semantics s.driver;
    lock_path = run_lock_path_for os cfg.auth.state_dir s.name s.driver s.folder;
  }

  -- The part of buildSourceRun that has the source's own configuration
  unfoldable pub run_with : Config → Config → Topology → Route → Source → Result SourceRun
  unfolding runtime_route_for_source build_mailflow_plan sink_plans source_delete_semantics
      run_lock_path_for
  run_with cfg source_cfg t route source =
      let r = runtime_route_for_source source_cfg route source in
      on_ok (build_mailflow_plan r route.targets) λ plan.
        on_ok (sink_plans cfg t r.name source route.targets [])
          λ plans. ok (run_of source_cfg r source plan plans)

  unfoldable pub build_source_run : Config → Topology → Route → Source → Result SourceRun
  unfolding config_for_source source_with_runtime_state_path run_with
  build_source_run cfg t route source = on_ok (config_for_source cfg t source) λ source_cfg.
      on_ok (source_with_runtime_state_path source_cfg source)
        λ s. run_with cfg source_cfg t route s

  -- ResolveRoutePlan's loop over the names
  unfoldable pub build_runs : Config → Topology → Route → List String → Result (List SourceRun)
  unfolding source_instance build_source_run
  build_runs cfg t route [] = ok []
  build_runs cfg t route (name ∷ names) =
      on_ok (or_failed ("topology source 不存在: " +++ name) (source_instance t name)) λ source.
        on_ok (build_source_run cfg t route source)
          λ run. on_ok (build_runs cfg t route names) λ runs. ok (run ∷ runs)

  abbrev pub with_default_source : Topology → List String → Topology
  with_default_source t [] = t
  with_default_source t (name ∷ names) =
      if is_blank t.default_source then record t { default_source = name } else t

  -- The reading of the file, with its JSON, is a parameter.
  module _ (lib : WebhookLibrary) (read : String → Result Topology) where
    unfoldable pub load_topology_file : String → Result Topology
    unfolding is_blank trim_space normalize
    load_topology_file path =
        if is_blank path
        then err (failed "topology path 不能为空")
        else on_ok (read (trim_space path)) λ t. ok (normalize t)

    unfoldable pub validate_configured_drivers : Topology → Result (Unit {0})
    unfolding check_all validate_driver_source validate_driver_sink
    validate_configured_drivers t =
        after (check_all (λ key s. validate_driver_source lib s) t.sources)
          (check_all (λ key s. validate_driver_sink s) t.sinks)

    unfoldable pub load_runtime_topology : Config → Result Topology
    unfolding load_topology_file validate_structure validate_configured_drivers is_blank trim_space
    load_runtime_topology cfg =
        if is_blank cfg.topology_path
        then err (failed "topology path 未配置")
        else on_ok (load_topology_file (trim_space cfg.topology_path))
            λ t. on_ok (validate_structure t) λ _. on_ok (validate_configured_drivers t) λ _. ok t

    -- ResolveRoutePlan, from the route on
    unfoldable pub plan_route :
        Config → Topology → Route → String → RoutePlanMode → Result RoutePlan
    unfolding select_route_sources build_runs is_blank
    plan_route cfg t route source_name mode =
        on_ok (select_route_sources t route source_name mode) λ names.
          on_ok (build_runs cfg (with_default_source t names) route names) λ runs.
            ok (record { topology = with_default_source t names; route = route; runs = runs })

    unfoldable pub resolve_route_plan : Config → Selector → RoutePlanMode → Result RoutePlan
    unfolding load_runtime_topology select_route_name route_instance plan_route
    resolve_route_plan cfg selector mode = on_ok (load_runtime_topology cfg) λ t.
        on_ok (select_route_name t selector.route_name) λ name.
          on_ok (or_failed ("topology route 不存在: " +++ name) (route_instance t name)) λ route.
            plan_route cfg (record t { default_route = name }) route selector.source_name mode

    abbrev pub only_run : List SourceRun → Result SourceRun
    only_run (run ∷ []) = ok run
    only_run runs = err (failed "mailflow 单源解析结果无效")

    unfoldable pub resolve_single_source_run : Config → Selector → Result SourceRun
    unfolding resolve_route_plan
    resolve_single_source_run cfg selector =
        on_ok (resolve_route_plan cfg selector single_source) λ plan. only_run plan.runs

    unfoldable pub resolve_source_plan : Config → Selector → Result SourcePlan
    unfolding load_runtime_topology select_source_name source_instance config_for_source
        source_with_runtime_state_path is_blank trim_space
    resolve_source_plan cfg selector =
        if not (is_blank selector.route_name)
        then err (failed ("该命令不支持 route 选择: " +++ trim_space selector.route_name))
        else on_ok (load_runtime_topology cfg) λ t.
          on_ok (select_source_name t selector.source_name) λ name.
            on_ok
              (or_failed ("topology source 不存在: " +++ name)
                (source_instance (record t { default_source = name }) name))
              λ source.
                on_ok (config_for_source cfg (record t { default_source = name }) source) λ c.
                  on_ok (source_with_runtime_state_path c source) λ s. ok (record {
                    topology = record t { default_source = name };
                    source = s;
                    config = c;
                  })
