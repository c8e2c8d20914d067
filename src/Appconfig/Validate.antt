-- ===== src/Appconfig/Validate.antt =====
-- topology.go: Route.Validate, Topology.ValidateStructure, Topology.Validate and Normalize.
use mime_crypt.Base.{String, false, [], ◌∷◌, not, if◌then◌else◌, map}
use mime_crypt.Base.Text.{◌==◌, ◌+++◌, trim_space, is_blank}
use mime_crypt.Base.Assoc.{Assoc}
use mime_crypt.Base.Lists.{is_nil}
use mime_crypt.Base.Effect.{ok, err}
use mime_crypt.Mailflow.Errors.{Result, failed}
use mime_crypt.Appconfig.Topology.{
  Source, Sink, Route, Topology, validate_credential, validate_source, validate_sink, check_refs,
  check_targets, check_delete_policy,
}
use mime_crypt.Appconfig.Lookup.{
  default_credential_config, default_source_config, default_route_config,
}

-- `if err := …; err != nil { return err }`, then the rest
abbrev pub after : {A : Type 0} → Result A → Result (Unit {0}) → Result (Unit {0})
after (ok _) rest = rest
after (err e) rest = err e

-- Route.Validate
unfoldable pub validate_route : Assoc Source → Assoc Sink → String → Route → Result (Unit {0})
unfolding check_refs check_targets check_delete_policy is_blank trim_space
validate_route sources sinks name r =
    if is_blank name
    then err (failed "route name 不能为空")
    else if is_blank r.name
    then err (failed ("route " +++ name +++ " 缺少 name"))
    else if not (trim_space r.name == trim_space name)
    then err (failed ("route " +++ name +++ " 的 name 必须与配置键一致"))
    else if is_nil r.source_refs
    then err (failed ("route " +++ name +++ " 至少需要一个 source"))
    else after
        (check_refs (λ ref. failed ("route " +++ name +++ " 引用了不存在的 source: " +++ ref)) sources
          r.source_refs)
        (if is_nil r.targets
          then err (failed ("route " +++ name +++ " 至少需要一个 sink target"))
          else after (check_targets name sinks [] false r.targets)
              (check_delete_policy name sinks r.delete_source))

-- A loop `for name, x := range m` that ends with the first error.
unfoldable pub check_all :
    {V : Type 0} → (String → V → Result (Unit {0})) → Assoc V → Result (Unit {0})
check_all f [] = ok tt
check_all f ((name, v) ∷ m) = after (f name v) (check_all f m)

-- A default that is configured must exist.
abbrev pub check_default : {A : Type 0} → String → Result A → Result (Unit {0})
check_default name found = if is_blank name then ok tt else after found (ok tt)

-- Topology.ValidateStructure
unfoldable pub validate_structure : Topology → Result (Unit {0})
unfolding check_all validate_credential validate_source validate_sink validate_route
    default_credential_config default_source_config default_route_config
validate_structure t =
    if is_nil t.sources
    then err (failed "至少需要一个 source")
    else if is_nil t.routes
    then err (failed "至少需要一个 route")
    else after (check_default t.default_credential (default_credential_config t)) (
        after (check_default t.default_source (default_source_config t)) (
          after (check_default t.default_route (default_route_config t)) (
            after (check_all validate_credential t.credentials) (
              after (check_all (validate_source t.credentials) t.sources) (
                after (check_all (validate_sink t.credentials) t.sinks)
                  (check_all (validate_route t.sources t.sinks) t.routes))))))

-- Topology.Validate
unfoldable pub validate_topology : Topology → Result (Unit {0})
unfolding validate_structure is_blank
validate_topology t = after (validate_structure t) (
    if is_blank t.default_source
    then err (failed "default source 未配置")
    else if is_blank t.default_route
    then err (failed "default route 未配置")
    else ok tt)

-- A name that is blank becomes the entry's key.
abbrev pub named : String → String → String
named own key = if is_blank own then trim_space key else own

-- Topology.Normalize; the Go method also writes the new entries into the maps that it was given.
unfoldable pub normalize : Topology → Topology
normalize t = record t {
  credentials = map (λ e. (e.0, record e.1 { name = named e.1.name e.0 })) t.credentials;
  sources = map (λ e. (e.0, record e.1 { state_path = ""; name = named e.1.name e.0 })) t.sources;
  sinks = map (λ e. (e.0, record e.1 { name = named e.1.name e.0 })) t.sinks;
  routes = map (λ e. (e.0, record e.1 { state_dir = ""; name = named e.1.name e.0 })) t.routes;
}
