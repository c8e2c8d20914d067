-- ===== src/Appconfig/Topology.antt =====
-- topology.go, instance_model.go, credential_kind.go: the declared topology. A map is walked in the
-- order of its association list; a duration is a number.
use mime_crypt.Base.{
  ℕ, String, Bool, true, false, Option, none, some, List, [], ◌∷◌, ◌||◌, not, if◌then◌else◌,
}
use mime_crypt.Base.Text.{◌==◌, ◌+++◌, trim_space, is_blank, to_lower}
use mime_crypt.Base.Assoc.{Assoc, lookup, has}
use mime_crypt.Base.Lists.{is_nil}
use mime_crypt.Base.Effect.{ok, err}
use mime_crypt.Mailflow.Errors.{Result, Error, failed, wrapped}
use mime_crypt.Mailflow.Plan.{mem}

pub record Credential : Type 0 where
  pub name : String
  pub kind : String
  pub state_dir : String
  pub client_id : String
  pub tenant : String
  pub authority_base_url : String
  pub token_store : String
  pub keyring_service : String
  pub graph_scopes : List String
  pub ews_scopes : List String
  pub imap_scopes : List String
  pub imap_username : String
  pub graph_scopes_set : Bool
  pub ews_scopes_set : Bool
  pub imap_scopes_set : Bool

pub record Source : Type 0 where
  pub name : String
  pub driver : String
  pub mode : String
  pub credential_ref : String
  pub folder : String
  pub state_path : String
  pub include_existing : Bool
  pub poll_interval : ℕ
  pub cycle_timeout : ℕ
  pub driver_config : Option String

pub record Sink : Type 0 where
  pub name : String
  pub driver : String
  pub credential_ref : String
  pub output_dir : String
  pub folder : String
  pub verify : Bool

pub record RouteTarget : Type 0 where
  pub name : String
  pub sink_ref : String
  pub artifact : String
  pub required : Bool

pub record RouteDeletePolicy : Type 0 where
  pub enabled : Bool
  pub require_same_store : Bool
  pub eligible_sinks : List String

pub record Route : Type 0 where
  pub name : String
  pub source_refs : List String
  pub state_dir : String
  pub targets : List RouteTarget
  pub delete_source : RouteDeletePolicy

pub record Topology : Type 0 where
  pub credentials : Assoc Credential
  pub sources : Assoc Source
  pub sinks : Assoc Sink
  pub routes : Assoc Route
  pub default_credential : String
  pub default_source : String
  pub default_route : String

-- LookupCredentialKindSpec: whether the kind needs a remote revocation
unfoldable pub lookup_credential_kind_spec : String → Option Bool
unfolding lookup to_lower trim_space
lookup_credential_kind_spec kind =
    lookup (to_lower (trim_space kind)) (("oauth", true) ∷ ("shared-session", false) ∷ [])

unfoldable pub is_known_kind : String → Bool
unfolding lookup_credential_kind_spec
is_known_kind kind = elim (lookup_credential_kind_spec kind) [ none ↦ false | some _ ↦ true ]

-- Credential.Validate
unfoldable pub validate_credential : String → Credential → Result (Unit {0})
unfolding is_known_kind
validate_credential name c =
    if is_blank name
    then err (failed "credential name 不能为空")
    else if is_blank c.name
    then err (failed ("credential " +++ name +++ " 缺少 name"))
    else if not (trim_space c.name == trim_space name)
    then err (failed ("credential " +++ name +++ " 的 name 必须与配置键一致"))
    else if is_blank c.kind
    then err (failed ("credential " +++ name +++ " 缺少 kind"))
    else if not (is_known_kind c.kind)
    then err (failed ("credential " +++ name +++ " 不支持 kind: " +++ trim_space c.kind))
    else ok tt

-- A reference that is blank, or that names an entry.
unfoldable pub refers : {V : Type 0} → String → Assoc V → Bool
unfolding is_blank has trim_space
refers ref m = is_blank ref || has (trim_space ref) m

-- Source.Validate
unfoldable pub validate_source : Assoc Credential → String → Source → Result (Unit {0})
unfolding refers
validate_source credentials name s =
    if is_blank name
    then err (failed "source name 不能为空")
    else if is_blank s.name
    then err (failed ("source " +++ name +++ " 缺少 name"))
    else if not (trim_space s.name == trim_space name)
    then err (failed ("source " +++ name +++ " 的 name 必须与配置键一致"))
    else if is_blank s.driver
    then err (failed ("source " +++ name +++ " 缺少 driver"))
    else if is_blank s.mode
    then err (failed ("source " +++ name +++ " 缺少 mode"))
    else if not (refers s.credential_ref credentials)
    then err
        (failed ("source " +++ name +++ " 引用了不存在的 credential: " +++ trim_space s.credential_ref))
    else ok tt

-- Sink.Validate
unfoldable pub validate_sink : Assoc Credential → String → Sink → Result (Unit {0})
unfolding refers
validate_sink credentials name s =
    if is_blank name
    then err (failed "sink name 不能为空")
    else if is_blank s.name
    then err (failed ("sink " +++ name +++ " 缺少 name"))
    else if not (trim_space s.name == trim_space name)
    then err (failed ("sink " +++ name +++ " 的 name 必须与配置键一致"))
    else if is_blank s.driver
    then err (failed ("sink " +++ name +++ " 缺少 driver"))
    else if not (refers s.credential_ref credentials)
    then err (failed ("sink " +++ name +++ " 引用了不存在的 credential: " +++ trim_space s.credential_ref))
    else ok tt

-- RouteTarget.Key
unfoldable pub route_target_key : RouteTarget → String
unfolding trim_space is_blank
route_target_key t =
    trim_space t.sink_ref
    +++ ":"
    +++ (if is_blank t.artifact then "primary" else trim_space t.artifact)

-- RouteTarget.Validate
unfoldable pub validate_route_target : Assoc Sink → RouteTarget → Result (Unit {0})
unfolding is_blank has trim_space
validate_route_target sinks t =
    if is_blank t.sink_ref
    then err (failed "sink ref 不能为空")
    else if not (has (trim_space t.sink_ref) sinks)
    then err (failed ("不存在的 sink: " +++ t.sink_ref))
    else ok tt

-- The loops of Route.Validate over the source references and over the eligible sinks.
unfoldable pub check_refs :
    {V : Type 0} → (String → Error) → Assoc V → List String → Result (Unit {0})
unfolding has trim_space
check_refs missing m [] = ok tt
check_refs missing m (ref ∷ refs) =
    let rest = check_refs missing m refs in
    if has (trim_space ref) m then rest else err (missing ref)

-- Its loop over the targets: the keys seen so far, and whether a required target was.
unfoldable pub check_targets :
    String → Assoc Sink → List String → Bool → List RouteTarget → Result (Unit {0})
unfolding validate_route_target mem route_target_key
check_targets name sinks seen has_required [] =
    if has_required then ok tt else err (failed ("route " +++ name +++ " 至少需要一个 required target"))
check_targets name sinks seen has_required (t ∷ ts) = elim (validate_route_target sinks t) [
  | err e ↦ err (wrapped ("route " +++ name +++ " target 校验失败") e)
  | ok _ ↦
      let rest =
        check_targets name sinks (route_target_key t ∷ seen) (t.required || has_required) ts in
      if mem (route_target_key t) seen
      then err (failed ("route " +++ name +++ " 存在重复 target: " +++ route_target_key t))
      else rest
]

abbrev pub missing_sink : String → String → Error
missing_sink name ref = failed ("route " +++ name +++ " delete source 引用了不存在的 sink: " +++ ref)

-- What Route.Validate asks of the deletion of the source.
unfoldable pub check_delete_policy : String → Assoc Sink → RouteDeletePolicy → Result (Unit {0})
unfolding check_refs
check_delete_policy name sinks p =
    if not p.enabled
    then ok tt
    else if is_nil p.eligible_sinks
    then err (failed ("route " +++ name +++ " 启用 delete source 时必须声明 eligible sinks"))
    else check_refs (missing_sink name) sinks p.eligible_sinks
