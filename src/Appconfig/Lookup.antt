-- ===== src/Appconfig/Lookup.antt =====
-- topology.go, instance_model.go: named and default entries of a topology.
use mime_crypt.Base.{String, none, some, [], ◌∷◌, if◌then◌else◌}
use mime_crypt.Base.Text.{◌+++◌, trim_space, is_blank}
use mime_crypt.Base.Assoc.{Assoc, lookup, has}
use mime_crypt.Base.Effect.{ok, err}
use mime_crypt.Mailflow.Errors.{Result, failed}
use mime_crypt.Appconfig.Topology.{Credential, Source, Sink, Route, Topology}

-- What CredentialConfig, SourceInstance, SinkInstance and RouteInstance share.
unfoldable pub entry : {V : Type 0} → String → String → Assoc V → Result V
unfolding is_blank trim_space lookup
entry what name m =
    if is_blank name then err (failed (what +++ " 未配置")) else elim (lookup (trim_space name) m) [
      | none ↦ err (failed (what +++ " 不存在: " +++ trim_space name))
      | some v ↦ ok v
    ]

unfoldable pub credential_config : Topology → String → Result Credential
unfolding entry
credential_config t name = entry "credential" name t.credentials

abbrev pub mapped : {A B : Type 0} → (A → B) → Result A → Result B
mapped f (ok a) = ok (f a)
mapped f (err e) = err e

-- Source.Configured and Route.Configured
abbrev pub configured_source : Source → Source
configured_source s = record s { state_path = "" }

abbrev pub configured_route : Route → Route
configured_route r = record r { state_dir = "" }

unfoldable pub source_instance : Topology → String → Result Source
unfolding entry
source_instance t name = mapped configured_source (entry "source" name t.sources)

unfoldable pub sink_instance : Topology → String → Result Sink
unfolding entry
sink_instance t name = entry "sink" name t.sinks

unfoldable pub route_instance : Topology → String → Result Route
unfolding entry
route_instance t name = mapped configured_route (entry "route" name t.routes)

unfoldable pub default_credential_config : Topology → Result Credential
unfolding credential_config is_blank trim_space
default_credential_config t =
    if is_blank t.default_credential
    then err (failed "default credential 未配置")
    else credential_config t (trim_space t.default_credential)

-- What the default source and the default route do with a name that is missing.
abbrev pub missing_default : {A : Type 0} → String → Result A → Result A
missing_default message (ok a) = ok a
missing_default message (err e) = err (failed message)

unfoldable pub default_source_config : Topology → Result Source
unfolding source_instance is_blank trim_space
default_source_config t =
    if is_blank t.default_source
    then err (failed "default source 未配置")
    else missing_default ("default source 不存在: " +++ trim_space t.default_source)
        (source_instance t (trim_space t.default_source))

unfoldable pub default_route_config : Topology → Result Route
unfolding route_instance is_blank trim_space
default_route_config t =
    if is_blank t.default_route
    then err (failed "default route 未配置")
    else missing_default ("default route 不存在: " +++ trim_space t.default_route)
        (route_instance t (trim_space t.default_route))

-- The reference that an instance without its own falls back to.
unfoldable pub only_credential : Assoc Credential → Result String
unfolding has trim_space
only_credential [] = ok ""
only_credential ((name, c) ∷ []) =
    if has "default" ((name, c) ∷ []) then ok "default" else ok (trim_space name)
only_credential (a ∷ b ∷ m) =
    if has "default" (a ∷ b ∷ m)
    then ok "default"
    else err (failed "topology 存在多个 credential，请显式设置 credential_ref 或 default_credential")

-- A name that is given: it must name a credential.
unfoldable pub named_credential : Topology → String → Result String
unfolding credential_config trim_space
named_credential t name = mapped (λ _. trim_space name) (credential_config t (trim_space name))

-- ResolveCredentialRef
unfoldable pub resolve_credential_ref : Topology → String → Result String
unfolding named_credential only_credential is_blank
resolve_credential_ref t explicit =
    if is_blank explicit
    then if is_blank t.default_credential
      then only_credential t.credentials
      else named_credential t t.default_credential
    else named_credential t explicit
