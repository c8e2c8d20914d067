-- ===== src/Flowruntime/Select.antt =====
-- plan.go: which route and which of its sources a command runs.
use mime_crypt.Base.{String, Bool, List, [], ◌∷◌, ◌||◌, if◌then◌else◌, map, not}
use mime_crypt.Base.Text.{◌+++◌, ◌==◌, trim_space, is_blank}
use mime_crypt.Base.Assoc.{Assoc}
use mime_crypt.Base.Lists.{any}
use mime_crypt.Base.Effect.{ok, err}
use mime_crypt.Mailflow.Errors.{Result, failed}
use mime_crypt.Mailflow.Plan.{mem}
use mime_crypt.Appconfig.Topology.{Route, Topology}
use mime_crypt.Appconfig.Lookup.{mapped}
use mime_crypt.Appconfig.Names.{full_parts}

pub data RoutePlanMode : Type 0 where
  single_source all_sources : RoutePlanMode

pub record Selector : Type 0 where
  pub source_name : String
  pub route_name : String

unfoldable pub infer_single_name : String → List String → Result String
infer_single_name kind [] = err (failed ("topology 至少需要一个 " +++ kind))
infer_single_name kind (name ∷ []) = ok name
infer_single_name kind (a ∷ b ∷ names) =
    err (failed ("topology 存在多个 " +++ kind +++ "，请显式指定 --" +++ kind))

-- topologySourceNames and topologyRouteNames
abbrev pub entry_names : {V : Type 0} → Assoc V → List String
entry_names m = map (λ e. trim_space e.0) m

unfoldable pub select_source_name : Topology → String → Result String
unfolding infer_single_name is_blank trim_space
select_source_name t explicit =
    if not (is_blank explicit)
    then ok (trim_space explicit)
    else if not (is_blank t.default_source)
    then ok (trim_space t.default_source)
    else infer_single_name "source" (entry_names t.sources)

unfoldable pub select_route_name : Topology → String → Result String
unfolding infer_single_name is_blank trim_space
select_route_name t explicit =
    if not (is_blank explicit)
    then ok (trim_space explicit)
    else if not (is_blank t.default_route)
    then ok (trim_space t.default_route)
    else infer_single_name "route" (entry_names t.routes)

unfoldable pub route_contains_source : Route → String → Bool
unfolding any trim_space
route_contains_source r name = any (λ ref. trim_space ref == trim_space name) r.source_refs

unfoldable pub infer_default_source_for_route : Route → Result String
unfolding infer_single_name full_parts
infer_default_source_for_route r = infer_single_name "source" (full_parts r.source_refs)

-- The loop over the references for all sources: those that are not blank and not seen yet
unfoldable pub new_refs : List String → List String → List String
unfolding mem is_blank trim_space
new_refs seen [] = []
new_refs seen (ref ∷ refs) =
    let skipped = is_blank ref || mem (trim_space ref) seen in
    let rest = new_refs (if skipped then seen else trim_space ref ∷ seen) refs in
    if skipped then rest else trim_space ref ∷ rest

abbrev pub only : Route → String → Result (List String)
only r name =
    if not (route_contains_source r name)
    then err (failed ("route " +++ r.name +++ " 不包含 source " +++ name))
    else ok (name ∷ [])

abbrev pub some_names : Route → List String → Result (List String)
some_names r [] = err (failed ("route " +++ r.name +++ " 至少需要一个 source"))
some_names r (name ∷ names) = ok (name ∷ names)

unfoldable pub default_route_source : Topology → Route → Result (List String)
unfolding route_contains_source infer_default_source_for_route is_blank trim_space
default_route_source t r =
    if not (is_blank t.default_source)
    then only r (trim_space t.default_source)
    else mapped (λ name. name ∷ []) (infer_default_source_for_route r)

unfoldable pub sources_for_mode : Topology → Route → RoutePlanMode → Result (List String)
unfolding default_route_source new_refs
sources_for_mode t r single_source = default_route_source t r
sources_for_mode t r all_sources = some_names r (new_refs [] r.source_refs)

unfoldable pub select_route_sources :
    Topology → Route → String → RoutePlanMode → Result (List String)
unfolding sources_for_mode route_contains_source is_blank trim_space
select_route_sources t r source_name mode =
    if not (is_blank source_name)
    then only r (trim_space source_name)
    else sources_for_mode t r mode
