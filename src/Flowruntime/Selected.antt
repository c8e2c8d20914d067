-- ===== src/Flowruntime/Selected.antt =====
-- plan.go: what the selection of the sources gives.
use mime_crypt.Base.{
  String, Bool, true, false, List, [], ◌∷◌, ◌≡◌, refl, ◌∙◌, arith, ◌||◌, not, if◌then◌else◌,
  if_rule,
}
use mathlib.Core.Path.{subst}
use mime_crypt.Base.Text.{
  ◌==◌, eq_iff, trim_space, is_blank, is_blank-trim_space, trim_space-trim_space,
}
use mime_crypt.Base.Lists.{All, All-mono, is_nil, any}
use mime_crypt.Base.Effect.{ok, ok_inj}
use mime_crypt.Mailflow.Errors.{Result}
use mime_crypt.Mailflow.Plan.{mem}
use mime_crypt.Mailflow.Plan.Valid.{Distinct}
use mime_crypt.Appconfig.Topology.{Route, Topology}
use mime_crypt.Appconfig.Lookup.{mapped}
use mime_crypt.Appconfig.Names.{full_parts}
use mime_crypt.Flowruntime.Select.{
  RoutePlanMode, single_source, all_sources, infer_single_name, route_contains_source,
  infer_default_source_for_route, new_refs, only, some_names, default_route_source,
  sources_for_mode, select_route_sources,
}

abbrev Named : List String → String → Type 0
Named refs name =
    (is_blank name ≡ false) × (any (λ ref. trim_space ref == trim_space name) refs ≡ true)

-- The names are not none, not blank, each refers to a source of the route, and none stands twice.
abbrev pub Chosen : Route → List String → Type 0
Chosen r names =
    (is_nil names ≡ false)
    × All (λ name. (is_blank name ≡ false) × (route_contains_source r name ≡ true)) names
    × Distinct [] names

Named-later :
    (ref : String) (refs : List String) (name : String) → Named refs name → Named (ref ∷ refs) name
unfolding any
Named-later ref refs name h = (h.0, ground arith)

Named-first :
    (ref : String) (refs : List String) → is_blank ref ≡ false → Named (ref ∷ refs) (trim_space ref)
unfolding any
Named-first ref refs h = (
  is_blank-trim_space ref ∙ h,
  ground (arith, eq_iff (trim_space ref) (trim_space (trim_space ref)), trim_space-trim_space ref),
)

full_parts-Named : (refs : List String) → All (Named refs) (full_parts refs)
unfolding full_parts
full_parts-Named [] = tt
full_parts-Named (ref ∷ refs) =
    let rest =
      All-mono (Named refs) (Named (ref ∷ refs)) (full_parts refs) (Named-later ref refs)
        (full_parts-Named refs) in
    if_rule (All (Named (ref ∷ refs))) (is_blank ref) (λ _. rest)
      (λ full. (Named-first ref refs full, rest))

or_false : (a b : Bool) → (a || b) ≡ false → (a ≡ false) × (b ≡ false)
or_false a b h = ground arith

new_refs-Named : (seen refs : List String) → All (Named refs) (new_refs seen refs)
unfolding new_refs
new_refs-Named seen [] = tt
new_refs-Named seen (ref ∷ refs) =
    let skipped = is_blank ref || mem (trim_space ref) seen in
    let next = if skipped then seen else trim_space ref ∷ seen in
    let rest =
      All-mono (Named refs) (Named (ref ∷ refs)) (new_refs next refs) (Named-later ref refs)
        (new_refs-Named next refs) in
    if_rule (All (Named (ref ∷ refs))) (is_blank ref || mem (trim_space ref) seen) (λ _. rest)
      (λ kept.
        (Named-first ref refs ((or_false (is_blank ref) (mem (trim_space ref) seen) kept).0), rest))

new_refs-Distinct : (seen refs : List String) → Distinct seen (new_refs seen refs)
unfolding new_refs
new_refs-Distinct seen [] = tt
new_refs-Distinct seen (ref ∷ refs) =
    go (λ next. new_refs-Distinct next refs) (is_blank ref || mem (trim_space ref) seen) refl
  where
    go :
        ((next : List String) → Distinct next (new_refs next refs))
        → (b : Bool) → (is_blank ref || mem (trim_space ref) seen) ≡ b
        → Distinct seen (
            if b
            then new_refs (if b then seen else trim_space ref ∷ seen) refs
            else trim_space ref ∷ new_refs (if b then seen else trim_space ref ∷ seen) refs)
    go rest true e = rest seen
    go rest false e =
        ((or_false (is_blank ref) (mem (trim_space ref) seen) e).1, rest (trim_space ref ∷ seen))

not-true : (b : Bool) → not b ≡ true → b ≡ false
not-true true h = cc
not-true false h = refl

not-false : (b : Bool) → not b ≡ false → b ≡ true
not-false true h = refl
not-false false h = cc

one-Chosen :
    (r : Route) (name : String)
    → is_blank name ≡ false
    → route_contains_source r name ≡ true
    → Chosen r (name ∷ [])
one-Chosen r name full there = (refl, ((full, there), tt), (unfold mem in refl, tt))

only-Chosen :
    (r : Route) (name : String) (names : List String)
    → is_blank name ≡ false
    → only r name ≡ ok names
    → Chosen r names
only-Chosen r name names full =
    if_rule (λ (x : Result (List String)). x ≡ ok names → Chosen r names)
      (not (route_contains_source r name)) (λ _ h. cc)
      (λ there h. subst (Chosen r) (ok_inj h) (one-Chosen r name full (not-false _ there)))

inferred-Chosen :
    (r : Route) (parts names : List String)
    → All (Named r.source_refs) parts
    → mapped (λ name. name ∷ []) (infer_single_name "source" parts) ≡ ok names
    → Chosen r names
unfolding infer_single_name route_contains_source
inferred-Chosen r [] names n h = cc
inferred-Chosen r (a ∷ []) names n h = subst (Chosen r) (ok_inj h) (one-Chosen r a (n.0.0) (n.0.1))
inferred-Chosen r (a ∷ b ∷ parts) names n h = cc

all-Chosen :
    (r : Route) (found names : List String)
    → All (Named r.source_refs) found
    → Distinct [] found
    → some_names r found ≡ ok names
    → Chosen r names
unfolding route_contains_source
all-Chosen r [] names n d h = cc
all-Chosen r (a ∷ found) names n d h = subst (Chosen r) (ok_inj h) (refl, n, d)

default-Chosen :
    (t : Topology) (r : Route) (names : List String)
    → default_route_source t r ≡ ok names
    → Chosen r names
unfolding default_route_source infer_default_source_for_route
default-Chosen t r names =
    if_rule (λ (x : Result (List String)). x ≡ ok names → Chosen r names)
      (not (is_blank t.default_source))
      (λ full h.
        only-Chosen r (trim_space t.default_source) names
          (is_blank-trim_space t.default_source ∙ not-true _ full) h)
      (λ _ h. inferred-Chosen r (full_parts r.source_refs) names (full_parts-Named r.source_refs) h)

mode-Chosen :
    (t : Topology) (r : Route) (mode : RoutePlanMode) (names : List String)
    → sources_for_mode t r mode ≡ ok names
    → Chosen r names
unfolding sources_for_mode
mode-Chosen t r single_source names h = default-Chosen t r names h
mode-Chosen t r all_sources names h =
    all-Chosen r (new_refs [] r.source_refs) names (new_refs-Named [] r.source_refs)
      (new_refs-Distinct [] r.source_refs) h

-- The sources that are selected for a route are not none, each is a source of the route and has a
-- name that is not blank, and none is selected twice; in every mode, and with or without an explicit
-- source and a default.
pub select_route_sources-Chosen :
    (t : Topology) (r : Route) (source_name : String) (mode : RoutePlanMode) (names : List String)
    → select_route_sources t r source_name mode ≡ ok names
    → Chosen r names
unfolding select_route_sources
select_route_sources-Chosen t r source_name mode names =
    if_rule (λ (x : Result (List String)). x ≡ ok names → Chosen r names)
      (not (is_blank source_name))
      (λ full h.
        only-Chosen r (trim_space source_name) names
          (is_blank-trim_space source_name ∙ not-true _ full) h)
      (λ _ h. mode-Chosen t r mode names h)
