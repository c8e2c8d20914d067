-- ===== src/Appconfig/Structure.antt =====
-- topology.go: the topologies that ValidateStructure and Validate accept, and the credential that a
-- reference resolves to.
use mime_crypt.Base.{
  ◌↔◌, String, Bool, true, false, Option, none, some, ◌≡◌, refl, ◌∙◌, ap, inl, inr, arith,
  Bool-cases, if◌then◌else◌,
}
use mime_crypt.Base.Text.{trim_space, is_blank, is_empty}
use mime_crypt.Base.Assoc.{Assoc, has}
use mime_crypt.Base.Lists.{All, is_nil}
use mime_crypt.Base.Effect.{ok, err}
use mime_crypt.Mailflow.Errors.{Result, Error}
use mime_crypt.Appconfig.Topology.{refers, validate_credential, validate_source, validate_sink}
use mime_crypt.Appconfig.Validate.{after, validate_route}
use mime_crypt.Base.{is_some}
use mime_crypt.Base.Text.{trim_space-trim_space}
use mime_crypt.Base.Assoc.{lookup}
use mime_crypt.Appconfig.Topology.{Topology}
use mime_crypt.Appconfig.Lookup.{
  entry, credential_config, source_instance, route_instance, default_credential_config,
  default_source_config, default_route_config, mapped, missing_default, configured_source,
  configured_route,
}
use mime_crypt.Appconfig.Validate.{validate_structure, check_default}
use mime_crypt.Appconfig.Entries.{
  IsValidCredential, IsValidSource, IsValidSink, validate_credential_iff, validate_source_iff,
  validate_sink_iff,
}
use mime_crypt.Appconfig.Routes.{
  IsValidRoute, validate_route_iff, check_all_iff, after_iff, guard_iff,
}

-- The references between the entries of a topology are whole, and each entry is well formed.
pub record IsValidStructure (t : Topology) : Type 0 where
  pub some_source : is_nil t.sources ≡ false
  pub some_route : is_nil t.routes ≡ false
  pub default_credential : refers t.default_credential t.credentials ≡ true
  pub default_source : refers t.default_source t.sources ≡ true
  pub default_route : refers t.default_route t.routes ≡ true
  pub credentials : All (λ e. IsValidCredential e.0 e.1) t.credentials
  pub sources : All (λ e. IsValidSource t.credentials e.0 e.1) t.sources
  pub sinks : All (λ e. IsValidSink t.credentials e.0 e.1) t.sinks
  pub routes : All (λ e. IsValidRoute t.sources t.sinks e.0 e.1) t.routes

is_blank-trim_space : (s : String) → is_blank (trim_space s) ≡ is_blank s
unfolding is_blank
is_blank-trim_space s = ap is_empty (trim_space-trim_space s)

entry_ok : {V : Type 0} → Result V → Bool
entry_ok (ok v) = true
entry_ok (err e) = false

found_ok :
    {V : Type 0} (e : Error) (o : Option V)
    → entry_ok (elim o as (λ _. Result V) [ none ↦ err e | some v ↦ ok v ]) ≡ is_some o
unfolding entry_ok
found_ok e none = refl
found_ok e (some v) = refl

mapped_ok : {A B : Type 0} (f : A → B) (r : Result A) → entry_ok (mapped f r) ≡ entry_ok r
unfolding entry_ok
mapped_ok f (ok a) = refl
mapped_ok f (err e) = refl

default_ok : {A : Type 0} (m : String) (r : Result A) → entry_ok (missing_default m r) ≡ entry_ok r
unfolding entry_ok
default_ok m (ok a) = refl
default_ok m (err e) = refl

-- A lookup succeeds for a name that stands in the map.
entry-has :
    {V : Type 0} (what name : String) (m : Assoc V)
    → is_blank name ≡ false
    → entry_ok (entry what (trim_space name) m) ≡ has (trim_space name) m
unfolding entry has
entry-has what name m h =
    rw (is_blank-trim_space name, h, if◌then◌else◌)
      (found_ok _ (lookup (trim_space (trim_space name)) m)
        ∙ ap (λ k. is_some (lookup k m)) (trim_space-trim_space name))

credential_has :
    (t : Topology)
    → is_blank t.default_credential ≡ false
    → entry_ok (default_credential_config t) ≡ has (trim_space t.default_credential) t.credentials
unfolding default_credential_config credential_config
credential_has t h =
    rw (h, if◌then◌else◌) (entry-has "credential" t.default_credential t.credentials h)

source_has :
    (t : Topology)
    → is_blank t.default_source ≡ false
    → entry_ok (default_source_config t) ≡ has (trim_space t.default_source) t.sources
unfolding default_source_config source_instance
source_has t h =
    rw (h, if◌then◌else◌)
      (default_ok _
          (mapped configured_source (entry "source" (trim_space t.default_source) t.sources))
        ∙ (mapped_ok configured_source (entry "source" (trim_space t.default_source) t.sources)
            ∙ entry-has "source" t.default_source t.sources h))

route_has :
    (t : Topology)
    → is_blank t.default_route ≡ false
    → entry_ok (default_route_config t) ≡ has (trim_space t.default_route) t.routes
unfolding default_route_config route_instance
route_has t h =
    rw (h, if◌then◌else◌)
      (default_ok _ (mapped configured_route (entry "route" (trim_space t.default_route) t.routes))
        ∙ (mapped_ok configured_route (entry "route" (trim_space t.default_route) t.routes)
            ∙ entry-has "route" t.default_route t.routes h))

after_found : {A : Type 0} (r : Result A) → (after r (ok tt) ≡ ok tt) ↔ (entry_ok r ≡ true)
unfolding entry_ok
after_found (ok a) = ((λ h. refl), (λ h. refl))
after_found (err e) = ((λ h. cc), (λ h. cc))

-- A default is accepted if it is blank or names an entry.
default_iff :
    {A V : Type 0} (name : String) (r : Result A) (m : Assoc V)
    → (is_blank name ≡ false → entry_ok r ≡ has (trim_space name) m)
    → (check_default name r ≡ ok tt) ↔ (refers name m ≡ true)
unfolding refers
default_iff name r m h = elim (Bool-cases (is_blank name)) [
  | inl blank ↦ ((λ _. ground arith), (λ _. rw (blank, if◌then◌else◌) refl))
  | inr full ↦ (
    (λ p.
        let q = (after_found r).0 (rw (full, if◌then◌else◌) at p) in
        let g = h full in ground arith),
    (λ p. let g = h full in rw (full, if◌then◌else◌) ((after_found r).1 (g ∙ ground arith))),
  )
]

structure_parts :
    (t : Topology)
    → (validate_structure t ≡ ok tt) ↔ (
        (is_nil t.sources ≡ false)
        × ((is_nil t.routes ≡ false)
            × ((refers t.default_credential t.credentials ≡ true)
                × ((refers t.default_source t.sources ≡ true)
                    × ((refers t.default_route t.routes ≡ true)
                        × (All (λ e. IsValidCredential e.0 e.1) t.credentials
                            × (All (λ e. IsValidSource t.credentials e.0 e.1) t.sources
                                × (All (λ e. IsValidSink t.credentials e.0 e.1) t.sinks
                                    × All
                                        (λ e. IsValidRoute t.sources t.sinks e.0 e.1)
                                        t.routes))))))))
unfolding validate_structure
structure_parts t = guard_iff (is_nil t.sources) _ _ (
    guard_iff (is_nil t.routes) _ _ (
      after_iff _ _
        (default_iff t.default_credential (default_credential_config t) t.credentials
          (credential_has t))
        (after_iff _ _
          (default_iff t.default_source (default_source_config t) t.sources (source_has t))
          (after_iff _ _
            (default_iff t.default_route (default_route_config t) t.routes (route_has t))
            (after_iff _ _
              (check_all_iff validate_credential IsValidCredential t.credentials
                validate_credential_iff)
              (after_iff _ _
                (check_all_iff (validate_source t.credentials) (IsValidSource t.credentials)
                  t.sources (validate_source_iff t.credentials))
                (after_iff _ _
                  (check_all_iff (validate_sink t.credentials) (IsValidSink t.credentials) t.sinks
                    (validate_sink_iff t.credentials))
                  (check_all_iff (validate_route t.sources t.sinks) (IsValidRoute t.sources t.sinks)
                    t.routes (validate_route_iff t.sources t.sinks)))))))))

-- Topology.ValidateStructure accepts a topology exactly when it has a source and a route, the
-- defaults are blank or exist, and every entry is valid: its name agrees with its key, its kind is
-- known or its driver and mode are set, each source, sink and credential that it refers to exists,
-- a route has a source and a target, its targets have distinct keys and one of them is required,
-- and an enabled deletion names a sink.
pub validate_structure_iff : (t : Topology) → (validate_structure t ≡ ok tt) ↔ IsValidStructure t
validate_structure_iff t = (
  (λ h.
      let (a, (b, (c, (d, (e, (f, (g, (k, l)))))))) = (structure_parts t).0 h in
      record {
        some_source = a;
        some_route = b;
        default_credential = c;
        default_source = d;
        default_route = e;
        credentials = f;
        sources = g;
        sinks = k;
        routes = l;
      }),
  (λ v. (structure_parts t).1 (
    v.some_source,
    (
      v.some_route,
      (
        v.default_credential,
        (v.default_source, (v.default_route, (v.credentials, (v.sources, (v.sinks, v.routes))))),
      ),
    ),
  )),
)
