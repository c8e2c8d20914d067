-- ===== src/Appconfig/Routes.antt =====
-- topology.go: the routes that Route.Validate accepts.
use mime_crypt.Base.{
  ◌↔◌, String, Bool, true, false, List, [], ◌∷◌, ◌≡◌, refl, ◌⊎◌, inl, inr, arith, Bool-cases, ◌||◌,
  not, if◌then◌else◌, map,
}
use mime_crypt.Base.Text.{◌==◌, eq_iff, trim_space, is_blank}
use mime_crypt.Base.Assoc.{Assoc, has}
use mime_crypt.Base.Lists.{All, is_nil, any}
use mime_crypt.Base.Effect.{ok, err}
use mime_crypt.Mailflow.Errors.{Result, Error}
use mime_crypt.Mailflow.Plan.Valid.{Distinct}
use mime_crypt.Appconfig.Topology.{
  Source, Sink, Route, RouteTarget, RouteDeletePolicy, validate_route_target, route_target_key,
  missing_sink, check_refs, check_targets, check_delete_policy,
}
use mime_crypt.Appconfig.Validate.{after, check_all, validate_route}
use mime_crypt.Appconfig.Entries.{IsNamed, named-is_blank}

-- Each reference names an entry.
abbrev pub AllExist : {V : Type 0} → Assoc V → List String → Type 0
AllExist m refs = All (λ ref. has (trim_space ref) m ≡ true) refs

abbrev pub TargetExists : Assoc Sink → RouteTarget → Type 0
TargetExists sinks t = (is_blank t.sink_ref ≡ false) × (has (trim_space t.sink_ref) sinks ≡ true)

abbrev pub target_required : RouteTarget → Bool
target_required t = t.required

abbrev pub IsValidPolicy : Assoc Sink → RouteDeletePolicy → Type 0
IsValidPolicy sinks p =
    (p.enabled ≡ false) ⊎ ((is_nil p.eligible_sinks ≡ false) × AllExist sinks p.eligible_sinks)

pub record IsValidRoute (sources : Assoc Source) (sinks : Assoc Sink) (key : String) (r : Route)
    : Type 0 where
  pub is_named : IsNamed key r.name
  pub some_source : is_nil r.source_refs ≡ false
  pub sources_exist : AllExist sources r.source_refs
  pub some_target : is_nil r.targets ≡ false
  pub sinks_exist : All (TargetExists sinks) r.targets
  pub keys_distinct : Distinct [] (map route_target_key r.targets)
  pub some_required : any target_required r.targets ≡ true
  pub policy_valid : IsValidPolicy sinks r.delete_source

check_refs_iff :
    {V : Type 0} (missing : String → Error) (m : Assoc V) (refs : List String)
    → (check_refs missing m refs ≡ ok tt) ↔ AllExist m refs
unfolding check_refs
check_refs_iff missing m [] = ((λ h. tt), (λ h. refl))
check_refs_iff missing m (ref ∷ refs) = (
  (λ h. ground (arith, check_refs_iff missing m refs)),
  (λ h. ground (arith, check_refs_iff missing m refs)),
)

abbrev Accepts : Assoc Sink → List String → Bool → List RouteTarget → Type 0
Accepts sinks seen r ts =
    All (TargetExists sinks) ts
    × Distinct seen (map route_target_key ts)
    × ((r || any target_required ts) ≡ true)

check_targets_sound :
    (name : String) (sinks : Assoc Sink) (seen : List String) (r : Bool) (ts : List RouteTarget)
    → check_targets name sinks seen r ts ≡ ok tt
    → Accepts sinks seen r ts
unfolding check_targets validate_route_target any
check_targets_sound name sinks seen r [] h = (tt, tt, ground arith)
check_targets_sound name sinks seen r (t ∷ ts) h =
    ground (arith, check_targets_sound name sinks (route_target_key t ∷ seen) (t.required || r) ts)

check_targets_complete :
    (name : String) (sinks : Assoc Sink) (seen : List String) (r : Bool) (ts : List RouteTarget)
    → Accepts sinks seen r ts
    → check_targets name sinks seen r ts ≡ ok tt
unfolding check_targets validate_route_target any
check_targets_complete name sinks seen r [] h = ground arith
check_targets_complete name sinks seen r (t ∷ ts) h =
    ground
      (arith, check_targets_complete name sinks (route_target_key t ∷ seen) (t.required || r) ts)

check_delete_policy_iff :
    (name : String) (sinks : Assoc Sink) (p : RouteDeletePolicy)
    → (check_delete_policy name sinks p ≡ ok tt) ↔ IsValidPolicy sinks p
unfolding check_delete_policy
check_delete_policy_iff name sinks p = (
  (λ h. elim (Bool-cases p.enabled) [
    | inl on ↦ inr (ground (arith, check_refs_iff (missing_sink name) sinks p.eligible_sinks))
    | inr off ↦ inl off
  ]),
  (λ v. ground (arith, check_refs_iff (missing_sink name) sinks p.eligible_sinks)),
)

after-inv : (r k : Result (Unit {0})) → after r k ≡ ok tt → (r ≡ ok tt) × (k ≡ ok tt)
after-inv (ok a) k h = (refl, h)
after-inv (err e) k h = cc

after-ok : (r k : Result (Unit {0})) → r ≡ ok tt → k ≡ ok tt → after r k ≡ ok tt
after-ok (ok a) k h g = g
after-ok (err e) k h g = cc

pub after_iff :
    {P Q : Type 0} (r k : Result (Unit {0}))
    → (r ≡ ok tt) ↔ P
    → (k ≡ ok tt) ↔ Q
    → (after r k ≡ ok tt) ↔ (P × Q)
after_iff r k p q =
    ((λ h. let (a, b) = after-inv r k h in (p.0 a, q.0 b)), (λ v. after-ok r k (p.1 v.0) (q.1 v.1)))

-- A guard of a chain of returns.
pub guard_iff :
    {P : Type 0} (b : Bool) (e : Error) (k : Result (Unit {0}))
    → (k ≡ ok tt) ↔ P
    → ((if b then err e else k) ≡ ok tt) ↔ ((b ≡ false) × P)
guard_iff true e k p = ((λ h. cc), (λ v. cc))
guard_iff false e k p = ((λ h. (refl, p.0 h)), (λ v. p.1 v.1))

check_targets_iff :
    (name : String) (sinks : Assoc Sink) (ts : List RouteTarget)
    → (check_targets name sinks [] false ts ≡ ok tt) ↔ Accepts sinks [] false ts
check_targets_iff name sinks ts =
    (check_targets_sound name sinks [] false ts, check_targets_complete name sinks [] false ts)

not_eq_false : (b : Bool) → not b ≡ false → b ≡ true
not_eq_false b h = ground arith

route_parts :
    (sources : Assoc Source) (sinks : Assoc Sink) (key : String) (r : Route)
    → (validate_route sources sinks key r ≡ ok tt) ↔ (
        (is_blank key ≡ false)
        × ((is_blank r.name ≡ false)
            × ((not (trim_space r.name == trim_space key) ≡ false)
                × ((is_nil r.source_refs ≡ false)
                    × (AllExist sources r.source_refs
                        × ((is_nil r.targets ≡ false)
                            × (Accepts sinks [] false r.targets
                                × IsValidPolicy sinks r.delete_source)))))))
unfolding validate_route
route_parts sources sinks key r = guard_iff (is_blank key) _ _ (
    guard_iff (is_blank r.name) _ _ (
      guard_iff (not (trim_space r.name == trim_space key)) _ _ (
        guard_iff (is_nil r.source_refs) _ _ (
          after_iff _ _ (check_refs_iff _ sources r.source_refs) (
            guard_iff (is_nil r.targets) _ _ (
              after_iff _ _ (check_targets_iff key sinks r.targets)
                (check_delete_policy_iff key sinks r.delete_source)))))))

pub validate_route_iff :
    (sources : Assoc Source) (sinks : Assoc Sink) (key : String) (r : Route)
    → (validate_route sources sinks key r ≡ ok tt) ↔ IsValidRoute sources sinks key r
validate_route_iff sources sinks key r = (
  (λ h.
      let (a, (b, (c, (d, (e, (f, ((g, k, l), m))))))) = (route_parts sources sinks key r).0 h in
      record {
        is_named = (a, (eq_iff (trim_space r.name) (trim_space key)).0 (not_eq_false _ c));
        some_source = d;
        sources_exist = e;
        some_target = f;
        sinks_exist = g;
        keys_distinct = k;
        some_required = l;
        policy_valid = m;
      }),
  (λ v. (route_parts sources sinks key r).1 (
    v.is_named.0,
    (
      named-is_blank key r.name v.is_named,
      (
        rw ((eq_iff (trim_space r.name) (trim_space key)).1 v.is_named.1) refl,
        (
          v.some_source,
          (
            v.sources_exist,
            (v.some_target, ((v.sinks_exist, v.keys_distinct, v.some_required), v.policy_valid)),
          ),
        ),
      ),
    ),
  )),
)

pub check_all_iff :
    {V : Type 0} (f : String → V → Result (Unit {0})) (P : String → V → Type 0) (m : Assoc V)
    → ((key : String) (v : V) → (f key v ≡ ok tt) ↔ P key v)
    → (check_all f m ≡ ok tt) ↔ All (λ e. P e.0 e.1) m
unfolding check_all
check_all_iff f P [] p = ((λ h. tt), (λ h. refl))
check_all_iff f P ((key, v) ∷ m) p =
    after_iff (f key v) (check_all f m) (p key v) (check_all_iff f P m p)
