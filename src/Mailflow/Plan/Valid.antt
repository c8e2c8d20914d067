-- ===== src/Mailflow/Plan/Valid.antt =====
-- types.go, ExecutionPlan.Validate: the plans that it accepts, and the plans that
-- reflect.DeepEqual holds for equal.
use mime_crypt.Base.{
  String, Bool, true, false, Option, none, some, List, [], ◌∷◌, ◌≡◌, refl, inl, inr, ◌↔◌, arith,
  Bool-cases, and_true, true_and, ◌||◌, if◌then◌else◌, map, ap,
}
use mathlib.Core.Path.{ap₂}
use mime_crypt.Base.Text.{eq_iff, is_blank}
use mime_crypt.Base.Effect.{ok}
use mime_crypt.Base.Lists.{All, is_nil, any}
use mime_crypt.Mailflow.Types.{DeliveryTarget, ExecutionPlan, DeleteSourcePolicy}
use mime_crypt.Mailflow.Plan.{
  target_key, mem, validate_targets, validate_plan, bool_eq, strings_eq, slice_eq, target_eq,
  targets_eq, policy_eq, plan_eq,
}

-- No key stands twice, nor among the keys of the first list.
abbrev pub Distinct : List String → List String → Type 0
Distinct seen [] = Unit
Distinct seen (k ∷ ks) = (mem k seen ≡ false) × Distinct (k ∷ seen) ks

abbrev pub is_required : DeliveryTarget → Bool
is_required t = t.required

pub record IsValidPlan (p : ExecutionPlan) : Type 0 where
  pub some_target : is_nil p.targets ≡ false
  pub consumers_named : All (λ (t : DeliveryTarget). is_blank t.consumer ≡ false) p.targets
  pub keys_distinct : Distinct [] (map target_key p.targets)
  pub some_required : any is_required p.targets ≡ true

abbrev Accepts : List String → Bool → List DeliveryTarget → Type 0
Accepts seen r ts =
    All (λ (t : DeliveryTarget). is_blank t.consumer ≡ false) ts
    × Distinct seen (map target_key ts)
    × ((r || any is_required ts) ≡ true)

validate_targets_sound :
    (seen : List String) (r : Bool) (ts : List DeliveryTarget)
    → validate_targets seen r ts ≡ ok tt
    → Accepts seen r ts
unfolding validate_targets any
validate_targets_sound seen r [] h = (tt, tt, ground arith)
validate_targets_sound seen r (t ∷ ts) h =
    ground (arith, validate_targets_sound (target_key t ∷ seen) (t.required || r) ts)

validate_targets_complete :
    (seen : List String) (r : Bool) (ts : List DeliveryTarget)
    → Accepts seen r ts
    → validate_targets seen r ts ≡ ok tt
unfolding validate_targets any
validate_targets_complete seen r [] h = ground arith
validate_targets_complete seen r (t ∷ ts) h =
    ground (arith, validate_targets_complete (target_key t ∷ seen) (t.required || r) ts)

validate_plan-inv :
    (p : ExecutionPlan)
    → validate_plan p ≡ ok tt
    → (is_nil p.targets ≡ false) × (validate_targets [] false p.targets ≡ ok tt)
unfolding validate_plan
validate_plan-inv p h = elim (Bool-cases (is_nil p.targets)) [
  | inl empty ↦ cc (rw (empty, if◌then◌else◌) at h)
  | inr full ↦ (full, rw (full, if◌then◌else◌) at h)
]

-- ExecutionPlan.Validate accepts a plan exactly when it has a target, every target names a
-- consumer, no two targets have the same key, and some target is required.
pub validate_plan_iff : (p : ExecutionPlan) → (validate_plan p ≡ ok tt) ↔ IsValidPlan p
unfolding validate_plan
validate_plan_iff p = (
  (λ h.
      let (full, passed) = validate_plan-inv p h in
      let a = validate_targets_sound [] false p.targets passed in
      record {
        some_target = full;
        consumers_named = a.0;
        keys_distinct = a.1;
        some_required = a.2;
      }),
  (λ v. rw (v.some_target) (
      validate_targets_complete [] false p.targets
        (v.consumers_named, v.keys_distinct, v.some_required))),
)

bool_eq-eq : (a b : Bool) → bool_eq a b ≡ true → a ≡ b
unfolding bool_eq
bool_eq-eq a b h = ground arith

bool_eq_refl : (a : Bool) → bool_eq a a ≡ true
unfolding bool_eq
bool_eq_refl a = ground arith

strings_eq-eq : (xs ys : List String) → strings_eq xs ys ≡ true → xs ≡ ys
unfolding strings_eq
strings_eq-eq [] [] h = refl
strings_eq-eq (x ∷ xs) (y ∷ ys) h = ground (arith, strings_eq-eq xs ys, eq_iff x y)
strings_eq-eq [] (y ∷ ys) h = cc
strings_eq-eq (x ∷ xs) [] h = cc

strings_eq_refl : (xs : List String) → strings_eq xs xs ≡ true
unfolding strings_eq
strings_eq_refl [] = refl
strings_eq_refl (x ∷ xs) = ground (arith, strings_eq_refl xs, eq_iff x x)

slice_eq-eq : (a b : Option (List String)) → slice_eq a b ≡ true → a ≡ b
unfolding slice_eq
slice_eq-eq none none h = refl
slice_eq-eq (some x) (some y) h = ap some (strings_eq-eq x y h)
slice_eq-eq none (some y) h = cc
slice_eq-eq (some x) none h = cc

slice_eq_refl : (a : Option (List String)) → slice_eq a a ≡ true
unfolding slice_eq
slice_eq_refl none = refl
slice_eq_refl (some xs) = strings_eq_refl xs

target_eq-eq : (a b : DeliveryTarget) → target_eq a b ≡ true → a ≡ b
unfolding target_eq
target_eq-eq a b h = ground (
  arith,
  eq_iff a.name b.name,
  eq_iff a.consumer b.consumer,
  eq_iff a.artifact b.artifact,
  bool_eq-eq a.required b.required,
)

target_eq_refl : (a : DeliveryTarget) → target_eq a a ≡ true
unfolding target_eq
target_eq_refl a = ground (
  arith,
  eq_iff a.name a.name,
  eq_iff a.consumer a.consumer,
  eq_iff a.artifact a.artifact,
  bool_eq_refl a.required,
)

targets_eq-eq : (xs ys : List DeliveryTarget) → targets_eq xs ys ≡ true → xs ≡ ys
unfolding targets_eq
targets_eq-eq [] [] h = refl
targets_eq-eq (x ∷ xs) (y ∷ ys) h =
    let (a, b) = and_true (target_eq x y) (targets_eq xs ys) h in
    ap₂ ◌∷◌ (target_eq-eq x y a) (targets_eq-eq xs ys b)
targets_eq-eq [] (y ∷ ys) h = cc
targets_eq-eq (x ∷ xs) [] h = cc

targets_eq_refl : (xs : List DeliveryTarget) → targets_eq xs xs ≡ true
unfolding targets_eq
targets_eq_refl [] = refl
targets_eq_refl (x ∷ xs) = rw (target_eq_refl x) (targets_eq_refl xs)

policy_eq-eq : (a b : DeleteSourcePolicy) → policy_eq a b ≡ true → a ≡ b
unfolding policy_eq
policy_eq-eq a b h = ground (
  arith,
  bool_eq-eq a.enabled b.enabled,
  bool_eq-eq a.require_same_store b.require_same_store,
  slice_eq-eq a.eligible_consumers b.eligible_consumers,
)

policy_eq_refl : (a : DeleteSourcePolicy) → policy_eq a a ≡ true
unfolding policy_eq
policy_eq_refl a = ground (
  arith,
  bool_eq_refl a.enabled,
  bool_eq_refl a.require_same_store,
  slice_eq_refl a.eligible_consumers,
)

-- The coordinator's comparison of plans is equality.
pub plan_eq_iff : (p q : ExecutionPlan) → (plan_eq p q ≡ true) ↔ (p ≡ q)
unfolding plan_eq
plan_eq_iff p q = (
  (λ h.
      let (a, b) =
        and_true (targets_eq p.targets q.targets) (policy_eq p.delete_source q.delete_source) h in
      let t = targets_eq-eq p.targets q.targets a in
      let d = policy_eq-eq p.delete_source q.delete_source b in
      λ i. record { targets = t i; delete_source = d i }),
  (λ h. rw h (true_and _ _ (targets_eq_refl q.targets) (policy_eq_refl q.delete_source))),
)
