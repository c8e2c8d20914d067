-- ===== src/Mailflow/Plan.antt =====
-- types.go: the keys and the validation of traces, targets and execution plans, and the part of
-- reflect.DeepEqual that the coordinator uses, on plans.
pub mod Valid
use mime_crypt.Base.{
  String, Bool, true, false, Option, none, some, List, [], ◌∷◌, ◌&&◌, ◌||◌, ◌≡◌, refl,
  if◌then◌else◌, arith, not,
}
use mime_crypt.Base.Text.{◌==◌, eq_iff, trim_space, is_blank, ◌+++◌}
use mime_crypt.Base.Effect.{ok, err}
use mime_crypt.Base.Lists.{is_nil}
use mime_crypt.Mailflow.Types.{MailTrace, DeliveryTarget, DeleteSourcePolicy, ExecutionPlan}
use mime_crypt.Mailflow.Errors.{Result, failed}

-- MailTrace.Validate
unfoldable pub validate_trace : MailTrace → Result (Unit {0})
validate_trace t = if is_blank t.transaction_key then err (failed "transaction key 不能为空") else ok tt

-- DeliveryTarget.Key
unfoldable pub target_key : DeliveryTarget → String
unfolding trim_space is_blank
target_key t =
    if is_blank t.name
    then (trim_space t.consumer
        +++ (":" +++ (if is_blank t.artifact then "primary" else trim_space t.artifact)))
    else trim_space t.name

-- DeliveryTarget.Validate
unfoldable pub validate_target : DeliveryTarget → Result (Unit {0})
validate_target t = if is_blank t.consumer then err (failed "consumer 不能为空") else ok tt

unfoldable pub mem : String → List String → Bool
mem k [] = false
mem k (x ∷ xs) = x == k || mem k xs

-- The loop of ExecutionPlan.Validate: the keys seen so far, and whether a required target was.
unfoldable pub validate_targets : List String → Bool → List DeliveryTarget → Result (Unit {0})
unfolding validate_target mem
validate_targets seen has_required [] =
    if has_required then ok tt else err (failed "至少需要一个 required 消费目标")
validate_targets seen has_required (t ∷ ts) = elim (validate_target t) [
  | err e ↦ err e
  | ok _ ↦
      let rest = validate_targets (target_key t ∷ seen) (t.required || has_required) ts in
      if mem (target_key t) seen then err (failed ("重复的消费目标: " +++ target_key t)) else rest
]

-- ExecutionPlan.Validate
unfoldable pub validate_plan : ExecutionPlan → Result (Unit {0})
unfolding validate_targets
validate_plan p =
    if is_nil p.targets then err (failed "至少需要一个消费目标") else validate_targets [] false p.targets

unfoldable pub bool_eq : Bool → Bool → Bool
bool_eq true b = b
bool_eq false b = not b

unfoldable pub strings_eq : List String → List String → Bool
strings_eq [] [] = true
strings_eq (x ∷ xs) (y ∷ ys) = x == y && strings_eq xs ys
strings_eq _ _ = false

-- A nil slice and an empty one differ for reflect.DeepEqual.
unfoldable pub slice_eq : Option (List String) → Option (List String) → Bool
unfolding strings_eq
slice_eq none none = true
slice_eq (some xs) (some ys) = strings_eq xs ys
slice_eq _ _ = false

unfoldable pub target_eq : DeliveryTarget → DeliveryTarget → Bool
unfolding bool_eq
target_eq a b =
    a.name == b.name
    && (a.consumer == b.consumer && (a.artifact == b.artifact && bool_eq a.required b.required))

unfoldable pub targets_eq : List DeliveryTarget → List DeliveryTarget → Bool
unfolding target_eq
targets_eq [] [] = true
targets_eq (x ∷ xs) (y ∷ ys) = target_eq x y && targets_eq xs ys
targets_eq _ _ = false

unfoldable pub policy_eq : DeleteSourcePolicy → DeleteSourcePolicy → Bool
unfolding bool_eq slice_eq
policy_eq a b =
    bool_eq a.enabled b.enabled
    && (bool_eq a.require_same_store b.require_same_store
        && slice_eq a.eligible_consumers b.eligible_consumers)

-- reflect.DeepEqual on plans whose targets are not empty
unfoldable pub plan_eq : ExecutionPlan → ExecutionPlan → Bool
unfolding targets_eq policy_eq
plan_eq a b = targets_eq a.targets b.targets && policy_eq a.delete_source b.delete_source
