-- ===== src/Mailflow/Coordinator/Policy.antt =====
-- coordinator.go: the decisions, which change nothing.
use mime_crypt.Base.{
  String, Bool, true, false, Option, none, some, List, [], ◌∷◌, ◌&&◌, ◌||◌, not, map, if◌then◌else◌,
}
use mime_crypt.Base.Text.{trim_space}
use mime_crypt.Base.Assoc.{Assoc, has}
use mime_crypt.Base.Effect.{ok, err}
use mime_crypt.Base.Lists.{any, is_nil}
use mime_crypt.Mailflow.Types.{
  StoreRef, valid, same_store, DeleteSemantics, hard, soft, DeliveryTarget, DeleteSourcePolicy,
  ExecutionPlan, DeliveryReceipt, TxState, RunResult,
}
use mime_crypt.Mailflow.Errors.{Result, failed}
use mime_crypt.Mailflow.Plan.{target_key, mem}
use mime_crypt.Mailflow.Ports.{MailEnvelope, SourceHandle}

-- The loop of hasRequiredDeliveries.
unfoldable pub all_required : Assoc DeliveryReceipt → List DeliveryTarget → Bool
unfolding has target_key
all_required deliveries [] = true
all_required deliveries (t ∷ ts) =
    let rest = all_required deliveries ts in
    if t.required then (if has (target_key t) deliveries then rest else false) else rest

-- hasRequiredDeliveries
unfoldable pub has_required_deliveries : TxState → ExecutionPlan → Bool
unfolding all_required
has_required_deliveries s p = all_required s.deliveries p.targets

abbrev pub items : Option (List String) → List String
items none = []
items (some xs) = xs

-- The body of the loop of shouldDeleteSource.
unfoldable pub allows_delete : StoreRef → DeleteSourcePolicy → DeliveryReceipt → Bool
unfolding mem trim_space valid same_store
allows_delete source_store policy receipt =
    let eligible = map trim_space (items policy.eligible_consumers) in
    (is_nil eligible || mem (trim_space receipt.consumer) eligible)
    && (not policy.require_same_store
        || (valid source_store && (valid receipt.store && same_store receipt.store source_store)))

abbrev pub receipts : Assoc DeliveryReceipt → List DeliveryReceipt
receipts = map (λ p. p.1)

-- shouldDeleteSource
unfoldable pub should_delete_source : TxState → DeleteSourcePolicy → Bool
unfolding allows_delete any
should_delete_source s policy =
    policy.enabled && any (allows_delete s.trace.source_store policy) (receipts s.deliveries)

abbrev pub deletable : {W : Type 0} → Option (SourceHandle W) → Bool
deletable none = false
deletable (some h) = elim h.delete [ none ↦ false | some _ ↦ true ]

unfoldable pub check_semantics : DeleteSemantics → Result (Unit {0})
check_semantics hard = ok tt
check_semantics soft = err (failed "删除源邮件已启用，但来源仅支持 soft delete，已拒绝继续处理")
check_semantics _ = err (failed "删除源邮件已启用，但来源删除语义未知")

-- validateDeleteSource
unfoldable pub validate_delete_source :
    {W : Type 0} → DeleteSourcePolicy → MailEnvelope W → Result (Unit {0})
unfolding check_semantics
validate_delete_source policy e =
    if policy.enabled
    then (if deletable e.source
        then check_semantics e.delete_semantics
        else err (failed "删除源邮件已启用，但来源不支持删除"))
    else ok tt

-- Coordinator.result: the deliveries are copied.
unfoldable pub result : TxState → RunResult
result s = record {
  key = s.key;
  trace = s.trace;
  plan = s.plan;
  deliveries = s.deliveries;
  skipped = s.skipped;
  source_deleted = s.source_deleted;
  source_acked = s.source_acked;
  completed = s.completed;
}
