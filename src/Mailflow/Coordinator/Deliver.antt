-- ===== src/Mailflow/Coordinator/Deliver.antt =====
-- coordinator.go: the loop over the targets of the plan.
use mime_crypt.Base.{String, Bool, Option, none, some, List, [], ◌∷◌, ◌&&◌, not, if◌then◌else◌}
use mime_crypt.Base.Text.{◌+++◌, trim_space, is_blank, equal_fold}
use mime_crypt.Base.Assoc.{Assoc, has, insert, lookup}
use mime_crypt.Base.Effect.{ok, err, pure, lift, ◌>>=◌, ◌>>◌}
use mime_crypt.Mailflow.Types.{MailTrace, DeliveryTarget, DeliveryReceipt, TxState}
use mime_crypt.Mailflow.Errors.{Act, Result, failed, wrapped}
use mime_crypt.Mailflow.Plan.{target_key}
use mime_crypt.Mailflow.Ports.{Consumer, StateStore, MailObject}

-- The fields that the coordinator fills in where the consumer left them blank.
unfoldable pub complete_receipt : DeliveryTarget → DeliveryReceipt → DeliveryReceipt
unfolding is_blank target_key
complete_receipt t r = record r {
  target = if is_blank r.target then target_key t else r.target;
  consumer = if is_blank r.consumer then t.consumer else r.consumer;
}

-- A receipt of a backup sink whose id is the path of the backup.
unfoldable pub is_backup : DeliveryReceipt → Bool
unfolding is_blank equal_fold trim_space
is_backup r = equal_fold (trim_space r.store.driver) "backup" && not (is_blank r.id)

-- state.Trace.Attributes["backup_path"] = …, on a nil map too
abbrev note_path : Option (Assoc String) → String → Option (Assoc String)
note_path none path = some (insert "backup_path" path [])
note_path (some m) path = some (insert "backup_path" path m)

-- The same write seen through another reference to the map: a nil reference shares nothing.
abbrev note_path_shared : Option (Assoc String) → String → Option (Assoc String)
note_path_shared none path = none
note_path_shared (some m) path = some (insert "backup_path" path m)

unfoldable pub note_backup : DeliveryReceipt → MailTrace → MailTrace
unfolding is_backup trim_space
note_backup r t =
    if is_backup r then record t { attributes = note_path t.attributes (trim_space r.id) } else t

-- After a fresh plan was taken over, the state's trace and the processed mail's trace hold one and
-- the same attribute map, so later requests see the path too.
unfoldable pub note_backup_shared : Bool → DeliveryReceipt → MailTrace → MailTrace
unfolding is_backup trim_space
note_backup_shared shared r t =
    if shared && is_backup r
    then record t { attributes = note_path_shared t.attributes (trim_space r.id) }
    else t

unfoldable pub record_delivery : DeliveryTarget → DeliveryReceipt → TxState → TxState
unfolding note_backup insert target_key
record_delivery t r s = record s {
  trace = note_backup r s.trace;
  deliveries = insert (target_key t) r s.deliveries;
}

-- The loop's variables: the state, and the processed mail's trace.
abbrev pub Progress : Type 0
Progress = TxState × MailTrace

module _ {W : Type 0} where
  -- Coordinator.consumer; `none` is a nil interface under its name
  unfoldable pub find_consumer : Assoc (Option (Consumer W)) → String → Result (Consumer W)
  unfolding lookup trim_space
  find_consumer consumers name = elim (lookup (trim_space name) consumers) [
    | none ↦ err (failed ("consumer 未配置: " +++ name))
    | some none ↦ err (failed ("consumer 未配置: " +++ name))
    | some (some c) ↦ ok c
  ]

  unfoldable pub commit :
      StateStore W → Bool → DeliveryTarget → DeliveryReceipt → Progress → Act W Progress
  unfolding complete_receipt record_delivery note_backup_shared
  commit store shared t receipt (s, trace) = do
    let r = complete_receipt t receipt
    let s' = record_delivery t r s
    store.save s'
    pure (s', note_backup_shared shared r trace)

  -- A failed target ends the run if it is required, and is passed over if it is not.
  unfoldable pub settle :
      StateStore W
      → Bool
      → DeliveryTarget
      → Progress
      → Result DeliveryReceipt × W
      → Result Progress × W
  unfolding commit target_key
  settle store shared t p (ok receipt, w) = commit store shared t receipt p w
  settle store shared t p (err e, w) =
      if t.required then (err (wrapped ("提交目标 " +++ target_key t +++ " 失败") e), w) else (ok p, w)

  unfoldable pub submit :
      StateStore W → Consumer W → MailObject W → Bool → DeliveryTarget → Progress → Act W Progress
  unfolding settle
  submit store c mail shared t (s, trace) w =
      settle store shared t (s, trace)
        (c.consume (record { trace = trace; target = t; mail = mail }) w)

  -- The body of the loop.
  unfoldable pub deliver :
      StateStore W
      → Assoc (Option (Consumer W))
      → MailObject W
      → Bool
      → DeliveryTarget
      → Progress
      → Act W Progress
  unfolding has target_key find_consumer submit
  deliver store consumers mail shared t (s, trace) =
      if has (target_key t) s.deliveries
      then pure (s, trace)
      else (lift (find_consumer consumers t.consumer) >>= λ c.
          submit store c mail shared t (s, trace))

  unfoldable pub deliver_all :
      StateStore W
      → Assoc (Option (Consumer W))
      → MailObject W
      → Bool
      → List DeliveryTarget
      → Progress
      → Act W Progress
  unfolding deliver
  deliver_all store consumers mail shared [] p = pure p
  deliver_all store consumers mail shared (t ∷ ts) p =
      deliver store consumers mail shared t p >>= deliver_all store consumers mail shared ts
