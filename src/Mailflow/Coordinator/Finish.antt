-- ===== src/Mailflow/Coordinator/Finish.antt =====
-- coordinator.go: what follows the deliveries: deletion of the source message, acknowledgement and
-- completion, each persisted before the next.
use mime_crypt.Base.{true, Option, none, some, ◌&&◌, not, if◌then◌else◌}
use mime_crypt.Base.Effect.{pure, raise, lift, ◌>>=◌, ◌>>◌}
use mime_crypt.Mailflow.Types.{TxState, RunResult}
use mime_crypt.Mailflow.Errors.{wrapping, Act, failed, wrapped}
use mime_crypt.Mailflow.Ports.{SourceHandle, MailEnvelope, StateStore}
use mime_crypt.Mailflow.Coordinator.Policy.{
  has_required_deliveries, should_delete_source, validate_delete_source, result,
}

module _ {W : Type 0} where
  -- finalizeSourceAcknowledge
  unfoldable pub finalize_source : Option (SourceHandle W) → Act W (Unit {0})
  finalize_source none = pure tt
  finalize_source (some h) = elim h.finalize [
    | none ↦ pure tt
    | some act ↦ wrapping (wrapped "清理来源确认状态失败") act
  ]

  unfoldable pub acknowledge_source : Option (SourceHandle W) → Act W (Unit {0})
  acknowledge_source none = pure tt
  acknowledge_source (some h) = wrapping (wrapped "确认来源邮件完成失败") h.acknowledge

  -- `if err := c.Store.Save(ctx, state); err != nil { return … }`
  unfoldable pub persist : StateStore W → TxState → Act W TxState
  persist store s = store.save s >> pure s

  -- The first half of ackAndComplete: nothing, where the source was acknowledged before.
  unfoldable pub acknowledge : StateStore W → TxState → Option (SourceHandle W) → Act W TxState
  unfolding acknowledge_source persist
  acknowledge store s source =
      if s.source_acked
      then pure s
      else acknowledge_source source >> persist store (record s { source_acked = true })

  -- ackAndComplete; the new state is what the Go function leaves behind its pointer.
  unfoldable pub ack_and_complete : StateStore W → TxState → Option (SourceHandle W) → Act W TxState
  unfolding acknowledge finalize_source persist
  ack_and_complete store s source = do
    acked ← acknowledge store s source
    done ← persist store (record acked { completed = true })
    finalize_source source
    pure done

  unfoldable pub delete_now : Option (SourceHandle W) → Act W (Unit {0})
  delete_now none = raise (failed "删除源邮件已启用，但来源不支持删除")
  delete_now (some h) = elim h.delete [
    | none ↦ raise (failed "删除源邮件已启用，但来源不支持删除")
    | some act ↦ wrapping (wrapped "删除源邮件失败") act
  ]

  -- The deletion block of Run.
  unfoldable pub delete_source : StateStore W → MailEnvelope W → TxState → Act W TxState
  unfolding delete_now should_delete_source persist
  delete_source store e s =
      if not s.source_deleted && should_delete_source s s.plan.delete_source
      then delete_now e.source >> persist store (record s { source_deleted = true })
      else pure s

  unfoldable pub settle_source : StateStore W → MailEnvelope W → TxState → Act W RunResult
  unfolding validate_delete_source delete_source ack_and_complete result
  settle_source store e s = do
    lift (validate_delete_source s.plan.delete_source e)
    deleted ← delete_source store e s
    done ← ack_and_complete store deleted e.source
    pure (result done)

  -- Run, from the deliveries on.
  unfoldable pub finish : StateStore W → MailEnvelope W → TxState → Act W RunResult
  unfolding has_required_deliveries settle_source result
  finish store e s =
      if has_required_deliveries s s.plan then settle_source store e s else pure (result s)
