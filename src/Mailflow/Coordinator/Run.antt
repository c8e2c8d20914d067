-- ===== src/Mailflow/Coordinator/Run.antt =====
-- coordinator.go: Coordinator.Run. A cancelled context shows only as an error of the calls that
-- are given it.
use mime_crypt.Base.{String, Bool, true, false, Option, none, some, [], ◌||◌, not, if◌then◌else◌}
use mime_crypt.Base.Text.{◌==◌, is_empty, trim_space}
use mime_crypt.Base.Assoc.{Assoc}
use mime_crypt.Base.Effect.{ok, err, pure, raise, lift, ◌>>=◌, ◌>>◌}
use mime_crypt.Base.Lists.{is_nil}
use mime_crypt.Mailflow.Types.{MailTrace, TxState, RunResult, new_state}
use mime_crypt.Mailflow.Errors.{Act, Error, Result, failed, is_skip, as_skip}
use mime_crypt.Mailflow.Plan.{plan_eq}
use mime_crypt.Mailflow.Ports.{
  Processor, Consumer, StateStore, MailEnvelope, ProcessedMail, validate_envelope,
  validate_processed, release,
}
use mime_crypt.Mailflow.Coordinator.Policy.{has_required_deliveries, validate_delete_source, result}
use mime_crypt.Mailflow.Coordinator.Finish.{finish, persist, ack_and_complete, finalize_source}
use mime_crypt.Mailflow.Coordinator.Deliver.{deliver_all}

pub record Coordinator (W : Type 0) : Type 0 where
  pub processor : Option (Processor W)
  pub store : Option (StateStore W)
  pub consumers : Assoc (Option (Consumer W))

-- The trace that a skipped message leaves in its state.
abbrev pub skip_trace : Option MailTrace → MailTrace → MailTrace
skip_trace none entry = entry
skip_trace (some t) entry = if is_empty t.transaction_key then entry else t

-- The state that a found record or a new transaction starts from.
unfoldable pub loaded_state : String → Option TxState → TxState
unfolding new_state
loaded_state key none = new_state key
loaded_state key (some s) = s

-- The condition under which the processor is called.
unfoldable pub needs_processing : TxState → Bool
unfolding has_required_deliveries
needs_processing s = is_nil s.plan.targets || not (has_required_deliveries s s.plan)

module _ {W : Type 0} where
  -- `defer func() { _ = release() }()`: its error is dropped
  abbrev pub deferring : {A : Type 0} → Act W (Unit {0}) → Act W A → Act W A
  deferring cleanup m w = let (r, v) = m w in (r, (cleanup v).1)

  -- The processor reported that the message needs no delivery.
  unfoldable pub skip : StateStore W → MailEnvelope W → TxState → Error → Act W RunResult
  unfolding ack_and_complete result as_skip is_empty
  skip store e s reason = do
    let skipped = record s { trace = skip_trace (as_skip reason) e.trace; skipped = true }
    done ← ack_and_complete store skipped e.source
    pure (result done)

  -- The plan of the first run is persisted; a later run must arrive at the same one.
  unfoldable pub adopt_plan : StateStore W → ProcessedMail W → TxState → Act W TxState
  unfolding plan_eq persist
  adopt_plan store m s =
      if is_nil s.plan.targets
      then persist store (record s { trace = m.trace; skipped = false; plan = m.plan })
      else if plan_eq s.plan m.plan
      then pure s
      else raise (failed "processor 返回的 execution plan 与已持久化计划不一致")

  unfoldable pub same_key : ProcessedMail W → MailEnvelope W → Result (Unit {0})
  unfolding trim_space
  same_key m e =
      if m.trace.transaction_key == trim_space e.trace.transaction_key
      then ok tt
      else err (failed "processor 返回的 transaction key 与入口不一致")

  -- From the processed mail on.
  unfoldable pub transact :
      StateStore W
      → Assoc (Option (Consumer W))
      → MailEnvelope W
      → TxState
      → ProcessedMail W
      → Act W RunResult
  unfolding same_key adopt_plan validate_delete_source deliver_all finish
  transact store consumers e s m = do
    lift (same_key m e)
    planned ← adopt_plan store m s
    lift (validate_delete_source planned.plan.delete_source e)
    (delivered, _) ←
        deliver_all store consumers m.mail (is_nil s.plan.targets) planned.plan.targets
          (planned, m.trace)
    finish store e delivered

  unfoldable pub take_processed :
      StateStore W
      → Assoc (Option (Consumer W))
      → MailEnvelope W
      → TxState
      → Result (ProcessedMail W) × W
      → Result RunResult × W
  unfolding skip is_skip transact validate_processed release
  take_processed store consumers e s (err reason, w) =
      if is_skip reason then skip store e s reason w else (err reason, w)
  take_processed store consumers e s (ok m, w) =
      (lift (validate_processed m) >>= λ _. deferring (release m) (transact store consumers e s m))
        w

  -- Run, from the loaded state on.
  unfoldable pub advance :
      Processor W
      → StateStore W
      → Assoc (Option (Consumer W))
      → MailEnvelope W
      → TxState
      → Act W RunResult
  unfolding take_processed needs_processing finish finalize_source result
  advance processor store consumers e s w =
      if s.completed
      then (do finalize_source e.source; pure (result s)) w
      else if needs_processing s
      then take_processed store consumers e s (processor.process e w)
      else finish store e s w

  abbrev processor_of : Option (Coordinator W) → Result (Processor W)
  processor_of none = err (failed "processor 未配置")
  processor_of (some c) = elim c.processor [ none ↦ err (failed "processor 未配置") | some p ↦ ok p ]

  abbrev store_of : Option (Coordinator W) → Result (StateStore W)
  store_of none = err (failed "state store 未配置")
  store_of (some c) = elim c.store [ none ↦ err (failed "state store 未配置") | some s ↦ ok s ]

  abbrev consumers_of : Option (Coordinator W) → Assoc (Option (Consumer W))
  consumers_of none = []
  consumers_of (some c) = c.consumers

  -- Coordinator.Run; `none` is a nil coordinator
  unfoldable pub run : Option (Coordinator W) → MailEnvelope W → Act W RunResult
  unfolding advance loaded_state validate_envelope trim_space
  run c e = do
    lift (validate_envelope e)
    processor ← lift (processor_of c)
    store ← lift (store_of c)
    let key = trim_space e.trace.transaction_key
    found ← store.load key
    advance processor store (consumers_of c) e (loaded_state key found)
