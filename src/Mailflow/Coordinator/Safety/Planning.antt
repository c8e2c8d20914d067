-- ===== src/Mailflow/Coordinator/Safety/Planning.antt =====
-- From the processed mail to the result: the plan that is taken over, the loop and the end.
use mime_crypt.Base.{
  String, Bool, true, false, Option, some, ◌≡◌, refl, sym, ap, ◌∙◌, ◌⊎◌, inl, inr, arith,
  Bool-cases, if◌then◌else◌,
}
use mime_crypt.Base.Assoc.{Assoc}
use mime_crypt.Base.Effect.{ok, err, pure, ◌>>=◌}
use mime_crypt.Base.Lists.{is_nil}
use mime_crypt.Mailflow.Types.{ExecutionPlan, TxState, RunResult, new_state}
use mime_crypt.Mailflow.Errors.{failed, Result, Error}
use mime_crypt.Mailflow.Plan.{plan_eq, validate_plan}
use mime_crypt.Mailflow.Ports.{
  Processor, Consumer, StateStore, MailEnvelope, ProcessedMail, validate_processed,
}
use mime_crypt.Mailflow.Coordinator.Policy.{
  has_required_deliveries, all_required, validate_delete_source,
}
use mime_crypt.Mailflow.Coordinator.Finish.{persist, finish}
use mime_crypt.Mailflow.Coordinator.Deliver.{deliver_all}
use mime_crypt.Mailflow.Coordinator.Run.{needs_processing, adopt_plan, same_key, transact}
use mime_crypt.Mailflow.Coordinator.Journal.{Journal, persisted, Delivered, IsSound, Safe, Observes}
use mime_crypt.Mailflow.Coordinator.Safety.Calls.{
  Post, bind-Post, lift-Post, weaken-Post, persist-Post,
}
use mime_crypt.Mailflow.Coordinator.Safety.Ending.{Finished, finish_post}
use mime_crypt.Mailflow.Coordinator.Safety.Loop.{Underway, deliver_all_post}

pub new_state-IsSound : (key : String) → IsSound (new_state key)
unfolding new_state
new_state-IsSound key = record { acked = λ h. cc; delivered = λ h. cc; deleted = λ h. cc }

pub open-IsSound : (s : TxState) → s.completed ≡ false → s.source_deleted ≡ false → IsSound s
open-IsSound s c d = record { acked = λ h. cc; delivered = λ h. cc; deleted = λ h. cc }

new_state-targets : (key : String) → ¬ (is_nil (new_state key).plan.targets ≡ false)
unfolding new_state
new_state-targets key h = cc

pub new_state-completed : (key : String) → ¬ ((new_state key).completed ≡ true)
unfolding new_state
new_state-completed key h = cc

pub ready-Delivered : (s : TxState) → needs_processing s ≡ false → Delivered s
unfolding needs_processing
ready-Delivered s h = ground arith

plan_changed : Error
plan_changed = failed "processor 返回的 execution plan 与已持久化计划不一致"

-- A sound state that still needs processing has not had its source deleted.
pub undeleted : (s : TxState) → IsSound s → needs_processing s ≡ true → s.source_deleted ≡ false
unfolding needs_processing
undeleted s sound needs = elim (Bool-cases s.source_deleted) [
  | inl gone ↦ let full = (sound.deleted gone).1 in ground arith
  | inr kept ↦ kept
]

validated-targets : (p : ExecutionPlan) → validate_plan p ≡ ok tt → is_nil p.targets ≡ false
unfolding validate_plan
validated-targets p h = ground arith

validated-plan :
    {W : Type 0} (m : ProcessedMail W)
    → validate_processed m ≡ ok tt
    → is_nil m.plan.targets ≡ false
unfolding validate_processed
validated-plan m h = ground arith

module _ {W : Type 0} (log : W → Journal) (processor : Processor W) (store : StateStore W)
    (consumers : Assoc (Option (Consumer W))) (e : MailEnvelope W)
    (o : Observes log processor store consumers e) where
  abbrev pub Post' : {A : Type 0} → (A → W → Type 0) → Result A × W → Type 0
  Post' = Post log e.delete_semantics

  abbrev pub Safe' : W → Type 0
  Safe' w = Safe e.delete_semantics (log w)

  abbrev pub Finished' : RunResult → W → Type 0
  Finished' = Finished log processor store consumers e o

  -- The run works on what the store holds, or on a new transaction.
  abbrev pub Known : String → TxState → W → Type 0
  Known key s w = (persisted (log w) ≡ some s) ⊎ (s ≡ new_state key)

  pub Known-persisted :
      (key : String) (s : TxState) (w : W)
      → Known key s w
      → is_nil s.plan.targets ≡ false
      → persisted (log w) ≡ some s
  Known-persisted key s w (inl at) h = at
  Known-persisted key s w (inr new) h =
      absurd (new_state-targets key (ap (λ (t : TxState). is_nil t.plan.targets) (sym new) ∙ h))

  compare_post :
      (key : String) (m : ProcessedMail W) (s : TxState) (w : W)
      → Known key s w
      → Safe' w
      → s.completed ≡ false
      → s.source_deleted ≡ false
      → is_nil s.plan.targets ≡ false
      → Post'
          (λ t v.
            Underway log processor store consumers e o t.plan t v × (is_nil t.plan.targets ≡ false))
          ((if plan_eq s.plan m.plan then pure s else λ v. (err plan_changed, v)) w)
  compare_post key m s w known safe c d again = elim (Bool-cases (plan_eq s.plan m.plan)) [
    | inl same ↦ rw same (((Known-persisted key s w known again, safe), refl, c, d), again)
    | inr other ↦ rw other safe
  ]

  adopt_plan_post :
      (key : String) (m : ProcessedMail W) (s : TxState) (w : W)
      → Known key s w
      → Safe' w
      → s.completed ≡ false
      → s.source_deleted ≡ false
      → is_nil m.plan.targets ≡ false
      → Post'
          (λ t v.
            Underway log processor store consumers e o t.plan t v × (is_nil t.plan.targets ≡ false))
          (adopt_plan store m s w)
  unfolding adopt_plan plan_changed
  adopt_plan_post key m s w known safe c d full = elim (Bool-cases (is_nil s.plan.targets)) [
    | inl fresh ↦
        rw (fresh, adopt_plan)
          (weaken-Post log e.delete_semantics _ _ (persist store _ w)
            (persist-Post log e.delete_semantics processor store consumers e o _ w
              (open-IsSound _ c d) safe)
            λ t v h. rw (h.0) ((h.1, refl, c, d), full))
    | inr again ↦ rw (again, adopt_plan) (compare_post key m s w known safe c d again)
  ]

  Underway-Delivered :
      (plan : ExecutionPlan) (s : TxState)
      → s.plan ≡ plan
      → is_nil plan.targets ≡ false
      → all_required s.deliveries plan.targets ≡ true
      → Delivered s
  unfolding has_required_deliveries
  Underway-Delivered plan s same full all = rw same (full, all)

  -- From the loop on, with the plan that the state holds.
  loop_post :
      (m : ProcessedMail W) (shared : Bool) (t : TxState) (w : W)
      → Underway log processor store consumers e o t.plan t w
      → is_nil t.plan.targets ≡ false
      → Post' Finished' (
          (deliver_all store consumers m.mail shared t.plan.targets (t, m.trace) >>= λ q.
          finish store e q.0)
            w)
  loop_post m shared t w under full =
      bind-Post log e.delete_semantics _ Finished'
        (deliver_all store consumers m.mail shared t.plan.targets (t, m.trace) w) _
        (deliver_all_post log processor store consumers e o t.plan m.mail shared t.plan.targets
          (t, m.trace) w (λ u i. i) under)
        λ q v l.
          finish_post log processor store consumers e o q.0 v (open-IsSound q.0 (l.0.2) (l.0.3))
            (Underway-Delivered t.plan q.0 (l.0.1) full (l.2)) (l.0.0)

  pub transact_post :
      (key : String) (m : ProcessedMail W) (s : TxState) (w : W)
      → Known key s w
      → Safe' w
      → s.completed ≡ false
      → s.source_deleted ≡ false
      → validate_processed m ≡ ok tt
      → Post' Finished' (transact store consumers e s m w)
  unfolding transact
  transact_post key m s w known safe c d valid =
      lift-Post log e.delete_semantics Finished' (same_key m e) _ w safe λ _ _.
        bind-Post log e.delete_semantics _ Finished' (adopt_plan store m s w) _
          (adopt_plan_post key m s w known safe c d (validated-plan m valid))
          λ t v h.
            lift-Post log e.delete_semantics Finished'
              (validate_delete_source t.plan.delete_source e) _ v (h.0.0.1)
              λ _ _. loop_post m (is_nil s.plan.targets) t v (h.0) (h.1)
