-- ===== src/Mailflow/Coordinator/Correct.antt =====
-- coordinator.go: what a run guarantees, for every processor, store, set of consumers and source.
use mime_crypt.Base.{true, Option, some, ◌≡◌}
use mime_crypt.Base.Text.{trim_space}
use mime_crypt.Base.Assoc.{Assoc}
use mime_crypt.Base.Effect.{ok, err}
use mime_crypt.Mailflow.Types.{TxState, RunResult}
use mime_crypt.Mailflow.Errors.{Result}
use mime_crypt.Mailflow.Ports.{Processor, Consumer, StateStore, MailEnvelope}
use mime_crypt.Mailflow.Coordinator.Policy.{result}
use mime_crypt.Mailflow.Coordinator.Run.{Coordinator, run}
use mime_crypt.Mailflow.Coordinator.Journal.{Journal, persisted, IsSound, Safe, Observes}
use mime_crypt.Mailflow.Coordinator.Safety.Calls.{Post}
use mime_crypt.Mailflow.Coordinator.Safety.Ending.{Finished}
use mime_crypt.Mailflow.Coordinator.Safety.Whole.{run_post}

abbrev pub coordinator :
    {W : Type 0} → Processor W → StateStore W → Assoc (Option (Consumer W)) → Option (Coordinator W)
coordinator processor store consumers =
    some (record { processor = some processor; store = some store; consumers = consumers })

-- The state that the store has for the transaction is sound, or there is none.
abbrev pub LoadsSound : {W : Type 0} → StateStore W → MailEnvelope W → W → Type 0
LoadsSound store e w =
    (s : TxState) → (store.load (trim_space e.trace.transaction_key) w).0 ≡ ok (some s) → IsSound s

module _ {W : Type 0} (log : W → Journal) (processor : Processor W) (store : StateStore W)
    (consumers : Assoc (Option (Consumer W))) (e : MailEnvelope W)
    (o : Observes log processor store consumers e) (w : W)
    (before : Safe e.delete_semantics (log w)) (sound : LoadsSound store e w) where
  Post-Safe :
      (r : Result RunResult × W)
      → Post log e.delete_semantics (Finished log processor store consumers e o) r
      → Safe e.delete_semantics (log r.1)
  Post-Safe (ok r, v) h = h.5
  Post-Safe (err x, v) h = h

  -- Whether it succeeds or fails, a run makes no call that is out of order, provided that the
  -- journal was in order before and that the state loaded for the transaction, if any, is sound.
  -- A consumer is called only for a target of the persisted plan that has no receipt in the
  -- persisted state. The source is deleted only when every required target of the persisted plan
  -- has a receipt, the policy asks for the deletion, it was not done before and the source deletes
  -- for good. The source is acknowledged only after a skip was reported or every required target
  -- has a receipt in the persisted state. It is finalized only when the persisted state is
  -- completed. Every state that is saved is sound.
  pub run-Safe : Safe e.delete_semantics (log (run (coordinator processor store consumers) e w).1)
  run-Safe =
      Post-Safe (run (coordinator processor store consumers) e w)
        (run_post log processor store consumers e o w before sound)

  Post-Finished :
      (r : Result RunResult × W) (q : RunResult)
      → Post log e.delete_semantics (Finished log processor store consumers e o) r
      → r.0 ≡ ok q
      → (s : TxState) × (q ≡ result s)
        × (s.completed ≡ true)
        × (s.source_acked ≡ true)
        × (persisted (log r.1) ≡ some s)
  Post-Finished (ok p, v) q (s, a, b, c, d, f) h = (s, cc, b, c, d)
  Post-Finished (err x, v) q p h = cc

  -- A run that returns without an error has completed the transaction: under the same conditions
  -- its result reports a state that is completed and acknowledged, and that the store holds.
  pub run_completes :
      (r : RunResult)
      → (run (coordinator processor store consumers) e w).0 ≡ ok r
      → (s : TxState) × (r ≡ result s)
        × (s.completed ≡ true)
        × (s.source_acked ≡ true)
        × (persisted (log (run (coordinator processor store consumers) e w).1) ≡ some s)
  run_completes r h =
      Post-Finished (run (coordinator processor store consumers) e w) r
        (run_post log processor store consumers e o w before sound) h
