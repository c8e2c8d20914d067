-- ===== src/Mailflow/Runner.antt =====
-- internal/mailflow/runner.go: one message from the producer through the coordinator.
use mime_crypt.Base.{Option, none, some, if◌then◌else◌}
use mime_crypt.Base.Effect.{ok, err, raise, pure, ◌>>=◌}
use mime_crypt.Mailflow.Types.{RunResult}
use mime_crypt.Mailflow.Errors.{Act, Result, failed, is_no_messages}
use mime_crypt.Mailflow.Ports.{Producer, MailEnvelope}
use mime_crypt.Mailflow.Coordinator.Run.{Coordinator, run}

pub record Runner (W : Type 0) : Type 0 where
  pub producer : Option (Producer W)
  pub coordinator : Option (Coordinator W)

module _ {W : Type 0} where
  -- What RunOnce does with the answer of Next; `none` where there was no message to process
  unfoldable pub run_taken :
      Coordinator W → Result (MailEnvelope W) × W → Result (Option RunResult) × W
  unfolding run is_no_messages
  run_taken c (ok e, w) = (run (some c) e >>= λ r. pure (some r)) w
  run_taken c (err e, w) = if is_no_messages e then (ok none, w) else (err e, w)

  unfoldable pub run_with_coordinator :
      Producer W → Option (Coordinator W) → Act W (Option RunResult)
  unfolding run_taken
  run_with_coordinator p none w = (err (failed "coordinator 未配置"), w)
  run_with_coordinator p (some c) w = run_taken c (p.next w)

  -- Runner.RunOnce
  unfoldable pub run_once : Runner W → Act W (Option RunResult)
  unfolding run_with_coordinator
  run_once r = elim r.producer [
    | none ↦ raise (failed "producer 未配置")
    | some p ↦ run_with_coordinator p r.coordinator
  ]
