-- ===== src/Flowruntime/CycleTests.antt =====
-- source_executor.go: a cycle over two messages, each of which the processor skips.
use mime_crypt.Base.Lists.{length}
use mime_crypt.Base.{◌↔◌, List, ℕ, zero, suc, ◌<◌, none, some, [], ◌≡◌, refl}
use mime_crypt.Base.Effect.{ok, err, pure, raise}
use mime_crypt.Mailflow.Types.{RunResult, DeleteSemantics, no_trace}
use mime_crypt.Mailflow.Errors.{Act, failed, no_messages, skip_message}
use mime_crypt.Mailflow.Ports.{MailEnvelope}
use mime_crypt.Mailflow.Runner.{Runner}
use mime_crypt.Flowruntime.Cycle.{Counts, run_source_cycle}
use mime_crypt.Flowruntime.Cycle.Rounds.{tallied, Rounds, run_source_cycle_iff}

abbrev envelope : MailEnvelope ℕ
envelope = record {
  mime = some (raise (failed ""));
  trace = record no_trace { transaction_key = "inbox:1" };
  source = some (record { acknowledge = pure tt; finalize = none; delete = none });
  delete_semantics = DeleteSemantics.unknown;
}

-- The world is the number of messages that are left.
abbrev next : Act ℕ (MailEnvelope ℕ)
next zero = (err no_messages, zero)
next (suc n) = (ok envelope, n)

abbrev runner : Runner ℕ
runner = record {
  producer = some (record { next = next });
  coordinator = some (record {
    processor = some (record { process = λ e. raise skip_message });
    store = some (record { load = λ key. pure none; save = λ s. pure tt });
    consumers = [];
  });
}

two_skipped :
    run_source_cycle runner 3 2
    ≡ some ((record { processed = 0; skipped = 2; deleted = 0 }, none), 0)
unfolding run_source_cycle
two_skipped = refl

abbrev skips : Counts
skips = record { processed = 0; skipped = 2; deleted = 0 }

run_source_cycle_iff_example : (run_source_cycle runner 3 2 ≡ some ((skips, none), 0)) ↔ (
    (rs : List RunResult) × (Rounds runner rs none 2 0 × ((length rs < 3) × (skips ≡ tallied rs))))
run_source_cycle_iff_example = run_source_cycle_iff runner 3 2 0 skips none
