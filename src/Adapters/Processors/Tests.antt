-- ===== src/Adapters/Processors/Tests.antt =====
-- contextual_processor.go: a message that is not encrypted yet.
use mime_crypt.Base.{ℕ, true, false, none, some, [], ◌∷◌}
use mime_crypt.Base.Effect.{pure, After}
use mime_crypt.Mailflow.Types.{DeleteSemantics, ExecutionPlan, no_trace, no_policy}
use mime_crypt.Mailflow.Errors.{Act, Error}
use mime_crypt.Mailflow.Ports.{MailEnvelope}
use mime_crypt.Adapters.Processors.{
  Detector, MimeEncryptor, NoOpProcessor, EncryptingProcessor, process_contextual,
}
use mime_crypt.Adapters.Processors.Protected.{Protected, process_contextual-Protected}

abbrev detector : Detector ℕ
detector = record { detect = λ mime. pure ("plain", false) }

abbrev call : Act ℕ (Unit {0})
call = pure tt

abbrev encryptor : MimeEncryptor ℕ
encryptor = record {
  run_from_opener = λ mime.
      pure
        (record { format = "pgp-mime"; encrypted = true; already_encrypted = false }, 1 ∷ 2 ∷ []);
}

abbrev plan : ExecutionPlan
plan = record {
  targets = record { name = ""; consumer = "out"; artifact = "primary"; required = true } ∷ [];
  delete_source = no_policy;
}

abbrev no_op : NoOpProcessor
no_op = record { static_plan = plan; plan_resolve = none }

abbrev encrypting : EncryptingProcessor ℕ
encrypting = record {
  encryptor = some encryptor;
  auditor = none;
  static_plan = plan;
  plan_resolve = none;
}

abbrev envelope : MailEnvelope ℕ
envelope = record {
  mime = some (pure (record { bytes = 7 ∷ []; failure = none }));
  trace = record no_trace { transaction_key = "inbox:1" };
  source = none;
  delete_semantics = DeleteSemantics.unknown;
}

process_contextual-Protected_example :
    After
      (λ m _. Protected detector call no_op encrypting envelope m)
      (λ (_ : Error) _. Unit {0})
      (process_contextual detector call no_op encrypting envelope 0)
process_contextual-Protected_example =
    process_contextual-Protected detector call no_op encrypting envelope 0
