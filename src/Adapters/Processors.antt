-- ===== src/Adapters/Processors.antt =====
-- contextual_processor.go, noop_processor.go and encrypting_processor.go: what is done to a message
-- before it is delivered. Package encrypt is behind the records Detector and Encryptor.
mod Protected
mod Tests
use mime_crypt.Base.{
  ℕ, String, Bool, true, false, Option, none, some, List, [], ◌∷◌, ◌&&◌, ◌||◌, not, if◌then◌else◌,
}
use mime_crypt.Base.Text.{◌==◌, is_empty}
use mime_crypt.Base.Assoc.{Assoc, lookup, insert, remove, has}
use mime_crypt.Base.Effect.{Outcome, ok, err, pure, raise, lift, ◌>>=◌, ◌>>◌}
use mime_crypt.Mailflow.Types.{MailTrace, ExecutionPlan}
use mime_crypt.Mailflow.Errors.{Act, Result, Error, failed, wrapped, wrapping}
use mime_crypt.Mailflow.Plan.{validate_plan}
use mime_crypt.Mailflow.Ports.{
  Reader, Opener, MailEnvelope, MailObject, ProcessedMail, validate_envelope,
}

-- encrypt.DetectFormatFromOpener: the format of a message and whether it is encrypted
pub record Detector (W : Type 0) : Type 0 where
  pub detect : Option (Opener W) → Act W (String × Bool)

-- encrypt.Result
pub record EncryptResult : Type 0 where
  pub format : String
  pub encrypted : Bool
  pub already_encrypted : Bool

-- MimeEncryptor, with the bytes that it writes
pub record MimeEncryptor (W : Type 0) : Type 0 where
  pub run_from_opener : Option (Opener W) → Act W (EncryptResult × List ℕ)

-- The event of an audit record; its other fields are those of the trace.
pub record AuditEvent : Type 0 where
  pub event : String
  pub trace : MailTrace
  pub format : String
  pub error : Option Error
  pub encrypted : Bool
  pub already_encrypted : Bool

pub record Auditor (W : Type 0) : Type 0 where
  pub record_event : AuditEvent → Act W (Unit {0})

pub record NoOpProcessor : Type 0 where
  pub static_plan : ExecutionPlan
  pub plan_resolve : Option (MailTrace → Result ExecutionPlan)

pub record EncryptingProcessor (W : Type 0) : Type 0 where
  pub encryptor : Option (MimeEncryptor W)
  pub auditor : Option (Auditor W)
  pub static_plan : ExecutionPlan
  pub plan_resolve : Option (MailTrace → Result ExecutionPlan)

-- resolvePlan of both processors
abbrev pub resolve_plan :
    Option (MailTrace → Result ExecutionPlan) → ExecutionPlan → MailTrace → Result ExecutionPlan
resolve_plan (some f) plan trace = f trace
resolve_plan none plan trace = elim (validate_plan plan) [ ok _ ↦ ok plan | err e ↦ err e ]

-- The attributes after ensureAttributes
abbrev pub ensured : Option (Assoc String) → Assoc String
ensured none = []
ensured (some m) = m

-- A read of a Go map: the empty text where the key is missing
abbrev pub attribute : String → Assoc String → String
attribute key m = elim (lookup key m) [ none ↦ "" | some v ↦ v ]

-- The format of a message whose attributes have none yet
abbrev pub with_format : Result (String × Bool) → Assoc String → Assoc String
with_format (ok (format, _)) m = if is_empty format then m else insert "format" format m
with_format (err e) m = m

-- The mark of a message whose attributes have none yet
unfoldable pub marked : Assoc String → Assoc String
unfolding has lookup insert is_empty
marked m =
    if has "encrypted" m
    then m
    else if attribute "already_encrypted" m == "true"
    then insert "encrypted" "true" m
    else if is_empty (attribute "format" m) || attribute "format" m == "plain"
    then insert "encrypted" "false" m
    else m

abbrev pub encrypted_attributes : String → Assoc String → Assoc String
encrypted_attributes format m =
    remove "already_encrypted" (insert "encrypted" "true" (insert "format" format m))

-- The trace of a message that is encrypted already
unfoldable pub already_encrypted : String → MailTrace → MailTrace
unfolding insert
already_encrypted format trace = record trace {
  attributes = some (
      insert "format" format
        (insert "encrypted" "true" (insert "already_encrypted" "true" (ensured trace.attributes))));
}

module _ {W : Type 0} (detector : Detector W) (call : Act W (Unit {0})) where
  abbrev pub formatted :
      MailEnvelope W → Assoc String → Result (String × Bool) × W → Result (Assoc String) × W
  formatted e m (r, w) = (ok (with_format r m), w)

  unfoldable pub detect_missing : MailEnvelope W → Assoc String → Act W (Assoc String)
  unfolding has lookup insert is_empty
  detect_missing e m w =
      if has "format" m then (ok m, w) else formatted e m (detector.detect e.mime w)

  abbrev pub passed : MailEnvelope W → MailTrace → ExecutionPlan → Assoc String → ProcessedMail W
  passed e trace plan m = record {
    trace = record trace { attributes = some m };
    plan = plan;
    mail = record { name = "mail"; mime = e.mime; attributes = some m };
    cleanup = none;
  }

  -- ProcessWithTrace, where there is a plan
  unfoldable pub pass_message : MailEnvelope W → MailTrace → ExecutionPlan → Act W (ProcessedMail W)
  unfolding detect_missing marked insert
  pass_message e trace plan =
      detect_missing e (insert "processor" "no-op" (ensured trace.attributes)) >>= λ m.
      pure (passed e trace plan (marked m))

  -- NoOpProcessor.ProcessWithTrace
  unfoldable pub process_with_trace :
      NoOpProcessor → MailEnvelope W → MailTrace → Act W (ProcessedMail W)
  unfolding validate_envelope validate_plan pass_message
  process_with_trace p e trace =
      lift (validate_envelope e)
      >> (lift (resolve_plan p.plan_resolve p.static_plan trace) >>= pass_message e trace)

  -- NoOpProcessor.Process
  unfoldable pub process_no_op : NoOpProcessor → MailEnvelope W → Act W (ProcessedMail W)
  unfolding process_with_trace
  process_no_op p e = process_with_trace p e e.trace

  -- EncryptingProcessor.record
  unfoldable pub record_step : EncryptingProcessor W → AuditEvent → Act W (Unit {0})
  record_step p event = elim p.auditor [ none ↦ pure tt | some a ↦ a.record_event event ]

  abbrev pub step_event : String → MailTrace → EncryptResult → Option Error → AuditEvent
  step_event name trace r error = record {
    event = name;
    trace = trace;
    format = r.format;
    error = error;
    encrypted = r.encrypted;
    already_encrypted = r.already_encrypted;
  }

  abbrev pub no_result : EncryptResult
  no_result = record { format = ""; encrypted = false; already_encrypted = false }

  -- createTempFile in a new temporary directory
  unfoldable pub temporary_file : Act W (Unit {0})
  temporary_file =
      wrapping (wrapped "创建 mailflow 临时目录失败") call
      >> (wrapping (wrapped "创建临时文件失败") call >> wrapping (wrapped "设置临时文件权限失败") call)

  -- os.Open on the file that the encryptor has written
  abbrev pub open_file : List ℕ → Opener W
  open_file bytes = call >> pure (record { bytes = bytes; failure = none })

  abbrev pub encrypted_mail :
      MailTrace → ExecutionPlan → Assoc String → EncryptResult × List ℕ → ProcessedMail W
  encrypted_mail trace plan m (r, bytes) = record {
    trace = record trace { attributes = some (encrypted_attributes r.format m) };
    plan = plan;
    mail = record {
      name = "mail";
      mime = some (open_file bytes);
      attributes = some (("format", r.format) ∷ []);
    };
    cleanup = some call;
  }

  -- The encryptor's run, with the record of its failure, whose own error is dropped
  abbrev pub encrypted_or_recorded :
      EncryptingProcessor W
      → MailTrace
      → Result (EncryptResult × List ℕ) × W
      → Result (EncryptResult × List ℕ) × W
  encrypted_or_recorded p trace (ok r, w) = (ok r, w)
  encrypted_or_recorded p trace (err e, w) =
      (err e, (record_step p (step_event "mailflow_process_failed" trace no_result (some e)) w).1)

  unfoldable pub run_encryptor :
      EncryptingProcessor W
      → MimeEncryptor W
      → MailEnvelope W
      → MailTrace
      → Act W (EncryptResult × List ℕ)
  unfolding record_step
  run_encryptor p encryptor e trace w =
      encrypted_or_recorded p trace (encryptor.run_from_opener e.mime w)

  abbrev pub completed_event : MailTrace → EncryptResult → AuditEvent
  completed_event trace r =
      step_event "mailflow_process_completed"
        (record trace {
          attributes = some (encrypted_attributes r.format (ensured trace.attributes));
        })
        r none

  -- From the end of the encryptor's run on
  unfoldable pub finish_encrypting :
      EncryptingProcessor W
      → MailTrace
      → ExecutionPlan
      → EncryptResult × List ℕ
      → Act W (ProcessedMail W)
  unfolding record_step insert remove
  finish_encrypting p trace plan r =
      wrapping (wrapped "关闭 encrypted 文件失败") call
      >> (record_step p (completed_event trace r.0)
          >> pure (encrypted_mail trace plan (ensured trace.attributes) r))

  -- Process, where there is an encryptor and a plan; that the temporary directory is removed after an
  -- error is left out.
  unfoldable pub encrypt_message :
      EncryptingProcessor W
      → MimeEncryptor W
      → MailEnvelope W
      → MailTrace
      → ExecutionPlan
      → Act W (ProcessedMail W)
  unfolding record_step temporary_file run_encryptor finish_encrypting
  encrypt_message p encryptor e trace plan =
      record_step p (step_event "mailflow_process_started" trace no_result none)
      >> (temporary_file >> (run_encryptor p encryptor e trace >>= finish_encrypting p trace plan))

  abbrev pub encrypting_trace : MailTrace → MailTrace
  encrypting_trace trace = record trace {
    attributes = some (insert "processor" "mime-encrypt" (ensured trace.attributes));
  }

  unfoldable pub with_encryptor :
      EncryptingProcessor W → MailEnvelope W → Option (MimeEncryptor W) → Act W (ProcessedMail W)
  unfolding encrypt_message validate_plan insert
  with_encryptor p e none w = (err (failed "encryptor 未配置"), w)
  with_encryptor p e (some encryptor) w =
      (lift (resolve_plan p.plan_resolve p.static_plan e.trace)
          >>= encrypt_message p encryptor e (encrypting_trace e.trace))
        w

  -- EncryptingProcessor.Process
  unfoldable pub process_encrypting :
      EncryptingProcessor W → MailEnvelope W → Act W (ProcessedMail W)
  unfolding validate_envelope with_encryptor
  process_encrypting p e = lift (validate_envelope e) >> with_encryptor p e p.encryptor

  abbrev pub processed_as :
      NoOpProcessor
      → EncryptingProcessor W
      → MailEnvelope W
      → String × Bool
      → Act W (ProcessedMail W)
  processed_as no_op encrypting e (format, is_encrypted) =
      if is_encrypted
      then process_with_trace no_op e (already_encrypted format e.trace)
      else process_encrypting encrypting e

  -- ContextualProcessor.Process
  unfoldable pub process_contextual :
      NoOpProcessor → EncryptingProcessor W → MailEnvelope W → Act W (ProcessedMail W)
  unfolding process_with_trace process_encrypting already_encrypted
  process_contextual no_op encrypting e =
      wrapping (wrapped "检测 MIME 加密格式失败") (detector.detect e.mime)
      >>= processed_as no_op encrypting e
