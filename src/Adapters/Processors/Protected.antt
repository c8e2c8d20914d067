-- ===== src/Adapters/Processors/Protected.antt =====
-- contextual_processor.go: what is delivered is encrypted.
use mime_crypt.Base.{
  ℕ, String, Bool, true, false, Option, none, some, List, ◌≡◌, refl, ap, ◌∙◌, ◌⊎◌, inl, inr,
  if◌then◌else◌, if_rule, is_some,
}
use mime_crypt.Base.Text.{◌==◌, is_empty}
use mime_crypt.Base.Assoc.{Assoc, lookup, insert, has, lookup-insert, lookup-remove}
use mime_crypt.Base.Effect.{Outcome, ok, err, pure, lift, continue, ◌>>◌, After, bind_rule}
use mime_crypt.Mailflow.Types.{MailTrace, ExecutionPlan}
use mime_crypt.Mailflow.Errors.{Act, Result, Error, reword, wrapped, wrapping}
use mime_crypt.Mailflow.Ports.{MailEnvelope, ProcessedMail, validate_envelope}
use mime_crypt.Adapters.Processors.{
  Detector, EncryptResult, MimeEncryptor, NoOpProcessor, EncryptingProcessor, resolve_plan, ensured,
  with_format, marked, detect_missing, passed, pass_message, process_with_trace, finish_encrypting,
  encrypting_trace, completed_event, record_step, step_event, no_result, temporary_file,
  encrypted_attributes, open_file, encrypted_mail, encrypted_or_recorded, run_encryptor,
  encrypt_message, with_encryptor, process_encrypting, already_encrypted, processed_as,
  process_contextual,
}

-- The attributes say that the message is encrypted.
abbrev pub SaysEncrypted : Assoc String → Type 0
SaysEncrypted m = lookup "encrypted" m ≡ some "true"

insert-SaysEncrypted :
    (key value : String) (m : Assoc String)
    → (key == "encrypted") ≡ false
    → SaysEncrypted m
    → SaysEncrypted (insert key value m)
insert-SaysEncrypted key value m other h =
    lookup-insert key "encrypted" value m ∙ rw (other, if◌then◌else◌) h

inserted-SaysEncrypted : (m : Assoc String) → SaysEncrypted (insert "encrypted" "true" m)
inserted-SaysEncrypted m = lookup-insert "encrypted" "encrypted" "true" m

marked-SaysEncrypted : (m : Assoc String) → SaysEncrypted m → SaysEncrypted (marked m)
unfolding marked has
marked-SaysEncrypted m h = rw (h, is_some, if◌then◌else◌) h

with_format-SaysEncrypted :
    (r : Result (String × Bool)) (m : Assoc String)
    → SaysEncrypted m
    → SaysEncrypted (with_format r m)
with_format-SaysEncrypted (ok (format, b)) m h =
    if_rule SaysEncrypted (is_empty format) (λ _. h)
      (λ _. insert-SaysEncrypted "format" format m refl h)
with_format-SaysEncrypted (err e) m h = h

encrypted_attributes-SaysEncrypted :
    (format : String) (m : Assoc String) → SaysEncrypted (encrypted_attributes format m)
encrypted_attributes-SaysEncrypted format m =
    lookup-remove "already_encrypted" "encrypted"
      (insert "encrypted" "true" (insert "format" format m))
    ∙ inserted-SaysEncrypted (insert "format" format m)

reword-inv :
    {W A : Type 0} (c : Error → Error) (r : Result A × W) (a : A) (v : W)
    → reword c r ≡ (ok a, v)
    → r ≡ (ok a, v)
reword-inv c (ok b, w) a v h = h
reword-inv c (err e, w) a v h = absurd (clash (ap (λ x. x.0) h))
  where
    clash : {E A : Type 0} {e : E} {a : A} → ◌≡◌ {A = Outcome E A} (err e) (ok a) → ⊥
    clash h = cc

module _ {W : Type 0} (detector : Detector W) (call : Act W (Unit {0})) (no_op : NoOpProcessor)
    (encrypting : EncryptingProcessor W) (e : MailEnvelope W) where
  -- The detector found the message encrypted, and it is passed on as it came.
  abbrev pub Passed : ProcessedMail W → Type 0
  Passed m =
      (format : String) × (w : W) × (v : W) × (detector.detect e.mime w ≡ (ok (format, true), v))
      × (m.mail.mime ≡ e.mime)

  -- The message is what the encryptor has made of it.
  abbrev pub Encrypted : ProcessedMail W → Type 0
  Encrypted m =
      (encryptor : MimeEncryptor W) × (r : EncryptResult) × (bytes : List ℕ) × (w : W) × (v : W)
      × (encrypting.encryptor ≡ some encryptor)
      × (encryptor.run_from_opener e.mime w ≡ (ok (r, bytes), v))
      × (m.mail.mime ≡ some (open_file detector call bytes))

  abbrev pub Protected : ProcessedMail W → Type 0
  Protected m = SaysEncrypted (ensured m.trace.attributes) × (Passed m ⊎ Encrypted m)

  abbrev Good : Result (ProcessedMail W) × W → Type 0
  Good r = After (λ m _. Protected m) (λ (_ : Error) _. Unit {0}) r

  checked_trace :
      (format : String) → SaysEncrypted (ensured (already_encrypted format e.trace).attributes)
  unfolding already_encrypted
  checked_trace format =
      insert-SaysEncrypted "format" format
        (insert "encrypted" "true" (insert "already_encrypted" "true" (ensured e.trace.attributes)))
        refl
        (inserted-SaysEncrypted (insert "already_encrypted" "true" (ensured e.trace.attributes)))

  passed-Good :
      (trace : MailTrace) (plan : ExecutionPlan) (r : Result (Assoc String) × W)
      → ((m : ProcessedMail W) → m.mail.mime ≡ e.mime → Passed m)
      → After (λ m _. SaysEncrypted m) (λ (_ : Error) _. Unit {0}) r
      → Good (continue (λ m. pure (passed detector call e trace plan (marked m))) r)
  passed-Good trace plan (ok m, v) found h =
      (marked-SaysEncrypted m h, inl (found (passed detector call e trace plan (marked m)) refl))
  passed-Good trace plan (err x, v) found h = tt

  detected-After :
      (m : Assoc String) (w : W)
      → SaysEncrypted m
      → After
          (λ m _. SaysEncrypted m)
          (λ (_ : Error) _. Unit {0})
          (detect_missing detector call e m w)
  unfolding detect_missing
  detected-After m w h =
      if_rule
        (λ (r : Result (Assoc String) × W).
          After (λ m _. SaysEncrypted m) (λ (_ : Error) _. Unit {0}) r)
        (has "format" m) (λ _. h)
        (λ _. with_format-SaysEncrypted ((detector.detect e.mime w).0) m h)

  seq-Good :
      {A : Type 0} (m : Act W A) (k : Act W (ProcessedMail W)) (w : W)
      → ((v : W) → Good (k v))
      → Good ((m >> k) w)
  seq-Good m k w rest = bind_rule Good m (λ _. k) w (λ _ v _. rest v) (λ x v _. tt)

  pass-Good :
      (format : String) (plan : ExecutionPlan) (w : W)
      → ((m : ProcessedMail W) → m.mail.mime ≡ e.mime → Passed m)
      → Good (pass_message detector call e (already_encrypted format e.trace) plan w)
  unfolding pass_message
  pass-Good format plan w found =
      passed-Good (already_encrypted format e.trace) plan
        (detect_missing detector call e
          (insert "processor" "no-op" (ensured (already_encrypted format e.trace).attributes)) w)
        found
        (detected-After
          (insert "processor" "no-op" (ensured (already_encrypted format e.trace).attributes)) w
          (insert-SaysEncrypted "processor" "no-op"
            (ensured (already_encrypted format e.trace).attributes) refl (checked_trace format)))

  no_op-Good :
      (format : String) (w : W)
      → ((m : ProcessedMail W) → m.mail.mime ≡ e.mime → Passed m)
      → Good (process_with_trace detector call no_op e (already_encrypted format e.trace) w)
  unfolding process_with_trace
  no_op-Good format w found = seq-Good (lift (validate_envelope e)) _ w λ v.
      bind_rule Good
        (lift
          (resolve_plan no_op.plan_resolve no_op.static_plan (already_encrypted format e.trace)))
        (pass_message detector call e (already_encrypted format e.trace)) v
        (λ plan u _. pass-Good format plan u found) (λ x u _. tt)

  encrypted_or_recorded-inv :
      (trace : MailTrace) (r : Result (EncryptResult × List ℕ) × W) (a : EncryptResult × List ℕ)
      (v : W)
      → encrypted_or_recorded detector call encrypting trace r ≡ (ok a, v)
      → r ≡ (ok a, v)
  encrypted_or_recorded-inv trace (ok b, w) a v h = h
  encrypted_or_recorded-inv trace (err x, w) a v h = absurd (clash (ap (λ x. x.0) h))
    where
      clash : {x : Error} → ◌≡◌ {A = Result (EncryptResult × List ℕ)} (err x) (ok a) → ⊥
      clash h = cc

  finish-Good :
      (encryptor : MimeEncryptor W) (trace : MailTrace) (plan : ExecutionPlan)
      (r : EncryptResult × List ℕ) (b c w : W)
      → encrypting.encryptor ≡ some encryptor
      → encryptor.run_from_opener e.mime b ≡ (ok r, c)
      → Good (finish_encrypting detector call encrypting trace plan r w)
  unfolding finish_encrypting
  finish-Good encryptor trace plan r b c w known made =
      seq-Good (wrapping (wrapped "关闭 encrypted 文件失败") call) _ w λ d.
        seq-Good (record_step detector call encrypting (completed_event detector call trace r.0))
          (pure (encrypted_mail detector call trace plan (ensured trace.attributes) r)) d
          λ f. (
            encrypted_attributes-SaysEncrypted r.0.format (ensured trace.attributes),
            inr (encryptor, r.0, r.1, b, c, known, made, refl),
          )

  encrypt-Good :
      (encryptor : MimeEncryptor W) (trace : MailTrace) (plan : ExecutionPlan) (w : W)
      → encrypting.encryptor ≡ some encryptor
      → Good (encrypt_message detector call encrypting encryptor e trace plan w)
  unfolding encrypt_message run_encryptor
  encrypt-Good encryptor trace plan w known =
      seq-Good
        (record_step detector call encrypting (
          step_event detector call "mailflow_process_started" trace (no_result detector call) none))
        _ w
        λ a. seq-Good (temporary_file detector call) _ a λ b.
          bind_rule Good (run_encryptor detector call encrypting encryptor e trace)
            (finish_encrypting detector call encrypting trace plan) b
            (λ r c made.
              finish-Good encryptor trace plan r b c c known
                (encrypted_or_recorded-inv trace (encryptor.run_from_opener e.mime b) r c made))
            (λ x c _. tt)

  encryptor-Good :
      (o : Option (MimeEncryptor W)) (w : W)
      → encrypting.encryptor ≡ o
      → Good (with_encryptor detector call encrypting e o w)
  unfolding with_encryptor
  encryptor-Good none w known = tt
  encryptor-Good (some encryptor) w known =
      bind_rule Good (lift (resolve_plan encrypting.plan_resolve encrypting.static_plan e.trace))
        (encrypt_message detector call encrypting encryptor e
          (encrypting_trace detector call e.trace))
        w (λ plan a _. encrypt-Good encryptor (encrypting_trace detector call e.trace) plan a known)
        (λ x a _. tt)

  encrypting-Good : (w : W) → Good (process_encrypting detector call encrypting e w)
  unfolding process_encrypting
  encrypting-Good w =
      seq-Good (lift (validate_envelope e))
        (with_encryptor detector call encrypting e encrypting.encryptor) w
        λ v. encryptor-Good encrypting.encryptor v refl

  -- Whatever ContextualProcessor lets through is encrypted, and its attributes say so: the detector
  -- found it encrypted, and it is passed on as it came, or it is what the encryptor made of it.
  pub process_contextual-Protected :
      (w : W)
      → After
          (λ m _. Protected m)
          (λ (_ : Error) _. Unit {0})
          (process_contextual detector call no_op encrypting e w)
  unfolding process_contextual
  process_contextual-Protected w =
      bind_rule Good (wrapping (wrapped "检测 MIME 加密格式失败") (detector.detect e.mime))
        (processed_as detector call no_op encrypting e) w
        (λ r v found.
          if_rule (λ (a : Act W (ProcessedMail W)). Good (a v)) r.1
            (λ yes_encrypted. no_op-Good r.0 v λ m same. (
              r.0,
              w,
              v,
              reword-inv (wrapped "检测 MIME 加密格式失败") (detector.detect e.mime w) r v found
                  ∙ ap (λ b. (ok (r.0, b), v)) yes_encrypted,
              same,
            ))
            (λ _. encrypting-Good v))
        (λ x v _. tt)
