-- ===== src/Mailflow/Ports.antt =====
-- types.go: the interfaces between the coordinator and the rest of the program, as records of
-- actions on a world `W`, and the values that carry them.
use mime_crypt.Base.{String, Option, none, some, ℕ, List}
use mime_crypt.Base.Assoc.{Assoc}
use mime_crypt.Base.Effect.{ok, err}
use mime_crypt.Mailflow.Types.{
  MailTrace, DeleteSemantics, DeliveryTarget, ExecutionPlan, DeliveryReceipt, TxState,
}
use mime_crypt.Mailflow.Errors.{Error, Result, Act, failed, wrapped}
use mime_crypt.Mailflow.Plan.{validate_trace, validate_plan}

-- An open reader: the bytes that it delivers, and the error that ends it, if one does.
pub record Reader : Type 0 where
  pub bytes : List ℕ
  pub failure : Option Error

-- MIMEOpener
abbrev pub Opener : Type 0 → Type 0
Opener W = Act W Reader

-- SourceHandle; `none` where the handle's type lacks SourceAckFinalizer or DeletableSource
pub record SourceHandle (W : Type 0) : Type 0 where
  pub acknowledge : Act W (Unit {0})
  pub finalize : Option (Act W (Unit {0}))
  pub delete : Option (Act W (Unit {0}))

pub record MailEnvelope (W : Type 0) : Type 0 where
  pub mime : Option (Opener W)
  pub trace : MailTrace
  pub source : Option (SourceHandle W)
  pub delete_semantics : DeleteSemantics

pub record MailObject (W : Type 0) : Type 0 where
  pub name : String
  pub mime : Option (Opener W)
  pub attributes : Option (Assoc String)

pub record ProcessedMail (W : Type 0) : Type 0 where
  pub trace : MailTrace
  pub plan : ExecutionPlan
  pub mail : MailObject W
  pub cleanup : Option (Act W (Unit {0}))

pub record ConsumeRequest (W : Type 0) : Type 0 where
  pub trace : MailTrace
  pub target : DeliveryTarget
  pub mail : MailObject W

pub record Producer (W : Type 0) : Type 0 where
  pub next : Act W (MailEnvelope W)

pub record Processor (W : Type 0) : Type 0 where
  pub process : MailEnvelope W → Act W (ProcessedMail W)

pub record Consumer (W : Type 0) : Type 0 where
  pub consume : ConsumeRequest W → Act W DeliveryReceipt

pub record StateStore (W : Type 0) : Type 0 where
  pub load : String → Act W (Option TxState)
  pub save : TxState → Act W (Unit {0})

module _ {W : Type 0} where
  -- MailEnvelope.Validate
  unfoldable pub validate_envelope : MailEnvelope W → Result (Unit {0})
  unfolding validate_trace
  validate_envelope e = elim e.mime [
    | none ↦ err (failed "原始 MIME 打开器不能为空")
    | some _ ↦ validate_trace e.trace
  ]

  -- MailObject.Validate
  unfoldable pub validate_object : MailObject W → Result (Unit {0})
  validate_object a = elim a.mime [ none ↦ err (failed "邮件对象 MIME 打开器不能为空") | some _ ↦ ok tt ]

  -- ProcessedMail.Validate
  unfoldable pub validate_processed : ProcessedMail W → Result (Unit {0})
  unfolding validate_object validate_plan validate_trace
  validate_processed m = elim (validate_trace m.trace) [
    | err e ↦ err e
    | ok _ ↦ elim (validate_plan m.plan) [
      | err e ↦ err e
      | ok _ ↦ elim (validate_object m.mail) [ err e ↦ err (wrapped "校验邮件对象失败" e) | ok _ ↦ ok tt ]
    ]
  ]

  -- ProcessedMail.Release
  unfoldable pub release : ProcessedMail W → Act W (Unit {0})
  release m w = elim m.cleanup [ none ↦ (ok tt, w) | some c ↦ c w ]
