-- ===== src/Adapters/Push/Keeping.antt =====
-- push_producer.go: Next loses no message.
use mime_crypt.Base.{String, Option, none, some, Bool}
use mime_crypt.Base.Effect.{
  Keeps, Keeps-bind, Keeps-then, Keeps-if, Keeps-pure, Keeps-raise, Keeps-within,
}
use mime_crypt.Mailflow.Errors.{Act, Result, Error, failed, no_messages}
use mime_crypt.Adapters.Spool.Disk.{Node, Disk, PushSpool}
use mime_crypt.Adapters.Spool.Queue.{Claim, claim_next}
use mime_crypt.Adapters.Spool.Ack.{requeue_processing}
use mime_crypt.Adapters.Spool.Loss.{IsSolid, Holds, claim_next-Keeps}
use mime_crypt.Adapters.Spool.Keeping.{requeue_processing-Keeps}
use mime_crypt.Adapters.Push.{
  PushProducer, PushWorld, kept_flag, on_disk, set_requeued, requeue_once, offer_claim, take_pushed,
  next_with_spool, next_pushed,
}

module _ (P : Disk → Type 0) where
  kept_flag-Keeps : {A : Type 0} (b : Bool) (r : Result A × Disk) → P r.1 → P (kept_flag b r).1.disk
  kept_flag-Keeps b (r, d) h = h

  pub on_disk-Keeps : {A : Type 0} (m : Act Disk A) → Keeps P m → Keeps (λ w. P w.disk) (on_disk m)
  on_disk-Keeps m k = record { at = λ w h. kept_flag-Keeps w.requeued (m w.disk) (k.at w.disk h) }

module _ (key : String) (n : Node) (solid : IsSolid n) where
  abbrev Q : PushWorld → Type 0
  Q w = Holds key n w.disk

  set_requeued-Keeps : Keeps {E = Error} Q set_requeued
  set_requeued-Keeps = record { at = λ w h. h }

  requeue_once-Keeps : (s : PushSpool) → Keeps Q (requeue_once s)
  unfolding requeue_once
  requeue_once-Keeps s = Keeps-within _ λ w. Keeps-if w.requeued _ _ (Keeps-pure tt) (
      Keeps-then _ _
        (on_disk-Keeps (Holds key n) (requeue_processing s)
          (requeue_processing-Keeps key n solid s))
        set_requeued-Keeps)

  offer_claim-Keeps : (p : PushProducer) (s : PushSpool) (c : Claim) → Keeps Q (offer_claim p s c)
  unfolding offer_claim
  offer_claim-Keeps p s none = Keeps-raise no_messages
  offer_claim-Keeps p s (some c) = Keeps-pure _

  take_pushed-Keeps : (p : PushProducer) (s : PushSpool) → Keeps Q (take_pushed p s)
  unfolding take_pushed
  take_pushed-Keeps p s = Keeps-then _ _ (requeue_once-Keeps s) (
      Keeps-bind _ _ (on_disk-Keeps (Holds key n) (claim_next s) (claim_next-Keeps key n solid s))
        (offer_claim-Keeps p s))

  next_with_spool-Keeps : (p : PushProducer) (s : Option PushSpool) → Keeps Q (next_with_spool p s)
  unfolding next_with_spool
  next_with_spool-Keeps p none = Keeps-raise (failed "push spool 未配置")
  next_with_spool-Keeps p (some s) = take_pushed-Keeps p s

  -- However a call of PushProducer.Next ends, each message that was queued in the spool, as a
  -- directory, is queued still, with its metadata and its bytes: in pending, or in processing.
  pub next_pushed-Holds :
      (p : PushProducer) (w : PushWorld) → Holds key n w.disk → Holds key n (next_pushed p w).1.disk
  unfolding next_pushed
  next_pushed-Holds p = (next_with_spool-Keeps p p.spool).at
