-- ===== src/Adapters/Push/Offers.antt =====
-- push_producer.go: no message that waits in the spool is passed over.
use mime_crypt.Base.{String, Bool, none, some, ◌≡◌, ◌≢◌, refl, sym, if_rule}
use mathlib.Core.Path.{subst}
use mime_crypt.Base.Effect.{ok, err, After, bind-After, within}
use mime_crypt.Mailflow.Errors.{Result, Act}
use mime_crypt.Mailflow.Ports.{MailEnvelope}
use mime_crypt.Adapters.Spool.Disk.{Disk, PushSpool}
use mime_crypt.Adapters.Spool.Queue.{Claim, claim_next}
use mime_crypt.Adapters.Spool.Ack.{requeue_processing}
use mime_crypt.Adapters.Spool.Waiting.{Alarm, Waits}
use mime_crypt.Adapters.Spool.Claiming.{claim_next-Answered}
use mime_crypt.Adapters.Spool.Requeueing.{requeue_processing-Still}
use mime_crypt.Adapters.Push.{
  PushProducer, PushWorld, kept_flag, on_disk, set_requeued, requeue_once, offer_claim, take_pushed,
  next_with_spool, next_pushed,
}

-- A step on the disk, seen from the producer.
kept_flag-After :
    {A : Type 0} (Q : A → Disk → Type 0) (b : Bool) (r : Result A × Disk)
    → After Q (λ e _. Alarm e) r
    → After (λ a (w : PushWorld). Q a w.disk) (λ e _. Alarm e) (kept_flag b r)
kept_flag-After Q b (ok a, d) h = h
kept_flag-After Q b (err e, d) h = h

-- A message is offered, or the error is an alarm.
abbrev Offered : Result (MailEnvelope PushWorld) × PushWorld → Type 0
Offered = After (λ _ _. Unit {0}) (λ e _. Alarm e)

offer_claim-Offered :
    (p : PushProducer) (s : PushSpool) (c : Claim) (w : PushWorld)
    → c ≢ none
    → Offered (offer_claim p s c w)
unfolding offer_claim
offer_claim-Offered p s none w h = elim (h refl) [ ]
offer_claim-Offered p s (some c) w h = tt

module _ (key : String) where
  requeue_once-Still :
      (s : PushSpool) (w : PushWorld)
      → Waits key w.disk
      → After (λ _ v. Waits key v.disk) (λ e _. Alarm e) (requeue_once s w)
  unfolding requeue_once within
  requeue_once-Still s w h =
      if_rule
        (λ (a : Act PushWorld (Unit {0})).
          After (λ _ (v : PushWorld). Waits key v.disk) (λ e _. Alarm e) (a w))
        w.requeued (λ done. h)
        (λ first.
          bind-After (λ _ (v : PushWorld). Waits key v.disk) (λ _ (v : PushWorld). Waits key v.disk)
            (λ e _. Alarm e) (on_disk (requeue_processing s) w) (λ _. set_requeued)
            (kept_flag-After (λ _ v. Waits key v) w.requeued (requeue_processing s w.disk)
              (requeue_processing-Still key s w.disk h))
            λ _ v x. x)

  take_pushed-Offered :
      (p : PushProducer) (s : PushSpool) (w : PushWorld)
      → Waits key w.disk
      → Offered (take_pushed p s w)
  unfolding take_pushed
  take_pushed-Offered p s w h =
      bind-After (λ _ (v : PushWorld). Waits key v.disk) (λ _ _. Unit {0}) (λ e _. Alarm e)
        (requeue_once s w) _ (requeue_once-Still s w h)
        λ _ v x.
          bind-After (λ (c : Claim) _. c ≢ none) (λ _ _. Unit {0}) (λ e _. Alarm e)
            (on_disk (claim_next s) v) (offer_claim p s)
            (kept_flag-After (λ (c : Claim) _. c ≢ none) v.requeued (claim_next s v.disk)
              (claim_next-Answered key s v.disk x))
            λ c u ne. offer_claim-Offered p s c u ne

  -- While a message waits in the spool, in pending and not in processing, PushProducer.Next does not
  -- say that there are no messages: it offers one, or it returns another error. This is so of its
  -- first call, which puts the claimed messages back, and of each later one, whatever calls of the
  -- operating system fail.
  pub next_pushed-Offered :
      (p : PushProducer) (s : PushSpool) (w : PushWorld)
      → p.spool ≡ some s
      → Waits key w.disk
      → After (λ _ _. Unit {0}) (λ e _. Alarm e) (next_pushed p w)
  unfolding next_pushed next_with_spool
  next_pushed-Offered p s w e h =
      subst (λ o. Offered (next_with_spool p o w)) (sym e) (take_pushed-Offered p s w h)
