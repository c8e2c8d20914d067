-- ===== src/Adapters/Push.antt =====
-- push_producer.go: messages from the push spool. The world is the spool's disk with the producer's
-- own flag; the mutex is left out, since each method runs alone.
mod Keeping
mod Offers
mod Tests
use mime_crypt.Base.{String, Bool, true, Option, none, some, if◌then◌else◌}
use mime_crypt.Base.Text.{trim_space}
use mime_crypt.Base.Assoc.{lookup}
use mime_crypt.Base.Effect.{ok, err, pure, raise, within, ◌>>=◌, ◌>>◌}
use mime_crypt.Mailflow.Errors.{Act, Result, failed, external, not_exist, no_messages}
use mime_crypt.Mailflow.Types.{StoreRef, DeleteSemantics}
use mime_crypt.Mailflow.Ports.{Reader, SourceHandle, MailEnvelope}
use mime_crypt.Adapters.Envelope.{source_key}
use mime_crypt.Adapters.Spool.Disk.{Node, file, dir, Disk, PushSpool, sys}
use mime_crypt.Adapters.Spool.Queue.{ClaimedPushMessage, Claim, clone_attributes, claim_next}
use mime_crypt.Adapters.Spool.Ack.{prepare_ack, finalize_ack, requeue_processing}

pub record PushProducer : Type 0 where
  pub name : String
  pub driver : String
  pub store : StoreRef
  pub spool : Option PushSpool
  pub delete_semantics : DeleteSemantics

pub record PushWorld : Type 0 where
  pub disk : Disk
  pub requeued : Bool

abbrev pub kept_flag : {A : Type 0} → Bool → Result A × Disk → Result A × PushWorld
kept_flag b (r, d) = (r, record { disk = d; requeued = b })

abbrev pub on_disk : {A : Type 0} → Act Disk A → Act PushWorld A
on_disk m w = kept_flag w.requeued (m w.disk)

-- A file that is open; its reader fails when the disk does.
abbrev pub open_bytes : Option Node → Act Disk Reader
open_bytes (some (dir m (some bytes))) d = (
  ok (record {
    bytes = bytes;
    failure = elim (d.faults d.calls) [ none ↦ none | some n ↦ some (external n) ];
  }),
  d,
)
open_bytes _ d = (err not_exist, d)

-- os.Open of the message file of a claimed message
unfoldable pub open_message : String → Act Disk Reader
unfolding sys lookup within
open_message key = sys >> within (λ d. open_bytes (lookup key d.processing))

-- pushSourceHandle
unfoldable pub push_handle : PushSpool → String → SourceHandle PushWorld
unfolding prepare_ack finalize_ack
push_handle s key = record {
  acknowledge = on_disk (prepare_ack s key);
  finalize = some (on_disk (finalize_ack s key));
  delete = some (raise (failed "push 来源不支持删除"));
}

unfoldable pub push_envelope :
    PushProducer → PushSpool → ClaimedPushMessage → MailEnvelope PushWorld
unfolding open_message push_handle source_key trim_space
push_envelope p s c = record {
  mime = some (on_disk (open_message c.key));
  trace = record {
    transaction_key = source_key p.name p.driver c.meta.delivery_id;
    source_name = trim_space p.name;
    source_driver = trim_space p.driver;
    source_message_id = c.meta.delivery_id;
    source_folder_id = "";
    internet_message_id = c.meta.internet_message_id;
    received_at = c.meta.received_at;
    source_store = p.store;
    attributes = clone_attributes c.meta.attributes;
  };
  source = some (push_handle s c.key);
  delete_semantics = p.delete_semantics;
}

abbrev pub set_requeued : Act PushWorld (Unit {0})
set_requeued w = (ok tt, record w { requeued = true })

-- The first call puts back what an earlier process had claimed.
unfoldable pub requeue_once : PushSpool → Act PushWorld (Unit {0})
unfolding within requeue_processing
requeue_once s =
    within (λ w. if w.requeued then pure tt else (on_disk (requeue_processing s) >> set_requeued))

unfoldable pub offer_claim :
    PushProducer → PushSpool → Claim → Act PushWorld (MailEnvelope PushWorld)
unfolding push_envelope
offer_claim p s none = raise no_messages
offer_claim p s (some c) = pure (push_envelope p s c)

unfoldable pub take_pushed : PushProducer → PushSpool → Act PushWorld (MailEnvelope PushWorld)
unfolding requeue_once claim_next offer_claim
take_pushed p s = requeue_once s >> (on_disk (claim_next s) >>= λ c. offer_claim p s c)

unfoldable pub next_with_spool :
    PushProducer → Option PushSpool → Act PushWorld (MailEnvelope PushWorld)
unfolding take_pushed
next_with_spool p none = raise (failed "push spool 未配置")
next_with_spool p (some s) = take_pushed p s

-- PushProducer.Next
unfoldable pub next_pushed : PushProducer → Act PushWorld (MailEnvelope PushWorld)
unfolding next_with_spool
next_pushed p = next_with_spool p p.spool
