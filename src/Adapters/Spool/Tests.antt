-- ===== src/Adapters/Spool/Tests.antt =====
-- push_spool.go: a spool on a disk, runs on it, and the theorems at its inputs.
use mime_crypt.Base.{
  if◌then◌else◌, false, ◌≢◌, nat_eq, inl, List, String, true, none, some, [], ◌∷◌, ◌≡◌, refl,
}
use mime_crypt.Base.Assoc.{lookup, insert, remove}
use mime_crypt.Base.Effect.{err, ok, raise, After}
use mime_crypt.Mailflow.Errors.{Error, not_exist}
use mime_crypt.Mailflow.Ports.{Reader}
use mime_crypt.Adapters.Spool.Disk.{PushMessageMeta, Node, dir, Disk, PushSpool, is_entry_name}
use mime_crypt.Adapters.Spool.Queue.{
  PushMessage, message_key, message_meta, enqueue, enqueue_reader, claim_next,
}
use mime_crypt.Adapters.Spool.Operations.{
  Operation, claiming, requeueing, waiting, finalizing, preparing, perform_all, perform_all-Holds,
  enqueue_reader-perform_all,
}
use mime_crypt.Adapters.Spool.Replay.{enqueue_reader-ne_new}
use mime_crypt.Adapters.Spool.Torn.{enqueue_reader-torn}
use mime_crypt.Adapters.Spool.Loss.{Holds}
use mime_crypt.Adapters.Spool.Ack.{prepare_ack, finalize_ack, requeue_processing}
use mime_crypt.Adapters.Spool.Cleanup.{QueuesAre}
use mime_crypt.Adapters.Spool.Enqueue.{Enqueued, enqueue-Enqueued}

abbrev same : String → String
same s = s

abbrev spool : PushSpool
spool = record {
  dir_name = "spool";
  replay_retention = 10;
  prepare_at = λ key. raise not_exist;
  finalize_at = λ key d. (ok tt, record d { processing = [] });
}

abbrev message : PushMessage
message = record {
  delivery_id = " a ";
  internet_message_id = "<1>";
  received_at = 0;
  mime = 1 ∷ 2 ∷ [];
  attributes = some [];
}

abbrev mime : Reader
mime = record { bytes = 1 ∷ 2 ∷ []; failure = none }

abbrev empty : Disk
empty = record { pending = []; processing = []; seen = []; now = 5; calls = 0; faults = λ n. none }

abbrev meta : PushMessageMeta
meta = record {
  delivery_id = " a ";
  internet_message_id = "<1>";
  received_at = 5;
  attributes = none;
}

abbrev node : Node
node = dir (some (some meta)) (some (1 ∷ 2 ∷ []))

abbrev queued : Disk
queued = (enqueue same spool message empty).1

queued_pending : queued.pending ≡ ("a", node) ∷ []
unfolding enqueue insert remove
queued_pending = refl

-- The second delivery of a message is a duplicate.
redelivered : (enqueue same spool message queued).0 ≡ ok true
unfolding enqueue insert remove
redelivered = refl

abbrev claimed_disk : Disk
claimed_disk = (claim_next spool queued).1

claimed_message : (claim_next spool queued).0 ≡ ok (some (record { key = "a"; meta = meta }))
unfolding enqueue claim_next insert remove
claimed_message = refl

abbrev acked : Disk
acked = (finalize_ack spool "a" (prepare_ack spool "a" claimed_disk).1).1

acked_processing : acked.processing ≡ []
unfolding enqueue claim_next prepare_ack finalize_ack insert remove
acked_processing = refl

-- A delivery that comes back after its acknowledgement is a duplicate still.
replayed : (enqueue same spool message acked).0 ≡ ok true
unfolding enqueue claim_next prepare_ack finalize_ack insert remove
replayed = refl

requeued : (requeue_processing spool claimed_disk).1.pending ≡ ("a", node) ∷ []
unfolding enqueue claim_next requeue_processing insert remove
requeued = refl

enqueue-Enqueued_example :
    After {E = Error}
      (Enqueued [] [] (message_key same " a ") (message_meta message 5) mime)
      (λ _ v. QueuesAre [] [] v)
      (enqueue_reader same spool message (some mime) empty)
enqueue-Enqueued_example = enqueue-Enqueued same spool message mime empty

abbrev crash : List Operation
crash = claiming ∷ preparing "a" ∷ requeueing ∷ finalizing "b" ∷ waiting 3 ∷ claiming ∷ []

perform_all-Holds_example : Holds "a" node (perform_all same spool crash queued)
unfolding enqueue insert remove is_entry_name
perform_all-Holds_example =
    perform_all-Holds same spool "a" node crash queued refl
      (tt, (refl, (tt, ((refl, refl), (tt, (tt, tt)))))) (inl refl)

enqueue_reader-perform_all_example :
    Holds
      (message_key same " a ")
      (dir (some (some (message_meta message 5))) (some (1 ∷ 2 ∷ [])))
      (perform_all same spool crash (enqueue_reader same spool message (some mime) empty).1)
unfolding enqueue_reader insert remove is_entry_name
enqueue_reader-perform_all_example =
    enqueue_reader-perform_all same spool message mime crash empty refl
      (tt, (refl, (tt, ((refl, refl), (tt, (tt, tt))))))

-- The write of the marker fails after its file was created.
abbrev torn : Disk
torn =
    (prepare_ack spool "a"
      (record claimed_disk { calls = 0; faults = λ n. if nat_eq n 7 then some 28 else none })).1

torn_seen : torn.seen ≡ ("a", none) ∷ []
unfolding enqueue claim_next prepare_ack insert remove
torn_seen = refl

-- The acknowledgement that is tried again takes the torn file for a marker.
torn_again : (prepare_ack spool "a" torn).1.seen ≡ ("a", none) ∷ []
unfolding enqueue claim_next prepare_ack insert remove
torn_again = refl

enqueue_reader-torn_example :
    (x : Error) × ((enqueue_reader same spool message (some mime) torn).0 ≡ err x)
unfolding enqueue claim_next prepare_ack insert remove
enqueue_reader-torn_example = enqueue_reader-torn same spool message (some mime) torn "a" refl refl

abbrev seen_disk : Disk
seen_disk = record empty { seen = ("a", some (record { delivery_id = " a "; seen_at = 1 })) ∷ [] }

enqueue_reader-ne_new_example :
    (enqueue_reader same spool message (some mime) seen_disk).0 ≢ ok false
unfolding message_key lookup
enqueue_reader-ne_new_example =
    enqueue_reader-ne_new same spool message (some mime) seen_disk
      (record { delivery_id = " a "; seen_at = 1 }) refl refl
