-- ===== src/Adapters/Spool/Operations.antt =====
-- push_spool.go: a spool over time, as the sequence of the operations on it.
use mime_crypt.Base.{
  ℕ, ◌+◌, String, Bool, true, false, Option, some, List, [], ◌∷◌, ◌≡◌, refl, inl, ap, ◌∙◌,
}
use mime_crypt.Base.Text.{◌==◌, trim_space}
use mime_crypt.Base.Lists.{All}
use mime_crypt.Base.Assoc.{lookup, lookup-insert_self}
use mime_crypt.Base.Effect.{ok, err, After}
use mime_crypt.Mailflow.Errors.{Result}
use mime_crypt.Mailflow.Ports.{Reader}
use mime_crypt.Adapters.Spool.Disk.{Node, dir, Disk, PushSpool, is_entry_name}
use mime_crypt.Adapters.Spool.Queue.{
  PushMessage, enqueue_reader, message_key, message_meta, arrival, claim_next,
}
use mime_crypt.Adapters.Spool.Ack.{prepare_ack, finalize_ack, requeue_processing}
use mime_crypt.Adapters.Spool.Cleanup.{QueuesAre}
use mime_crypt.Adapters.Spool.Enqueue.{Enqueued, enqueue-Enqueued}
use mime_crypt.Adapters.Spool.Loss.{IsSolid, Holds, claim_next-Keeps}
use mime_crypt.Adapters.Spool.Keeping.{
  requeue_processing-Keeps, prepare_ack-Keeps, finalize_ack-Keeps, enqueue_reader-Holds,
}

-- A method of the spool with its arguments, or time that passes.
pub data Operation : Type 0 where
  enqueueing : PushMessage → Option Reader → Operation
  claiming requeueing : Operation
  preparing finalizing : String → Operation
  waiting : ℕ → Operation

abbrev pub perform : (String → String) → PushSpool → Operation → Disk → Disk
perform digest s (enqueueing m mime) d = (enqueue_reader digest s m mime d).1
perform digest s claiming d = (claim_next s d).1
perform digest s requeueing d = (requeue_processing s d).1
perform digest s (preparing key) d = (prepare_ack s key d).1
perform digest s (finalizing key) d = (finalize_ack s key d).1
perform digest s (waiting n) d = record d { now = d.now + n }

abbrev pub perform_all : (String → String) → PushSpool → List Operation → Disk → Disk
perform_all digest s [] d = d
perform_all digest s (op ∷ ops) d = perform_all digest s ops (perform digest s op d)

-- The operation does not finalize this message, and its key, if it has one, is the name of an entry.
abbrev pub Spares : String → Operation → Type 0
Spares key (finalizing c) = (is_entry_name (trim_space c) ≡ true) × ((trim_space c == key) ≡ false)
Spares key (preparing c) = is_entry_name (trim_space c) ≡ true
Spares key op = Unit

perform-Holds :
    (digest : String → String) (s : PushSpool) (key : String) (n : Node) (op : Operation) (d : Disk)
    → IsSolid n
    → Spares key op
    → Holds key n d
    → Holds key n (perform digest s op d)
perform-Holds digest s key n (enqueueing m mime) d solid spared h =
    enqueue_reader-Holds key n solid digest s m mime d h
perform-Holds digest s key n claiming d solid spared h = (claim_next-Keeps key n solid s).at d h
perform-Holds digest s key n requeueing d solid spared h =
    (requeue_processing-Keeps key n solid s).at d h
perform-Holds digest s key n (preparing c) d solid spared h =
    (prepare_ack-Keeps key n solid s c spared).at d h
perform-Holds digest s key n (finalizing c) d solid spared h =
    (finalize_ack-Keeps key n solid s c (spared.0) (spared.1)).at d h
perform-Holds digest s key n (waiting t) d solid spared h = h

-- No sequence of operations, whatever calls of the operating system fail, loses or changes a
-- message that is queued, unless the sequence finalizes that very message or acknowledges a key that
-- is not the name of an entry: a directory stays under its key in pending or in processing, with its
-- metadata and its bytes.
pub perform_all-Holds :
    (digest : String → String) (s : PushSpool) (key : String) (n : Node) (ops : List Operation)
    (d : Disk)
    → IsSolid n
    → All (Spares key) ops
    → Holds key n d
    → Holds key n (perform_all digest s ops d)
perform_all-Holds digest s key n [] d solid spared h = h
perform_all-Holds digest s key n (op ∷ ops) d solid spared h =
    perform_all-Holds digest s key n ops (perform digest s op d) solid (spared.1)
      (perform-Holds digest s key n op d solid (spared.0) h)

abbrev queued_node : PushMessage → Reader → Disk → Node
queued_node m mime d =
    dir (some (some (message_meta m (arrival d.now m.received_at)))) (some mime.bytes)

accepted-Holds :
    (key : String) (m : PushMessage) (mime : Reader) (d : Disk) (r : Result Bool × Disk)
    → After
        (Enqueued d.pending d.processing key (message_meta m (arrival d.now m.received_at)) mime)
        (λ _ v. QueuesAre d.pending d.processing v)
        r
    → r.0 ≡ ok false
    → Holds key (queued_node m mime d) r.1
accepted-Holds key m mime d (ok true, v) a h = cc
accepted-Holds key m mime d (ok false, v) a h =
    inl (ap (lookup key) (a.0) ∙ lookup-insert_self key _ d.pending)
accepted-Holds key m mime d (err x, v) a h = cc

-- A message that EnqueueReader took as new is still queued, with the metadata and the bytes that it
-- came with, after every sequence of operations that does not finalize it and that acknowledges
-- only keys that are names of entries, whatever calls of the operating system fail.
pub enqueue_reader-perform_all :
    (digest : String → String) (s : PushSpool) (m : PushMessage) (mime : Reader)
    (ops : List Operation) (d : Disk)
    → (enqueue_reader digest s m (some mime) d).0 ≡ ok false
    → All (Spares (message_key digest m.delivery_id)) ops
    → Holds
        (message_key digest m.delivery_id)
        (dir (some (some (message_meta m (arrival d.now m.received_at)))) (some mime.bytes))
        (perform_all digest s ops (enqueue_reader digest s m (some mime) d).1)
enqueue_reader-perform_all digest s m mime ops d accepted spared =
    perform_all-Holds digest s (message_key digest m.delivery_id) (queued_node m mime d) ops
      (enqueue_reader digest s m (some mime) d).1 refl spared
      (accepted-Holds (message_key digest m.delivery_id) m mime d
        (enqueue_reader digest s m (some mime) d) (enqueue-Enqueued digest s m mime d) accepted)
