-- ===== src/Adapters/Spool/Enqueue.antt =====
-- push_spool.go, EnqueueReader: what it does to the queued messages, whatever calls of the
-- operating system fail.
use mime_crypt.Base.{
  ℕ, String, Bool, true, Option, none, some, ◌≡◌, refl, sym, ap, if_rule, if◌then◌else◌, nat_eq,
}
use mime_crypt.Base.Text.{is_blank}
use mime_crypt.Base.Assoc.{Assoc, lookup, insert}
use mime_crypt.Base.Effect.{
  ok, err, pure, gets, within, ◌>>=◌, Keeps, Keeps-within, After, bind-After, Keeps-After,
}
use mime_crypt.Mailflow.Errors.{Act, Result, Error, wrapping, already_exists}
use mime_crypt.Mailflow.Ports.{Reader}
use mime_crypt.Fileutil.{write_file_atomic}
use mime_crypt.Adapters.Spool.Disk.{
  PushMessageMeta, Node, dir, Disk, PushSpool, sys, act, ensure_dirs, has_queued_message,
  rename_node, place, blocks,
}
use mime_crypt.Adapters.Spool.Queue.{
  PushMessage, cleanup_seen, has_fresh_seen_marker, message_key, message_meta, stage, submitted,
  submit_message, accept, arrival, enqueue_reader, add_pending, staged_file,
}
use mime_crypt.Adapters.Spool.Steps.{
  wrapping-Keeps, sys-Keeps, ensure_dirs-Keeps, has_queued_message-Keeps, write-Keeps,
  has_fresh_seen_marker-Keeps,
}
use mime_crypt.Adapters.Spool.Cleanup.{QueuesAre, blind, call, cleanup_seen-Keeps}

module _ (p q : Assoc Node) where
  -- The message stands in pending, where nothing was in its way, and nothing else has changed.
  abbrev pub Added : String → Node → Disk → Type 0
  Added key n d = (d.pending ≡ insert key n p) × (d.processing ≡ q) × (blocks (lookup key p) ≡ none)

  submitted-After :
      (key : String) (n : Node) (r : Result (Unit {0}) × Disk)
      → After (λ _ v. Added key n v) (λ _ v. QueuesAre p q v) r
      → After
          (λ (dup : Bool) v. if dup then QueuesAre p q v else Added key n v)
          (λ _ v. QueuesAre p q v)
          (submitted r)
  submitted-After key n (ok a, d) h = h
  submitted-After key n (err already_exists, d) h = h
  submitted-After key n (err x, d) h = h

  place-After :
      (key : String) (n : Node) (b : Option Error) (v : Disk)
      → blocks (lookup key p) ≡ b
      → QueuesAre p q v
      → After (λ _ v. Added key n v) (λ _ v. QueuesAre p q v) (place b (act (add_pending key n)) v)
  unfolding place
  place-After key n none v free h = (ap (insert key n) (h.0), h.1, free)
  place-After key n (some x) v taken h = h

  -- A rename of a staged message adds it, or does nothing.
  rename-After :
      (key : String) (n : Node) (d : Disk)
      → QueuesAre p q d
      → After
          (λ _ v. Added key n v)
          (λ _ v. QueuesAre p q v)
          (rename_node (some n) (lookup key d.pending) (add_pending key) d)
  unfolding rename_node
  rename-After key n d h =
      bind-After (λ _ v. QueuesAre p q v) (λ _ v. Added key n v) (λ _ v. QueuesAre p q v) (sys d) _
        (Keeps-After (QueuesAre p q) sys d (sys-Keeps (QueuesAre p q) (blind p q)) h)
        λ _ v k.
          place-After key n (blocks (lookup key d.pending)) v
            (ap (λ m. blocks (lookup key m)) (sym (h.0))) k

  submit-After :
      (key : String) (n : Node) (d : Disk)
      → QueuesAre p q d
      → After
          (λ (dup : Bool) v. if dup then QueuesAre p q v else Added key n v)
          (λ _ v. QueuesAre p q v)
          (submit_message key n d)
  unfolding submit_message
  submit-After key n d h = submitted-After key n _ (rename-After key n d h)

  abbrev Staged : PushMessageMeta → Reader → Node → Disk → Type 0
  Staged meta mime n v = (n ≡ dir (some (some meta)) (some mime.bytes)) × QueuesAre p q v

  abbrev Untouched : Error → Disk → Type 0
  Untouched x v = QueuesAre p q v

  -- A step that leaves the queues alone, before the rest of a block.
  quiet-After :
      {A B : Type 0} (m : Act Disk A) (f : A → Act Disk B) (Q : B → Disk → Type 0) (d : Disk)
      → Keeps (QueuesAre p q) m
      → QueuesAre p q d
      → ((a : A) (v : Disk) → QueuesAre p q v → After Q Untouched (f a v))
      → After Q Untouched ((m >>= f) d)
  quiet-After m f Q d k h rest =
      bind-After (λ _ v. QueuesAre p q v) Q Untouched (m d) f (Keeps-After (QueuesAre p q) m d k h)
        rest

  write :
      (c : Error → Error) (r : Reader)
      → Keeps (QueuesAre p q) (wrapping c (write_file_atomic sys (λ d. d) (some r)))
  write c r =
      wrapping-Keeps (QueuesAre p q) (blind p q) c _
        (write-Keeps (QueuesAre p q) (blind p q) (some r))

  stage-After :
      (key : String) (meta : PushMessageMeta) (mime : Reader) (d : Disk)
      → QueuesAre p q d
      → After (Staged meta mime) Untouched (stage key meta mime d)
  unfolding stage
  stage-After key meta mime d h = quiet-After _ _ (Staged meta mime) d (call p q _) h λ _ d₁ h₁.
      quiet-After _ _ (Staged meta mime) d₁ (call p q _) h₁ λ _ d₂ h₂.
        quiet-After _ _ (Staged meta mime) d₂ (write _ staged_file) h₂ λ _ d₃ h₃.
          quiet-After _ _ (Staged meta mime) d₃ (write _ mime) h₃ λ written d₄ h₄.
            if_rule (λ (m : Act Disk Node). After (Staged meta mime) Untouched (m d₄))
              (nat_eq written 0) (λ _. h₄) (λ _. (refl, h₄))

  -- The outcome of an enqueue: a new message is in pending; a duplicate or an error changes nothing.
  abbrev pub Enqueued : String → PushMessageMeta → Reader → Bool → Disk → Type 0
  Enqueued key meta mime dup v =
      if dup then QueuesAre p q v else Added key (dir (some (some meta)) (some mime.bytes)) v

  accept-After :
      (m : PushMessage) (received : ℕ) (key : String) (mime : Reader) (d : Disk)
      → QueuesAre p q d
      → After (Enqueued key (message_meta m received) mime) Untouched (accept m received key mime d)
  unfolding accept
  accept-After m received key mime d h =
      bind-After (Staged (message_meta m received) mime)
        (Enqueued key (message_meta m received) mime) Untouched
        (stage key (message_meta m received) mime d) (λ n. submit_message key n)
        (stage-After key (message_meta m received) mime d h)
        λ n v s. rw (s.0) (submit-After key _ v s.1)

  queued-After :
      (m : PushMessage) (received : ℕ) (key : String) (mime : Reader) (d : Disk)
      → QueuesAre p q d
      → After (Enqueued key (message_meta m received) mime) Untouched (
          (has_queued_message key >>= λ queued.
          if queued then pure true else accept m received key mime)
            d)
  queued-After m received key mime d h =
      quiet-After _ _ (Enqueued key (message_meta m received) mime) d
        (has_queued_message-Keeps (QueuesAre p q) (blind p q) key) h
        λ queued v k.
          if_rule
            (λ (a : Act Disk Bool).
              After (Enqueued key (message_meta m received) mime) Untouched (a v))
            queued (λ _. k) (λ _. accept-After m received key mime v k)

  fresh-After :
      (s : PushSpool) (m : PushMessage) (received : ℕ) (key : String) (mime : Reader) (d : Disk)
      → QueuesAre p q d
      → After (Enqueued key (message_meta m received) mime) Untouched (
          (within (λ v. has_fresh_seen_marker s (lookup key v.seen)) >>= λ fresh.
          if fresh
          then pure true
          else (has_queued_message key >>= λ queued.
              if queued then pure true else accept m received key mime))
            d)
  fresh-After s m received key mime d h =
      quiet-After (within (λ v. has_fresh_seen_marker s (lookup key v.seen)))
        (λ fresh.
          if fresh
          then pure true
          else (has_queued_message key >>= λ queued.
              if queued then pure true else accept m received key mime))
        (Enqueued key (message_meta m received) mime) d
        (Keeps-within _
          λ v. has_fresh_seen_marker-Keeps (QueuesAre p q) (blind p q) s (lookup key v.seen))
        h
        λ fresh v k.
          if_rule
            (λ (a : Act Disk Bool).
              After (Enqueued key (message_meta m received) mime) Untouched (a v))
            fresh (λ _. k) (λ _. queued-After m received key mime v k)

-- Whatever calls of the operating system fail, and whatever the two queues held: a message that is
-- taken as new stands in pending under the digest of its delivery id, with its metadata and all
-- bytes of its MIME, where no other message stood, and the queues are otherwise as they were; a
-- duplicate, or an error, leaves both queues as they were.
pub enqueue-Enqueued :
    (digest : String → String) (s : PushSpool) (m : PushMessage) (mime : Reader) (d : Disk)
    → After
        (Enqueued d.pending d.processing
          (message_key digest m.delivery_id)
          (message_meta m (arrival d.now m.received_at))
          mime)
        (λ _ v. QueuesAre d.pending d.processing v)
        (enqueue_reader digest s m (some mime) d)
unfolding enqueue_reader gets
enqueue-Enqueued digest s m mime d =
    if_rule (λ (a : Act Disk Bool). After Q X (a d)) (is_blank m.delivery_id) (λ _. (refl, refl))
      λ _.
        quiet-After p q (ensure_dirs s) _ Q d (ensure_dirs-Keeps (QueuesAre p q) (blind p q) s)
          (refl, refl)
          λ _ d₁ h₁.
            quiet-After p q (cleanup_seen s) _ Q d₁ (cleanup_seen-Keeps p q s) h₁ λ _ d₂ h₂.
              fresh-After p q s m (arrival d.now m.received_at) (message_key digest m.delivery_id)
                mime d₂ h₂
  where
    p : Assoc Node
    p = d.pending

    q : Assoc Node
    q = d.processing

    Q : Bool → Disk → Type 0
    Q =
        Enqueued p q (message_key digest m.delivery_id)
          (message_meta m (arrival d.now m.received_at)) mime

    X : Error → Disk → Type 0
    X _ v = QueuesAre p q v
