-- ===== src/Adapters/Spool/Replay.antt =====
-- push_spool.go: what the seen markers do to a delivery that comes again.
use mime_crypt.Base.{
  ℕ, zero, suc, String, Bool, true, false, Option, none, some, ◌≡◌, refl, sym, arith, if_rule,
  if◌then◌else◌, nat_eq, ◌||◌, ◌≢◌,
}
use mathlib.Core.Path.{subst}
use mime_crypt.Base.Text.{is_blank}
use mime_crypt.Base.Assoc.{lookup}
use mime_crypt.Base.Effect.{ok, err, pure, within, gets, ◌>>=◌, After, bind-After}
use mime_crypt.Mailflow.Errors.{wrapping, wrapped, Act, Result, Error}
use mime_crypt.Mailflow.Ports.{Reader}
use mime_crypt.Adapters.Spool.Disk.{
  Disk, PushSpool, SeenMarker, sys, ensure_dirs, has_queued_message,
}
use mime_crypt.Adapters.Spool.Queue.{
  PushMessage, is_fresh, cleanup, cleanup_seen, has_fresh_seen_marker, message_key, arrival, accept,
  enqueue_reader,
}
use mime_crypt.Adapters.Spool.Steps.{ensure_dirs-Keeps}
use mime_crypt.Adapters.Spool.Markers.{Marked, quiet-After, call, Any, Kept, cleanup-After}

-- A marker that parses and is young enough, or is kept for ever.
abbrev pub IsCurrent : PushSpool → SeenMarker → ℕ → Type 0
IsCurrent s x t = (nat_eq s.replay_retention 0 || is_fresh s t x) ≡ true

module _ (s : PushSpool) (key : String) (x : SeenMarker) (t : ℕ) (current : IsCurrent s x t) where
  at-After :
      (n : ℕ) (d : Disk)
      → s.replay_retention ≡ n
      → Marked key (some x) t d
      → After (Kept key (some x) t) (Any key (some x) t) (cleanup s n d)
  unfolding cleanup
  at-After zero d e h = h
  at-After (suc n) d e h = cleanup-After s key (some x) t (ground arith) (suc n) d h

  fresh-After :
      (d : Disk)
      → Marked key (some x) t d
      → After {E = Error}
          (λ (fresh : Bool) _. fresh ≡ true)
          (λ _ _. Unit)
          (has_fresh_seen_marker s (some (some x)) d)
  unfolding has_fresh_seen_marker gets
  fresh-After d h =
      quiet-After key (some x) t (wrapping (wrapped "读取 push seen marker 失败") sys)
        (λ _. gets (λ d. nat_eq s.replay_retention 0 || is_fresh s d.now x))
        (λ fresh _. fresh ≡ true) d (call key (some x) t _) h
        λ _ v k.
          subst (λ n. (nat_eq s.replay_retention 0 || is_fresh s n x) ≡ true) (sym (k.1)) current

  Seen : Bool → Disk → Type 0
  Seen dup _ = dup ≡ true

  gate-After :
      (m : PushMessage) (received : ℕ) (mime : Reader) (d : Disk)
      → Marked key (some x) t d
      → After Seen (Any key (some x) t) (
          (within (λ v. has_fresh_seen_marker s (lookup key v.seen)) >>= λ fresh.
          if fresh
          then pure true
          else (has_queued_message key >>= λ queued.
              if queued then pure true else accept m received key mime))
            d)
  unfolding within Seen
  gate-After m received mime d h = rw (h.0) (
      bind-After (λ fresh _. fresh ≡ true) Seen (Any key (some x) t)
        (has_fresh_seen_marker s (some (some x)) d)
        (λ fresh.
          if fresh
          then pure true
          else (has_queued_message key >>= λ queued.
              if queued then pure true else accept m received key mime))
        (fresh-After d h) λ fresh v e. rw (e, if◌then◌else◌) refl)

  enqueue_reader-After :
      (digest : String → String) (m : PushMessage) (mime : Reader) (d : Disk)
      → message_key digest m.delivery_id ≡ key
      → Marked key (some x) t d
      → After Seen (Any key (some x) t) (enqueue_reader digest s m (some mime) d)
  unfolding enqueue_reader gets cleanup_seen
  enqueue_reader-After digest m mime d e h =
      if_rule (λ (a : Act Disk Bool). After Seen (Any key (some x) t) (a d))
        (is_blank m.delivery_id) (λ _. tt)
        (λ _.
          quiet-After key (some x) t (ensure_dirs s) _ Seen d
            (ensure_dirs-Keeps (Marked key (some x) t) (λ d n h. h) s) h
            λ _ v k.
              bind-After (Kept key (some x) t) Seen (Any key (some x) t)
                (cleanup s s.replay_retention v) _ (at-After s.replay_retention v refl k)
                λ _ u g. rw e (gate-After m (arrival d.now m.received_at) mime u g))

not_new :
    (r : Result Bool × Disk)
    → After {E = Error} (λ dup _. dup ≡ true) (λ _ _. Unit) r
    → r.0 ≢ ok false
not_new (ok true, d) h e = cc
not_new (ok false, d) h e = cc
not_new (err x, d) h e = cc

-- While the seen marker of a delivery is in force, EnqueueReader never takes that delivery as new:
-- it reports a duplicate or an error, whatever the queues hold and whatever calls of the operating
-- system fail. A marker is in force if it is younger than the retention, or if the retention is not
-- positive.
pub enqueue_reader-ne_new :
    (digest : String → String) (s : PushSpool) (m : PushMessage) (mime : Option Reader) (d : Disk)
    (x : SeenMarker)
    → lookup (message_key digest m.delivery_id) d.seen ≡ some (some x)
    → IsCurrent s x d.now
    → (enqueue_reader digest s m mime d).0 ≢ ok false
unfolding Seen
enqueue_reader-ne_new digest s m none d x marked current e = unfold enqueue_reader in cc
enqueue_reader-ne_new digest s m (some mime) d x marked current e =
    not_new (enqueue_reader digest s m (some mime) d)
      (enqueue_reader-After s (message_key digest m.delivery_id) x d.now current digest m mime d
        refl (marked, refl))
      e
