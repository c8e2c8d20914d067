-- ===== src/Adapters/Spool/Cleanup.antt =====
-- push_spool.go: cleanupSeen leaves the two queues alone.
use mime_crypt.Base.{ℕ, zero, suc, String, Option, none, some, List, [], ◌∷◌, ◌≡◌}
use mime_crypt.Base.Assoc.{Assoc, lookup}
use mime_crypt.Base.Effect.{
  Keeps, Keeps-bind, Keeps-then, Keeps-if, Keeps-pure, Keeps-raise, Keeps-gets, Keeps-within,
}
use mime_crypt.Mailflow.Errors.{Error, wrapping, not_exist}
use mime_crypt.Adapters.Spool.Disk.{Node, Disk, PushSpool, SeenMarker, sys, act, has_queued_message}
use mime_crypt.Adapters.Spool.Queue.{
  is_fresh, drop_stale, cleanup, clean_marker, clean_markers, cleanup_seen, drop_marker,
}
use mime_crypt.Adapters.Spool.Steps.{Blind, wrapping-Keeps, sys-Keeps, has_queued_message-Keeps}

-- The queues are these.
abbrev pub QueuesAre : Assoc Node → Assoc Node → Disk → Type 0
QueuesAre p q d = (d.pending ≡ p) × (d.processing ≡ q)

module _ (p q : Assoc Node) where
  pub blind : Blind (QueuesAre p q)
  blind d n h = h

  pub call : (c : Error → Error) → Keeps (QueuesAre p q) (wrapping c sys)
  call c = wrapping-Keeps (QueuesAre p q) blind c sys (sys-Keeps (QueuesAre p q) blind)

  drop-Keeps : (key : String) → Keeps {E = Error} (QueuesAre p q) (act (drop_marker key))
  drop-Keeps key = record { at = λ d h. h }

  drop_stale-Keeps : (key : String) → Keeps (QueuesAre p q) (drop_stale key)
  unfolding drop_stale
  drop_stale-Keeps key =
      Keeps-bind (has_queued_message key) _ (has_queued_message-Keeps (QueuesAre p q) blind key)
        λ queued. Keeps-if queued _ _ (Keeps-pure tt) (Keeps-then _ _ (call _) (drop-Keeps key))

  clean_marker-Keeps :
      (s : PushSpool) (key : String) (m : Option (Option SeenMarker))
      → Keeps (QueuesAre p q) (clean_marker s key m)
  unfolding clean_marker
  clean_marker-Keeps s key none =
      wrapping-Keeps (QueuesAre p q) blind _ _
        (Keeps-then sys _ (sys-Keeps (QueuesAre p q) blind) (Keeps-raise not_exist))
  clean_marker-Keeps s key (some none) = Keeps-then _ _ (call _) (Keeps-raise _)
  clean_marker-Keeps s key (some (some m)) = Keeps-then _ _ (call _) (
      Keeps-bind _ _ (Keeps-gets _)
        λ now. Keeps-if (is_fresh s now m) _ _ (Keeps-pure tt) (drop_stale-Keeps key))

  clean_markers-Keeps :
      (s : PushSpool) (keys : List String) → Keeps (QueuesAre p q) (clean_markers s keys)
  unfolding clean_markers
  clean_markers-Keeps s [] = Keeps-pure tt
  clean_markers-Keeps s (key ∷ rest) =
      Keeps-then _ _ (Keeps-within _ λ d. clean_marker-Keeps s key (lookup key d.seen))
        (clean_markers-Keeps s rest)

  cleanup-Keeps : (s : PushSpool) (n : ℕ) → Keeps (QueuesAre p q) (cleanup s n)
  unfolding cleanup
  cleanup-Keeps s zero = Keeps-pure tt
  cleanup-Keeps s (suc n) = Keeps-then _ _ (call _) (Keeps-within _ λ d. clean_markers-Keeps s _)

  pub cleanup_seen-Keeps : (s : PushSpool) → Keeps (QueuesAre p q) (cleanup_seen s)
  unfolding cleanup_seen
  cleanup_seen-Keeps s = cleanup-Keeps s s.replay_retention
