-- ===== src/Adapters/Spool/Keeping.antt =====
-- push_spool.go: what each operation does to a message that is queued, operation by operation.
use mime_crypt.Base.{
  ℕ, String, Bool, true, false, Option, none, some, [], ◌∷◌, ◌≡◌, refl, ap, ◌∙◌, inl, inr,
  Bool-cases, if◌then◌else◌, if_rule,
}
use mime_crypt.Base.Text.{◌==◌, eq_iff, is_blank, trim_space}
use mime_crypt.Base.Assoc.{Assoc, lookup, lookup-insert, lookup-remove}
use mime_crypt.Base.Effect.{
  ok, err, Keeps, Keeps-bind, Keeps-then, Keeps-if, Keeps-pure, Keeps-raise, Keeps-within, After,
}
use mime_crypt.Mailflow.Errors.{Act, Result, Error, already_exists, not_exist}
use mime_crypt.Mailflow.Ports.{Reader}
use mime_crypt.Adapters.Spool.Disk.{
  PushMessageMeta, Node, dir, Disk, PushSpool, is_entry_name, SeenMarker, sys, act, is_dir,
  rename_node, to_pending,
}
use mime_crypt.Adapters.Spool.Queue.{
  PushMessage, enqueue_reader, message_key, message_meta, arrival,
}
use mime_crypt.Adapters.Spool.Ack.{
  put_marker, create_marker, unless_exists, write_marker, mark_seen, prepare_node, prepare_ack,
  drop_processing, finalize_node, finalize_ack, requeue_node, requeue_one, requeue_all,
  requeue_processing, unless_gone,
}
use mime_crypt.Adapters.Spool.Steps.{sys-Keeps, ensure_dirs-Keeps, read_meta-Keeps}
use mime_crypt.Adapters.Spool.Cleanup.{QueuesAre}
use mime_crypt.Adapters.Spool.Enqueue.{Added, Enqueued, enqueue-Enqueued}
use mime_crypt.Adapters.Spool.Loss.{IsSolid, Holds, blind, call, requeue_rename}

module _ (key : String) (n : Node) (solid : IsSolid n) where
  abbrev P : Disk → Type 0
  P = Holds key n

  unless_gone-Holds : (r : Result (Unit {0}) × Disk) → P r.1 → P (unless_gone r).1
  unless_gone-Holds (ok _, d) h = h
  unless_gone-Holds (err not_exist, d) h = h
  unless_gone-Holds (err x, d) h = h

  requeue_node-Holds :
      (c : String) (p : Option Node) (d : Disk)
      → lookup c d.pending ≡ p
      → P d
      → P (requeue_node c (lookup c d.processing) p d).1
  unfolding requeue_node
  requeue_node-Holds c (some there) d e h = h
  requeue_node-Holds c none d e h =
      unless_gone-Holds _ (requeue_rename key n solid c none (lookup c d.processing) d (e, refl, h))

  -- What requeue_one does after its stat.
  stat-Holds :
      (c : String) (r : Result (Unit {0}) × Disk)
      → P r.1
      → P
          (elim r.0 as (λ _. Result (Unit {0}) × Disk) [
            | ok _ ↦ requeue_node c (lookup c r.1.processing) (lookup c r.1.pending) r.1
            | err _ ↦
                unless_gone
                  (rename_node (lookup c r.1.processing) (lookup c r.1.pending) (to_pending c) r.1)
          ]).1
  stat-Holds c (ok _, d) h = requeue_node-Holds c (lookup c d.pending) d refl h
  stat-Holds c (err x, d) h =
      unless_gone-Holds _ (
        requeue_rename key n solid c (lookup c d.pending) (lookup c d.processing) d (refl, refl, h))

  requeue_one-Holds : (c : String) (d : Disk) → P d → P (requeue_one c d).1
  unfolding requeue_one
  requeue_one-Holds c d h = stat-Holds c (sys d) ((sys-Keeps P (blind key n solid)).at d h)

  requeue_all-Keeps : (entries : Assoc Node) → Keeps P (requeue_all entries)
  unfolding requeue_all
  requeue_all-Keeps [] = Keeps-pure tt
  requeue_all-Keeps ((c, m) ∷ rest) =
      let ih = requeue_all-Keeps rest in
      Keeps-if (is_dir (some m)) _ _ (Keeps-then _ _ (record { at = requeue_one-Holds c }) ih) ih

  pub requeue_processing-Keeps : (s : PushSpool) → Keeps P (requeue_processing s)
  unfolding requeue_processing
  requeue_processing-Keeps s =
      Keeps-then _ _ (ensure_dirs-Keeps P (blind key n solid) s)
        (Keeps-then _ _ (call key n solid _) (Keeps-within _ λ d. requeue_all-Keeps d.processing))

  put_marker-Keeps :
      (c : String) (m : Option SeenMarker) → Keeps {E = Error} P (act (put_marker c m))
  put_marker-Keeps c m = record { at = λ d h. h }

  create_marker-Keeps :
      (c : String) (m : SeenMarker) (old : Option (Option SeenMarker))
      → Keeps P (create_marker c m old)
  unfolding create_marker
  create_marker-Keeps c m (some old) =
      Keeps-then _ _ (sys-Keeps P (blind key n solid)) (Keeps-raise already_exists)
  create_marker-Keeps c m none = Keeps-then _ _ (sys-Keeps P (blind key n solid)) (
      Keeps-then _ _ (put_marker-Keeps c none) (
        Keeps-then _ _ (call key n solid _)
          (Keeps-then _ _ (put_marker-Keeps c (some m)) (call key n solid _))))

  unless_exists-Holds : (r : Result (Unit {0}) × Disk) → P r.1 → P (unless_exists r).1
  unless_exists-Holds (ok _, d) h = h
  unless_exists-Holds (err already_exists, d) h = h
  unless_exists-Holds (err x, d) h = h

  write_marker-Keeps :
      (c : String) (meta : PushMessageMeta) (now : ℕ) (old : Option (Option SeenMarker))
      → Keeps P (write_marker c meta now old)
  unfolding write_marker
  write_marker-Keeps c meta now old = record {
    at = λ d h.
        unless_exists-Holds
          (create_marker c (record { delivery_id = meta.delivery_id; seen_at = now }) old d)
          ((create_marker-Keeps c (record { delivery_id = meta.delivery_id; seen_at = now }) old).at
            d h);
  }

  mark_seen-Keeps : (c : String) (m : Option Node) → Keeps P (mark_seen c m)
  unfolding mark_seen
  mark_seen-Keeps c m =
      Keeps-bind _ _ (read_meta-Keeps P (blind key n solid) m)
        λ meta. Keeps-within _ λ d. write_marker-Keeps c meta d.now (lookup c d.seen)

  prepare_node-Keeps : (c : String) (m : Option Node) → Keeps P (prepare_node c m)
  unfolding prepare_node
  prepare_node-Keeps c none = call key n solid _
  prepare_node-Keeps c (some m) = Keeps-then _ _ (call key n solid _) (mark_seen-Keeps c (some m))

  pub prepare_ack-Keeps :
      (s : PushSpool) (c : String) → is_entry_name (trim_space c) ≡ true → Keeps P (prepare_ack s c)
  unfolding prepare_ack
  prepare_ack-Keeps s c named = Keeps-if (is_blank c) _ _ (Keeps-raise _) (
      Keeps-then _ _ (ensure_dirs-Keeps P (blind key n solid) s) (
        if_rule (λ (a : Act Disk (Unit {0})). Keeps P a) (is_entry_name (trim_space c))
          (λ _. Keeps-within _ λ d. prepare_node-Keeps (trim_space c) _) (λ odd. cc)))

  drop_processing-Keeps :
      (c : String) → (c == key) ≡ false → Keeps {E = Error} P (act (drop_processing c))
  drop_processing-Keeps c other = record {
    at = λ d held. elim held [
      | inl h ↦ inl h
      | inr h ↦ inr (lookup-remove c key d.processing ∙ rw (other, if◌then◌else◌) h)
    ];
  }

  finalize_node-Keeps :
      (c : String) (m : Option Node) → (c == key) ≡ false → Keeps P (finalize_node c m)
  unfolding finalize_node
  finalize_node-Keeps c none other = call key n solid _
  finalize_node-Keeps c (some m) other =
      Keeps-then _ _ (call key n solid _)
        (Keeps-then _ _ (call key n solid _) (drop_processing-Keeps c other))

  pub finalize_ack-Keeps :
      (s : PushSpool) (c : String)
      → is_entry_name (trim_space c) ≡ true
      → (trim_space c == key) ≡ false
      → Keeps P (finalize_ack s c)
  unfolding finalize_ack
  finalize_ack-Keeps s c named other = Keeps-if (is_blank c) _ _ (Keeps-raise _) (
      Keeps-then _ _ (ensure_dirs-Keeps P (blind key n solid) s) (
        if_rule (λ (a : Act Disk (Unit {0})). Keeps P a) (is_entry_name (trim_space c))
          (λ _. Keeps-within _ λ d. finalize_node-Keeps (trim_space c) _ other) (λ odd. cc)))

  -- An insertion where nothing solid stood.
  Added-Holds :
      (c : String) (m : Node) (d v : Disk) → Added d.pending d.processing c m v → P d → P v
  Added-Holds c m d v a held = elim held [
    | inl h ↦ elim (Bool-cases (c == key)) [
      | inl same ↦ let e = (eq_iff c key).0 same in let free = a.2 in cc
      | inr other ↦
          inl (
            ap (lookup key) (a.0) ∙ (lookup-insert c key m d.pending ∙ rw (other, if◌then◌else◌) h))
    ]
    | inr h ↦ inr (ap (lookup key) (a.1) ∙ h)
  ]

  same-Holds : (d v : Disk) → QueuesAre d.pending d.processing v → P d → P v
  same-Holds d v e held = elim held [
    | inl h ↦ inl (ap (lookup key) (e.0) ∙ h)
    | inr h ↦ inr (ap (lookup key) (e.1) ∙ h)
  ]

  Enqueued-Holds :
      (c : String) (meta : PushMessageMeta) (mime : Reader) (d : Disk) (r : Result Bool × Disk)
      → After
          (Enqueued d.pending d.processing c meta mime)
          (λ _ v. QueuesAre d.pending d.processing v)
          r
      → P d
      → P r.1
  Enqueued-Holds c meta mime d (ok true, v) a h = same-Holds d v a h
  Enqueued-Holds c meta mime d (ok false, v) a h =
      Added-Holds c (dir (some (some meta)) (some mime.bytes)) d v a h
  Enqueued-Holds c meta mime d (err x, v) a h = same-Holds d v a h

  pub enqueue_reader-Holds :
      (digest : String → String) (s : PushSpool) (m : PushMessage) (mime : Option Reader) (d : Disk)
      → P d
      → P (enqueue_reader digest s m mime d).1
  unfolding enqueue_reader
  enqueue_reader-Holds digest s m none d h = h
  enqueue_reader-Holds digest s m (some mime) d h =
      Enqueued-Holds (message_key digest m.delivery_id)
        (message_meta m (arrival d.now m.received_at)) mime d
        (enqueue_reader digest s m (some mime) d) (enqueue-Enqueued digest s m mime d) h
