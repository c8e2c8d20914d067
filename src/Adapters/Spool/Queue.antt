-- ===== src/Adapters/Spool/Queue.antt =====
-- push_spool.go: EnqueueReader, ClaimNext and what they call. The key of a message is the SHA-256
-- of its trimmed delivery id in hexadecimal; the digest is the parameter `digest`.
use Prim.Native.Nat.{Ordering}
use Prim.Native.String.{compare}
use mime_crypt.Base.{
  ℕ, zero, suc, String, Bool, true, false, Option, none, some, List, [], ◌∷◌, if◌then◌else◌, ◌||◌,
  ◌&&◌, ltb, ◌+◌, nat_eq, map,
}
use mime_crypt.Base.Text.{is_blank, trim_space}
use mime_crypt.Base.Assoc.{Assoc, lookup, insert, remove}
use mime_crypt.Base.Effect.{ok, err, pure, raise, gets, within, ◌>>=◌, ◌>>◌}
use mime_crypt.Mailflow.Errors.{Act, Result, failed, wrapped, wrapping, not_exist, already_exists}
use mime_crypt.Mailflow.Ports.{Reader}
use mime_crypt.Fileutil.{write_file_atomic}
use mime_crypt.Adapters.Spool.Disk.{
  PushMessageMeta, Node, dir, SeenMarker, Disk, PushSpool, sys, act, ensure_dirs, is_dir,
  has_queued_message, read_meta, rename_node, to_processing,
}

pub record PushMessage : Type 0 where
  pub delivery_id : String
  pub internet_message_id : String
  pub received_at : ℕ
  pub mime : List ℕ
  pub attributes : Option (Assoc String)

-- ClaimedPushMessage; its MIME is the node's message file
pub record ClaimedPushMessage : Type 0 where
  pub key : String
  pub meta : PushMessageMeta

-- A marker is younger than the retention.
abbrev pub is_fresh : PushSpool → ℕ → SeenMarker → Bool
is_fresh s now marker = ltb now (marker.seen_at + s.replay_retention)

abbrev pub drop_marker : String → Disk → Disk
drop_marker key d = record d { seen = remove key d.seen }

-- The removal of an old marker, unless its message is queued still.
unfoldable pub drop_stale : String → Act Disk (Unit {0})
unfolding has_queued_message sys
drop_stale key = do
  queued ← has_queued_message key
  if queued
      then pure tt
      else (wrapping (wrapped "删除过期 push seen marker 失败") sys >> act (drop_marker key))

-- One round of the loop of cleanupSeen, on the marker that now stands under the name.
unfoldable pub clean_marker : PushSpool → String → Option (Option SeenMarker) → Act Disk (Unit {0})
unfolding drop_stale sys gets
clean_marker s key none = wrapping (wrapped "读取 push seen marker 失败") (sys >> raise not_exist)
clean_marker s key (some none) =
    wrapping (wrapped "读取 push seen marker 失败") sys >> raise (failed "解析 push seen marker 失败")
clean_marker s key (some (some marker)) = do
  wrapping (wrapped "读取 push seen marker 失败") sys
  now ← gets (λ d. d.now)
  if is_fresh s now marker then pure tt else drop_stale key

unfoldable pub clean_markers : PushSpool → List String → Act Disk (Unit {0})
unfolding clean_marker lookup within
clean_markers s [] = pure tt
clean_markers s (key ∷ rest) =
    within (λ d. clean_marker s key (lookup key d.seen)) >> clean_markers s rest

-- cleanupSeen
unfoldable pub cleanup : PushSpool → ℕ → Act Disk (Unit {0})
unfolding clean_markers within
cleanup s zero = pure tt
cleanup s (suc n) =
    wrapping (wrapped "读取 push seen 目录失败") sys
    >> within (λ d. clean_markers s (map (λ e. e.0) d.seen))

unfoldable pub cleanup_seen : PushSpool → Act Disk (Unit {0})
unfolding cleanup
cleanup_seen s = cleanup s s.replay_retention

-- hasFreshSeenMarker, of the marker that stands under the key
unfoldable pub has_fresh_seen_marker : PushSpool → Option (Option SeenMarker) → Act Disk Bool
unfolding sys gets
has_fresh_seen_marker s none = wrapping (wrapped "读取 push seen marker 失败") sys >> pure false
has_fresh_seen_marker s (some none) =
    wrapping (wrapped "读取 push seen marker 失败") sys >> raise (failed "解析 push seen marker 失败")
has_fresh_seen_marker s (some (some marker)) = do
  wrapping (wrapped "读取 push seen marker 失败") sys
  gets (λ d. nat_eq s.replay_retention 0 || is_fresh s d.now marker)

-- cloneAttributes: an empty map becomes nil
abbrev pub clone_attributes : Option (Assoc String) → Option (Assoc String)
clone_attributes none = none
clone_attributes (some []) = none
clone_attributes (some (x ∷ m)) = some (x ∷ m)

-- messageKey
unfoldable pub message_key : (String → String) → String → String
unfolding trim_space
message_key digest delivery_id = digest (trim_space delivery_id)

unfoldable pub message_meta : PushMessage → ℕ → PushMessageMeta
unfolding trim_space
message_meta m received = record {
  delivery_id = m.delivery_id;
  internet_message_id = trim_space m.internet_message_id;
  received_at = received;
  attributes = clone_attributes m.attributes;
}

abbrev pub staged_file : Reader
staged_file = record { bytes = 0 ∷ []; failure = none }

-- From the creation of the staging directory to the rename that submits the message.
unfoldable pub stage : String → PushMessageMeta → Reader → Act Disk Node
unfolding write_file_atomic sys
stage key meta mime = do
  wrapping (wrapped "创建 push staging 目录失败") sys
  wrapping (wrapped "设置 push staging 目录权限失败") sys
  wrapping (wrapped "写入 JSON 文件失败") (write_file_atomic sys (λ d. d) (some staged_file))
  written ← wrapping (wrapped "写入 push MIME 失败") (write_file_atomic sys (λ d. d) (some mime))
  if nat_eq written 0
      then raise (failed "push MIME 不能为空")
      else pure (dir (some (some meta)) (some mime.bytes))

abbrev pub add_pending : String → Node → Disk → Disk
add_pending key n d = record d { pending = insert key n d.pending }

-- A message that is there already counts as a duplicate.
abbrev pub submitted : Result (Unit {0}) × Disk → Result Bool × Disk
submitted (ok _, d) = (ok false, d)
submitted (err already_exists, d) = (ok true, d)
submitted (err e, d) = (err (wrapped "提交 push spool 消息失败" e), d)

unfoldable pub submit_message : String → Node → Act Disk Bool
unfolding rename_node lookup
submit_message key n d = submitted (rename_node (some n) (lookup key d.pending) (add_pending key) d)

abbrev pub arrival : ℕ → ℕ → ℕ
arrival now received = if nat_eq received 0 then now else received

unfoldable pub accept : PushMessage → ℕ → String → Reader → Act Disk Bool
unfolding stage submit_message message_meta
accept m received key mime = do
  node ← stage key (message_meta m received) mime
  submit_message key node

-- EnqueueReader: true for a duplicate
unfoldable pub enqueue_reader :
    (String → String) → PushSpool → PushMessage → Option Reader → Act Disk Bool
unfolding gets within ensure_dirs cleanup_seen has_fresh_seen_marker has_queued_message accept
    message_key is_blank lookup
enqueue_reader digest s m none =
    raise (failed (if is_blank m.delivery_id then "delivery id 不能为空" else "push MIME 不能为空"))
enqueue_reader digest s m (some mime) =
    if is_blank m.delivery_id then raise (failed "delivery id 不能为空") else do
      received ← gets (λ d. arrival d.now m.received_at)
      ensure_dirs s
      cleanup_seen s
      let key = message_key digest m.delivery_id
      fresh ← within (λ d. has_fresh_seen_marker s (lookup key d.seen))
      if fresh then pure true else do
        queued ← has_queued_message key
        if queued then pure true else accept m received key mime

-- Enqueue: the message's own bytes
unfoldable pub enqueue : (String → String) → PushSpool → PushMessage → Act Disk Bool
unfolding enqueue_reader
enqueue digest s m = enqueue_reader digest s m (some (record { bytes = m.mime; failure = none }))

-- pendingCandidate
pub record Candidate : Type 0 where
  pub key : String
  pub received_at : ℕ

-- The order of sort.Slice in ClaimNext: by arrival, then by key.
unfoldable pub before : Candidate → Candidate → Bool
before a b =
    ltb a.received_at b.received_at
    || (nat_eq a.received_at b.received_at
        && elim (compare a.key b.key) [ Ordering.lt ↦ true | _ ↦ false ])

unfoldable pub insert_sorted : Candidate → List Candidate → List Candidate
unfolding before
insert_sorted c [] = c ∷ []
insert_sorted c (x ∷ xs) = if before x c then x ∷ insert_sorted c xs else c ∷ x ∷ xs

-- sort.Slice on candidates, whose keys differ
unfoldable pub sort : List Candidate → List Candidate
unfolding insert_sorted
sort [] = []
sort (x ∷ xs) = insert_sorted x (sort xs)

-- The metadata of the directories in pending.
unfoldable pub candidates : Assoc Node → Act Disk (List Candidate)
unfolding read_meta
candidates [] = pure []
candidates ((key, n) ∷ rest) =
    if is_dir (some n)
    then (read_meta (some n) >>= λ meta. candidates rest >>= λ others.
        pure (record { key = key; received_at = meta.received_at } ∷ others))
    else candidates rest

abbrev pub Claim : Type 0
Claim = Option ClaimedPushMessage

-- What a failed rename means for the loop: a message that is gone, or in the way, is passed over.
abbrev pub claimed :
    String → (Disk → Result Claim × Disk) → Result (Unit {0}) × Disk → Result Claim × Disk
claimed key rest (ok _, d) =
    (read_meta (lookup key d.processing) >>= λ meta.
    pure (some (record { key = key; meta = meta })))
      d
claimed key rest (err not_exist, d) = rest d
claimed key rest (err already_exists, d) = rest d
claimed key rest (err e, d) = (err (wrapped "切换 push 消息到 processing 失败" e), d)

-- The loop of ClaimNext over the sorted candidates.
unfoldable pub claim_first : List Candidate → Act Disk Claim
unfolding rename_node read_meta lookup
claim_first [] d = (ok none, d)
claim_first (c ∷ cs) d =
    claimed c.key (claim_first cs)
      (rename_node (lookup c.key d.pending) (lookup c.key d.processing) (to_processing c.key) d)

-- ClaimNext
unfoldable pub claim_next : PushSpool → Act Disk Claim
unfolding within ensure_dirs candidates sort claim_first
claim_next s = do
  ensure_dirs s
  wrapping (wrapped "读取 push pending 目录失败") sys
  found ← within (λ d. candidates d.pending)
  claim_first (sort found)
