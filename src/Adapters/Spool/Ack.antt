-- ===== src/Adapters/Spool/Ack.antt =====
-- push_spool.go: PrepareAck, FinalizeAck and RequeueProcessing.
use mime_crypt.Base.{ℕ, String, Option, none, some, [], ◌∷◌, if◌then◌else◌}
use mime_crypt.Base.Text.{is_blank, trim_space}
use mime_crypt.Base.Assoc.{Assoc, lookup, insert, remove}
use mime_crypt.Base.Effect.{ok, err, pure, raise, within, ◌>>=◌, ◌>>◌}
use mime_crypt.Mailflow.Errors.{Act, Result, failed, wrapped, wrapping, not_exist, already_exists}
use mime_crypt.Adapters.Spool.Disk.{
  PushMessageMeta, Node, SeenMarker, Disk, PushSpool, is_entry_name, sys, act, ensure_dirs, is_dir,
  read_meta, rename_node, to_pending,
}

abbrev pub put_marker : String → Option SeenMarker → Disk → Disk
put_marker key marker d = record d { seen = insert key marker d.seen }

-- writeSeenMarker: the file is created only if there is none; a write that fails leaves a file that
-- does not parse.
unfoldable pub create_marker :
    String → SeenMarker → Option (Option SeenMarker) → Act Disk (Unit {0})
unfolding sys
create_marker key marker (some old) = sys >> raise already_exists
create_marker key marker none = do
  sys
  act (put_marker key none)
  wrapping (wrapped "写入 push seen marker 失败") sys
  act (put_marker key (some marker))
  wrapping (wrapped "关闭 push seen marker 失败") sys

-- `if err != nil && !os.IsExist(err)`
abbrev pub unless_exists : Result (Unit {0}) × Disk → Result (Unit {0}) × Disk
unless_exists (ok _, d) = (ok tt, d)
unless_exists (err already_exists, d) = (ok tt, d)
unless_exists (err e, d) = (err (wrapped "写入 push seen marker 失败" e), d)

unfoldable pub write_marker :
    String → PushMessageMeta → ℕ → Option (Option SeenMarker) → Act Disk (Unit {0})
unfolding create_marker
write_marker key meta now old d =
    unless_exists
      (create_marker key (record { delivery_id = meta.delivery_id; seen_at = now }) old d)

unfoldable pub mark_seen : String → Option Node → Act Disk (Unit {0})
unfolding read_meta write_marker lookup within
mark_seen key n = do
  meta ← read_meta n
  within (λ d. write_marker key meta d.now (lookup key d.seen))

-- os.Stat of the processing directory: nothing to do where there is none
unfoldable pub prepare_node : String → Option Node → Act Disk (Unit {0})
unfolding sys mark_seen
prepare_node key none = wrapping (wrapped "读取 push processing 消息失败") sys
prepare_node key (some n) =
    wrapping (wrapped "读取 push processing 消息失败") sys >> mark_seen key (some n)

-- PrepareAck
unfoldable pub prepare_ack : PushSpool → String → Act Disk (Unit {0})
unfolding within is_blank trim_space ensure_dirs prepare_node lookup is_entry_name
prepare_ack s key =
    if is_blank key
    then raise (failed "push key 不能为空")
    else (ensure_dirs s
        >> (if is_entry_name (trim_space key)
            then within (λ d. prepare_node (trim_space key) (lookup (trim_space key) d.processing))
            else s.prepare_at (trim_space key)))

abbrev pub drop_processing : String → Disk → Disk
drop_processing key d = record d { processing = remove key d.processing }

unfoldable pub finalize_node : String → Option Node → Act Disk (Unit {0})
unfolding sys
finalize_node key none = wrapping (wrapped "读取 push processing 消息失败") sys
finalize_node key (some n) = do
  wrapping (wrapped "读取 push processing 消息失败") sys
  wrapping (wrapped "删除 push processing 消息失败") sys
  act (drop_processing key)

-- FinalizeAck
unfoldable pub finalize_ack : PushSpool → String → Act Disk (Unit {0})
unfolding within is_blank trim_space ensure_dirs finalize_node lookup is_entry_name
finalize_ack s key =
    if is_blank key
    then raise (failed "push key 不能为空")
    else (ensure_dirs s
        >> (if is_entry_name (trim_space key)
            then within (λ d. finalize_node (trim_space key) (lookup (trim_space key) d.processing))
            else s.finalize_at (trim_space key)))

-- `if err != nil && !os.IsNotExist(err)`
abbrev pub unless_gone : Result (Unit {0}) × Disk → Result (Unit {0}) × Disk
unless_gone (ok _, d) = (ok tt, d)
unless_gone (err not_exist, d) = (ok tt, d)
unless_gone (err e, d) = (err (wrapped "回收 processing push 消息失败" e), d)

unfoldable pub requeue_node : String → Option Node → Option Node → Act Disk (Unit {0})
unfolding rename_node
requeue_node key n (some there) d = (ok tt, d)
requeue_node key n none d = unless_gone (rename_node n none (to_pending key) d)

-- One round of the loop of RequeueProcessing; a stat that fails counts as absent.
unfoldable pub requeue_one : String → Act Disk (Unit {0})
unfolding sys requeue_node lookup
requeue_one key d =
    let (r, d') = sys d in
    elim r [
      | ok _ ↦ requeue_node key (lookup key d'.processing) (lookup key d'.pending) d'
      | err _ ↦
          unless_gone
            (rename_node (lookup key d'.processing) (lookup key d'.pending) (to_pending key) d')
    ]

unfoldable pub requeue_all : Assoc Node → Act Disk (Unit {0})
unfolding requeue_one
requeue_all [] = pure tt
requeue_all ((key, n) ∷ rest) =
    if is_dir (some n) then (requeue_one key >> requeue_all rest) else requeue_all rest

-- RequeueProcessing
unfoldable pub requeue_processing : PushSpool → Act Disk (Unit {0})
unfolding within ensure_dirs requeue_all
requeue_processing s = do
  ensure_dirs s
  wrapping (wrapped "读取 push processing 目录失败") sys
  within (λ d. requeue_all d.processing)
