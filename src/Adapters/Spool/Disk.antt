-- ===== src/Adapters/Spool/Disk.antt =====
-- push_spool.go: what the spool keeps on disk, and the primitive steps on it. A directory is a map
-- from names to nodes; the seen directory is a map from the keys of its `.json` files to their
-- markers, `none` where a file does not parse. A call of the operating system fails when `faults`
-- says so, and then changes nothing. Nothing reads the staging directory back, so a staged message
-- is a value; that the four directories exist is not recorded. Each method runs alone.
use Prim.Native.Char.{code}
use mime_crypt.Base.{
  ℕ, nat_eq, not, ◌&&◌, ◌||◌, suc, String, Bool, true, false, Option, none, some, List,
  if◌then◌else◌,
}
use mime_crypt.Base.Text.{◌==◌, is_blank}
use mime_crypt.Base.Assoc.{Assoc, lookup, insert, remove}
use mime_crypt.Base.Effect.{ok, err, pure, raise, within, ◌>>=◌, ◌>>◌}
use mime_crypt.Mailflow.Errors.{
  Act, Result, Error, failed, wrapped, wrapping, external, not_exist, already_exists,
}

pub record PushMessageMeta : Type 0 where
  pub delivery_id : String
  pub internet_message_id : String
  pub received_at : ℕ
  pub attributes : Option (Assoc String)

-- A directory holds its meta.json, which may not parse, and its message.eml.
pub data Node : Type 0 where
  file : Node
  dir : Option (Option PushMessageMeta) → Option (List ℕ) → Node

-- pushSeenMarker
pub record SeenMarker : Type 0 where
  pub delivery_id : String
  pub seen_at : ℕ

pub record Disk : Type 0 where
  pub pending : Assoc Node
  pub processing : Assoc Node
  pub seen : Assoc (Option SeenMarker)
  pub now : ℕ
  pub calls : ℕ
  pub faults : ℕ → Option ℕ

-- `replay_retention` is 0 for a duration that is not positive. The last two are no fields of the
-- source's type but parameters: what PrepareAck and FinalizeAck do, after ensureDirs, with a key that
-- is no name of an entry, and for which filepath.Join gives a path outside the processing directory,
-- that directory itself, or a path inside a message.
pub record PushSpool : Type 0 where
  pub dir_name : String
  pub replay_retention : ℕ
  pub prepare_at : String → Act Disk (Unit {0})
  pub finalize_at : String → Act Disk (Unit {0})

-- '/' or NUL
abbrev pub is_separator : ℕ → Bool
is_separator c = nat_eq c 47 || nat_eq c 0

unfoldable pub has_separator : String → Bool
has_separator String.[] = false
has_separator (String.◌∷◌ c s) = is_separator (code c) || has_separator s

-- A name that an entry of a directory can have.
unfoldable pub is_entry_name : String → Bool
unfolding has_separator
is_entry_name s = not (has_separator s) && not (s == ".") && not (s == "..")

-- One call of the operating system.
unfoldable pub sys : Act Disk (Unit {0})
sys d =
    let d' = record d { calls = suc d.calls } in
    elim (d.faults d.calls) [ none ↦ (ok tt, d') | some n ↦ (err (external n), d') ]

abbrev pub act : (Disk → Disk) → Act Disk (Unit {0})
act f d = (ok tt, f d)

-- ensureDirs
unfoldable pub ensure_dirs : PushSpool → Act Disk (Unit {0})
unfolding sys is_blank
ensure_dirs s =
    if is_blank s.dir_name
    then raise (failed "push spool dir 不能为空")
    else wrapping (wrapped "创建 push spool 目录失败") (sys >> (sys >> (sys >> sys)))

-- os.Stat of a directory entry that is found, and IsDir
abbrev pub is_dir : Option Node → Bool
is_dir none = false
is_dir (some file) = false
is_dir (some (dir m b)) = true

-- os.Stat as hasQueuedMessage uses it: a stat that fails counts as absent
abbrev pub found_dir : Option Node → Result (Unit {0}) × Disk → Result Bool × Disk
found_dir n (ok _, d) = (ok (is_dir n), d)
found_dir n (err e, d) = (ok false, d)

unfoldable pub stat_dir : Option Node → Act Disk Bool
unfolding sys
stat_dir n d = found_dir n (sys d)

-- hasQueuedMessage
unfoldable pub has_queued_message : String → Act Disk Bool
unfolding stat_dir lookup within
has_queued_message key = do
  queued ← within (λ d. stat_dir (lookup key d.pending))
  if queued then pure true else within (λ d. stat_dir (lookup key d.processing))

-- readMeta, of the directory that the node is
unfoldable pub read_meta : Option Node → Act Disk PushMessageMeta
unfolding sys
read_meta (some (dir (some (some m)) b)) = wrapping (wrapped "读取 push 元数据失败") sys >> pure m
read_meta (some (dir (some none) b)) =
    wrapping (wrapped "读取 push 元数据失败") sys >> raise (failed "解析 push 元数据失败")
read_meta _ = raise (wrapped "读取 push 元数据失败" not_exist)

-- os.Rename onto a name that is taken; Go refuses to replace any directory.
abbrev pub blocks : Option Node → Option Error
blocks none = none
blocks (some file) = some (external 20)
blocks (some (dir m b)) = some already_exists

unfoldable pub place : Option Error → Act Disk (Unit {0}) → Act Disk (Unit {0})
place none move = move
place (some e) move = raise e

unfoldable pub rename_node : Option Node → Option Node → (Node → Disk → Disk) → Act Disk (Unit {0})
unfolding sys place
rename_node none target move = sys >> raise not_exist
rename_node (some n) target move = sys >> place (blocks target) (act (move n))

abbrev pub to_processing : String → Node → Disk → Disk
to_processing key n d = record d {
  pending = remove key d.pending;
  processing = insert key n d.processing;
}

abbrev pub to_pending : String → Node → Disk → Disk
to_pending key n d = record d {
  pending = insert key n d.pending;
  processing = remove key d.processing;
}
