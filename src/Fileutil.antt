-- ===== src/Fileutil.antt =====
-- internal/fileutil/atomic.go over any world `D`: `sys` is one call of the operating system, which
-- may fail and changes no file, and `put` is what the rename makes of the world.
pub mod Stored
pub mod Whole
use mime_crypt.Base.{ℕ, Option, none, some}
use mime_crypt.Base.Lists.{length}
use mime_crypt.Base.Effect.{ok, pure, raise, ◌>>◌}
use mime_crypt.Mailflow.Errors.{Act, failed, wrapped, wrapping}
use mime_crypt.Mailflow.Ports.{Reader}

module _ {D : Type 0} (sys : Act D (Unit {0})) where
  -- io.Copy from the source: what fails is the file or the source.
  unfoldable pub copy : Reader → Act D (Unit {0})
  copy r = do sys; elim r.failure [ none ↦ pure tt | some e ↦ raise e ]

  -- syncDir: open the directory and sync it
  unfoldable pub sync_dir : Act D (Unit {0})
  sync_dir = sys >> sys

  -- WriteFileAtomic, with the number of bytes written
  unfoldable pub write_file_atomic : (D → D) → Option Reader → Act D ℕ
  unfolding copy sync_dir
  write_file_atomic put none = raise (failed "写入源不能为空")
  write_file_atomic put (some r) = do
    wrapping (wrapped "创建临时文件失败") sys
    wrapping (wrapped "设置临时文件权限失败") sys
    wrapping (wrapped "写入临时文件失败") (copy r)
    wrapping (wrapped "同步临时文件失败") sys
    wrapping (wrapped "关闭临时文件失败") sys
    wrapping (wrapped "替换目标文件失败") sys
    (λ d. (ok tt, put d))
    wrapping (wrapped "同步目标目录失败") sync_dir
    pure (length r.bytes)
