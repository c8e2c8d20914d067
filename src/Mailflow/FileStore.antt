-- ===== src/Mailflow/FileStore.antt =====
-- internal/mailflow/file_store.go: the state store that keeps each transaction in a file of its own.
-- SHA-256 with its hexadecimal text and filepath.Join are parameters.
pub mod Refines
mod Tests
use mime_crypt.Base.{String, Option, none, some, List, [], ◌∷◌, if◌then◌else◌}
use mime_crypt.Base.Text.{◌+++◌, trim_space, is_blank}
use mime_crypt.Base.Assoc.{Assoc}
use mime_crypt.Base.Effect.{ok, err, lift, ◌>>=◌}
use mime_crypt.Mailflow.Types.{TxState}
use mime_crypt.Mailflow.Errors.{Act, Result, failed}
use mime_crypt.Mailflow.Ports.{StateStore}
use mime_crypt.Fileutil.Stored.{Files, read_state, write_state}

-- What is left of an optional list or map in JSON with `omitempty`: one without entries is not written.
abbrev pub omitted : {A : Type 0} → Option (List A) → Option (List A)
omitted none = none
omitted (some []) = none
omitted (some (x ∷ xs)) = some (x ∷ xs)

-- The state that json.Unmarshal makes of what json.MarshalIndent has written
abbrev pub json_image : TxState → TxState
json_image s = record s {
  trace = record s.trace { attributes = omitted s.trace.attributes };
  plan = record s.plan {
    delete_source = record s.plan.delete_source {
      eligible_consumers = omitted s.plan.delete_source.eligible_consumers;
    };
  };
}

module _ {W : Type 0} (files : Files W TxState) (sha256_hex : String → String)
    (join : List String → String) (dir : String) where
  abbrev pub state_file : String → String
  state_file key = join (trim_space dir ∷ (sha256_hex (trim_space key) +++ ".json") ∷ [])

  unfoldable pub path_for_key : String → Result String
  unfolding is_blank trim_space
  path_for_key key =
      if is_blank key
      then err (failed "transaction key 不能为空")
      else if is_blank dir
      then err (failed "state dir 不能为空")
      else ok (state_file key)

  -- FileStateStore.Load and Save
  unfoldable pub load : String → Act W (Option TxState)
  unfolding path_for_key read_state
  load key = lift (path_for_key key) >>= λ path. read_state files path "读取事务状态失败" "解析事务状态失败"

  unfoldable pub save : TxState → Act W (Unit {0})
  unfolding path_for_key write_state
  save s = lift (path_for_key s.key) >>= λ path.
      write_state files path "创建事务状态目录失败" "保存事务状态失败" (json_image s)

  abbrev pub file_store : StateStore W
  file_store = record { load = load; save = save }
