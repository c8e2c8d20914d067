-- ===== src/Mailflow/FileStore/Refines.antt =====
-- file_store.go: the store is a map from paths to states, which a save changes at once or not at all.
use mime_crypt.Base.{String, false, List, ◌≡◌, ap, ◌∙◌, ◌⊎◌, if◌then◌else◌}
use mime_crypt.Base.Text.{◌==◌, is_blank}
use mime_crypt.Base.Effect.{Keeps, After}
use mime_crypt.Mailflow.Types.{TxState}
use mime_crypt.Mailflow.Errors.{Error}
use mime_crypt.Fileutil.Stored.{Files, Stored, present, Reads, read_state-After, write_state-After}
use mime_crypt.Mailflow.FileStore.{json_image, state_file, path_for_key, load, save}

-- The abstract store: what stands under each path
abbrev pub StoreMap : Type 0
StoreMap = String → Stored TxState

-- One state more
abbrev pub with_state : String → TxState → StoreMap → StoreMap
with_state path s m q = if path == q then present s else m q

module _ {W : Type 0} (files : Files W TxState) (sha256_hex : String → String)
    (join : List String → String) (dir : String) (placed : is_blank dir ≡ false) where
  -- The world holds this map.
  abbrev pub Is : StoreMap → W → Type 0
  Is m w = (q : String) → files.get q w ≡ m q

  quiet : (m : StoreMap) → Keeps (Is m) files.call
  quiet m = record { at = λ w h q. files.get-call q w ∙ h q }

  abbrev pub path : String → String
  path key = state_file files sha256_hex join dir key

  put_file :
      (file : String) (m : StoreMap) (s : TxState) (w : W)
      → Is m w
      → Is (with_state file s m) (files.put file (present s) w)
  put_file file m s w h q =
      files.get-put file q (present s) w ∙ ap (λ x. if file == q then present s else x) (h q)

  -- A load returns what stands under the path of its key and changes no state; where it fails, it
  -- has changed none. The key and the store's directory are not blank.
  pub load-Refines :
      (m : StoreMap) (key : String) (w : W)
      → is_blank key ≡ false
      → Is m w
      → After
          (λ o v. Is m v × Reads files (m (path key)) o)
          (λ (_ : Error) v. Is m v)
          (load files sha256_hex join dir key w)
  unfolding load path_for_key
  load-Refines m key w named h =
      rw (named, placed, if◌then◌else◌)
        (read_state-After files (Is m) (quiet m) (path key) "读取事务状态失败" "解析事务状态失败" (m (path key)) w
          (λ v k. k (path key)) h)

  -- A save puts the state, as JSON keeps it, under the path of its key, and changes nothing else;
  -- where it fails, it has done that or nothing. The key and the store's directory are not blank.
  pub save-Refines :
      (m : StoreMap) (s : TxState) (w : W)
      → is_blank s.key ≡ false
      → Is m w
      → After
          (λ (_ : Unit {0}) v. Is (with_state (path s.key) (json_image s) m) v)
          (λ _ v. Is m v ⊎ Is (with_state (path s.key) (json_image s) m) v)
          (save files sha256_hex join dir s w)
  unfolding save path_for_key
  save-Refines m s w named h =
      rw (named, placed, if◌then◌else◌)
        (write_state-After files (Is m) (Is (with_state (path s.key) (json_image s) m)) (quiet m)
          (quiet (with_state (path s.key) (json_image s) m)) (path s.key) "创建事务状态目录失败" "保存事务状态失败"
          (json_image s) w (λ v k. put_file (path s.key) m (json_image s) v k) h)
