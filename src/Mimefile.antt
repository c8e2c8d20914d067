-- ===== src/Mimefile.antt =====
-- internal/mimefile/store.go: messages as files in a directory. The text of a time is a parameter.
use mime_crypt.Base.{ℕ, nat_eq, String, some, List, [], ◌∷◌, if◌then◌else◌}
use mime_crypt.Base.Text.{◌+++◌}
use mime_crypt.Base.Effect.{pure, ◌>>=◌, ◌>>◌}
use mime_crypt.Mailflow.Errors.{Act, wrapped, wrapping}
use mime_crypt.Mailflow.Ports.{Reader}
use mime_crypt.Provider.Contracts.{Message}
use mime_crypt.Fileutil.{write_file_atomic}
use mime_crypt.Fileutil.Stored.{Files, present}
use mime_crypt.Appconfig.Platform.{Platform}
use mime_crypt.Appconfig.Names.{sanitize_file_component}

module _ (os : Platform) (format_time : ℕ → String) where
  -- BuildMessageFileStem
  unfoldable pub build_message_file_stem : Message → String
  unfolding sanitize_file_component
  build_message_file_stem m =
      (if nat_eq m.received_date_time 0 then "message" else format_time m.received_date_time)
      +++ "_"
      +++ sanitize_file_component os.is_letter_or_digit m.id

  unfoldable pub build_message_file_name : Message → String
  unfolding build_message_file_stem
  build_message_file_name m = build_message_file_stem m +++ ".eml"

  module _ {W : Type 0} (files : Files W (List ℕ)) where
    abbrev pub message_path : String → Message → String
    message_path dir m = os.join (dir ∷ build_message_file_name m ∷ [])

    -- SaveToOutputDir: the path and the number of bytes
    unfoldable pub save_to_output_dir : String → Message → Reader → Act W (String × ℕ)
    unfolding build_message_file_name write_file_atomic
    save_to_output_dir dir m r =
        wrapping (wrapped "创建输出目录失败") files.call
        >> (wrapping (wrapped "写入 MIME 流到文件失败") (
              write_file_atomic files.call (files.put (message_path dir m) (present r.bytes))
                (some r))
            >>= λ n. pure (message_path dir m, n))
