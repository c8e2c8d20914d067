-- ===== src/Adapters/Envelope.antt =====
-- reader_envelope.go: the envelope of one message that a reader knows, and what the producers share:
-- firstNonEmpty and transactionKey.
use mime_crypt.Base.{String, Option, none, some, List, [], ◌∷◌, if◌then◌else◌}
use mime_crypt.Base.Text.{◌+++◌, trim_space, is_blank}
use mime_crypt.Base.Effect.{pure, raise, ◌>>=◌}
use mime_crypt.Mailflow.Errors.{Act, failed}
use mime_crypt.Mailflow.Types.{StoreRef, MailTrace, DeleteSemantics}
use mime_crypt.Mailflow.Ports.{SourceHandle, MailEnvelope}
use mime_crypt.Provider.Contracts.{
  Message, MessageRef, message_ref, with_fallback_folder, MailReader, Deleter,
}

unfoldable pub first_non_empty : List String → String
unfolding is_blank trim_space
first_non_empty [] = ""
first_non_empty (s ∷ rest) = if is_blank s then first_non_empty rest else trim_space s

-- transactionKey, of a producer's name and driver and a message's id
unfoldable pub source_key : String → String → String → String
unfolding first_non_empty is_blank trim_space
source_key name driver id =
    (if is_blank name then first_non_empty (trim_space driver ∷ "source" ∷ []) else trim_space name)
    +++ (":" +++ trim_space id)

-- The trace of a message that stands in the folder.
abbrev pub message_trace : String → String → StoreRef → String → Message → MailTrace
message_trace name driver store folder m = record {
  transaction_key = source_key name driver m.id;
  source_name = trim_space name;
  source_driver = trim_space driver;
  source_message_id = m.id;
  source_folder_id = folder;
  internet_message_id = m.internet_message_id;
  received_at = m.received_date_time;
  source_store = store;
  attributes = none;
}

module _ {W : Type 0} where
  -- Delete of the source handles: without a deleter an error
  unfoldable pub delete_at_source : Option (Deleter W) → MessageRef → Act W (Unit {0})
  delete_at_source none ref = raise (failed "来源不支持删除")
  delete_at_source (some d) ref = d.delete_message ref

  -- singleMessageSourceHandle
  unfoldable pub single_message_handle : Option (Deleter W) → MessageRef → SourceHandle W
  unfolding delete_at_source
  single_message_handle deleter ref = record {
    acknowledge = pure tt;
    finalize = none;
    delete = some (delete_at_source deleter ref);
  }

pub record ReaderEnvelopeBuilder (W : Type 0) : Type 0 where
  pub name : String
  pub driver : String
  pub folder : String
  pub store : StoreRef
  pub reader : Option (MailReader W)
  pub deleter : Option (Deleter W)
  pub delete_semantics : DeleteSemantics

module _ {W : Type 0} where
  abbrev pub built_envelope : ReaderEnvelopeBuilder W → MailReader W → Message → MailEnvelope W
  built_envelope b reader m =
      let ref = with_fallback_folder b.folder (message_ref m) in
      record {
        mime = some (reader.fetch_mime m.id);
        trace = message_trace b.name b.driver b.store ref.folder_id m;
        source = some (single_message_handle b.deleter ref);
        delete_semantics = b.delete_semantics;
      }

  -- EnvelopeForMessage
  unfoldable pub envelope_for_message : ReaderEnvelopeBuilder W → Message → Act W (MailEnvelope W)
  unfolding is_blank source_key with_fallback_folder single_message_handle
  envelope_for_message b m = elim b.reader [
    | none ↦ raise (failed "reader 未配置")
    | some reader ↦
        if is_blank m.id then raise (failed "message id 不能为空") else pure (built_envelope b reader m)
  ]

  -- The folder that EnvelopeForID fills in.
  abbrev pub placed : String → ReaderEnvelopeBuilder W → Message → Message
  placed fallback b m =
      if is_blank m.parent_folder_id
      then record m { parent_folder_id = first_non_empty (fallback ∷ b.folder ∷ []) }
      else m

  -- EnvelopeForID
  unfoldable pub envelope_for_id :
      ReaderEnvelopeBuilder W → String → String → Act W (MailEnvelope W)
  unfolding envelope_for_message first_non_empty is_blank
  envelope_for_id b id fallback = elim b.reader [
    | none ↦ raise (failed "reader 未配置")
    | some reader ↦ reader.message id >>= λ m. envelope_for_message b (placed fallback b m)
  ]
