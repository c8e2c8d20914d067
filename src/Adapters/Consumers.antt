-- ===== src/Adapters/Consumers.antt =====
-- file_consumer.go and discard_consumer.go: where a message goes. The opener of the message is an
-- argument, since ProcessedMail.Validate has found that there is one.
mod Saved
mod Tests
use mime_crypt.Base.{ℕ, String, Bool, true, Option, none, some, List, [], ◌∷◌, if◌then◌else◌}
use mime_crypt.Base.Text.{trim_space, is_blank}
use mime_crypt.Base.Effect.{pure, raise, ◌>>=◌}
use mime_crypt.Mailflow.Errors.{Act, failed, wrapped, wrapping}
use mime_crypt.Mailflow.Types.{MailTrace, DeliveryTarget, DeliveryReceipt, StoreRef, no_store}
use mime_crypt.Mailflow.Plan.{target_key}
use mime_crypt.Mailflow.Ports.{Reader, Opener}
use mime_crypt.Provider.Contracts.{Message}
use mime_crypt.Fileutil.Stored.{Files}
use mime_crypt.Appconfig.Platform.{Platform}
use mime_crypt.Adapters.Envelope.{first_non_empty}
use mime_crypt.Mimefile.{save_to_output_dir}

abbrev pub receipt_of : DeliveryTarget → String → StoreRef → DeliveryReceipt
receipt_of t id store = record {
  target = target_key t;
  consumer = t.consumer;
  id = id;
  store = store;
  verified = true;
}

-- The message as SaveToOutputDir gets it
unfoldable pub saved_message : MailTrace → Message
unfolding first_non_empty
saved_message trace = record {
  id = first_non_empty (trace.source_message_id ∷ trace.transaction_key ∷ []);
  subject = "";
  internet_message_id = "";
  parent_folder_id = "";
  received_date_time = trace.received_at;
}

module _ {W : Type 0} where
  -- DiscardConsumer.Consume
  unfoldable pub consume_discard : Opener W → DeliveryTarget → Act W DeliveryReceipt
  unfolding target_key
  consume_discard opener t = wrapping (wrapped "打开邮件对象 MIME 失败") opener >>= λ r. elim r.failure [
    | none ↦ pure (receipt_of t "" no_store)
    | some e ↦ raise (wrapped "读取邮件对象 MIME 失败" e)
  ]

module _ (os : Platform) (format_time : ℕ → String) {W : Type 0} (files : Files W (List ℕ)) where
  abbrev pub saved_receipt : DeliveryTarget → String → String × ℕ → DeliveryReceipt
  saved_receipt t dir (path, n) =
      receipt_of t path (record { driver = "file"; account = dir; mailbox = "" })

  -- FileConsumer.Consume, after the opener
  unfoldable pub save_opened : String → MailTrace → DeliveryTarget → Reader → Act W DeliveryReceipt
  unfolding save_to_output_dir saved_message target_key
  save_opened dir trace t r =
      save_to_output_dir os format_time files dir (saved_message trace) r >>= λ saved.
      pure (saved_receipt t dir saved)

  -- FileConsumer.Consume
  unfoldable pub consume_file :
      String → Opener W → MailTrace → DeliveryTarget → Act W DeliveryReceipt
  unfolding is_blank trim_space save_opened
  consume_file output_dir opener trace t =
      if is_blank output_dir
      then raise (failed "output dir 不能为空")
      else (wrapping (wrapped "打开邮件对象 MIME 失败") opener
          >>= save_opened (trim_space output_dir) trace t)
