-- ===== src/Provider/Contracts.antt =====
-- contracts.go: messages, references to them, and the interfaces of a mail service as records of
-- actions.
use mime_crypt.Base.{ℕ, String, Option, List, if◌then◌else◌}
use mime_crypt.Base.Text.{is_blank, is_empty}
use mime_crypt.Mailflow.Errors.{Act}
use mime_crypt.Mailflow.Ports.{Opener}

pub record User : Type 0 where
  pub id : String
  pub display_name : String
  pub mail : String
  pub user_principal_name : String

-- User.Account
unfoldable pub account : User → String
account u = if is_empty u.mail then u.user_principal_name else u.mail

pub record Message : Type 0 where
  pub id : String
  pub subject : String
  pub internet_message_id : String
  pub parent_folder_id : String
  pub received_date_time : ℕ

pub record MessageRef : Type 0 where
  pub id : String
  pub internet_message_id : String
  pub folder_id : String
  pub received_date_time : ℕ

-- Message.Ref
abbrev pub message_ref : Message → MessageRef
message_ref m = record {
  id = m.id;
  internet_message_id = m.internet_message_id;
  folder_id = m.parent_folder_id;
  received_date_time = m.received_date_time;
}

-- MessageRef.WithFallbackFolder
unfoldable pub with_fallback_folder : String → MessageRef → MessageRef
with_fallback_folder folder r = if is_blank r.folder_id then record r { folder_id = folder } else r

-- provider.Reader
pub record MailReader (W : Type 0) : Type 0 where
  pub me : Act W User
  pub message : String → Act W Message
  pub fetch_mime : String → Opener W
  pub delta_created_messages : String → String → Act W (List Message × String)
  pub first_message_in_folder : String → Act W (Option Message)
  pub latest_messages_in_folder : String → ℕ → ℕ → Act W (List Message)

pub record Deleter (W : Type 0) : Type 0 where
  pub delete_message : MessageRef → Act W (Unit {0})
