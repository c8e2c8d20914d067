-- ===== src/Mailflow/Types.antt =====
-- internal/mailflow/types.go and provider/contracts.go: the data of a message's transaction. A nil
-- slice or map is `none`; where the program only reads a map, nil and the empty map are one list.
use mime_crypt.Base.{ℕ, String, Bool, false, Option, none, List, [], ◌&&◌, not}
use mime_crypt.Base.Text.{◌==◌, trim_space, is_blank, equal_fold}
use mime_crypt.Base.Assoc.{Assoc}

pub record StoreRef : Type 0 where
  pub driver : String
  pub account : String
  pub mailbox : String

-- StoreRef.Valid
unfoldable pub valid : StoreRef → Bool
unfolding is_blank
valid r = not (is_blank r.driver) && not (is_blank r.account)

-- StoreRef.Equal: the mailbox is not looked at.
unfoldable pub same_store : StoreRef → StoreRef → Bool
unfolding equal_fold trim_space
same_store r other =
    equal_fold (trim_space r.driver) (trim_space other.driver)
    && trim_space r.account == trim_space other.account

-- `received_at` is an instant; 0 is Go's zero time.
pub record MailTrace : Type 0 where
  pub transaction_key : String
  pub source_name : String
  pub source_driver : String
  pub source_message_id : String
  pub source_folder_id : String
  pub internet_message_id : String
  pub received_at : ℕ
  pub source_store : StoreRef
  pub attributes : Option (Assoc String)

-- The constants of provider.DeleteSemantics, and any other text.
pub data DeleteSemantics : Type 0 where
  hard soft unknown : DeleteSemantics
  other : String → DeleteSemantics

pub record DeliveryTarget : Type 0 where
  pub name : String
  pub consumer : String
  pub artifact : String
  pub required : Bool

pub record DeleteSourcePolicy : Type 0 where
  pub enabled : Bool
  pub require_same_store : Bool
  pub eligible_consumers : Option (List String)

pub record ExecutionPlan : Type 0 where
  pub targets : List DeliveryTarget
  pub delete_source : DeleteSourcePolicy

pub record DeliveryReceipt : Type 0 where
  pub target : String
  pub consumer : String
  pub id : String
  pub store : StoreRef
  pub verified : Bool

pub record TxState : Type 0 where
  pub key : String
  pub trace : MailTrace
  pub plan : ExecutionPlan
  pub deliveries : Assoc DeliveryReceipt
  pub skipped : Bool
  pub source_deleted : Bool
  pub source_acked : Bool
  pub completed : Bool

-- `Result`: what a run reports of the state that it reached.
pub record RunResult : Type 0 where
  pub key : String
  pub trace : MailTrace
  pub plan : ExecutionPlan
  pub deliveries : Assoc DeliveryReceipt
  pub skipped : Bool
  pub source_deleted : Bool
  pub source_acked : Bool
  pub completed : Bool

-- The zero values that the program starts from.
abbrev pub no_store : StoreRef
no_store = record { driver = ""; account = ""; mailbox = "" }

abbrev pub no_trace : MailTrace
no_trace = record {
  transaction_key = "";
  source_name = "";
  source_driver = "";
  source_message_id = "";
  source_folder_id = "";
  internet_message_id = "";
  received_at = 0;
  source_store = no_store;
  attributes = none;
}

abbrev pub no_policy : DeleteSourcePolicy
no_policy = record { enabled = false; require_same_store = false; eligible_consumers = none }

abbrev pub no_plan : ExecutionPlan
no_plan = record { targets = []; delete_source = no_policy }

-- The state of a transaction that the store does not know.
unfoldable pub new_state : String → TxState
new_state key = record {
  key = key;
  trace = no_trace;
  plan = no_plan;
  deliveries = [];
  skipped = false;
  source_deleted = false;
  source_acked = false;
  completed = false;
}
