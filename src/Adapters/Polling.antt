-- ===== src/Adapters/Polling.antt =====
-- provider_polling_producer.go: messages from a delta query, one by one, with a cursor in a state
-- file. The time stamp that the file also gets is never read and is left out; the mutex too, since
-- each method runs alone.
mod Feed
mod Progress
mod Acknowledge
mod Tests
use mime_crypt.Base.{
  ℕ, String, Bool, true, false, Option, none, some, List, [], ◌∷◌, not, ◌&&◌, if◌then◌else◌,
}
use mime_crypt.Base.Text.{◌==◌, is_blank, is_empty}
use mime_crypt.Base.Lists.{is_nil}
use mime_crypt.Base.Effect.{ok, err, pure, raise, ◌>>=◌, ◌>>◌}
use mime_crypt.Mailflow.Errors.{Act, Error, failed, no_messages}
use mime_crypt.Mailflow.Types.{StoreRef, DeleteSemantics}
use mime_crypt.Mailflow.Ports.{SourceHandle, MailEnvelope}
use mime_crypt.Provider.Contracts.{
  Message, MessageRef, message_ref, with_fallback_folder, MailReader, Deleter,
}
use mime_crypt.Fileutil.Stored.{Files, read_state, write_state}
use mime_crypt.Adapters.Envelope.{first_non_empty, message_trace, delete_at_source}

pub record PollingProducer (W : Type 0) : Type 0 where
  pub name : String
  pub driver : String
  pub folder : String
  pub state_path : String
  pub include_existing : Bool
  pub store : StoreRef
  pub reader : Option (MailReader W)
  pub deleter : Option (Deleter W)
  pub delete_semantics : DeleteSemantics

pub record PollingState : Type 0 where
  pub delta_link : String
  pub next_delta_link : String
  pub pending_messages : List Message

-- The state of a producer that has no file yet.
abbrev pub no_state : PollingState
no_state = record { delta_link = ""; next_delta_link = ""; pending_messages = [] }

abbrev pub state_or_new : Option PollingState → PollingState
state_or_new none = no_state
state_or_new (some s) = s

-- The state between two pages: all up to the link is done.
abbrev pub settled_at : String → PollingState
settled_at link = record no_state { delta_link = link }

-- The pending messages without the first one of this id; `none` where there is none.
unfoldable pub without : String → List Message → Option (List Message)
without id [] = none
without id (m ∷ ms) =
    let rest = without id ms in
    if m.id == id then some ms else elim rest [ none ↦ none | some others ↦ some (m ∷ others) ]

-- The state after an acknowledgement, from what is left of the page.
abbrev pub acknowledged_state : PollingState → List Message → PollingState
acknowledged_state s [] = settled_at s.next_delta_link
acknowledged_state s (m ∷ ms) = record s { pending_messages = m ∷ ms }

abbrev pub is_bootstrap : PollingState → Bool
is_bootstrap s = is_empty s.delta_link && is_nil s.pending_messages

module _ {W : Type 0} (files : Files W PollingState) where
  unfoldable pub load_state : String → Act W PollingState
  unfolding read_state
  load_state path = read_state files path "读取 producer 状态失败" "解析 producer 状态失败" >>= λ found.
      pure (state_or_new found)

  unfoldable pub save_state : String → PollingState → Act W (Unit {0})
  unfolding write_state
  save_state path s = write_state files path "创建 producer 状态目录失败" "保存 producer 状态失败" s

  -- What Acknowledge saves, if anything.
  unfoldable pub remove_pending : String → String → PollingState → Act W (Unit {0})
  unfolding without save_state
  remove_pending path id s = elim (without id s.pending_messages) [
    | none ↦ pure tt
    | some rest ↦ save_state path (acknowledged_state s rest)
  ]

  -- pollingSourceHandle.Acknowledge
  unfoldable pub acknowledge_pending : String → String → Act W (Unit {0})
  unfolding load_state remove_pending
  acknowledge_pending path id = load_state path >>= λ s. remove_pending path id s

  unfoldable pub polling_handle : PollingProducer W → Message → SourceHandle W
  unfolding acknowledge_pending delete_at_source with_fallback_folder
  polling_handle p m =
      let ref = with_fallback_folder p.folder (message_ref m) in
      record {
        acknowledge = acknowledge_pending p.state_path m.id;
        finalize = none;
        delete = some (delete_at_source p.deleter ref);
      }

  abbrev pub polling_envelope : PollingProducer W → MailReader W → Message → MailEnvelope W
  polling_envelope p reader m = record {
    mime = some (reader.fetch_mime m.id);
    trace =
        message_trace p.name p.driver p.store (first_non_empty (m.parent_folder_id ∷ p.folder ∷ []))
          m;
    source = some (polling_handle p m);
    delete_semantics = p.delete_semantics;
  }

  -- The page to go on with: what is pending, or what the service has after the cursor.
  unfoldable pub next_page :
      PollingProducer W → MailReader W → PollingState → Act W (List Message × String)
  next_page p reader s =
      if is_nil s.pending_messages
      then reader.delta_created_messages p.folder s.delta_link
      else if is_empty s.next_delta_link
      then raise (failed "producer 状态损坏：存在待处理邮件但缺少 next delta link")
      else pure (s.pending_messages, s.next_delta_link)

  -- The first message of the page; a page that is new is saved first.
  unfoldable pub deliver_page :
      PollingProducer W
      → MailReader W
      → PollingState
      → List Message
      → String
      → Act W (MailEnvelope W)
  unfolding save_state
  deliver_page p reader s [] link = save_state p.state_path (settled_at link) >> raise no_messages
  deliver_page p reader s (m ∷ ms) link =
      (if is_nil s.pending_messages
        then save_state p.state_path
            (record s { next_delta_link = link; pending_messages = m ∷ ms })
        else pure tt)
      >> pure (polling_envelope p reader m)

  -- The first run without include_existing only takes the cursor.
  unfoldable pub after_page :
      PollingProducer W
      → MailReader W
      → PollingState
      → List Message × String
      → Act W (MailEnvelope W)
  unfolding deliver_page save_state
  after_page p reader s (ms, link) =
      if is_bootstrap s && not p.include_existing
      then save_state p.state_path (settled_at link) >> raise no_messages
      else deliver_page p reader s ms link

  unfoldable pub advance_polling :
      PollingProducer W → MailReader W → PollingState → Act W (MailEnvelope W)
  unfolding next_page after_page
  advance_polling p reader s = next_page p reader s >>= after_page p reader s

  -- Next, with the producer's reader if it has one
  unfoldable pub next_from : PollingProducer W → Option (MailReader W) → Act W (MailEnvelope W)
  unfolding load_state advance_polling
  next_from p none = raise (failed "reader 未配置")
  next_from p (some reader) =
      if is_blank p.state_path
      then raise (failed "state path 不能为空")
      else load_state p.state_path >>= advance_polling p reader

  -- PollingProducer.Next
  unfoldable pub next_polled : PollingProducer W → Act W (MailEnvelope W)
  unfolding next_from
  next_polled p = next_from p p.reader
