-- ===== src/Adapters/Polling/Tests.antt =====
-- provider_polling_producer.go: a service with two pages, and files without errors.
use mime_crypt.Base.{
  String, true, none, some, List, [], ◌∷◌, ◌++◌, ◌≡◌, refl, Bool-cases, inl, inr, if◌then◌else◌,
}
use mime_crypt.Base.Text.{◌==◌, is_blank}
use mime_crypt.Base.Effect.{After, pure, raise}
use mime_crypt.Mailflow.Errors.{failed}
use mime_crypt.Mailflow.Types.{DeleteSemantics}
use mime_crypt.Provider.Contracts.{Message, MailReader}
use mime_crypt.Fileutil.Stored.{Files, Stored, missing, present}
use mime_crypt.Adapters.Polling.{PollingProducer, PollingState, next_polled, acknowledge_pending}
use mime_crypt.Adapters.Polling.Feed.{Feed, outstanding, remaining}
use mime_crypt.Adapters.Polling.Progress.{Good, Bad, next_polled-Offers}
use mime_crypt.Adapters.Polling.Acknowledge.{Taken, TakenOrNot, acknowledge_pending-Taken}

abbrev World : Type 0
World = String → Stored PollingState

abbrev files : Files World PollingState
files = record {
  get = λ p w. w p;
  put = λ p s w q. if p == q then s else w q;
  call = pure tt;
  get-put = λ p q s w. refl;
  get-call = λ p w. refl;
  call_found = λ w. refl;
}

abbrev mail : String → Message
mail id = record {
  id = id;
  subject = "";
  internet_message_id = "";
  parent_folder_id = "";
  received_date_time = 0;
}

abbrev page : String → List Message × String
page link =
    if link == ""
    then (mail "a" ∷ mail "b" ∷ [], "1")
    else if link == "1"
    then (mail "c" ∷ [], "2")
    else ([], link)

abbrev later_than : String → List Message
later_than link =
    if link == ""
    then mail "a" ∷ mail "b" ∷ mail "c" ∷ []
    else if link == "1"
    then mail "c" ∷ []
    else []

page-later_than : (link : String) → later_than link ≡ ((page link).0 ++ later_than ((page link).1))
page-later_than link = elim (Bool-cases (link == "")) [
  | inl first ↦ rw (first, if◌then◌else◌) refl
  | inr later ↦ elim (Bool-cases (link == "1")) [
    | inl second ↦ rw (later, second, if◌then◌else◌) refl
    | inr last ↦ rw (later, last, if◌then◌else◌, later, last, if◌then◌else◌) refl
  ]
]

abbrev service : MailReader World
service = record {
  me = raise (failed "");
  message = λ id. pure (mail id);
  fetch_mime = λ id. raise (failed "");
  delta_created_messages =
      λ folder link. pure (if folder == "inbox" then page link else (mail "z" ∷ [], link));
  first_message_in_folder = λ folder. pure none;
  latest_messages_in_folder = λ folder skip limit. pure [];
}

abbrev feed : Feed files service "inbox"
feed = record {
  unseen = λ w. later_than;
  unseen-call = λ w. refl;
  unseen-put = λ path s w. refl;
  delta = λ link path w. (refl, refl, page-later_than link);
}

abbrev producer : PollingProducer World
producer = record {
  name = "inbox";
  driver = "graph";
  folder = "inbox";
  state_path = "state.json";
  include_existing = true;
  store = record { driver = ""; account = ""; mailbox = "" };
  reader = some service;
  deleter = none;
  delete_semantics = DeleteSemantics.unknown;
}

abbrev fresh : World
fresh = λ path. missing

abbrev halfway : PollingState
halfway = record { delta_link = ""; next_delta_link = "1"; pending_messages = mail "b" ∷ [] }

abbrev started : World
started = λ path. present halfway

next_polled-Offers_example :
    After
      (Good files service producer feed (outstanding files service feed "state.json" fresh))
      (Bad files service producer feed (outstanding files service feed "state.json" fresh))
      (next_polled files producer fresh)
unfolding is_blank
next_polled-Offers_example = next_polled-Offers files service producer feed fresh refl refl refl

acknowledge_pending-Taken_example :
    After
      (λ (_ : Unit {0}) v.
        Taken files service producer feed (mail "b") (remaining halfway later_than) v)
      (TakenOrNot files service producer feed (mail "b") (remaining halfway later_than))
      (acknowledge_pending files "state.json" "b" started)
acknowledge_pending-Taken_example =
    acknowledge_pending-Taken files service producer feed started halfway (mail "b") [] refl refl
