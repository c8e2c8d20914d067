-- ===== src/Flowruntime/StuckTests.antt =====
-- source_executor.go, coordinator.go and provider_polling_producer.go: a message that is pending at
-- its source although its transaction is completed, as after the loss of the producer's state file.
use mime_crypt.Base.{
  ℕ, zero, suc, String, true, none, some, [], ◌∷◌, ◌≡◌, refl, ap, ◌∙◌, if◌then◌else◌,
}
use mime_crypt.Base.Text.{◌==◌}
use mime_crypt.Base.Effect.{ok, pure, raise}
use mime_crypt.Mailflow.Errors.{failed}
use mime_crypt.Mailflow.Types.{DeleteSemantics, RunResult, new_state, no_store}
use mime_crypt.Mailflow.Runner.{Runner, run_once}
use mime_crypt.Provider.Contracts.{Message, MailReader}
use mime_crypt.Fileutil.Stored.{Files, Stored, present}
use mime_crypt.Adapters.Envelope.{source_key}
use mime_crypt.Adapters.Polling.{PollingProducer, PollingState, next_polled, polling_handle}
use mime_crypt.Flowruntime.Cycle.{Counts, counted, next_round, cycle}

abbrev World : Type 0
World = String → Stored PollingState

abbrev files : Files World PollingState
files = record {
  get = λ p w. w p;
  put = λ p s w q. if p == q then s else w q;
  call = pure tt;
  get-put = λ p q s w. refl;
  get-call = λ p w. refl;
  call_found = λ w. refl;
}

abbrev message : Message
message = record {
  id = "1";
  subject = "";
  internet_message_id = "";
  parent_folder_id = "";
  received_date_time = 0;
}

abbrev service : MailReader World
service = record {
  me = raise (failed "");
  message = λ id. pure message;
  fetch_mime = λ id. raise (failed "");
  delta_created_messages = λ folder link. pure ([], link);
  first_message_in_folder = λ folder. pure none;
  latest_messages_in_folder = λ folder skip limit. pure [];
}

abbrev producer : PollingProducer World
producer = record {
  name = "inbox";
  driver = "graph";
  folder = "inbox";
  state_path = "state.json";
  include_existing = true;
  store = no_store;
  reader = some service;
  deleter = none;
  delete_semantics = DeleteSemantics.unknown;
}

abbrev pending : World
pending = λ path.
    present (record { delta_link = ""; next_delta_link = "1"; pending_messages = message ∷ [] })

abbrev runner : Runner World
runner = record {
  producer = some (record { next = next_polled files producer });
  coordinator = some (record {
    processor = some (record { process = λ e. raise (failed "") });
    store = some (record {
      load = λ key. pure (some (record (new_state key) { source_acked = true; completed = true }));
      save = λ s. pure tt;
    });
    consumers = [];
  });
}

once : (r : RunResult) × (run_once runner pending ≡ (ok (some r), pending))
unfolding run_once next_polled source_key polling_handle
once = (_, refl)

-- Whatever the fuel, the cycle does not end: the source is finalized, but not acknowledged, and the
-- producer offers the message again.
cycle_stuck : (fuel : ℕ) (c : Counts) → cycle runner fuel c pending ≡ none
unfolding cycle
cycle_stuck zero c = refl
cycle_stuck (suc fuel) c =
    ap (next_round (cycle runner fuel) c) (once.1) ∙ cycle_stuck fuel (counted once.0 c)
