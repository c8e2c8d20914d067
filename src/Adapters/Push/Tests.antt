-- ===== src/Adapters/Push/Tests.antt =====
-- push_producer.go: a spool in which one message waits and another was claimed by an earlier
-- process.
use mime_crypt.Base.{String, false, none, some, [], ◌∷◌, ◌≡◌, refl, inr}
use mime_crypt.Base.Assoc.{lookup, insert, remove}
use mime_crypt.Base.Effect.{ok, err, raise, After}
use mime_crypt.Mailflow.Errors.{Result, not_exist}
use mime_crypt.Mailflow.Types.{hard}
use mime_crypt.Mailflow.Ports.{MailEnvelope}
use mime_crypt.Adapters.Spool.Disk.{PushMessageMeta, Node, dir, PushSpool}
use mime_crypt.Adapters.Spool.Loss.{Holds}
use mime_crypt.Adapters.Spool.Waiting.{Alarm}
use mime_crypt.Adapters.Push.{PushProducer, PushWorld, next_pushed}
use mime_crypt.Adapters.Push.Keeping.{next_pushed-Holds}
use mime_crypt.Adapters.Push.Offers.{next_pushed-Offered}

abbrev spool : PushSpool
spool = record {
  dir_name = "spool";
  replay_retention = 10;
  prepare_at = λ key. raise not_exist;
  finalize_at = λ key d. (ok tt, record d { processing = [] });
}

abbrev meta : String → PushMessageMeta
meta id = record { delivery_id = id; internet_message_id = ""; received_at = 3; attributes = none }

abbrev node : String → Node
node id = dir (some (some (meta id))) (some (1 ∷ 2 ∷ []))

abbrev world : PushWorld
world = record {
  disk = record {
    pending = ("a", node "a") ∷ [];
    processing = ("b", node "b") ∷ [];
    seen = [];
    now = 5;
    calls = 0;
    faults = λ n. none;
  };
  requeued = false;
}

abbrev producer : PushProducer
producer = record {
  name = " in ";
  driver = "webhook";
  store = record { driver = ""; account = ""; mailbox = "" };
  spool = some spool;
  delete_semantics = hard;
}

abbrev after : PushWorld
after = (next_pushed producer world).1

after_pending : after.disk.pending ≡ ("b", node "b") ∷ []
unfolding next_pushed insert remove
after_pending = refl

after_processing : after.disk.processing ≡ ("a", node "a") ∷ []
unfolding next_pushed insert remove
after_processing = refl

-- The transaction key of an offered message.
offered_key : Result (MailEnvelope PushWorld) → String
offered_key (ok e) = e.trace.transaction_key
offered_key (err e) = ""

first_key : offered_key (next_pushed producer world).0 ≡ "in:a"
unfolding next_pushed offered_key insert remove
first_key = refl

second_key : offered_key (next_pushed producer after).0 ≡ "in:b"
unfolding next_pushed offered_key insert remove
second_key = refl

next_pushed-Holds_example : Holds "b" (node "b") (next_pushed producer world).1.disk
unfolding lookup
next_pushed-Holds_example = next_pushed-Holds "b" (node "b") refl producer world (inr refl)

next_pushed-Offered_example : After (λ _ _. Unit {0}) (λ e _. Alarm e) (next_pushed producer world)
unfolding lookup
next_pushed-Offered_example = next_pushed-Offered "a" producer spool world refl (refl, refl)
