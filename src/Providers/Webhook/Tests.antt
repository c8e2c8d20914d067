-- ===== src/Providers/Webhook/Tests.antt =====
-- ingress.go: a signed request, with a stand-in for HMAC and SHA-256 that always gives one digest.
use mime_crypt.Base.{arith, ℕ, ◌≤◌, String, Bool, true, false, none, some, List, [], ◌∷◌, ◌≡◌, refl}
use mime_crypt.Base.Lists.{All}
use mime_crypt.Base.Effect.{ok, err, pure}
use mime_crypt.Mailflow.Errors.{Act, failed}
use mime_crypt.Mailflow.Ports.{Reader}
use mime_crypt.Providers.Webhook.Digest.{within_tolerance}
use mime_crypt.Providers.Webhook.Ingress.{
  WebhookLibrary, WebhookConfig, PushMessage, Ingress, Request, answer, handle,
}
use mime_crypt.Base.Ints.{pos}
use mime_crypt.Appconfig.Topology.{Source}
use mime_crypt.Adapters.Spool.Disk.{PushSpool}
use mime_crypt.Providers.Webhook.Authentic.{IsAuthentic, handle-Authentic}

abbrev digest : String
digest = "00000000000000000000000000000000000000000000000000000000000000ab"

abbrev library : WebhookLibrary
library = record {
  decode = λ raw. err (failed "");
  getenv = λ name. "";
  parse_media_type = λ s. ok s;
  parse_time = λ s. ok 1003;
  format_time = λ t. "t";
  to_upper = λ s. s;
  hmac = λ key text. digest;
  sha256 = λ bytes. digest;
  message_id = λ bytes. "";
}

abbrev Queue : Type 0
Queue = List PushMessage

abbrev clock : Queue → ℕ
clock q = 1000

abbrev call : Act Queue (Unit {0})
call = pure tt

abbrev take_message : PushMessage → Reader → Act Queue Bool
take_message m r q = (ok false, m ∷ q)

abbrev ingress : Ingress
ingress = record {
  source_name = "hook";
  listen_addr = ":8080";
  path = "/mail";
  secret = "s";
  max_body_bytes = 10;
  timestamp_tolerance = 5;
}

abbrev request : Request
request = record {
  method = "POST";
  url_path = "/mail";
  content_type = "";
  timestamp = "now";
  delivery_id = "d1";
  signature = digest;
  body_sha256 = digest;
  content_length = 1;
  body = record { bytes = 7 ∷ []; failure = none };
}

-- The request is taken.
taken : (handle library clock call take_message ingress request []).0 ≡ ok (answer 202 "accepted")
unfolding handle
taken = refl

-- No message of the queue is from after the window.
abbrev InTime : Queue → Type 0
InTime q = All (λ m. m.received_at ≤ 1005) q

kept :
    (m : PushMessage)
    → IsAuthentic library 1000 ingress request m
    → (q : Queue) → InTime q
    → InTime (m ∷ q)
kept m a q h = (let near = a.timely in ground arith, h)

handle-Authentic_example : InTime (handle library clock call take_message ingress request []).1
handle-Authentic_example =
    handle-Authentic library clock call take_message InTime ingress request []
      (record { at = λ q h. h }) (λ m a. record { at = kept m a }) tt

-- A time stamp is never too old where the tolerance is the longest duration.
endless : within_tolerance 20000000000000000000 0 9223372036854775807 ≡ true
unfolding within_tolerance
endless = refl

abbrev webhook_config : WebhookConfig
webhook_config = record {
  listen_addr = ":8080";
  path = "/hook";
  secret_env = "SECRET";
  max_body_bytes = pos 0;
  timestamp_tolerance = pos 60;
}

abbrev configured : WebhookLibrary
configured = record library { decode = λ raw. ok webhook_config; getenv = λ name. "key" }

abbrev webhook_source : Source
webhook_source = record {
  name = "hook";
  driver = "Webhook";
  mode = "push";
  credential_ref = "";
  folder = "";
  state_path = "";
  include_existing = false;
  poll_interval = 0;
  cycle_timeout = 0;
  driver_config = some "{}";
}

abbrev hook_spool : PushSpool
hook_spool = record {
  dir_name = "spool";
  replay_retention = 60;
  prepare_at = λ key. pure tt;
  finalize_at = λ key. pure tt;
}
