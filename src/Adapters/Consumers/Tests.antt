-- ===== src/Adapters/Consumers/Tests.antt =====
-- file_consumer.go: a directory in a function from paths to files, and a message of two bytes.
use mime_crypt.Base.{
  ℕ, nat_eq, String, true, false, none, some, List, [], ◌∷◌, ◌≡◌, refl, ◌⊎◌, ◌||◌, not,
  if◌then◌else◌,
}
use mime_crypt.Base.Text.{◌==◌, ◌+++◌}
use mime_crypt.Base.Effect.{pure, After}
use mime_crypt.Mailflow.Types.{MailTrace, DeliveryTarget, no_store}
use mime_crypt.Mailflow.Errors.{Error, external}
use mime_crypt.Mailflow.Ports.{Reader, Opener}
use mime_crypt.Fileutil.Stored.{Files, Stored, missing, present}
use mime_crypt.Appconfig.Platform.{Platform}
use mime_crypt.Mimefile.{build_message_file_name}
use mime_crypt.Adapters.Consumers.{consume_file, saved_message}
use mime_crypt.Adapters.Consumers.Saved.{Is, Delivered, Receipted, consume_file-Receipted}

abbrev World : Type 0
World = String → Stored (List ℕ)

abbrev files : Files World (List ℕ)
files = record {
  get = λ p w. w p;
  put = λ p s w q. if p == q then s else w q;
  call = pure tt;
  get-put = λ p q s w. refl;
  get-call = λ p w. refl;
  call_found = λ w. refl;
}

abbrev os : Platform
os = record {
  is_letter_or_digit = λ c. not (nat_eq c 47 || nat_eq c 43);
  join = λ parts. elim parts [ [] ↦ "" | p ∷ ps ↦ elim ps [ [] ↦ p | q ∷ qs ↦ p +++ "/" +++ q ] ];
  base = λ p. p;
  is_abs = λ p. false;
}

abbrev format_time : ℕ → String
format_time n = "20260328T123456Z"

abbrev trace_of : String → MailTrace
trace_of id = record {
  transaction_key = "in:" +++ id;
  source_name = "in";
  source_driver = "imap";
  source_message_id = id;
  source_folder_id = "INBOX";
  internet_message_id = "";
  received_at = 3;
  source_store = no_store;
  attributes = none;
}

abbrev target : DeliveryTarget
target = record { name = "archive"; consumer = "file"; artifact = ""; required = true }

abbrev message : Reader
message = record { bytes = 1 ∷ 2 ∷ []; failure = none }

abbrev broken_message : Reader
broken_message = record { bytes = 1 ∷ []; failure = some (external 5) }

abbrev opener : Opener World
opener = pure message

abbrev nothing : World
nothing = λ q. missing

file_name :
    build_message_file_name os format_time (saved_message (trace_of "msg/1"))
    ≡ "20260328T123456Z_msg_1.eml"
unfolding build_message_file_name saved_message
file_name = refl

-- Two messages of one second whose ids differ in '/' and '+' only have one file.
shared_name :
    build_message_file_name os format_time (saved_message (trace_of "msg/1"))
    ≡ build_message_file_name os format_time (saved_message (trace_of "msg+1"))
unfolding build_message_file_name saved_message
shared_name = refl

saved :
    (consume_file os format_time files " out " opener (trace_of "msg/1") target nothing).1
      "out/20260328T123456Z_msg_1.eml"
    ≡ present (1 ∷ 2 ∷ [])
unfolding consume_file
saved = refl

-- A message that is not read to its end leaves no file.
not_saved :
    (consume_file os format_time files "out" (pure broken_message) (trace_of "a") target nothing).1
      "out/20260328T123456Z_a.eml"
    ≡ missing
unfolding consume_file
not_saved = refl

abbrev IsMessage : Reader → Type 0
IsMessage r = r ≡ message

consume_file-Receipted_example :
    After
      (Receipted os format_time files "out" (trace_of "a") target nothing IsMessage)
      (λ (_ : Error) v.
        Is os format_time files "out" (trace_of "a") target nothing nothing v
        ⊎ Delivered os format_time files "out" (trace_of "a") target nothing IsMessage v)
      (consume_file os format_time files "out" opener (trace_of "a") target nothing)
consume_file-Receipted_example =
    consume_file-Receipted os format_time files "out" (trace_of "a") target nothing IsMessage opener
      nothing (λ v h. (refl, h)) (λ q. refl)
