-- ===== src/Providers/Webhook/Ingress.antt =====
-- config.go, ingress.go: the settings of a webhook source, and what its server does with a request.
use mime_crypt.Base.{
  ℕ, nat_eq, ltb, String, Bool, true, false, Option, none, some, List, [], ◌∷◌, ◌&&◌, ◌||◌, not,
  if◌then◌else◌, is_some,
}
use mime_crypt.Base.Text.{◌+++◌, ◌==◌, trim_space, to_lower, is_blank, is_empty, equal_fold}
use mime_crypt.Base.Assoc.{Assoc}
use mime_crypt.Base.Lists.{is_nil, length}
use mime_crypt.Base.Ints.{ℤ, is_negative, positive_or}
use mime_crypt.Base.Effect.{Outcome, Proc, ok, err, pure, raise, ◌>>=◌, ◌>>◌, within, lift}
use mime_crypt.Mailflow.Errors.{Act, Result, Error, failed, wrapped}
use mime_crypt.Mailflow.Ports.{Reader}
use mime_crypt.Appconfig.Topology.{Source}
use mime_crypt.Adapters.Envelope.{first_non_empty}
use mime_crypt.Providers.Webhook.Digest.{
  stripped, normalize_webhook_hex_digest, same_webhook_digest, within_tolerance,
  default_timestamp_tolerance,
}
use Prim.Native.String.{len}

-- SourceConfig of webhook/config.go
pub record WebhookConfig : Type 0 where
  pub listen_addr : String
  pub path : String
  pub secret_env : String
  pub max_body_bytes : ℤ
  pub timestamp_tolerance : ℤ

-- What the source uses of Go's library: json with unknown fields refused, os.Getenv,
-- mime.ParseMediaType, time.Parse and Format, HMAC and SHA-256 in hexadecimal, net/mail.
pub record WebhookLibrary : Type 0 where
  pub decode : Option String → Result WebhookConfig
  pub getenv : String → String
  pub parse_media_type : String → Result String
  pub parse_time : String → Result ℕ
  pub format_time : ℕ → String
  pub to_upper : String → String
  pub hmac : String → String → String
  pub sha256 : List ℕ → String
  pub message_id : List ℕ → String

-- provider.PushMessage
pub record PushMessage : Type 0 where
  pub delivery_id : String
  pub internet_message_id : String
  pub received_at : ℕ
  pub attributes : Assoc String

pub record Ingress : Type 0 where
  pub source_name : String
  pub listen_addr : String
  pub path : String
  pub secret : String
  pub max_body_bytes : ℕ
  pub timestamp_tolerance : ℕ

-- Of an http.Request. A content length of 0 is one that is not known.
pub record Request : Type 0 where
  pub method : String
  pub url_path : String
  pub content_type : String
  pub timestamp : String
  pub delivery_id : String
  pub signature : String
  pub body_sha256 : String
  pub content_length : ℕ
  pub body : Reader

pub record Response : Type 0 where
  pub status : ℕ
  pub text : String

abbrev pub answer : ℕ → String → Response
answer status text = record { status = status; text = text }

-- What ValidateSourceConfig asks of the decoded settings
unfoldable pub checked_config : String → WebhookConfig → Result WebhookConfig
unfolding is_blank trim_space stripped
checked_config name c =
    if is_blank c.listen_addr
    then err (failed ("source " +++ name +++ " webhook listen addr 不能为空"))
    else if is_blank c.path || not (is_some (stripped "/" (trim_space c.path)))
    then err (failed ("source " +++ name +++ " webhook path 必须以 / 开头"))
    else if is_blank c.secret_env
    then err (failed ("source " +++ name +++ " webhook secret_env 不能为空"))
    else if is_negative c.max_body_bytes
    then err (failed ("source " +++ name +++ " webhook max_body_bytes 不能小于 0"))
    else if is_negative c.timestamp_tolerance
    then err (failed ("source " +++ name +++ " webhook timestamp_tolerance 不能小于 0"))
    else ok c

unfoldable pub decoded_config : String → Result WebhookConfig → Result WebhookConfig
unfolding checked_config
decoded_config name (ok c) = checked_config name c
decoded_config name (err e) = err (wrapped ("source " +++ name +++ " 缺少有效 webhook 配置") e)

abbrev pub matches_signature : String → Option String → Bool
matches_signature expected none = false
matches_signature expected (some s) = nat_eq (len s) (len expected) && to_lower s == expected

abbrev pub whole_body : List ℕ → Option Error → Outcome Response (List ℕ)
whole_body bytes none = ok bytes
whole_body bytes (some e) = err (answer 400 "invalid request body")

-- http.MaxBytesReader under io.Copy
unfoldable pub limited_body : ℕ → Reader → Outcome Response (List ℕ)
limited_body limit r =
    if ltb limit (length r.bytes)
    then err (answer 413 "request body too large")
    else whole_body r.bytes r.failure

abbrev pub push_message : Request → ℕ → String → PushMessage
push_message req timestamp id = record {
  delivery_id = trim_space req.delivery_id;
  internet_message_id = id;
  received_at = timestamp;
  attributes = ("ingress", "webhook") ∷ ("delivery_id", trim_space req.delivery_id) ∷ [];
}

abbrev pub file_of : List ℕ → Reader
file_of bytes = record { bytes = bytes; failure = none }

abbrev pub responding : {W A : Type 0} → Response → Outcome Error A × W → Outcome Response A × W
responding r (ok a, w) = (ok a, w)
responding r (err e, w) = (err r, w)

abbrev pub accepted : Bool → Response
accepted duplicate = if duplicate then answer 202 "duplicate" else answer 202 "accepted"

module _ (lib : WebhookLibrary) where
  -- DecodeSourceConfig, with the error of Source.DecodeDriverConfig
  unfoldable pub decode_source_config : Source → Result WebhookConfig
  decode_source_config source = elim (lib.decode source.driver_config) [
    | ok c ↦ ok c
    | err e ↦ err (wrapped ("解析 source " +++ source.name +++ " driver config 失败") e)
  ]

  unfoldable pub validate_source_config : Source → Result WebhookConfig
  unfolding decoded_config decode_source_config
  validate_source_config source = decoded_config source.name (decode_source_config source)

  -- replayRetentionForSource of flowruntime/push.go
  unfoldable pub replay_retention_for_source : Source → ℕ
  unfolding decode_source_config equal_fold trim_space
  replay_retention_for_source source =
      if equal_fold (trim_space source.driver) "webhook" && is_some source.driver_config
      then elim (decode_source_config source) [
        | ok c ↦ positive_or c.timestamp_tolerance default_timestamp_tolerance
        | err e ↦ default_timestamp_tolerance
      ]
      else default_timestamp_tolerance

  unfoldable pub ingress_of : Source → WebhookConfig → Result Ingress
  unfolding is_empty trim_space first_non_empty
  ingress_of source c =
      if is_empty (lib.getenv (trim_space c.secret_env))
      then err (
          failed
            ("source " +++ source.name +++ " webhook secret_env 未设置: " +++ trim_space c.secret_env))
      else ok (record {
        source_name = first_non_empty (trim_space source.name ∷ "webhook" ∷ []);
        listen_addr = trim_space c.listen_addr;
        path = trim_space c.path;
        secret = lib.getenv (trim_space c.secret_env);
        max_body_bytes = positive_or c.max_body_bytes 26214400;
        timestamp_tolerance = positive_or c.timestamp_tolerance default_timestamp_tolerance;
      })

  -- BuildIngress; the message sink is a parameter of `handle`.
  unfoldable pub build_ingress : Source → Result Ingress
  unfolding validate_source_config ingress_of
  build_ingress source = elim (validate_source_config source) [
    | ok c ↦ ingress_of source c
    | err e ↦ err e
  ]

  unfoldable pub allowed_content_type : String → Bool
  unfolding is_blank trim_space to_lower
  allowed_content_type value =
      if is_blank value then true else elim (lib.parse_media_type (trim_space value)) [
        | err e ↦ false
        | ok media ↦
            to_lower (trim_space media) == "message/rfc822"
            || to_lower (trim_space media) == "application/octet-stream"
      ]

  -- The text that SignatureForBodyHash signs
  unfoldable pub signed_text : Ingress → Request → ℕ → String → String
  unfolding trim_space
  signed_text i req timestamp body_hash =
      trim_space i.source_name
      +++ "\n"
      +++ lib.to_upper (trim_space req.method)
      +++ "\n"
      +++ trim_space req.url_path
      +++ "\n"
      +++ lib.format_time timestamp
      +++ "\n"
      +++ trim_space req.delivery_id
      +++ "\n"
      +++ trim_space body_hash

  abbrev pub signature_for_body_hash : Ingress → Request → ℕ → String → String
  signature_for_body_hash i req timestamp body_hash =
      lib.hmac i.secret (signed_text i req timestamp body_hash)

  unfoldable pub valid_signature_for_body_hash : Ingress → Request → ℕ → String → String → Bool
  unfolding signed_text normalize_webhook_hex_digest to_lower
  valid_signature_for_body_hash i req timestamp body_hash signature =
      matches_signature (signature_for_body_hash i req timestamp body_hash)
        (normalize_webhook_hex_digest signature)

  unfoldable pub parse_webhook_timestamp : String → Result ℕ
  unfolding is_blank trim_space
  parse_webhook_timestamp value =
      if is_blank value then err (failed "timestamp 不能为空") else lib.parse_time (trim_space value)

  abbrev pub body_hash_of : List ℕ → String
  body_hash_of bytes = if is_nil bytes then "" else lib.sha256 bytes

  -- A world with a clock, calls of the operating system on temporary files, and the queue.
  module _ {W : Type 0} (now : W → ℕ) (call : Act W (Unit {0}))
      (enqueue : PushMessage → Reader → Act W Bool) where
    unfoldable pub file_call : Response → Proc W Response (Unit {0})
    file_call r w = responding r (call w)

    abbrev pub closed : List ℕ → Proc W Response (List ℕ)
    closed bytes =
        if is_nil bytes
        then pure bytes
        else file_call (answer 400 "invalid request body") >> pure bytes

    -- The copy into the file, which is then closed
    unfoldable pub copied_body : ℕ → Reader → Proc W Response (List ℕ)
    unfolding file_call limited_body
    copied_body limit body = lift (limited_body limit body) >>= closed

    -- spoolRequestBody, with the answers that Handle gives to its errors: the bytes of the file.
    -- Creating the file, setting its mode, writing and closing it may fail.
    unfoldable pub spool_request_body : ℕ → Reader → Proc W Response (List ℕ)
    unfolding file_call copied_body
    spool_request_body limit body =
        file_call (answer 400 "invalid request body")
        >> (file_call (answer 400 "invalid request body")
            >> (file_call (answer 400 "invalid request body") >> copied_body limit body))

    abbrev pub found_id : List ℕ → Result (Unit {0}) × W → Outcome Response String × W
    found_id bytes (ok _, w) = (ok (lib.message_id bytes), w)
    found_id bytes (err e, w) = (ok "", w)

    -- extractInternetMessageIDFromFile
    unfoldable pub extract_internet_message_id : List ℕ → Proc W Response String
    extract_internet_message_id bytes w = found_id bytes (call w)

    unfoldable pub enqueue_body : PushMessage → List ℕ → Proc W Response Bool
    enqueue_body m bytes w =
        responding (answer 500 "failed to enqueue message") (enqueue m (file_of bytes) w)

    unfoldable pub submit_body : Request → ℕ → List ℕ → Proc W Response Response
    unfolding extract_internet_message_id enqueue_body
    submit_body req timestamp bytes = extract_internet_message_id bytes >>= λ id.
        enqueue_body (push_message req timestamp id) bytes >>= λ duplicate.
        pure (accepted duplicate)

    -- The tests of the body's hash, and then the queue
    unfoldable pub checked_body : Request → ℕ → String → List ℕ → Proc W Response Response
    unfolding submit_body is_blank same_webhook_digest file_call
    checked_body req timestamp body_hash bytes =
        if is_blank (body_hash_of bytes)
        then raise (answer 400 "empty request body")
        else if not (same_webhook_digest body_hash (body_hash_of bytes))
        then raise (answer 401 "body hash mismatch")
        else file_call (answer 500 "failed to open request body") >> submit_body req timestamp bytes

    -- The body of a request whose signature is right
    unfoldable pub receive : Ingress → Request → ℕ → String → Proc W Response Response
    unfolding spool_request_body checked_body
    receive i req timestamp body_hash =
        spool_request_body i.max_body_bytes req.body >>= checked_body req timestamp body_hash

    -- A request with a signature and a body hash in the right form
    unfoldable pub check_signature :
        Ingress → Request → ℕ → String → String → Proc W Response Response
    unfolding receive valid_signature_for_body_hash
    check_signature i req timestamp signature body_hash =
        if not (valid_signature_for_body_hash i req timestamp body_hash signature)
        then raise (answer 401 "invalid signature")
        else if ltb i.max_body_bytes req.content_length
        then raise (answer 413 "request body too large")
        else receive i req timestamp body_hash

    unfoldable pub with_hash :
        Ingress → Request → ℕ → String → Option String → Proc W Response Response
    unfolding check_signature
    with_hash i req timestamp signature none = raise (answer 401 "invalid body hash")
    with_hash i req timestamp signature (some h) = check_signature i req timestamp signature h

    unfoldable pub with_signature : Ingress → Request → ℕ → Option String → Proc W Response Response
    unfolding with_hash normalize_webhook_hex_digest
    with_signature i req timestamp none = raise (answer 401 "invalid signature")
    with_signature i req timestamp (some s) =
        with_hash i req timestamp s (normalize_webhook_hex_digest req.body_sha256)

    -- The rest of Handle, from the delivery id on
    unfoldable pub check_headers : Ingress → Request → ℕ → Proc W Response Response
    unfolding with_signature is_blank normalize_webhook_hex_digest
    check_headers i req timestamp =
        if is_blank req.delivery_id
        then raise (answer 401 "missing delivery id")
        else with_signature i req timestamp (normalize_webhook_hex_digest req.signature)

    unfoldable pub check_time : Ingress → Request → ℕ → Proc W Response Response
    unfolding check_headers within_tolerance within
    check_time i req timestamp = within λ w.
        if not (within_tolerance (now w) timestamp i.timestamp_tolerance)
        then raise (answer 401 "timestamp outside tolerance window")
        else check_headers i req timestamp

    unfoldable pub with_time : Ingress → Request → Result ℕ → Proc W Response Response
    unfolding check_time
    with_time i req (ok timestamp) = check_time i req timestamp
    with_time i req (err e) = raise (answer 401 "invalid timestamp")

    -- Ingress.Handle: the answer, as an error where the request is refused
    unfoldable pub handle : Ingress → Request → Proc W Response Response
    unfolding with_time allowed_content_type parse_webhook_timestamp
    handle i req =
        if not (req.method == "POST")
        then raise (answer 405 "method not allowed")
        else if not (allowed_content_type req.content_type)
        then raise (answer 415 "unsupported content type")
        else with_time i req (parse_webhook_timestamp req.timestamp)
