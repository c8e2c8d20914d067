-- ===== src/Providers/Webhook/Authentic.antt =====
-- ingress.go: only a request that is signed, in time and whole reaches the queue.
use mime_crypt.Base.{
  ℕ, ltb, ◌≤◌, String, Bool, true, false, Option, none, some, List, [], ◌∷◌, ◌≡◌, refl, sym, ap,
  ◌∙◌, arith, not, if◌then◌else◌, if_rule,
}
use mathlib.Core.Path.{subst}
use mime_crypt.Base.Text.{◌==◌, eq_iff, trim_space, to_lower, is_blank}
use mime_crypt.Base.Lists.{is_nil, length}
use mime_crypt.Base.Effect.{Outcome, Proc, ok, err, within, Keeps, After, bind-After}
use mime_crypt.Mailflow.Errors.{Act, Result}
use mime_crypt.Mailflow.Ports.{Reader}
use mime_crypt.Providers.Webhook.Digest.{
  normalize_webhook_hex_digest, same_digests, same_webhook_digest, within_tolerance,
  within_tolerance_iff, IsNear,
}
use mime_crypt.Providers.Webhook.Ingress.{
  WebhookLibrary, PushMessage, Ingress, Request, Response, answer, signature_for_body_hash,
  matches_signature, valid_signature_for_body_hash, parse_webhook_timestamp, body_hash_of,
  push_message, file_of, responding, checked_body, found_id, extract_internet_message_id,
  enqueue_body, submit_body, receive, check_signature, with_hash, with_signature, check_headers,
  check_time, with_time, allowed_content_type, handle,
}
use mime_crypt.Providers.Webhook.Spooling.{Spooled, then-Kept, spool-Spooled}

-- The request was made by a holder of the secret for this message, its time stamp is near `at`, and
-- its body is the one that was signed.
pub record IsAuthentic (lib : WebhookLibrary) (at : ℕ) (i : Ingress) (req : Request)
    (m : PushMessage) : Type 0 where
  pub posted : req.method ≡ "POST"
  pub stamped : lib.parse_time (trim_space req.timestamp) ≡ ok m.received_at
  pub timely : IsNear at m.received_at i.timestamp_tolerance
  pub identified : is_blank req.delivery_id ≡ false
  pub same_delivery : m.delivery_id ≡ trim_space req.delivery_id
  pub hash : String
  pub signature : String
  pub hash_given : normalize_webhook_hex_digest req.body_sha256 ≡ some hash
  pub signature_given : normalize_webhook_hex_digest req.signature ≡ some signature
  pub signed :
      (s : String) × (normalize_webhook_hex_digest signature ≡ some s)
      × (to_lower s ≡ signature_for_body_hash lib i req m.received_at hash)
  pub hashed :
      normalize_webhook_hex_digest (lib.sha256 req.body.bytes) ≡ normalize_webhook_hex_digest hash
  pub complete : req.body.failure ≡ none
  pub not_empty : is_nil req.body.bytes ≡ false
  pub bounded : length req.body.bytes ≤ i.max_body_bytes

matches-eq :
    (expected : String) (o : Option String)
    → matches_signature expected o ≡ true
    → (s : String) × (o ≡ some s) × (to_lower s ≡ expected)
matches-eq expected none h = cc
matches-eq expected (some s) h = (s, refl, ground (arith, eq_iff (to_lower s) expected))

same-eq : (a b : Option String) → same_digests a b ≡ true → b ≡ a
same-eq none b h = cc
same-eq (some a) none h = cc
same-eq (some a) (some b) h = let e : a ≡ b = ground (arith, eq_iff a b) in ap (λ x. some x) (sym e)

true-ne-false : true ≡ false → ⊥
true-ne-false h = cc

not-true : (b : Bool) → not b ≡ false → b ≡ true
not-true true h = refl
not-true false h = cc

module _ (lib : WebhookLibrary) {W : Type 0} (now : W → ℕ) (call : Act W (Unit {0}))
    (enqueue : PushMessage → Reader → Act W Bool) (P : W → Type 0) (quiet : Keeps P call)
    (i : Ingress) (req : Request) where
  abbrev Kept : {A : Type 0} → Outcome Response A × W → Type 0
  Kept r = After (λ _ v. P v) (λ _ v. P v) r

  -- What a request has shown before its body is looked at.
  abbrev Signed : ℕ → ℕ → String → String → Type 0
  Signed at timestamp signature hash =
      (req.method ≡ "POST")
      × (lib.parse_time (trim_space req.timestamp) ≡ ok timestamp)
      × IsNear at timestamp i.timestamp_tolerance
      × (is_blank req.delivery_id ≡ false)
      × (normalize_webhook_hex_digest req.body_sha256 ≡ some hash)
      × (normalize_webhook_hex_digest req.signature ≡ some signature)
      × ((s : String) × (normalize_webhook_hex_digest signature ≡ some s)
          × (to_lower s ≡ signature_for_body_hash lib i req timestamp hash))

  module _ (at : ℕ)
      (trusted : (m : PushMessage)
        → IsAuthentic lib at i req m
        → Keeps P (enqueue m (file_of req.body.bytes))) where
    enqueue-Kept :
        (m : PushMessage) (w : W)
        → IsAuthentic lib at i req m
        → P w
        → Kept (enqueue_body lib now call enqueue m req.body.bytes w)
    unfolding enqueue_body
    enqueue-Kept m w a h = go (enqueue m (file_of req.body.bytes) w) ((trusted m a).at w h)
      where
        go :
            (c : Result Bool × W)
            → P c.1
            → Kept (responding (answer 500 "failed to enqueue message") c)
        go (ok a, v) k = k
        go (err e, v) k = k

    found-Kept :
        (bytes : List ℕ) (w : W)
        → P w
        → Kept (extract_internet_message_id lib now call enqueue bytes w)
    unfolding extract_internet_message_id
    found-Kept bytes w h = go (call w) (quiet.at w h)
      where
        go : (c : Result (Unit {0}) × W) → P c.1 → Kept (found_id lib now call enqueue bytes c)
        go (ok a, v) k = k
        go (err e, v) k = k

    authentic :
        (timestamp : ℕ) (signature hash id : String)
        → Signed at timestamp signature hash
        → same_webhook_digest hash (lib.sha256 req.body.bytes) ≡ true
        → req.body.failure ≡ none
        → is_nil req.body.bytes ≡ false
        → length req.body.bytes ≤ i.max_body_bytes
        → IsAuthentic lib at i req (push_message req timestamp id)
    unfolding same_webhook_digest
    authentic timestamp signature hash id g same whole full small = record {
      posted = g.0;
      stamped = g.1;
      timely = g.2;
      identified = g.3;
      same_delivery = refl;
      hash = hash;
      signature = signature;
      hash_given = g.4;
      signature_given = g.5;
      signed = g.6;
      hashed =
          same-eq (normalize_webhook_hex_digest hash)
            (normalize_webhook_hex_digest (lib.sha256 req.body.bytes)) same;
      complete = whole;
      not_empty = full;
      bounded = small;
    }

    submit-Kept :
        (timestamp : ℕ) (w : W)
        → ((id : String) → IsAuthentic lib at i req (push_message req timestamp id))
        → P w
        → Kept (submit_body lib now call enqueue req timestamp req.body.bytes w)
    unfolding submit_body
    submit-Kept timestamp w a h =
        bind-After (λ _ v. P v) (λ _ v. P v) (λ _ v. P v) _ _ (found-Kept req.body.bytes w h)
          λ id v k.
            bind-After (λ _ v. P v) (λ _ v. P v) (λ _ v. P v) _ _
              (enqueue-Kept (push_message req timestamp id) v (a id) k) (λ _ u l. l)

    not_blank : (bytes : List ℕ) → is_blank (body_hash_of lib bytes) ≡ false → is_nil bytes ≡ false
    unfolding is_blank
    not_blank [] h = cc
    not_blank (b ∷ bytes) h = refl

    whole_hash : (bytes : List ℕ) → is_nil bytes ≡ false → body_hash_of lib bytes ≡ lib.sha256 bytes
    whole_hash bytes h = rw (h, if◌then◌else◌) refl

    checked-Kept :
        (timestamp : ℕ) (signature hash : String) (w : W)
        → Signed at timestamp signature hash
        → req.body.failure ≡ none
        → length req.body.bytes ≤ i.max_body_bytes
        → P w
        → Kept (checked_body lib now call enqueue req timestamp hash req.body.bytes w)
    unfolding checked_body
    checked-Kept timestamp signature hash w g whole small h =
        if_rule (λ (a : Proc W Response Response). Kept (a w))
          (is_blank (body_hash_of lib req.body.bytes)) (λ _. h)
          (λ full.
            let some_bytes = not_blank req.body.bytes full in
            if_rule (λ (a : Proc W Response Response). Kept (a w))
              (not (same_webhook_digest hash (body_hash_of lib req.body.bytes))) (λ _. h)
              (λ same.
                then-Kept lib now call enqueue P quiet i req (λ _ v. P v) _ _ w h
                  λ v k.
                    submit-Kept timestamp v
                      (λ id.
                        authentic timestamp signature hash id g
                          (ap (same_webhook_digest hash)
                              (sym (whole_hash req.body.bytes some_bytes))
                            ∙ not-true _ same)
                          whole some_bytes small)
                      k))

    received-Kept :
        (timestamp : ℕ) (signature hash : String) (w : W)
        → Signed at timestamp signature hash
        → P w
        → Kept (receive lib now call enqueue i req timestamp hash w)
    unfolding receive
    received-Kept timestamp signature hash w g h =
        bind-After (Spooled lib now call enqueue P quiet i req) (λ _ v. P v) (λ _ v. P v) _ _
          (spool-Spooled lib now call enqueue P quiet i req w h)
          λ bytes v k.
            subst (λ (b : List ℕ). Kept (checked_body lib now call enqueue req timestamp hash b v))
              (sym (k.1)) (checked-Kept timestamp signature hash v g (k.2) (k.3) (k.0))

    -- The request up to its time stamp, and then up to its signature
    abbrev Timely : ℕ → Type 0
    Timely timestamp =
        (req.method ≡ "POST")
        × (lib.parse_time (trim_space req.timestamp) ≡ ok timestamp)
        × IsNear at timestamp i.timestamp_tolerance

    signed-Kept :
        (timestamp : ℕ) (signature hash : String) (w : W)
        → Timely timestamp
        → is_blank req.delivery_id ≡ false
        → normalize_webhook_hex_digest req.signature ≡ some signature
        → normalize_webhook_hex_digest req.body_sha256 ≡ some hash
        → P w
        → Kept (check_signature lib now call enqueue i req timestamp signature hash w)
    unfolding check_signature valid_signature_for_body_hash
    signed-Kept timestamp signature hash w g named given hashed h =
        if_rule (λ (a : Proc W Response Response). Kept (a w))
          (not (valid_signature_for_body_hash lib i req timestamp hash signature)) (λ _. h)
          (λ right.
            if_rule (λ (a : Proc W Response Response). Kept (a w))
              (ltb i.max_body_bytes req.content_length) (λ _. h)
              (λ _.
                received-Kept timestamp signature hash w
                  (
                    g.0,
                    g.1,
                    g.2,
                    named,
                    hashed,
                    given,
                    matches-eq (signature_for_body_hash lib i req timestamp hash)
                        (normalize_webhook_hex_digest signature) (not-true _ right),
                  )
                  h))

    with_hash-Kept :
        (timestamp : ℕ) (signature : String) (o : Option String) (w : W)
        → Timely timestamp
        → is_blank req.delivery_id ≡ false
        → normalize_webhook_hex_digest req.signature ≡ some signature
        → normalize_webhook_hex_digest req.body_sha256 ≡ o
        → P w
        → Kept (with_hash lib now call enqueue i req timestamp signature o w)
    unfolding with_hash
    with_hash-Kept timestamp signature none w g named given hashed h = h
    with_hash-Kept timestamp signature (some hash) w g named given hashed h =
        signed-Kept timestamp signature hash w g named given hashed h

    with_signature-Kept :
        (timestamp : ℕ) (o : Option String) (w : W)
        → Timely timestamp
        → is_blank req.delivery_id ≡ false
        → normalize_webhook_hex_digest req.signature ≡ o
        → P w
        → Kept (with_signature lib now call enqueue i req timestamp o w)
    unfolding with_signature
    with_signature-Kept timestamp none w g named given h = h
    with_signature-Kept timestamp (some s) w g named given h =
        with_hash-Kept timestamp s (normalize_webhook_hex_digest req.body_sha256) w g named given
          refl h

    headers-Kept :
        (timestamp : ℕ) (w : W)
        → Timely timestamp
        → P w
        → Kept (check_headers lib now call enqueue i req timestamp w)
    unfolding check_headers
    headers-Kept timestamp w g h =
        if_rule (λ (a : Proc W Response Response). Kept (a w)) (is_blank req.delivery_id) (λ _. h)
          (λ named.
            with_signature-Kept timestamp (normalize_webhook_hex_digest req.signature) w g named
              refl h)

  module _ (w : W)
      (trusted : (m : PushMessage)
        → IsAuthentic lib (now w) i req m
        → Keeps P (enqueue m (file_of req.body.bytes))) where
    time-Kept :
        (timestamp : ℕ)
        → req.method ≡ "POST"
        → lib.parse_time (trim_space req.timestamp) ≡ ok timestamp
        → P w
        → Kept (check_time lib now call enqueue i req timestamp w)
    unfolding check_time within
    time-Kept timestamp posted parsed h =
        if_rule (λ (a : Proc W Response Response). Kept (a w))
          (not (within_tolerance (now w) timestamp i.timestamp_tolerance)) (λ _. h)
          (λ near.
            headers-Kept (now w) trusted timestamp w
              (
                posted,
                parsed,
                (within_tolerance_iff (now w) timestamp i.timestamp_tolerance).0 (not-true _ near),
              )
              h)

    with_time-Kept :
        (r : Result ℕ)
        → req.method ≡ "POST"
        → parse_webhook_timestamp lib req.timestamp ≡ r
        → P w
        → Kept (with_time lib now call enqueue i req r w)
    unfolding with_time parse_webhook_timestamp
    with_time-Kept (err e) posted parsed h = h
    with_time-Kept (ok timestamp) posted parsed h = time-Kept timestamp posted (ground arith) h

    handle-Kept : P w → Kept (handle lib now call enqueue i req w)
    unfolding handle
    handle-Kept h =
        if_rule (λ (a : Proc W Response Response). Kept (a w)) (not (req.method == "POST")) (λ _. h)
          (λ posted.
            if_rule (λ (a : Proc W Response Response). Kept (a w))
              (not (allowed_content_type lib req.content_type)) (λ _. h)
              (λ _.
                with_time-Kept (parse_webhook_timestamp lib req.timestamp)
                  ((eq_iff req.method "POST").0 (not-true _ posted)) refl h))

kept-world :
    {W A : Type 0} (P : W → Type 0) (r : Outcome Response A × W)
    → After (λ _ v. P v) (λ _ v. P v) r
    → P r.1
kept-world P (ok a, v) h = h
kept-world P (err e, v) h = h

-- Handle calls the queue only with an authentic message: one that was posted and signed with the
-- secret, for this source and path, with a time stamp that is near the clock, a delivery id, and a
-- body that is not empty, not too long, read to its end, and has the signed hash. Near means not
-- further away than the tolerance, unless the tolerance is the longest duration. So whatever the
-- files' calls keep is kept by a request, if the queue keeps it for an authentic message.
pub handle-Authentic :
    (lib : WebhookLibrary) {W : Type 0} (now : W → ℕ) (call : Act W (Unit {0}))
    (enqueue : PushMessage → Reader → Act W Bool) (P : W → Type 0) (i : Ingress) (req : Request)
    (w : W)
    → Keeps P call
    → ((m : PushMessage)
        → IsAuthentic lib (now w) i req m
        → Keeps P (enqueue m (file_of req.body.bytes)))
    → P w
    → P (handle lib now call enqueue i req w).1
handle-Authentic lib now call enqueue P i req w quiet trusted h =
    kept-world P (handle lib now call enqueue i req w)
      (handle-Kept lib now call enqueue P quiet i req w trusted h)
