-- ===== src/Providers/Webhook/Spooling.antt =====
-- ingress.go, spoolRequestBody: a body that is read is the whole body of the request.
use mime_crypt.Base.{ℕ, ltb, ◌≤◌, Bool, false, Option, none, some, List, ◌≡◌, refl, arith, if_rule}
use mime_crypt.Base.Lists.{is_nil, length}
use mime_crypt.Base.Effect.{Outcome, Proc, ok, err, pure, ◌>>◌, Keeps, After, bind-After}
use mime_crypt.Mailflow.Errors.{Act, Result, Error}
use mime_crypt.Mailflow.Ports.{Reader}
use mime_crypt.Providers.Webhook.Ingress.{
  WebhookLibrary, PushMessage, Ingress, Request, Response, limited_body, whole_body, responding,
  file_call, spool_request_body, closed, copied_body,
}

module _ (lib : WebhookLibrary) {W : Type 0} (now : W → ℕ) (call : Act W (Unit {0}))
    (enqueue : PushMessage → Reader → Act W Bool) (P : W → Type 0) (quiet : Keeps P call)
    (i : Ingress) (req : Request) where
  abbrev Kept : {A : Type 0} → Outcome Response A × W → Type 0
  Kept r = After (λ _ v. P v) (λ _ v. P v) r

  -- What a spooled body is: the request's, whole, unless it is empty.
  abbrev pub Spooled : List ℕ → W → Type 0
  Spooled bytes v =
      P v
      × (bytes ≡ req.body.bytes)
      × (req.body.failure ≡ none)
      × (length req.body.bytes ≤ i.max_body_bytes)

  file_call-Kept : (r : Response) (w : W) → P w → Kept (file_call lib now call enqueue r w)
  unfolding file_call
  file_call-Kept r w h = go (call w) (quiet.at w h)
    where
      go : (c : Result (Unit {0}) × W) → P c.1 → Kept (responding r c)
      go (ok a, v) k = k
      go (err e, v) k = k

  limited-Spooled :
      (w : W) → P w → After Spooled (λ _ v. P v) (limited_body i.max_body_bytes req.body, w)
  unfolding limited_body
  limited-Spooled w h =
      if_rule (λ (r : Outcome Response (List ℕ)). After Spooled (λ _ v. P v) (r, w))
        (ltb i.max_body_bytes (length req.body.bytes)) (λ _. h)
        (λ small. ends req.body.failure refl small)
    where
      ends :
          (f : Option Error)
          → req.body.failure ≡ f
          → ltb i.max_body_bytes (length req.body.bytes) ≡ false
          → After Spooled (λ _ v. P v) (whole_body req.body.bytes f, w)
      ends none e small = (h, refl, e, ground arith)
      ends (some x) e small = h

  pub then-Kept :
      {A : Type 0} (Q : A → W → Type 0) (r : Response) (k : Proc W Response A) (w : W)
      → P w
      → ((v : W) → P v → After Q (λ _ v. P v) (k v))
      → After Q (λ _ v. P v) ((file_call lib now call enqueue r >> k) w)
  then-Kept Q r k w h rest =
      bind-After (λ _ v. P v) Q (λ _ v. P v) (file_call lib now call enqueue r w) (λ _. k)
        (file_call-Kept r w h) (λ _ v g. rest v g)

  closed-Spooled :
      (bytes : List ℕ) (w : W)
      → Spooled bytes w
      → After Spooled (λ _ v. P v) (closed lib now call enqueue bytes w)
  closed-Spooled bytes w h =
      if_rule (λ (a : Proc W Response (List ℕ)). After Spooled (λ _ v. P v) (a w)) (is_nil bytes)
        (λ _. h) (λ _. then-Kept Spooled _ (pure bytes) w (h.0) (λ v g. (g, h.1, h.2, h.3)))

  copied-Spooled :
      (w : W)
      → P w
      → After Spooled (λ _ v. P v) (copied_body lib now call enqueue i.max_body_bytes req.body w)
  unfolding copied_body
  copied-Spooled w h =
      bind-After Spooled Spooled (λ _ v. P v) (limited_body i.max_body_bytes req.body, w)
        (closed lib now call enqueue) (limited-Spooled w h) closed-Spooled

  pub spool-Spooled :
      (w : W)
      → P w
      → After Spooled
          (λ _ v. P v)
          (spool_request_body lib now call enqueue i.max_body_bytes req.body w)
  unfolding spool_request_body
  spool-Spooled w h =
      then-Kept Spooled _ _ w h
        λ a ha. then-Kept Spooled _ _ a ha λ b hb. then-Kept Spooled _ _ b hb copied-Spooled
