-- ===== src/Providers/Webhook/Window.antt =====
-- ingress.go and flowruntime/push.go: how long a request is acceptable, and how long it is remembered.
use mime_crypt.Base.{ℕ}
use mime_crypt.Base.Ints.{ℤ, positive_or}
use mime_crypt.Providers.Webhook.Digest.{default_timestamp_tolerance}
use mime_crypt.Providers.Webhook.Ingress.{Ingress}

abbrev set_tolerance : ℤ → ℕ
set_tolerance z = positive_or z default_timestamp_tolerance
