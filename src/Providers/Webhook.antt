-- ===== src/Providers/Webhook.antt =====
-- internal/providers/webhook: the source that takes signed messages over HTTP.
pub mod Digest
pub mod Ingress
pub mod Spooling
pub mod Authentic
pub mod Window
mod Tests
