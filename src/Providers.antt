-- ===== src/Providers.antt =====
-- internal/providers: the drivers that the program knows, and the webhook source.
pub mod Webhook
pub mod Registry
