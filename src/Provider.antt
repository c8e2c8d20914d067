-- ===== src/Provider.antt =====
-- internal/provider: what the program asks of a mail service.
pub mod Contracts
pub mod Capabilities
