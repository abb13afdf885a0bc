-- ===== src/Webhook.antt =====
-- internal/webhook: delivery of results to a client's webhook.
pub mod Signer
pub mod Retrier
pub mod Deliverer
pub mod Consumer
pub mod Sweeper
pub mod Task
