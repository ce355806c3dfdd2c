-- ===== src/Webhook.antt =====
-- internal/webhook: the endpoints and the queue of deliveries (internal/store/webhook.go), the guard
-- of targets (ssrf.go) and the delivery loop (dispatcher.go).
pub mod Rows
pub mod Target
pub mod Queue
pub mod Dispatch
