-- ===== src/Webhook.antt =====
-- webhook.go: the signature of a delivery, and the event that it carries.
pub mod Hex
pub mod Split
pub mod Clock
pub mod Signature
pub mod Verify
pub mod Fresh
pub mod Binding
pub mod Event
