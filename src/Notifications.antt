-- ===== src/Notifications.antt =====
-- Notifications (domain/notifications.py): who receives a message, the dispatch loop, manual
-- composing, templates, and the provider's status callbacks.
pub mod Lifecycle
pub mod Resolution
pub mod Dispatch
pub mod Compose
pub mod TemplateDirectory
pub mod Webhook
pub mod Delivery
pub mod Retry
