-- ===== src/Store/WebhookLogs.antt =====
-- internal/store/webhook_log.go: the table webhook_logs. Rows stand in the order of their
-- creation, and the auto-increment key is the table's counter. A call that fails in the database
-- changes nothing; the callers say when that happens.
mod Laws
pub use Laws.*
mod Defs
unfoldable pub use Defs.*
