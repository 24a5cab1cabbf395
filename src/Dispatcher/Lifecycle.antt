-- ===== src/Dispatcher/Lifecycle.antt =====
-- A push task on its way through the queues of internal/mq/topology.go and the handlers of
-- internal/dispatcher: the sender, the retry queues (whose messages the broker publishes again
-- when their time to live is over, body and headers kept) and the dead letter handler.
mod Defs
mod Steps
mod Laws
unfoldable pub use Defs.*
pub use Steps.*
pub use Laws.*
