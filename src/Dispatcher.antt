-- ===== src/Dispatcher.antt =====
-- internal/dispatcher: matched events become push tasks, push tasks become HTTP calls.
pub mod Task
pub mod Expander
pub mod Sender
pub mod DeadLetter
pub mod Lifecycle
