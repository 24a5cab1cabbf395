-- ===== src/Chain.antt =====
-- internal/chain: from the blocks of a chain to matched events.
pub mod ContractFilter
pub mod Tracker
pub mod Poller
pub mod Supervisor
pub mod Writer
pub mod TronFetcher
