-- ===== src/Store.antt =====
-- internal/store: one child for each table that the components share.
pub mod WebhookLogs
pub mod WatchedAddresses
pub mod Apps
pub mod Contracts
pub mod Users
pub mod RefreshTokens
pub mod EmailVerifications
pub mod RawEvents
