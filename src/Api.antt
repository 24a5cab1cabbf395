-- ===== src/Api.antt =====
-- internal/api: the services and the middleware.
pub mod Page
pub mod Address
pub mod RateLimit
pub mod Result
pub mod Auth
pub mod Apps
pub mod Webhooks
pub mod Contracts
pub mod Access
