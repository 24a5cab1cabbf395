-- ===== src/Tests.antt =====
-- Concrete inputs: tests of the definitions, and each theorem applied where its hypotheses hold.
mod Samples
mod Dispatcher
mod Expander
mod Matcher
mod Chain
mod Parser
mod AddrCodec
mod Api
mod RateLimit
mod Auth
mod Apps
mod Mq
mod DistLock
mod Chains
mod Webhooks
