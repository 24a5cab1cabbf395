-- ===== src/Mq.antt =====
-- internal/mq: the RabbitMQ layer.
pub mod Topology
pub mod Publisher
pub mod Connection
