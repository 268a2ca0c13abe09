-- ===== src/Models.antt =====
-- models.ts: the executor of model stages, its parsing of what a model returns and its checks.
pub mod Contract
pub mod Schema
pub mod Output
pub mod Extract
pub mod Envelope
pub mod Executor
