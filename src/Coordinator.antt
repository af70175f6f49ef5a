-- ===== src/Coordinator.antt =====
-- neursafe_fl/python/coordinator: the coordinator of one federated job.
pub mod Round
pub mod Aggregator
pub mod Trainer
pub mod Validations
mod Tests
