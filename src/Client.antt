-- ===== src/Client.antt =====
-- neursafe_fl/python/client: what runs at a client.
pub mod Storage
pub mod Tasks
pub mod Validation
mod Tests
