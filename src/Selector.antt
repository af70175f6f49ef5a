-- ===== src/Selector.antt =====
-- neursafe_fl/python/selector: the selector, which keeps the clients that report and picks those for a
-- job's rounds.
pub mod Client
pub mod Manager
mod Tests
