-- ===== src/ModelManager.antt =====
-- neursafe_fl/python/model_manager: the models that jobs start from and leave behind.
pub mod Registry
pub mod Model
mod Tests
