-- ===== src/ResourceManager.antt =====
-- neursafe_fl/python/resource_manager: the client's resource manager, which places the workers of
-- a task on the nodes of its platform. A child for each class and for the allocation policy.
pub mod Node
pub mod Allocation
pub mod Manager
pub mod Tests
