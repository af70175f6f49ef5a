-- ===== src/JobScheduler.antt =====
-- neursafe_fl/python/job_scheduler: the life of federated jobs, from the request to the end.
pub mod Retry
pub mod Job
pub mod Scheduler
pub mod Validations
pub mod Tests
