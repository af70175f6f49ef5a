-- ===== src/JobScheduler/Scheduler.antt =====
-- neursafe_fl/python/job_scheduler/scheduler.py: the class `Scheduler`. Jobs are shared objects, which
-- the queue and the active jobs refer to by number. The database is a dict of what is stored by job;
-- a replace of a job that is not there changes nothing, and the exit that follows it is left out.
pub mod Backed
pub mod Backing
use yanshi_shield.Base.{
  ℕ, suc, Bool, true, false, not, Option, none, some, List, [], ◌∷◌, ◌++◌, if◌then◌else◌, nat_beq,
  nat_eq, pair_eq, Result, ok, raise, ◌>>=◌, ◌>>◌, raise_if,
}
use yanshi_shield.Base.Dict.{Dict, lookup, insert, erase, contains}
use yanshi_shield.JobScheduler.Job.{
  State, queuing, starting, running, deleting, stopping, pending, state_in, Operation,
  start_operation, delete_operation, stop_operation, update_operation, JobError, JobConfig, Stored,
  JobStatus, Job, Report, assert_operation_valid, assert_checkpoint_existing, assert_model_existing,
  assert_given, persist,
}
use yanshi_shield.JobScheduler.Job.Segments.{
  Segment, start_begins, stop_begins, delete_begins, heartbeats, updates, run, Action,
  finish_callback, delete_callback, fresh_status,
}

-- The namespace and the id
abbrev pub JobKey : Type 0
JobKey = ℕ × ℕ

pub data SchedulerError : Type 0 where
  job_exist job_not_exist ids_differ checkpoint_given : SchedulerError
  job_error : JobError → SchedulerError

pub record Scheduler : Type 0 where
  pub jobs_queue : List ℕ
  pub active_jobs : Dict JobKey ℕ
  pub db : Dict JobKey Stored
  pub objects : Dict ℕ (JobKey × Job)
  pub next_object : ℕ

abbrev pub from_job : {A : Type 0} → Result JobError A → Result SchedulerError A
from_job (ok a) = ok a
from_job (raise e) = raise (job_error e)

-- `Job.__init__` of what the database holds
abbrev pub new_job : Stored → Job
new_job stored = record {
  config = stored.config;
  status = stored.status;
  checkpoints = stored.checkpoints;
  heartbeat_timer = false;
  first_heartbeat_received = false;
  starting_process_stopped = false;
  saved = stored;
  writes = 0;
}

-- `__update_to_db`
abbrev pub replace_in_db : JobKey → Stored → Dict JobKey Stored → Dict JobKey Stored
replace_in_db key stored db = if contains key db then insert key stored db else db

-- `__job_finished_callback` and `__job_delete_callback`, for the callbacks among a segment's actions
unfoldable pub call_back : JobKey → List Action → Scheduler → Scheduler
call_back key [] self = self
call_back key (finish_callback ∷ actions) self =
    call_back key actions (record self { active_jobs = erase key self.active_jobs })
call_back key (delete_callback ∷ actions) self =
    call_back key actions
      (record self { active_jobs = erase key self.active_jobs; db = erase key self.db })
call_back key (_ ∷ actions) self = call_back key actions self

-- A job's object after a segment. Its `db_callback` has replaced the row, if it was called, and a row
-- that is gone stays so.
abbrev pub store_job : ℕ → JobKey → (before after : Job) → Scheduler → Scheduler
store_job object key before job self = record self {
  objects = insert object (key, job) self.objects;
  db = if nat_beq job.writes before.writes then self.db else replace_in_db key job.saved self.db;
}

-- A new object, with its number
abbrev pub allocate : JobKey → Job → Scheduler → Scheduler
allocate key job self = record self {
  objects = insert self.next_object (key, job) self.objects;
  next_object = suc self.next_object;
}

-- The end of `create_job`
abbrev pub created : JobKey → Job → Scheduler → Scheduler
created key job self = record (allocate key job self) {
  db = insert key job.saved self.db;
  active_jobs = insert key self.next_object self.active_jobs;
  jobs_queue = self.jobs_queue ++ self.next_object ∷ [];
}

-- The end of `start_job`, for a job that is not active
abbrev pub queued : JobKey → Job → Scheduler → Scheduler
queued key job self = record (allocate key job self) {
  db = replace_in_db key (persist job).saved self.db;
  active_jobs = insert key self.next_object self.active_jobs;
  jobs_queue = self.jobs_queue ++ self.next_object ∷ [];
}

module _ (path_exists model_exists : ℕ → Bool) where
  unfoldable pub run_found : Segment → ℕ → Option (JobKey × Job) → Scheduler → Scheduler
  unfolding call_back
  run_found segment object none self = self
  run_found segment object (some (key, job)) self =
      let (job', actions) = run path_exists model_exists segment job in
      call_back key actions (store_job object key job job' self)

  -- One segment of a coroutine of a job's object
  unfoldable pub run_segment : Segment → ℕ → Scheduler → Scheduler
  unfolding run_found
  run_segment segment object self = run_found segment object (lookup object self.objects) self

  -- `create_job`
  unfoldable pub create_job :
      (namespace : ℕ) → JobConfig → Scheduler → Result SchedulerError Scheduler
  create_job namespace config self =
      let key : JobKey = (namespace, config.id) in
      let job =
        new_job (record { config = config; status = fresh_status queuing; checkpoints = [] }) in
      raise_if (contains key self.db) job_exist >>= λ _.
      raise_if (elim config.checkpoint_id [ none ↦ false | some _ ↦ true ]) checkpoint_given
      >>= λ _. from_job (assert_model_existing path_exists model_exists config job) >>= λ _.
          ok (created key job self)

  -- The object that a call works on: the active one, or a new one of what the database holds
  unfoldable pub find_object :
      JobKey → Stored → Option (JobKey × Job) → ℕ → Scheduler → ℕ × Job × Scheduler
  find_object key stored none object self =
      (self.next_object, new_job stored, allocate key (new_job stored) self)
  find_object key stored (some (_, job)) object self = (object, job, self)

  unfoldable pub find_active : JobKey → Stored → Option ℕ → Scheduler → ℕ × Job × Scheduler
  unfolding find_object
  find_active key stored none self = find_object key stored none 0 self
  find_active key stored (some object) self =
      find_object key stored (lookup object self.objects) object self

  unfoldable pub find_stored :
      JobKey → Option Stored → Scheduler → Result SchedulerError (ℕ × Job × Scheduler)
  unfolding find_active
  find_stored key none self = raise job_not_exist
  find_stored key (some stored) self =
      ok (find_active key stored (lookup key self.active_jobs) self)

  unfoldable pub find_job : JobKey → Scheduler → Result SchedulerError (ℕ × Job × Scheduler)
  unfolding find_stored
  find_job key self = find_stored key (lookup key self.db) self

  -- `stop_job` and `delete_job`, for the operation and the segment that begins it
  unfoldable pub operate :
      Operation → Segment → JobKey → Scheduler → Result SchedulerError Scheduler
  unfolding find_job
  operate operation segment key self = find_job key self >>= λ found.
      from_job (assert_operation_valid operation found.1) >>= λ _.
      ok (run_segment segment found.0 found.2)

  abbrev pub stop_job : JobKey → Scheduler → Result SchedulerError Scheduler
  stop_job key self = operate stop_operation stop_begins key self

  -- A job that does not exist counts as deleted.
  abbrev pub delete_job : JobKey → Scheduler → Result SchedulerError Scheduler
  delete_job key self =
      if contains key self.db then operate delete_operation delete_begins key self else ok self

  -- `update_job`
  unfoldable pub update_job : JobKey → JobConfig → Scheduler → Result SchedulerError Scheduler
  unfolding find_job
  update_job key config self = raise_if (not (contains key self.db)) job_not_exist >>= λ _.
      raise_if (not (nat_beq key.1 config.id)) ids_differ >>= λ _. find_job key self >>= λ found.
      from_job (assert_operation_valid update_operation found.1) >>= λ _.
      from_job (assert_model_existing path_exists model_exists config found.1) >>= λ _.
      ok (run_segment (updates config) found.0 found.2)

  unfoldable pub start_stored : JobKey → Option Stored → Scheduler → Result SchedulerError Scheduler
  unfolding operate
  start_stored key none self = raise job_not_exist
  start_stored key (some stored) self =
      let job = new_job stored in
      if contains key self.active_jobs
      then operate start_operation start_begins key self
      else (from_job (
            assert_given job.config.checkpoint_id
              (λ c. assert_checkpoint_existing path_exists c job))
          >>= λ _. ok (queued key job self))

  -- `start_job`: an active job starts at once; another is stored and queued, whatever its state.
  unfoldable pub start_job : JobKey → Scheduler → Result SchedulerError Scheduler
  unfolding start_stored
  start_job key self = start_stored key (lookup key self.db) self

  unfoldable pub heartbeat_found : Option ℕ → Report → Scheduler → Scheduler
  unfolding run_segment
  heartbeat_found none report self = self
  heartbeat_found (some object) report self = run_segment (heartbeats report) object self

  -- `handle_heartbeat`
  unfoldable pub scheduler_heartbeat : JobKey → Report → Scheduler → Scheduler
  unfolding heartbeat_found
  scheduler_heartbeat key report self = heartbeat_found (lookup key self.active_jobs) report self

  -- An object out of the queue starts if a job with its key is active.
  unfoldable pub schedule_object : ℕ → Option (JobKey × Job) → Scheduler → Scheduler
  unfolding run_segment
  schedule_object object none self = self
  schedule_object object (some (key, _)) self =
      if contains key self.active_jobs then run_segment start_begins object self else self

  unfoldable pub schedule_from : List ℕ → Scheduler → Scheduler
  unfolding schedule_object
  schedule_from [] self = self
  schedule_from (object ∷ rest) self =
      schedule_object object (lookup object self.objects) (record self { jobs_queue = rest })

  -- A round of `__schedule_jobs`
  unfoldable pub schedule_next : Scheduler → Scheduler
  unfolding schedule_from
  schedule_next self = schedule_from self.jobs_queue self

-- What happens to the scheduler, one thing after the other.
pub data Happening : Type 0 where
  creates : ℕ → JobConfig → Happening
  changes : JobKey → JobConfig → Happening
  starts stops deletes : JobKey → Happening
  beats : JobKey → Report → Happening
  schedules : Happening
  goes_on : Segment → ℕ → Happening

abbrev pub scheduler_after : Result SchedulerError Scheduler → Scheduler → Scheduler
scheduler_after (ok self') self = self'
scheduler_after (raise _) self = self

module _ (path_exists model_exists : ℕ → Bool) where
  unfoldable pub happen : Happening → Scheduler → Scheduler
  happen (creates namespace config) self =
      scheduler_after (create_job path_exists model_exists namespace config self) self
  happen (changes key config) self =
      scheduler_after (update_job path_exists model_exists key config self) self
  happen (starts key) self = scheduler_after (start_job path_exists model_exists key self) self
  happen (stops key) self = scheduler_after (stop_job path_exists model_exists key self) self
  happen (deletes key) self = scheduler_after (delete_job path_exists model_exists key self) self
  happen (beats key report) self = scheduler_heartbeat path_exists model_exists key report self
  happen schedules self = schedule_next path_exists model_exists self
  happen (goes_on segment object) self = run_segment path_exists model_exists segment object self

  unfoldable pub happen_all : List Happening → Scheduler → Scheduler
  unfolding happen
  happen_all [] self = self
  happen_all (happening ∷ rest) self = happen_all rest (happen happening self)
