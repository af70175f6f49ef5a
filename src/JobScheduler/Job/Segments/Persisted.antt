-- ===== src/JobScheduler/Job/Segments/Persisted.antt =====
-- What a job gives to its database callback through all its segments (neursafe_fl/python/job_scheduler/job.py).
use yanshi_shield.Base.{
  ℕ, ◌≡◌, refl, Bool, Option, none, some, List, [], ◌∷◌, arith, Result, ok, raise, ◌>>=◌,
}
use yanshi_shield.JobScheduler.Job.{
  State, Job, JobConfig, assert_model_existing, update_job_config, persist, Report, JobError,
}
use yanshi_shield.JobScheduler.Job.Segments.{
  Segment, start_begins, check_begins, route_creates, coordinator_creates, check_answers,
  start_fails, running_polls, coordinator_stops, heartbeat_losses, heartbeat_ends, stop_begins,
  stop_coordinator_ends, stop_ends, delete_begins, delete_ends, heartbeats, updates, run, run_all,
  start_failed, start_checked, start_begin, job_after, check_begin, check_answered,
  do_create_proxy_route, do_create_coordinator, do_create_successfully, wait_running,
  loss_heartbeat, do_handle_heartbeat, handle_heartbeat, heartbeat_end, stop_begin,
  do_stop_coordinator, stop_coordinator_end, stop_end, delete_begin, delete_end, success,
  call_failed, refused,
}

-- The database callback was last given the job as it is.
abbrev pub IsSaved : Job → Type 0
IsSaved job =
    job.saved ≡ record { config = job.config; status = job.status; checkpoints = job.checkpoints }

start_failed-IsSaved : (error : JobError) (job : Job) → IsSaved (start_failed error job).0
unfolding start_failed
start_failed-IsSaved error job = ground arith

start_checked-IsSaved :
    (checked : Result JobError (Unit {0})) (job : Job) → IsSaved (start_checked checked job).0
unfolding start_checked
start_checked-IsSaved (ok _) job = refl
start_checked-IsSaved (raise error) job = start_failed-IsSaved error job

start_begin-IsSaved : (path_exists : ℕ → Bool) (job : Job) → IsSaved (start_begin path_exists job).0
unfolding start_begin
start_begin-IsSaved path_exists job = start_checked-IsSaved _ _

check_answered-IsSaved :
    (answer : _) (job : Job) → IsSaved job → IsSaved (check_answered answer job)
unfolding check_answered
check_answered-IsSaved success job h = ground arith
check_answered-IsSaved call_failed job h = h
check_answered-IsSaved (refused reason) job h = refl

wait_running-IsSaved :
    (answer : Option State) (job : Job) → IsSaved job → IsSaved (wait_running answer job).0
unfolding wait_running do_create_successfully
wait_running-IsSaved answer job h = ground arith

handle_heartbeat-IsSaved :
    (r : Report) (job : Job) → IsSaved job → IsSaved (handle_heartbeat r job).0
unfolding handle_heartbeat do_handle_heartbeat
handle_heartbeat-IsSaved r job h = ground arith

stop_begin-IsSaved : (job : Job) → IsSaved (stop_begin job)
unfolding stop_begin
stop_begin-IsSaved job = ground arith

stop_end-IsSaved : (job : Job) → IsSaved job → IsSaved (stop_end job).0
unfolding stop_end
stop_end-IsSaved job h = ground arith

module _ (path_exists model_exists : ℕ → Bool) where
  job_after-IsSaved :
      (config : JobConfig) (job : Job)
      → IsSaved job
      → IsSaved (job_after (update_job_config path_exists model_exists config job) job)
  unfolding update_job_config
  job_after-IsSaved config job h =
      elim (assert_model_existing path_exists model_exists config job)
        as (λ checked.
          IsSaved
            (job_after (checked >>= λ _. ok (persist (record job { config = config }))) job)) [
              | ok _ ↦ refl
              | raise _ ↦ h
            ]

  run-IsSaved :
      (segment : Segment) (job : Job)
      → IsSaved job
      → IsSaved (run path_exists model_exists segment job).0
  unfolding run check_begin do_create_proxy_route do_create_coordinator loss_heartbeat heartbeat_end
      do_stop_coordinator stop_coordinator_end delete_begin delete_end
  run-IsSaved start_begins job h = start_begin-IsSaved path_exists job
  run-IsSaved check_begins job h = ground arith
  run-IsSaved (check_answers answer) job h = check_answered-IsSaved answer job h
  run-IsSaved route_creates job h = h
  run-IsSaved coordinator_creates job h = h
  run-IsSaved (start_fails error) job h = start_failed-IsSaved error job
  run-IsSaved (running_polls answer) job h = wait_running-IsSaved answer job h
  run-IsSaved heartbeat_losses job h = refl
  run-IsSaved (heartbeats r) job h = handle_heartbeat-IsSaved r job h
  run-IsSaved heartbeat_ends job h = h
  run-IsSaved stop_begins job h = stop_begin-IsSaved job
  run-IsSaved (coordinator_stops none) job h = h
  run-IsSaved (coordinator_stops (some state)) job h = h
  run-IsSaved stop_coordinator_ends job h = h
  run-IsSaved stop_ends job h = stop_end-IsSaved job h
  run-IsSaved delete_begins job h = refl
  run-IsSaved delete_ends job h = h
  run-IsSaved (updates config) job h = job_after-IsSaved config job h

  -- A job that has given its database callback its present configuration, status and checkpoints has done
  -- so after all its segments too, in whatever order those of its coroutines run and whatever the outside
  -- answers: no change of one of the three is left unsaved. What the callback does with it, once the row
  -- is gone, is not part of this.
  pub run_all-IsSaved :
      (segments : List Segment) (job : Job)
      → IsSaved job
      → IsSaved (run_all path_exists model_exists segments job)
  unfolding run_all
  run_all-IsSaved [] job h = h
  run_all-IsSaved (segment ∷ segments) job h =
      run_all-IsSaved segments _ (run-IsSaved segment job h)
