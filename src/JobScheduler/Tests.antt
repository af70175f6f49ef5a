-- ===== src/JobScheduler/Tests.antt =====
-- Runs of a job and of a retried operation (neursafe_fl/python/job_scheduler).
use yanshi_shield.Base.{
  ℕ, ◌≡◌, refl, Bool, true, false, none, some, List, [], ◌∷◌, Result, ok, raise, ltb, if◌then◌else◌,
}
use yanshi_shield.Base.Dict.{lookup}
use yanshi_shield.JobScheduler.Retry.{
  SystemError, coordinator_create_failed, not_retried, error, coordinator_operation_retry,
  retry_loop, retry,
}
use yanshi_shield.JobScheduler.Job.{
  State, queuing, running, finished, Job, JobConfig, JobStatus, Report,
}
use yanshi_shield.JobScheduler.Job.Segments.{
  delete_ends, Segment, start_begins, check_begins, check_answers, running_polls, heartbeats,
  heartbeat_losses, success, run, run_all, loss_heartbeat, start_begin, start_checked, check_begin,
  check_answered, handle_heartbeat, do_handle_heartbeat, wait_running, do_create_successfully,
}
use yanshi_shield.JobScheduler.Job.Segments.Persisted.{IsSaved, run_all-IsSaved}
use yanshi_shield.JobScheduler.Job.Segments.Timers.{IsQuiet, run_all-IsQuiet, asks_finish}
use yanshi_shield.JobScheduler.Scheduler.{
  Scheduler, Happening, creates, schedules, deletes, goes_on, happen_all,
}
use yanshi_shield.JobScheduler.Scheduler.Backing.{IsBacked}
use yanshi_shield.JobScheduler.Scheduler.Backed.{happen_all-IsBacked}

abbrev config : JobConfig
config = record { id = 3; checkpoint_id = none; model_id = some 1; model_path = none }

abbrev job_in : State → Job
job_in state =
    let status : JobStatus = record { state = state; reason = none; progress = 0 } in
    record {
      config = config;
      status = status;
      checkpoints = [];
      heartbeat_timer = false;
      first_heartbeat_received = false;
      starting_process_stopped = false;
      saved = record { config = config; status = status; checkpoints = [] };
      writes = 0;
    }

abbrev anything : ℕ → Bool
anything _ = true

abbrev finished_report : Report
finished_report = record {
  state = finished;
  reason = none;
  progress = some 100;
  checkpoints = (1, 5) ∷ [];
}

-- A job that starts, runs and finishes.
abbrev to_the_end : List Segment
to_the_end =
    start_begins
    ∷ check_begins
    ∷ check_answers success
    ∷ heartbeats finished_report
    ∷ running_polls (some running)
    ∷ heartbeats finished_report
    ∷ []

finishes : (run_all anything anything to_the_end (job_in queuing)).status.state ≡ finished
unfolding run_all run start_begin start_checked check_begin check_answered handle_heartbeat
    do_handle_heartbeat wait_running do_create_successfully
finishes = refl

run_all-IsSaved_example : IsSaved (run_all anything anything to_the_end (job_in queuing))
run_all-IsSaved_example = run_all-IsSaved anything anything to_the_end (job_in queuing) refl

run_all-IsQuiet_example : IsQuiet (run_all anything anything to_the_end (job_in queuing))
run_all-IsQuiet_example = run_all-IsQuiet anything anything to_the_end (job_in queuing) (λ _. refl)

lost_finishes : asks_finish (run anything anything heartbeat_losses (job_in running)).1 ≡ true
unfolding run loss_heartbeat
lost_finishes = refl

-- Two failures, then a value.
abbrev third_time : ℕ → Result ℕ ℕ
third_time i = if ltb i 2 then raise 7 else ok i

abbrev no_jobs : Scheduler
no_jobs = record { jobs_queue = []; active_jobs = []; db = []; objects = []; next_object = 0 }

no_jobs-IsBacked : IsBacked no_jobs
unfolding lookup
no_jobs-IsBacked key missing = refl

-- A job is created, starts, and is deleted.
abbrev one_life : List Happening
one_life =
    creates 1 config
    ∷ schedules
    ∷ goes_on (check_answers success) 0
    ∷ deletes (1, 3)
    ∷ goes_on delete_ends 0
    ∷ []

happen_all-IsBacked_example : IsBacked (happen_all anything anything one_life no_jobs)
happen_all-IsBacked_example =
    happen_all-IsBacked anything anything one_life no_jobs no_jobs-IsBacked

-- The coordinator is not created at first, then something else fails.
abbrev refused_then_other : ℕ → Result SystemError ℕ
refused_then_other i = if ltb i 1 then raise coordinator_create_failed else raise (not_retried 5)

ends_with_other : coordinator_operation_retry 30 refused_then_other ≡ error (not_retried 5)
unfolding coordinator_operation_retry retry retry_loop
ends_with_other = refl
