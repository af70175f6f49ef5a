-- ===== src/JobScheduler/Job/Segments/Timers.antt =====
-- When a job waits for heartbeats, and what becomes of one that is being deleted or stopped
-- (neursafe_fl/python/job_scheduler/job.py).
use yanshi_shield.Base.{
  ℕ, ◌≡◌, refl, Bool, true, false, Option, none, some, List, [], ◌∷◌, arith, Result, ok, raise,
  ◌>>=◌,
}
use yanshi_shield.JobScheduler.Job.{
  State, queuing, starting, finished, failed, deleting, stopped, pending, state_in, Job, JobConfig,
  assert_model_existing, update_job_config, persist, Report, JobError, Reason,
}
use yanshi_shield.JobScheduler.Job.Segments.{
  Segment, start_begins, check_begins, route_creates, coordinator_creates, check_answers,
  start_fails, running_polls, coordinator_stops, heartbeat_losses, heartbeat_ends, stop_begins,
  stop_coordinator_ends, stop_ends, delete_begins, delete_ends, heartbeats, updates, run, run_all,
  start_failed, start_checked, start_begin, job_after, check_begin, check_answered,
  do_create_proxy_route, do_create_coordinator, do_create_successfully, wait_running,
  loss_heartbeat, do_handle_heartbeat, handle_heartbeat, heartbeat_end, stop_begin,
  do_stop_coordinator, stop_coordinator_end, stop_end, delete_begin, delete_end, success, refused,
  Action, finish_callback, create_coordinator, create_proxy_route,
}

-- A job that waits to be scheduled, is being deleted or has finished awaits no heartbeat.
abbrev pub IsQuiet : Job → Type 0
IsQuiet job =
    state_in job.status.state (queuing ∷ deleting ∷ finished ∷ []) ≡ true
    → job.heartbeat_timer ≡ false

start_failed-IsQuiet : (error : JobError) (job : Job) → IsQuiet (start_failed error job).0
unfolding start_failed
start_failed-IsQuiet error job = ground arith

start_checked-IsQuiet :
    (checked : Result JobError (Unit {0})) (job : Job)
    → job.heartbeat_timer ≡ false
    → IsQuiet (start_checked checked job).0
unfolding start_checked
start_checked-IsQuiet (ok _) job h = λ _. h
start_checked-IsQuiet (raise error) job h = start_failed-IsQuiet error job

start_begin-IsQuiet : (path_exists : ℕ → Bool) (job : Job) → IsQuiet (start_begin path_exists job).0
unfolding start_begin
start_begin-IsQuiet path_exists job = start_checked-IsQuiet _ _ refl

wait_running-IsQuiet :
    (answer : Option State) (job : Job) → IsQuiet job → IsQuiet (wait_running answer job).0
unfolding wait_running do_create_successfully
wait_running-IsQuiet answer job h = ground arith

handle_heartbeat-IsQuiet :
    (r : Report) (job : Job) → IsQuiet job → IsQuiet (handle_heartbeat r job).0
unfolding handle_heartbeat do_handle_heartbeat
handle_heartbeat-IsQuiet r job h = ground arith

module _ (path_exists model_exists : ℕ → Bool) where
  job_after-IsQuiet :
      (config : JobConfig) (job : Job)
      → IsQuiet job
      → IsQuiet (job_after (update_job_config path_exists model_exists config job) job)
  unfolding update_job_config
  job_after-IsQuiet config job h =
      elim (assert_model_existing path_exists model_exists config job)
        as (λ checked.
          IsQuiet
            (job_after (checked >>= λ _. ok (persist (record job { config = config }))) job)) [
              | ok _ ↦ h
              | raise _ ↦ h
            ]

  run-IsQuiet :
      (segment : Segment) (job : Job)
      → IsQuiet job
      → IsQuiet (run path_exists model_exists segment job).0
  unfolding run check_begin check_answered do_create_proxy_route do_create_coordinator
      loss_heartbeat heartbeat_end stop_begin stop_end do_stop_coordinator stop_coordinator_end
      delete_begin delete_end
  run-IsQuiet start_begins job h = start_begin-IsQuiet path_exists job
  run-IsQuiet check_begins job h = ground arith
  run-IsQuiet (check_answers answer) job h = ground arith
  run-IsQuiet route_creates job h = h
  run-IsQuiet coordinator_creates job h = h
  run-IsQuiet (start_fails error) job h = start_failed-IsQuiet error job
  run-IsQuiet (running_polls answer) job h = wait_running-IsQuiet answer job h
  run-IsQuiet heartbeat_losses job h = λ _. refl
  run-IsQuiet (heartbeats r) job h = handle_heartbeat-IsQuiet r job h
  run-IsQuiet heartbeat_ends job h = h
  run-IsQuiet stop_begins job h = ground arith
  run-IsQuiet (coordinator_stops none) job h = h
  run-IsQuiet (coordinator_stops (some state)) job h = h
  run-IsQuiet stop_coordinator_ends job h = λ _. refl
  run-IsQuiet stop_ends job h = ground arith
  run-IsQuiet delete_begins job h = λ _. refl
  run-IsQuiet delete_ends job h = h
  run-IsQuiet (updates config) job h = job_after-IsQuiet config job h

  -- However the segments of a job's coroutines interleave, no heartbeat timer runs while the job waits
  -- to be scheduled, is being deleted, or has finished.
  pub run_all-IsQuiet :
      (segments : List Segment) (job : Job)
      → IsQuiet job
      → IsQuiet (run_all path_exists model_exists segments job)
  unfolding run_all
  run_all-IsQuiet [] job h = h
  run_all-IsQuiet (segment ∷ segments) job h =
      run_all-IsQuiet segments _ (run-IsQuiet segment job h)

  -- A stop that comes in while a job waits for the selector is lost if the selector then refuses:
  -- with the next answer the job goes on starting, and the stop waits on.
  stop_lost :
      (reason : Reason) (job : Job)
      → state_in job.status.state (starting ∷ pending ∷ []) ≡ true
      → let left =
          run_all path_exists model_exists
            (stop_begins
              ∷ check_answers (refused reason)
              ∷ check_begins
              ∷ check_answers success
              ∷ [])
            job in
        (left.status.state ≡ starting) × (left.starting_process_stopped ≡ false)
  unfolding run_all run stop_begin check_answered check_begin
  stop_lost reason job h = ground arith

-- What may come up for a job that is being deleted, other than the calls and failures that give it
-- another state.
abbrev pub is_background : Segment → Bool
is_background start_begins = false
is_background (check_answers (refused _)) = false
is_background (start_fails _) = false
is_background heartbeat_losses = false
is_background stop_begins = false
is_background (updates _) = false
is_background _ = true

abbrev pub is_heartbeat_end : Segment → Bool
is_heartbeat_end heartbeat_ends = true
is_heartbeat_end _ = false

abbrev pub asks_finish : List Action → Bool
asks_finish [] = false
asks_finish (finish_callback ∷ actions) = true
asks_finish (_ ∷ actions) = asks_finish actions

abbrev pub asks_creation : List Action → Bool
asks_creation [] = false
asks_creation (create_coordinator ∷ actions) = true
asks_creation (create_proxy_route ∷ actions) = true
asks_creation (_ ∷ actions) = asks_creation actions

module _ (path_exists model_exists : ℕ → Bool) where
  -- While a job is being deleted, what else comes up for it in the background changes neither its
  -- state nor asks for a coordinator or a route: heartbeats, the polls and checks of a start that was
  -- under way, the rest of a stop.
  run-deleting :
      (segment : Segment) (job : Job)
      → job.status.state ≡ deleting
      → is_background segment ≡ true
      → ((run path_exists model_exists segment job).0.status.state ≡ deleting)
        × (asks_creation (run path_exists model_exists segment job).1 ≡ false)
  unfolding run check_begin check_answered do_create_proxy_route do_create_coordinator heartbeat_end
      stop_end do_stop_coordinator stop_coordinator_end delete_begin delete_end wait_running
      do_create_successfully handle_heartbeat do_handle_heartbeat
  run-deleting segment job gone background = ground arith

  -- A segment other than the end of a heartbeat calls the finish callback only with the job failed or
  -- stopped.
  run-finish_callback :
      (segment : Segment) (job : Job)
      → is_heartbeat_end segment ≡ false
      → asks_finish (run path_exists model_exists segment job).1 ≡ true
      → state_in (run path_exists model_exists segment job).0.status.state (failed ∷ stopped ∷ [])
        ≡ true
  unfolding run check_begin check_answered do_create_proxy_route do_create_coordinator stop_begin
      stop_end do_stop_coordinator stop_coordinator_end delete_begin delete_end wait_running
      loss_heartbeat do_create_successfully handle_heartbeat do_handle_heartbeat start_begin
      start_checked start_failed
  run-finish_callback segment job other asked = ground arith
