-- ===== src/JobScheduler/Job/Segments.antt =====
-- neursafe_fl/python/job_scheduler/job.py: the segments of the coroutines of `Job`.
pub mod Persisted
pub mod Timers
use yanshi_shield.Base.{
  ℕ, Bool, true, false, Option, none, some, List, [], ◌∷◌, if◌then◌else◌, not, ◌&&◌, Result, ok,
  raise,
}
use yanshi_shield.Base.Dict.{Dict}
use yanshi_shield.JobScheduler.Job.{
  State, queuing, starting, running, finished, failed, deleting, stopping, stopped, pending,
  state_in, JobError, Reason, coordinator_run_failed, heartbeat_lost, server_internal_error,
  because, told, JobStatus, JobConfig, Job, Report, updated, persist, update_status, update_state,
  update_checkpoints, fail_with, stop_heart_timer, refresh_heart_timer, assert_checkpoint_existing,
  assert_given, update_job_config,
}

-- What a segment calls of the outside.
pub data Action : Type 0 where
  finish_callback delete_callback : Action
  create_coordinator delete_coordinator stop_coordinator : Action
  create_proxy_route delete_proxy_route delete_ckpts : Action

pub data CheckAnswer : Type 0 where
  success call_failed : CheckAnswer
  refused : Reason → CheckAnswer

-- The coordinator's state, `none` where it does not exist.
abbrev pub CoordinatorAnswer : Type 0
CoordinatorAnswer = Option State

abbrev pub fresh_status : State → JobStatus
fresh_status state = record { state = state; reason = none; progress = 0 }

-- The `except` branches of `start`, with the reason that they write.
unfoldable pub start_failed : JobError → Job → Job × List Action
start_failed JobError.other_error job = (fail_with server_internal_error job, finish_callback ∷ [])
start_failed error job = (fail_with (because error) job, finish_callback ∷ [])

-- `start` from where the checkpoint, if there is one to start from, has been looked for.
unfoldable pub start_checked : Result JobError (Unit {0}) → Job → Job × List Action
unfolding start_failed
start_checked (ok _) job = (update_status (fresh_status starting) job, [])
start_checked (raise error) job = start_failed error job

-- `start` up to its first `yield`
unfoldable pub start_begin : (path_exists : ℕ → Bool) → Job → Job × List Action
unfolding start_checked
start_begin path_exists job =
    let job' = record (stop_heart_timer job) { first_heartbeat_received = false } in
    start_checked
      (assert_given job.config.checkpoint_id (λ c. assert_checkpoint_existing path_exists c job'))
      job'

-- The guard of a round of `__check_clients_resource`
unfoldable pub check_begin : Job → Job
check_begin job =
    if not (state_in job.status.state (pending ∷ starting ∷ []))
    then record job { starting_process_stopped = true }
    else job

-- The rest of the round, once the selector has answered. The state may have changed since.
unfoldable pub check_answered : CheckAnswer → Job → Job
check_answered success job =
    if state_in job.status.state (pending ∷ [])
    then update_status (fresh_status starting) job
    else job
check_answered (refused reason) job =
    update_status (record { state = pending; reason = some reason; progress = 0 }) job
check_answered call_failed job = job

-- `__do_create_proxy_route`; `in State.STARTING` is a test on texts, which of all states only this
-- one passes.
unfoldable pub do_create_proxy_route : Job → Job × List Action
do_create_proxy_route job =
    (job, if state_in job.status.state (starting ∷ []) then create_proxy_route ∷ [] else [])

-- `__do_create_coordinator`. That a coordinator which exists already is deleted and created again is
-- left out.
unfoldable pub do_create_coordinator : Job → Job × List Action
do_create_coordinator job =
    (job, if state_in job.status.state (starting ∷ []) then create_coordinator ∷ [] else [])

-- `__do_create_successfully`
unfoldable pub do_create_successfully : Job → Job
do_create_successfully job =
    if state_in job.status.state (running ∷ starting ∷ [])
    then refresh_heart_timer (update_state running job)
    else job

-- A round of `__wait_coordinator_running`, once the coordinator's status is known; the guard of
-- `finally` comes first.
unfoldable pub wait_running : CoordinatorAnswer → Job → Job × List Action
unfolding do_create_successfully
wait_running answer job =
    let ready = do_create_successfully job in
    if not (state_in job.status.state (starting ∷ []))
    then (record job { starting_process_stopped = true }, [])
    else elim answer [
      | none ↦ (job, [])
      | some state ↦
          if job.first_heartbeat_received
          then (ready, [])
          else if state_in state (failed ∷ [])
          then (fail_with coordinator_run_failed job, finish_callback ∷ [])
          else (job, [])
    ]

-- `__loss_heartbeat`
unfoldable pub loss_heartbeat : Job → Job × List Action
loss_heartbeat job = (fail_with heartbeat_lost (stop_heart_timer job), finish_callback ∷ [])

-- The table of `__do_handle_heartbeat`: no state to come for a state that is no key of it.
abbrev pub expected_heartbeat_state : State → List State
expected_heartbeat_state running = running ∷ finished ∷ failed ∷ []
expected_heartbeat_state starting = running ∷ finished ∷ failed ∷ []
expected_heartbeat_state stopping = stopping ∷ stopped ∷ []
expected_heartbeat_state _ = []

-- `__do_handle_heartbeat` up to its `yield`
unfoldable pub do_handle_heartbeat : Report → Job → Job × List Action
do_handle_heartbeat r job =
    let written =
      update_checkpoints r.checkpoints
        (update_status (updated job.status r) (refresh_heart_timer job)) in
    if not (state_in r.state (expected_heartbeat_state job.status.state))
    then (job, [])
    else if state_in r.state (failed ∷ finished ∷ [])
    then (stop_heart_timer written, delete_coordinator ∷ [])
    else (written, [])

-- The rest of `__do_handle_heartbeat`, once the coordinator is deleted
unfoldable pub heartbeat_end : Job → Job × List Action
heartbeat_end job = (
  job,
  if not (state_in job.status.state (starting ∷ pending ∷ [])) then finish_callback ∷ [] else [],
)

unfoldable pub handle_heartbeat : Report → Job → Job × List Action
unfolding do_handle_heartbeat
handle_heartbeat r job =
    let handled = do_handle_heartbeat r job in
    if job.first_heartbeat_received
    then handled
    else (record job { first_heartbeat_received = true }, [])

-- `stop` up to its first `yield`; after a start, it waits until that has stopped.
unfoldable pub stop_begin : Job → Job
stop_begin job =
    let stopping_job = update_state stopping job in
    if state_in job.status.state (starting ∷ pending ∷ [])
    then record stopping_job { starting_process_stopped = false }
    else stopping_job

-- `__do_stop_coordinator`, once the coordinator's status is known
unfoldable pub do_stop_coordinator : CoordinatorAnswer → Job → Job × List Action
do_stop_coordinator none job = (job, [])
do_stop_coordinator (some state) job = (
  job,
  if state_in state (running ∷ []) && job.first_heartbeat_received
      then stop_coordinator ∷ []
      else [],
)

-- `stop` from where the coordinator has stopped
unfoldable pub stop_coordinator_end : Job → Job × List Action
stop_coordinator_end job = (stop_heart_timer job, delete_coordinator ∷ delete_proxy_route ∷ [])

-- The end of `stop`
unfoldable pub stop_end : Job → Job × List Action
stop_end job =
    if state_in job.status.state (stopped ∷ stopping ∷ [])
    then (update_state stopped job, finish_callback ∷ [])
    else (job, [])

-- `delete` up to its first `yield`, and the rest
unfoldable pub delete_begin : Job → Job × List Action
delete_begin job =
    (stop_heart_timer (update_state deleting job), delete_coordinator ∷ delete_proxy_route ∷ [])

unfoldable pub delete_end : Job → Job × List Action
delete_end job = (job, delete_ckpts ∷ delete_callback ∷ [])

-- The segments, as they come up: one by one, those of several coroutines in any order.
pub data Segment : Type 0 where
  start_begins check_begins route_creates coordinator_creates : Segment
  check_answers : CheckAnswer → Segment
  start_fails : JobError → Segment
  running_polls coordinator_stops : CoordinatorAnswer → Segment
  heartbeat_losses heartbeat_ends stop_begins stop_coordinator_ends stop_ends : Segment
  delete_begins delete_ends : Segment
  heartbeats : Report → Segment
  updates : JobConfig → Segment

-- An update that raises leaves the job as it was.
abbrev pub job_after : Result JobError Job → Job → Job
job_after (ok job') job = job'
job_after (raise _) job = job

module _ (path_exists model_exists : ℕ → Bool) where
  unfoldable pub run : Segment → Job → Job × List Action
  run start_begins job = start_begin path_exists job
  run check_begins job = (check_begin job, [])
  run (check_answers answer) job = (check_answered answer job, [])
  run route_creates job = do_create_proxy_route job
  run coordinator_creates job = do_create_coordinator job
  run (start_fails error) job = start_failed error job
  run (running_polls answer) job = wait_running answer job
  run heartbeat_losses job = loss_heartbeat job
  run (heartbeats r) job = handle_heartbeat r job
  run heartbeat_ends job = heartbeat_end job
  run stop_begins job = (stop_begin job, [])
  run (coordinator_stops answer) job = do_stop_coordinator answer job
  run stop_coordinator_ends job = stop_coordinator_end job
  run stop_ends job = stop_end job
  run delete_begins job = delete_begin job
  run delete_ends job = delete_end job
  run (updates config) job =
      (job_after (update_job_config path_exists model_exists config job) job, [])

  unfoldable pub run_all : List Segment → Job → Job
  unfolding run
  run_all [] job = job
  run_all (segment ∷ segments) job = run_all segments (run segment job).0
