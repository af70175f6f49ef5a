-- ===== src/JobScheduler/Job.antt =====
-- neursafe_fl/python/job_scheduler/job.py: the class `Job`. Its coroutines are cut at each `yield`,
-- where others may run; a segment is what runs between two of them. Texts are numbers. The calls of
-- the coordinator, the proxy and the selector are actions, and what they answer comes in with the
-- segment after them.
pub mod Segments
use yanshi_shield.Base.{
  ℕ, suc, Bool, true, false, Option, none, some, List, [], ◌∷◌, if◌then◌else◌, ◌||◌, not, nat_eq,
  nat_beq, Result, ok, raise, ◌>>=◌, ◌>>◌, raise_if,
}
use yanshi_shield.Base.Dict.{Dict, lookup}

pub data State : Type 0 where
  queuing starting running finished failed deleting stopping stopped pending : State

pub data Operation : Type 0 where
  start_operation delete_operation stop_operation update_operation : Operation

abbrev pub state_code : State → ℕ
state_code queuing = 0
state_code starting = 1
state_code running = 2
state_code finished = 3
state_code failed = 4
state_code deleting = 5
state_code stopping = 6
state_code stopped = 7
state_code pending = 8

abbrev pub operation_code : Operation → ℕ
operation_code start_operation = 0
operation_code delete_operation = 1
operation_code stop_operation = 2
operation_code update_operation = 3

-- `state in [...]` and `operation in [...]`
abbrev pub state_in : State → List State → Bool
state_in s [] = false
state_in s (t ∷ ts) = nat_beq (state_code s) (state_code t) || state_in s ts

abbrev pub operation_in : Operation → List Operation → Bool
operation_in o [] = false
operation_in o (p ∷ ps) = nat_beq (operation_code o) (operation_code p) || operation_in o ps

pub data JobError : Type 0 where
  operation_not_supported : State → Operation → JobError
  checkpoint_not_exist : ℕ → JobError
  model_not_exist : ℕ → JobError
  no_enough_clients_resource : JobError
  proxy_error : JobError
  other_error : JobError

-- The texts that a job gives as its reason, and those that it is told.
pub data Reason : Type 0 where
  coordinator_run_failed heartbeat_lost server_internal_error : Reason
  because : JobError → Reason
  told : ℕ → Reason

pub record JobStatus : Type 0 where
  pub state : State
  pub reason : Option Reason
  pub progress : ℕ

-- The entries of a job's configuration that the class reads, `none` where `get` gives nothing.
pub record JobConfig : Type 0 where
  pub id : ℕ
  pub checkpoint_id : Option ℕ
  pub model_id : Option ℕ
  pub model_path : Option ℕ

-- What `to_dict` gives the database.
pub record Stored : Type 0 where
  pub config : JobConfig
  pub status : JobStatus
  pub checkpoints : Dict ℕ ℕ

-- `saved` is what `db_callback` was last given, and `writes` how often it was called.
pub record Job : Type 0 where
  pub config : JobConfig
  pub status : JobStatus
  pub checkpoints : Dict ℕ ℕ
  pub heartbeat_timer : Bool
  pub first_heartbeat_received : Bool
  pub starting_process_stopped : Bool
  pub saved : Stored
  pub writes : ℕ

abbrev pub supported_operations : State → List Operation
supported_operations running = delete_operation ∷ stop_operation ∷ []
supported_operations starting = delete_operation ∷ stop_operation ∷ []
supported_operations pending = delete_operation ∷ stop_operation ∷ update_operation ∷ []
supported_operations failed =
    delete_operation ∷ update_operation ∷ start_operation ∷ stop_operation ∷ []
supported_operations queuing = delete_operation ∷ stop_operation ∷ update_operation ∷ []
supported_operations finished = delete_operation ∷ start_operation ∷ update_operation ∷ []
supported_operations deleting = []
supported_operations stopping = delete_operation ∷ []
supported_operations stopped = delete_operation ∷ start_operation ∷ update_operation ∷ []

unfoldable pub assert_operation_valid : Operation → Job → Result JobError (Unit {0})
assert_operation_valid operation job =
    raise_if (not (operation_in operation (supported_operations job.status.state)))
      (operation_not_supported job.status.state operation)

-- A status that updates some of the fields, as a heartbeat does.
pub record Report : Type 0 where
  pub state : State
  pub reason : Option (Option Reason)
  pub progress : Option ℕ
  pub checkpoints : Dict ℕ ℕ

abbrev pub given : {A : Type 0} → A → Option A → A
given old none = old
given old (some new) = new

-- `JobStatus.update`
abbrev pub updated : JobStatus → Report → JobStatus
updated status r = record {
  state = r.state;
  reason = given status.reason r.reason;
  progress = given status.progress r.progress;
}

-- `__persist`, with the `to_dict` of the job
abbrev pub persist : Job → Job
persist job = record job {
  saved = record { config = job.config; status = job.status; checkpoints = job.checkpoints };
  writes = suc job.writes;
}

-- `__update_status`, for whole statuses and for a state alone
abbrev pub update_status : JobStatus → Job → Job
update_status status job = persist (record job { status = status })

abbrev pub update_state : State → Job → Job
update_state state job = update_status (record job.status { state = state }) job

abbrev pub update_checkpoints : Dict ℕ ℕ → Job → Job
update_checkpoints checkpoints job = persist (record job { checkpoints = checkpoints })

abbrev pub fail_with : Reason → Job → Job
fail_with reason job =
    update_status (record job.status { state = failed; reason = some reason }) job

abbrev pub stop_heart_timer : Job → Job
stop_heart_timer job = record job { heartbeat_timer = false }

-- `__refresh_heart_timer`: an old timer is removed and a new one set
abbrev pub refresh_heart_timer : Job → Job
refresh_heart_timer job = record job { heartbeat_timer = true }

-- `if job_config.get(...)`
abbrev pub assert_given : Option ℕ → (ℕ → Result JobError (Unit {0})) → Result JobError (Unit {0})
assert_given none check = ok tt
assert_given (some x) check = check x

unfoldable pub assert_checkpoint_existing :
    (path_exists : ℕ → Bool) → ℕ → Job → Result JobError (Unit {0})
assert_checkpoint_existing path_exists checkpoint_id job =
    elim (lookup checkpoint_id job.checkpoints) [
      | none ↦ raise (checkpoint_not_exist checkpoint_id)
      | some path ↦ raise_if (not (path_exists path)) (checkpoint_not_exist checkpoint_id)
    ]

module _ (path_exists model_exists : ℕ → Bool) where
  unfoldable pub assert_model_existing : JobConfig → Job → Result JobError (Unit {0})
  unfolding assert_checkpoint_existing
  assert_model_existing config job = elim config.checkpoint_id [
    | some checkpoint_id ↦ assert_checkpoint_existing path_exists checkpoint_id job
    | none ↦ elim config.model_id [
      | some model_id ↦ raise_if (not (model_exists model_id)) (model_not_exist model_id)
      | none ↦
          assert_given config.model_path
            (λ path. raise_if (not (path_exists path)) (model_not_exist path))
    ]
  ]

  -- `update`; a missing model leaves the job as it is.
  unfoldable pub update_job_config : JobConfig → Job → Result JobError Job
  unfolding assert_model_existing
  update_job_config config job = do
    assert_model_existing config job
    ok (persist (record job { config = config }))
