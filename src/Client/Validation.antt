-- ===== src/Client/Validation.antt =====
-- neursafe_fl/python/client/validation.py: the checks of a client's configuration and of a task that a
-- coordinator sends. Strings are numbers, 0 is the empty one; the file system, the pattern of a job's
-- name and the platforms are arguments. The types that the messages' fields have are taken for granted.
use yanshi_shield.Base.{
  ℕ, ◌≡◌, Bool, true, not, ◌&&◌, Option, none, some, List, [], ◌∷◌, if◌then◌else◌, nat_beq, Result,
  ok, raise, ◌>>=◌, ◌>>◌, raise_if, arith,
}
use yanshi_shield.Base.Int.{ℤ, pos, negsuc, ltb_ℤ, leb_ℤ, ◌≤ℤ◌}
use yanshi_shield.Coordinator.Validations.{Value, table}

-- ParameterError, ValueError and KeyError
pub data ValidationError : Type 0 where
  parameter_error value_error key_error : ValidationError

-- The truth of a number
abbrev is_nonzero : ℤ → Bool
is_nonzero (pos n) = not (nat_beq n 0)
is_nonzero (negsuc n) = true

-- `_assert_resource_item`, without a largest value as it is always called; a least value of 0 is not
-- looked at.
unfoldable assert_resource_item : (value min_value : ℤ) → Result ValidationError (Unit {0})
assert_resource_item value min_value =
    raise_if (is_nonzero min_value && ltb_ℤ value min_value) parameter_error

-- The resources of a task, in parts of one that `unit` is made of
pub record TaskResource : Type 0 where
  pub cpu : ℤ
  pub memory : ℤ
  pub gpu : ℤ
  pub worker_num : ℤ

-- `__validate_resource`
unfoldable pub validate_resource : (unit : ℕ) → TaskResource → Result ValidationError (Unit {0})
unfolding assert_resource_item
validate_resource unit resource = do
  assert_resource_item resource.cpu (pos 0)
  assert_resource_item resource.memory (pos 0)
  assert_resource_item resource.gpu (pos 0)
  assert_resource_item resource.worker_num (pos unit)
  raise_if
      (not (is_nonzero resource.cpu)
        && (not (is_nonzero resource.memory) && not (is_nonzero resource.gpu)))
      parameter_error

-- `__validate_parameters`: a value is a number, a truth value, a string or None.
unfoldable validate_parameters : List Value → Result ValidationError (Unit {0})
validate_parameters [] = ok tt
validate_parameters (table _ ∷ values) = raise parameter_error
validate_parameters (_ ∷ values) = validate_parameters values

-- A task from a coordinator
pub record TaskInfo : Type 0 where
  pub job_name : ℕ
  pub round : ℤ
  pub has_entry : Bool
  pub has_scripts : Bool
  pub runtime : ℕ
  pub params : List Value
  pub custom_params : List Value
  pub secure_algorithm : List Value
  pub resource : TaskResource

-- `__validate_job_name`
abbrev validate_job_name : (matches : ℕ → Bool) → ℕ → Result ValidationError (Unit {0})
validate_job_name matches job_name =
    raise_if (nat_beq job_name 0) parameter_error
    >> raise_if (not (matches job_name)) parameter_error

-- `__validate_task_entry`: one of the two
abbrev validate_task_entry : (has_entry has_scripts : Bool) → Result ValidationError (Unit {0})
validate_task_entry has_entry has_scripts =
    raise_if (if has_entry then has_scripts else not has_scripts) value_error

-- `validate_task_info`
unfoldable validate_task_info :
    (unit : ℕ) → (matches : ℕ → Bool) → TaskInfo → Result ValidationError (Unit {0})
unfolding validate_parameters validate_resource
validate_task_info unit matches info = do
  validate_job_name matches info.job_name
  raise_if (ltb_ℤ info.round (pos 0)) parameter_error
  validate_task_entry info.has_entry info.has_scripts
  raise_if (nat_beq info.runtime 0) parameter_error
  validate_parameters info.params
  validate_parameters info.custom_params
  validate_parameters info.secure_algorithm
  validate_resource unit info.resource

-- The configuration of a client, with what it may leave out
pub record AgentConfig : Type 0 where
  pub server : Option ℕ
  pub workspace : Option ℕ
  pub platform : Option ℕ
  pub task_config_entry : Option ℕ
  pub datasets : Option ℕ
  pub resource : Option (ℤ × ℤ × ℤ)
  pub storage_quota : Option ℤ

-- `assert_required`, with what is there
abbrev assert_required : Option ℕ → Result ValidationError ℕ
assert_required none = raise parameter_error
assert_required (some item) = if nat_beq item 0 then raise parameter_error else ok item

-- `validate_resource_config`: "cpu", "memory" and "gpu"
abbrev validate_resource_config : Option (ℤ × ℤ × ℤ) → Result ValidationError (Unit {0})
validate_resource_config none = ok tt
validate_resource_config (some (cpu, memory, gpu)) =
    assert_resource_item cpu (pos 0)
    >> (assert_resource_item memory (pos 0) >> assert_resource_item gpu (pos 0))

-- `validate_agent_config`
unfoldable validate_agent_config :
    (exists is_platform : ℕ → Bool)
    → (lower : ℕ → ℕ) → AgentConfig
    → Result ValidationError (Unit {0})
unfolding assert_resource_item
validate_agent_config exists is_platform lower config = do
  server ← assert_required config.server
  workspace ← assert_required config.workspace
  platform ← assert_required config.platform
  entry ← assert_required config.task_config_entry
  raise_if (not (exists workspace)) parameter_error
  raise_if (not (exists entry)) parameter_error
  (elim config.datasets [
    | none ↦ ok tt
    | some datasets ↦ raise_if (not (exists datasets)) parameter_error
  ])
  raise_if (not (is_platform (lower platform))) parameter_error
  validate_resource_config config.resource
  (elim config.storage_quota [
    | none ↦ raise key_error
    | some quota ↦ raise_if (leb_ℤ quota (pos 0)) parameter_error
  ])

-- A task that asks for amounts below zero is accepted, since a least value of 0 counts as none: what is
-- checked is that there is a worker and that not all amounts are zero.
validate_resource_accepts :
    (unit : ℕ) (resource : TaskResource)
    → is_nonzero resource.cpu ≡ true
    → pos unit ≤ℤ resource.worker_num
    → validate_resource unit resource ≡ ok tt
unfolding validate_resource assert_resource_item
validate_resource_accepts unit resource some_cpu enough = ground (arith, some_cpu, enough)
