-- ===== src/JobScheduler/Validations/Requests.antt =====
-- neursafe_fl/python/job_scheduler/util/validations.py: `validate_job_config`, with the dicts under a
-- configuration's keys as an argument, and `validate_heartbeat`. The pattern of an id, the runtimes and
-- the states that are supported are arguments too.
use yanshi_shield.Base.{
  ℕ, ◌*◌, ◌≡◌, ap₂, ◌∙◌, sym, Bool, true, not, ◌||◌, none, some, [], ◌∷◌, if◌then◌else◌, nat_eq,
  Result, ok, raise, ◌>>=◌, ◌>>◌, >>=-eq-ok, raise_if,
}
use yanshi_shield.Base.Int.{pos, ltb_ℤ}
use yanshi_shield.Base.Dict.{Dict, lookup, contains}
use yanshi_shield.Coordinator.Validations.{
  Value, text, str, int, float, dict, ConfigError, value_error, is_instance, is_truthy, Config,
  item, parts, cased, Names, validate_security,
}
use yanshi_shield.JobScheduler.Validations.{
  validate_required_paras, validate_optional_paras, validate_mutex_paras, validate_resource,
  validate_hyper_parameters, validate_scripts, validate_job_security,
}
use yanshi_shield.JobScheduler.Validations.Handing.{validate_job_security-validate_security}

-- The keys of a job's configuration that its checks name
abbrev id_key : ℕ
id_key = 30

abbrev runtime_key : ℕ
runtime_key = 31

abbrev port_key : ℕ
port_key = 32

abbrev pub hyper_parameters_key : ℕ
hyper_parameters_key = 33

abbrev pub secure_algorithm_key : ℕ
secure_algorithm_key = 34

abbrev resource_key : ℕ
resource_key = 35

abbrev scripts_key : ℕ
scripts_key = 36

-- `_validate_port`
abbrev validate_port : (unit : ℕ) → Value → Result ConfigError (Unit {0})
validate_port unit value = parts unit value >>= λ port.
    raise_if (ltb_ℤ port (pos (1024 * unit)) || ltb_ℤ (pos (65535 * unit)) port) value_error

-- `_validate_runtime`
abbrev validate_runtime : Names → (is_runtime : ℕ → Bool) → Value → Result ConfigError (Unit {0})
validate_runtime names is_runtime value =
    cased names.upper value >>= λ runtime. raise_if (not (is_runtime runtime)) value_error

-- `_validate_regular`, with the one rule there is: for "id", which is a string here
abbrev validate_regular : (matches : ℕ → Bool) → Config → Result ConfigError (Unit {0})
validate_regular matches config = elim (lookup id_key config) [
  | some (text id) ↦ raise_if (not (matches id)) value_error
  | _ ↦ ok tt
]

-- A check of the value under a key, where there is one
abbrev where_found :
    ℕ → Config → (Value → Result ConfigError (Unit {0})) → Result ConfigError (Unit {0})
where_found key config check = elim (lookup key config) [ none ↦ ok tt | some value ↦ check value ]

-- The checks of `validate_job_config` before that of the secure algorithm. "parameters" and
-- "extenders" are not checked further.
unfoldable validate_job_base :
    (unit : ℕ)
    → Names
    → (matches is_runtime : ℕ → Bool) → (sub : ℕ → Config) → Config
    → Result ConfigError (Unit {0})
unfolding validate_required_paras validate_optional_paras validate_mutex_paras validate_resource
    validate_hyper_parameters validate_scripts parts lookup
validate_job_base unit names matches is_runtime sub config = do
  validate_required_paras ((id_key, str) ∷ (runtime_key, str) ∷ (37, str) ∷ []) config
  validate_optional_paras
      ((38, str)
        ∷ (port_key, int)
        ∷ (39, str)
        ∷ (40, str)
        ∷ (41, str)
        ∷ (42, str)
        ∷ (hyper_parameters_key, dict)
        ∷ (43, str)
        ∷ (44, dict)
        ∷ (45, dict)
        ∷ (secure_algorithm_key, dict)
        ∷ (46, str)
        ∷ (resource_key, dict)
        ∷ [])
      config
  validate_mutex_paras ((47, str) ∷ (scripts_key, dict) ∷ []) config
  validate_mutex_paras ((40, str) ∷ (41, str) ∷ (42, str) ∷ []) config
  validate_regular matches config
  runtime ← item runtime_key config
  validate_runtime names is_runtime runtime
  where_found port_key config (validate_port unit)
  where_found scripts_key config (λ _. validate_scripts (sub scripts_key))
  where_found resource_key config (λ _. validate_resource unit (sub resource_key))
  where_found hyper_parameters_key config
      (λ _. validate_hyper_parameters unit (sub hyper_parameters_key))

-- `validate_job_config`: the secure algorithm as it is left, with what was filled in
unfoldable pub validate_job_config :
    (unit : ℕ)
    → Names
    → (matches is_runtime : ℕ → Bool) → (sub : ℕ → Config) → Config
    → Result ConfigError Config
unfolding validate_job_base validate_job_security contains
validate_job_config unit names matches is_runtime sub config =
    validate_job_base unit names matches is_runtime sub config
    >> (if contains secure_algorithm_key config
        then validate_job_security unit names
            (if contains hyper_parameters_key config then sub hyper_parameters_key else [])
            (sub secure_algorithm_key)
        else ok (sub secure_algorithm_key))

-- A checkpoint of a heartbeat: "path", and "accuracy"
abbrev validate_checkpoints : Dict ℕ Config → Result ConfigError (Unit {0})
validate_checkpoints [] = ok tt
validate_checkpoints ((_, checkpoint) ∷ checkpoints) =
    (elim (lookup 50 checkpoint) [
      | none ↦ raise value_error
      | some path ↦ raise_if (not (is_truthy path)) value_error
    ])
    >> ((elim (lookup 51 checkpoint) [
      | none ↦ raise value_error
      | some accuracy ↦ raise_if (not (is_instance accuracy float)) value_error
    ])
        >> validate_checkpoints checkpoints)

-- `validate_heartbeat`: "id", "namespace", "state", "progress", "reason" and "checkpoints"
unfoldable validate_heartbeat :
    (unit : ℕ)
    → (is_state : Value → Bool) → (checkpoints : Dict ℕ Config) → Config
    → Result ConfigError (Unit {0})
unfolding validate_required_paras validate_optional_paras parts lookup
validate_heartbeat unit is_state checkpoints heartbeat = do
  validate_required_paras ((30, str) ∷ (52, str) ∷ (53, str) ∷ (54, int) ∷ []) heartbeat
  validate_optional_paras ((55, str) ∷ (56, dict) ∷ []) heartbeat
  value ← item 54 heartbeat
  progress ← parts unit value
  raise_if (ltb_ℤ progress (pos 0) || ltb_ℤ (pos (100 * unit)) progress) value_error
  state ← item 53 heartbeat
  raise_if (not (is_state state)) value_error
  where_found 56 heartbeat (λ _. validate_checkpoints checkpoints)

-- Of a configuration that has a secure algorithm and hyper parameters and that
-- `validate_job_config` accepts, the coordinator's check accepts the secure algorithm too, and
-- both fill in the same mode and the same threshold.
pub validate_job_config-validate_security :
    (unit : ℕ) (names : Names) (matches is_runtime : ℕ → Bool) (sub : ℕ → Config)
    (config a : Config)
    → contains secure_algorithm_key config ≡ true
    → contains hyper_parameters_key config ≡ true
    → validate_job_config unit names matches is_runtime sub config ≡ ok a
    → validate_security unit names (sub hyper_parameters_key) (sub secure_algorithm_key) ≡ ok a
unfolding validate_job_config
validate_job_config-validate_security unit names matches is_runtime sub config a secure hyper h =
    let last = λ (has_secure has_hyper : Bool).
      if has_secure
      then validate_job_security unit names (if has_hyper then sub hyper_parameters_key else [])
          (sub secure_algorithm_key)
      else ok (sub secure_algorithm_key) in
    let (_, _, rest) =
      >>=-eq-ok (validate_job_base unit names matches is_runtime sub config)
        (λ _. last (contains secure_algorithm_key config) (contains hyper_parameters_key config))
        h in
    validate_job_security-validate_security unit names (sub hyper_parameters_key)
      (sub secure_algorithm_key) a (sym (ap₂ last secure hyper) ∙ rest)
