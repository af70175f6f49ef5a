-- ===== src/JobScheduler/Validations.antt =====
-- neursafe_fl/python/job_scheduler/util/validations.py: the checks of a job's configuration and of a
-- heartbeat, with values and names as in Coordinator/Validations.antt. The dict under a key is an
-- argument, and so are the patterns and the lists of names that are supported.
pub mod Handing
pub mod Requests
mod Tests
use yanshi_shield.Base.{
  ℕ, suc, ◌+◌, ◌*◌, ◌≤◌, ◌<◌, ◌≡◌, refl, Bool, true, false, not, ◌&&◌, ◌||◌, Option, none, some,
  List, [], ◌∷◌, if◌then◌else◌, ltb, leb, nat_beq, nat_eq, Result, ok, raise, ◌>>=◌, ◌>>◌, raise_if,
}
use yanshi_shield.Base.Int.{ℤ, pos, negsuc, ltb_ℤ, leb_ℤ, ◌+ℤ◌, ◌*ℤ◌}
use yanshi_shield.Base.Dict.{Dict, lookup, insert, contains}
use yanshi_shield.Coordinator.Validations.{
  Value, text, integer, floating, boolean, Kind, str, int, float, bool, dict, ConfigError,
  value_error, type_error, key_error, attribute_error, is_instance, is_truthy, Config, type_key,
  mode_key, threshold_key, client_num_key, threshold_client_num_key, item, parts, check_threshold,
  set_threshold, cased, set_and_validate_mode, Names,
}

-- `_validate_required_paras`
unfoldable pub validate_required_paras : Dict ℕ Kind → Config → Result ConfigError (Unit {0})
unfolding is_instance lookup
validate_required_paras [] config = ok tt
validate_required_paras ((key, kind) ∷ rules) config = elim (lookup key config) [
  | none ↦ raise value_error
  | some value ↦
      raise_if (not (is_instance value kind)) type_error >> validate_required_paras rules config
]

-- `_validate_optional_paras`: here what is empty must have its type too.
unfoldable pub validate_optional_paras : Dict ℕ Kind → Config → Result ConfigError (Unit {0})
unfolding is_instance lookup
validate_optional_paras [] config = ok tt
validate_optional_paras ((key, kind) ∷ rules) config = elim (lookup key config) [
  | none ↦ validate_optional_paras rules config
  | some value ↦
      raise_if (not (is_instance value kind)) type_error >> validate_optional_paras rules config
]

-- Whether a rule's key is in a configuration
abbrev has_some : Dict ℕ Kind → Config → Bool
has_some [] config = false
has_some ((key, _) ∷ rules) config = contains key config || has_some rules config

-- `_validate_mutex_paras`; as the source has it, more than one of the keys may be there.
unfoldable pub validate_mutex_paras : Dict ℕ Kind → Config → Result ConfigError (Unit {0})
unfolding validate_optional_paras contains
validate_mutex_paras rules config =
    raise_if (not (has_some rules config)) value_error >> validate_optional_paras rules config

-- A test of each value of a dict as a number; a value that is none raises a TypeError.
abbrev each_number : (unit : ℕ) → (ℤ → Bool) → Config → Result ConfigError (Unit {0})
each_number unit is_wrong [] = ok tt
each_number unit is_wrong ((_, value) ∷ config) = do
  number ← parts unit value
  raise_if (is_wrong number) value_error
  each_number unit is_wrong config

-- `_validate_resource`: "worker_num", "gpu", "memory" and "cpu"
unfoldable pub validate_resource : (unit : ℕ) → Config → Result ConfigError (Unit {0})
unfolding validate_optional_paras parts
validate_resource unit config =
    validate_optional_paras ((20, int) ∷ (21, int) ∷ (22, int) ∷ (23, float) ∷ []) config
    >> each_number unit (λ number. ltb_ℤ number (pos 0)) config

-- `config.get(key, 1)`
abbrev item_or_one : ℕ → Config → Value
item_or_one key config = elim (lookup key config) [ none ↦ integer (pos 1) | some value ↦ value ]

-- `_validate_hyper_parameters`, with the keys of the coordinator's hyper parameters
unfoldable pub validate_hyper_parameters : (unit : ℕ) → Config → Result ConfigError (Unit {0})
unfolding validate_optional_paras parts lookup
validate_hyper_parameters unit config = do
  validate_optional_paras
      ((5, int)
        ∷ (client_num_key, int)
        ∷ (threshold_client_num_key, int)
        ∷ (6, int)
        ∷ (7, int)
        ∷ (8, int)
        ∷ (9, float)
        ∷ [])
      config
  each_number unit (λ number. leb_ℤ number (pos 0)) config
  threshold_client_num ← parts unit (item_or_one threshold_client_num_key config)
  client_num ← parts unit (item_or_one client_num_key config)
  raise_if (ltb_ℤ client_num threshold_client_num) value_error

-- `_validate_scripts`: "path" and "config_file"
unfoldable pub validate_scripts : Config → Result ConfigError (Unit {0})
unfolding validate_required_paras
validate_scripts scripts = validate_required_paras ((24, str) ∷ (25, str) ∷ []) scripts

-- `_validate_dp_algorithm`
unfoldable pub validate_dp_algorithm : Config → Result ConfigError (Unit {0})
unfolding validate_required_paras validate_optional_paras
validate_dp_algorithm config =
    validate_required_paras ((type_key, str) ∷ (10, float) ∷ []) config
    >> validate_optional_paras ((11, bool) ∷ []) config

-- `_validate_ssa_algorithm`; `__set_and_validate_mode_with_ssa` is that of the coordinator, word for word.
unfoldable pub validate_ssa_algorithm : Names → Config → Result ConfigError Config
unfolding validate_required_paras validate_optional_paras set_and_validate_mode
validate_ssa_algorithm names config =
    validate_required_paras ((type_key, str) ∷ []) config
    >> (validate_optional_paras ((threshold_key, int) ∷ (mode_key, str) ∷ []) config
        >> set_and_validate_mode names.lower names.onemask names.doublemask config)

-- `_validate_secure_algorithm`
unfoldable pub validate_job_algorithm : Names → Config → Result ConfigError Config
unfolding validate_required_paras validate_dp_algorithm validate_ssa_algorithm lookup
validate_job_algorithm names config =
    validate_required_paras ((type_key, str) ∷ []) config
    >> (item type_key config >>= λ value. cased names.upper value >>= λ kind.
        if nat_beq kind names.dp
        then (validate_dp_algorithm config >> ok config)
        else if nat_beq kind names.ssa
        then validate_ssa_algorithm names config
        else raise value_error)

abbrev eqb_ℤ : ℤ → ℤ → Bool
eqb_ℤ a b = leb_ℤ a b && leb_ℤ b a

-- The last test of `__set_and_validate_ssa_config`: with one mask nobody may drop out.
unfoldable check_onemask :
    Names → Config → (threshold threshold_client_num client_num : ℤ) → Result ConfigError (Unit {0})
unfolding lookup
check_onemask names config threshold threshold_client_num client_num = do
  value ← item mode_key config
  mode ← cased names.lower value
  raise_if
      (nat_beq mode names.onemask
        && (not (eqb_ℤ threshold client_num) || not (eqb_ℤ threshold_client_num client_num)))
      value_error

-- `__set_and_validate_ssa_config`
unfoldable pub set_and_validate_job_ssa :
    (unit : ℕ)
    → Names
    → Config
    → (client_num threshold_client_num : Value) → Result ConfigError Config
unfolding parts check_threshold set_threshold check_onemask lookup
set_and_validate_job_ssa unit names config client_num threshold_client_num = do
  most ← parts unit threshold_client_num
  all ← parts unit client_num
  raise_if (ltb_ℤ (most +ℤ most) all) value_error
  value ← item threshold_key (set_threshold threshold_client_num config)
  threshold ← parts unit value
  check_threshold unit threshold most all
  check_onemask names (set_threshold threshold_client_num config) threshold most all
  ok (set_threshold threshold_client_num config)

-- The branch "secure_algorithm" of `validate_job_config`
unfoldable pub validate_job_security :
    (unit : ℕ) → Names → (hyper_parameters config : Config) → Result ConfigError Config
unfolding validate_job_algorithm set_and_validate_job_ssa lookup
validate_job_security unit names hyper_parameters config =
    validate_job_algorithm names config >>= λ valid. item type_key valid >>= λ value.
    cased names.upper value >>= λ kind.
    if nat_beq kind names.ssa
    then (item client_num_key hyper_parameters >>= λ client_num.
        item threshold_client_num_key hyper_parameters >>= λ threshold_client_num.
        set_and_validate_job_ssa unit names valid client_num threshold_client_num)
    else ok valid
