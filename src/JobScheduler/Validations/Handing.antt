-- ===== src/JobScheduler/Validations/Handing.antt =====
-- A job's configuration on its way from the job scheduler to the coordinator
-- (neursafe_fl/python/job_scheduler/util/validations.py, neursafe_fl/python/coordinator/validations.py).
use yanshi_shield.Base.{
  ℕ, ◌≡◌, refl, ap, ◌∙◌, Bool, [], ◌∷◌, if◌then◌else◌, nat_beq, nat_eq, Result, ok, raise, ◌>>=◌,
  ◌>>◌, >>=-eq-ok, arith, Result-cases, inl, inr,
}
use yanshi_shield.Base.Dict.{Dict}
use yanshi_shield.Coordinator.Validations.{
  Value, Kind, str, int, float, bool, ConfigError, value_error, Config, type_key, mode_key,
  threshold_key, client_num_key, threshold_client_num_key, item, set_and_validate_ssa_config, cased,
  Names, validate_required, validate_optional, validate_secure_algorithm_with_ssa,
  validate_secure_algorithm, validate_security,
}
use yanshi_shield.JobScheduler.Validations.{
  validate_required_paras, validate_optional_paras, validate_dp_algorithm, validate_ssa_algorithm,
  validate_job_algorithm, set_and_validate_job_ssa, validate_job_security,
}

-- What the first check accepts the second accepts too, with the same outcome.
abbrev Refines : (first second : Result ConfigError (Unit {0})) → Type 0
Refines first second = (a : Unit {0}) → first ≡ ok a → second ≡ ok a

validate_required_paras-Refines :
    (rules : Dict ℕ Kind) (config : Config)
    → Refines (validate_required_paras rules config) (validate_required rules config)
unfolding validate_required_paras validate_required
validate_required_paras-Refines [] config a h = h
validate_required_paras-Refines ((key, kind) ∷ rules) config a h =
    ground (arith, h, validate_required_paras-Refines rules config a)

validate_optional_paras-Refines :
    (rules : Dict ℕ Kind) (config : Config)
    → Refines (validate_optional_paras rules config) (validate_optional rules config)
unfolding validate_optional_paras validate_optional
validate_optional_paras-Refines [] config a h = h
validate_optional_paras-Refines ((key, kind) ∷ rules) config a h =
    ground (arith, h, validate_optional_paras-Refines rules config a)

validate_ssa_algorithm-Refines :
    (names : Names) (config a : Config)
    → validate_ssa_algorithm names config ≡ ok a
    → validate_secure_algorithm_with_ssa names config ≡ ok a
unfolding validate_ssa_algorithm validate_secure_algorithm_with_ssa
validate_ssa_algorithm-Refines names config a h = ground (
  arith,
  h,
  validate_required_paras-Refines ((type_key, str) ∷ []) config tt,
  validate_optional_paras-Refines ((threshold_key, int) ∷ (mode_key, str) ∷ []) config tt,
)

validate_dp_algorithm-Refines :
    (config a : Config)
    → (validate_dp_algorithm config >> ok config) ≡ ok a
    → (validate_required ((type_key, str) ∷ (10, float) ∷ []) config
        >> (validate_optional ((11, bool) ∷ []) config >> ok config))
      ≡ ok a
unfolding validate_dp_algorithm
validate_dp_algorithm-Refines config a h = ground (
  arith,
  h,
  validate_required_paras-Refines ((type_key, str) ∷ (10, float) ∷ []) config tt,
  validate_optional_paras-Refines ((11, bool) ∷ []) config tt,
)

-- A choice by the name that a value holds, after a check: the second accepts what the first does when
-- its check and its two cases do.
module _ (name : Value → Result ConfigError ℕ) (is_dp is_ssa : ℕ → Bool) where
  abbrev chosen :
      (check : Result ConfigError (Unit {0})) (value : Result ConfigError Value)
      (dp ssa : Result ConfigError Config)
      → Result ConfigError Config
  chosen check value dp ssa =
      check
      >> (value >>= λ v. name v >>= λ kind.
          if is_dp kind then dp else if is_ssa kind then ssa else raise value_error)

  chosen-Refines :
      (check check' : Result ConfigError (Unit {0})) (value : Result ConfigError Value)
      (dp dp' ssa ssa' : Result ConfigError Config) (a : Config)
      → (check ≡ ok tt → check' ≡ ok tt)
      → (dp ≡ ok a → dp' ≡ ok a)
      → (ssa ≡ ok a → ssa' ≡ ok a)
      → chosen check value dp ssa ≡ ok a
      → chosen check' value dp' ssa' ≡ ok a
  chosen-Refines (raise _) check' value dp dp' ssa ssa' a of_check of_dp of_ssa h = absurd cc
  chosen-Refines (ok tt) check' (raise _) dp dp' ssa ssa' a of_check of_dp of_ssa h = absurd cc
  chosen-Refines (ok tt) check' (ok v) dp dp' ssa ssa' a of_check of_dp of_ssa h =
      elim (Result-cases (name v)) [
        | inl (kind, named) ↦ ground (arith, of_check refl, of_dp, of_ssa, h, named)
        | inr (failure, failed) ↦ absurd (ground (arith, h, failed))
      ]

validate_job_algorithm-Refines :
    (names : Names) (config a : Config)
    → validate_job_algorithm names config ≡ ok a
    → validate_secure_algorithm names config ≡ ok a
unfolding validate_job_algorithm validate_secure_algorithm
validate_job_algorithm-Refines names config a h =
    chosen-Refines (cased names.upper) (λ kind. nat_beq kind names.dp)
      (λ kind. nat_beq kind names.ssa) (validate_required_paras ((type_key, str) ∷ []) config)
      (validate_required ((type_key, str) ∷ []) config) (item type_key config)
      (validate_dp_algorithm config >> ok config)
      (validate_required ((type_key, str) ∷ (10, float) ∷ []) config
        >> (validate_optional ((11, bool) ∷ []) config >> ok config))
      (validate_ssa_algorithm names config) (validate_secure_algorithm_with_ssa names config) a
      (validate_required_paras-Refines ((type_key, str) ∷ []) config tt)
      (validate_dp_algorithm-Refines config a) (validate_ssa_algorithm-Refines names config a) h

set_and_validate_job_ssa-Refines :
    (unit : ℕ) (names : Names) (config a : Config) (client_num threshold_client_num : Value)
    → set_and_validate_job_ssa unit names config client_num threshold_client_num ≡ ok a
    → set_and_validate_ssa_config unit config client_num threshold_client_num ≡ ok a
unfolding set_and_validate_job_ssa set_and_validate_ssa_config
set_and_validate_job_ssa-Refines unit names config a client_num threshold_client_num h =
    ground (arith, h)

-- A last step that depends on a name and on two items
module _ (name : Value → Result ConfigError ℕ) (is_ssa : ℕ → Bool)
    (first second : Result ConfigError Value) where
  abbrev finished :
      (valid : Config) (last : Value → Value → Result ConfigError Config)
      → Result ConfigError Config
  finished valid last = item type_key valid >>= λ value. name value >>= λ kind.
      if is_ssa kind then (first >>= λ c. second >>= λ n. last c n) else ok valid

  finished-Refines :
      (valid a : Config) (last last' : Value → Value → Result ConfigError Config)
      → ((c n : Value) → last c n ≡ ok a → last' c n ≡ ok a)
      → finished valid last ≡ ok a
      → finished valid last' ≡ ok a
  finished-Refines valid a last last' of_last h = elim (Result-cases (item type_key valid)) [
    | inr (failure, failed) ↦ absurd (ground (arith, h, failed))
    | inl (value, found) ↦ elim (Result-cases (name value)) [
      | inr (failure, failed) ↦ absurd (ground (arith, h, found, failed))
      | inl (kind, named) ↦ elim (Result-cases first) [
        | inr (failure, failed) ↦ ground (arith, h, found, named, failed)
        | inl (c, of_c) ↦ elim (Result-cases second) [
          | inr (failure, failed) ↦ ground (arith, h, found, named, of_c, failed)
          | inl (n, of_n) ↦ ground (arith, of_last c n, h, found, named, of_c, of_n)
        ]
      ]
    ]
  ]

-- The secure algorithm that the job scheduler accepts for a job the coordinator accepts too, and both
-- fill in the same mode and the same threshold.
pub validate_job_security-validate_security :
    (unit : ℕ) (names : Names) (hyper_parameters config a : Config)
    → validate_job_security unit names hyper_parameters config ≡ ok a
    → validate_security unit names hyper_parameters config ≡ ok a
unfolding validate_job_security validate_security
validate_job_security-validate_security unit names hyper_parameters config a h =
    let last = λ (valid : Config).
      finished (cased names.upper) (λ kind. nat_beq kind names.ssa)
        (item client_num_key hyper_parameters) (item threshold_client_num_key hyper_parameters)
        valid in
    let (valid, of_valid, rest) =
      >>=-eq-ok (validate_job_algorithm names config)
        (λ (valid : Config). last valid (set_and_validate_job_ssa unit names valid)) h in
    ap (λ r. r >>= λ valid. last valid (set_and_validate_ssa_config unit valid))
      (validate_job_algorithm-Refines names config valid of_valid)
    ∙ finished-Refines (cased names.upper) (λ kind. nat_beq kind names.ssa)
        (item client_num_key hyper_parameters) (item threshold_client_num_key hyper_parameters)
        valid a (set_and_validate_job_ssa unit names valid) (set_and_validate_ssa_config unit valid)
        (set_and_validate_job_ssa-Refines unit names valid a) rest
