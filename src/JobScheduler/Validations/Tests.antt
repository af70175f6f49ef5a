-- ===== src/JobScheduler/Validations/Tests.antt =====
-- A job with the secure algorithm SSA (neursafe_fl/python/job_scheduler/util/validations.py).
use yanshi_shield.Base.{ℕ, ◌≡◌, refl, true, ok, [], ◌∷◌, if◌then◌else◌, nat_beq}
use yanshi_shield.Base.Int.{pos, ◌*ℤ◌, ◌+ℤ◌}
use yanshi_shield.Coordinator.Validations.{
  text, integer, table, Config, type_key, mode_key, threshold_key, client_num_key,
  threshold_client_num_key, Names, validate_security,
}
use yanshi_shield.JobScheduler.Validations.Requests.{
  hyper_parameters_key, secure_algorithm_key, validate_job_config,
  validate_job_config-validate_security,
}

abbrev names : Names
names = record {
  upper = λ s. s;
  lower = λ s. s;
  dp = 1;
  ssa = 2;
  onemask = 3;
  doublemask = 4;
  quantization = 5;
  subsampling = 6;
  selectivemasking = 7;
}

abbrev hyper_parameters : Config
hyper_parameters =
    (client_num_key, integer (pos 4)) ∷ (threshold_client_num_key, integer (pos 3)) ∷ []

abbrev sub : ℕ → Config
sub key = if nat_beq key hyper_parameters_key then hyper_parameters else ((type_key, text 2) ∷ [])

abbrev job : Config
job =
    (30, text 5)
    ∷ (31, text 6)
    ∷ (37, text 7)
    ∷ (47, text 8)
    ∷ (41, text 9)
    ∷ (32, integer (pos 8080))
    ∷ (hyper_parameters_key, table true)
    ∷ (secure_algorithm_key, table true)
    ∷ []

validate_job_config-validate_security_example :
    validate_security 10 names hyper_parameters ((type_key, text 2) ∷ [])
    ≡ ok ((type_key, text 2) ∷ (mode_key, text 4) ∷ (threshold_key, integer (pos 3)) ∷ [])
unfolding validate_job_config ◌*ℤ◌ ◌+ℤ◌
validate_job_config-validate_security_example =
    validate_job_config-validate_security 10 names (λ _. true) (λ _. true) sub job
      ((type_key, text 2) ∷ (mode_key, text 4) ∷ (threshold_key, integer (pos 3)) ∷ []) refl refl
      refl
