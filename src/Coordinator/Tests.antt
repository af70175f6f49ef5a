-- ===== src/Coordinator/Tests.antt =====
-- A round and a job run on small inputs (neursafe_fl/python/coordinator).
use yanshi_shield.Base.{
  ℕ, ◌+◌, ◌≤◌, ◌<◌, ◌≡◌, ◌≢◌, refl, true, false, none, some, List, [], ◌∷◌, arith, if◌then◌else◌,
  ◌⊎◌, inl, All, ltb, nat_beq, nat_eq,
}
use yanshi_shield.Coordinator.Round.{
  RoundController, new_controller, ended, no_code, aggregated, RoundEvent, selection, broadcasts,
  message, timeout, stop_command, wakes, finishes, handle_round, handle_events, select_clients,
  broadcast_done, finish_begin, wait_updates, keeps_waiting, wake, process_msg, try_to_aggregate,
  finish_round, stop_clients, force_stop,
}
use yanshi_shield.Coordinator.Round.Waiting.{IsSound, is_waiting, handle_events-IsSound, wait_ends}
use yanshi_shield.Coordinator.Trainer.{
  HyperParameters, Trainer, new_trainer, total, succeeded, round_failed, RoundInput, start,
  run_rounds, run_one_round, default_process, process_round_result, evaluate_and_save,
  calculate_statistics, save_ckpts, is_evaluation_conditions, is_save_conditions, accuracy_of,
  finished, stopped, save_metrics, append_values, append_value,
}
use yanshi_shield.Coordinator.Trainer.Course.{start_lem, successes, model_after}
use yanshi_shield.Coordinator.Trainer.Checkpoints.{IsHeld, IsNumbered, start-IsHeld}
use yanshi_shield.Base.Dict.{lookup, insert}
use yanshi_shield.Base.{ok}
use yanshi_shield.Base.Int.{pos, ◌*ℤ◌, ◌+ℤ◌}
use yanshi_shield.Base.Dict.{contains}
use yanshi_shield.Coordinator.Validations.{
  text, integer, Config, parts, check_threshold, set_threshold, set_and_validate_ssa_config,
}

abbrev two_of_three : RoundController
two_of_three = new_controller 3 2

two_of_three-IsSound : IsSound two_of_three
two_of_three-IsSound = record {
  counted = omega arith;
  all_counted = λ _. refl;
  awake = λ h. cc;
  closed = λ h. cc;
  enough = λ h. cc;
}

abbrev to_wait : List RoundEvent
to_wait = selection (some (4 ∷ 5 ∷ 6 ∷ [])) ∷ broadcasts (true ∷ true ∷ false ∷ []) ∷ []

abbrev a_round : List RoundEvent
a_round =
    selection (some (4 ∷ 5 ∷ 6 ∷ []))
    ∷ broadcasts (true ∷ true ∷ true ∷ [])
    ∷ message true aggregated
    ∷ wakes
    ∷ message false aggregated
    ∷ message true aggregated
    ∷ wakes
    ∷ stop_command
    ∷ finishes true
    ∷ []

round_ends : (handle_events a_round two_of_three).phase ≡ ended true no_code
unfolding handle_events handle_round select_clients broadcast_done wake wait_updates finish_begin
    keeps_waiting process_msg try_to_aggregate finish_round
round_ends = refl

handle_events-IsSound_example : IsSound (handle_events a_round two_of_three)
handle_events-IsSound_example = handle_events-IsSound a_round two_of_three two_of_three-IsSound

abbrev at_wait : RoundController
at_wait = handle_events to_wait two_of_three

waits : is_waiting at_wait.phase ≡ true
unfolding handle_events handle_round select_clients broadcast_done wake wait_updates finish_begin
    keeps_waiting process_msg try_to_aggregate finish_round
waits = refl

wait_ends_example :
    is_waiting
      (handle_round wakes (handle_events (message true aggregated ∷ timeout ∷ []) at_wait)).phase
    ≡ false
wait_ends_example =
    wait_ends (message true aggregated ∷ timeout ∷ []) at_wait
      (handle_events-IsSound to_wait two_of_three two_of_three-IsSound) waits (inl (omega arith))

-- A client whose stop fails twice is called three times; one whose stop always fails is left.
stops :
    stop_clients 3
      (λ tries client. if nat_beq client 4 then ltb tries 2 else nat_beq client 6)
      4
      0
      (4 ∷ 5 ∷ 6 ∷ [])
    ≡ 6 ∷ []
unfolding stop_clients
stops = refl

abbrev three_rounds : HyperParameters
three_rounds = record { max_round_num = 3; evaluate_interval = 2; save_interval = 2 }

-- The second round fails, a stop comes in during the third.
abbrev some_inputs : ℕ → RoundInput ℕ
some_inputs n = record {
  result = if nat_beq n 2 then round_failed force_stop 7 else succeeded n 5;
  evaluated = some ((0, 90) ∷ []);
  evaluated_to_save = none;
  stop_requested = nat_beq n 3;
}

abbrev ended_job : Trainer ℕ
ended_job = start ◌+◌ [] some_inputs (new_trainer 1 0 false three_rounds 10)

job_weights : ended_job.weights ≡ 14
unfolding start run_rounds run_one_round default_process process_round_result evaluate_and_save
    calculate_statistics save_ckpts is_evaluation_conditions is_save_conditions accuracy_of lookup
job_weights = refl

start_lem_example :
    (total ended_job.stats ≤ 3)
    × (ended_job.stats.success ≡ successes some_inputs (total ended_job.stats))
    × (ended_job.weights ≡ model_after ◌+◌ some_inputs (total ended_job.stats) 10)
    × ((ended_job.state ≢ finished) ⊎ ((total ended_job.stats ≡ 3) × (0 < ended_job.stats.success)))
start_lem_example = start_lem ◌+◌ some_inputs 1 0 false three_rounds 10 []

start-IsHeld_example :
    All (IsHeld ◌+◌ some_inputs 10) ended_job.files
    × IsNumbered ended_job.files ended_job.next_ckpt_id
start-IsHeld_example = start-IsHeld ◌+◌ some_inputs 10 1 0 three_rounds []

-- A stop in the last round, which then fails: the model is not saved.
abbrev stopped_inputs : ℕ → RoundInput ℕ
stopped_inputs n = record {
  result = if nat_beq n 3 then round_failed force_stop 1 else succeeded n 5;
  evaluated = none;
  evaluated_to_save = none;
  stop_requested = nat_beq n 3;
}

abbrev stopped_job : Trainer ℕ
stopped_job = start ◌+◌ [] stopped_inputs (
    new_trainer 1 0 false (record { max_round_num = 3; evaluate_interval = 2; save_interval = 0 })
      10)

not_saved : (stopped_job.files ≡ []) × (stopped_job.state ≡ stopped) × (stopped_job.weights ≡ 13)
unfolding start run_rounds run_one_round default_process process_round_result evaluate_and_save
    calculate_statistics save_ckpts is_evaluation_conditions is_save_conditions accuracy_of lookup
not_saved = (refl, refl, refl)

saved_metrics :
    save_metrics (((0, 90) ∷ (1, 4) ∷ []) ∷ ((0, 95) ∷ []) ∷ []) []
    ≡ (0, 90 ∷ 95 ∷ []) ∷ (1, 4 ∷ []) ∷ []
unfolding save_metrics append_values append_value lookup insert
saved_metrics = refl

-- Three clients, two of which are needed; the threshold is not given.
abbrev ssa_config : Config
ssa_config = (0, text 83) ∷ []

accepted :
    set_and_validate_ssa_config 1 ssa_config (integer (pos 3)) (integer (pos 2))
    ≡ ok ((0, text 83) ∷ (2, integer (pos 2)) ∷ [])
unfolding set_and_validate_ssa_config parts check_threshold set_threshold lookup contains insert
    ◌*ℤ◌ ◌+ℤ◌
accepted = refl

-- Half of the clients are enough for a threshold.
half_accepted :
    set_and_validate_ssa_config 1 ssa_config (integer (pos 4)) (integer (pos 2))
    ≡ ok ((0, text 83) ∷ (2, integer (pos 2)) ∷ [])
unfolding set_and_validate_ssa_config parts check_threshold set_threshold lookup contains insert
    ◌*ℤ◌ ◌+ℤ◌
half_accepted = refl
