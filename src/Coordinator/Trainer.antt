-- ===== src/Coordinator/Trainer.antt =====
-- neursafe_fl/python/coordinator/trainer.py, common/types.py and fl_model.py: a job's rounds one after
-- the other. What a round comes to, and whether a stop command came in while it ran, are its inputs;
-- the backend's addition of weights is a parameter. Metrics are counted in a unit in which they are
-- whole, their names are numbers, and the files of checkpoints are those that `save_model` wrote.
pub mod Checkpoints
pub mod Course
use yanshi_shield.Base.{
  ℕ, zero, suc, ◌+◌, ◌%◌, Bool, true, false, not, ◌&&◌, ◌||◌, Option, none, some, List, [], ◌∷◌,
  ◌++◌, if◌then◌else◌, ltb, nat_beq, nat_eq, pair_eq, Result, ok, raise, raise_if, ◌>>◌,
}
use yanshi_shield.Base.Dict.{Dict, lookup, insert}
use yanshi_shield.Coordinator.Round.{ErrorCode, extend_failed}

pub data State : Type 0 where
  starting running finished failed stopping stopped : State

-- `progress` is the number of the round and the number of rounds of which the percentage is made.
pub record Statistics : Type 0 where
  pub success : ℕ
  pub failed : ℕ
  pub spend_time : ℕ
  pub progress : ℕ × ℕ

abbrev pub total : Statistics → ℕ
total self = self.success + self.failed

abbrev pub Metrics : Type 0
Metrics = Dict ℕ ℕ

-- The name of the metric "accuracy"
abbrev pub accuracy_name : ℕ
accuracy_name = 0

-- `V<job version>_checkpoint_v<number>`
abbrev pub CheckpointId : Type 0
CheckpointId = ℕ × ℕ

-- A file is named by its directory and the round.
pub record Checkpoint : Type 0 where
  pub path : CheckpointId × ℕ
  pub accuracy : ℕ

pub record CheckpointFile (W : Type 0) : Type 0 where
  pub ckpt_id : ℕ
  pub round_id : ℕ
  pub model : W

-- A `RoundResult`: what the weights change by, or why the round failed; and the time spent.
pub data RoundResult (W : Type 0) : Type 0 where
  succeeded : W → ℕ → RoundResult W
  round_failed : ErrorCode → ℕ → RoundResult W

abbrev pub status : {W : Type 0} → RoundResult W → Bool
status (succeeded _ _) = true
status (round_failed _ _) = false

abbrev pub time_spent : {W : Type 0} → RoundResult W → ℕ
time_spent (succeeded _ time) = time
time_spent (round_failed _ time) = time

-- What a round meets: its result, that of the evaluation, that of the evaluation before a save, and
-- whether a stop command comes in while it runs.
pub record RoundInput (W : Type 0) : Type 0 where
  pub result : RoundResult W
  pub evaluated : Option Metrics
  pub evaluated_to_save : Option Metrics
  pub stop_requested : Bool

pub record Trainer (W : Type 0) : Type 0 where
  pub job_name : ℕ
  -- the version in the name of the job's directory
  pub job_v : ℕ
  pub block_default : Bool
  pub max_rounds : ℕ
  pub evaluate_interval : ℕ
  pub save_interval : ℕ
  pub round_id : ℕ
  pub stats : Statistics
  pub metrics : List Metrics
  pub checkpoints : Dict CheckpointId Checkpoint
  pub next_ckpt_id : ℕ
  pub weights : W
  pub state : State
  pub force_stop : Bool
  -- the last one written stands first
  pub files : List (CheckpointFile W)

-- `max_round_num`, `evaluate_interval` and `save_interval`
pub record HyperParameters : Type 0 where
  pub max_round_num : ℕ
  pub evaluate_interval : ℕ
  pub save_interval : ℕ

-- `__init__`, and the load of the model by `start`
abbrev pub new_trainer :
    {W : Type 0} (job_name job_v : ℕ) → (block_default : Bool) → HyperParameters → W → Trainer W
new_trainer job_name job_v block_default hyper_params weights = record {
  job_name = job_name;
  job_v = job_v;
  block_default = block_default;
  max_rounds = hyper_params.max_round_num;
  evaluate_interval = hyper_params.evaluate_interval;
  save_interval = hyper_params.save_interval;
  round_id = 0;
  stats = record { success = 0; failed = 0; spend_time = 0; progress = (0, 0) };
  metrics = [];
  checkpoints = [];
  next_ckpt_id = 0;
  weights = weights;
  state = starting;
  force_stop = false;
  files = [];
}

-- The truth of `metrics`, and that of `metrics.get("accuracy")`
abbrev pub is_some_metrics : Option Metrics → Bool
is_some_metrics none = false
is_some_metrics (some []) = false
is_some_metrics (some (_ ∷ _)) = true

unfoldable pub accuracy_of : Metrics → ℕ
accuracy_of metrics = elim (lookup accuracy_name metrics) [ none ↦ 0 | some value ↦ value ]

module _ {W : Type 0} where
  -- `__add_ckpt_info`
  abbrev pub add_ckpt_info : ℕ → Trainer W → Trainer W
  add_ckpt_info value self =
      let name : CheckpointId = (self.job_v, self.next_ckpt_id) in
      record self {
        checkpoints =
            insert name (record { path = (name, self.round_id); accuracy = value })
              self.checkpoints;
      }

  abbrev pub add_info_if_needed : Option Metrics → Trainer W → Trainer W
  add_info_if_needed none self = self
  add_info_if_needed (some metrics) self =
      if nat_beq (accuracy_of metrics) 0 then self else add_ckpt_info (accuracy_of metrics) self

  -- `__save_ckpts`
  unfoldable pub save_ckpts : Option Metrics → Trainer W → Trainer W
  save_ckpts metrics self =
      let file : CheckpointFile W = record {
        ckpt_id = self.next_ckpt_id;
        round_id = self.round_id;
        model = self.weights;
      } in
      let saved = add_info_if_needed metrics self in
      record saved { files = file ∷ self.files; next_ckpt_id = suc self.next_ckpt_id }

  -- `__is_evaluation_conditions`
  unfoldable pub is_evaluation_conditions : Trainer W → Bool
  is_evaluation_conditions self =
      (ltb 0 self.evaluate_interval && nat_beq (self.round_id % self.evaluate_interval) 0)
      || nat_beq self.round_id self.max_rounds

  -- `__is_save_conditions`
  unfoldable pub is_save_conditions : Trainer W → Bool
  is_save_conditions self =
      (ltb 0 self.save_interval && nat_beq (self.round_id % self.save_interval) 0)
      || nat_beq self.round_id self.max_rounds

  -- `__run_evaluate_round`; the metrics come back as they came in.
  abbrev pub run_evaluate_round : Option Metrics → Trainer W → Trainer W
  run_evaluate_round none self = self
  run_evaluate_round (some metrics) self = record self { metrics = self.metrics ++ (metrics ∷ []) }

  -- `__process_stop_cmd`, on the trainer
  abbrev pub process_stop_cmd : Trainer W → Trainer W
  process_stop_cmd self = record self { force_stop = true; state = stopping }

  -- `__calculate_statistics`
  unfoldable pub calculate_statistics : RoundResult W → Trainer W → Trainer W
  calculate_statistics result self = record self {
    stats = record {
      success = if status result then suc self.stats.success else self.stats.success;
      failed = if status result then self.stats.failed else suc self.stats.failed;
      spend_time = self.stats.spend_time + time_spent result;
      progress = (self.round_id, self.max_rounds);
    };
  }

  -- `__assert_msg_belongings`
  abbrev pub assert_msg_belongings : (job_name round : ℕ) → Trainer W → Result (Unit {0}) (Unit {0})
  assert_msg_belongings job_name round self =
      raise_if (not (nat_beq job_name self.job_name)) tt
      >> raise_if (not (nat_beq round self.round_id)) tt

module _ {W : Type 0} (add : W → W → W) where
  -- `__process_round_result`, with `FlModel.add_delta_weights`
  unfoldable pub process_round_result : RoundResult W → Trainer W → Trainer W
  process_round_result (succeeded delta_weights _) self = record self {
    weights = add self.weights delta_weights;
  }
  process_round_result (round_failed extend_failed _) self = record self { force_stop = true }
  process_round_result (round_failed _ _) self = self

  -- The evaluation and the save of `__default_process`, after a train round that succeeded
  unfoldable pub evaluate_and_save : RoundInput W → Trainer W → Trainer W
  unfolding is_evaluation_conditions is_save_conditions save_ckpts
  evaluate_and_save input self =
      let metrics = if is_evaluation_conditions self then input.evaluated else none in
      let tried = run_evaluate_round metrics self in
      let again = if is_some_metrics metrics then none else input.evaluated_to_save in
      let to_save = if is_some_metrics metrics then metrics else input.evaluated_to_save in
      if is_save_conditions self then save_ckpts to_save (run_evaluate_round again tried) else tried

  -- `__default_process`
  unfoldable pub default_process : RoundInput W → Trainer W → Trainer W
  unfolding process_round_result evaluate_and_save calculate_statistics
  default_process input self =
      let processed = process_round_result input.result self in
      calculate_statistics input.result
        (if status input.result then evaluate_and_save input processed else processed)

  -- `__run_one_round`, with `__custom_process`, and the stop command that comes in meanwhile
  unfoldable pub run_one_round : ℕ → RoundInput W → Trainer W → Trainer W
  unfolding default_process calculate_statistics
  run_one_round round_id input self =
      let begun = record self { round_id = round_id } in
      let met = if input.stop_requested then process_stop_cmd begun else begun in
      if self.block_default
      then calculate_statistics input.result met
      else default_process input met

  -- The loop of `start`, over as many rounds as are left
  unfoldable pub run_rounds :
      (ℕ → RoundInput W) → (rounds_left round_id : ℕ) → Trainer W → Trainer W
  unfolding run_one_round save_ckpts
  run_rounds inputs zero round_id self = self
  run_rounds inputs (suc rounds_left) round_id self =
      let rest =
        run_rounds inputs rounds_left (suc round_id)
          (run_one_round round_id (inputs round_id) self) in
      if self.force_stop then save_ckpts none self else rest

  -- The state at the end of `start`
  abbrev pub final_state : Trainer W → State
  final_state self =
      if nat_beq self.stats.success 0 then failed else if self.force_stop then stopped else finished

  -- `start`, with the checkpoints that earlier runs of the job have left
  unfoldable pub start : Dict CheckpointId Checkpoint → (ℕ → RoundInput W) → Trainer W → Trainer W
  unfolding run_rounds
  start restored inputs self =
      let ran =
        run_rounds inputs self.max_rounds 1
          (record self { checkpoints = restored; state = running }) in
      record ran { state = final_state ran }

-- `__save_metrics`: the values of each metric, in order
unfoldable pub append_value : ℕ × ℕ → Dict ℕ (List ℕ) → Dict ℕ (List ℕ)
unfolding lookup insert
append_value (key, value) evaluate_metrics = elim (lookup key evaluate_metrics) [
  | none ↦ insert key (value ∷ []) evaluate_metrics
  | some values ↦ insert key (values ++ (value ∷ [])) evaluate_metrics
]

unfoldable pub append_values : Metrics → Dict ℕ (List ℕ) → Dict ℕ (List ℕ)
unfolding append_value
append_values [] evaluate_metrics = evaluate_metrics
append_values (entry ∷ metric) evaluate_metrics =
    append_values metric (append_value entry evaluate_metrics)

unfoldable pub save_metrics : List Metrics → Dict ℕ (List ℕ) → Dict ℕ (List ℕ)
unfolding append_values
save_metrics [] evaluate_metrics = evaluate_metrics
save_metrics (metric ∷ metrics) evaluate_metrics =
    save_metrics metrics (append_values metric evaluate_metrics)
