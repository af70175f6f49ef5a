-- ===== src/Coordinator/Trainer/Course.antt =====
-- What a job's rounds add up to (neursafe_fl/python/coordinator/trainer.py): the counts, the model and
-- the final state.
use yanshi_shield.Base.{
  ℕ, zero, suc, ◌+◌, ◌≤◌, ◌<◌, ◌≡◌, refl, sym, subst, if_holds, Bool, true, false, none, arith,
  if◌then◌else◌, ◌⊎◌, ◌≢◌,
}
use yanshi_shield.Base.Dict.{Dict}
use yanshi_shield.Coordinator.Trainer.{
  HyperParameters, new_trainer, total, CheckpointId, Checkpoint, RoundResult, succeeded,
  round_failed, status, RoundInput, Trainer, running, finished, process_round_result,
  evaluate_and_save, default_process, run_one_round, run_rounds, start, calculate_statistics,
  save_ckpts, is_evaluation_conditions, is_save_conditions,
}

-- The model after the first rounds: each round that succeeded adds what it has aggregated.
abbrev pub add_result : {W : Type 0} → (W → W → W) → RoundResult W → W → W
add_result add (succeeded delta_weights _) weights = add weights delta_weights
add_result add (round_failed _ _) weights = weights

abbrev pub model_after : {W : Type 0} → (W → W → W) → (ℕ → RoundInput W) → ℕ → W → W
model_after add inputs zero weights = weights
model_after add inputs (suc n) weights =
    add_result add (inputs (suc n)).result (model_after add inputs n weights)

-- How many of the first rounds succeeded.
abbrev pub successes : {W : Type 0} → (ℕ → RoundInput W) → ℕ → ℕ
successes inputs zero = 0
successes inputs (suc n) =
    if status (inputs (suc n)).result then suc (successes inputs n) else successes inputs n

if_same : {W : Type 0} (b : Bool) (w : W) → w ≡ (if b then w else w)
if_same true w = refl
if_same false w = refl

module _ {W : Type 0} (add : W → W → W) (inputs : ℕ → RoundInput W) (custom : Bool) where
  -- Where a job stands after `n` rounds, custom ones or not, from the model `initial`.
  pub record IsAfter (initial : W) (n : ℕ) (self : Trainer W) : Type 0 where
    pub all_counted : total self.stats ≡ n
    pub successful : self.stats.success ≡ successes inputs n
    pub progressed : self.stats.progress.0 ≡ n
    pub process : self.block_default ≡ custom
    pub model : self.weights ≡ (if custom then initial else model_after add inputs n initial)

  run_one_round-IsAfter :
      (initial : W) (n : ℕ) (self : Trainer W)
      → IsAfter initial n self
      → IsAfter initial (suc n) (run_one_round add (suc n) (inputs (suc n)) self)
  unfolding run_one_round default_process calculate_statistics process_round_result
      evaluate_and_save save_ckpts is_evaluation_conditions is_save_conditions
  run_one_round-IsAfter initial n self h = record {
    all_counted = ground (arith, h.all_counted);
    successful = ground (arith, h.successful);
    progressed = ground arith;
    process = ground (arith, h.process);
    model = ground (arith, h.process, h.model);
  }

  save_ckpts-IsAfter :
      (initial : W) (n : ℕ) (self : Trainer W)
      → IsAfter initial n self
      → IsAfter initial n (save_ckpts none self)
  unfolding save_ckpts
  save_ckpts-IsAfter initial n self h = record {
    all_counted = h.all_counted;
    successful = h.successful;
    progressed = h.progressed;
    model = h.model;
    process = h.process;
  }

  max_rounds-run_one_round :
      (n : ℕ) (input : RoundInput W) (self : Trainer W)
      → (run_one_round add n input self).max_rounds ≡ self.max_rounds
  unfolding run_one_round default_process calculate_statistics process_round_result
      evaluate_and_save save_ckpts is_evaluation_conditions is_save_conditions
  max_rounds-run_one_round n input self = ground arith

  -- The loop ends after a round at which a stop was asked for, or after the last one.
  pub record HasRun (initial : W) (last : ℕ) (ran : Trainer W) : Type 0 where
    pub after : IsAfter initial (total ran.stats) ran
    pub bounded : total ran.stats ≤ last
    pub complete : ran.force_stop ≡ false → total ran.stats ≡ last

  IsAfter-total :
      (initial : W) (n : ℕ) (self : Trainer W)
      → IsAfter initial n self
      → IsAfter initial (total self.stats) self
  IsAfter-total initial n self h = subst (λ k. IsAfter initial k self) (sym h.all_counted) h

  run_rounds-HasRun :
      (initial : W) (rounds_left n : ℕ) (self : Trainer W)
      → IsAfter initial n self
      → HasRun initial (n + rounds_left) (run_rounds add inputs rounds_left (suc n) self)
  unfolding run_rounds
  run_rounds-HasRun initial zero n self h = record {
    after = IsAfter-total initial n self h;
    bounded = omega (arith, h.all_counted);
    complete = λ _. omega (arith, h.all_counted);
  }
  run_rounds-HasRun initial (suc rounds_left) n self h =
      if_holds (HasRun initial (n + suc rounds_left)) self.force_stop
        (λ is_stopped. record {
          after = IsAfter-total initial n _ (save_ckpts-IsAfter initial n self h);
          bounded = omega (arith, h.all_counted);
          complete = λ goes_on. cc;
        })
        (λ _.
          subst
            (λ last. HasRun initial last (
              run_rounds add inputs rounds_left (suc (suc n))
                (run_one_round add (suc n) (inputs (suc n)) self)))
            (omega arith)
            (run_rounds-HasRun initial rounds_left (suc n)
              (run_one_round add (suc n) (inputs (suc n)) self)
              (run_one_round-IsAfter initial n self h)))

module _ {W : Type 0} (add : W → W → W) (inputs : ℕ → RoundInput W) where
  -- A new trainer's job, in the default process or a custom one, runs no more rounds than it may, each
  -- counted once as a success or a failure as it ended. The model is then the initial one with what each
  -- successful round has aggregated added in order; custom rounds leave it. A job that is finished has
  -- run all of its rounds, one of them with success.
  pub start_lem :
      (job_name job_v : ℕ) (custom : Bool) (hyper_params : HyperParameters) (initial : W)
      (restored : Dict CheckpointId Checkpoint)
      → let ended =
          start add restored inputs (new_trainer job_name job_v custom hyper_params initial) in
        let ran = total ended.stats in
        (ran ≤ hyper_params.max_round_num)
        × (ended.stats.success ≡ successes inputs ran)
        × (ended.weights ≡ (if custom then initial else model_after add inputs ran initial))
        × ((ended.state ≢ finished)
            ⊎ ((ran ≡ hyper_params.max_round_num) × (0 < ended.stats.success)))
  unfolding start
  start_lem job_name job_v custom hyper_params initial restored =
      let begun : Trainer W = record (new_trainer job_name job_v custom hyper_params initial) {
        checkpoints = restored;
        state = running;
      } in
      let h =
        run_rounds-HasRun add inputs custom initial hyper_params.max_round_num 0 begun (record {
          all_counted = refl;
          successful = refl;
          progressed = refl;
          process = refl;
          model = if_same custom initial;
        }) in
      (omega (arith, h.bounded), h.after.successful, h.after.model, ground (arith, h.complete))
