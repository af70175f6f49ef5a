-- ===== src/Coordinator/Trainer/Checkpoints.antt =====
-- What the checkpoints of a job hold (neursafe_fl/python/coordinator/trainer.py), in the default process.
use yanshi_shield.Base.{
  ℕ, zero, suc, ◌+◌, ◌<◌, ◌≡◌, refl, sym, ◌∙◌, subst, if_holds, true, false, Option, none, some,
  List, [], ◌∷◌, arith, inl, inr, ◌⊎◌, All,
}
use yanshi_shield.Base.Dict.{Dict}
use yanshi_shield.Coordinator.Trainer.{
  HyperParameters, new_trainer, CheckpointId, Checkpoint, CheckpointFile, status, RoundInput,
  Trainer, running, process_round_result, evaluate_and_save, default_process, run_one_round,
  run_rounds, start, calculate_statistics, save_ckpts, is_evaluation_conditions, is_save_conditions,
}
use yanshi_shield.Coordinator.Trainer.Course.{model_after}

-- The files are numbered down from the next number, none twice.
abbrev pub IsNumbered : {W : Type 0} → List (CheckpointFile W) → ℕ → Type 0
IsNumbered [] n = n ≡ 0
IsNumbered (file ∷ files) n = (n ≡ suc file.ckpt_id) × IsNumbered files file.ckpt_id

-- The model that was saved last.
abbrev pub last_model : {W : Type 0} → List (CheckpointFile W) → Option W
last_model [] = none
last_model (file ∷ files) = some file.model

module _ {W : Type 0} (add : W → W → W) (inputs : ℕ → RoundInput W) (initial : W) where
  abbrev pub IsHeld : CheckpointFile W → Type 0
  IsHeld file = file.model ≡ model_after add inputs file.round_id initial

  pub record IsRecorded (n : ℕ) (self : Trainer W) : Type 0 where
    pub process : self.block_default ≡ false
    pub at_round : self.round_id ≡ n
    pub model : self.weights ≡ model_after add inputs n initial
    pub numbered : IsNumbered self.files self.next_ckpt_id
    pub held : All IsHeld self.files

  run_one_round-IsRecorded :
      (n : ℕ) (self : Trainer W)
      → IsRecorded n self
      → IsRecorded (suc n) (run_one_round add (suc n) (inputs (suc n)) self)
  unfolding run_one_round default_process calculate_statistics process_round_result
      evaluate_and_save save_ckpts is_evaluation_conditions is_save_conditions
  run_one_round-IsRecorded n self h = record {
    process = ground (arith, h.process);
    at_round = ground (arith, h.process);
    model = ground (arith, h.process, h.model);
    numbered = ground (arith, h.process, h.numbered);
    held = ground (arith, h.process, h.model, h.held);
  }

  save_ckpts-IsRecorded :
      (n : ℕ) (self : Trainer W) → IsRecorded n self → IsRecorded n (save_ckpts none self)
  unfolding save_ckpts
  save_ckpts-IsRecorded n self h = record {
    process = h.process;
    at_round = h.at_round;
    model = h.model;
    numbered = (refl, h.numbered);
    held = (
      subst (λ k. self.weights ≡ model_after add inputs k initial) (sym h.at_round) h.model,
      h.held,
    );
  }

  run_one_round_saves :
      (n : ℕ) (input : RoundInput W) (self : Trainer W)
      → self.block_default ≡ false
      → self.max_rounds ≡ n
      → status input.result ≡ true
      → let ran = run_one_round add n input self in last_model ran.files ≡ some ran.weights
  unfolding run_one_round default_process calculate_statistics process_round_result
      evaluate_and_save save_ckpts is_evaluation_conditions is_save_conditions
  run_one_round_saves n input self process last success = ground (arith, process, last, success)

  max_rounds-run_one_round :
      (n : ℕ) (input : RoundInput W) (self : Trainer W)
      → (run_one_round add n input self).max_rounds ≡ self.max_rounds
  unfolding run_one_round default_process calculate_statistics process_round_result
      evaluate_and_save save_ckpts is_evaluation_conditions is_save_conditions
  max_rounds-run_one_round n input self = ground arith

  -- How a job ends up, after `last` rounds or less: with its model saved if the loop was broken off or
  -- the last round succeeded.
  pub record HasSaved (last : ℕ) (ran : Trainer W) : Type 0 where
    pub recorded : IsRecorded ran.round_id ran
    pub saved :
        (ran.round_id < last) ⊎ (status (inputs last).result ≡ true)
        → last_model ran.files ≡ some ran.weights

  IsRecorded-round_id :
      (n : ℕ) (self : Trainer W) → IsRecorded n self → IsRecorded self.round_id self
  IsRecorded-round_id n self h = subst (λ k. IsRecorded k self) (sym h.at_round) h

  save_ckpts-HasSaved :
      (last n : ℕ) (self : Trainer W) → IsRecorded n self → HasSaved last (save_ckpts none self)
  unfolding save_ckpts
  save_ckpts-HasSaved last n self h = record {
    recorded = IsRecorded-round_id n _ (save_ckpts-IsRecorded n self h);
    saved = λ _. refl;
  }

  run_one_round-HasSaved :
      (last n : ℕ) (self : Trainer W)
      → IsRecorded n self
      → self.max_rounds ≡ last
      → last ≡ suc n
      → HasSaved last (run_one_round add (suc n) (inputs (suc n)) self)
  run_one_round-HasSaved last n self h at_most sum =
      let h' = run_one_round-IsRecorded n self h in
      record {
        recorded = IsRecorded-round_id (suc n) _ h';
        saved = λ reason. elim reason [
          | inl early ↦ absurd (omega (arith, early, h'.at_round, sum))
          | inr success ↦
              run_one_round_saves (suc n) (inputs (suc n)) self h.process (at_most ∙ sum)
                (subst (λ k. status (inputs k).result ≡ true) sum success)
        ];
      }

  run_rounds-HasSaved :
      (last rounds_left n : ℕ) (self : Trainer W)
      → IsRecorded n self
      → self.max_rounds ≡ last
      → last ≡ n + suc rounds_left
      → HasSaved last (run_rounds add inputs (suc rounds_left) (suc n) self)
  unfolding run_rounds
  run_rounds-HasSaved last zero n self h at_most sum =
      if_holds (HasSaved last) self.force_stop (λ _. save_ckpts-HasSaved last n self h)
        (λ _. run_one_round-HasSaved last n self h at_most (omega (arith, sum)))
  run_rounds-HasSaved last (suc left) n self h at_most sum =
      if_holds (HasSaved last) self.force_stop (λ _. save_ckpts-HasSaved last n self h)
        (λ _.
          run_rounds-HasSaved last left (suc n) (run_one_round add (suc n) (inputs (suc n)) self)
            (run_one_round-IsRecorded n self h)
            (max_rounds-run_one_round (suc n) (inputs (suc n)) self ∙ at_most) (omega (arith, sum)))

  abbrev begin_job :
      (job_name job_v : ℕ) → HyperParameters → Dict CheckpointId Checkpoint → Trainer W
  begin_job job_name job_v hyper_params restored =
      record (new_trainer job_name job_v false hyper_params initial) {
        checkpoints = restored;
        state = running;
      }

  begin_job-IsRecorded :
      (job_name job_v : ℕ) (hyper_params : HyperParameters)
      (restored : Dict CheckpointId Checkpoint)
      → IsRecorded 0 (begin_job job_name job_v hyper_params restored)
  begin_job-IsRecorded job_name job_v hyper_params restored = record {
    process = refl;
    at_round = refl;
    model = refl;
    numbered = refl;
    held = tt;
  }

  run_rounds-recorded :
      (rounds_left n : ℕ) (self : Trainer W)
      → IsRecorded n self
      → All IsHeld (run_rounds add inputs rounds_left (suc n) self).files
        × IsNumbered
            (run_rounds add inputs rounds_left (suc n) self).files
            (run_rounds add inputs rounds_left (suc n) self).next_ckpt_id
  unfolding run_rounds
  run_rounds-recorded zero n self h = (h.held, h.numbered)
  run_rounds-recorded (suc rounds_left) n self h =
      let stop_h = save_ckpts-IsRecorded n self h in
      if_holds (λ (ran : Trainer W). All IsHeld ran.files × IsNumbered ran.files ran.next_ckpt_id)
        self.force_stop (λ _. (stop_h.held, stop_h.numbered))
        (λ _. run_rounds-recorded rounds_left (suc n) _ (run_one_round-IsRecorded n self h))

  -- The checkpoints of a job in the default process: each file, however it was saved, holds the model as
  -- it was after the round that it is named for, and no two files have the same number.
  pub start-IsHeld :
      (job_name job_v : ℕ) (hyper_params : HyperParameters)
      (restored : Dict CheckpointId Checkpoint)
      → let ended =
          start add restored inputs (new_trainer job_name job_v false hyper_params initial) in
        All IsHeld ended.files × IsNumbered ended.files ended.next_ckpt_id
  unfolding start
  start-IsHeld job_name job_v hyper_params restored =
      run_rounds-recorded hyper_params.max_round_num 0 _
        (begin_job-IsRecorded job_name job_v hyper_params restored)

  -- The model that a job in the default process ends with is the one saved last, provided that the job
  -- broke off before its last round or that its last round succeeded.
  start_saves :
      (job_name job_v : ℕ) (hyper_params : HyperParameters)
      (restored : Dict CheckpointId Checkpoint)
      → 0 < hyper_params.max_round_num
      → let ended =
          start add restored inputs (new_trainer job_name job_v false hyper_params initial) in
        (ended.round_id < hyper_params.max_round_num)
          ⊎ (status (inputs hyper_params.max_round_num).result ≡ true)
        → last_model ended.files ≡ some ended.weights
  unfolding start
  start_saves job_name job_v hyper_params restored some_rounds =
      saves hyper_params.max_round_num refl some_rounds
    where
      saves :
          (n : ℕ)
          → n ≡ hyper_params.max_round_num
          → 0 < n
          → let ran = run_rounds add inputs n 1 (begin_job job_name job_v hyper_params restored) in
            (ran.round_id < hyper_params.max_round_num)
              ⊎ (status (inputs hyper_params.max_round_num).result ≡ true)
            → last_model ran.files ≡ some ran.weights
      saves zero same positive = absurd (omega (arith, positive))
      saves (suc n) same positive =
          (run_rounds-HasSaved hyper_params.max_round_num n 0 _
            (begin_job-IsRecorded job_name job_v hyper_params restored) refl
            (omega (arith, same))).saved
