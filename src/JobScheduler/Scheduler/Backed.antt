-- ===== src/JobScheduler/Scheduler/Backed.antt =====
-- Every active job is in the database (neursafe_fl/python/job_scheduler/scheduler.py).
use yanshi_shield.Base.{
  ℕ, ◌≡◌, refl, ◌∙◌, Bool, true, false, not, Option, none, some, List, [], ◌∷◌, nat_beq, nat_eq,
  pair_eq, ◌==◌, if◌then◌else◌, Bool-cases, inl, inr, ok, raise_if, subst,
}
use yanshi_shield.Base.Dict.{Dict, lookup, contains, lookup-insert}
use yanshi_shield.JobScheduler.Job.{
  JobConfig, Stored, Job, Report, Operation, assert_operation_valid, assert_model_existing,
  assert_checkpoint_existing, persist, assert_given, update_operation, start_operation,
  stop_operation, delete_operation, queuing,
}
use yanshi_shield.JobScheduler.Job.Segments.{
  Segment, run, start_begins, stop_begins, delete_begins, updates, heartbeats, fresh_status,
}
use yanshi_shield.JobScheduler.Scheduler.{
  JobKey, Scheduler, replace_in_db, store_job, run_segment, create_job, find_job, operate, stop_job,
  delete_job, update_job, start_job, scheduler_heartbeat, schedule_next, Happening, creates,
  changes, starts, stops, deletes, beats, schedules, goes_on, happen, happen_all, new_job,
  run_found, find_object, find_active, find_stored, start_stored, heartbeat_found, schedule_object,
  schedule_from, created, queued, from_job, job_exist, job_not_exist, ids_differ, checkpoint_given,
}
use yanshi_shield.JobScheduler.Scheduler.Backing.{
  IsBacked, AllBacked, gave, raised, insert_both, present, lookup-replace_in_db, call_back-IsBacked,
  AllBacked-bind, AllBacked-then, IsBacked-scheduler_after,
}

-- A key that a segment leaves without a row had none before.
stored_missing :
    (unwritten : Bool) (key j : JobKey) (stored : Stored) (db : Dict JobKey Stored)
    → lookup j (if unwritten then db else replace_in_db key stored db) ≡ none
    → lookup j db ≡ none
stored_missing true key j stored db h = h
stored_missing false key j stored db h = lookup-replace_in_db key j stored db h

module _ (path_exists model_exists : ℕ → Bool) where
  run_found-IsBacked :
      (segment : Segment) (object : ℕ) (found : Option (JobKey × Job)) (self : Scheduler)
      → IsBacked self
      → IsBacked (run_found path_exists model_exists segment object found self)
  unfolding run_found
  run_found-IsBacked segment object none self h = h
  run_found-IsBacked segment object (some (key, job)) self h =
      let after = run path_exists model_exists segment job in
      call_back-IsBacked key after.1 (store_job object key job after.0 self) (λ j missing.
        h j
          (stored_missing (nat_beq after.0.writes job.writes) key j after.0.saved self.db missing))

  run_segment-IsBacked :
      (segment : Segment) (object : ℕ) (self : Scheduler)
      → IsBacked self
      → IsBacked (run_segment path_exists model_exists segment object self)
  unfolding run_segment
  run_segment-IsBacked segment object self h =
      run_found-IsBacked segment object (lookup object self.objects) self h

  create_job-AllBacked :
      (namespace : ℕ) (config : JobConfig) (self : Scheduler)
      → IsBacked self
      → AllBacked (create_job path_exists model_exists namespace config self)
  unfolding create_job
  create_job-AllBacked namespace config self h =
      let key : JobKey = (namespace, config.id) in
      let job =
        new_job (record { config = config; status = fresh_status queuing; checkpoints = [] }) in
      AllBacked-then (raise_if (contains key self.db) job_exist) _ (
        AllBacked-then
          (raise_if (elim config.checkpoint_id [ none ↦ false | some _ ↦ true ]) checkpoint_given) _
          (AllBacked-then (from_job (assert_model_existing path_exists model_exists config job)) _ (
            gave {self = created key job self} (λ j e.
              insert_both key j self.next_object job.saved self.active_jobs self.db (h j) e))))

  find_object-IsBacked :
      (key : JobKey) (stored : Stored) (found : Option (JobKey × Job)) (object : ℕ)
      (self : Scheduler)
      → IsBacked self
      → IsBacked (find_object path_exists model_exists key stored found object self).2
  unfolding find_object
  find_object-IsBacked key stored none object self h = h
  find_object-IsBacked key stored (some _) object self h = h

  find_active-IsBacked :
      (key : JobKey) (stored : Stored) (found : Option ℕ) (self : Scheduler)
      → IsBacked self
      → IsBacked (find_active path_exists model_exists key stored found self).2
  unfolding find_active
  find_active-IsBacked key stored none self h = find_object-IsBacked key stored none 0 self h
  find_active-IsBacked key stored (some object) self h =
      find_object-IsBacked key stored (lookup object self.objects) object self h

  find_stored-IsBacked :
      (key : JobKey) (stored : Option Stored) (self : Scheduler) (found : ℕ × Job × Scheduler)
      → IsBacked self
      → find_stored path_exists model_exists key stored self ≡ ok found
      → IsBacked found.2
  unfolding find_stored
  find_stored-IsBacked key none self found h e = absurd (cc)
  find_stored-IsBacked key (some stored) self found h e =
      let same : find_active path_exists model_exists key stored (lookup key self.active_jobs) self
          ≡ found =
        cc in
      subst (λ (f : ℕ × Job × Scheduler). IsBacked f.2) same
        (find_active-IsBacked key stored (lookup key self.active_jobs) self h)

  find_job-IsBacked :
      (key : JobKey) (self : Scheduler) (found : ℕ × Job × Scheduler)
      → IsBacked self
      → find_job path_exists model_exists key self ≡ ok found
      → IsBacked found.2
  unfolding find_job
  find_job-IsBacked key self found h e =
      find_stored-IsBacked key (lookup key self.db) self found h e

  operate-AllBacked :
      (operation : Operation) (segment : Segment) (key : JobKey) (self : Scheduler)
      → IsBacked self
      → AllBacked (operate path_exists model_exists operation segment key self)
  unfolding operate
  operate-AllBacked operation segment key self h =
      AllBacked-bind (find_job path_exists model_exists key self) _ (λ found e.
        AllBacked-then (from_job (assert_operation_valid operation found.1)) _ (
          gave
            (run_segment-IsBacked segment found.0 found.2 (find_job-IsBacked key self found h e))))

  update_job-AllBacked :
      (key : JobKey) (config : JobConfig) (self : Scheduler)
      → IsBacked self
      → AllBacked (update_job path_exists model_exists key config self)
  unfolding update_job
  update_job-AllBacked key config self h =
      AllBacked-then (raise_if (not (contains key self.db)) job_not_exist) _ (
        AllBacked-then (raise_if (not (nat_beq key.1 config.id)) ids_differ) _ (
          AllBacked-bind (find_job path_exists model_exists key self) _ (λ found e.
            AllBacked-then (from_job (assert_operation_valid update_operation found.1)) _ (
              AllBacked-then
                (from_job (assert_model_existing path_exists model_exists config found.1)) _
                (gave (
                  run_segment-IsBacked (updates config) found.0 found.2
                    (find_job-IsBacked key self found h e)))))))

  -- A job that is queued again is in the database.
  queued-IsBacked :
      (key : JobKey) (stored : Stored) (job : Job) (self : Scheduler)
      → lookup key self.db ≡ some stored
      → IsBacked self
      → IsBacked (queued key job self)
  queued-IsBacked key stored job self found h j missing =
      let gone = lookup-replace_in_db key j (persist job).saved self.db missing in
      elim (Bool-cases (key == j)) [
        | inl same ↦ absurd (present key j stored self.db same found gone)
        | inr other ↦ lookup-insert j key self.next_object self.active_jobs ∙ rw other (h j gone)
      ]

  start_stored-AllBacked :
      (key : JobKey) (found : Option Stored) (self : Scheduler)
      → lookup key self.db ≡ found
      → IsBacked self
      → AllBacked (start_stored path_exists model_exists key found self)
  unfolding start_stored
  start_stored-AllBacked key none self e h = raised
  start_stored-AllBacked key (some stored) self e h =
      elim (Bool-cases (contains key self.active_jobs)) [
        | inl active ↦ rw active (operate-AllBacked start_operation start_begins key self h)
        | inr idle ↦ rw idle (
            AllBacked-then
              (from_job (
                assert_given stored.config.checkpoint_id
                  (λ c. assert_checkpoint_existing path_exists c (new_job stored))))
              _ (gave (queued-IsBacked key stored (new_job stored) self e h)))
      ]

  delete_job-AllBacked :
      (key : JobKey) (self : Scheduler)
      → IsBacked self
      → AllBacked (delete_job path_exists model_exists key self)
  delete_job-AllBacked key self h = elim (Bool-cases (contains key self.db)) [
    | inl there ↦ rw there (operate-AllBacked delete_operation delete_begins key self h)
    | inr away ↦ rw away (gave h)
  ]

  heartbeat_found-IsBacked :
      (found : Option ℕ) (report : Report) (self : Scheduler)
      → IsBacked self
      → IsBacked (heartbeat_found path_exists model_exists found report self)
  unfolding heartbeat_found
  heartbeat_found-IsBacked none report self h = h
  heartbeat_found-IsBacked (some object) report self h =
      run_segment-IsBacked (heartbeats report) object self h

  schedule_object-IsBacked :
      (object : ℕ) (found : Option (JobKey × Job)) (self : Scheduler)
      → IsBacked self
      → IsBacked (schedule_object path_exists model_exists object found self)
  unfolding schedule_object
  schedule_object-IsBacked object none self h = h
  schedule_object-IsBacked object (some (key, _)) self h =
      elim (Bool-cases (contains key self.active_jobs)) [
        | inl active ↦ rw active (run_segment-IsBacked start_begins object self h)
        | inr idle ↦ rw idle h
      ]

  schedule_from-IsBacked :
      (queue : List ℕ) (self : Scheduler)
      → IsBacked self
      → IsBacked (schedule_from path_exists model_exists queue self)
  unfolding schedule_from
  schedule_from-IsBacked [] self h = h
  schedule_from-IsBacked (object ∷ rest) self h =
      schedule_object-IsBacked object (lookup object self.objects)
        (record self { jobs_queue = rest }) h

  happen-IsBacked :
      (happening : Happening) (self : Scheduler)
      → IsBacked self
      → IsBacked (happen path_exists model_exists happening self)
  unfolding happen start_job scheduler_heartbeat schedule_next
  happen-IsBacked (creates namespace config) self h =
      IsBacked-scheduler_after (create_job path_exists model_exists namespace config self) self
        (create_job-AllBacked namespace config self h) h
  happen-IsBacked (changes key config) self h =
      IsBacked-scheduler_after (update_job path_exists model_exists key config self) self
        (update_job-AllBacked key config self h) h
  happen-IsBacked (starts key) self h =
      IsBacked-scheduler_after (start_stored path_exists model_exists key (lookup key self.db) self)
        self (start_stored-AllBacked key (lookup key self.db) self refl h) h
  happen-IsBacked (stops key) self h =
      IsBacked-scheduler_after (stop_job path_exists model_exists key self) self
        (operate-AllBacked stop_operation stop_begins key self h) h
  happen-IsBacked (deletes key) self h =
      IsBacked-scheduler_after (delete_job path_exists model_exists key self) self
        (delete_job-AllBacked key self h) h
  happen-IsBacked (beats key report) self h =
      heartbeat_found-IsBacked (lookup key self.active_jobs) report self h
  happen-IsBacked schedules self h = schedule_from-IsBacked self.jobs_queue self h
  happen-IsBacked (goes_on segment object) self h = run_segment-IsBacked segment object self h

  -- Whatever is asked of the scheduler and however its jobs go on, in any order: if at first every
  -- active job is in the database, it stays so.
  pub happen_all-IsBacked :
      (happenings : List Happening) (self : Scheduler)
      → IsBacked self
      → IsBacked (happen_all path_exists model_exists happenings self)
  unfolding happen_all
  happen_all-IsBacked [] self h = h
  happen_all-IsBacked (happening ∷ rest) self h =
      happen_all-IsBacked rest _ (happen-IsBacked happening self h)
