-- ===== src/Client/Tasks/Leaking.antt =====
-- What becomes of a task whose files could not be saved (neursafe_fl/python/client/task.py, `execute`).
use yanshi_shield.Base.{
  ℕ, ◌≡◌, refl, sym, ap, ◌∙◌, Bool, true, false, not, ◌&&◌, Option, none, some, List, [], ◌∷◌,
  if◌then◌else◌, nat_eq, pair_eq, ◌==◌, arith, Result, ok, raise, Bool-cases, if_holds, inl, inr,
}
use yanshi_shield.Base.Dict.{Dict, lookup, insert, erase, contains, lookup-insert, lookup-erase}
use yanshi_shield.Client.Tasks.{
  ResourceLayer, TaskKey, preparing, executing, given_up, Task, TaskManager, Prepared, well,
  refused, broken, Ended, succeeded, fl_error, was_cancelled, crashed, CreateError, prepared,
  do_execute, cancel, create_task, create, do_finish, ended, TaskEvent, creates, prepares, ends,
  stops, is_executing, is_preparing, may_end, happen, happen_all,
}
use yanshi_shield.Client.Tasks.Held.{same_key, IsHeld, holds_found}
use yanshi_shield.Client.Tasks.Running.{missing_of, happen_all-IsHeld, lost_after}

abbrev is_given_up : Option Task → Bool
is_given_up none = false
is_given_up (some task) = not (is_preparing task.phase) && not (is_executing task.phase)

true_is_not_false : true ≡ false → ⊥
true_is_not_false h = cc

module _ (key : TaskKey) (task : Task) where
  -- Whatever is not given up is under another key than what is.
  apart :
      (other : TaskKey) (found : Option Task) (tasks : Dict TaskKey Task)
      → is_given_up (some task) ≡ true
      → lookup other tasks ≡ found
      → is_given_up found ≡ false
      → lookup key tasks ≡ some task
      → (other == key) ≡ false
  apart other found tasks gone there active here = elim (Bool-cases (other == key)) [
    | inr h ↦ h
    | inl h ↦ absurd (
        true_is_not_false (
          sym gone
          ∙ ap is_given_up
              (sym here ∙ ap (λ k. lookup k tasks) (sym (same_key other key h)) ∙ there)
          ∙ active))
  ]

  otherwise :
      (b : Bool) (first second : Option Task)
      → b ≡ false
      → second ≡ some task
      → (if b then first else second) ≡ some task
  otherwise b first second differ h = rw differ h

  insert_other :
      (other : TaskKey) (changed : Task) (tasks : Dict TaskKey Task)
      → (other == key) ≡ false
      → lookup key tasks ≡ some task
      → lookup key (insert other changed tasks) ≡ some task
  insert_other other changed tasks differ h =
      lookup-insert key other changed tasks
      ∙ otherwise (other == key) (some changed) (lookup key tasks) differ h

  erase_other :
      (other : TaskKey) (tasks : Dict TaskKey Task)
      → (other == key) ≡ false
      → lookup key tasks ≡ some task
      → lookup key (erase other tasks) ≡ some task
  erase_other other tasks differ h =
      lookup-erase key other tasks ∙ otherwise (other == key) none (lookup key tasks) differ h

active_preparing : (t : Task) → is_preparing t.phase ≡ true → is_given_up (some t) ≡ false
active_preparing t h = ground (arith, h)

active_executing : (t : Task) → is_executing t.phase ≡ true → is_given_up (some t) ≡ false
active_executing t h = ground (arith, h)

module _ {S Q Spec E : Type 0} (layer : ResourceLayer S Q Spec E)
    (gen_task_id : TaskKey → (time : ℕ) → ℕ) (key : TaskKey) (task : Task) where
  -- The task is still the one under its key.
  abbrev Stays : TaskManager S → Type 0
  Stays self = lookup key self.tasks ≡ some task

  prepared-Stays :
      (other : TaskKey) (t : Task) (outcome : Prepared) (self : TaskManager S)
      → (other == key) ≡ false
      → Stays self
      → Stays (prepared other t outcome self)
  unfolding prepared
  prepared-Stays other t well self differ h =
      insert_other key task other (record t { phase = executing }) self.tasks differ h
  prepared-Stays other t refused self differ h =
      insert_other key task other (record t { phase = given_up }) self.tasks differ h
  prepared-Stays other t broken self differ h =
      insert_other key task other (record t { phase = given_up }) self.tasks differ h

  ended-Stays :
      (other : TaskKey) (t : Task) (outcome : Ended) (self : TaskManager S)
      → (other == key) ≡ false
      → Stays self
      → Stays (ended layer other t outcome self)
  unfolding ended do_execute do_finish
  ended-Stays other t succeeded self differ h = erase_other key task other self.tasks differ h
  ended-Stays other t fl_error self differ h = erase_other key task other self.tasks differ h
  ended-Stays other t was_cancelled self differ h = erase_other key task other self.tasks differ h
  ended-Stays other t crashed self differ h = erase_other key task other self.tasks differ h

  create_task-Stays :
      (other : TaskKey) (task_id : ℕ) (is_saved : Bool) (answer : S × Result E Spec)
      (self : TaskManager S)
      → (other == key) ≡ false
      → Stays self
      → Stays (create_task layer other task_id is_saved answer self).0
  unfolding create_task
  create_task-Stays other task_id is_saved (resources, raise e) self differ h = h
  create_task-Stays other task_id false (resources, ok spec) self differ h = h
  create_task-Stays other task_id true (resources, ok spec) self differ h =
      insert_other key task other
        (record { task_id = task_id; phase = preparing; cancelled = false }) self.tasks differ h

  -- What is done to a task that is found, and nothing where none is
  found-Stays :
      (self : TaskManager S) (found : Option Task) (change : Task → TaskManager S)
      → ((t : Task) → found ≡ some t → Stays (change t))
      → Stays self
      → Stays (elim found [ none ↦ self | some t ↦ change t ])
  found-Stays self none change h stays = stays
  found-Stays self (some t) change h stays = h t refl

  happen-Stays :
      (event : TaskEvent Q) (self : TaskManager S)
      → is_given_up (some task) ≡ true
      → Stays self
      → Stays (happen layer gen_task_id event self)
  unfolding happen create cancel
  happen-Stays (creates other time is_new is_saved q) self gone h =
      if_holds (λ (r : TaskManager S × Result (CreateError E) Spec). Stays r.0)
        (contains other self.tasks) (λ _. h)
        (λ free.
          if_holds (λ (r : TaskManager S × Result (CreateError E) Spec). Stays r.0) is_new
            (λ _.
              create_task-Stays other (gen_task_id other time) is_saved
                (layer.request (gen_task_id other time) q self.resources) self
                (apart key task other none self.tasks gone (missing_of other self.tasks free) refl
                  h)
                h)
            (λ _. h))
  happen-Stays (prepares other outcome) self gone h =
      found-Stays self (lookup other self.tasks)
        (λ t. if is_preparing t.phase then prepared other t outcome self else self)
        (λ t found.
          if_holds Stays (is_preparing t.phase)
            (λ active.
              prepared-Stays other t outcome self
                (apart key task other (some t) self.tasks gone found (active_preparing t active) h)
                h)
            (λ _. h))
        h
  happen-Stays (ends other outcome) self gone h =
      found-Stays self (lookup other self.tasks)
        (λ t.
          if is_executing t.phase && may_end t outcome
          then ended layer other t outcome self
          else self)
        (λ t found.
          if_holds Stays (is_executing t.phase && may_end t outcome)
            (λ active.
              ended-Stays other t outcome self
                (apart key task other (some t) self.tasks gone found
                  (active_executing t (ground (arith, active))) h)
                h)
            (λ _. h))
        h
  happen-Stays (stops other) self gone h =
      found-Stays self (lookup other self.tasks) (λ t. cancel other t self)
        (λ t found.
          if_holds Stays (is_executing t.phase)
            (λ active.
              insert_other key task other (record t { cancelled = true }) self.tasks
                (apart key task other (some t) self.tasks gone found (active_executing t active) h)
                h)
            (λ _. h))
        h

  happen_all-Stays :
      (events : List (TaskEvent Q)) (self : TaskManager S)
      → is_given_up (some task) ≡ true
      → Stays self
      → Stays (happen_all layer gen_task_id events self)
  unfolding happen_all
  happen_all-Stays [] self gone h = h
  happen_all-Stays (event ∷ later) self gone h =
      happen_all-Stays later (happen layer gen_task_id event self) gone
        (happen-Stays event self gone h)

-- A task whose files could not be saved is never taken from the manager, and it holds its resources
-- whatever happens from then on.
pub given_up_leaks :
    {S Q Spec E : Type 0} (layer : ResourceLayer S Q Spec E) (key_of : ℕ → TaskKey)
    (gen_task_id : TaskKey → (time : ℕ) → ℕ)
    (readable : (key : TaskKey) (time : ℕ) → key_of (gen_task_id key time) ≡ key) (lost : ℕ → Bool)
    (key : TaskKey) (task : Task) (events : List (TaskEvent Q)) (self : TaskManager S)
    → IsHeld layer key_of lost self
    → lookup key self.tasks ≡ some task
    → task.phase ≡ given_up
    → (lookup key (happen_all layer gen_task_id events self).tasks ≡ some task)
      × (layer.holds task.task_id (happen_all layer gen_task_id events self).resources ≡ true)
given_up_leaks layer key_of gen_task_id readable lost key task events self held here gone =
    let stays =
      happen_all-Stays layer gen_task_id key task events self (ground (arith, gone)) here in
    let after = happen_all-IsHeld layer key_of gen_task_id readable lost events self held in
    (
      stays,
      holds_found layer key_of (lost_after gen_task_id events lost) key task
          (lookup key (happen_all layer gen_task_id events self).tasks) stays (after.0 key),
    )
