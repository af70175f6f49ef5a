-- ===== src/Client/Tasks/Running.antt =====
-- Whatever happens to the tasks of a client (neursafe_fl/python/client/task_manager.py,
-- neursafe_fl/python/client/task.py).
use yanshi_shield.Base.{
  ℕ, ◌≡◌, refl, Bool, true, false, not, ◌&&◌, ◌||◌, nat_beq, beq_refl, Option, none, some, List, [],
  ◌∷◌, if◌then◌else◌, nat_eq, pair_eq, arith, Result, Option-cases, if_holds, inl, inr,
}
use yanshi_shield.Base.Dict.{Dict, lookup, contains}
use yanshi_shield.Client.Tasks.{
  ResourceLayer, TaskKey, Task, TaskManager, CreateError, prepared, cancel, create, ended,
  TaskEvent, creates, prepares, ends, stops, is_executing, is_preparing, may_end, happen,
  happen_all,
}
use yanshi_shield.Client.Tasks.Held.{IsHeld, IsHolding}
use yanshi_shield.Client.Tasks.Changes.{
  create_task-IsHeld, prepared-IsHeld, ended-IsHeld, cancel-IsHeld,
}

pub missing_of :
    (key : TaskKey) (tasks : Dict TaskKey Task)
    → contains key tasks ≡ false
    → lookup key tasks ≡ none
unfolding contains
missing_of key tasks h = elim (Option-cases (lookup key tasks)) [
  | inl missing ↦ missing
  | inr (task, found) ↦ absurd (ground (arith, h, found))
]

-- The ids of the tasks whose rows could not be saved, besides those lost before
abbrev pub lost_by :
    {Q : Type 0} → (gen_task_id : TaskKey → (time : ℕ) → ℕ) → TaskEvent Q → (ℕ → Bool) → (ℕ → Bool)
lost_by gen_task_id (creates key time is_new is_saved q) lost =
    λ id. lost id || (not is_saved && nat_beq (gen_task_id key time) id)
lost_by gen_task_id _ lost = lost

abbrev pub lost_after :
    {Q : Type 0}
    → (gen_task_id : TaskKey → (time : ℕ) → ℕ) → List (TaskEvent Q)
    → (ℕ → Bool)
    → (ℕ → Bool)
lost_after gen_task_id [] lost = lost
lost_after gen_task_id (event ∷ later) lost =
    lost_after gen_task_id later (lost_by gen_task_id event lost)

module _ {S Q Spec E : Type 0} (layer : ResourceLayer S Q Spec E) (key_of : ℕ → TaskKey) where
  more_lost :
      (lost others : ℕ → Bool) (self : TaskManager S)
      → IsHeld layer key_of lost self
      → IsHeld layer key_of (λ id. lost id || others id) self
  more_lost lost others self (holding, owned) = (
    λ k. same_holding k (lookup k self.tasks) (holding k),
    λ id. elim (owned id) [
      | inl free ↦ inl free
      | inr (inl known) ↦ inr (inl known)
      | inr (inr gone) ↦ inr (inr (ground (arith, gone)))
    ],
  )
    where
      same_holding :
          (k : TaskKey) (found : Option Task)
          → IsHolding layer key_of lost self.resources k found
          → IsHolding layer key_of (λ id. lost id || others id) self.resources k found
      same_holding k none h = h
      same_holding k (some task) h = h

module _ {S Q Spec E : Type 0} (layer : ResourceLayer S Q Spec E) (key_of : ℕ → TaskKey)
    (gen_task_id : TaskKey → (time : ℕ) → ℕ)
    (readable : (key : TaskKey) (time : ℕ) → key_of (gen_task_id key time) ≡ key) where
  -- What is done to a task that is found, and nothing where none is
  on_found :
      (lost : ℕ → Bool) (self : TaskManager S) (found : Option Task) (change : Task → TaskManager S)
      → ((task : Task) → found ≡ some task → IsHeld layer key_of lost (change task))
      → IsHeld layer key_of lost self
      → IsHeld layer key_of lost (elim found [ none ↦ self | some task ↦ change task ])
  on_found lost self none change h held = held
  on_found lost self (some task) change h held = h task refl

  create-IsHeld :
      (lost : ℕ → Bool) (self : TaskManager S) (key : TaskKey) (time : ℕ) (is_new is_saved : Bool)
      (q : Q)
      → (is_saved ≡ false → lost (gen_task_id key time) ≡ true)
      → IsHeld layer key_of lost self
      → IsHeld layer key_of lost (create layer key (gen_task_id key time) is_new is_saved q self).0
  unfolding create
  create-IsHeld lost self key time is_new is_saved q unsaved h =
      if_holds (λ (r : TaskManager S × Result (CreateError E) Spec). IsHeld layer key_of lost r.0)
        (contains key self.tasks) (λ _. h)
        (λ free.
          if_holds
            (λ (r : TaskManager S × Result (CreateError E) Spec). IsHeld layer key_of lost r.0)
            is_new
            (λ _.
              create_task-IsHeld layer key_of lost self key (gen_task_id key time) is_saved q
                (missing_of key self.tasks free) (readable key time) unsaved h)
            (λ _. h))

  happen-IsHeld :
      (lost : ℕ → Bool) (event : TaskEvent Q) (self : TaskManager S)
      → IsHeld layer key_of lost self
      → IsHeld layer key_of (lost_by gen_task_id event lost) (happen layer gen_task_id event self)
  unfolding happen
  happen-IsHeld lost (creates key time is_new is_saved q) self h =
      create-IsHeld (lost_by gen_task_id (creates key time is_new is_saved q) lost) self key time
        is_new is_saved q (λ unsaved. ground (arith, unsaved, beq_refl (gen_task_id key time)))
        (more_lost layer key_of lost (λ id. not is_saved && nat_beq (gen_task_id key time) id) self
          h)
  happen-IsHeld lost (prepares key outcome) self h =
      on_found lost self (lookup key self.tasks)
        (λ task. if is_preparing task.phase then prepared key task outcome self else self)
        (λ task found.
          if_holds (IsHeld layer key_of lost) (is_preparing task.phase)
            (λ _. prepared-IsHeld layer key_of lost self key task outcome found h) (λ _. h))
        h
  happen-IsHeld lost (ends key outcome) self h =
      on_found lost self (lookup key self.tasks)
        (λ task.
          if is_executing task.phase && may_end task outcome
          then ended layer key task outcome self
          else self)
        (λ task found.
          if_holds (IsHeld layer key_of lost) (is_executing task.phase && may_end task outcome)
            (λ _. ended-IsHeld layer key_of lost self key task outcome found h) (λ _. h))
        h
  happen-IsHeld lost (stops key) self h =
      on_found lost self (lookup key self.tasks) (λ task. cancel key task self)
        (λ task found. cancel-IsHeld layer key_of lost self key task found h) h

  -- Where an id tells the key of its task: whatever happens to the tasks of a client, every task that the
  -- manager knows holds resources under its id. Whoever holds resources is a task that it knows, or its id
  -- is that of a creation whose row could not be saved in the database, if not lost before.
  pub happen_all-IsHeld :
      (lost : ℕ → Bool) (events : List (TaskEvent Q)) (self : TaskManager S)
      → IsHeld layer key_of lost self
      → IsHeld layer key_of
          (lost_after gen_task_id events lost)
          (happen_all layer gen_task_id events self)
  unfolding happen_all
  happen_all-IsHeld lost [] self h = h
  happen_all-IsHeld lost (event ∷ later) self h =
      happen_all-IsHeld (lost_by gen_task_id event lost) later (happen layer gen_task_id event self)
        (happen-IsHeld lost event self h)
