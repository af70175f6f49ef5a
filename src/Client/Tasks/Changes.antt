-- ===== src/Client/Tasks/Changes.antt =====
-- Each change of a client's tasks keeps their resources in step with them
-- (neursafe_fl/python/client/task_manager.py, neursafe_fl/python/client/task.py).
use yanshi_shield.Base.{
  ℕ, ◌≡◌, refl, sym, ap, ◌∙◌, subst, Bool, true, false, none, some, nat_beq, nat_eq, pair_eq, ◌==◌,
  beq-cases, Result, ok, raise, if_holds, inl, inr,
}
use yanshi_shield.Base.Dict.{lookup, insert, lookup-insert, lookup-erase}
use yanshi_shield.Client.Tasks.{
  ResourceLayer, TaskKey, TaskStatus, preparing, executing, given_up, Task, TaskManager, Prepared,
  well, refused, broken, Ended, succeeded, fl_error, was_cancelled, crashed, prepared, do_execute,
  cancel, create_task, do_finish, ended, is_executing,
}
use yanshi_shield.Client.Tasks.Held.{
  same_key, differs_not, chosen, not_chosen, same_task, none_is_not_some, IsHolding, IsOwned,
  IsHeld, moved-IsHolding, moved-IsOwned, other_id, insert-IsHeld,
}

module _ {S Q Spec E : Type 0} (layer : ResourceLayer S Q Spec E) (key_of : ℕ → TaskKey)
    (lost : ℕ → Bool) where
  -- A request after which no task is added
  left-IsHeld :
      (self : TaskManager S) (key : TaskKey) (task_id : ℕ) (resources : S)
      → lookup key self.tasks ≡ none
      → key_of task_id ≡ key
      → ((id : ℕ)
          → nat_beq task_id id ≡ false
          → layer.holds id resources ≡ layer.holds id self.resources)
      → IsOwned layer key_of lost resources task_id (lookup (key_of task_id) self.tasks)
      → IsHeld layer key_of lost self
      → IsHeld layer key_of lost (record self { resources = resources })
  left-IsHeld self key task_id resources missing named others own (holding, owned) = (
    λ k. elim (beq-cases key k) [
      | inl (_, same) ↦
          subst (IsHolding layer key_of lost resources k)
            (sym (sym (ap (λ k'. lookup k' self.tasks) same) ∙ missing)) tt
      | inr (other, _) ↦
          moved-IsHolding layer key_of lost self.resources resources k (lookup k self.tasks)
            (λ id at_k. others id (other_id layer key_of lost key k task_id id named at_k other))
            (holding k)
    ],
    λ id. elim (beq-cases task_id id) [
      | inl (_, same) ↦
          subst (λ (i : ℕ). IsOwned layer key_of lost resources i (lookup (key_of i) self.tasks))
            same own
      | inr (other, _) ↦
          moved-IsOwned layer key_of lost self.resources resources id
            (lookup (key_of id) self.tasks) (others id other) (owned id)
    ],
  )

  -- A creation, under the key of its id; where its row cannot be saved, its id counts as lost.
  pub create_task-IsHeld :
      (self : TaskManager S) (key : TaskKey) (task_id : ℕ) (is_saved : Bool) (q : Q)
      → lookup key self.tasks ≡ none
      → key_of task_id ≡ key
      → (is_saved ≡ false → lost task_id ≡ true)
      → IsHeld layer key_of lost self
      → IsHeld layer key_of lost
          (create_task layer key task_id is_saved (layer.request task_id q self.resources) self).0
  unfolding create_task
  create_task-IsHeld self key task_id is_saved q missing named unsaved (holding, owned) =
      requested is_saved unsaved (layer.request task_id q self.resources)
        (layer.holds-granted task_id q self.resources)
        (layer.holds-refused task_id q self.resources)
        (λ id. layer.holds-request_other id task_id q self.resources)
    where
      requested :
          (is_saved : Bool)
          → (is_saved ≡ false → lost task_id ≡ true)
          → (answer : S × Result E Spec)
          → ((spec : Spec) → answer.1 ≡ ok spec → layer.holds task_id answer.0 ≡ true)
          → ((e : E)
              → layer.holds task_id self.resources ≡ false
              → answer.1 ≡ raise e
              → layer.holds task_id answer.0 ≡ false)
          → ((id : ℕ)
              → nat_beq task_id id ≡ false
              → layer.holds id answer.0 ≡ layer.holds id self.resources)
          → IsHeld layer key_of lost (create_task layer key task_id is_saved answer self).0
      requested is_saved unsaved (resources, raise e) granted refusal others =
          left-IsHeld self key task_id resources missing named others
            (elim (owned task_id) [
              | inl free ↦ inl (refusal e free refl)
              | inr (inl (t, at, is)) ↦ absurd (
                  none_is_not_some t (sym missing ∙ ap (λ k. lookup k self.tasks) (sym named) ∙ at))
              | inr (inr gone) ↦ inr (inr gone)
            ])
            (holding, owned)
      requested false unsaved (resources, ok spec) granted refusal others =
          left-IsHeld self key task_id resources missing named others (inr (inr (unsaved refl)))
            (holding, owned)
      requested true unsaved (resources, ok spec) granted refusal others =
          let task : Task = record { task_id = task_id; phase = preparing; cancelled = false } in
          (
            λ k.
                subst (IsHolding layer key_of lost resources k)
                  (sym (lookup-insert k key task self.tasks))
                  (if_holds (IsHolding layer key_of lost resources k) (key == k)
                    (λ here. (named ∙ same_key key k here, granted spec refl))
                    (λ other.
                      moved-IsHolding layer key_of lost self.resources resources k
                        (lookup k self.tasks)
                        (λ id at_k.
                          others id (other_id layer key_of lost key k task_id id named at_k other))
                        (holding k))),
            λ id.
                subst (IsOwned layer key_of lost resources id)
                  (sym (lookup-insert (key_of id) key task self.tasks))
                  (elim (beq-cases task_id id) [
                    | inl (_, e') ↦
                        if_holds (IsOwned layer key_of lost resources id) (key == key_of id)
                          (λ _. inr (inl (task, refl, e')))
                          (λ other.
                            absurd (differs_not key (key_of id) (sym named ∙ ap key_of e') other))
                    | inr (other, _) ↦
                        if_holds (IsOwned layer key_of lost resources id) (key == key_of id)
                          (λ here. elim (owned id) [
                            | inl free ↦ inl (others id other ∙ free)
                            | inr (inr gone) ↦ inr (inr gone)
                            | inr (inl (t, at, is)) ↦ absurd (
                                none_is_not_some t (
                                  sym missing
                                  ∙ ap (λ k. lookup k self.tasks) (same_key key (key_of id) here)
                                  ∙ at))
                          ])
                          (λ _.
                            moved-IsOwned layer key_of lost self.resources resources id
                              (lookup (key_of id) self.tasks) (others id other) (owned id))
                  ]),
          )

  -- A task that is finished gives its resources back.
  do_finish-IsHeld :
      (self : TaskManager S) (key : TaskKey) (task : Task)
      → lookup key self.tasks ≡ some task
      → IsHeld layer key_of lost self
      → IsHeld layer key_of lost (do_finish layer key task self)
  unfolding do_finish
  do_finish-IsHeld self key task found (holding, owned) =
      let resources = layer.release task.task_id self.resources in
      let named : key_of task.task_id ≡ key =
        (subst (IsHolding layer key_of lost self.resources key) found (holding key)).0 in
      (
        λ k. subst (IsHolding layer key_of lost resources k) (sym (lookup-erase k key self.tasks)) (
            if_holds (IsHolding layer key_of lost resources k) (key == k) (λ _. tt)
              (λ other.
                moved-IsHolding layer key_of lost self.resources resources k (lookup k self.tasks)
                  (λ id at_k.
                    layer.holds-release id task.task_id self.resources
                    ∙ not_chosen (nat_beq task.task_id id) (layer.holds id self.resources)
                        (other_id layer key_of lost key k task.task_id id named at_k other))
                  (holding k))),
        λ id.
            subst (IsOwned layer key_of lost resources id)
              (sym (lookup-erase (key_of id) key self.tasks))
              (elim (beq-cases task.task_id id) [
                | inl (here, _) ↦ inl (
                    layer.holds-release id task.task_id self.resources
                    ∙ chosen (nat_beq task.task_id id) (layer.holds id self.resources) here)
                | inr (other, _) ↦
                    let same =
                      layer.holds-release id task.task_id self.resources
                      ∙ not_chosen (nat_beq task.task_id id) (layer.holds id self.resources)
                          other in
                    if_holds (IsOwned layer key_of lost resources id) (key == key_of id)
                      (λ here. elim (owned id) [
                        | inl free ↦ inl (same ∙ free)
                        | inr (inr gone) ↦ inr (inr gone)
                        | inr (inl (t, at, is)) ↦ absurd (
                            differs_not task.task_id id
                              (same_task (
                                  sym found
                                  ∙ ap (λ k. lookup k self.tasks) (same_key key (key_of id) here)
                                  ∙ at)
                                ∙ is)
                              other)
                      ])
                      (λ _.
                        moved-IsOwned layer key_of lost self.resources resources id
                          (lookup (key_of id) self.tasks) same (owned id))
              ]),
      )

  pub prepared-IsHeld :
      (self : TaskManager S) (key : TaskKey) (task : Task) (outcome : Prepared)
      → lookup key self.tasks ≡ some task
      → IsHeld layer key_of lost self
      → IsHeld layer key_of lost (prepared key task outcome self)
  unfolding prepared
  prepared-IsHeld self key task well found h =
      insert-IsHeld layer key_of lost self key task (record task { phase = executing }) self.rows
        found refl h
  prepared-IsHeld self key task refused found h =
      insert-IsHeld layer key_of lost self key task (record task { phase = given_up })
        (insert task.task_id TaskStatus.failed self.rows) found refl h
  prepared-IsHeld self key task broken found h =
      insert-IsHeld layer key_of lost self key task (record task { phase = given_up }) self.rows
        found refl h

  pub ended-IsHeld :
      (self : TaskManager S) (key : TaskKey) (task : Task) (outcome : Ended)
      → lookup key self.tasks ≡ some task
      → IsHeld layer key_of lost self
      → IsHeld layer key_of lost (ended layer key task outcome self)
  unfolding ended do_execute do_finish
  ended-IsHeld self key task succeeded found h = do_finish-IsHeld self key task found h
  ended-IsHeld self key task fl_error found h = do_finish-IsHeld self key task found h
  ended-IsHeld self key task was_cancelled found h = do_finish-IsHeld self key task found h
  ended-IsHeld self key task crashed found h = do_finish-IsHeld self key task found h

  pub cancel-IsHeld :
      (self : TaskManager S) (key : TaskKey) (task : Task)
      → lookup key self.tasks ≡ some task
      → IsHeld layer key_of lost self
      → IsHeld layer key_of lost (cancel key task self)
  unfolding cancel
  cancel-IsHeld self key task found h =
      if_holds (IsHeld layer key_of lost) (is_executing task.phase)
        (λ _.
          insert-IsHeld layer key_of lost self key task (record task { cancelled = true }) self.rows
            found refl h)
        (λ _. h)
