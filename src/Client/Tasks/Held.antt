-- ===== src/Client/Tasks/Held.antt =====
-- The resources of a client are held by the tasks that its manager knows
-- (neursafe_fl/python/client/task_manager.py).
use yanshi_shield.Base.{
  ℕ, ◌≡◌, refl, sym, ap, ◌∙◌, subst, Bool, true, false, Option, none, some, if◌then◌else◌, nat_beq,
  nat_eq, pair_eq, Eq, ◌==◌, beq-cases, arith, if_holds, inl, inr, ◌⊎◌,
}
use yanshi_shield.Base.Dict.{Dict, lookup, insert, lookup-insert}
use yanshi_shield.Client.Tasks.{ResourceLayer, TaskKey, TaskStatus, Task, TaskManager}

pub same_key : (a b : TaskKey) → (a == b) ≡ true → a ≡ b
same_key a b h = elim (beq-cases a b) [
  | inl (_, same) ↦ same
  | inr (differ, _) ↦ absurd (true_is_not_false (sym h ∙ differ))
]
  where
    true_is_not_false : true ≡ false → ⊥
    true_is_not_false h = cc

pub differs_not : {A : Type 0} ⦃e : Eq A⦄ (a b : A) → a ≡ b → (a == b) ≡ false → ⊥
differs_not a b same differ = elim (beq-cases a b) [
  | inl (h, _) ↦ ground (arith, h, differ)
  | inr (_, other) ↦ other same
]

pub chosen : (b c : Bool) → b ≡ true → (if b then false else c) ≡ false
chosen b c h = rw h refl

pub not_chosen : (b c : Bool) → b ≡ false → (if b then false else c) ≡ c
not_chosen b c h = rw h refl

abbrev id_found : Option Task → ℕ
id_found none = 0
id_found (some task) = task.task_id

pub same_task : {a b : Task} → ◌≡◌ {A = Option Task} (some a) (some b) → a.task_id ≡ b.task_id
same_task h = ap id_found h

pub none_is_not_some : (t : Task) → ◌≡◌ {A = Option Task} none (some t) → ⊥
none_is_not_some t h = cc

module _ {S Q Spec E : Type 0} (layer : ResourceLayer S Q Spec E) (key_of : ℕ → TaskKey)
    (lost : ℕ → Bool) where
  -- A task is known under the key that its id has, and it holds resources.
  abbrev pub IsHolding : S → TaskKey → Option Task → Type 0
  IsHolding resources key none = Unit {0}
  IsHolding resources key (some task) =
      (key_of task.task_id ≡ key) × (layer.holds task.task_id resources ≡ true)

  pub holds_found :
      {resources : S} (key : TaskKey) (task : Task) (found : Option Task)
      → found ≡ some task
      → IsHolding resources key found
      → layer.holds task.task_id resources ≡ true
  holds_found {resources} key task found same h = (subst (IsHolding resources key) same h).1

  -- Who holds resources is a task that is known, or its id is one of those that were lost.
  abbrev pub IsOwned : S → (task_id : ℕ) → Option Task → Type 0
  IsOwned resources task_id found =
      (layer.holds task_id resources ≡ false)
      ⊎ ((task : Task) × (found ≡ some task) × (task.task_id ≡ task_id))
      ⊎ (lost task_id ≡ true)

  abbrev pub IsHeld : TaskManager S → Type 0
  IsHeld self =
      ((key : TaskKey) → IsHolding self.resources key (lookup key self.tasks))
      × ((task_id : ℕ) → IsOwned self.resources task_id (lookup (key_of task_id) self.tasks))

  pub moved-IsHolding :
      (before after : S) (key : TaskKey) (found : Option Task)
      → ((id : ℕ) → key_of id ≡ key → layer.holds id after ≡ layer.holds id before)
      → IsHolding before key found
      → IsHolding after key found
  moved-IsHolding before after key none same h = tt
  moved-IsHolding before after key (some task) same (named, held) =
      (named, same task.task_id named ∙ held)

  pub moved-IsOwned :
      (before after : S) (task_id : ℕ) (found : Option Task)
      → layer.holds task_id after ≡ layer.holds task_id before
      → IsOwned before task_id found
      → IsOwned after task_id found
  moved-IsOwned before after task_id found same (inl free) = inl (same ∙ free)
  moved-IsOwned before after task_id found same (inr known) = inr known

  -- Ids under different keys differ.
  pub other_id :
      (key other_key : TaskKey) (id other : ℕ)
      → key_of id ≡ key
      → key_of other ≡ other_key
      → (key == other_key) ≡ false
      → nat_beq id other ≡ false
  other_id key other_key id other named other_named differ = elim (beq-cases id other) [
    | inr (h, _) ↦ h
    | inl (_, same) ↦
        absurd (differs_not key other_key (sym named ∙ ap key_of same ∙ other_named) differ)
  ]

  -- A change of a task that keeps its id
  pub insert-IsHeld :
      (self : TaskManager S) (key : TaskKey) (task changed : Task) (rows : Dict ℕ TaskStatus)
      → lookup key self.tasks ≡ some task
      → changed.task_id ≡ task.task_id
      → IsHeld self
      → IsHeld (record {
        tasks = insert key changed self.tasks;
        rows = rows;
        resources = self.resources;
      })
  insert-IsHeld self key task changed rows found same (holding, owned) =
      let known = subst (IsHolding self.resources key) found (holding key) in
      (
        λ k. subst (IsHolding self.resources k) (sym (lookup-insert k key changed self.tasks)) (
            if_holds (IsHolding self.resources k) (key == k)
              (λ here. (
                ap key_of same ∙ known.0 ∙ same_key key k here,
                ap (λ id. layer.holds id self.resources) same ∙ known.1,
              ))
              (λ _. holding k)),
        λ id.
            subst (IsOwned self.resources id)
              (sym (lookup-insert (key_of id) key changed self.tasks))
              (elim (owned id) [
                | inl free ↦ inl free
                | inr (inr gone) ↦
                    if_holds (IsOwned self.resources id) (key == key_of id) (λ _. inr (inr gone))
                      (λ _. inr (inr gone))
                | inr (inl (t, at, is)) ↦
                    if_holds (IsOwned self.resources id) (key == key_of id)
                      (λ here. inr (
                        inl (
                          changed,
                          refl,
                          same
                              ∙ same_task (
                                  sym found
                                  ∙ ap (λ k. lookup k self.tasks) (same_key key (key_of id) here)
                                  ∙ at)
                              ∙ is,
                        )))
                      (λ _. inr (inl (t, at, is)))
              ]),
      )
