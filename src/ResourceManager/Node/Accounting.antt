-- ===== src/ResourceManager/Node/Accounting.antt =====
-- What a node has allocated against what its tasks hold (resource_manager/node.py).
use yanshi_shield.Base.{
  ℕ, ◌+◌, ◌*◌, ◌≡◌, refl, true, false, none, some, [], ◌∷◌, arith, nat_eq, Option-cases, inl, inr,
  beq_refl, ◌∙◌, ap,
}
use yanshi_shield.Base.Int.{ℤ, pos, ◌+ℤ◌, ◌-ℤ◌, int_laws}
use yanshi_shield.Base.Dict.{Dict, lookup, insert, lookup-insert}
use yanshi_shield.ResourceManager.Node.{
  Node, ResourceRequest, Usage, usage, add_usage, occupy_resource, release_resource, update,
  update_needed, is_zero_usage, release_amounts, add_task_resource, reoccupy, reoccupy_all,
  described,
}

-- What the tasks of a dict hold together.
unfoldable pub held : Dict ℕ Usage → Usage
held [] = record { cpu = 0; gpu = 0; memory = 0 }
held ((_, u) ∷ d) = add_usage u (held d)

held-insert-some :
    (k : ℕ) (v old : Usage) (d : Dict ℕ Usage)
    → lookup k d ≡ some old
    → add_usage (held (insert k v d)) old ≡ add_usage (held d) v
unfolding held lookup insert
held-insert-some k v old [] h = cc
held-insert-some k v old ((j, w) ∷ d) h = ground (arith, held-insert-some k v old d)

held-insert-none :
    (k : ℕ) (v : Usage) (d : Dict ℕ Usage)
    → lookup k d ≡ none
    → held (insert k v d) ≡ add_usage (held d) v
unfolding held lookup insert
held-insert-none k v [] h = ground arith
held-insert-none k v ((j, w) ∷ d) h = ground (arith, held-insert-none k v d)

-- The books of a node balance: what is allocated is what its tasks hold.
pub record IsBalanced (n : Node) : Type 0 where
  pub cpu : n.cpu.allocated ≡ pos (held n.tasks).cpu
  pub gpu : n.gpu.allocated ≡ pos (held n.tasks).gpu
  pub memory : n.memory.allocated ≡ pos (held n.tasks).memory

held-add_task_resource :
    (k : ℕ) (u : Usage) (d : Dict ℕ Usage) → held (add_task_resource k u d) ≡ add_usage (held d) u
held-add_task_resource k u d = elim (Option-cases (lookup k d)) [
  | inl e ↦ rw (e, add_task_resource) (held-insert-none k u d e)
  | inr (old, e) ↦
      rw (e, add_task_resource) (ground (arith, held-insert-some k (add_usage old u) old d e))
]

pos-add : (a b : ℕ) → pos a +ℤ pos b ≡ pos (a + b)
unfolding ◌+ℤ◌
pos-add a b = ground arith

-- Occupying a node keeps its books balanced.
pub occupy_resource-IsBalanced :
    (task_id : ℕ) (r : ResourceRequest) (n : Node)
    → IsBalanced n
    → IsBalanced (occupy_resource task_id r n)
unfolding occupy_resource
occupy_resource-IsBalanced task_id r n b =
    let e = held-add_task_resource task_id (usage r) n.tasks in
    record {
      cpu = rw (b.cpu, pos-add, e) refl;
      gpu = rw (b.gpu, pos-add, e) refl;
      memory = rw (b.memory, pos-add, e) refl;
    }

lookup-add_task_resource :
    (k : ℕ) (u : Usage) (d : Dict ℕ Usage)
    → lookup k d ≡ none
    → lookup k (add_task_resource k u d) ≡ some u
lookup-add_task_resource k u d e = rw (e, add_task_resource) (ground (arith, lookup-insert k k u d))

is_zero_usage-double : (u : Usage) → is_zero_usage (add_usage u u) ≡ is_zero_usage u
is_zero_usage-double u = ground arith

+ℤ_sub_self : (a b : ℤ) → a +ℤ b -ℤ b ≡ a
+ℤ_sub_self a b = omega int_laws

release_resource_known :
    (task_id : ℕ) (r : ResourceRequest) (n : Node) (old : Usage)
    → lookup task_id n.tasks ≡ some old
    → is_zero_usage (add_usage old (usage r)) ≡ false
    → release_resource task_id r n
      ≡ release_amounts
          (usage r)
          (record n { tasks = insert task_id (add_usage old (usage r)) n.tasks })
unfolding release_resource
release_resource_known task_id r n old e z = rw (e, release_resource) (rw z)

lookup-insert_self : (k : ℕ) (u : Usage) (d : Dict ℕ Usage) → lookup k (insert k u d) ≡ some u
lookup-insert_self k u d = lookup-insert k k u d ∙ rw beq_refl

module _ (task_id : ℕ) (r : ResourceRequest) (n : Node) (unknown : lookup task_id n.tasks ≡ none)
    (nonzero : is_zero_usage (usage r) ≡ false) where
  after : Node
  unfolding occupy_resource
  after = release_resource task_id r (occupy_resource task_id r n)

  after_lem :
      after
      ≡ release_amounts (usage r) (record (occupy_resource task_id r n) {
        tasks = insert task_id (add_usage (usage r) (usage r)) (occupy_resource task_id r n).tasks;
      })
  unfolding after occupy_resource
  after_lem =
      release_resource_known task_id r (occupy_resource task_id r n) (usage r)
        (lookup-add_task_resource task_id (usage r) n.tasks unknown)
        (is_zero_usage-double (usage r) ∙ nonzero)

-- A task that a node does not know yet is given resources and then gives them back: what is
-- allocated on the node is as before, but the node goes on to list the task, with twice what it
-- was given.
pub release_resource-occupy_resource :
    (task_id : ℕ) (r : ResourceRequest) (n : Node)
    → lookup task_id n.tasks ≡ none
    → is_zero_usage (usage r) ≡ false
    → let left = release_resource task_id r (occupy_resource task_id r n) in
      (left.cpu.allocated ≡ n.cpu.allocated)
      × (left.gpu.allocated ≡ n.gpu.allocated)
      × (left.memory.allocated ≡ n.memory.allocated)
      × (lookup task_id left.tasks ≡ some (add_usage (usage r) (usage r)))
unfolding after occupy_resource
release_resource-occupy_resource task_id r n unknown nonzero =
    rw (after_lem task_id r n unknown nonzero) (
      +ℤ_sub_self n.cpu.allocated _,
      +ℤ_sub_self n.gpu.allocated _,
      +ℤ_sub_self n.memory.allocated _,
      lookup-insert_self task_id _ _,
    )

reoccupy_all-allocated :
    (d : Dict ℕ Usage) (n : Node)
    → ((reoccupy_all d n).cpu.allocated ≡ n.cpu.allocated +ℤ pos (2 * (held d).cpu))
      × ((reoccupy_all d n).gpu.allocated ≡ n.gpu.allocated +ℤ pos (2 * (held d).gpu))
      × ((reoccupy_all d n).memory.allocated ≡ n.memory.allocated +ℤ pos (2 * (held d).memory))
unfolding held
reoccupy_all-allocated [] n = (omega int_laws, omega int_laws, omega int_laws)
reoccupy_all-allocated ((k, u) ∷ d) n =
    let (c, g, m) = reoccupy_all-allocated d (reoccupy k u n) in
    (c ∙ omega int_laws, g ∙ omega int_laws, m ∙ omega int_laws)

-- An update of a balanced node to a changed description leaves three times what its tasks held as
-- allocated, on each of the three resources.
pub update-allocated :
    (n new_node : Node)
    → IsBalanced n
    → update_needed n new_node ≡ true
    → ((update n new_node).cpu.allocated ≡ pos (3 * (held n.tasks).cpu))
      × ((update n new_node).gpu.allocated ≡ pos (3 * (held n.tasks).gpu))
      × ((update n new_node).memory.allocated ≡ pos (3 * (held n.tasks).memory))
unfolding update
update-allocated n new_node b changed =
    let (c, g, m) = reoccupy_all-allocated n.tasks (described n new_node) in
    rw changed (
      c ∙ ap (λ (z : ℤ). z +ℤ pos (2 * (held n.tasks).cpu)) b.cpu ∙ omega int_laws,
      g ∙ ap (λ (z : ℤ). z +ℤ pos (2 * (held n.tasks).gpu)) b.gpu ∙ omega int_laws,
      m ∙ ap (λ (z : ℤ). z +ℤ pos (2 * (held n.tasks).memory)) b.memory ∙ omega int_laws,
    )

id-reoccupy_all : (d : Dict ℕ Usage) (n : Node) → (reoccupy_all d n).id ≡ n.id
id-reoccupy_all [] n = refl
id-reoccupy_all ((k, u) ∷ d) n = id-reoccupy_all d (reoccupy k u n)

-- A node keeps its id.
pub id-update : (n new_node : Node) → (update n new_node).id ≡ n.id
unfolding update
id-update n new_node = ground (arith, id-reoccupy_all n.tasks (described n new_node))

pub id-release_resource :
    (task_id : ℕ) (r : ResourceRequest) (n : Node) → (release_resource task_id r n).id ≡ n.id
unfolding release_resource
id-release_resource task_id r n = ground arith

pub id-occupy_resource :
    (task_id : ℕ) (r : ResourceRequest) (n : Node) → (occupy_resource task_id r n).id ≡ n.id
unfolding occupy_resource
id-occupy_resource task_id r n = refl
