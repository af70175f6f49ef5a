-- ===== src/ResourceManager/Manager/Mirrored.antt =====
-- The database holds what the manager knows of its tasks, so a restart finds them again
-- (resource_manager/rm.py).
use mathlib.Core.List.{append-nil, append_assoc}
use yanshi_shield.Base.{
  ℕ, ◌≡◌, ◌≢◌, refl, none, some, List, [], ◌∷◌, ◌++◌, arith, nat_eq, nat_beq, Bool-cases, inl, inr,
  ◌∙◌, sym, Result-cases,
}
use yanshi_shield.Base.Dict.{Dict, lookup, insert, erase, contains, lookup-insert, lookup-erase}
use yanshi_shield.ResourceManager.Node.{Node}
use yanshi_shield.ResourceManager.Allocation.{Request, ResourceSpec, allocate_resource}
use yanshi_shield.ResourceManager.Manager.{
  Manager, release, release_known, request, restore_task, restore_from, add_node, modify_node,
  delete_node, fetch_nodes, Call, requests, releases, restores, adds, modifies, deletes, fetches,
  step, del_task, add_task,
}

abbrev Tasks : Type 0
Tasks = Dict ℕ (List ResourceSpec)

abbrev pub HasDistinctKeys : Tasks → Type 0
HasDistinctKeys [] = Unit
HasDistinctKeys ((k, spec) ∷ tasks) = (lookup k tasks ≡ none) × HasDistinctKeys tasks

insert-HasDistinctKeys :
    (i : ℕ) (v : List ResourceSpec) (d : Tasks) → HasDistinctKeys d → HasDistinctKeys (insert i v d)
unfolding insert lookup
insert-HasDistinctKeys i v [] h = (refl, tt)
insert-HasDistinctKeys i v ((k, w) ∷ d) h =
    ground (arith, insert-HasDistinctKeys i v d h.1, lookup-insert k i v d)

erase-HasDistinctKeys : (i : ℕ) (d : Tasks) → HasDistinctKeys d → HasDistinctKeys (erase i d)
unfolding erase
erase-HasDistinctKeys i [] h = tt
erase-HasDistinctKeys i ((k, w) ∷ d) h =
    ground (arith, erase-HasDistinctKeys i d h.1, lookup-erase k i d)

-- The database holds exactly the manager's tasks, each once.
pub record Mirrored (m : Manager) : Type 0 where
  pub same : m.db ≡ some m.tasks
  pub distinct : HasDistinctKeys m.tasks

del_task-Mirrored : (task_id : ℕ) (m : Manager) → Mirrored m → Mirrored (del_task task_id m)
del_task-Mirrored task_id m h = record {
  same = rw h.same;
  distinct = erase-HasDistinctKeys task_id m.tasks h.distinct;
}

add_task-Mirrored :
    (task_id : ℕ) (spec : List ResourceSpec) (m : Manager)
    → Mirrored m
    → Mirrored (add_task task_id spec m)
add_task-Mirrored task_id spec m h = record {
  same = rw h.same;
  distinct = insert-HasDistinctKeys task_id spec m.tasks h.distinct;
}

-- Only the fields that the database mirrors matter.
Mirrored-nodes :
    (m : Manager) (nodes : Dict ℕ Node) → Mirrored m → Mirrored (record m { nodes = nodes })
Mirrored-nodes m nodes h = record { same = h.same; distinct = h.distinct }

release-Mirrored : (task_id : ℕ) (m : Manager) → Mirrored m → Mirrored (release task_id m)
unfolding release
release-Mirrored task_id m h = del_task-Mirrored task_id _ (Mirrored-nodes m _ h)

release_known-Mirrored :
    (task_id : ℕ) (m : Manager) → Mirrored m → Mirrored (release_known task_id m)
unfolding release_known
release_known-Mirrored task_id m h = elim (Bool-cases (contains task_id m.tasks)) [
  | inl known ↦ rw known (release-Mirrored task_id m h)
  | inr new ↦ rw new h
]

request-Mirrored :
    (cluster task_id : ℕ) (q : Request) (m : Manager)
    → Mirrored m
    → Mirrored (request cluster task_id q m).0
unfolding request
request-Mirrored cluster task_id q m h =
    let known : Mirrored (release_known task_id m) = release_known-Mirrored task_id m h in
    elim (Result-cases (allocate_resource cluster q (release_known task_id m).nodes)) [
      | inl (spec, e) ↦
          rw (e, request) (Mirrored-nodes _ _ (add_task-Mirrored task_id spec _ known))
      | inr (failure, e) ↦ rw (e, request) known
    ]

fetch_nodes-Mirrored :
    (found : List Node) (m : Manager) → Mirrored m → Mirrored (fetch_nodes found m)
unfolding fetch_nodes
fetch_nodes-Mirrored [] m h = h
fetch_nodes-Mirrored (node ∷ found) m h =
    fetch_nodes-Mirrored found _ (Mirrored-nodes m (insert node.id node m.nodes) h)

-- Every call but a restore keeps the database a mirror of the manager's tasks.
pub step-Mirrored :
    (cluster : ℕ) (call : Call) (m : Manager)
    → call ≢ restores
    → Mirrored m
    → Mirrored (step cluster call m)
unfolding step modify_node delete_node add_node
step-Mirrored cluster (requests task_id q) m other h = request-Mirrored cluster task_id q m h
step-Mirrored cluster (releases task_id) m other h = release-Mirrored task_id m h
step-Mirrored cluster restores m other h = absurd (other refl)
step-Mirrored cluster (adds node) m other h = Mirrored-nodes m _ h
step-Mirrored cluster (modifies node_id node) m other h =
    elim (Bool-cases (nat_beq node_id node.id)) [
      | inl same ↦ rw same (Mirrored-nodes m _ h)
      | inr changed ↦ rw changed h
    ]
step-Mirrored cluster (deletes node_id) m other h = Mirrored-nodes m _ h
step-Mirrored cluster (fetches found) m other h = fetch_nodes-Mirrored found m h

-- A new key goes to the end.
insert_new :
    (k : ℕ) (v : List ResourceSpec) (d : Tasks)
    → lookup k d ≡ none
    → insert k v d ≡ d ++ (k, v) ∷ []
unfolding lookup insert
insert_new k v [] h = refl
insert_new k v ((j, w) ∷ d) h = ground (arith, insert_new k v d)

-- No key of the first is in the second.
abbrev Apart : Tasks → Tasks → Type 0
Apart [] d = Unit
Apart ((k, v) ∷ stored) d = (lookup k d ≡ none) × Apart stored d

lookup-snoc :
    (j k : ℕ) (v : List ResourceSpec) (d : Tasks) → k ≢ j → lookup j (d ++ (k, v) ∷ []) ≡ lookup j d
unfolding lookup
lookup-snoc j k v [] h = ground arith
lookup-snoc j k v ((i, w) ∷ d) h = ground (arith, lookup-snoc j k v d h)

Apart-snoc :
    (stored d : Tasks) (k : ℕ) (v : List ResourceSpec)
    → lookup k stored ≡ none
    → Apart stored d
    → Apart stored (d ++ (k, v) ∷ [])
unfolding lookup
Apart-snoc [] d k v absent h = tt
Apart-snoc ((j, w) ∷ stored) d k v absent h =
    ground (arith, Apart-snoc stored d k v, lookup-snoc j k v d)

restore_from-tasks :
    (stored : Tasks) (m : Manager)
    → HasDistinctKeys stored
    → Apart stored m.tasks
    → (restore_from stored m).tasks ≡ m.tasks ++ stored
unfolding restore_from
restore_from-tasks [] m distinct apart = sym (append-nil m.tasks)
restore_from-tasks ((k, v) ∷ stored) m distinct apart =
    restore_from-tasks stored _ distinct.1
      (rw (insert_new k v m.tasks apart.0) (Apart-snoc stored m.tasks k v distinct.0 apart.1))
    ∙ rw (insert_new k v m.tasks apart.0) (append_assoc m.tasks ((k, v) ∷ []) stored)

Apart-nil : (stored : Tasks) → Apart stored []
unfolding lookup
Apart-nil [] = tt
Apart-nil ((k, v) ∷ stored) = (refl, Apart-nil stored)

-- A manager that starts with no tasks on the database of a mirrored one restores exactly its
-- tasks, whatever its nodes are.
pub restore_task-tasks :
    (m : Manager) (nodes : Dict ℕ Node)
    → Mirrored m
    → (restore_task (record { nodes = nodes; tasks = []; db = m.db })).tasks ≡ m.tasks
unfolding restore_task
restore_task-tasks m nodes h =
    rw h.same (restore_from-tasks m.tasks _ h.distinct (Apart-nil m.tasks))
