-- ===== src/ResourceManager/Manager/Keyed.antt =====
-- The manager keeps each node under its own id and no id twice (resource_manager/rm.py).
use yanshi_shield.Base.{
  ℕ, ◌≡◌, refl, some, List, [], ◌∷◌, arith, nat_eq, Option-cases, inl, inr, Result-cases, ◌∙◌, sym,
}
use yanshi_shield.Base.Dict.{Dict, lookup, insert, erase, lookup-insert, lookup-erase}
use yanshi_shield.ResourceManager.Node.{Node, update}
use yanshi_shield.ResourceManager.Node.Accounting.{
  id-update, id-occupy_resource, id-release_resource,
}
use yanshi_shield.ResourceManager.Allocation.{Request, ResourceSpec, allocate_resource}
use yanshi_shield.ResourceManager.Allocation.Capacity.{IsKeyed}
use yanshi_shield.ResourceManager.Manager.{
  Manager, on_node, occupy_all, release_all, release, release_known, request, restore_task,
  restore_from, add_node, modify_node, delete_node, fetch_nodes, spec_of, Call, requests, releases,
  restores, adds, modifies, deletes, fetches, step,
}

insert-IsKeyed :
    (i : ℕ) (n : Node) (nodes : Dict ℕ Node) → i ≡ n.id → IsKeyed nodes → IsKeyed (insert i n nodes)
unfolding insert lookup
insert-IsKeyed i n [] e h = (e, refl, tt)
insert-IsKeyed i n ((k, node) ∷ nodes) e h =
    ground (arith, insert-IsKeyed i n nodes e h.2, lookup-insert k i n nodes)

erase-IsKeyed : (i : ℕ) (nodes : Dict ℕ Node) → IsKeyed nodes → IsKeyed (erase i nodes)
unfolding erase
erase-IsKeyed i [] h = tt
erase-IsKeyed i ((k, node) ∷ nodes) h =
    ground (arith, erase-IsKeyed i nodes h.2, lookup-erase k i nodes)

lookup-IsKeyed :
    (i : ℕ) (n : Node) (nodes : Dict ℕ Node) → IsKeyed nodes → lookup i nodes ≡ some n → i ≡ n.id
unfolding lookup
lookup-IsKeyed i n [] keyed h = absurd (cc)
lookup-IsKeyed i n ((k, node) ∷ nodes) keyed h =
    ground (arith, keyed, lookup-IsKeyed i n nodes keyed.2)

on_node-IsKeyed :
    (i : ℕ) (f : Node → Node) (nodes : Dict ℕ Node)
    → ((n : Node) → (f n).id ≡ n.id)
    → IsKeyed nodes
    → IsKeyed (on_node i f nodes)
unfolding on_node
on_node-IsKeyed i f nodes same h = elim (Option-cases (lookup i nodes)) [
  | inl e ↦ rw (e, on_node) h
  | inr (n, e) ↦
      rw (e, on_node) (insert-IsKeyed i (f n) nodes (lookup-IsKeyed i n nodes h e ∙ sym (same n)) h)
]

occupy_all-IsKeyed :
    (task_id : ℕ) (spec : List ResourceSpec) (nodes : Dict ℕ Node)
    → IsKeyed nodes
    → IsKeyed (occupy_all task_id spec nodes)
unfolding occupy_all
occupy_all-IsKeyed task_id [] nodes h = h
occupy_all-IsKeyed task_id (s ∷ spec) nodes h =
    occupy_all-IsKeyed task_id spec _
      (on_node-IsKeyed s.node_id _ nodes (id-occupy_resource task_id s.resource) h)

release_all-IsKeyed :
    (task_id : ℕ) (spec : List ResourceSpec) (nodes : Dict ℕ Node)
    → IsKeyed nodes
    → IsKeyed (release_all task_id spec nodes)
unfolding release_all
release_all-IsKeyed task_id [] nodes h = h
release_all-IsKeyed task_id (s ∷ spec) nodes h =
    release_all-IsKeyed task_id spec _
      (on_node-IsKeyed s.node_id _ nodes (id-release_resource task_id s.resource) h)

release-IsKeyed : (task_id : ℕ) (m : Manager) → IsKeyed m.nodes → IsKeyed (release task_id m).nodes
unfolding release
release-IsKeyed task_id m h = release_all-IsKeyed task_id (spec_of task_id m) m.nodes h

release_known-IsKeyed :
    (task_id : ℕ) (m : Manager) → IsKeyed m.nodes → IsKeyed (release_known task_id m).nodes
unfolding release_known
release_known-IsKeyed task_id m h = ground (arith, release-IsKeyed task_id m h)

request-IsKeyed :
    (cluster task_id : ℕ) (q : Request) (m : Manager)
    → IsKeyed m.nodes
    → IsKeyed (request cluster task_id q m).0.nodes
unfolding request
request-IsKeyed cluster task_id q m h =
    let keyed = release_known-IsKeyed task_id m h in
    elim (Result-cases (allocate_resource cluster q (release_known task_id m).nodes)) [
      | inl (spec, e) ↦ rw (e, request) (occupy_all-IsKeyed task_id spec _ keyed)
      | inr (failure, e) ↦ rw (e, request) keyed
    ]

restore_from-IsKeyed :
    (stored : Dict ℕ (List ResourceSpec)) (m : Manager)
    → IsKeyed m.nodes
    → IsKeyed (restore_from stored m).nodes
unfolding restore_from
restore_from-IsKeyed [] m h = h
restore_from-IsKeyed ((task_id, spec) ∷ stored) m h =
    restore_from-IsKeyed stored _ (occupy_all-IsKeyed task_id spec m.nodes h)

add_node-IsKeyed : (node : Node) (m : Manager) → IsKeyed m.nodes → IsKeyed (add_node node m).nodes
unfolding add_node
add_node-IsKeyed node m h = elim (Option-cases (lookup node.id m.nodes)) [
  | inl e ↦ rw (e, add_node) (insert-IsKeyed node.id node m.nodes refl h)
  | inr (old, e) ↦
      rw (e, add_node)
        (insert-IsKeyed node.id (update old node) m.nodes
          (lookup-IsKeyed node.id old m.nodes h e ∙ sym (id-update old node)) h)
]

fetch_nodes-IsKeyed :
    (found : List Node) (m : Manager) → IsKeyed m.nodes → IsKeyed (fetch_nodes found m).nodes
unfolding fetch_nodes
fetch_nodes-IsKeyed [] m h = h
fetch_nodes-IsKeyed (node ∷ found) m h =
    fetch_nodes-IsKeyed found _ (insert-IsKeyed node.id node m.nodes refl h)

-- Every call keeps each node of the manager under its own id, and no id twice.
pub step-IsKeyed :
    (cluster : ℕ) (call : Call) (m : Manager)
    → IsKeyed m.nodes
    → IsKeyed (step cluster call m).nodes
unfolding step restore_task modify_node delete_node
step-IsKeyed cluster (requests task_id q) m h = request-IsKeyed cluster task_id q m h
step-IsKeyed cluster (releases task_id) m h = release-IsKeyed task_id m h
step-IsKeyed cluster restores m h = elim (Option-cases m.db) [
  | inl e ↦ rw (e, restore_task) h
  | inr (stored, e) ↦ rw (e, restore_task) (restore_from-IsKeyed stored m h)
]
step-IsKeyed cluster (adds node) m h = add_node-IsKeyed node m h
step-IsKeyed cluster (modifies node_id node) m h = ground (arith, add_node-IsKeyed node m h)
step-IsKeyed cluster (deletes node_id) m h = erase-IsKeyed node_id m.nodes h
step-IsKeyed cluster (fetches found) m h = fetch_nodes-IsKeyed found m h
