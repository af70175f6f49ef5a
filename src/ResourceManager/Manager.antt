-- ===== src/ResourceManager/Manager.antt =====
-- neursafe_fl/python/resource_manager/rm.py: the class `ResourceManager`. The collection of the
-- database, where there is one, is the dict of what it stores, by task; writing to it is the
-- documented insert, update and delete, and its failures and retries are left out.
pub mod Keyed
pub mod Occupied
pub mod Requests
pub mod Mirrored
use yanshi_shield.Base.{
  ℕ, ◌≡◌, Bool, true, false, Option, none, some, List, [], ◌∷◌, if◌then◌else◌, nat_beq, nat_eq, not,
  Result, ok, raise,
}
use mathlib.Core.Option
use yanshi_shield.Base.Dict.{Dict, lookup, insert, erase, contains}
use yanshi_shield.ResourceManager.Node.{Node, update, occupy_resource, release_resource}
use yanshi_shield.ResourceManager.Allocation.{
  Request, ResourceSpec, ResourceError, allocate_resource,
}

pub record Manager : Type 0 where
  pub nodes : Dict ℕ Node
  pub tasks : Dict ℕ (List ResourceSpec)
  pub db : Option (Dict ℕ (List ResourceSpec))

-- `self.__nodes[id].method(...)` on the node object, if the dict has it
unfoldable pub on_node : ℕ → (Node → Node) → Dict ℕ Node → Dict ℕ Node
on_node i f nodes = elim (lookup i nodes) [ none ↦ nodes | some n ↦ insert i (f n) nodes ]

-- `__occupy_resource`
unfoldable pub occupy_all : ℕ → List ResourceSpec → Dict ℕ Node → Dict ℕ Node
occupy_all task_id [] nodes = nodes
occupy_all task_id (s ∷ spec) nodes =
    occupy_all task_id spec (on_node s.node_id (occupy_resource task_id s.resource) nodes)

-- `__release_resource`
unfoldable pub release_all : ℕ → List ResourceSpec → Dict ℕ Node → Dict ℕ Node
release_all task_id [] nodes = nodes
release_all task_id (s ∷ spec) nodes =
    release_all task_id spec (on_node s.node_id (release_resource task_id s.resource) nodes)

-- `__persist`, whose insert of a known task turns into an update, and `__add_task`
abbrev pub add_task : ℕ → List ResourceSpec → Manager → Manager
add_task task_id spec m = record m {
  db = Option.map (insert task_id spec) m.db;
  tasks = insert task_id spec m.tasks;
}

-- `__del_task`
abbrev pub del_task : ℕ → Manager → Manager
del_task task_id m = record m {
  db = Option.map (erase task_id) m.db;
  tasks = erase task_id m.tasks;
}

-- `self.__tasks.get(task_id, [])`
abbrev pub spec_of : ℕ → Manager → List ResourceSpec
spec_of task_id m = elim (lookup task_id m.tasks) [ none ↦ [] | some spec ↦ spec ]

unfoldable pub release : ℕ → Manager → Manager
release task_id m =
    del_task task_id (record m { nodes = release_all task_id (spec_of task_id m) m.nodes })

-- A task that is known already is released first.
unfoldable pub release_known : ℕ → Manager → Manager
release_known task_id m = if contains task_id m.tasks then release task_id m else m

abbrev pub grant : ℕ → List ResourceSpec → Manager → Manager
grant task_id spec m =
    let added = add_task task_id spec m in record added { nodes = occupy_all task_id spec m.nodes }

-- The state comes back after a raise too: a release that went before it stands.
unfoldable pub request :
    ℕ → ℕ → Request → Manager → Manager × Result ResourceError (List ResourceSpec)
request cluster task_id q m =
    let m' = release_known task_id m in
    elim (allocate_resource cluster q m'.nodes) [
      | ok spec ↦ (grant task_id spec m', ok spec)
      | raise e ↦ (m', raise e)
    ]

-- `__restore_task`, over what the database holds
unfoldable pub restore_from : Dict ℕ (List ResourceSpec) → Manager → Manager
restore_from [] m = m
restore_from ((task_id, spec) ∷ stored) m =
    restore_from stored
      (record m { tasks = insert task_id spec m.tasks; nodes = occupy_all task_id spec m.nodes })

unfoldable pub restore_task : Manager → Manager
unfolding restore_from
restore_task m = elim m.db [ none ↦ m | some stored ↦ restore_from stored m ]

-- `__add_node`; `__modify_node` differs in the test that comes first.
pub add_node : Node → Manager → Manager
add_node node m = record m {
  nodes = elim (lookup node.id m.nodes) [
    | none ↦ insert node.id node m.nodes
    | some old ↦ insert node.id (update old node) m.nodes
  ];
}

pub modify_node : ℕ → Node → Manager → Manager
modify_node node_id new_node m = if nat_beq node_id new_node.id then add_node new_node m else m

pub delete_node : ℕ → Manager → Manager
delete_node node_id m = record m { nodes = erase node_id m.nodes }

-- `__fetch_nodes`
pub fetch_nodes : List Node → Manager → Manager
fetch_nodes [] m = m
fetch_nodes (node ∷ found) m = fetch_nodes found (record m { nodes = insert node.id node m.nodes })

-- The calls that the manager receives from the client's tasks and from its platform's watch.
pub data Call : Type 0 where
  requests : ℕ → Request → Call
  releases : ℕ → Call
  restores : Call
  adds : Node → Call
  modifies : ℕ → Node → Call
  deletes : ℕ → Call
  fetches : List Node → Call

unfoldable pub step : ℕ → Call → Manager → Manager
step cluster (requests task_id q) m = (request cluster task_id q m).0
step cluster (releases task_id) m = release task_id m
step cluster restores m = restore_task m
step cluster (adds node) m = add_node node m
step cluster (modifies node_id node) m = modify_node node_id node m
step cluster (deletes node_id) m = delete_node node_id m
step cluster (fetches found) m = fetch_nodes found m
