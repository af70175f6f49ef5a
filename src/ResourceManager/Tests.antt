-- ===== src/ResourceManager/Tests.antt =====
-- Runs of the resource manager on a small cluster (neursafe_fl/python/resource_manager).
use yanshi_shield.Base.{
  ℕ, ◌*◌, ◌<◌, ◌≡◌, refl, true, none, some, List, [], ◌∷◌, length, arith, nat_eq, ok, raise,
}
use yanshi_shield.Base.Int.{pos, ◌-ℤ◌, ◌+ℤ◌}
use yanshi_shield.Base.Dict.{Dict, lookup, contains}
use yanshi_shield.ResourceManager.Node.{
  Node, ready, new_node, ResourceRequest, occupy_resource, release_resource, update, update_needed,
}
use yanshi_shield.ResourceManager.Node.Accounting.{
  held, IsBalanced, release_resource-occupy_resource, occupy_resource-IsBalanced, update-allocated,
}
use yanshi_shield.ResourceManager.Allocation.{
  Request, ResourceSpec, no_enough_resource, is_usable, calc_limit_worker_num,
  calc_allocatable_worker_num, consider, filter_from, filter_nodes, allocate_resource_in_node,
  allocate_candidates, allocate_resource, reaches,
}
use yanshi_shield.ResourceManager.Allocation.Capacity.{places, IsKeyed}
use yanshi_shield.ResourceManager.Allocation.Room.{HasRoom}
use yanshi_shield.ResourceManager.Allocation.Granting.{allocate_resource-HasRoom}
use yanshi_shield.ResourceManager.Manager.{
  Manager, release_known, request, restore_task, requests, step,
}
use yanshi_shield.ResourceManager.Manager.Keyed.{step-IsKeyed}
use yanshi_shield.ResourceManager.Manager.Requests.{
  WithinVolume, request-granted, request-WithinVolume,
}
use yanshi_shield.ResourceManager.Manager.Mirrored.{Mirrored, step-Mirrored, restore_task-tasks}

-- Each worker takes two cpus and one unit of memory.
abbrev worker : ResourceRequest
worker = record { cpu = some 2; gpu = none; memory = some 1 }

abbrev three_workers : Request
three_workers = record { worker_num = 3; worker_resource = worker }

abbrev large_node : Node
large_node = new_node 7 ready (pos 0) (pos 4) (pos 8) 1

abbrev small_node : Node
small_node = new_node 9 ready (pos 0) (pos 3) (pos 8) 1

abbrev two_nodes : Dict ℕ Node
two_nodes = (7, large_node) ∷ (9, small_node) ∷ []

abbrev on : ℕ → ResourceSpec
on i = record { node_id = i; resource = worker }

abbrev placed : List ResourceSpec
placed = on 7 ∷ on 7 ∷ on 9 ∷ []

abbrev idle : Manager
idle = record { nodes = two_nodes; tasks = []; db = some [] }

allocate_placed : allocate_resource 1 three_workers two_nodes ≡ ok placed
unfolding allocate_resource filter_nodes filter_from allocate_candidates consider reaches is_usable
    calc_allocatable_worker_num calc_limit_worker_num ◌-ℤ◌ ◌+ℤ◌ allocate_resource_in_node
allocate_placed = refl

two_nodes-IsKeyed : IsKeyed two_nodes
unfolding lookup
two_nodes-IsKeyed = (refl, refl, (refl, refl, tt))

two_on_large : 0 < places 7 placed
unfolding places
two_on_large = ground arith

allocate_resource-HasRoom_example :
    (n : Node) × (lookup 7 two_nodes ≡ some n)
    × (n.state ≡ ready)
    × (n.cluster_label ≡ 1)
    × HasRoom n worker (places 7 placed)
allocate_resource-HasRoom_example =
    allocate_resource-HasRoom 1 three_workers two_nodes placed 7 two_nodes-IsKeyed allocate_placed
      two_on_large

step-IsKeyed_example : IsKeyed (step 1 (requests 5 three_workers) idle).nodes
step-IsKeyed_example = step-IsKeyed 1 (requests 5 three_workers) idle two_nodes-IsKeyed

request-placed : (request 1 5 three_workers idle).1 ≡ ok placed
unfolding request release_known contains lookup allocate_resource filter_nodes filter_from
    allocate_candidates consider reaches is_usable calc_allocatable_worker_num calc_limit_worker_num
    ◌-ℤ◌ ◌+ℤ◌ allocate_resource_in_node
request-placed = refl

request-granted_example :
    (length placed ≡ 3) × (lookup 5 (request 1 5 three_workers idle).0.tasks ≡ some placed)
request-granted_example = request-granted 1 5 three_workers idle placed request-placed

released-IsKeyed : IsKeyed (release_known 5 idle).nodes
unfolding release_known contains lookup
released-IsKeyed = two_nodes-IsKeyed

request-WithinVolume_example :
    (n : Node) × (lookup 7 (request 1 5 three_workers idle).0.nodes ≡ some n)
    × WithinVolume worker n
request-WithinVolume_example =
    request-WithinVolume 1 5 three_workers idle placed 7 released-IsKeyed request-placed
      two_on_large

-- More workers than the two nodes have room for.
abbrev five_workers : Request
five_workers = record { worker_num = 5; worker_resource = worker }

request_too_many : (request 1 5 five_workers idle).1 ≡ raise no_enough_resource
unfolding request release_known contains lookup allocate_resource filter_nodes filter_from consider
    reaches is_usable calc_allocatable_worker_num calc_limit_worker_num ◌-ℤ◌ ◌+ℤ◌
request_too_many = refl

unknown : lookup 5 idle.tasks ≡ none
unfolding lookup
unknown = refl

found_large : lookup 7 two_nodes ≡ some large_node
unfolding lookup
found_large = refl

idle-Mirrored : Mirrored idle
idle-Mirrored = record { same = refl; distinct = tt }

step-Mirrored_example : Mirrored (step 1 (requests 5 three_workers) idle)
step-Mirrored_example = step-Mirrored 1 (requests 5 three_workers) idle (λ e. cc) idle-Mirrored

restore_task-tasks_example :
    (restore_task
      (record { nodes = []; tasks = []; db = (step 1 (requests 5 three_workers) idle).db })).tasks
    ≡ (step 1 (requests 5 three_workers) idle).tasks
restore_task-tasks_example =
    restore_task-tasks (step 1 (requests 5 three_workers) idle) [] step-Mirrored_example

large_node-IsBalanced : IsBalanced large_node
unfolding held
large_node-IsBalanced = record { cpu = refl; gpu = refl; memory = refl }

fresh_task : lookup 5 large_node.tasks ≡ none
unfolding lookup
fresh_task = refl

release_resource-occupy_resource_example :
    let left = release_resource 5 worker (occupy_resource 5 worker large_node) in
    (left.cpu.allocated ≡ pos 0)
    × (left.gpu.allocated ≡ pos 0)
    × (left.memory.allocated ≡ pos 0)
    × (lookup 5 left.tasks ≡ some (record { cpu = 4; gpu = 0; memory = 2 }))
release_resource-occupy_resource_example =
    release_resource-occupy_resource 5 worker large_node fresh_task refl

-- The large node with two cpus more.
abbrev larger_node : Node
larger_node = new_node 7 ready (pos 0) (pos 6) (pos 8) 1

larger : update_needed (occupy_resource 5 worker large_node) larger_node ≡ true
unfolding update_needed occupy_resource
larger = refl

busy-IsBalanced : IsBalanced (occupy_resource 5 worker large_node)
busy-IsBalanced = occupy_resource-IsBalanced 5 worker large_node large_node-IsBalanced

update-allocated_example :
    let busy = occupy_resource 5 worker large_node in
    ((update busy larger_node).cpu.allocated ≡ pos (3 * (held busy.tasks).cpu))
    × ((update busy larger_node).gpu.allocated ≡ pos (3 * (held busy.tasks).gpu))
    × ((update busy larger_node).memory.allocated ≡ pos (3 * (held busy.tasks).memory))
update-allocated_example =
    update-allocated (occupy_resource 5 worker large_node) larger_node busy-IsBalanced larger

abbrev no_amounts : ResourceRequest
no_amounts = record { cpu = none; gpu = none; memory = none }

abbrev two_nothing : Request
two_nothing = record { worker_num = 2; worker_resource = no_amounts }

large_usable : is_usable 1 large_node ≡ true
unfolding is_usable
large_usable = refl
