-- ===== src/ResourceManager/Allocation.antt =====
-- neursafe_fl/python/resource_manager/rm.py: the allocation policy (`__allocate_resource`,
-- `__filter_nodes` and what they call). `float("inf")` is the constructor `unlimited`.
pub mod Filtering
pub mod Room
pub mod Capacity
pub mod Granting
pub mod Refusal
use yanshi_shield.Base.{
  ℕ, suc, ◌+◌, ◌-◌, ◌*◌, ◌/◌, Bool, true, false, Option, none, some, List, [], ◌∷◌, ◌++◌,
  if◌then◌else◌, nat_beq, Result, ok, raise, ◌>>=◌, take, replicate, not,
}
use yanshi_shield.Base.Int.{ℤ, pos, negsuc, ◌+ℤ◌, ◌-ℤ◌, ◌*ℤ◌, pos_part, leb_ℤ}
use yanshi_shield.Base.Dict.{Dict}
use yanshi_shield.ResourceManager.Node.{
  Node, NodeState, ready, not_ready, Resource, ResourceRequest, amount,
}

pub data ResourceError : Type 0 where
  no_enough_resource : ResourceError
  -- `range(float("inf"))`
  type_error : ResourceError

-- A number of workers: an int, or `float("inf")`.
pub data Limit : Type 0 where
  finite : ℤ → Limit
  unlimited : Limit

pub record Request : Type 0 where
  pub worker_num : ℕ
  pub worker_resource : ResourceRequest

pub record ResourceSpec : Type 0 where
  pub node_id : ℕ
  pub resource : ResourceRequest

-- The fields behind the first are `none` where they are nan.
pub record NodePriorityWeights : Type 0 where
  pub allocatable_worker_num : Limit
  pub left_gpu_num : Option ℤ
  pub left_cpu_num : Option ℤ
  pub left_memory_num : Option ℤ

abbrev pub free : Resource → ℤ
free r = r.volume -ℤ r.allocated

-- `int(allocatable_num / request_num)`, which cuts towards zero
abbrev pub int_div : ℤ → ℕ → ℤ
int_div (pos n) r = pos (n / r)
int_div (negsuc n) r = pos 0 -ℤ pos (suc n / r)

unfoldable pub calc_limit_worker_num : ℤ → ℕ → Limit
calc_limit_worker_num allocatable_num request_num =
    if nat_beq request_num 0 then unlimited else finite (int_div allocatable_num request_num)

abbrev pub min_limit : Limit → Limit → Limit
min_limit unlimited b = b
min_limit (finite a) unlimited = finite a
min_limit (finite a) (finite b) = finite (if leb_ℤ a b then a else b)

unfoldable pub calc_allocatable_worker_num : Node → ResourceRequest → Limit
unfolding calc_limit_worker_num
calc_allocatable_worker_num node r =
    min_limit (calc_limit_worker_num (free node.cpu) (amount r.cpu)) (
      min_limit (calc_limit_worker_num (free node.gpu) (amount r.gpu))
        (calc_limit_worker_num (free node.memory) (amount r.memory)))

abbrev left_over : Limit → ℤ → ℕ → Option ℤ
left_over (finite workers) free_num request_num = some (free_num -ℤ workers *ℤ pos request_num)
left_over unlimited free_num request_num = none

abbrev pub calc_node_priority_weights : Node → ResourceRequest → NodePriorityWeights
calc_node_priority_weights node r =
    let workers = calc_allocatable_worker_num node r in
    record {
      allocatable_worker_num = workers;
      left_gpu_num = left_over workers (free node.gpu) (amount r.gpu);
      left_cpu_num = left_over workers (free node.cpu) (amount r.cpu);
      left_memory_num = left_over workers (free node.memory) (amount r.memory);
    }

-- `if allocatable_worker_num`
abbrev pub is_truthy : Limit → Bool
is_truthy (finite (pos n)) = not (nat_beq n 0)
is_truthy _ = true

abbrev pub add_limit : Limit → Limit → Limit
add_limit (finite a) (finite b) = finite (a +ℤ b)
add_limit (finite a) unlimited = unlimited
add_limit unlimited b = unlimited

unfoldable pub reaches : Limit → ℕ → Bool
reaches (finite z) worker_num = leb_ℤ (pos worker_num) z
reaches unlimited worker_num = true

abbrev pub Candidate : Type 0
Candidate = NodePriorityWeights × Node

-- The two guards with `continue` at the head of the loop.
unfoldable pub is_usable : ℕ → Node → Bool
is_usable cluster node = elim node.state [
  | ready ↦ nat_beq node.cluster_label cluster
  | not_ready ↦ false
]

-- The body of the loop for a usable node: the candidates and the workers counted so far.
unfoldable pub consider : Request → Node → List Candidate × Limit → List Candidate × Limit
consider request node (filtered, total) =
    let weights = calc_node_priority_weights node request.worker_resource in
    if is_truthy weights.allocatable_worker_num
    then (filtered ++ (weights, node) ∷ [], add_limit total weights.allocatable_worker_num)
    else (filtered, total)

-- The loop of `__filter_nodes` over `self.__nodes.items()`. What `sorted` returns is not kept, so
-- the candidates stay in the order of the dict.
unfoldable pub filter_from :
    ℕ → Request → Dict ℕ Node → List Candidate × Limit → Result ResourceError (List Candidate)
filter_from cluster request [] acc = raise no_enough_resource
filter_from cluster request ((_, node) ∷ nodes) acc =
    let skip = filter_from cluster request nodes acc in
    let next = consider request node acc in
    let continue = filter_from cluster request nodes next in
    if is_usable cluster node
    then (if reaches next.1 request.worker_num then ok next.0 else continue)
    else skip

unfoldable pub filter_nodes : ℕ → Request → Dict ℕ Node → Result ResourceError (List Candidate)
unfolding filter_from
filter_nodes cluster request nodes = filter_from cluster request nodes ([], finite (pos 0))

-- `for _ in range(worker_num)`: no round for a negative number, a TypeError for inf
unfoldable pub allocate_resource_in_node :
    Node → Limit → ResourceRequest → Result ResourceError (List ResourceSpec)
allocate_resource_in_node node (finite z) r =
    ok (replicate (pos_part z) (record { node_id = node.id; resource = r }))
allocate_resource_in_node node unlimited r = raise type_error

unfoldable pub allocate_candidates :
    ResourceRequest → List Candidate → Result ResourceError (List ResourceSpec)
unfolding allocate_resource_in_node
allocate_candidates r [] = ok []
allocate_candidates r ((weights, node) ∷ rest) = do
  spec ← allocate_resource_in_node node weights.allocatable_worker_num r
  others ← allocate_candidates r rest
  ok (spec ++ others)

unfoldable pub allocate_resource :
    ℕ → Request → Dict ℕ Node → Result ResourceError (List ResourceSpec)
unfolding filter_nodes allocate_candidates
allocate_resource cluster request nodes = do
  filtered ← filter_nodes cluster request nodes
  spec ← allocate_candidates request.worker_resource filtered
  ok (take request.worker_num spec)
