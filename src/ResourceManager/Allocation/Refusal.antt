-- ===== src/ResourceManager/Allocation/Refusal.antt =====
-- When `__allocate_resource` raises (resource_manager/rm.py).
use yanshi_shield.Base.{ℕ, ◌≡◌, true, [], ◌∷◌, ok, raise, Bool-cases, inl, inr}
use yanshi_shield.Base.Int.{pos}
use yanshi_shield.Base.Dict.{Dict}
use yanshi_shield.ResourceManager.Node.{Node, ResourceRequest, amount}
use yanshi_shield.ResourceManager.Allocation.{
  Request, finite, unlimited, type_error, reaches, is_usable, consider, filter_from, filter_nodes,
  allocate_resource, calc_limit_worker_num, calc_allocatable_worker_num, calc_node_priority_weights,
  allocate_candidates, allocate_resource_in_node,
}

-- Some node of the dict is usable.
pub data HasUsable (cluster : ℕ) : Dict ℕ Node → Type 0 where
  here :
      {k : ℕ} {node : Node} {nodes : Dict ℕ Node}
      → is_usable cluster node ≡ true
      → HasUsable cluster ((k, node) ∷ nodes)
  there :
      {k : ℕ} {node : Node} {nodes : Dict ℕ Node}
      → HasUsable cluster nodes
      → HasUsable cluster ((k, node) ∷ nodes)

asks_nothing_unlimited :
    (node : Node) (r : ResourceRequest)
    → amount r.cpu ≡ 0
    → amount r.gpu ≡ 0
    → amount r.memory ≡ 0
    → calc_allocatable_worker_num node r ≡ unlimited
unfolding calc_allocatable_worker_num calc_limit_worker_num
asks_nothing_unlimited node r c g m = rw (c, g, m)

module _ (cluster : ℕ) (q : Request) (c : amount q.worker_resource.cpu ≡ 0)
    (g : amount q.worker_resource.gpu ≡ 0) (m : amount q.worker_resource.memory ≡ 0) where
  consider_unlimited :
      (node : Node)
      → consider q node ([], finite (pos 0))
        ≡ ((calc_node_priority_weights node q.worker_resource, node) ∷ [], unlimited)
  unfolding consider
  consider_unlimited node = rw (asks_nothing_unlimited node q.worker_resource c g m)

  -- The filter stops at the first usable node.
  filter_from_unlimited :
      (nodes : Dict ℕ Node)
      → HasUsable cluster nodes
      → (node : Node) × (filter_from cluster q nodes ([], finite (pos 0))
          ≡ ok ((calc_node_priority_weights node q.worker_resource, node) ∷ []))
  unfolding filter_from reaches
  filter_from_unlimited [] h = elim h [ ]
  filter_from_unlimited ((k, node) ∷ nodes) (here usable) =
      (node, rw (usable, consider_unlimited node))
  filter_from_unlimited ((k, node) ∷ nodes) (there h) = elim (Bool-cases (is_usable cluster node)) [
    | inl usable ↦ (node, rw (usable, consider_unlimited node))
    | inr unusable ↦ let (found, e) = filter_from_unlimited nodes h in (found, rw unusable e)
  ]

  unlimited_raises :
      (node : Node)
      → allocate_candidates q.worker_resource
          ((calc_node_priority_weights node q.worker_resource, node) ∷ [])
        ≡ raise type_error
  unfolding allocate_candidates allocate_resource_in_node
  unlimited_raises node = rw (asks_nothing_unlimited node q.worker_resource c g m)

-- A request whose workers ask for nothing never succeeds: as soon as some node is usable, the
-- number of workers that fit is infinite, and counting up to it is a TypeError.
allocate_resource_nothing :
    (cluster : ℕ) (q : Request) (nodes : Dict ℕ Node)
    → amount q.worker_resource.cpu ≡ 0
    → amount q.worker_resource.gpu ≡ 0
    → amount q.worker_resource.memory ≡ 0
    → HasUsable cluster nodes
    → allocate_resource cluster q nodes ≡ raise type_error
unfolding allocate_resource filter_nodes
allocate_resource_nothing cluster q nodes c g m h =
    let (node, e) = filter_from_unlimited cluster q c g m nodes h in
    rw (e, unlimited_raises cluster q c g m node)
