-- ===== src/ResourceManager/Allocation/Filtering.antt =====
-- What `__filter_nodes` returns: the candidates of a prefix of the nodes (resource_manager/rm.py).
use yanshi_shield.Base.{
  ℕ, suc, ◌≡◌, refl, true, false, List, [], ◌∷◌, ◌++◌, ok, take, if◌then◌else◌, Bool-cases, inl,
  inr, ◌⊎◌, sym, ◌∙◌,
}
use yanshi_shield.Base.Int.{pos}
use yanshi_shield.Base.Dict.{Dict}
use yanshi_shield.ResourceManager.Node.{Node}
use yanshi_shield.ResourceManager.Allocation.{
  Request, Candidate, Limit, finite, add_limit, is_truthy, reaches, is_usable, consider,
  filter_from, filter_nodes, calc_allocatable_worker_num, calc_node_priority_weights,
}
use mathlib.Core.List.{append-nil, append_assoc}

-- The candidates among some nodes: usable, with a number of workers other than zero.
unfoldable pub candidates : ℕ → Request → Dict ℕ Node → List Candidate
candidates cluster request [] = []
candidates cluster request ((_, node) ∷ nodes) =
    let weights = calc_node_priority_weights node request.worker_resource in
    let rest = candidates cluster request nodes in
    if is_usable cluster node
    then (if is_truthy weights.allocatable_worker_num then (weights, node) ∷ rest else rest)
    else rest

-- The workers that those nodes have room for, added to a start.
unfoldable pub workers_from : ℕ → Request → Limit → Dict ℕ Node → Limit
workers_from cluster request start [] = start
workers_from cluster request start ((_, node) ∷ nodes) =
    let workers = calc_allocatable_worker_num node request.worker_resource in
    workers_from cluster request
      (if is_usable cluster node
        then (if is_truthy workers then add_limit start workers else start)
        else start)
      nodes

-- A node is passed over and adds nothing, or it is a candidate and its workers are added.
pub candidates-cases :
    (cluster : ℕ) (request : Request) (start : Limit) (k : ℕ) (node : Node) (nodes : Dict ℕ Node)
    → let workers = calc_allocatable_worker_num node request.worker_resource in
      (candidates cluster request ((k, node) ∷ nodes) ≡ candidates cluster request nodes)
        × (workers_from cluster request start ((k, node) ∷ nodes)
            ≡ workers_from cluster request start nodes)
      ⊎ (is_usable cluster node ≡ true)
        × (candidates cluster request ((k, node) ∷ nodes)
            ≡ (calc_node_priority_weights node request.worker_resource, node)
              ∷ candidates cluster request nodes)
        × (workers_from cluster request start ((k, node) ∷ nodes)
            ≡ workers_from cluster request (add_limit start workers) nodes)
unfolding candidates workers_from
candidates-cases cluster request start k node nodes = elim (Bool-cases (is_usable cluster node)) [
  | inr unusable ↦ inl (rw unusable, rw (unusable, workers_from))
  | inl usable ↦
      elim (Bool-cases (is_truthy (calc_allocatable_worker_num node request.worker_resource))) [
        | inl fits ↦ inr (usable, rw (usable, fits), rw (usable, fits, workers_from))
        | inr full ↦ inl (rw (usable, full), rw (usable, full, workers_from))
      ]
]

-- The first usable node adds its workers to the start; another one adds nothing.
pub workers_from-cons :
    (cluster : ℕ) (request : Request) (start : Limit) (k : ℕ) (node : Node) (nodes : Dict ℕ Node)
    → workers_from cluster request start ((k, node) ∷ nodes)
      ≡ workers_from cluster request
          (if is_usable cluster node
            then (if is_truthy (calc_allocatable_worker_num node request.worker_resource)
                then add_limit start (calc_allocatable_worker_num node request.worker_resource)
                else start)
            else start)
          nodes
unfolding workers_from
workers_from-cons cluster request start k node nodes = refl

-- A successful filter has stopped after some of the nodes, at enough workers.
pub record IsCut (cluster : ℕ) (request : Request) (nodes : Dict ℕ Node)
    (acc : List Candidate × Limit) (filtered : List Candidate) : Type 0 where
  pub seen : ℕ
  pub result : filtered ≡ acc.0 ++ candidates cluster request (take seen nodes)
  pub enough :
      reaches (workers_from cluster request acc.1 (take seen nodes)) request.worker_num ≡ true

module _ (cluster : ℕ) (request : Request) (k : ℕ) (node : Node) (nodes : Dict ℕ Node)
    (acc : List Candidate × Limit) {filtered : List Candidate} where
  skip-IsCut :
      is_usable cluster node ≡ false
      → IsCut cluster request nodes acc filtered
      → IsCut cluster request ((k, node) ∷ nodes) acc filtered
  unfolding candidates
  skip-IsCut unusable c = record {
    seen = suc c.seen;
    result = rw unusable c.result;
    enough = rw (workers_from-cons, unusable) c.enough;
  }

  stop-IsCut :
      is_usable cluster node ≡ true
      → reaches (consider request node acc).1 request.worker_num ≡ true
      → filtered ≡ (consider request node acc).0
      → IsCut cluster request ((k, node) ∷ nodes) acc filtered
  unfolding candidates workers_from consider
  stop-IsCut usable stop e =
      elim (Bool-cases (is_truthy (calc_allocatable_worker_num node request.worker_resource))) [
        | inl fits ↦ record {
          seen = 1;
          result = rw (usable, fits) (e ∙ rw fits);
          enough = rw (usable, fits) (rw fits at stop);
        }
        | inr full ↦ record {
          seen = 1;
          result = rw (usable, full) (e ∙ rw full (sym (append-nil acc.0)));
          enough = rw (usable, full) (rw full at stop);
        }
      ]

  next-IsCut :
      is_usable cluster node ≡ true
      → IsCut cluster request nodes (consider request node acc) filtered
      → IsCut cluster request ((k, node) ∷ nodes) acc filtered
  unfolding candidates consider
  next-IsCut usable c =
      elim (Bool-cases (is_truthy (calc_allocatable_worker_num node request.worker_resource))) [
        | inl fits ↦ record {
          seen = suc c.seen;
          result = rw (usable, fits) (c.result ∙ rw fits (append_assoc acc.0 _ _));
          enough = rw (workers_from-cons, usable, fits) (rw fits at c.enough);
        }
        | inr full ↦ record {
          seen = suc c.seen;
          result = rw (usable, full) (c.result ∙ rw full);
          enough = rw (workers_from-cons, usable, full) (rw full at c.enough);
        }
      ]

filter_from-IsCut :
    (cluster : ℕ) (request : Request) (nodes : Dict ℕ Node) (acc : List Candidate × Limit)
    {filtered : List Candidate}
    → filter_from cluster request nodes acc ≡ ok filtered
    → IsCut cluster request nodes acc filtered
unfolding filter_from
filter_from-IsCut cluster request [] acc h = absurd (cc)
filter_from-IsCut cluster request ((k, node) ∷ nodes) acc h =
    elim (Bool-cases (is_usable cluster node)) [
      | inr unusable ↦
          skip-IsCut cluster request k node nodes acc unusable
            (filter_from-IsCut cluster request nodes acc (rw unusable at h))
      | inl usable ↦ elim (Bool-cases (reaches (consider request node acc).1 request.worker_num)) [
        | inl stop ↦
            stop-IsCut cluster request k node nodes acc usable stop (cc (rw (usable, stop) at h))
        | inr go ↦ next-IsCut cluster request k node nodes acc usable (
            filter_from-IsCut cluster request nodes (consider request node acc)
              (rw (usable, go) at h))
      ]
    ]

pub filter_nodes-IsCut :
    (cluster : ℕ) (request : Request) (nodes : Dict ℕ Node) {filtered : List Candidate}
    → filter_nodes cluster request nodes ≡ ok filtered
    → IsCut cluster request nodes ([], finite (pos 0)) filtered
unfolding filter_nodes
filter_nodes-IsCut cluster request nodes h = filter_from-IsCut cluster request nodes _ h
