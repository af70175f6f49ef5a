-- ===== src/ResourceManager/Allocation/Capacity.antt =====
-- What the candidates of some nodes get: on no node more than it admits (resource_manager/rm.py).
use yanshi_shield.Base.{
  ℕ, zero, suc, ◌+◌, ◌≤◌, ◌≡◌, ◌≢◌, refl, true, none, some, List, [], ◌∷◌, ◌++◌, arith, ok,
  replicate, countb, All, if◌then◌else◌, inl, inr, ◌⊎◌, sym, ◌∙◌, subst, nat_beq, nat_eq, >>=-eq-ok,
  countb-append, All-append, All-replicate,
}
use yanshi_shield.Base.Int.{ℤ, pos, negsuc, ◌≤ℤ◌, pos_part}
use yanshi_shield.Base.Dict.{Dict, lookup}
use yanshi_shield.ResourceManager.Node.{Node, ResourceRequest}
use yanshi_shield.ResourceManager.Allocation.{
  Request, ResourceSpec, Candidate, Limit, finite, unlimited, is_usable,
  calc_allocatable_worker_num, calc_node_priority_weights, allocate_resource_in_node,
  allocate_candidates,
}
use yanshi_shield.ResourceManager.Allocation.Room.{Admits}
use yanshi_shield.ResourceManager.Allocation.Filtering.{candidates, candidates-cases}

-- The workers of a spec that stand on a node.
unfoldable pub places : ℕ → List ResourceSpec → ℕ
places i spec = countb (λ s. nat_beq s.node_id i) spec

-- `self.__nodes`: every node under its own id, and no id twice.
abbrev pub IsKeyed : Dict ℕ Node → Type 0
IsKeyed [] = Unit
IsKeyed ((k, node) ∷ nodes) = (k ≡ node.id) × (lookup k nodes ≡ none) × IsKeyed nodes

pub lookup-cons-eq-none :
    (k i : ℕ) (node : Node) (nodes : Dict ℕ Node)
    → lookup i ((k, node) ∷ nodes) ≡ none
    → (k ≢ i) × (lookup i nodes ≡ none)
unfolding lookup
lookup-cons-eq-none k i node nodes h = ground arith

pub lookup-cons-eq-some :
    (k i : ℕ) (node n : Node) (nodes : Dict ℕ Node)
    → lookup i ((k, node) ∷ nodes) ≡ some n
    → (k ≡ i) × (node ≡ n) ⊎ (k ≢ i) × (lookup i nodes ≡ some n)
unfolding lookup
lookup-cons-eq-some k i node n nodes h = ground arith

-- What one node gets is nothing, or a number of workers that it admits.
abbrev pub Grants : ℕ → ResourceRequest → Node → ℕ → Type 0
Grants cluster r node c =
    (c ≡ 0) ⊎ ((is_usable cluster node ≡ true) × Admits (calc_allocatable_worker_num node r) c)

places-replicate_self :
    (i n : ℕ) (r : ResourceRequest)
    → places i (replicate n (record { node_id = i; resource = r })) ≡ n
unfolding places
places-replicate_self i zero r = refl
places-replicate_self i (suc n) r = ground (arith, places-replicate_self i n r)

places-replicate_ne :
    (i j n : ℕ) (r : ResourceRequest)
    → i ≢ j
    → places i (replicate n (record { node_id = j; resource = r })) ≡ 0
unfolding places
places-replicate_ne i j zero r h = refl
places-replicate_ne i j (suc n) r h = ground (arith, places-replicate_ne i j n r h)

pub places-nil : (i : ℕ) → places i [] ≡ 0
unfolding places
places-nil i = refl

pub places-cons :
    (i : ℕ) (s : ResourceSpec) (spec : List ResourceSpec)
    → places i (s ∷ spec) ≡ (if nat_beq s.node_id i then suc (places i spec) else places i spec)
unfolding places
places-cons i s spec = refl

pub places-append : (i : ℕ) (a b : List ResourceSpec) → places i (a ++ b) ≡ places i a + places i b
unfolding places
places-append i a b = countb-append (λ s. nat_beq s.node_id i) a b

-- The call of `__allocate_resource_in_node`, undone.
allocate_in_node_inv :
    (node : Node) (l : Limit) (r : ResourceRequest) {spec : List ResourceSpec}
    → allocate_resource_in_node node l r ≡ ok spec
    → (z : ℤ) × (l ≡ finite z)
      × (spec ≡ replicate (pos_part z) (record { node_id = node.id; resource = r }))
unfolding allocate_resource_in_node
allocate_in_node_inv node (finite z) r h = (z, refl, cc)
allocate_in_node_inv node unlimited r h = absurd (cc)

-- The head of the candidates, undone: its workers and those of the rest.
pub record IsSplit (node : Node) (r : ResourceRequest) (rest : List Candidate)
    (spec : List ResourceSpec) : Type 0 where
  pub workers : ℤ
  pub others : List ResourceSpec
  pub limit : calc_allocatable_worker_num node r ≡ finite workers
  pub tail : allocate_candidates r rest ≡ ok others
  pub whole :
      spec ≡ replicate (pos_part workers) (record { node_id = node.id; resource = r }) ++ others

pub allocate_candidates-IsSplit :
    (node : Node) (r : ResourceRequest) (rest : List Candidate) {spec : List ResourceSpec}
    → allocate_candidates r ((calc_node_priority_weights node r, node) ∷ rest) ≡ ok spec
    → IsSplit node r rest spec
unfolding allocate_candidates
allocate_candidates-IsSplit node r rest h =
    let (here, e, h') =
      >>=-eq-ok (allocate_resource_in_node node (calc_allocatable_worker_num node r) r) _ h in
    let (others, f, g) = >>=-eq-ok (allocate_candidates r rest) _ h' in
    let (z, l, w) = allocate_in_node_inv node _ r e in
    record { workers = z; others = others; limit = l; tail = f; whole = cc }

pos-≤ℤ : (n : ℕ) (z : ℤ) → n ≤ pos_part z → (n ≡ 0) ⊎ (pos n ≤ℤ z)
pos-≤ℤ n (pos m) h = inr (omega arith)
pos-≤ℤ n (negsuc m) h = inl (omega arith)

module _ (cluster : ℕ) (q : Request) where
  abbrev pub Allocates : Dict ℕ Node → List ResourceSpec → Type 0
  Allocates nodes spec =
      allocate_candidates q.worker_resource (candidates cluster q nodes) ≡ ok spec

  pub Allocates-nil : {spec : List ResourceSpec} → Allocates [] spec → spec ≡ []
  unfolding candidates allocate_candidates
  Allocates-nil h = cc

  pub Allocates-cases :
      (k : ℕ) (node : Node) (nodes : Dict ℕ Node) {spec : List ResourceSpec}
      → Allocates ((k, node) ∷ nodes) spec
      → Allocates nodes spec
        ⊎ (is_usable cluster node ≡ true)
          × IsSplit node q.worker_resource (candidates cluster q nodes) spec
  Allocates-cases k node nodes h = elim (candidates-cases cluster q unlimited k node nodes) [
    | inl (same, _) ↦ inl (rw same at h)
    | inr (usable, more, _) ↦
        inr (usable, allocate_candidates-IsSplit node q.worker_resource _ (rw more at h))
  ]

  -- A node that the dict does not hold gets no worker.
  pub places-absent :
      (nodes : Dict ℕ Node) (i : ℕ) {spec : List ResourceSpec}
      → IsKeyed nodes
      → lookup i nodes ≡ none
      → Allocates nodes spec
      → places i spec ≡ 0
  unfolding lookup
  places-absent [] i keyed absent h = rw (Allocates-nil h) (places-nil i)
  places-absent ((k, node) ∷ nodes) i keyed absent h =
      let (other, rest) = lookup-cons-eq-none k i node nodes absent in
      elim (Allocates-cases k node nodes h) [
        | inl h' ↦ places-absent nodes i keyed.2 rest h'
        | inr (_, split) ↦
            rw (split.whole, places-append)
              (omega (
                arith,
                places-absent nodes i keyed.2 rest split.tail,
                places-replicate_ne i node.id (pos_part split.workers) q.worker_resource
                    (λ e. other (keyed.0 ∙ sym e)),
              ))
      ]

  Grants-workers :
      (node : Node) (w : ℤ) (c : ℕ)
      → is_usable cluster node ≡ true
      → calc_allocatable_worker_num node q.worker_resource ≡ finite w
      → c ≡ pos_part w
      → Grants cluster q.worker_resource node c
  Grants-workers node w c usable limit e = elim (pos-≤ℤ c w (omega arith)) [
    | inl nothing ↦ inl nothing
    | inr some_workers ↦ inr (usable, rw limit some_workers)
  ]

  -- The first node of the dict, which no later entry names.
  places-here :
      (k : ℕ) (node : Node) (nodes : Dict ℕ Node) (i : ℕ) {spec : List ResourceSpec}
      → IsKeyed ((k, node) ∷ nodes)
      → k ≡ i
      → Allocates ((k, node) ∷ nodes) spec
      → Grants cluster q.worker_resource node (places i spec)
  places-here k node nodes i {spec} keyed at_key h =
      let later : lookup i nodes ≡ none = rw (← at_key) keyed.1 in
      elim (Allocates-cases k node nodes h) [
        | inl h' ↦ inl (places-absent nodes i keyed.2 later h')
        | inr (usable, split) ↦
            Grants-workers node split.workers (places i spec) usable split.limit (
              rw (split.whole, places-append, ← at_key, keyed.0)
                (omega (
                  arith,
                  places-replicate_self node.id (pos_part split.workers) q.worker_resource,
                  places-absent nodes node.id keyed.2 (rw keyed.0 at keyed.1) split.tail,
                )))
      ]

  -- A node of the dict gets what it admits.
  pub places-Grants :
      (nodes : Dict ℕ Node) (i : ℕ) (n : Node) {spec : List ResourceSpec}
      → IsKeyed nodes
      → lookup i nodes ≡ some n
      → Allocates nodes spec
      → Grants cluster q.worker_resource n (places i spec)
  unfolding lookup
  places-Grants [] i n keyed found h = absurd (cc)
  places-Grants ((k, node) ∷ nodes) i n {spec} keyed found h =
      elim (lookup-cons-eq-some k i node n nodes found) [
        | inl (at_key, same) ↦
            subst (λ m. Grants cluster q.worker_resource m (places i spec)) same
              (places-here k node nodes i keyed at_key h)
        | inr (other, found') ↦ elim (Allocates-cases k node nodes h) [
          | inl h' ↦ places-Grants nodes i n keyed.2 found' h'
          | inr (_, split) ↦
              let e : places i spec ≡ places i split.others =
                rw (split.whole, places-append)
                  (omega (
                    arith,
                    places-replicate_ne i node.id (pos_part split.workers) q.worker_resource
                        (λ e. other (keyed.0 ∙ sym e)),
                  )) in
              rw e (places-Grants nodes i n keyed.2 found' split.tail)
        ]
      ]

  -- Every worker gets the amounts of the request.
  pub Allocates-resource :
      (nodes : Dict ℕ Node) {spec : List ResourceSpec}
      → Allocates nodes spec
      → All (λ s. s.resource ≡ q.worker_resource) spec
  Allocates-resource [] h = rw (Allocates-nil h) tt
  Allocates-resource ((k, node) ∷ nodes) h = elim (Allocates-cases k node nodes h) [
    | inl h' ↦ Allocates-resource nodes h'
    | inr (_, split) ↦ rw split.whole (
        All-append _ _ split.others (All-replicate _ (pos_part split.workers) _ refl)
          (Allocates-resource nodes split.tail))
  ]
