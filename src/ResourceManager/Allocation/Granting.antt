-- ===== src/ResourceManager/Allocation/Granting.antt =====
-- What a successful `__allocate_resource` grants (resource_manager/rm.py).
use yanshi_shield.Base.{
  ℕ, zero, suc, ◌≤◌, ◌<◌, ◌≡◌, refl, true, none, some, List, [], ◌∷◌, ◌++◌, arith, ok, take,
  replicate, length, All, Option-cases, inl, inr, ◌⊎◌, ◌∙◌, nat_eq, >>=-eq-ok, length-append,
  length-take, length-replicate, countb-take-le, All-take,
}
use yanshi_shield.Base.Int.{ℤ, pos, ◌+ℤ◌, ◌≤ℤ◌, pos_part, int_laws}
use yanshi_shield.Base.Dict.{Dict, lookup}
use yanshi_shield.ResourceManager.Node.{Node, ready}
use yanshi_shield.ResourceManager.Allocation.{
  Request, ResourceSpec, Limit, finite, unlimited, reaches, is_usable, filter_nodes,
  allocate_candidates, allocate_resource,
}
use yanshi_shield.ResourceManager.Allocation.Room.{Admits, HasRoom, Admits-HasRoom}
use yanshi_shield.ResourceManager.Allocation.Capacity.{
  places, IsKeyed, Allocates, allocate_candidates-IsSplit, places-Grants, places-absent,
  Allocates-resource,
}
use yanshi_shield.ResourceManager.Allocation.Filtering.{
  candidates-cases, workers_from, filter_nodes-IsCut,
}

lookup-take :
    (n i : ℕ) (nodes : Dict ℕ Node)
    → (lookup i (take n nodes) ≡ none) ⊎ (lookup i (take n nodes) ≡ lookup i nodes)
unfolding lookup
lookup-take zero i nodes = inl refl
lookup-take (suc n) i [] = inl refl
lookup-take (suc n) i ((k, node) ∷ nodes) = ground (arith, lookup-take n i nodes)

IsKeyed-take : (n : ℕ) (nodes : Dict ℕ Node) → IsKeyed nodes → IsKeyed (take n nodes)
IsKeyed-take zero nodes h = tt
IsKeyed-take (suc n) [] h = tt
IsKeyed-take (suc n) ((k, node) ∷ nodes) h =
    (h.0, ground (arith, lookup-take n k nodes), IsKeyed-take n nodes h.2)

split_le :
    (z w t : ℤ) (s : ResourceSpec) (others : List ResourceSpec)
    → t ≤ℤ z +ℤ w +ℤ pos (length others)
    → t ≤ℤ z +ℤ pos (length (replicate (pos_part w) s ++ others))
split_le z w t s others h = rw (length-append, length-replicate) (omega int_laws)

reaches-le : (t : ℤ) (n c : ℕ) → reaches (finite t) n ≡ true → t ≤ℤ pos 0 +ℤ pos c → n ≤ c
unfolding reaches ◌+ℤ◌
reaches-le t n c h le = ground arith

module _ (cluster : ℕ) (q : Request) where
  -- What is counted for some nodes is no more than what their candidates get.
  workers_from-le :
      (nodes : Dict ℕ Node) (z : ℤ) {spec : List ResourceSpec}
      → Allocates cluster q nodes spec
      → (t : ℤ) × (workers_from cluster q (finite z) nodes ≡ finite t)
        × (t ≤ℤ z +ℤ pos (length spec))
  unfolding workers_from
  workers_from-le [] z h = (z, refl, omega int_laws)
  workers_from-le ((k, node) ∷ nodes) z {spec} h =
      elim (candidates-cases cluster q (finite z) k node nodes) [
        | inl (same, total) ↦
            let (t, e, le) = workers_from-le nodes z (rw same at h) in (t, total ∙ e, le)
        | inr (_, more, total) ↦
            let split = allocate_candidates-IsSplit node q.worker_resource _ (rw more at h) in
            let (t, e, le) = workers_from-le nodes (z +ℤ split.workers) split.tail in
            (
              t,
              total ∙ rw split.limit e,
              rw split.whole (split_le z split.workers t _ split.others le),
            )
      ]

  -- The parts of a successful allocation: the nodes it has looked at, and what their candidates
  -- get before the cut to the number of workers asked for.
  record IsGrant (nodes : Dict ℕ Node) (granted : List ResourceSpec) : Type 0 where
    seen : ℕ
    spec : List ResourceSpec
    total : ℤ
    offered : Allocates cluster q (take seen nodes) spec
    cut : granted ≡ take q.worker_num spec
    enough : q.worker_num ≤ length spec

  allocate_resource-IsGrant :
      (nodes : Dict ℕ Node) {granted : List ResourceSpec}
      → allocate_resource cluster q nodes ≡ ok granted
      → IsGrant nodes granted
  unfolding allocate_resource
  allocate_resource-IsGrant nodes h =
      let (filtered, e, h') = >>=-eq-ok (filter_nodes cluster q nodes) _ h in
      let (spec, f, g) = >>=-eq-ok (allocate_candidates q.worker_resource filtered) _ h' in
      let c = filter_nodes-IsCut cluster q nodes e in
      let offered = rw c.result at f in
      let (t, total, le) = workers_from-le (take c.seen nodes) (pos 0) offered in
      record {
        seen = c.seen;
        spec = spec;
        total = t;
        offered = offered;
        cut = cc;
        enough = reaches-le t q.worker_num (length spec) (rw total at c.enough) le;
      }

-- A successful allocation names exactly as many workers as were asked for.
pub length-allocate_resource :
    (cluster : ℕ) (q : Request) (nodes : Dict ℕ Node) (granted : List ResourceSpec)
    → allocate_resource cluster q nodes ≡ ok granted
    → length granted ≡ q.worker_num
length-allocate_resource cluster q nodes granted h =
    let g = allocate_resource-IsGrant cluster q nodes h in
    rw (g.cut, length-take) (omega (arith, g.enough))

Admits-mono : (l : Limit) (c d : ℕ) → d ≤ c → Admits l c → Admits l d
Admits-mono unlimited c d le h = tt
Admits-mono (finite z) c d le h = omega arith

places-take-le : (i n : ℕ) (spec : List ResourceSpec) → places i (take n spec) ≤ places i spec
unfolding places
places-take-le i n spec = countb-take-le _ n spec

is_usable_lem :
    (cluster : ℕ) (n : Node)
    → is_usable cluster n ≡ true
    → (n.state ≡ ready) × (n.cluster_label ≡ cluster)
unfolding is_usable
is_usable_lem cluster n h = (ground (arith, h), ground (arith, h))

-- Where the nodes are filed under their ids, a successful allocation puts workers only on nodes of the
-- dict whose state is ready and whose label is the cluster's, and on no node more than fit into what is
-- free there of each resource that a worker asks for.
pub allocate_resource-HasRoom :
    (cluster : ℕ) (q : Request) (nodes : Dict ℕ Node) (granted : List ResourceSpec) (i : ℕ)
    → IsKeyed nodes
    → allocate_resource cluster q nodes ≡ ok granted
    → 0 < places i granted
    → (n : Node) × (lookup i nodes ≡ some n)
      × (n.state ≡ ready)
      × (n.cluster_label ≡ cluster)
      × HasRoom n q.worker_resource (places i granted)
allocate_resource-HasRoom cluster q nodes granted i keyed h chosen =
    let g = allocate_resource-IsGrant cluster q nodes h in
    let fewer : places i granted ≤ places i g.spec =
      rw g.cut (places-take-le i q.worker_num g.spec) in
    let seen_keyed = IsKeyed-take g.seen nodes keyed in
    elim (Option-cases (lookup i (take g.seen nodes))) [
      | inl absent ↦
          absurd (
            omega
              (arith, places-absent cluster q (take g.seen nodes) i seen_keyed absent g.offered))
      | inr (n, found) ↦
          elim (places-Grants cluster q (take g.seen nodes) i n seen_keyed found g.offered) [
            | inl nothing ↦ absurd (omega arith)
            | inr (usable, admits) ↦ (
              n,
              ground (arith, lookup-take g.seen i nodes),
              (is_usable_lem cluster n usable).0,
              (is_usable_lem cluster n usable).1,
              Admits-HasRoom n q.worker_resource _ chosen (Admits-mono _ _ _ fewer admits),
            )
          ]
    ]

-- Every worker of a successful allocation gets the amounts that the request names.
pub allocate_resource-resource :
    (cluster : ℕ) (q : Request) (nodes : Dict ℕ Node) (granted : List ResourceSpec)
    → allocate_resource cluster q nodes ≡ ok granted
    → All (λ s. s.resource ≡ q.worker_resource) granted
allocate_resource-resource cluster q nodes granted h =
    let g = allocate_resource-IsGrant cluster q nodes h in
    rw g.cut
      (All-take _ q.worker_num g.spec (Allocates-resource cluster q (take g.seen nodes) g.offered))
