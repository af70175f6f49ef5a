-- ===== src/ResourceManager/Manager/Requests.antt =====
-- `request` and `release` of the resource manager (resource_manager/rm.py).
use yanshi_shield.Base.{
  ℕ, ◌<◌, ◌≡◌, none, some, List, arith, nat_eq, ◌==◌, if◌then◌else◌, inl, inr, ok, raise, length,
  Result-cases, beq_refl,
}
use yanshi_shield.Base.Int.{pos, ◌≤ℤ◌, int_laws}
use yanshi_shield.Base.Dict.{lookup, contains, lookup-insert, lookup-erase}
use yanshi_shield.ResourceManager.Node.{Node, Resource, ResourceRequest, amount}
use yanshi_shield.ResourceManager.Allocation.{
  Request, ResourceSpec, ResourceError, allocate_resource, free,
}
use yanshi_shield.ResourceManager.Allocation.Capacity.{places, IsKeyed}
use yanshi_shield.ResourceManager.Allocation.Room.{HasRoom}
use yanshi_shield.ResourceManager.Allocation.Granting.{
  length-allocate_resource, allocate_resource-HasRoom, allocate_resource-resource,
}
use yanshi_shield.ResourceManager.Manager.Occupied.{Grown, Loaded, occupy_all-Loaded}
use yanshi_shield.ResourceManager.Manager.{Manager, release, release_known, request, grant}

-- No more of a resource is allocated than there is.
abbrev pub Fits : Resource → Type 0
Fits r = r.allocated ≤ℤ r.volume

-- A node holds no more than it has, of each resource that a worker asks for.
pub record WithinVolume (r : ResourceRequest) (n : Node) : Type 0 where
  pub cpu : 0 < amount r.cpu → Fits n.cpu
  pub gpu : 0 < amount r.gpu → Fits n.gpu
  pub memory : 0 < amount r.memory → Fits n.memory

Grown-Fits : (a b : Resource) (x : ℕ) → pos x ≤ℤ free a → Grown a b x → Fits b
Grown-Fits a b x room g = rw (g.volume, g.allocated) (omega int_laws)

Loaded-WithinVolume :
    (r : ResourceRequest) (n n' : Node) (c : ℕ)
    → HasRoom n r c
    → Loaded n n' r c
    → WithinVolume r n'
Loaded-WithinVolume r n n' c room l = record {
  cpu = λ h. Grown-Fits n.cpu n'.cpu _ (room.cpu h) l.cpu;
  gpu = λ h. Grown-Fits n.gpu n'.gpu _ (room.gpu h) l.gpu;
  memory = λ h. Grown-Fits n.memory n'.memory _ (room.memory h) l.memory;
}

request-eq-ok :
    (cluster task_id : ℕ) (q : Request) (m : Manager) {spec : List ResourceSpec}
    → (request cluster task_id q m).1 ≡ ok spec
    → (allocate_resource cluster q (release_known task_id m).nodes ≡ ok spec)
      × ((request cluster task_id q m).0 ≡ grant task_id spec (release_known task_id m))
unfolding request
request-eq-ok cluster task_id q m h =
    elim (Result-cases (allocate_resource cluster q (release_known task_id m).nodes)) [
      | inl (spec, e) ↦ ground arith
      | inr (failure, e) ↦ absurd (cc (rw (e, request) at h))
    ]

-- The resources that a request grants are as many as it asks for, and are recorded under the task.
pub request-granted :
    (cluster task_id : ℕ) (q : Request) (m : Manager) (spec : List ResourceSpec)
    → (request cluster task_id q m).1 ≡ ok spec
    → (length spec ≡ q.worker_num)
      × (lookup task_id (request cluster task_id q m).0.tasks ≡ some spec)
request-granted cluster task_id q m spec h =
    let (granted, e) = request-eq-ok cluster task_id q m h in
    (length-allocate_resource cluster q _ spec granted, rw (e, lookup-insert) (rw beq_refl))

-- Where the nodes are filed under their ids, a granted request never overcommits a node: whichever
-- node it has put workers on belongs to the manager and holds, after them, no more than its volume of
-- each resource that a worker asks for.
pub request-WithinVolume :
    (cluster task_id : ℕ) (q : Request) (m : Manager) (spec : List ResourceSpec) (i : ℕ)
    → IsKeyed (release_known task_id m).nodes
    → (request cluster task_id q m).1 ≡ ok spec
    → 0 < places i spec
    → (n : Node) × (lookup i (request cluster task_id q m).0.nodes ≡ some n)
      × WithinVolume q.worker_resource n
request-WithinVolume cluster task_id q m spec i keyed h chosen =
    let (granted, e) = request-eq-ok cluster task_id q m h in
    let (n, found, _, _, room) =
      allocate_resource-HasRoom cluster q _ spec i keyed granted chosen in
    let (n', found', loaded) =
      occupy_all-Loaded task_id q.worker_resource spec (release_known task_id m).nodes i n
        (allocate_resource-resource cluster q _ spec granted) found in
    (n', rw e found', Loaded-WithinVolume q.worker_resource n n' _ room loaded)

-- A refused request of a task that holds nothing changes nothing.
pub request_refused :
    (cluster task_id : ℕ) (q : Request) (m : Manager) (e : ResourceError)
    → lookup task_id m.tasks ≡ none
    → (request cluster task_id q m).1 ≡ raise e
    → (request cluster task_id q m).0 ≡ m
unfolding request release_known contains
request_refused cluster task_id q m e unknown h = ground arith

-- A release forgets the task and keeps what is recorded of all others.
release-lookup :
    (task_id other : ℕ) (m : Manager)
    → lookup other (release task_id m).tasks
      ≡ (if task_id == other then none else lookup other m.tasks)
unfolding release
release-lookup task_id other m = lookup-erase other task_id m.tasks
