-- ===== src/Client/Tasks/Layer.antt =====
-- The resource manager (neursafe_fl/python/resource_manager/rm.py) as what the task manager of a client
-- uses of it (neursafe_fl/python/client/task_manager.py).
use yanshi_shield.Base.{
  ℕ, ◌≡◌, refl, ap, ◌∙◌, Bool, true, false, none, List, if◌then◌else◌, nat_beq, nat_eq, arith,
  Result, ok, raise, if_holds,
}
use yanshi_shield.Base.Dict.{Dict, lookup, insert, contains, lookup-insert, lookup-erase}
use yanshi_shield.ResourceManager.Allocation.{
  Request, ResourceSpec, ResourceError, allocate_resource,
}
use yanshi_shield.ResourceManager.Manager.{Manager, grant, release, release_known, request}
use yanshi_shield.ResourceManager.Manager.Requests.{request-granted, request_refused}
use yanshi_shield.Client.Tasks.{ResourceLayer}

-- Whether a task holds resources
abbrev pub holds : ℕ → Manager → Bool
holds task_id manager = contains task_id manager.tasks

pub holds-release_lem :
    (other task_id : ℕ) (m : Manager)
    → holds other (release task_id m) ≡ (if nat_beq task_id other then false else holds other m)
unfolding release contains
holds-release_lem other task_id m = ground (arith, lookup-erase other task_id m.tasks)

release_known_other :
    (other task_id : ℕ) (m : Manager)
    → nat_beq task_id other ≡ false
    → holds other (release_known task_id m) ≡ holds other m
unfolding release_known
release_known_other other task_id m differ =
    if_holds (λ (after : Manager). holds other after ≡ holds other m) (holds task_id m)
      (λ _. holds-release_lem other task_id m ∙ rw differ refl) (λ _. refl)

inserted :
    (other task_id : ℕ) (spec : List ResourceSpec) (tasks : Dict ℕ (List ResourceSpec))
    → nat_beq task_id other ≡ false
    → contains other (insert task_id spec tasks) ≡ contains other tasks
unfolding contains
inserted other task_id spec tasks differ =
    ground (arith, differ, lookup-insert other task_id spec tasks)

pub request_other :
    (cluster other task_id : ℕ) (q : Request) (m : Manager)
    → nat_beq task_id other ≡ false
    → holds other (request cluster task_id q m).0 ≡ holds other m
unfolding request
request_other cluster other task_id q m differ = answered (allocate_resource cluster q known.nodes)
  where
    known : Manager
    known = release_known task_id m

    answered :
        (r : Result ResourceError (List ResourceSpec))
        → holds other
            (elim r as (λ _. Manager × Result ResourceError (List ResourceSpec)) [
              | ok spec ↦ (grant task_id spec (release_known task_id m), ok spec)
              | raise e ↦ (release_known task_id m, raise e)
            ]).0
          ≡ holds other m
    answered (raise e) = release_known_other other task_id m differ
    answered (ok spec) =
        inserted other task_id spec (release_known task_id m).tasks differ
        ∙ release_known_other other task_id m differ

pub still_free :
    (cluster task_id : ℕ) (q : Request) (m : Manager) (e : ResourceError)
    → holds task_id m ≡ false
    → (request cluster task_id q m).1 ≡ raise e
    → holds task_id (request cluster task_id q m).0 ≡ false
unfolding contains
still_free cluster task_id q m e free refused =
    let unknown : lookup task_id m.tasks ≡ none = ground (arith, free) in
    ap (holds task_id) (request_refused cluster task_id q m e unknown refused) ∙ free

pub request_granted :
    (cluster task_id : ℕ) (q : Request) (m : Manager) (spec : List ResourceSpec)
    → (request cluster task_id q m).1 ≡ ok spec
    → holds task_id (request cluster task_id q m).0 ≡ true
unfolding contains
request_granted cluster task_id q m spec granted =
    ground (arith, (request-granted cluster task_id q m spec granted).1)

-- `request` and `release` of the resource manager
abbrev pub resource_manager :
    (cluster : ℕ) → ResourceLayer Manager Request (List ResourceSpec) ResourceError
resource_manager cluster = record {
  request = request cluster;
  release = release;
  holds = holds;
  holds-granted = request_granted cluster;
  holds-refused = still_free cluster;
  holds-request_other = request_other cluster;
  holds-release = holds-release_lem;
}
