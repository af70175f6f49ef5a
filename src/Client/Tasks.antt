-- ===== src/Client/Tasks.antt =====
-- neursafe_fl/python/client/task_manager.py, and the life of a task in task.py, as the segments between
-- which its coroutine waits. A task is known by the name of its job, its round and its type; how its id
-- is put together from these and the time is the module Ids, here an argument. What the workers, the files and the servers
-- do comes in as an outcome. `ResourceLayer` is what the manager uses of the resource manager.
pub mod Held
pub mod Changes
pub mod Running
pub mod Ids
pub mod Leaking
pub mod Layer
mod Tests
use yanshi_shield.Base.{
  ℕ, ◌≡◌, Bool, true, false, not, ◌&&◌, ◌||◌, Option, none, some, List, [], ◌∷◌, if◌then◌else◌,
  nat_beq, nat_eq, pair_eq, ltb, Result, ok, raise,
}
use yanshi_shield.Base.Dict.{Dict, lookup, insert, erase, contains}

-- The calls of the resource manager, with what they say about who holds resources
pub record ResourceLayer (S Q : Type 0) (Spec E : Type 0) : Type 0 where
  pub request : ℕ → Q → S → S × Result E Spec
  pub release : ℕ → S → S
  pub holds : ℕ → S → Bool
  pub holds-granted :
      (task_id : ℕ) (q : Q) (s : S) (spec : Spec)
      → (request task_id q s).1 ≡ ok spec
      → holds task_id (request task_id q s).0 ≡ true
  pub holds-refused :
      (task_id : ℕ) (q : Q) (s : S) (e : E)
      → holds task_id s ≡ false
      → (request task_id q s).1 ≡ raise e
      → holds task_id (request task_id q s).0 ≡ false
  pub holds-request_other :
      (other task_id : ℕ) (q : Q) (s : S)
      → nat_beq task_id other ≡ false
      → holds other (request task_id q s).0 ≡ holds other s
  pub holds-release :
      (other task_id : ℕ) (s : S)
      → holds other (release task_id s) ≡ (if nat_beq task_id other then false else holds other s)

-- `(job_name, round, task_type)`
abbrev pub TaskKey : Type 0
TaskKey = ℕ × (ℕ × ℕ)

pub data TaskStatus : Type 0 where
  running success failed : TaskStatus

-- Where `execute` is: before `_executing_task` is set, at it, or gone without a call of `handle_finish`
pub data Phase : Type 0 where
  preparing executing given_up : Phase

pub record Task : Type 0 where
  pub task_id : ℕ
  pub phase : Phase
  pub cancelled : Bool

pub record TaskManager (S : Type 0) : Type 0 where
  pub tasks : Dict TaskKey Task
  -- the rows of the task dao
  pub rows : Dict ℕ TaskStatus
  pub resources : S

-- `__merge_resource_setting` for one amount; 0 stands for what is not set.
abbrev get_valid_value : (local_value remote_value : ℕ) → ℕ
get_valid_value local_value remote_value =
    if ltb 0 local_value && (ltb local_value remote_value || nat_beq remote_value 0)
    then local_value
    else remote_value

-- How `_save_files_to_workspace` ends: well, with FLError or ParameterError, or with another exception
pub data Prepared : Type 0 where
  well refused broken : Prepared

-- How `_do_execute` ends: well, with FLError, cancelled, or with another exception
pub data Ended : Type 0 where
  succeeded fl_error was_cancelled crashed : Ended

pub data CreateError (E : Type 0) : Type 0 where
  parameter_error file_exists not_saved : CreateError E
  resource_error : E → CreateError E

-- `task_dao.save` and `task_dao.update`
abbrev record_status : {S : Type 0} → ℕ → TaskStatus → TaskManager S → TaskManager S
record_status task_id status self = record self { rows = insert task_id status self.rows }

abbrev with_task : {S : Type 0} → TaskKey → Task → TaskManager S → TaskManager S
with_task key task self = record self { tasks = insert key task self.tasks }

-- The rest of `execute` after `_save_files_to_workspace`; only the first of the three goes on.
unfoldable pub prepared : {S : Type 0} → TaskKey → Task → Prepared → TaskManager S → TaskManager S
unfolding insert
prepared key task well self = with_task key (record task { phase = executing }) self
prepared key task refused self =
    record_status task.task_id failed (with_task key (record task { phase = given_up }) self)
prepared key task broken self = with_task key (record task { phase = given_up }) self

-- What `_do_execute` leaves in the database
unfoldable pub do_execute : {S : Type 0} → Task → Ended → TaskManager S → TaskManager S
unfolding insert
do_execute task succeeded self = record_status task.task_id success self
do_execute task fl_error self = record_status task.task_id failed self
do_execute task _ self = self

abbrev pub is_preparing : Phase → Bool
is_preparing preparing = true
is_preparing _ = false

abbrev pub is_executing : Phase → Bool
is_executing executing = true
is_executing _ = false

-- `cancel`, which `stop` calls
unfoldable pub cancel : {S : Type 0} → TaskKey → Task → TaskManager S → TaskManager S
unfolding insert
cancel key task self =
    if is_executing task.phase then with_task key (record task { cancelled = true }) self else self

-- What may happen, a creation at the time that its id is made from, with whether the directory of its
-- workspace is new and whether its row can be saved
pub data TaskEvent (Q : Type 0) : Type 0 where
  creates : TaskKey → (time : ℕ) → (is_new is_saved : Bool) → Q → TaskEvent Q
  prepares : TaskKey → Prepared → TaskEvent Q
  ends : TaskKey → Ended → TaskEvent Q
  stops : TaskKey → TaskEvent Q

-- Only what was cancelled ends as cancelled.
abbrev pub may_end : Task → Ended → Bool
may_end task was_cancelled = task.cancelled
may_end task _ = true

module _ {S Q Spec E : Type 0} (layer : ResourceLayer S Q Spec E) where
  -- `__create` from the request on; where `persist` raises, the task is not added, and what was granted
  -- stays granted.
  unfoldable pub create_task :
      TaskKey
      → (task_id : ℕ) → (is_saved : Bool) → S × Result E Spec
      → TaskManager S
      → TaskManager S × Result (CreateError E) Spec
  unfolding insert
  create_task key task_id is_saved (resources, raise e) self =
      (record self { resources = resources }, raise (resource_error e))
  create_task key task_id false (resources, ok spec) self =
      (record self { resources = resources }, raise not_saved)
  create_task key task_id true (resources, ok spec) self = (
    record {
      tasks =
          insert key (record { task_id = task_id; phase = preparing; cancelled = false })
            self.tasks;
      rows = insert task_id running self.rows;
      resources = resources;
    },
    ok spec,
  )

  -- `create`, with whether the directory of the workspace is new
  unfoldable pub create :
      TaskKey
      → (task_id : ℕ) → (is_new is_saved : Bool) → Q
      → TaskManager S
      → TaskManager S × Result (CreateError E) Spec
  unfolding create_task contains
  create key task_id is_new is_saved q self =
      if contains key self.tasks
      then (self, raise parameter_error)
      else if is_new
      then create_task key task_id is_saved (layer.request task_id q self.resources) self
      else (self, raise file_exists)

  -- `__do_finish`
  unfoldable pub do_finish : TaskKey → Task → TaskManager S → TaskManager S
  unfolding erase
  do_finish key task self = record self {
    tasks = erase key self.tasks;
    resources = layer.release task.task_id self.resources;
  }

  -- The end of `execute`, where `finally` deletes the workers and calls `handle_finish`
  unfoldable pub ended : TaskKey → Task → Ended → TaskManager S → TaskManager S
  unfolding do_execute do_finish
  ended key task outcome self = do_finish key task (do_execute task outcome self)

  module _ (gen_task_id : TaskKey → (time : ℕ) → ℕ) where
    -- One thing that happens; what is not due does not happen.
    unfoldable pub happen : TaskEvent Q → TaskManager S → TaskManager S
    unfolding create prepared ended cancel lookup
    happen (creates key time is_new is_saved q) self =
        (create key (gen_task_id key time) is_new is_saved q self).0
    happen (prepares key outcome) self = elim (lookup key self.tasks) [
      | none ↦ self
      | some task ↦ if is_preparing task.phase then prepared key task outcome self else self
    ]
    happen (ends key outcome) self = elim (lookup key self.tasks) [
      | none ↦ self
      | some task ↦
          if is_executing task.phase && may_end task outcome
          then ended key task outcome self
          else self
    ]
    happen (stops key) self = elim (lookup key self.tasks) [
      | none ↦ self
      | some task ↦ cancel key task self
    ]

    unfoldable pub happen_all : List (TaskEvent Q) → TaskManager S → TaskManager S
    unfolding happen
    happen_all [] self = self
    happen_all (event ∷ later) self = happen_all later (happen event self)
