-- ===== src/ResourceManager/Node.antt =====
-- neursafe_fl/python/resource_manager/node.py and resource.py. Amounts are counted in a unit in
-- which cpu, gpu and memory requests are whole; what is free may fall below zero.
pub mod Accounting
use yanshi_shield.Base.{
  ℕ, ◌+◌, Bool, true, false, Option, none, some, List, [], ◌∷◌, if◌then◌else◌, ◌&&◌, ◌||◌, not,
  nat_beq, nat_eq,
}
use yanshi_shield.Base.Int.{ℤ, pos, negsuc, ◌+ℤ◌, ◌-ℤ◌, pos_part, neg_part}
use yanshi_shield.Base.Dict.{Dict, lookup, insert, erase, contains}

pub data NodeState : Type 0 where
  ready not_ready : NodeState

pub record Resource : Type 0 where
  pub volume : ℤ
  pub allocated : ℤ

-- The dict of a request, with the keys "cpu", "gpu" and "memory" that it may hold.
pub record ResourceRequest : Type 0 where
  pub cpu : Option ℕ
  pub gpu : Option ℕ
  pub memory : Option ℕ

-- `resources.get(key, 0)`
abbrev pub amount : Option ℕ → ℕ
amount none = 0
amount (some n) = n

-- An entry of a node's `__tasks`, which holds all three keys.
pub record Usage : Type 0 where
  pub cpu : ℕ
  pub gpu : ℕ
  pub memory : ℕ

abbrev pub usage : ResourceRequest → Usage
usage r = record { cpu = amount r.cpu; gpu = amount r.gpu; memory = amount r.memory }

abbrev pub add_usage : Usage → Usage → Usage
add_usage a b = record { cpu = a.cpu + b.cpu; gpu = a.gpu + b.gpu; memory = a.memory + b.memory }

pub record Node : Type 0 where
  pub id : ℕ
  pub gpu : Resource
  pub cpu : Resource
  pub memory : Resource
  pub cluster_label : ℕ
  pub state : NodeState
  pub tasks : Dict ℕ Usage

abbrev fresh_resource : ℤ → Resource
fresh_resource volume = record { volume = volume; allocated = pos 0 }

-- `Node.__init__`
abbrev pub new_node : ℕ → NodeState → (gpu_volume cpu_volume memory_volume : ℤ) → ℕ → Node
new_node id state gpu_volume cpu_volume memory_volume cluster_label = record {
  id = id;
  gpu = fresh_resource gpu_volume;
  cpu = fresh_resource cpu_volume;
  memory = fresh_resource memory_volume;
  cluster_label = cluster_label;
  state = state;
  tasks = [];
}

-- `Node.__occupy_resource`
abbrev pub occupy_amounts : Usage → Node → Node
occupy_amounts u n = record n {
  cpu = record { volume = n.cpu.volume; allocated = n.cpu.allocated +ℤ pos u.cpu };
  gpu = record { volume = n.gpu.volume; allocated = n.gpu.allocated +ℤ pos u.gpu };
  memory = record { volume = n.memory.volume; allocated = n.memory.allocated +ℤ pos u.memory };
}

-- `Node.__release_resource`
abbrev pub release_amounts : Usage → Node → Node
release_amounts u n = record n {
  cpu = record { volume = n.cpu.volume; allocated = n.cpu.allocated -ℤ pos u.cpu };
  gpu = record { volume = n.gpu.volume; allocated = n.gpu.allocated -ℤ pos u.gpu };
  memory = record { volume = n.memory.volume; allocated = n.memory.allocated -ℤ pos u.memory };
}

-- `Node.__add_task_resource`, on the node's dict of tasks
abbrev pub add_task_resource : ℕ → Usage → Dict ℕ Usage → Dict ℕ Usage
add_task_resource task_id u tasks = elim (lookup task_id tasks) [
  | some old ↦ insert task_id (add_usage old u) tasks
  | none ↦ insert task_id u tasks
]

unfoldable pub occupy_resource : ℕ → ResourceRequest → Node → Node
occupy_resource task_id resources n =
    occupy_amounts (usage resources)
      (record n { tasks = add_task_resource task_id (usage resources) n.tasks })

abbrev pub is_zero_usage : Usage → Bool
is_zero_usage u = nat_beq u.cpu 0 && nat_beq u.gpu 0 && nat_beq u.memory 0

-- `Node.__del_task_resource` for a task with the entry `old`. As the source has it, the amounts
-- are added to the entry.
abbrev pub del_task_resource : ℕ → Usage → Usage → Dict ℕ Usage → Dict ℕ Usage
del_task_resource task_id old u tasks =
    let left = add_usage old u in
    if is_zero_usage left
    then erase task_id (insert task_id left tasks)
    else insert task_id left tasks

unfoldable pub release_resource : ℕ → ResourceRequest → Node → Node
release_resource task_id resources n = elim (lookup task_id n.tasks) [
  | some old ↦
      release_amounts (usage resources)
        (record n { tasks = del_task_resource task_id old (usage resources) n.tasks })
  | none ↦ n
]

abbrev beq_ℤ : ℤ → ℤ → Bool
beq_ℤ a b = nat_beq (pos_part a + neg_part b) (pos_part b + neg_part a)

abbrev beq_state : NodeState → NodeState → Bool
beq_state ready ready = true
beq_state not_ready not_ready = true
beq_state _ _ = false

-- `Node.__update_needed`
unfoldable pub update_needed : Node → Node → Bool
update_needed n new_node =
    not (beq_ℤ new_node.cpu.volume n.cpu.volume)
    || not (beq_ℤ new_node.gpu.volume n.gpu.volume)
    || not (beq_ℤ new_node.memory.volume n.memory.volume)
    || not (beq_state new_node.state n.state)
    || not (nat_beq new_node.cluster_label n.cluster_label)

-- `self.occupy_resource(task_id, task_resource)` in the loop of `update`. There `task_resource` is
-- the node's own entry for the task: the entry is added to itself first, and `__occupy_resource`
-- then reads the doubled entry.
abbrev pub reoccupy : ℕ → Usage → Node → Node
reoccupy task_id own n =
    let doubled = add_usage own own in
    occupy_amounts doubled (record n { tasks = insert task_id doubled n.tasks })

abbrev pub reoccupy_all : Dict ℕ Usage → Node → Node
reoccupy_all [] n = n
reoccupy_all ((task_id, own) ∷ rest) n = reoccupy_all rest (reoccupy task_id own n)

-- The assignments of `update` before its loop.
abbrev pub described : Node → Node → Node
described n new_node = record n {
  cpu = record { volume = new_node.cpu.volume; allocated = n.cpu.allocated };
  gpu = record { volume = new_node.gpu.volume; allocated = n.gpu.allocated };
  memory = record { volume = new_node.memory.volume; allocated = n.memory.allocated };
  state = new_node.state;
  cluster_label = new_node.cluster_label;
}

unfoldable pub update : Node → Node → Node
update n new_node =
    if update_needed n new_node then reoccupy_all n.tasks (described n new_node) else n
