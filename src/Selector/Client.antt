-- ===== src/Selector/Client.antt =====
-- neursafe_fl/python/selector/clients/client.py: the class `Client`, with the tests of
-- `ClientState` and the heartbeat intervals of clients/const.py. Strings are numbers; times are in a
-- unit in which they are whole. A condition is a requirement as `match` has parsed it.
use yanshi_shield.Base.{
  ℕ, zero, suc, ◌+◌, ◌-◌, ◌≡◌, Bool, true, false, not, ◌&&◌, ◌||◌, Option, none, some, List, [],
  ◌∷◌, ◌++◌, if◌then◌else◌, ltb, nat_beq, nat_eq, arith, countb,
}
use yanshi_shield.Base.Int.{ℤ, negsuc, pos_part}
use yanshi_shield.Base.Dict.{Dict, lookup, contains}

pub data ClientType : Type 0 where
  single cluster other_type : ClientType

pub data ClientState : Type 0 where
  idle full available erroneous : ClientState

-- What a client reports, less its type and id; the id and the address are not empty.
pub record ClientInfo : Type 0 where
  pub address : ℕ
  pub state : ClientState
  pub max_parallelism : ℤ
  pub cur_parallelism : ℕ
  -- `none` is an empty string.
  pub os : Option ℕ
  pub runtime : List ℕ
  pub label : List ℕ
  pub resource : Dict ℕ ℕ
  pub data_number : Dict ℕ ℕ
  pub status : Dict ℕ ℕ
  pub tasks : List ℕ

pub record Client : Type 0 where
  pub client_type : ClientType
  pub id : ℕ
  pub info : ClientInfo
  pub expire_time : ℕ
  pub history : List ℕ

-- `__init__`; a report sets the time at once.
abbrev pub new_client : ClientType → ℕ → ClientInfo → Client
new_client client_type id config = record {
  client_type = client_type;
  id = id;
  info = config;
  expire_time = 0;
  history = [];
}

-- `HeartBeat.get`, with the settings for single clients and for clusters
abbrev pub heartbeat_interval : (single_heart cluster_heart : ℕ) → ClientType → ℕ
heartbeat_interval single_heart cluster_heart single = single_heart
heartbeat_interval single_heart cluster_heart cluster = cluster_heart
heartbeat_interval single_heart cluster_heart other_type = 100

abbrev mem : ℕ → List ℕ → Bool
mem x [] = false
mem x (y ∷ ys) = nat_beq x y || mem x ys

-- `list.remove`, of an element that is there
abbrev remove_first : ℕ → List ℕ → List ℕ
remove_first x [] = []
remove_first x (y ∷ ys) = if nat_beq x y then ys else y ∷ remove_first x ys

unfoldable pub assign_task : ℕ → Client → Client
assign_task task_info self = record self {
  info = record self.info {
    cur_parallelism = suc self.info.cur_parallelism;
    tasks = self.info.tasks ++ (task_info ∷ []);
  };
  history = if mem task_info self.history then self.history else self.history ++ (task_info ∷ []);
}

unfoldable pub release_task : ℕ → Client → Client
release_task task_info self = record self {
  info = record self.info {
    cur_parallelism = self.info.cur_parallelism - 1;
    tasks =
        if mem task_info self.info.tasks
        then remove_first task_info self.info.tasks
        else self.info.tasks;
  };
}

-- `update`
abbrev pub update : ClientInfo → Client → Client
update config self = record self { info = config }

-- `refresh_time`
abbrev pub refresh_time : (interval now : ℕ) → Client → Client
refresh_time interval now self = record self { expire_time = now + interval }

unfoldable pub is_expired : ℕ → Client → Bool
is_expired now self = ltb self.expire_time now

abbrev is_unlimited : ℤ → Bool
is_unlimited (negsuc zero) = true
is_unlimited _ = false

abbrev is_open_state : ClientState → Bool
is_open_state available = true
is_open_state idle = true
is_open_state _ = false

unfoldable pub is_available : ℕ → Client → Bool
unfolding is_expired
is_available now self =
    if is_expired now self
    then false
    else (is_unlimited self.info.max_parallelism
        || ltb self.info.cur_parallelism (pos_part self.info.max_parallelism))
      && is_open_state self.info.state

abbrev pub is_task_trained : ℕ → Client → Bool
is_task_trained task_info self = mem task_info self.history

-- A key of the conditions with the value required
pub data Condition : Type 0 where
  os_equal : ℕ → Condition
  runtime_in label_in : ℕ → Condition
  data_in : List ℕ → Condition
  resource_bigger : Dict ℕ ℕ → Condition
  id_equal address_equal : ℕ → Condition
  type_equal : ClientType → Condition
  tasks_in : ℕ → Condition
  -- "status", whatever is required of it
  status_given : Condition
  -- A name that is no attribute, or one whose value is a number or a method, which no text equals: the
  -- state, the numbers of tasks.
  unknown : Condition

-- `_assert_in`, of a list of keys
abbrev all_in : List ℕ → Dict ℕ ℕ → Bool
all_in [] container = true
all_in (key ∷ sub) container = contains key container && all_in sub container

abbrev all_bigger : Dict ℕ ℕ → Dict ℕ ℕ → Bool
all_bigger [] attribute = true
all_bigger ((key, required) ∷ require) attribute = elim (lookup key attribute) [
  | none ↦ false
  | some value ↦ ltb required value && all_bigger require attribute
]

abbrev pub is_empty : Dict ℕ ℕ → Bool
is_empty [] = true
is_empty _ = false

abbrev same_type : ClientType → ClientType → Bool
same_type single single = true
same_type cluster cluster = true
same_type other_type other_type = true
same_type _ _ = false

-- One step of the loop of `match`; an attribute that is empty matches nothing. The private attributes,
-- whose names Python mangles, are left out.
unfoldable pub check_condition : Condition → Client → Bool
unfolding contains lookup
check_condition (os_equal require) self = elim self.info.os [
  | none ↦ false
  | some os ↦ nat_beq os require
]
check_condition (runtime_in require) self = mem require self.info.runtime
check_condition (label_in require) self = mem require self.info.label
check_condition (data_in require) self =
    not (is_empty self.info.data_number) && all_in require self.info.data_number
check_condition (resource_bigger require) self =
    not (is_empty self.info.resource) && all_bigger require self.info.resource
check_condition (id_equal require) self = nat_beq self.id require
check_condition (address_equal require) self = nat_beq self.info.address require
check_condition (type_equal require) self = same_type self.client_type require
check_condition (tasks_in require) self = mem require self.info.tasks
check_condition status_given self = not (is_empty self.info.status)
check_condition unknown self = false

-- `match`
unfoldable pub matches : List Condition → Client → Bool
unfolding check_condition
matches [] self = true
matches (condition ∷ conditions) self = check_condition condition self && matches conditions self

mem-append_last : (x : ℕ) (xs : List ℕ) → mem x (xs ++ (x ∷ [])) ≡ true
mem-append_last x [] = ground arith
mem-append_last x (y ∷ ys) = ground (arith, mem-append_last x ys)

countb-remove_first :
    (x z : ℕ) (xs : List ℕ)
    → mem x xs ≡ true
    → countb (nat_beq z) xs
      ≡ countb (nat_beq z) (remove_first x xs) + (if nat_beq z x then 1 else 0)
countb-remove_first x z [] h = cc
countb-remove_first x z (y ∷ ys) h = ground (arith, countb-remove_first x z ys, h)

countb-append_last :
    (x z : ℕ) (xs : List ℕ)
    → countb (nat_beq z) (xs ++ (x ∷ [])) ≡ countb (nat_beq z) xs + (if nat_beq z x then 1 else 0)
countb-append_last x z [] = ground arith
countb-append_last x z (y ∷ ys) = ground (arith, countb-append_last x z ys)

-- A task that is assigned to a client and released again leaves the count of its tasks, and how often
-- each task is among them, as they were; the client stays known to have trained the task.
release_task-assign_task :
    (task_info : ℕ) (self : Client)
    → let left = release_task task_info (assign_task task_info self) in
      (left.info.cur_parallelism ≡ self.info.cur_parallelism)
      × ((task : ℕ) → countb (nat_beq task) left.info.tasks ≡ countb (nat_beq task) self.info.tasks)
      × (is_task_trained task_info left ≡ true)
unfolding release_task assign_task
release_task-assign_task task_info self =
    (omega arith, same_tasks, ground (arith, mem-append_last task_info self.history))
  where
    same_tasks :
        (task : ℕ)
        → countb (nat_beq task) (release_task task_info (assign_task task_info self)).info.tasks
          ≡ countb (nat_beq task) self.info.tasks
    same_tasks task = ground (
      arith,
      mem-append_last task_info self.info.tasks,
      countb-append_last task_info task self.info.tasks,
      countb-remove_first task_info task (self.info.tasks ++ (task_info ∷ [])),
    )
