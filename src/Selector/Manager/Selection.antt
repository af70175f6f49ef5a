-- ===== src/Selector/Manager/Selection.antt =====
-- neursafe_fl/python/selector/client_manager.py: how clients are picked for a task, and released.
use yanshi_shield.Base.{
  ℕ, ◌*◌, Bool, not, ◌&&◌, ◌||◌, Option, none, some, List, [], ◌∷◌, ◌++◌, map, if◌then◌else◌, ltb,
  leb, nat_beq, nat_eq, Result, ok, raise, ◌>>=◌, length, take, filterb,
}
use yanshi_shield.Base.Dict.{Dict, lookup, insert, erase, values}
use yanshi_shield.Selector.Client.{
  ClientType, Client, assign_task, release_task, is_available, is_task_trained, Condition, matches,
}
use yanshi_shield.Selector.Manager.{
  SelectorError, unknown_client, not_enough_clients, ClientManager, get, modify,
}

pub record Requirements : Type 0 where
  pub job_name : ℕ
  pub number : ℕ
  -- a float, in the unit of `Scaling`; 0 where it is not given
  pub redundancy : ℕ
  pub random_client : Bool
  pub untrained_first : Bool
  -- the addresses of `clients`
  pub addresses : List ℕ
  pub conditions : List Condition

-- The floats of a redundancy, as whole numbers of a unit so fine that all of them are whole: the number
-- 1.0, and `math.ceil` of the rounded product of a float and an int
pub record Scaling : Type 0 where
  pub one : ℕ
  pub ceil_times : ℕ → ℕ → ℕ

-- The parts of a client manager that its configuration names, and the module `random`
pub record Selecting : Type 0 where
  pub filter_extender : Option (List Client → List (ClientType × ℕ))
  -- `__score_client`, if there is a strategy
  pub score : Option (Client → List Condition → ℕ)
  pub sample : List ℕ → ℕ → List ℕ
  pub scaling : Scaling

-- `__get_all_clients`
unfoldable pub all_clients : Dict ClientType (Dict ℕ ℕ) → List ℕ
all_clients [] = []
all_clients ((client_type, same_type) ∷ clients) = values same_type ++ all_clients clients

unfoldable pub is_qualified : (now : ℕ) → List Condition → ClientManager → ℕ → Bool
is_qualified now demands self ref =
    is_available now (self.objects ref) && matches demands (self.objects ref)

abbrev pub get_all : List (ClientType × ℕ) → ClientManager → Result SelectorError (List ℕ)
get_all [] self = ok []
get_all ((client_type, client_id) ∷ items) self = elim (get client_type client_id self) [
  | none ↦ raise unknown_client
  | some ref ↦ get_all items self >>= λ refs. ok (ref ∷ refs)
]

-- `__run_filter_extender`
unfoldable pub run_filter_extender :
    Selecting → List ℕ → ClientManager → Result SelectorError (List ℕ)
run_filter_extender config refs self = elim config.filter_extender [
  | none ↦ ok refs
  | some filter_func ↦ get_all (filter_func (map self.objects refs)) self
]

-- `__filter_clients`
unfoldable pub filter_clients :
    Selecting → (now : ℕ) → List Condition → ClientManager → Result SelectorError (List ℕ)
unfolding run_filter_extender all_clients is_qualified
filter_clients config now demands self =
    run_filter_extender config (filterb (is_qualified now demands self) (all_clients self.clients))
      self

-- `__specify_clients`
unfoldable pub specify_clients : List ℕ → ClientManager → List ℕ
unfolding lookup
specify_clients [] self = []
specify_clients (address ∷ addresses) self = elim (lookup address self.addresses) [
  | none ↦ specify_clients addresses self
  | some ref ↦ ref ∷ specify_clients addresses self
]

-- `__calc_redundancy`
unfoldable pub calc_redundancy : Scaling → Requirements → ℕ
calc_redundancy scaling requirements =
    let raised =
      if nat_beq requirements.redundancy 0 || ltb requirements.redundancy scaling.one
      then scaling.one
      else requirements.redundancy in
    scaling.ceil_times
      (if ltb (2 * scaling.one) requirements.redundancy then 2 * scaling.one else raised)
      requirements.number

-- `list.sort` by the score, the highest first; equal ones stay in order.
unfoldable pub insert_by_score : (ℕ → ℕ) → ℕ → List ℕ → List ℕ
insert_by_score score ref [] = ref ∷ []
insert_by_score score ref (other ∷ others) =
    if leb (score other) (score ref)
    then ref ∷ other ∷ others
    else other ∷ insert_by_score score ref others

-- `__prioritize_clients`
unfoldable pub prioritize_clients : (ℕ → ℕ) → List ℕ → List ℕ
unfolding insert_by_score
prioritize_clients score [] = []
prioritize_clients score (ref ∷ refs) = insert_by_score score ref (prioritize_clients score refs)

abbrev pub is_trained : ℕ → ClientManager → ℕ → Bool
is_trained job_name self ref = is_task_trained job_name (self.objects ref)

-- `__try_sort_unused_clients`
unfoldable pub try_sort_unused_clients : ℕ → ClientManager → List ℕ → List ℕ
try_sort_unused_clients job_name self sorted_clients =
    filterb (λ ref. not (is_trained job_name self ref)) sorted_clients
    ++ filterb (is_trained job_name self) sorted_clients

-- The candidates of `select_client`
unfoldable pub candidates :
    Selecting → ℕ → Requirements → ClientManager → Result SelectorError (List ℕ)
unfolding specify_clients filter_clients
candidates config now requirements self = elim requirements.addresses [
  | [] ↦ filter_clients config now requirements.conditions self
  | _ ∷ _ ↦ ok (specify_clients requirements.addresses self)
]

-- Those that a strategy picks
unfoldable pub pick_optimal :
    Scaling → (Client → List Condition → ℕ) → Requirements → ClientManager → List ℕ → List ℕ
unfolding calc_redundancy prioritize_clients try_sort_unused_clients
pick_optimal scaling score requirements self clients =
    let sorted_clients =
      prioritize_clients (λ ref. score (self.objects ref) requirements.conditions) clients in
    take (calc_redundancy scaling requirements) (
      if requirements.untrained_first
      then try_sort_unused_clients requirements.job_name self sorted_clients
      else sorted_clients)

-- Those that are picked where there are more than the redundancy allows
unfoldable pub pick_by :
    Scaling
    → Option (Client → List Condition → ℕ)
    → (List ℕ → ℕ → List ℕ)
    → Requirements
    → ClientManager
    → List ℕ
    → List ℕ
unfolding pick_optimal
pick_by scaling none sample requirements self clients =
    sample clients (calc_redundancy scaling requirements)
pick_by scaling (some score) sample requirements self clients =
    if requirements.random_client
    then sample clients (calc_redundancy scaling requirements)
    else pick_optimal scaling score requirements self clients

-- Those that are picked of enough candidates
unfoldable pub pick : Selecting → Requirements → ClientManager → List ℕ → List ℕ
unfolding pick_by
pick config requirements self clients =
    if leb (length clients) (calc_redundancy config.scaling requirements)
    then clients
    else pick_by config.scaling config.score config.sample requirements self clients

unfoldable pub assign_all : ℕ → List ℕ → ClientManager → ClientManager
assign_all job_name [] self = self
assign_all job_name (ref ∷ refs) self =
    assign_all job_name refs (modify ref (assign_task job_name) self)

-- `__occupy_clients`
unfoldable pub occupy_clients : ℕ → List ℕ → ClientManager → ClientManager
unfolding assign_all insert
occupy_clients job_name clients self =
    let assigned = assign_all job_name clients self in
    record assigned { occupied_clients = insert job_name clients assigned.occupied_clients }

-- `select_client`, once the candidates are known
unfoldable pub select_among :
    Selecting
    → Requirements
    → ClientManager
    → List ℕ
    → Result SelectorError (List ℕ × ClientManager)
unfolding pick occupy_clients
select_among config requirements self clients =
    if ltb (length clients) requirements.number
    then raise not_enough_clients
    else ok (
      pick config requirements self clients,
      occupy_clients requirements.job_name (pick config requirements self clients) self,
    )

-- `select_client`: the clients that are chosen, and the manager that has occupied them
unfoldable pub select_client :
    Selecting
    → (now : ℕ) → Requirements
    → ClientManager
    → Result SelectorError (List ℕ × ClientManager)
unfolding candidates select_among
select_client config now requirements self =
    candidates config now requirements self >>= select_among config requirements self

-- The loop of `release_client`
unfoldable pub release_all : ℕ → List ℕ → ClientManager → ClientManager
unfolding get
release_all job_name [] self = self
release_all job_name (ref ∷ refs) self =
    let client = self.objects ref in
    let released : ClientManager = elim (get client.client_type client.id self) [
      | none ↦ self
      | some _ ↦ modify ref (release_task job_name) self
    ] in
    release_all job_name refs released

unfoldable pub release_client : ℕ → ClientManager → ClientManager
unfolding release_all erase lookup
release_client job_name self = elim (lookup job_name self.occupied_clients) [
  | none ↦ self
  | some clients ↦
      let released = release_all job_name clients self in
      record released { occupied_clients = erase job_name released.occupied_clients }
]

-- `check_clients`; `none` is that the clients match the requirements.
unfoldable pub check_clients :
    Selecting → ℕ → Requirements → ClientManager → Result SelectorError (Unit {0})
unfolding candidates
check_clients config now requirements self =
    if ltb self.client_number requirements.number
    then raise not_enough_clients
    else candidates config now requirements self >>= λ clients.
        if ltb (length clients) requirements.number then raise not_enough_clients else ok tt

-- `get_clients`
unfoldable pub get_clients :
    Selecting → ℕ → Requirements → ClientManager → Result SelectorError (List ℕ)
unfolding filter_clients all_clients
get_clients config now requirements self = elim requirements.conditions [
  | [] ↦ ok (all_clients self.clients)
  | _ ∷ _ ↦ filter_clients config now requirements.conditions self
]
