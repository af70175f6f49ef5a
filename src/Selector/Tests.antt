-- ===== src/Selector/Tests.antt =====
-- The selector run on small inputs (neursafe_fl/python/selector).
use yanshi_shield.Base.{
  ℕ, ◌+◌, ◌*◌, ◌/◌, ◌<◌, ◌≡◌, refl, true, false, none, some, List, [], ◌∷◌, arith, countb, All-take,
  take, length-take, nat_eq, ok, raise,
}
use native.Mathlib.Nat.{mul-le-mul_right}
use yanshi_shield.Base.Int.{pos}
use yanshi_shield.Base.Dict.{lookup, insert, erase, contains}
use yanshi_shield.Selector.Client.{
  single, cluster, idle, ClientInfo, Client, new_client, assign_task, release_task, Condition,
  runtime_in, matches, check_condition, is_available, is_expired,
}
use yanshi_shield.Selector.Manager.{
  ClientManager, get, of_type, add_client, report, remove_index, remove_client, pop_client,
  check_clients_num, quit, dict_changed,
}
use yanshi_shield.Selector.Manager.Expiry.{
  SelectorEvent, reports, quits, handle_all, handle_selector, remove_expired_clients,
  remove_expired_types, remove_expired_ids,
}
use yanshi_shield.Selector.Manager.Counting.{IsCounted, handle_all-IsCounted}
use yanshi_shield.Selector.Manager.Selection.{
  Requirements, Scaling, Selecting, all_clients, is_qualified, run_filter_extender, filter_clients,
  calc_redundancy, insert_by_score, prioritize_clients, try_sort_unused_clients, is_trained,
  candidates, pick_optimal, pick_by, pick, select_among, select_client, assign_all, occupy_clients,
  release_all, release_client,
}
use yanshi_shield.Selector.Manager.Choosing.{IsSampling, IsScaling, IsAllowed, select_client_bounds}

-- Clients are told apart by their addresses and the tasks that they can run at once.
abbrev client_info : (address parallelism : ℕ) → ClientInfo
client_info address parallelism = record {
  address = address;
  state = idle;
  max_parallelism = pos parallelism;
  cur_parallelism = 0;
  os = some 1;
  runtime = 3 ∷ [];
  label = [];
  resource = [];
  data_number = [];
  status = [];
  tasks = [];
}

abbrev new_manager : ClientManager
new_manager = record {
  single_heart = 300;
  cluster_heart = 600;
  clients = [];
  addresses = [];
  client_number = 0;
  occupied_clients = [];
  objects = λ _. new_client single 0 (client_info 0 0);
  next_object = 0;
}

-- Three clients, two of which report the same address; those two quit.
abbrev shared_address : List SelectorEvent
shared_address =
    reports single 1 (client_info 7 2) 10
    ∷ reports single 2 (client_info 7 3) 11
    ∷ reports cluster 3 (client_info 8 4) 12
    ∷ quits single 1
    ∷ quits single 2
    ∷ []

one_too_many :
    let left = handle_all shared_address new_manager in
    (left.0.client_number ≡ 2) × (left.1 ≡ 1) × (check_clients_num left.0.clients ≡ 1)
unfolding handle_all handle_selector report get lookup of_type insert add_client remove_index
    contains quit remove_client pop_client check_clients_num
one_too_many = (refl, refl, refl)

new_manager-IsCounted : IsCounted 0 new_manager
unfolding check_clients_num
new_manager-IsCounted = refl

handle_all-IsCounted_example :
    let left = handle_all shared_address new_manager in IsCounted (0 + left.1) left.0
handle_all-IsCounted_example =
    handle_all-IsCounted shared_address 0 new_manager new_manager-IsCounted

abbrev three_clients : ClientManager
three_clients =
    (handle_all
      (reports single 1 (client_info 6 2) 10
        ∷ reports single 2 (client_info 7 3) 11
        ∷ reports cluster 3 (client_info 8 4) 12
        ∷ [])
      new_manager).0

-- Both single clients have expired: the check breaks off, with the cluster unseen.
check_breaks_off : (remove_expired_clients 5000 three_clients).1 ≡ raise dict_changed
unfolding handle_all handle_selector report get lookup of_type insert add_client remove_index
    contains quit remove_client pop_client check_clients_num remove_expired_clients
    remove_expired_types remove_expired_ids is_expired
check_breaks_off = refl

-- Floats in hundredths, with exact products
abbrev hundredths : Scaling
hundredths = record {
  one = 100;
  ceil_times = λ redundancy number. (redundancy * number + 99) / 100;
}

hundredths-IsScaling : IsScaling hundredths
hundredths-IsScaling = record {
  times_one = λ n. omega arith;
  times_two = λ n. omega arith;
  monotone = λ a b n le. omega (arith, mul-le-mul_right {m = a} {n = b} n le);
}

-- The strategy prefers many tasks at once; samples are the first ones.
abbrev by_parallelism : Selecting
by_parallelism = record {
  filter_extender = none;
  score = some (λ client conditions. client.info.address);
  sample = λ xs k. take k xs;
  scaling = hundredths;
}

take-IsSampling : IsSampling by_parallelism.sample
take-IsSampling = record {
  length-sample = λ xs k enough. omega (arith, length-take k xs, enough);
  All-sample = λ P xs k h. All-take P k xs h;
}

abbrev one_or_two : Requirements
one_or_two = record {
  job_name = 9;
  number = 1;
  redundancy = 150;
  random_client = false;
  untrained_first = true;
  addresses = [];
  conditions = runtime_in 3 ∷ [];
}

chosen :
    select_client by_parallelism 20 one_or_two three_clients
    ≡ ok (2 ∷ 1 ∷ [], occupy_clients 9 (2 ∷ 1 ∷ []) three_clients)
unfolding handle_all handle_selector report get lookup of_type insert add_client remove_index
    contains select_client candidates filter_clients run_filter_extender all_clients is_qualified
    is_available is_expired matches check_condition select_among pick pick_by pick_optimal
    prioritize_clients insert_by_score try_sort_unused_clients calc_redundancy
chosen = refl

select_client_bounds_example : IsAllowed hundredths 150 1 2
select_client_bounds_example =
    select_client_bounds by_parallelism take-IsSampling hundredths-IsScaling 20 one_or_two
      three_clients (occupy_clients 9 (2 ∷ 1 ∷ []) three_clients) (2 ∷ 1 ∷ []) chosen

-- The clients 0 and 2 have trained the task; only the client 1 has not.
abbrev trained_manager : ClientManager
trained_manager = release_client 9 (occupy_clients 9 (0 ∷ 2 ∷ []) three_clients)

abbrev by_address : Client → List Condition → ℕ
by_address client conditions = client.info.address

one_trained :
    0
    < countb
        (is_trained 9 trained_manager)
        (pick_optimal hundredths by_address one_or_two trained_manager (0 ∷ 1 ∷ 2 ∷ []))
unfolding handle_all handle_selector report get lookup of_type insert erase add_client remove_index
    contains pick_optimal prioritize_clients insert_by_score try_sort_unused_clients calc_redundancy
    occupy_clients assign_all release_client release_all assign_task release_task
one_trained = omega arith
