-- ===== src/Selector/Manager.antt =====
-- neursafe_fl/python/selector/client_manager.py: the class `ClientManager`. Clients are shared objects,
-- which the clients by type and id, the index of addresses and the occupied clients refer to by number.
-- The authentication of messages, a strategy's score with its extender's, the extender that filters and
-- `random.sample` are arguments. A redundancy is counted in hundredths.
pub mod Expiry
pub mod Selection
pub mod Counting
pub mod Choosing
pub mod Untrained
use yanshi_shield.Base.{
  ℕ, zero, suc, ◌+◌, ◌-◌, ◌*◌, ◌/◌, Bool, true, false, not, ◌&&◌, ◌||◌, Option, none, some, List,
  [], ◌∷◌, ◌++◌, map, if◌then◌else◌, ltb, leb, nat_beq, nat_eq, Eq, Result, ok, raise, length, take,
  filterb, arith, ◌≡◌, ◌↔◌,
}
use yanshi_shield.Base.Dict.{Dict, lookup, insert, erase, contains, pop}
use yanshi_shield.Selector.Client.{
  ClientType, single, cluster, other_type, ClientInfo, Client, new_client, heartbeat_interval,
  assign_task, release_task, update, refresh_time, is_expired, is_available, is_task_trained,
  Condition, matches,
}

-- The KeyErrors are that of the index of addresses and that of the clients.
pub data SelectorError : Type 0 where
  key_error unknown_client not_enough_clients dict_changed : SelectorError

abbrev type_number : ClientType → ℕ
type_number single = 0
type_number cluster = 1
type_number other_type = 2

abbrev type_beq : ClientType → ClientType → Bool
type_beq s t = nat_beq (type_number s) (type_number t)

pub type_beq_iff : (s t : ClientType) → (type_beq s t ≡ true) ↔ (s ≡ t)
type_beq_iff s t = ground arith

instance abbrev pub type_eq : Eq ClientType
type_eq = record { equal = type_beq; equal_iff = type_beq_iff }

pub record ClientManager : Type 0 where
  pub single_heart : ℕ
  pub cluster_heart : ℕ
  pub clients : Dict ClientType (Dict ℕ ℕ)
  -- `__indexes["address"]`
  pub addresses : Dict ℕ ℕ
  pub client_number : ℕ
  pub occupied_clients : Dict ℕ (List ℕ)
  pub objects : ℕ → Client
  pub next_object : ℕ

-- `get`
unfoldable pub get : ClientType → ℕ → ClientManager → Option ℕ
unfolding lookup
get client_type client_id self = elim (lookup client_type self.clients) [
  | none ↦ none
  | some same_type ↦ lookup client_id same_type
]

-- An assignment to attributes of an object
abbrev pub modify : ℕ → (Client → Client) → ClientManager → ClientManager
modify ref change self = record self {
  objects = λ r. if nat_beq r ref then change (self.objects r) else self.objects r;
}

-- `__add_index`
abbrev pub add_index : ℕ → ClientManager → ClientManager
add_index ref self = record self {
  addresses = insert (self.objects ref).info.address ref self.addresses;
}

abbrev pub is_empty {ℓ κ} : {K : Type κ} {V : Type ℓ} → Dict K V → Bool
is_empty [] = true
is_empty (_ ∷ _) = false

-- `__remove_index`; an index that is missing or empty is left alone.
unfoldable pub remove_index : ℕ → ClientManager → Result SelectorError ClientManager
unfolding contains lookup
remove_index ref self =
    let address = (self.objects ref).info.address in
    if is_empty self.addresses
    then ok self
    else if contains address self.addresses
    then ok (record self { addresses = pop address self.addresses })
    else raise key_error

-- The clients of a type, or none
unfoldable pub of_type : ClientType → Dict ClientType (Dict ℕ ℕ) → Dict ℕ ℕ
unfolding lookup
of_type client_type clients = elim (lookup client_type clients) [
  | none ↦ []
  | some same_type ↦ same_type
]

-- `__add_client`
unfoldable pub add_client : ClientType → ℕ → ClientInfo → ClientManager → ClientManager
unfolding of_type insert
add_client client_type client_id config self =
    let ref = self.next_object in
    let same_type = insert client_id ref (of_type client_type self.clients) in
    let added = add_index ref (
      modify ref (λ _. new_client client_type client_id config)
        (record self {
          clients = insert client_type same_type self.clients;
          next_object = suc self.next_object;
        })) in
    record added { client_number = suc self.client_number }

-- `refresh_time`, with the interval of the client's type
abbrev pub refresh : ClientType → (ref now : ℕ) → ClientManager → ClientManager
refresh client_type ref now self =
    modify ref
      (refresh_time (heartbeat_interval self.single_heart self.cluster_heart client_type) now) self

-- `report`, with `__update_client`
unfoldable pub report :
    ClientType → ℕ → ClientInfo → ℕ → ClientManager → Result SelectorError ClientManager
unfolding get add_client remove_index
report client_type client_id config now self = elim (get client_type client_id self) [
  | none ↦
      ok (refresh client_type self.next_object now (add_client client_type client_id config self))
  | some ref ↦ elim (remove_index ref self) [
    | raise failure ↦ raise failure
    | ok removed ↦
        ok (refresh client_type ref now (add_index ref (modify ref (update config) removed)))
  ]
]

-- `__check_clients_num`
unfoldable pub check_clients_num : Dict ClientType (Dict ℕ ℕ) → ℕ
check_clients_num [] = 0
check_clients_num ((client_type, same_type) ∷ clients) =
    length same_type + check_clients_num clients

-- The clients less one; a type that is left without clients goes.
unfoldable pub pop_client : ClientType → ℕ → Dict ClientType (Dict ℕ ℕ) → Dict ClientType (Dict ℕ ℕ)
unfolding of_type insert
pop_client client_type client_id clients =
    let same_type = pop client_id (of_type client_type clients) in
    if is_empty same_type
    then pop client_type (insert client_type same_type clients)
    else insert client_type same_type clients

-- `__remove_client`, of the object under a type and an id, which it keeps for good; where it raises,
-- what was done stays done.
unfoldable pub remove_client :
    ClientType
    → (client_id ref : ℕ) → ClientManager
    → ClientManager × Result SelectorError (Unit {0})
unfolding remove_index check_clients_num pop_client
remove_client client_type client_id ref self =
    let popped = record self { clients = pop_client client_type client_id self.clients } in
    elim (remove_index ref popped) [
      | raise failure ↦ (popped, raise failure)
      | ok removed ↦ (
        record removed {
          client_number =
              if ltb 0 removed.client_number
              then removed.client_number - 1
              else check_clients_num removed.clients;
        },
        ok tt,
      )
    ]

-- `quit`
unfoldable pub quit :
    ClientType → ℕ → ClientManager → ClientManager × Result SelectorError (Unit {0})
unfolding get remove_client
quit client_type client_id self = elim (get client_type client_id self) [
  | none ↦ (self, ok tt)
  | some ref ↦ remove_client client_type client_id ref self
]
