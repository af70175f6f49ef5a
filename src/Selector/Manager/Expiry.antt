-- ===== src/Selector/Manager/Expiry.antt =====
-- neursafe_fl/python/selector/client_manager.py: the removal of the clients whose heartbeat is lost, and
-- what comes to a client manager that changes its clients.
use yanshi_shield.Base.{ℕ, ◌+◌, none, some, List, [], ◌∷◌, if◌then◌else◌, nat_eq, Result, ok, raise}
use yanshi_shield.Base.Dict.{contains, keys}
use yanshi_shield.Selector.Client.{ClientType, ClientInfo, is_expired}
use yanshi_shield.Selector.Manager.{
  SelectorError, key_error, unknown_client, dict_changed, ClientManager, get, of_type, report,
  remove_client, quit, type_eq,
}

-- The inner loop of `__remove_expired_clients`, over the ids that a type had
unfoldable pub remove_expired_ids :
    (now : ℕ)
    → ClientType
    → List ℕ
    → ClientManager
    → ClientManager × Result SelectorError (Unit {0})
unfolding get is_expired remove_client
remove_expired_ids now client_type [] self = (self, ok tt)
remove_expired_ids now client_type (client_id ∷ ids) self = elim (get client_type client_id self) [
  | none ↦ (self, raise unknown_client)
  | some ref ↦
      let kept = remove_expired_ids now client_type ids self in
      let removed = remove_client client_type client_id ref self in
      let rest = remove_expired_ids now client_type ids removed.0 in
      if is_expired now (self.objects ref)
      then elim removed.1 [ raise failure ↦ (removed.0, raise failure) | ok _ ↦ rest ]
      else kept
]

-- The outer loop: once a type has gone from the dict, its iterator raises.
unfoldable pub remove_expired_types :
    (now : ℕ) → List ClientType → ClientManager → ClientManager × Result SelectorError (Unit {0})
unfolding remove_expired_ids of_type contains
remove_expired_types now [] self = (self, ok tt)
remove_expired_types now (client_type ∷ types) self =
    let removed =
      remove_expired_ids now client_type (keys (of_type client_type self.clients)) self in
    let rest = remove_expired_types now types removed.0 in
    elim removed.1 [
      | raise failure ↦ (removed.0, raise failure)
      | ok _ ↦
          if contains client_type removed.0.clients then rest else (removed.0, raise dict_changed)
    ]

-- `__remove_expired_clients`
unfoldable pub remove_expired_clients :
    ℕ → ClientManager → ClientManager × Result SelectorError (Unit {0})
unfolding remove_expired_types
remove_expired_clients now self = remove_expired_types now (keys self.clients) self

pub data SelectorEvent : Type 0 where
  reports : ClientType → (client_id : ℕ) → ClientInfo → (now : ℕ) → SelectorEvent
  quits : ClientType → (client_id : ℕ) → SelectorEvent
  heartbeats_checked : (now : ℕ) → SelectorEvent

-- Whether an index had no entry for a client's address
abbrev pub key_errors : Result SelectorError (Unit {0}) → ℕ
key_errors (raise key_error) = 1
key_errors _ = 0

-- What an event leaves, and how many of the removals raised a KeyError. A report that raises has
-- changed nothing.
unfoldable pub handle_selector : SelectorEvent → ClientManager → ClientManager × ℕ
unfolding report quit remove_expired_clients
handle_selector (reports client_type client_id config now) self =
    elim (report client_type client_id config now self) [
      | raise _ ↦ (self, 0)
      | ok reported ↦ (reported, 0)
    ]
handle_selector (quits client_type client_id) self =
    let left = quit client_type client_id self in (left.0, key_errors left.1)
handle_selector (heartbeats_checked now) self =
    let left = remove_expired_clients now self in (left.0, key_errors left.1)

unfoldable pub handle_all : List SelectorEvent → ClientManager → ClientManager × ℕ
unfolding handle_selector
handle_all [] self = (self, 0)
handle_all (event ∷ events) self =
    let (after, errors) = handle_selector event self in
    let (last, more) = handle_all events after in (last, errors + more)
