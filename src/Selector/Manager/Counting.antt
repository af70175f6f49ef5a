-- ===== src/Selector/Manager/Counting.antt =====
-- The number of clients that the selector has counted (neursafe_fl/python/selector/client_manager.py),
-- through reports, exits and the removal of expired clients.
use yanshi_shield.Base.{
  ℕ, suc, ◌+◌, ◌≡◌, refl, ◌∙◌, none, some, List, [], ◌∷◌, nat_eq, Eq, beq-cases, beq_refl, Result,
  length, arith, Option-cases, inl, inr,
}
use yanshi_shield.Base.Dict.{Dict, lookup, insert, pop, keys}
use yanshi_shield.Selector.Client.{ClientType, ClientInfo}
use yanshi_shield.Selector.Manager.{
  SelectorError, ClientManager, get, of_type, add_client, report, check_clients_num, pop_client,
  remove_client, remove_index, quit, type_eq,
}
use yanshi_shield.Selector.Manager.Expiry.{
  remove_expired_ids, remove_expired_types, remove_expired_clients, SelectorEvent, reports, quits,
  heartbeats_checked, key_errors, handle_selector, handle_all,
}

module _ {ℓ κ} {K : Type κ} {V : Type ℓ} ⦃e : Eq K⦄ where
  length-insert_new :
      (k : K) (v : V) (d : Dict K V) → lookup k d ≡ none → length (insert k v d) ≡ suc (length d)
  unfolding lookup insert
  length-insert_new k v [] h = refl
  length-insert_new k v ((j, w) ∷ d) h = ground (arith, length-insert_new k v d, h)

  length-pop :
      (k : K) (v : V) (d : Dict K V) → lookup k d ≡ some v → suc (length (pop k d)) ≡ length d
  unfolding lookup
  length-pop k v [] h = cc
  length-pop k v ((j, w) ∷ d) h = ground (arith, length-pop k v d, h)

check_clients_num-insert :
    (t : ClientType) (new : Dict ℕ ℕ) (clients : Dict ClientType (Dict ℕ ℕ))
    → check_clients_num (insert t new clients) + length (of_type t clients)
      ≡ check_clients_num clients + length new
unfolding check_clients_num insert of_type lookup
check_clients_num-insert t new [] = omega arith
check_clients_num-insert t new ((s, old) ∷ clients) =
    grind (arith, beq-cases s t, check_clients_num-insert t new clients)

check_clients_num-pop :
    (t : ClientType) (clients : Dict ClientType (Dict ℕ ℕ))
    → check_clients_num (pop t clients) + length (of_type t clients) ≡ check_clients_num clients
unfolding check_clients_num of_type lookup
check_clients_num-pop t [] = omega arith
check_clients_num-pop t ((s, old) ∷ clients) =
    grind (arith, beq-cases s t, check_clients_num-pop t clients)

of_type-insert :
    (t : ClientType) (new : Dict ℕ ℕ) (clients : Dict ClientType (Dict ℕ ℕ))
    → of_type t (insert t new clients) ≡ new
unfolding of_type lookup insert
of_type-insert t new [] = grind (arith, beq_refl t)
of_type-insert t new ((s, old) ∷ clients) =
    grind (arith, beq-cases s t, of_type-insert t new clients)

lookup-of_type :
    (t : ClientType) (client_id : ℕ) (self : ClientManager)
    → lookup client_id (of_type t self.clients) ≡ get t client_id self
unfolding get of_type lookup
lookup-of_type t client_id self = ground arith

-- A client less
check_clients_num-pop_client :
    (t : ClientType) (client_id ref : ℕ) (clients : Dict ClientType (Dict ℕ ℕ))
    → lookup client_id (of_type t clients) ≡ some ref
    → suc (check_clients_num (pop_client t client_id clients)) ≡ check_clients_num clients
unfolding pop_client
check_clients_num-pop_client t client_id ref clients h =
    let same_type = pop client_id (of_type t clients) in
    ground (
      arith,
      length-pop client_id ref (of_type t clients) h,
      check_clients_num-insert t same_type clients,
      check_clients_num-pop t (insert t same_type clients),
      of_type-insert t same_type clients,
    )

-- As many clients are counted as there are, and `missed` more.
abbrev pub IsCounted : ℕ → ClientManager → Type 0
IsCounted missed self = self.client_number ≡ check_clients_num self.clients + missed

remove_client-IsCounted :
    (t : ClientType) (client_id ref missed : ℕ) (self : ClientManager)
    → get t client_id self ≡ some ref
    → IsCounted missed self
    → let left = remove_client t client_id ref self in IsCounted (missed + key_errors left.1) left.0
unfolding remove_client remove_index
remove_client-IsCounted t client_id ref missed self found h =
    let less =
      check_clients_num-pop_client t client_id ref self.clients
        (lookup-of_type t client_id self ∙ found) in
    ground (arith, less, h)

report-IsCounted :
    (t : ClientType) (client_id : ℕ) (config : ClientInfo) (now missed : ℕ) (self : ClientManager)
    → IsCounted missed self
    → IsCounted missed (handle_selector (reports t client_id config now) self).0
unfolding handle_selector report remove_index add_client
report-IsCounted t client_id config now missed self h =
    let same = lookup-of_type t client_id self in
    let new = insert client_id self.next_object (of_type t self.clients) in
    ground (
      arith,
      h,
      same,
      length-insert_new client_id self.next_object (of_type t self.clients),
      check_clients_num-insert t new self.clients,
    )

-- What a call leaves: the removals that raised in it count.
abbrev LeavesCounted : ℕ → ClientManager × Result SelectorError (Unit {0}) → Type 0
LeavesCounted missed left = IsCounted (missed + key_errors left.1) left.0

remove_expired_ids-LeavesCounted :
    (now : ℕ) (t : ClientType) (ids : List ℕ) (missed : ℕ) (self : ClientManager)
    → IsCounted missed self
    → LeavesCounted missed (remove_expired_ids now t ids self)
unfolding remove_expired_ids
remove_expired_ids-LeavesCounted now t [] missed self h = omega (arith, h)
remove_expired_ids-LeavesCounted now t (client_id ∷ ids) missed self h =
    elim (Option-cases (get t client_id self)) [
      | inl gone ↦ ground (arith, h, gone)
      | inr (ref, found) ↦
          let removed = remove_client t client_id ref self in
          let counted = remove_client-IsCounted t client_id ref missed self found h in
          ground (
            arith,
            found,
            counted,
            remove_expired_ids-LeavesCounted now t ids missed self h,
            remove_expired_ids-LeavesCounted now t ids (missed + key_errors removed.1) removed.0
                counted,
          )
    ]

remove_expired_types-LeavesCounted :
    (now : ℕ) (types : List ClientType) (missed : ℕ) (self : ClientManager)
    → IsCounted missed self
    → LeavesCounted missed (remove_expired_types now types self)
unfolding remove_expired_types
remove_expired_types-LeavesCounted now [] missed self h = omega (arith, h)
remove_expired_types-LeavesCounted now (t ∷ types) missed self h =
    let removed = remove_expired_ids now t (keys (of_type t self.clients)) self in
    let counted =
      remove_expired_ids-LeavesCounted now t (keys (of_type t self.clients)) missed self h in
    ground (
      arith,
      counted,
      remove_expired_types-LeavesCounted now types (missed + key_errors removed.1) removed.0
          counted,
    )

quit-LeavesCounted :
    (t : ClientType) (client_id missed : ℕ) (self : ClientManager)
    → IsCounted missed self
    → LeavesCounted missed (quit t client_id self)
unfolding quit
quit-LeavesCounted t client_id missed self h = elim (Option-cases (get t client_id self)) [
  | inl gone ↦ ground (arith, h, gone)
  | inr (ref, found) ↦
      ground (arith, found, remove_client-IsCounted t client_id ref missed self found h)
]

handle_selector-IsCounted :
    (event : SelectorEvent) (missed : ℕ) (self : ClientManager)
    → IsCounted missed self
    → let left = handle_selector event self in IsCounted (missed + left.1) left.0
unfolding handle_selector remove_expired_clients
handle_selector-IsCounted (reports t client_id config now) missed self h =
    ground (arith, report-IsCounted t client_id config now missed self h)
handle_selector-IsCounted (quits t client_id) missed self h =
    quit-LeavesCounted t client_id missed self h
handle_selector-IsCounted (heartbeats_checked now) missed self h =
    remove_expired_types-LeavesCounted now (keys self.clients) missed self h

-- Whatever clients report, exit or lose their heartbeat, in whatever order: a manager that has counted
-- its clients, with some that are gone among them, goes on counting them. It counts one too many for
-- each removal that finds no entry for the client's address in the index, and for nothing else.
pub handle_all-IsCounted :
    (events : List SelectorEvent) (missed : ℕ) (self : ClientManager)
    → IsCounted missed self
    → let left = handle_all events self in IsCounted (missed + left.1) left.0
unfolding handle_all
handle_all-IsCounted [] missed self h = omega (arith, h)
handle_all-IsCounted (event ∷ events) missed self h =
    let counted = handle_selector-IsCounted event missed self h in
    omega (
      arith,
      handle_all-IsCounted events (missed + (handle_selector event self).1)
          (handle_selector event self).0 counted,
    )
