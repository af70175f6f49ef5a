-- ===== src/SecureAggregate/SimpleServer.antt =====
-- neursafe_fl/python/libs/secure/secure_aggregate/ssa_simple_server.py: the class `SSASimpleServer`, for
-- one mask, as a state machine. The stage is set by `initialize`.
pub mod Complete
mod Tests
use yanshi_shield.Base.{
  ℕ, suc, Bool, true, false, not, ◌&&◌, ◌||◌, Option, none, some, List, [], ◌∷◌, ◌++◌,
  if◌then◌else◌, ltb, nat_beq, nat_eq, length, Result, ok, raise, ◌>>=◌, ◌>>◌, raise_if,
}
use yanshi_shield.Base.Dict.{Dict, insert, keys}
use yanshi_shield.SecureAggregate.Server.{
  ProtocolStage, exchange_public_key, ciphertext_aggregate, decrypt_result, same_stage,
}

pub data SimpleError : Type 0 where
  wrong_stage mask_not_ready already_decrypting client_dropped wait_timed_out : SimpleError

pub record SimpleServer (Key Weight : Type 0) : Type 0 where
  pub min_client_num : ℕ
  pub client_num : ℕ
  pub total_data : Option Weight
  pub rpt_public_key_clients : List ℕ
  pub rpt_masked_result_clients : List ℕ
  pub public_keys : Dict ℕ Key
  pub stage : ProtocolStage
  pub stage_timer : Bool
  pub wait_aggregate_timer : Bool
  pub error : Option SimpleError
  pub registered : Bool

abbrev pub is_in : ℕ → List ℕ → Bool
is_in x [] = false
is_in x (y ∷ ys) = nat_beq x y || is_in x ys

-- `len(set(xs) & set(ys))`: the elements of `ys`, each at its last place, that `xs` has too
unfoldable pub common_number : (xs ys : List ℕ) → ℕ
common_number xs [] = 0
common_number xs (y ∷ ys) =
    if is_in y xs && not (is_in y ys) then suc (common_number xs ys) else common_number xs ys

module _ {Key Weight : Type 0} where
  -- `__init__` and `initialize`
  abbrev pub initialized_simple : (min_client_num client_num : ℕ) → SimpleServer Key Weight
  initialized_simple min_client_num client_num = record {
    min_client_num = min_client_num;
    client_num = client_num;
    total_data = none;
    rpt_public_key_clients = [];
    rpt_masked_result_clients = [];
    public_keys = [];
    stage = exchange_public_key;
    stage_timer = true;
    wait_aggregate_timer = true;
    error = none;
    registered = true;
  }

  -- `__process_error`
  unfoldable pub process_simple_error :
      SimpleError → SimpleServer Key Weight → SimpleServer Key Weight
  process_simple_error error self = elim self.error [
    | some _ ↦ self
    | none ↦ record self { error = some error; registered = false }
  ]

  -- `__exchange_public_keys`; the keys go to the clients that sent one.
  abbrev pub broadcast_public_keys : SimpleServer Key Weight → SimpleServer Key Weight
  broadcast_public_keys self = record self { stage_timer = false; stage = ciphertext_aggregate }

  -- `__handle_public_key`
  unfoldable pub handle_simple_key :
      (client_id : ℕ) → Key → SimpleServer Key Weight → Result SimpleError (SimpleServer Key Weight)
  unfolding insert
  handle_simple_key client_id key self =
      let saved = record self {
        public_keys = insert client_id key self.public_keys;
        rpt_public_key_clients = self.rpt_public_key_clients ++ (client_id ∷ []);
      } in
      if same_stage self.stage exchange_public_key
      then ok (
          if nat_beq (length saved.rpt_public_key_clients) self.client_num
          then broadcast_public_keys saved
          else saved)
      else raise wrong_stage

  abbrev pub raise_if_error : SimpleServer Key Weight → Result SimpleError (Unit {0})
  raise_if_error self = elim self.error [ none ↦ ok tt | some error ↦ raise error ]

  -- `ciphertext_accumulate`, with what adds a report to the total so far
  unfoldable pub accumulate_simple :
      (accumulate : Option Weight → Weight → Weight)
      → Weight
      → (client_id : ℕ) → SimpleServer Key Weight
      → Result SimpleError (SimpleServer Key Weight)
  accumulate_simple accumulate reported client_id self = do
    raise_if (same_stage self.stage exchange_public_key) mask_not_ready
    raise_if (same_stage self.stage decrypt_result) already_decrypting
    raise_if_error self
    ok (record self {
      total_data = some (accumulate self.total_data reported);
      rpt_masked_result_clients = self.rpt_masked_result_clients ++ (client_id ∷ []);
    })

  -- `__assert_client_not_drop`
  unfoldable pub assert_client_not_drop : SimpleServer Key Weight → Result SimpleError (Unit {0})
  unfolding common_number
  assert_client_not_drop self =
      let same_values = common_number self.rpt_public_key_clients self.rpt_masked_result_clients in
      raise_if
        (ltb same_values self.min_client_num
          || not (nat_beq same_values (length self.rpt_masked_result_clients))
          || not (nat_beq same_values (length self.rpt_public_key_clients)))
        client_dropped

  -- `decrypt`: the server as it is after, and the total
  unfoldable pub decrypt_simple :
      SimpleServer Key Weight → SimpleServer Key Weight × Result SimpleError (Option Weight)
  unfolding assert_client_not_drop
  decrypt_simple self =
      let cancelled = record self { wait_aggregate_timer = false } in
      if same_stage self.stage ciphertext_aggregate
      then elim (assert_client_not_drop self >> raise_if_error self) [
        | raise failure ↦ (cancelled, raise failure)
        | ok _ ↦ (record cancelled { stage = decrypt_result }, ok self.total_data)
      ]
      else (self, raise wrong_stage)

pub data SimpleEvent (Key Weight : Type 0) : Type 0 where
  key_comes : ℕ → Key → SimpleEvent Key Weight
  report_comes : Weight → ℕ → SimpleEvent Key Weight
  decrypts stage_ends wait_ends : SimpleEvent Key Weight

module _ {Key Weight : Type 0} (accumulate : Option Weight → Weight → Weight) where
  abbrev after_call :
      SimpleServer Key Weight
      → Result SimpleError (SimpleServer Key Weight)
      → SimpleServer Key Weight
  after_call self (ok after) = after
  after_call self (raise _) = self

  -- `handle_msg`, the calls and the timers; a call that raises leaves the server as it was.
  unfoldable pub handle_simple :
      SimpleEvent Key Weight → SimpleServer Key Weight → SimpleServer Key Weight
  unfolding handle_simple_key accumulate_simple decrypt_simple process_simple_error
  handle_simple (key_comes client_id key) self =
      after_call self (handle_simple_key client_id key self)
  handle_simple (report_comes reported client_id) self =
      after_call self (accumulate_simple accumulate reported client_id self)
  handle_simple decrypts self = (decrypt_simple self).0
  handle_simple stage_ends self = if self.stage_timer then broadcast_public_keys self else self
  handle_simple wait_ends self =
      if self.wait_aggregate_timer then process_simple_error wait_timed_out self else self

  unfoldable pub handle_simple_all :
      List (SimpleEvent Key Weight) → SimpleServer Key Weight → SimpleServer Key Weight
  unfolding handle_simple
  handle_simple_all [] self = self
  handle_simple_all (event ∷ events) self = handle_simple_all events (handle_simple event self)
