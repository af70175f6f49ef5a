-- ===== src/SecureAggregate/Client.antt =====
-- neursafe_fl/python/libs/secure/secure_aggregate/ssa_client.py: the class `SSAClient`. Its tasks run
-- later than they are made: they are events like the messages and the timers. The splitting of secrets
-- and the encryption are parameters; what is encrypted is a record in place of the joined string.
pub mod Secrets
pub mod Revealing
mod Tests
use yanshi_shield.Base.{
  ℕ, suc, ◌+◌, ◌-◌, Bool, true, false, not, ◌||◌, Option, none, some, List, [], ◌∷◌, ◌++◌,
  if◌then◌else◌, ltb, nat_beq, nat_eq, length, Result, ok, raise, ◌>>=◌, ◌>>◌, raise_if,
}
use yanshi_shield.Base.Dict.{Dict, lookup, insert}
use yanshi_shield.SecureAggregate.Server.{
  ProtocolStage, exchange_public_key, exchange_encrypted_share, ciphertext_aggregate,
  decrypt_result, same_stage,
}

pub data ClientError : Type 0 where
  wrong_stage too_few_clients missing_key missing_share decryption_failed wait_timed_out :
      ClientError
  timed_out reported_failure : ClientError

pub record PublicKey : Type 0 where
  pub s_pk : ℕ
  pub c_pk : ℕ

abbrev pub is_alive : ℕ → List ℕ → Bool
is_alive client_id [] = false
is_alive client_id (alive ∷ others) = nat_beq client_id alive || is_alive client_id others

-- What is joined by `ENCRYPTED_SHARE_DELIMITER`
pub record ShareMessage (Share : Type 0) : Type 0 where
  pub sender : ℕ
  pub receiver : ℕ
  pub s_sk_share : Share
  pub b_share : Share

-- `SecretShares`, by client
pub record SecretShares (Share : Type 0) : Type 0 where
  pub b_share : List (ℕ × Share)
  pub s_sk_share : List (ℕ × Share)

-- The libraries: `SecretSharer.split_secret`, `encrypt_with_gcm` and `decrypt_with_gcm` with the sender
-- as their associated data
pub record Cryptography (Share Data : Type 0) : Type 0 where
  pub g : ℕ
  pub p : ℕ
  pub split_secret : (secret threshold number : ℕ) → List Share
  pub encrypt : (aes_key : ℕ) → ShareMessage Share → (sender : ℕ) → Data
  pub decrypt : (aes_key : ℕ) → Data → (sender : ℕ) → Option (ShareMessage Share)

pub record SsaClient (Share Data : Type 0) : Type 0 where
  pub my_id : ℕ
  pub min_client_num : ℕ
  pub client_num : ℕ
  pub s_sk : ℕ
  pub c_sk : ℕ
  pub b : ℕ
  -- the clients with the seeds of the generators
  pub s_uv_s : List (ℕ × ℕ)
  pub stage : ProtocolStage
  pub error : Option ClientError
  pub ready : Bool
  pub ready_timer : Bool
  pub aggregate_timer : Bool
  pub stage_timer : Bool
  pub registered : Bool
  pub dh_public_keys : Dict ℕ PublicKey
  pub my_b_share : Option Share
  pub encrypted_shares : List (ℕ × Data)
  -- the tasks that wait to run
  pub exchanges : ℕ
  pub mask_generations : ℕ
  -- the clients alive that an answer is due for
  pub answers : List (List ℕ)

-- `__save_public_keys`
unfoldable save_public_keys : ℕ → List (ℕ × PublicKey) → Dict ℕ PublicKey → Dict ℕ PublicKey
unfolding insert
save_public_keys my_id [] known = known
save_public_keys my_id ((client_id, public_key) ∷ public_keys) known =
    let others = save_public_keys my_id public_keys known in
    let rest = save_public_keys my_id public_keys (insert client_id public_key known) in
    if nat_beq client_id my_id then others else rest

pub data ClientEvent (Data : Type 0) : Type 0 where
  public_keys_come : List (ℕ × PublicKey) → ClientEvent Data
  exchange_runs : (b : ℕ) → ClientEvent Data
  encrypted_shares_come : List (ℕ × Data) → ClientEvent Data
  mask_generation_runs : ClientEvent Data
  alive_clients_come : List ℕ → ClientEvent Data
  answer_runs : ClientEvent Data
  finishes : Bool → ClientEvent Data
  stage_timer_ends ready_timer_ends aggregate_timer_ends : ClientEvent Data

module _ {Share Data : Type 0} where
  -- `__init__`, `initialize` and `__start`, with the secret keys that are drawn
  abbrev pub initialized : (my_id min_client_num client_num s_sk c_sk : ℕ) → SsaClient Share Data
  initialized my_id min_client_num client_num s_sk c_sk = record {
    my_id = my_id;
    min_client_num = min_client_num;
    client_num = client_num;
    s_sk = s_sk;
    c_sk = c_sk;
    b = 0;
    s_uv_s = [];
    stage = exchange_public_key;
    error = none;
    ready = false;
    ready_timer = true;
    aggregate_timer = true;
    stage_timer = true;
    registered = true;
    dh_public_keys = [];
    my_b_share = none;
    encrypted_shares = [];
    exchanges = 0;
    mask_generations = 0;
    answers = [];
  }

  unfoldable pub process_error : ClientError → SsaClient Share Data → SsaClient Share Data
  process_error error self = elim self.error [
    | some _ ↦ self
    | none ↦ record self { error = some error; ready = true; registered = false }
  ]

  unfoldable pub assert_stage : ProtocolStage → SsaClient Share Data → Result ClientError (Unit {0})
  assert_stage stage self = raise_if (not (same_stage self.stage stage)) wrong_stage

  unfoldable assert_number : ℕ → SsaClient Share Data → Result ClientError (Unit {0})
  assert_number number self = raise_if (ltb number self.min_client_num) too_few_clients

  -- `__handle_public_keys`
  unfoldable pub handle_public_keys :
      List (ℕ × PublicKey) → SsaClient Share Data → SsaClient Share Data
  unfolding assert_stage assert_number process_error save_public_keys
  handle_public_keys public_keys self =
      elim (assert_stage exchange_public_key self >> assert_number (length public_keys) self) [
        | raise failure ↦ process_error failure self
        | ok _ ↦ record self {
          stage_timer = false;
          dh_public_keys = save_public_keys self.my_id public_keys self.dh_public_keys;
          exchanges = suc self.exchanges;
        }
      ]

  -- `__handle_encrypted_shares`
  unfoldable pub handle_encrypted_shares :
      List (ℕ × Data) → SsaClient Share Data → SsaClient Share Data
  unfolding assert_stage assert_number process_error
  handle_encrypted_shares shares self =
      elim (assert_stage exchange_encrypted_share self
        >> assert_number (suc (length shares)) self) [
          | raise failure ↦ process_error failure self
          | ok _ ↦ record self {
            stage_timer = false;
            encrypted_shares = shares;
            mask_generations = suc self.mask_generations;
          }
        ]

  -- `__handle_alive_clients`, once its wait is over: with the stage reached, or timed out
  unfoldable pub handle_alive_clients : List ℕ → SsaClient Share Data → SsaClient Share Data
  unfolding assert_number process_error
  handle_alive_clients alive self =
      elim (raise_if (not (same_stage self.stage decrypt_result)) wait_timed_out
        >> assert_number (length alive) self) [
          | raise failure ↦ process_error failure self
          | ok _ ↦ record self { aggregate_timer = false; answers = self.answers ++ (alive ∷ []) }
        ]

  -- `finish`
  unfoldable pub finish : Bool → SsaClient Share Data → SsaClient Share Data
  unfolding process_error
  finish success self =
      if success
      then record self { ready_timer = false; stage = decrypt_result }
      else process_error reported_failure self
