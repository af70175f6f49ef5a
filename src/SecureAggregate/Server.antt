-- ===== src/SecureAggregate/Server.antt =====
-- neursafe_fl/python/libs/secure/secure_aggregate/ssa_server.py: the class `SSAServer` as a state
-- machine. Public keys, the shares of a client and weights are of any types; timers are whether they
-- run. A broadcast is the list of the clients it goes to.
pub mod Stages
use yanshi_shield.Base.{
  ℕ, suc, Bool, true, false, not, ◌||◌, Option, none, some, List, [], ◌∷◌, ◌++◌, if◌then◌else◌,
  nat_beq, nat_eq, length, Result, ok, raise, ◌>>=◌, ◌>>◌, raise_if,
}
use yanshi_shield.Base.Dict.{Dict, insert, keys, contains}
use yanshi_shield.SecureAggregate.Shares.{reconstruct_encrypted_shares}

pub data ProtocolStage : Type 0 where
  exchange_public_key exchange_encrypted_share ciphertext_aggregate decrypt_result : ProtocolStage

abbrev pub stage_number : ProtocolStage → ℕ
stage_number exchange_public_key = 0
stage_number exchange_encrypted_share = 1
stage_number ciphertext_aggregate = 2
stage_number decrypt_result = 3

abbrev pub same_stage : ProtocolStage → ProtocolStage → Bool
same_stage a b = nat_beq (stage_number a) (stage_number b)

pub data ServerError : Type 0 where
  stage_timed_out : ProtocolStage → ServerError
  aggregate_timed_out : ProtocolStage → ServerError
  mask_not_ready already_decrypting no_surviving_clients share_missing : ServerError
  masks_failed unsupported_type : ServerError

-- What the stage timer calls when it runs out
pub data StageTimer : Type 0 where
  off on_public_keys on_encrypted_shares on_secret_shares : StageTimer

-- Where the coroutine of `decrypt` is: not begun, at the wait for the masks, gone with an exception, or
-- returned, with the masks that it has added to the total
pub data Decryption (Masks : Type 0) : Type 0 where
  not_begun awaits_masks given_up : Decryption Masks
  decrypted : Masks → Decryption Masks

pub record Server (Key Data Secrets Weight Masks : Type 0) : Type 0 where
  pub total_data : Option Weight
  pub stage : ProtocolStage
  pub error : Option ServerError
  pub stage_timer : StageTimer
  pub wait_aggregate_timer : Bool
  pub initialize_finished : Bool
  pub mask_ready : Bool
  pub registered : Bool
  pub rpt_public_key_num : ℕ
  pub rpt_encrypted_share_clients : List ℕ
  pub rpt_masked_result_clients : List ℕ
  pub rpt_secret_share_num : ℕ
  pub public_keys : Dict ℕ Key
  pub encrypted_shares : Dict ℕ (List (ℕ × Data))
  pub secret_shares : List Secrets
  -- `_s_uv_masks` and `_b_masks`
  pub masks : Masks
  pub decryption : Decryption Masks

-- Whether each client has a key in the dict, as the broadcast of the shares needs
unfoldable pub all_served : {Data : Type 0} → List ℕ → Dict ℕ (List (ℕ × Data)) → Bool
all_served [] shares = true
all_served (client_id ∷ rest) shares =
    if contains client_id shares then all_served rest shares else false

module _ {Key Data Secrets Weight Masks : Type 0} where
  -- `__init__` and `initialize`
  abbrev pub initialized : (no_masks : Masks) → Server Key Data Secrets Weight Masks
  initialized no_masks = record {
    total_data = none;
    stage = exchange_public_key;
    error = none;
    stage_timer = on_public_keys;
    wait_aggregate_timer = true;
    initialize_finished = false;
    mask_ready = false;
    registered = true;
    rpt_public_key_num = 0;
    rpt_encrypted_share_clients = [];
    rpt_masked_result_clients = [];
    rpt_secret_share_num = 0;
    public_keys = [];
    encrypted_shares = [];
    secret_shares = [];
    masks = no_masks;
    decryption = not_begun;
  }

  unfoldable pub process_error :
      ServerError → Server Key Data Secrets Weight Masks → Server Key Data Secrets Weight Masks
  process_error error self = elim self.error [
    | some _ ↦ self
    | none ↦ record self { error = some error; initialize_finished = true; registered = false }
  ]

  unfoldable pub assert_stage :
      ProtocolStage → Server Key Data Secrets Weight Masks → Result ServerError (Unit {0})
  assert_stage stage self =
      raise_if (not (same_stage self.stage stage)) (stage_timed_out self.stage)

  abbrev pub raise_exception_if_error :
      Server Key Data Secrets Weight Masks → Result ServerError (Unit {0})
  raise_exception_if_error self = elim self.error [ none ↦ ok tt | some error ↦ raise error ]

  -- `__exchange_public_keys`; the keys go to the clients that sent one.
  unfoldable pub exchange_public_keys :
      Server Key Data Secrets Weight Masks → Server Key Data Secrets Weight Masks
  exchange_public_keys self = record self {
    stage = exchange_encrypted_share;
    stage_timer = on_encrypted_shares;
  }

  unfoldable pub handle_public_key :
      (client_num client_id : ℕ)
      → Key
      → Server Key Data Secrets Weight Masks
      → Result ServerError (Server Key Data Secrets Weight Masks)
  unfolding assert_stage exchange_public_keys
  handle_public_key client_num client_id key self = do
    assert_stage exchange_public_key self
    let counted = record self {
      public_keys = insert client_id key self.public_keys;
      rpt_public_key_num = suc self.rpt_public_key_num;
    }
    ok (
        if nat_beq counted.rpt_public_key_num client_num
        then exchange_public_keys counted
        else counted)

  -- `__exchange_encrypted_shares`. A client to which nobody sent a share is a KeyError in the
  -- broadcast, which becomes the server's error.
  unfoldable pub exchange_encrypted_shares :
      Server Key Data Secrets Weight Masks → Server Key Data Secrets Weight Masks
  unfolding process_error all_served
  exchange_encrypted_shares self =
      let moved = record self { stage = ciphertext_aggregate; stage_timer = off } in
      let new_shares = reconstruct_encrypted_shares self.encrypted_shares [] in
      if all_served (keys self.encrypted_shares) new_shares
      then record moved { initialize_finished = true }
      else process_error share_missing moved

  unfoldable pub handle_encrypted_shares :
      (client_id : ℕ)
      → List (ℕ × Data)
      → Server Key Data Secrets Weight Masks
      → Result ServerError (Server Key Data Secrets Weight Masks)
  unfolding assert_stage exchange_encrypted_shares
  handle_encrypted_shares client_id shares self = do
    assert_stage exchange_encrypted_share self
    let saved = record self {
      encrypted_shares = insert client_id shares self.encrypted_shares;
      rpt_encrypted_share_clients = self.rpt_encrypted_share_clients ++ client_id ∷ [];
    }
    let exchanged = exchange_encrypted_shares saved
    ok (
        if nat_beq (length saved.rpt_encrypted_share_clients) saved.rpt_public_key_num
        then exchanged
        else saved)

  -- `ciphertext_accumulate`, with what adds a report to the total so far
  unfoldable pub ciphertext_accumulate :
      (accumulate : Option Weight → Weight → Weight) (data_ : Weight) (client_id : ℕ)
      → Server Key Data Secrets Weight Masks
      → Result ServerError (Server Key Data Secrets Weight Masks)
  ciphertext_accumulate accumulate data_ client_id self = do
    raise_if
        (same_stage self.stage exchange_public_key
          || same_stage self.stage exchange_encrypted_share)
        mask_not_ready
    raise_if (same_stage self.stage decrypt_result) already_decrypting
    raise_exception_if_error self
    ok (record self {
      total_data = some (accumulate self.total_data data_);
      rpt_masked_result_clients = self.rpt_masked_result_clients ++ client_id ∷ [];
    })

  -- `decrypt` from where the initialization has finished up to the wait for the masks; the clients
  -- that reported are told.
  unfoldable pub decrypt_begin :
      Server Key Data Secrets Weight Masks
      → Result ServerError (Server Key Data Secrets Weight Masks)
  unfolding assert_stage
  decrypt_begin self = do
    assert_stage ciphertext_aggregate self
    raise_exception_if_error self
    ok (record self {
      wait_aggregate_timer = false;
      stage = decrypt_result;
      stage_timer = on_secret_shares;
      decryption = awaits_masks;
    })

  -- `__generate_double_mask`, with what makes masks out of the secret shares and adds them to those made
  -- before, until it fails. A failure here replaces an error from before.
  unfoldable pub generate_double_mask :
      (make_masks : List Secrets → Masks → Masks × Result ServerError (Unit {0}))
      → Server Key Data Secrets Weight Masks
      → Server Key Data Secrets Weight Masks
  generate_double_mask make_masks self =
      let ended = record self { stage_timer = off; mask_ready = true; registered = false } in
      let made = make_masks self.secret_shares self.masks in
      elim self.secret_shares [
        | [] ↦ record ended { error = some no_surviving_clients }
        | _ ∷ _ ↦ elim made.1 [
          | ok _ ↦ record ended { masks = made.0 }
          | raise error ↦ record ended { masks = made.0; error = some error }
        ]
      ]

  -- `decrypt` from the wait for the masks on, with `__do_decrypt`: it raises an error, or a TypeError
  -- where there is no total, or adds the masks to the total. `add_masks` is the class's sum of the total
  -- with the mask of `__generate_mask`.
  unfoldable pub decrypt_end :
      (add_masks : Masks → Weight → Weight)
      → Server Key Data Secrets Weight Masks
      → Server Key Data Secrets Weight Masks × Result ServerError Weight
  decrypt_end add_masks self = elim self.error [
    | some error ↦ (record self { decryption = given_up }, raise error)
    | none ↦ elim self.total_data [
      | none ↦ (record self { decryption = given_up }, raise unsupported_type)
      | some total ↦ (
        record self {
          total_data = some (add_masks self.masks total);
          decryption = decrypted self.masks;
        },
        ok (add_masks self.masks total),
      )
    ]
  ]

  -- The event of the masks is set, and whoever waits for it is resumed.
  unfoldable pub resume_decrypt :
      (add_masks : Masks → Weight → Weight)
      → Server Key Data Secrets Weight Masks
      → Server Key Data Secrets Weight Masks
  unfolding decrypt_end
  resume_decrypt add_masks self =
      if self.mask_ready
      then elim self.decryption [ awaits_masks ↦ (decrypt_end add_masks self).0 | _ ↦ self ]
      else self

  unfoldable pub handle_secret_shares :
      (make_masks : List Secrets → Masks → Masks × Result ServerError (Unit {0}))
      → Secrets
      → Server Key Data Secrets Weight Masks
      → Result ServerError (Server Key Data Secrets Weight Masks)
  unfolding assert_stage generate_double_mask
  handle_secret_shares make_masks secrets self = do
    assert_stage decrypt_result self
    let saved = record self {
      secret_shares = self.secret_shares ++ secrets ∷ [];
      rpt_secret_share_num = suc self.rpt_secret_share_num;
    }
    let masked = generate_double_mask make_masks saved
    ok (
        if nat_beq saved.rpt_secret_share_num (length saved.rpt_masked_result_clients)
        then masked
        else saved)

  -- The stage timer runs out
  unfoldable pub stage_timeout :
      (make_masks : List Secrets → Masks → Masks × Result ServerError (Unit {0}))
      → Server Key Data Secrets Weight Masks
      → Server Key Data Secrets Weight Masks
  unfolding exchange_public_keys exchange_encrypted_shares generate_double_mask
  stage_timeout make_masks self = elim self.stage_timer [
    | off ↦ self
    | on_public_keys ↦ exchange_public_keys self
    | on_encrypted_shares ↦ exchange_encrypted_shares self
    | on_secret_shares ↦ generate_double_mask make_masks self
  ]

  unfoldable pub wait_aggregate_timeout :
      Server Key Data Secrets Weight Masks → Server Key Data Secrets Weight Masks
  unfolding process_error
  wait_aggregate_timeout self =
      if self.wait_aggregate_timer
      then process_error (aggregate_timed_out self.stage)
          (record self { wait_aggregate_timer = false })
      else self

-- What comes to the server: the messages of the protocol, the calls of its user, the timers.
pub data Event (Key Data Secrets Weight : Type 0) : Type 0 where
  public_key_rpt : ℕ → Key → Event Key Data Secrets Weight
  encrypted_shares_rpt : ℕ → List (ℕ × Data) → Event Key Data Secrets Weight
  secret_shares_rpt : Secrets → Event Key Data Secrets Weight
  accumulates : ℕ → Weight → Event Key Data Secrets Weight
  decrypts decrypt_resumes stage_timer_ends wait_timer_ends : Event Key Data Secrets Weight

-- A call that raises leaves the server as it was.
abbrev pub state_after : {S : Type 0} → Result ServerError S → S → S
state_after (ok self') self = self'
state_after (raise _) self = self

module _ {Key Data Secrets Weight Masks : Type 0} (client_num : ℕ)
    (accumulate : Option Weight → Weight → Weight)
    (make_masks : List Secrets → Masks → Masks × Result ServerError (Unit {0}))
    (add_masks : Masks → Weight → Weight) where
  -- `handle_msg` and the other entries
  unfoldable pub handle :
      Event Key Data Secrets Weight
      → Server Key Data Secrets Weight Masks
      → Result ServerError (Server Key Data Secrets Weight Masks)
  handle (public_key_rpt client_id key) self = handle_public_key client_num client_id key self
  handle (encrypted_shares_rpt client_id shares) self =
      handle_encrypted_shares client_id shares self
  handle (secret_shares_rpt secrets) self = handle_secret_shares make_masks secrets self
  handle (accumulates client_id data_) self = ciphertext_accumulate accumulate data_ client_id self
  handle decrypts self = decrypt_begin self
  handle decrypt_resumes self = ok (resume_decrypt add_masks self)
  handle stage_timer_ends self = ok (stage_timeout make_masks self)
  handle wait_timer_ends self = ok (wait_aggregate_timeout self)

  -- Events that come one after the other; one that raises leaves the server as it was.
  unfoldable pub handle_all :
      List (Event Key Data Secrets Weight)
      → Server Key Data Secrets Weight Masks
      → Server Key Data Secrets Weight Masks
  unfolding handle
  handle_all [] self = self
  handle_all (event ∷ events) self = handle_all events (state_after (handle event self) self)
