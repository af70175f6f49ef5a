-- ===== src/SecureAggregate/Client/Secrets.antt =====
-- neursafe_fl/python/libs/secure/secure_aggregate/ssa_client.py: what a client does with the secrets, its
-- own and those of others, and the events that it handles.
use yanshi_shield.Base.{
  ℕ, ◌-◌, Bool, true, false, Option, none, some, List, [], ◌∷◌, ◌++◌, if◌then◌else◌, ltb, nat_beq,
  nat_eq, Result, ok, raise, ◌>>=◌,
}
use yanshi_shield.Base.Dict.{Dict, lookup}
use yanshi_shield.SecureAggregate.DiffieHellman.{agree}
use yanshi_shield.SecureAggregate.Server.{exchange_encrypted_share, ciphertext_aggregate}
use yanshi_shield.SecureAggregate.Client.{
  decryption_failed, missing_key, missing_share, ClientError, PublicKey, ShareMessage, SecretShares,
  Cryptography, SsaClient, ClientEvent, timed_out, public_keys_come, exchange_runs,
  encrypted_shares_come, mask_generation_runs, alive_clients_come, answer_runs, finishes,
  stage_timer_ends, ready_timer_ends, aggregate_timer_ends, is_alive, process_error,
  handle_public_keys, handle_encrypted_shares, handle_alive_clients, finish,
}

module _ {Share : Type 0} where
  abbrev last_share : List Share → Option Share
  last_share [] = none
  last_share (share ∷ []) = some share
  last_share (_ ∷ share ∷ shares) = last_share (share ∷ shares)

  -- One share goes in: that of the number `b` of a client alive, or that of the key of another.
  abbrev pub add_secret_share :
      Bool → ℕ → ShareMessage Share → SecretShares Share → SecretShares Share
  add_secret_share true client_id shares secret_shares = record secret_shares {
    b_share = (client_id, shares.b_share) ∷ secret_shares.b_share;
  }
  add_secret_share false client_id shares secret_shares = record secret_shares {
    s_sk_share = (client_id, shares.s_sk_share) ∷ secret_shares.s_sk_share;
  }

  -- `__add_my_b_share`
  abbrev pub add_my_b_share :
      Option Share → (my_id : ℕ) → SecretShares Share → Result ClientError (SecretShares Share)
  add_my_b_share none my_id secret_shares = raise missing_share
  add_my_b_share (some share) my_id secret_shares =
      ok (record secret_shares { b_share = secret_shares.b_share ++ ((my_id, share) ∷ []) })

module _ {Share Data : Type 0} (crypto : Cryptography Share Data) where
  -- `__encrypt_shares`, of the peers with the shares at the same index
  unfoldable pub encrypt_shares :
      (my_id c_sk : ℕ)
      → Dict ℕ PublicKey
      → (s_sk_shares b_shares : List Share) → Result ClientError (List (ℕ × Data))
  encrypt_shares my_id c_sk [] s_sk_shares b_shares = ok []
  encrypt_shares my_id c_sk ((client_id, public_key) ∷ peers) (s_sk_share ∷ s_sk_shares)
        (b_share ∷ b_shares) =
      encrypt_shares my_id c_sk peers s_sk_shares b_shares >>= λ rest. ok (
        (
          client_id,
          crypto.encrypt (agree crypto.g crypto.p c_sk public_key.c_pk)
              (record {
                sender = my_id;
                receiver = client_id;
                s_sk_share = s_sk_share;
                b_share = b_share;
              })
              my_id,
        )
        ∷ rest)
  encrypt_shares my_id c_sk (peer ∷ peers) _ _ = raise missing_share

  -- `__exchange_encrypted_share`, with the number `b` that is drawn, and what it sends
  unfoldable exchange_shares :
      ℕ → SsaClient Share Data → SsaClient Share Data × Result ClientError (List (ℕ × Data))
  unfolding encrypt_shares
  exchange_shares b self =
      let b_shares = crypto.split_secret b self.min_client_num self.client_num in
      let s_sk_shares = crypto.split_secret self.s_sk self.min_client_num self.client_num in
      (
        record self {
          stage = exchange_encrypted_share;
          stage_timer = true;
          b = b;
          my_b_share = last_share b_shares;
        },
        encrypt_shares self.my_id self.c_sk self.dh_public_keys s_sk_shares b_shares,
      )

  -- The loop of `__generate_double_mask`
  unfoldable generate_seeds :
      SsaClient Share Data
      → List (ℕ × Data)
      → List (ℕ × ℕ)
      → List (ℕ × ℕ) × Result ClientError (Unit {0})
  unfolding lookup
  generate_seeds self [] s_uv_s = (s_uv_s, ok tt)
  generate_seeds self ((v_id, _) ∷ shares) s_uv_s =
      let skipped = generate_seeds self shares s_uv_s in
      if nat_beq self.my_id v_id then skipped else elim (lookup v_id self.dh_public_keys) [
        | none ↦ (s_uv_s, raise missing_key)
        | some public_key ↦
            generate_seeds self shares
              (s_uv_s ++ ((v_id, agree crypto.g crypto.p self.s_sk public_key.s_pk) ∷ []))
      ]

  -- `__generate_double_mask`; what it raises is lost with its task.
  unfoldable pub generate_double_mask : SsaClient Share Data → SsaClient Share Data
  unfolding generate_seeds
  generate_double_mask self =
      let (s_uv_s, result) = generate_seeds self self.encrypted_shares self.s_uv_s in
      elim result [
        | raise _ ↦ record self { s_uv_s = s_uv_s }
        | ok _ ↦ record self { s_uv_s = s_uv_s; stage = ciphertext_aggregate; ready = true }
      ]

  -- `__decrypt_shares`
  unfoldable pub decrypt_shares :
      SsaClient Share Data → ℕ × Data → Result ClientError (ShareMessage Share)
  unfolding lookup
  decrypt_shares self (client_id, share) = elim (lookup client_id self.dh_public_keys) [
    | none ↦ raise missing_key
    | some public_key ↦
        elim (crypto.decrypt (agree crypto.g crypto.p self.c_sk public_key.c_pk) share client_id) [
          | none ↦ raise decryption_failed
          | some shares ↦ ok shares
        ]
  ]

  -- The loop of `__take_out_shares`, before `__add_my_b_share`
  unfoldable pub take_out_from :
      SsaClient Share Data → List ℕ → List (ℕ × Data) → Result ClientError (SecretShares Share)
  unfolding decrypt_shares
  take_out_from self alive [] = ok (record { b_share = []; s_sk_share = [] })
  take_out_from self alive ((client_id, share) ∷ shares) =
      decrypt_shares self (client_id, share) >>= λ message.
      take_out_from self alive shares >>= λ rest.
      ok (add_secret_share (is_alive client_id alive) client_id message rest)

  -- `__take_out_shares`
  unfoldable pub take_out_shares :
      SsaClient Share Data → List ℕ → Result ClientError (SecretShares Share)
  unfolding take_out_from
  take_out_shares self alive =
      take_out_from self alive self.encrypted_shares >>= add_my_b_share self.my_b_share self.my_id

  -- `__process_alive_clients`, and what it sends
  unfoldable process_alive_clients :
      List ℕ → SsaClient Share Data → SsaClient Share Data × Result ClientError (SecretShares Share)
  unfolding take_out_shares
  process_alive_clients alive self =
      (record self { registered = false }, take_out_shares self alive)

  -- `handle_msg` with the handlers, the tasks and the timers; a task runs once for each time that it
  -- was made, and messages reach a registered client only. An exchange that fails ends its task.
  unfoldable handle_client : ClientEvent Data → SsaClient Share Data → SsaClient Share Data
  unfolding handle_public_keys exchange_shares handle_encrypted_shares generate_double_mask
      handle_alive_clients process_alive_clients finish process_error
  handle_client (public_keys_come public_keys) self =
      if self.registered then handle_public_keys public_keys self else self
  handle_client (exchange_runs b) self =
      if ltb 0 self.exchanges
      then record ((exchange_shares b self).0) { exchanges = self.exchanges - 1 }
      else self
  handle_client (encrypted_shares_come shares) self =
      if self.registered then handle_encrypted_shares shares self else self
  handle_client mask_generation_runs self =
      if ltb 0 self.mask_generations
      then record (generate_double_mask self) { mask_generations = self.mask_generations - 1 }
      else self
  handle_client (alive_clients_come alive) self =
      if self.registered then handle_alive_clients alive self else self
  handle_client answer_runs self = elim self.answers [
    | [] ↦ self
    | alive ∷ answers ↦ record ((process_alive_clients alive self).0) { answers = answers }
  ]
  handle_client (finishes success) self = finish success self
  handle_client stage_timer_ends self =
      if self.stage_timer then process_error timed_out self else self
  handle_client ready_timer_ends self =
      if self.ready_timer then process_error timed_out self else self
  handle_client aggregate_timer_ends self =
      if self.aggregate_timer then process_error timed_out self else self

  unfoldable handle_client_events :
      List (ClientEvent Data) → SsaClient Share Data → SsaClient Share Data
  unfolding handle_client
  handle_client_events [] self = self
  handle_client_events (event ∷ events) self =
      handle_client_events events (handle_client event self)
