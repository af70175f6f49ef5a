-- ===== src/SecureAggregate/Server/Stages.antt =====
-- The stages of `SSAServer` and what it has added up
-- (neursafe_fl/python/libs/secure/secure_aggregate/ssa_server.py).
use yanshi_shield.Base.{
  ℕ, ◌≤◌, ◌≡◌, refl, ◌∙◌, Bool, true, false, not, ◌||◌, Option, none, some, List, [], ◌∷◌, arith,
  nat_eq, Result,
}
use yanshi_shield.SecureAggregate.Server.{
  ProtocolStage, exchange_public_key, exchange_encrypted_share, decrypt_result, stage_number,
  same_stage, ServerError, StageTimer, off, on_public_keys, on_encrypted_shares, on_secret_shares,
  Server, process_error, assert_stage, exchange_public_keys, handle_public_key,
  exchange_encrypted_shares, handle_encrypted_shares, ciphertext_accumulate, decrypt_begin,
  generate_double_mask, Decryption, not_begun, awaits_masks, decrypted, decrypt_end, resume_decrypt,
  handle_secret_shares, stage_timeout, wait_aggregate_timeout, Event, accumulates, handle,
  handle_all, state_after,
}

abbrev pub is_given : {A : Type 0} → Option A → Bool
is_given none = false
is_given (some _) = true

-- The stages in which a timer runs
abbrev pub timer_fits : StageTimer → ProtocolStage → Bool
timer_fits off stage =
    not (same_stage stage exchange_public_key || same_stage stage exchange_encrypted_share)
timer_fits on_public_keys stage = same_stage stage exchange_public_key
timer_fits on_encrypted_shares stage = same_stage stage exchange_encrypted_share
timer_fits on_secret_shares stage = same_stage stage decrypt_result

abbrev pub is_awaiting : {Masks : Type 0} → Decryption Masks → Bool
is_awaiting awaits_masks = true
is_awaiting _ = false

abbrev pub has_begun : {Masks : Type 0} → Decryption Masks → Bool
has_begun not_begun = false
has_begun _ = true

module _ {Weight Masks : Type 0} (add_masks : Masks → Weight → Weight) where
  -- A total with the masks that `decrypt` has added to it, if it has returned
  abbrev pub unmasked : Decryption Masks → Option Weight → Option Weight
  unmasked (decrypted masks) (some total) = some (add_masks masks total)
  unmasked _ total = total

module _ {Key Data Secrets Weight Masks : Type 0} (add_masks : Masks → Weight → Weight) where
  -- The timer is that of the stage.
  abbrev pub IsInStep : Server Key Data Secrets Weight Masks → Type 0
  IsInStep self = timer_fits self.stage_timer self.stage ≡ true

  -- From one server state to a later one: the stages only go on. From the decryption on the clients that
  -- reported stay. The total stays but for the one time that `decrypt` returns, when it adds its masks.
  pub record Later (before after : Server Key Data Secrets Weight Masks) : Type 0 where
    pub in_step : IsInStep after
    pub forward : stage_number before.stage ≤ stage_number after.stage
    pub reported :
        same_stage before.stage decrypt_result ≡ true
        → after.rpt_masked_result_clients ≡ before.rpt_masked_result_clients
    pub awaiting :
        same_stage before.stage decrypt_result ≡ true
        → is_awaiting before.decryption ≡ true
        → after.total_data ≡ unmasked add_masks after.decryption before.total_data
    pub settled :
        same_stage before.stage decrypt_result ≡ true
        → is_awaiting before.decryption ≡ false
        → (after.total_data ≡ before.total_data) × (after.decryption ≡ before.decryption)

  Later-trans : (a b c : Server Key Data Secrets Weight Masks) → Later a b → Later b c → Later a c
  Later-trans a b c l m = record {
    in_step = m.in_step;
    forward = omega (arith, l.forward, m.forward);
    reported = λ h. m.reported (ground (arith, l.forward, h)) ∙ l.reported h;
    awaiting = λ h w. trans_awaiting h w (ground (arith, l.forward, h));
    settled = λ h w.
        let (total, stays) = l.settled h w in
        let (total', stays') = m.settled (ground (arith, l.forward, h)) (rw stays w) in
        (total' ∙ total, stays' ∙ stays);
  }
    where
      trans_awaiting :
          same_stage a.stage decrypt_result ≡ true
          → is_awaiting a.decryption ≡ true
          → same_stage b.stage decrypt_result ≡ true
          → c.total_data ≡ unmasked add_masks c.decryption a.total_data
      trans_awaiting h w hb = ground (arith, l.awaiting h w, m.awaiting hb, m.settled hb)

  Later-refl : (a : Server Key Data Secrets Weight Masks) → IsInStep a → Later a a
  Later-refl a h = record {
    in_step = h;
    forward = omega arith;
    reported = λ _. refl;
    awaiting = λ _ w. ground (arith, w);
    settled = λ _ _. (refl, refl);
  }

module _ {Weight : Type 0} (accumulate : Option Weight → Weight → Weight) (x : ℕ → Weight) where
  -- The weights of clients added up in the order of a list
  unfoldable pub sum_reports : Option Weight → List ℕ → Option Weight
  sum_reports total [] = total
  sum_reports total (u ∷ us) = sum_reports (some (accumulate total (x u))) us

module _ {Key Data Secrets Weight Masks : Type 0} (client_num : ℕ)
    (accumulate : Option Weight → Weight → Weight)
    (make_masks : List Secrets → Masks → Masks × Result ServerError (Unit {0}))
    (add_masks : Masks → Weight → Weight) where
  handle-Later :
      (event : Event Key Data Secrets Weight) (self : Server Key Data Secrets Weight Masks)
      → IsInStep add_masks self
      → Later add_masks self
          (state_after (handle client_num accumulate make_masks add_masks event self) self)
  unfolding handle handle_public_key handle_encrypted_shares handle_secret_shares
      ciphertext_accumulate decrypt_begin stage_timeout wait_aggregate_timeout assert_stage
      exchange_public_keys exchange_encrypted_shares process_error generate_double_mask
      resume_decrypt decrypt_end
  handle-Later event self h = record {
    in_step = ground arith;
    forward = ground arith;
    reported = ground arith;
    awaiting = ground arith;
    settled = ground arith;
  }

  -- Whatever events arrive, in whatever order, at a server whose timer is that of its stage: the stages
  -- never go back, and the timer stays that of the stage. Once the decryption has begun the list of the
  -- clients that reported changes no more, and the total changes once at most: while `decrypt` waits for
  -- the masks it stays, when that returns the masks are added to it, and then it stays for good.
  pub handle_all-Later :
      (events : List (Event Key Data Secrets Weight)) (self : Server Key Data Secrets Weight Masks)
      → IsInStep add_masks self
      → Later add_masks self (handle_all client_num accumulate make_masks add_masks events self)
  unfolding handle_all
  handle_all-Later [] self h = Later-refl add_masks self h
  handle_all-Later (event ∷ events) self h =
      let step = handle-Later event self h in
      Later-trans add_masks self _ _ step (handle_all-Later events _ step.in_step)

  -- The initialization counts as finished with an error and once weights are added up, and masks are
  -- ready only in the stage of the decryption, with the server no longer registered.
  pub record IsSettled (self : Server Key Data Secrets Weight Masks) : Type 0 where
    pub in_step : timer_fits self.stage_timer self.stage ≡ true
    pub failed : is_given self.error ≡ true → self.initialize_finished ≡ true
    pub finished : 2 ≤ stage_number self.stage → self.initialize_finished ≡ true
    pub masked : self.mask_ready ≡ true → self.stage ≡ decrypt_result
    pub unregistered : self.mask_ready ≡ true → self.registered ≡ false

  handle-IsSettled :
      (event : Event Key Data Secrets Weight) (self : Server Key Data Secrets Weight Masks)
      → IsSettled self
      → IsSettled (state_after (handle client_num accumulate make_masks add_masks event self) self)
  unfolding handle handle_public_key handle_encrypted_shares handle_secret_shares
      ciphertext_accumulate decrypt_begin stage_timeout wait_aggregate_timeout assert_stage
      exchange_public_keys exchange_encrypted_shares process_error generate_double_mask
      resume_decrypt decrypt_end
  handle-IsSettled event self h = record {
    in_step = ground (arith, h.in_step);
    failed = ground (arith, h.in_step, h.failed, h.finished);
    finished = ground (arith, h.in_step, h.finished, h.failed);
    masked = ground (arith, h.in_step, h.masked);
    unregistered = ground (arith, h.in_step, h.unregistered);
  }

  -- Whatever events arrive, in whatever order, these stay: the timer is that of the stage; who waits
  -- for the initialization waits no longer once there is an error or weights are added up; masks are
  -- ready only in the stage of the decryption, when the server is no longer registered for messages.
  handle_all-IsSettled :
      (events : List (Event Key Data Secrets Weight)) (self : Server Key Data Secrets Weight Masks)
      → IsSettled self
      → IsSettled (handle_all client_num accumulate make_masks add_masks events self)
  unfolding handle_all
  handle_all-IsSettled [] self h = h
  handle_all-IsSettled (event ∷ events) self h =
      handle_all-IsSettled events _ (handle-IsSettled event self h)

  module _ (x : ℕ → Weight) where
    -- Each report of weights is that of its client.
    abbrev pub IsOwn : Event Key Data Secrets Weight → Type 0
    IsOwn (accumulates client_id data_) = data_ ≡ x client_id
    IsOwn _ = Unit

    -- The total is the sum of what the listed clients reported, with the masks of the decryption once
    -- `decrypt` has returned, and `decrypt` has begun only in the last stage.
    pub record IsTotal (self : Server Key Data Secrets Weight Masks) : Type 0 where
      pub sum :
          self.total_data
          ≡ unmasked add_masks self.decryption
              (sum_reports accumulate x none self.rpt_masked_result_clients)
      pub begun : has_begun self.decryption ≡ true → self.stage ≡ decrypt_result
      pub timed : timer_fits self.stage_timer self.stage ≡ true
