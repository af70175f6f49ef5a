-- ===== src/SecureAggregate/Tests.antt =====
-- Runs of secure aggregation with integers in place of arrays
-- (neursafe_fl/python/libs/secure/secure_aggregate).
use yanshi_shield.Base.{
  ℕ, suc, ◌+◌, ◌*◌, ◌≡◌, refl, none, List, [], ◌∷◌, arith, nat_eq, ok, Option, Result, some,
}
use yanshi_shield.Base.Int.{ℤ, pos, ◌-ℤ◌, ◌+ℤ◌, int_laws}
use yanshi_shield.Base.Dict.{Dict, lookup, contains, insert}
use yanshi_shield.SecureAggregate.Arrays.{ArrayLib}
use yanshi_shield.SecureAggregate.DiffieHellman.{public_key, agree, agree_symm}
use yanshi_shield.SecureAggregate.Protector.{Weights}
use yanshi_shield.SecureAggregate.Server.{
  Server, initialized, Event, public_key_rpt, encrypted_shares_rpt, secret_shares_rpt, accumulates,
  decrypts, decrypt_resumes, stage_timer_ends, ServerError, handle_all, handle, handle_public_key,
  handle_encrypted_shares, ciphertext_accumulate, handle_secret_shares, decrypt_begin,
  stage_timeout, resume_decrypt, decrypt_end, assert_stage, exchange_public_keys,
  exchange_encrypted_shares, process_error, generate_double_mask, all_served,
}
use yanshi_shield.SecureAggregate.Shares.{reconstruct_encrypted_shares}
use yanshi_shield.SecureAggregate.Server.Stages.{Later, handle_all-Later, IsSettled}

-- One shape, with integers for its arrays; a generator counts up.
abbrev integers : ArrayLib
integers = record {
  Shape = Unit {0};
  Array = λ _. ℤ;
  zeros = λ _. pos 0;
  add = λ _ a b. a +ℤ b;
  subtract = λ _ a b. a -ℤ b;
  add_comm = λ _ a b. omega int_laws;
  add_assoc = λ _ a b c. omega int_laws;
  zeros-add = λ _ a. omega int_laws;
  subtract-add = λ _ a b. omega int_laws;
  add-subtract = λ _ a b. omega int_laws;
  Generator = ℕ;
  default_rng = λ seed. seed;
  random = λ state _. (pos (state * state), suc state);
}

agree_symm_example : agree 3 17 4 (public_key 3 17 5) ≡ agree 3 17 5 (public_key 3 17 4)
agree_symm_example = agree_symm 3 17 4 5

abbrev secret : ℕ → ℕ
secret u = u + 2

abbrev own_mask : ℕ → ℕ
own_mask u = u + 1

-- A secret is shared as it is.
abbrev first_share : List ℕ → ℕ
first_share [] = 0
first_share (share ∷ _) = share

abbrev weights : ℕ → Weights integers (tt ∷ tt ∷ [])
weights u = (pos (10 * u), (pos (100 * u), tt))

abbrev three_clients : List ℕ
three_clients = 1 ∷ 2 ∷ 3 ∷ []

abbrev s_shares : Dict ℕ (List ℕ)
s_shares = (2, 4 ∷ []) ∷ []

abbrev b_shares : Dict ℕ (List ℕ)
b_shares = (1, 2 ∷ []) ∷ (3, 4 ∷ []) ∷ []

abbrev keys_of_three : Dict ℕ ℕ
keys_of_three = (1, public_key 3 17 3) ∷ (2, public_key 3 17 4) ∷ (3, public_key 3 17 5) ∷ []

-- Three clients' shares, each for the two others and one for itself.
abbrev sent_shares : List (ℕ × List (ℕ × ℕ))
sent_shares =
    (1, (2, 12) ∷ (3, 13) ∷ [])
    ∷ (2, (1, 21) ∷ (2, 22) ∷ (3, 23) ∷ [])
    ∷ (3, (1, 31) ∷ (2, 32) ∷ [])
    ∷ []

abbrev reported_shares : List (List (ℕ × ℕ))
reported_shares = ((1, 5) ∷ (2, 6) ∷ []) ∷ ((2, 7) ∷ (1, 8) ∷ []) ∷ []

-- Two clients go through the protocol, and one more report comes too late.
abbrev two_clients : List (Event ℕ ℕ ℕ ℕ)
two_clients =
    public_key_rpt 1 10
    ∷ public_key_rpt 2 20
    ∷ encrypted_shares_rpt 1 ((2, 12) ∷ [])
    ∷ encrypted_shares_rpt 2 ((1, 21) ∷ [])
    ∷ accumulates 1 5
    ∷ accumulates 2 10
    ∷ decrypts
    ∷ accumulates 1 5
    ∷ secret_shares_rpt 100
    ∷ stage_timer_ends
    ∷ decrypt_resumes
    ∷ decrypt_resumes
    ∷ []

abbrev plus : Option ℕ → ℕ → ℕ
plus none n = n
plus (some m) n = m + n

-- The masks are the sum of the secret shares.
abbrev sum_masks : List ℕ → ℕ → ℕ × Result ServerError (Unit {0})
sum_masks [] masks = (masks, ok tt)
sum_masks (share ∷ shares) masks = sum_masks shares (masks + share)

abbrev plus_masks : ℕ → ℕ → ℕ
plus_masks masks total = total + masks

abbrev start : Server ℕ ℕ ℕ ℕ ℕ
start = initialized 0

handle_all-Later_example :
    Later plus_masks start (handle_all 2 plus sum_masks plus_masks two_clients start)
handle_all-Later_example = handle_all-Later 2 plus sum_masks plus_masks two_clients start refl

-- The masks are added to the total once.
total_of_two : (handle_all 2 plus sum_masks plus_masks two_clients start).total_data ≡ some 115
unfolding handle_all handle handle_public_key handle_encrypted_shares ciphertext_accumulate
    handle_secret_shares decrypt_begin stage_timeout resume_decrypt decrypt_end assert_stage
    exchange_public_keys exchange_encrypted_shares process_error generate_double_mask all_served
    reconstruct_encrypted_shares contains insert lookup
total_of_two = refl

start-IsSettled : IsSettled 2 plus sum_masks plus_masks start
start-IsSettled = record {
  in_step = refl;
  failed = λ e. cc;
  finished = λ e. absurd (omega arith);
  masked = λ e. cc;
  unregistered = λ e. cc;
}
