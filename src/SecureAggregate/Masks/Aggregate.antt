-- ===== src/SecureAggregate/Masks/Aggregate.antt =====
-- The whole of secure aggregation, from the clients' keys to the server's sum.
use yanshi_shield.Base.{ℕ, Option, none, some, List, [], ◌∷◌, nat_eq, Result, ok, ◌>>=◌}
use yanshi_shield.Base.Dict.{Dict}
use yanshi_shield.SecureAggregate.Arrays.{ArrayLib}
use yanshi_shield.SecureAggregate.Protector.{Weights, encrypt}
use yanshi_shield.SecureAggregate.Unmasking.{accumulate_list}
use yanshi_shield.SecureAggregate.Masks.{MaskError, double_mask_pairs, double_mask_decrypt}

module _ (lib : ArrayLib) (g p : ℕ) (s_sk b : ℕ → ℕ) (ss : List lib.Shape)
    (all_clients : List ℕ) where
  -- The weights that a client reports, once it knows the public keys of the others.
  unfoldable pub report : Dict ℕ ℕ → (ℕ → Weights lib ss) → ℕ → Result MaskError (Weights lib ss)
  report public_keys x u = do
    pairs ← double_mask_pairs lib g p u (s_sk u) public_keys all_clients
    ok (encrypt lib ss (record { b = some (b u); s_uv_s = pairs; id_ = u }) (x u))

  -- The server adds the reports that arrive, in their order.
  unfoldable pub accumulate_reports :
      Dict ℕ ℕ
      → (ℕ → Weights lib ss)
      → Option (Weights lib ss)
      → List ℕ
      → Result MaskError (Option (Weights lib ss))
  accumulate_reports public_keys x total [] = ok total
  accumulate_reports public_keys x total (u ∷ us) = do
    data_ ← report public_keys x u
    accumulate_reports public_keys x (some (accumulate_list lib ss total data_)) us

-- A run: the clients of `alive` report their masked weights, and the server takes the masks off with
-- the shares. No report leaves no weights, which has no list to decrypt.
unfoldable pub secure_sum :
    (Share : Type 0) (recover_secret : List Share → ℕ) (min_client_num : ℕ) (lib : ArrayLib)
    (g p : ℕ) (s_sk b : ℕ → ℕ) (ss : List lib.Shape) (all_clients : List ℕ)
    → Dict ℕ (List Share)
    → Dict ℕ (List Share)
    → Dict ℕ ℕ
    → (ℕ → Weights lib ss)
    → List ℕ
    → Result MaskError (Option (Weights lib ss))
secure_sum Share recover_secret min_client_num lib g p s_sk b ss all_clients all_s_shares
      all_b_shares public_keys x alive =
    do
      total ← accumulate_reports lib g p s_sk b ss all_clients public_keys x none alive
      elim total [
        | none ↦ ok none
        | some data_ ↦
            double_mask_decrypt Share recover_secret min_client_num lib g p ss all_s_shares
              all_b_shares public_keys all_clients alive data_
            >>= λ result. ok (some result)
      ]
