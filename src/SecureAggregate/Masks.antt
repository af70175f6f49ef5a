-- ===== src/SecureAggregate/Masks.antt =====
-- neursafe_fl/python/libs/secure/secure_aggregate: how the generators of the masks come about, at
-- the clients (`__generate_double_mask` of ssa_client.py) and at the server (`__generate_s_uv_masks`
-- and `__generate_b_masks` of ssa_server.py). A share of a secret is opaque; `recover_secret` is the
-- library `secretsharing`.
pub mod Agreement
pub mod Aggregate
use yanshi_shield.Base.{
  ℕ, ◌≡◌, ap, Bool, not, Option, none, some, List, [], ◌∷◌, ◌++◌, nat_beq, ltb, nat_eq,
  if◌then◌else◌, length, filterb, Result, ok, raise, ◌>>=◌, ◌>>◌, raise_if,
}
use yanshi_shield.Base.Dict.{Dict, lookup}
use yanshi_shield.SecureAggregate.Arrays.{ArrayLib}
use yanshi_shield.SecureAggregate.DiffieHellman.{agree}
use yanshi_shield.SecureAggregate.Protector.{Pairs, Weights}
use yanshi_shield.SecureAggregate.Unmasking.{PairMasks, decrypt_list}
use yanshi_shield.SecureAggregate.Unmasking.Cancelling.{memb}

pub data MaskError : Type 0 where
  -- a missing entry of a dict
  key_error : MaskError
  -- "The number of ... shares report by client is less than threshold"
  too_few_shares : MaskError

-- `d[key]`
unfoldable pub get_item : {V : Type 0} → ℕ → Dict ℕ V → Result MaskError V
get_item key d = elim (lookup key d) [ none ↦ raise key_error | some v ↦ ok v ]

pub get_item-some :
    {V : Type 0} (key : ℕ) (d : Dict ℕ V) {v : V} → lookup key d ≡ some v → get_item key d ≡ ok v
unfolding get_item
get_item-some key d found = ap (λ o. elim o [ none ↦ raise key_error | some v ↦ ok v ]) found

-- The loop of the client's `__generate_double_mask`, over the clients whose shares it was sent.
unfoldable pub double_mask_pairs :
    (lib : ArrayLib) (g p my_id s_sk : ℕ) → Dict ℕ ℕ → List ℕ → Result MaskError (Pairs lib)
double_mask_pairs lib g p my_id s_sk public_keys [] = ok []
double_mask_pairs lib g p my_id s_sk public_keys (v_id ∷ rest) =
    let others = double_mask_pairs lib g p my_id s_sk public_keys rest in
    if nat_beq my_id v_id
    then others
    else (get_item v_id public_keys >>= λ s_pk.
        others >>= λ pairs. ok ((v_id, lib.default_rng (agree g p s_sk s_pk)) ∷ pairs))

module _ (Share : Type 0) (recover_secret : List Share → ℕ) (min_client_num : ℕ) where
  -- One secret out of the shares that were reported for a client.
  unfoldable pub recover_for : Dict ℕ (List Share) → ℕ → Result MaskError ℕ
  recover_for all_shares client_id = do
    shares ← get_item client_id all_shares
    raise_if (ltb (length shares) min_client_num) too_few_shares
    ok (recover_secret shares)

  -- The first loop of `__generate_s_uv_masks`, in some order of the dropped clients
  unfoldable pub recover_keys : Dict ℕ (List Share) → List ℕ → Result MaskError (Dict ℕ ℕ)
  unfolding recover_for
  recover_keys all_s_shares [] = ok []
  recover_keys all_s_shares (client_id ∷ rest) = do
    s_sk ← recover_for all_s_shares client_id
    others ← recover_keys all_s_shares rest
    ok ((client_id, s_sk) ∷ others)

  -- `__generate_b_masks`
  unfoldable pub generate_b_masks :
      (lib : ArrayLib) → Dict ℕ (List Share) → List ℕ → Result MaskError (List lib.Generator)
  unfolding recover_for
  generate_b_masks lib all_b_shares [] = ok []
  generate_b_masks lib all_b_shares (client_id ∷ rest) = do
    b_mask ← recover_for all_b_shares client_id
    others ← generate_b_masks lib all_b_shares rest
    ok (lib.default_rng b_mask ∷ others)

-- The inner loop over the dropped clients, for one client alive.
unfoldable pub masks_with :
    (lib : ArrayLib) (g p alive_id : ℕ)
    → Dict ℕ ℕ
    → Dict ℕ ℕ
    → List ℕ
    → Result MaskError (PairMasks lib)
masks_with lib g p alive_id s_sk_s public_keys [] = ok []
masks_with lib g p alive_id s_sk_s public_keys (drop_id ∷ rest) = do
  s_sk ← get_item drop_id s_sk_s
  s_pk ← get_item alive_id public_keys
  others ← masks_with lib g p alive_id s_sk_s public_keys rest
  ok ((drop_id, alive_id, lib.default_rng (agree g p s_sk s_pk)) ∷ others)

unfoldable pub masks_over :
    (lib : ArrayLib) (g p : ℕ)
    → Dict ℕ ℕ
    → Dict ℕ ℕ
    → List ℕ
    → List ℕ
    → Result MaskError (PairMasks lib)
unfolding masks_with
masks_over lib g p s_sk_s public_keys drop_clients [] = ok []
masks_over lib g p s_sk_s public_keys drop_clients (alive_id ∷ rest) = do
  here ← masks_with lib g p alive_id s_sk_s public_keys drop_clients
  others ← masks_over lib g p s_sk_s public_keys drop_clients rest
  ok (here ++ others)

-- `__generate_s_uv_masks`; the dropped clients sent their shares and no masked result.
unfoldable pub generate_s_uv_masks :
    (Share : Type 0) (recover_secret : List Share → ℕ) (min_client_num : ℕ) (lib : ArrayLib)
    (g p : ℕ)
    → Dict ℕ (List Share)
    → Dict ℕ ℕ
    → (shared reported : List ℕ) → Result MaskError (PairMasks lib)
unfolding recover_keys masks_over
generate_s_uv_masks Share recover_secret min_client_num lib g p all_s_shares public_keys shared
      reported =
    do
      let drop_clients = filterb (λ c. not (memb c reported)) shared
      s_sk_s ← recover_keys Share recover_secret min_client_num all_s_shares drop_clients
      masks_over lib g p s_sk_s public_keys drop_clients reported

-- `__generate_double_mask` of the server and `__do_decrypt` of a list, for the clients that sent their
-- encrypted shares, those that sent their masked weights, and the shares by client.
unfoldable pub double_mask_decrypt :
    (Share : Type 0) (recover_secret : List Share → ℕ) (min_client_num : ℕ) (lib : ArrayLib)
    (g p : ℕ) (ss : List lib.Shape)
    → Dict ℕ (List Share)
    → Dict ℕ (List Share)
    → Dict ℕ ℕ
    → (shared reported : List ℕ) → Weights lib ss
    → Result MaskError (Weights lib ss)
unfolding generate_s_uv_masks generate_b_masks
double_mask_decrypt Share recover_secret min_client_num lib g p ss all_s_shares all_b_shares
      public_keys shared reported total =
    do
      s_uv_masks ←
          generate_s_uv_masks Share recover_secret min_client_num lib g p all_s_shares public_keys
            shared reported
      b_masks ← generate_b_masks Share recover_secret min_client_num lib all_b_shares reported
      ok (decrypt_list lib ss s_uv_masks b_masks total)
