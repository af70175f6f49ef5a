-- ===== src/SecureAggregate/Masks/Agreement.antt =====
-- Both sides draw their masks from the same generators, so what the server decrypts is the sum.
use yanshi_shield.Base.{
  ℕ, ◌≤◌, ◌≡◌, refl, ap, ◌∙◌, true, false, some, List, [], ◌∷◌, map, arith, nat_eq, nat_beq, ltb,
  length, All, Bool-cases, nat_beq_iff, inl, inr, ok, ◌>>=◌,
}
use yanshi_shield.Base.Dict.{Dict, lookup}
use yanshi_shield.SecureAggregate.Arrays.{ArrayLib}
use yanshi_shield.SecureAggregate.DiffieHellman.{public_key, agree, agree_symm}
use yanshi_shield.SecureAggregate.Unmasking.Cancelling.{dropped}
use yanshi_shield.SecureAggregate.Unmasking.Generators.{peers, pairs_of, masks_for, pair_masks}
use yanshi_shield.SecureAggregate.Masks.{
  double_mask_pairs, recover_for, recover_keys, generate_b_masks, masks_with, masks_over,
  generate_s_uv_masks, get_item-some,
}

-- The dict holds a function's value for each of the clients.
abbrev pub Holds : (ℕ → ℕ) → Dict ℕ ℕ → List ℕ → Type 0
Holds f d clients = All (λ v. lookup v d ≡ some (f v)) clients

-- Enough shares are reported for each of the clients, and they give back its secret.
abbrev pub Recovers :
    (Share : Type 0) → (List Share → ℕ) → ℕ → (ℕ → ℕ) → Dict ℕ (List Share) → List ℕ → Type 0
Recovers Share recover_secret min_client_num f d clients =
    All
      (λ v.
        (shares : List Share) × (lookup v d ≡ some shares)
        × (min_client_num ≤ length shares)
        × (recover_secret shares ≡ f v))
      clients

module _ (lib : ArrayLib) (g p : ℕ) (s_sk : ℕ → ℕ) where
  -- The generator that two clients share.
  abbrev pub shared : ℕ → ℕ → lib.Generator
  shared u v = lib.default_rng (agree g p (s_sk u) (public_key g p (s_sk v)))

  pub shared_symm : (u v : ℕ) → shared u v ≡ shared v u
  shared_symm u v = ap lib.default_rng (agree_symm g p (s_sk u) (s_sk v))

  abbrev pub public_of : ℕ → ℕ
  public_of v = public_key g p (s_sk v)

  pub double_mask_pairs_lem :
      (u : ℕ) (keys : Dict ℕ ℕ) (clients : List ℕ)
      → Holds public_of keys clients
      → double_mask_pairs lib g p u (s_sk u) keys clients
        ≡ ok (pairs_of lib shared u (peers u clients))
  unfolding double_mask_pairs
  double_mask_pairs_lem u keys [] h = refl
  double_mask_pairs_lem u keys (v ∷ clients) h = elim (Bool-cases (nat_beq v u)) [
    | inl same ↦
        let same' : nat_beq u v ≡ true = ground arith in
        rw (same, same') (double_mask_pairs_lem u keys clients h.1)
    | inr other ↦
        let other' : nat_beq u v ≡ false = ground arith in
        rw (other, other', get_item-some v keys h.0, double_mask_pairs_lem u keys clients h.1)
  ]

  masks_with_lem :
      (a : ℕ) (sks keys : Dict ℕ ℕ) (ds : List ℕ)
      → Holds s_sk sks ds
      → lookup a keys ≡ some (public_of a)
      → masks_with lib g p a sks keys ds ≡ ok (masks_for lib shared a ds)
  unfolding masks_with
  masks_with_lem a sks keys [] hs hk = refl
  masks_with_lem a sks keys (d ∷ ds) hs hk =
      rw (get_item-some d sks hs.0, get_item-some a keys hk, masks_with_lem a sks keys ds hs.1 hk)

  masks_over_lem :
      (sks keys : Dict ℕ ℕ) (ds as_ : List ℕ)
      → Holds s_sk sks ds
      → Holds public_of keys as_
      → masks_over lib g p sks keys ds as_ ≡ ok (pair_masks lib shared as_ ds)
  unfolding masks_over
  masks_over_lem sks keys ds [] hs hk = refl
  masks_over_lem sks keys ds (a ∷ as_) hs hk =
      rw (masks_with_lem a sks keys ds hs hk.0, masks_over_lem sks keys ds as_ hs hk.1)

module _ (Share : Type 0) (recover_secret : List Share → ℕ) (min_client_num : ℕ) where
  pub recover_for_lem :
      (f : ℕ → ℕ) (d : Dict ℕ (List Share)) (v : ℕ) (shares : List Share)
      → lookup v d ≡ some shares
      → min_client_num ≤ length shares
      → recover_secret shares ≡ f v
      → recover_for Share recover_secret min_client_num d v ≡ ok (f v)
  unfolding recover_for
  recover_for_lem f d v shares found enough e =
      let short : ltb (length shares) min_client_num ≡ false = ground arith in
      rw (get_item-some v d found, short, e) refl

  recover_keys_lem :
      (f : ℕ → ℕ) (d : Dict ℕ (List Share)) (clients : List ℕ)
      → Recovers Share recover_secret min_client_num f d clients
      → recover_keys Share recover_secret min_client_num d clients
        ≡ ok (map (λ v. (v, f v)) clients)
  unfolding recover_keys
  recover_keys_lem f d [] h = refl
  recover_keys_lem f d (v ∷ clients) ((shares, found, enough, e), h) =
      rw (recover_for_lem f d v shares found enough e, recover_keys_lem f d clients h)

  pub generate_b_masks_lem :
      (lib : ArrayLib) (f : ℕ → ℕ) (d : Dict ℕ (List Share)) (clients : List ℕ)
      → Recovers Share recover_secret min_client_num f d clients
      → generate_b_masks Share recover_secret min_client_num lib d clients
        ≡ ok (map (λ v. lib.default_rng (f v)) clients)
  unfolding generate_b_masks
  generate_b_masks_lem lib f d [] h = refl
  generate_b_masks_lem lib f d (v ∷ clients) ((shares, found, enough, e), h) =
      rw (recover_for_lem f d v shares found enough e, generate_b_masks_lem lib f d clients h)

-- A dict of a function's values holds one more.
Holds-cons :
    (f : ℕ → ℕ) (j : ℕ) (d : Dict ℕ ℕ) (clients : List ℕ)
    → Holds f d clients
    → Holds f ((j, f j) ∷ d) clients
unfolding lookup
Holds-cons f j d [] h = tt
Holds-cons f j d (v ∷ clients) h = (
  elim (Bool-cases (nat_beq j v)) [
    | inl same ↦ rw same (ap (λ i. some (f i)) ((nat_beq_iff j v).0 same))
    | inr other ↦ rw other h.0
  ],
  Holds-cons f j d clients h.1,
)

pub Holds-map : (f : ℕ → ℕ) (clients : List ℕ) → Holds f (map (λ v. (v, f v)) clients) clients
unfolding lookup
Holds-map f [] = tt
Holds-map f (v ∷ clients) =
    let here : nat_beq v v ≡ true = ground arith in
    (rw here refl, Holds-cons f v _ clients (Holds-map f clients))

-- The server's generators for the pairs of a client that dropped out and one that did not.
pub generate_s_uv_masks_lem :
    (Share : Type 0) (recover_secret : List Share → ℕ) (min_client_num : ℕ) (lib : ArrayLib)
    (g p : ℕ) (s_sk : ℕ → ℕ) (all_s_shares : Dict ℕ (List Share)) (public_keys : Dict ℕ ℕ)
    (all_clients alive : List ℕ)
    → Recovers Share recover_secret min_client_num s_sk all_s_shares (dropped alive all_clients)
    → Holds (public_of lib g p s_sk) public_keys alive
    → generate_s_uv_masks Share recover_secret min_client_num lib g p all_s_shares public_keys
        all_clients alive
      ≡ ok (pair_masks lib (shared lib g p s_sk) alive (dropped alive all_clients))
unfolding generate_s_uv_masks
generate_s_uv_masks_lem Share recover_secret min_client_num lib g p s_sk all_s_shares public_keys
      all_clients alive shares keys =
    let lost = dropped alive all_clients in
    ap (λ r. r >>= λ sks. masks_over lib g p sks public_keys lost alive)
      (recover_keys_lem Share recover_secret min_client_num s_sk all_s_shares lost shares)
    ∙ masks_over_lem lib g p s_sk (map (λ v. (v, s_sk v)) lost) public_keys lost alive
        (Holds-map s_sk lost) keys
